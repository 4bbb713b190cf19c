-- ===== src/Release/Download/Safe.antt =====
-- internal/release/download.go and verify.go: nothing is used of a release that isn't verified.
use mathlib.Core.List.{Memᴰ}
use proxmox_actions_runners.Prelude.{
  ◌≡◌, ◌≢◌, refl, sym, ap, ◌∙◌, true, false, ◌==◌, text_eq, text_beq_iff, List, [], ◌∷◌, Text, none,
  some, lookup, insert, delete, codes, arith, Bool-cases, Option-cases, inl, inr,
}
use proxmox_actions_runners.Prelude.Lists.{length, length-append}
use proxmox_actions_runners.Prelude.Maps.{lookup-insert, lookup-delete, lookup-insert_self}
use proxmox_actions_runners.Prelude.Results.{Result, ok, err, Result-cases}
use proxmox_actions_runners.Release.{Version}
use proxmox_actions_runners.Release.Verify.{any_verifies, verify_signature, parse_sums}
use proxmox_actions_runners.Release.Download.{
  Surroundings, Assets, Downloaded, Files, GetError, sums_name, sig_name, part_of, read_all,
  checked, fetch, read_file, file_sum, or_else, settle, download, is_there, get,
}

module _ {Key : Type 0} (env : Surroundings Key) where
  -- Where an asset is put.
  abbrev pub target : Assets → Text → Text
  target a name = env.join a.dir name

  -- A path is given only of a file with the checksum that is listed; without one, what stood at the
  -- path before stands there still.
  abbrev pub Got : Assets → Text → Files → Result GetError Text × Files → Type 0
  Got a name files (err e, after) = lookup (target a name) after ≡ lookup (target a name) files
  Got a name files (ok path, after) =
      (path ≡ target a name)
      × ((bytes : Text) × (lookup path after ≡ some bytes)
          × (lookup name a.sums ≡ some (env.sha256 bytes)))

  part_of-other : (path : Text) → path ≢ part_of path
  part_of-other path e = omega (arith, ap length e, length-append path (codes ".part"))

  part_of-apart : (path : Text) → (part_of path == path) ≡ false
  part_of-apart path = elim (Bool-cases (part_of path == path)) [
    | inl y ↦ absurd (part_of-other path (sym ((text_beq_iff (part_of path) path).0 y)))
    | inr n ↦ n
  ]

  -- The part file is another file.
  part-untouched :
      (path bytes : Text) (files : Files)
      → (lookup path (insert (part_of path) bytes files) ≡ lookup path files)
        × (lookup path (delete (part_of path) (insert (part_of path) bytes files))
            ≡ lookup path files)
  part-untouched path bytes files =
      let kept : lookup path (insert (part_of path) bytes files) ≡ lookup path files =
        lookup-insert (part_of path) path bytes files ∙ rw (part_of-apart path) refl in
      (
        kept,
        lookup-delete (part_of path) path (insert (part_of path) bytes files)
            ∙ rw (part_of-apart path) kept,
      )

  settle-Got :
      (a : Assets) (name want : Text) (d : Downloaded) (files : Files)
      → lookup name a.sums ≡ some want
      → Got a name files (settle env (target a name) want d files)
  unfolding settle
  settle-Got a name want d files h =
      let path = target a name in
      let (written, removed) = part-untouched path d.bytes files in
      elim (Option-cases (or_else env d.failure (env.close_failure (part_of path)))) [
        | inr (e, q) ↦ rw (settle, q) removed
        | inl q ↦ elim (Bool-cases (env.sha256 d.bytes == want)) [
          | inr n ↦ rw (settle, q, n) removed
          | inl y ↦ elim (Option-cases (env.rename_failure (part_of path) path)) [
            | inr (e, r) ↦ rw (settle, q, y, r) written
            | inl r ↦
                rw (settle, q, y, r)
                  (
                    refl,
                    (
                      d.bytes,
                      lookup-insert_self path d.bytes _,
                      rw ((text_beq_iff (env.sha256 d.bytes) want).0 y) h,
                    ),
                  )
          ]
        ]
      ]

  download-Got :
      (a : Assets) (name want : Text) (files : Files)
      → lookup name a.sums ≡ some want
      → Got a name files (download env a name (target a name) want files)
  unfolding download
  download-Got a name want files h = elim (Bool-cases a.hosted) [
    | inr n ↦ rw (download, n) refl
    | inl y ↦ elim (Result-cases (env.open_asset a.version name)) [
      | inl (e, q) ↦ rw (download, y, q) refl
      | inr (d, q) ↦ elim (Option-cases (env.create_failure (part_of (target a name)))) [
        | inr (e, r) ↦ rw (download, y, q, r) refl
        | inl r ↦ rw (download, y, q, r) (settle-Got a name want d files h)
      ]
    ]
  ]

  read_file-lookup :
      (files : Files) (path bytes : Text)
      → read_file env files path ≡ some bytes
      → lookup path files ≡ some bytes
  unfolding read_file
  read_file-lookup files path bytes h = elim (Option-cases (env.read_failure path)) [
    | inr (e, q) ↦ absurd (let f = rw (read_file, q) at h in cc)
    | inl q ↦ rw (read_file, q) at h
  ]

  there-Got :
      (a : Assets) (name want : Text) (files : Files)
      → lookup name a.sums ≡ some want
      → is_there env (file_sum env files (target a name)) want ≡ true
      → Got a name files (ok (target a name), files)
  unfolding file_sum
  there-Got a name want files h y = elim (Option-cases (read_file env files (target a name))) [
    | inl q ↦
        let unread : file_sum env files (target a name) ≡ none = rw (file_sum, q) refl in
        absurd (let f = rw unread at y in cc)
    | inr (bytes, q) ↦
        let sum : file_sum env files (target a name) ≡ some (env.sha256 bytes) =
          rw (file_sum, q) refl in
        let same : (env.sha256 bytes == want) ≡ true = rw sum at y in
        (
          refl,
          (
            bytes,
            read_file-lookup files (target a name) bytes q,
            rw ((text_beq_iff (env.sha256 bytes) want).0 same) h,
          ),
        )
  ]

  get-Got : (a : Assets) (name : Text) (files : Files) → Got a name files (get env a name files)
  unfolding get
  get-Got a name files = elim (Option-cases (lookup name a.sums)) [
    | inl n ↦ rw (get, n) refl
    | inr (want, h) ↦ elim (Bool-cases (is_there env (file_sum env files (target a name)) want)) [
      | inl y ↦ rw (get, h, y) (there-Got a name want files h y)
      | inr n ↦ rw (get, h, n) (download-Got a name want files h)
    ]
  ]

  any_verifies-Memᴰ :
      (sums sig : Text) (keys : List Key)
      → any_verifies env.verify sums sig keys ≡ true
      → (k : Key) × Memᴰ k keys × (env.verify k sums sig ≡ true)
  unfolding any_verifies
  any_verifies-Memᴰ sums sig [] h = cc
  any_verifies-Memᴰ sums sig (k ∷ keys) h = elim (Bool-cases (env.verify k sums sig)) [
    | inl y ↦ (k, Memᴰ.head refl, y)
    | inr n ↦
        let (j, m, v) = any_verifies-Memᴰ sums sig keys (rw (any_verifies, n) at h) in
        (j, Memᴰ.tail m, v)
  ]

  -- The checksums are those of a SHA256SUMS that a trusted key has signed.
  abbrev pub Signed : Version → List Key → Assets → Type 0
  Signed v keys a =
      (sums : Text) × (sig : Text) × (k : Key) × (read_all env v sums_name ≡ ok sums)
      × (read_all env v sig_name ≡ ok sig)
      × Memᴰ k keys
      × (env.verify k sums sig ≡ true)
      × (parse_sums sums ≡ ok a.sums)
      × (a.version ≡ v)

  verified-any :
      (sums sig : Text) (keys : List Key)
      → verify_signature env.verify sums sig keys ≡ none
      → any_verifies env.verify sums sig keys ≡ true
  unfolding verify_signature
  verified-any sums sig keys h = ground arith

  checked-Signed :
      (v : Version) (dir sums sig : Text) (keys : List Key) (a : Assets)
      → checked env v dir sums sig keys ≡ ok a
      → (verify_signature env.verify sums sig keys ≡ none)
        × (parse_sums sums ≡ ok a.sums)
        × (a.version ≡ v)
  unfolding checked
  checked-Signed v dir sums sig keys a h =
      elim (Option-cases (verify_signature env.verify sums sig keys)) [
        | inr (e, q) ↦ absurd (let f = rw (checked, q) at h in cc)
        | inl q ↦ elim (Result-cases (parse_sums sums)) [
          | inl (e, p) ↦ absurd (let f = rw (checked, q, p) at h in cc)
          | inr (parsed, p) ↦
              let made : ok (record { version = v; sums = parsed; dir = dir; hosted = true })
                  ≡ ok a =
                rw (checked, q, p) at h in
              let same : record { version = v; sums = parsed; dir = dir; hosted = true } ≡ a = cc in
              (
                q,
                p ∙ ap (λ (x : Assets). ok x.sums) same,
                sym (ap (λ (x : Assets). x.version) same),
              )
        ]
      ]

  fetch-Signed :
      (v : Version) (dir : Text) (keys : List Key) (a : Assets)
      → fetch env v dir keys ≡ ok a
      → Signed v keys a
  unfolding fetch
  fetch-Signed v dir keys a h = elim (Result-cases (read_all env v sums_name)) [
    | inl (e, p) ↦ absurd (let f = rw (fetch, p) at h in cc)
    | inr (sums, p) ↦ elim (Result-cases (read_all env v sig_name)) [
      | inl (e, q) ↦ absurd (let f = rw (fetch, p, q) at h in cc)
      | inr (sig, q) ↦
          let (good, parsed, same) = checked-Signed v dir sums sig keys a (rw (fetch, p, q) at h) in
          let (k, m, y) = any_verifies-Memᴰ sums sig keys (verified-any sums sig keys good) in
          (sums, sig, k, p, q, m, y, parsed, same)
    ]
  ]

  -- If Fetch returns a release's assets, then one of the trusted keys verified the signature that was
  -- downloaded of the SHA256SUMS that was downloaded, and their checksums are read from it. Get of an
  -- asset of them then returns a path only if the file at the path has the SHA-256 that is listed for the
  -- asset, and leaves what stood at the path as it was if it returns an error.
  pub fetch-get_verified :
      (v : Version) (dir : Text) (keys : List Key) (a : Assets) (name : Text) (files : Files)
      → fetch env v dir keys ≡ ok a
      → Signed v keys a × Got a name files (get env a name files)
  fetch-get_verified v dir keys a name files h = (fetch-Signed v dir keys a h, get-Got a name files)
