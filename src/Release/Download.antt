-- ===== src/Release/Download.antt =====
-- internal/release/download.go: finding a release and getting its verified assets. The network, the
-- cryptography and the joining of paths are parameters; the files are those that the code writes.
pub mod Safe
pub mod Newest
use proxmox_actions_runners.Prelude.{
  ℕ, ℤ, pos, ltb_ℤ, ◌^◌, Bool, true, false, not, ◌||◌, ◌&&◌, List, [], ◌∷◌, ◌++◌, Text, ◌==◌,
  text_eq, Option, none, some, is_empty, if◌then◌else◌, lookup, insert, delete, codes,
}
use proxmox_actions_runners.Prelude.Lists.{take, length}
use proxmox_actions_runners.Prelude.Tests.{leb}
use proxmox_actions_runners.Prelude.Time.{Time}
use proxmox_actions_runners.Prelude.Results.{Result, ok, err}
use proxmox_actions_runners.Release.{Version, tag, is_pre, compare_versions}
use proxmox_actions_runners.Release.Parse.{parse_version}
use proxmox_actions_runners.Release.Verify.{
  SignatureError, verify_signature, Sums, SumsError, parse_sums,
}

abbrev pub repo : Text
repo = codes "klponce/proxmox-actions-runners"

pub record Info : Type 0 where
  pub version : Version
  pub published_at : Time

-- internal/github/rest.go: a release as GitHub lists it.
pub record Published : Type 0 where
  pub tag : Text
  pub prerelease : Bool
  pub published_at : Time

-- The loop of `GitHub.Releases`: what isn't tagged with a version is left out.
unfoldable pub releases_of : List Published → List Info
releases_of [] = []
releases_of (r ∷ rs) =
    let rest = releases_of rs in
    elim (parse_version r.tag) [
      | err e ↦ rest
      | ok v ↦ (record { version = v; published_at = r.published_at }) ∷ rest
    ]

-- `assetURL`, where a base of nothing is github.com.
unfoldable pub asset_url : (path_escape : Text → Text) → Text → Version → Text → Text
asset_url path_escape base v asset =
    (if is_empty base then codes "https://github.com" else base)
    ++ (codes "/"
        ++ (repo ++ (codes "/releases/download/" ++ (tag v ++ (codes "/" ++ path_escape asset)))))

-- Whether a release is the best so far.
abbrev pub is_better : Info → Option Info → Bool
is_better r none = true
is_better r (some best) = ltb_ℤ (pos 0) (compare_versions r.version best.version)

unfoldable pub latest_of : List Info → Bool → Option Info → Option Info
latest_of [] include_pre best = best
latest_of (r ∷ rs) include_pre best = latest_of rs include_pre (
    if is_pre r.version && not include_pre then best else if is_better r best then some r else best)

pub data LatestError : Type 0 where
  no_listing : Text → LatestError
  none_published : LatestError

-- `Latest`
unfoldable pub latest : Result Text (List Info) → Bool → Result LatestError Info
latest (err e) include_pre = err (no_listing e)
latest (ok rels) include_pre = elim (latest_of rels include_pre none) [
  | none ↦ err none_published
  | some best ↦ ok best
]

-- A download is all that was read, or what was read before an error.
pub record Downloaded : Type 0 where
  pub bytes : Text
  pub failure : Option Text

-- What the code relies on: the key's check of a signature, SHA-256, the joining of paths, the
-- source of releases, and which files can't be read, created, written and closed, or renamed.
pub record Surroundings (Key : Type 0) : Type 0 where
  pub verify : Key → Text → Text → Bool
  pub sha256 : Text → Text
  pub join : Text → Text → Text
  pub open_asset : Version → Text → Result Text Downloaded
  pub read_failure : Text → Option Text
  pub create_failure : Text → Option Text
  pub close_failure : Text → Option Text
  pub rename_failure : Text → Text → Option Text

-- `hosted` says whether the assets have a source.
pub record Assets : Type 0 where
  pub version : Version
  pub sums : Sums
  pub dir : Text
  pub hosted : Bool

pub data FetchError : Type 0 where
  download_failed : Text → FetchError
  signature_missing : Text → FetchError
  signature_refused : SignatureError → FetchError
  sums_refused : SumsError → FetchError

pub data GetError : Type 0 where
  no_asset missing_or_changed checksum_differs : GetError
  get_failed : Text → GetError

abbrev pub Files : Type 0
Files = List (Text × Text)

abbrev pub sums_name : Text
sums_name = codes "SHA256SUMS"

abbrev pub sig_name : Text
sig_name = codes "SHA256SUMS.sig"

abbrev pub part_of : Text → Text
part_of path = path ++ codes ".part"

module _ {Key : Type 0} (env : Surroundings Key) where
  -- The reader's limit is a mebibyte: nothing after it is read, a failure neither.
  abbrev pub limited : Downloaded → Result Text Text
  limited d = elim d.failure [
    | none ↦ ok (take (2 ^ 20) d.bytes)
    | some e ↦ if leb (2 ^ 20) (length d.bytes) then ok (take (2 ^ 20) d.bytes) else err e
  ]

  -- `readAll`
  unfoldable pub read_all : Version → Text → Result Text Text
  read_all v asset = elim (env.open_asset v asset) [ err e ↦ err e | ok d ↦ limited d ]

  unfoldable pub checked : Version → Text → Text → Text → List Key → Result FetchError Assets
  checked v dir sums sig keys = elim (verify_signature env.verify sums sig keys) [
    | some e ↦ err (signature_refused e)
    | none ↦ elim (parse_sums sums) [
      | err e ↦ err (sums_refused e)
      | ok parsed ↦ ok (record { version = v; sums = parsed; dir = dir; hosted = true })
    ]
  ]

  -- `Fetch`
  unfoldable pub fetch : Version → Text → List Key → Result FetchError Assets
  fetch v dir keys = elim (read_all v sums_name) [
    | err e ↦ err (download_failed e)
    | ok sums ↦ elim (read_all v sig_name) [
      | err e ↦ err (signature_missing e)
      | ok sig ↦ checked v dir sums sig keys
    ]
  ]

  -- What a file holds, unless it can't be read.
  unfoldable pub read_file : Files → Text → Option Text
  read_file files path = elim (env.read_failure path) [ some e ↦ none | none ↦ lookup path files ]

  -- `fileSum`; `none` is a file that can't be read.
  unfoldable pub file_sum : Files → Text → Option Text
  file_sum files path = elim (read_file files path) [
    | none ↦ none
    | some bytes ↦ some (env.sha256 bytes)
  ]

  -- `Local`, of the directory's SHA256SUMS.
  unfoldable pub local : Files → Text → Version → Result FetchError Assets
  local files dir v = elim (read_file files (env.join dir sums_name)) [
    | none ↦ err (download_failed sums_name)
    | some text ↦ elim (parse_sums text) [
      | err e ↦ err (sums_refused e)
      | ok sums ↦ ok (record { version = v; sums = sums; dir = dir; hosted = false })
    ]
  ]

  abbrev pub or_else : Option Text → Option Text → Option Text
  or_else (some e) f = some e
  or_else none f = f

  -- The end of a download: what was read is in the part file.
  unfoldable pub settle : Text → Text → Downloaded → Files → Result GetError Text × Files
  settle path want d files =
      let part = part_of path in
      let written = insert part d.bytes files in
      elim (or_else d.failure (env.close_failure part)) [
        | some e ↦ (err (get_failed e), delete part written)
        | none ↦
            if not (env.sha256 d.bytes == want)
            then (err checksum_differs, delete part written)
            else elim (env.rename_failure part path) [
              | some e ↦ (err (get_failed e), written)
              | none ↦ (ok path, insert path d.bytes (delete part written))
            ]
      ]

  unfoldable pub download : Assets → Text → Text → Text → Files → Result GetError Text × Files
  download a name path want files =
      if not a.hosted
      then (err missing_or_changed, files)
      else elim (env.open_asset a.version name) [
        | err e ↦ (err (get_failed e), files)
        | ok d ↦ elim (env.create_failure (part_of path)) [
          | some e ↦ (err (get_failed e), files)
          | none ↦ settle path want d files
        ]
      ]

  abbrev pub is_there : Option Text → Text → Bool
  is_there none want = false
  is_there (some sum) want = sum == want

  -- `Get`: the file's path, or why there is none, and the files after it.
  unfoldable pub get : Assets → Text → Files → Result GetError Text × Files
  get a name files = elim (lookup name a.sums) [
    | none ↦ (err no_asset, files)
    | some want ↦
        let path = env.join a.dir name in
        if is_there (file_sum files path) want
        then (ok path, files)
        else download a name path want files
  ]
