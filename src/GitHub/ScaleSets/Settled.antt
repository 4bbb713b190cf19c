-- ===== src/GitHub/ScaleSets/Settled.antt =====
-- internal/github/scaleset.go: `EnsureScaleSet` has nothing to do when it is called again.
use proxmox_actions_runners.Prelude.{
  ℤ, Bool, true, false, ◌&&◌, ◌==◌, text_eq, List, [], ◌∷◌, Text, none, some, if◌then◌else◌, ◌≡◌,
  ◌∙◌, refl, ap, inl, inr, Bool-cases, arith,
}
use proxmox_actions_runners.Prelude.Results.{ok, err, Result-cases}
use proxmox_actions_runners.Prelude.TextSets.Same.{equal_texts_refl}
use proxmox_actions_runners.GitHub.ScaleSets.{
  Call, get_group, get_scale_set, create_scale_set, update_scale_set, Library, Label, group_failed,
  find_failed, create_failed, update_failed, RunnerScaleSet, ScaleSet, ScaleSetSpec, Reply,
  and_then, runner_group_id, match_spec, ensure_scale_set, from_scale_set, same_labels, norm,
  wanted, default_runner_group_id,
}

abbrev pub is_read : Call → Bool
is_read (get_group name) = true
is_read (get_scale_set group_id name) = true
is_read _ = false

-- The calls that change something at GitHub, newest first.
unfoldable pub writes : List Call → List Call
writes [] = []
writes (c ∷ cs) = let rest = writes cs in if is_read c then rest else c ∷ rest

-- A scale set has the labels and the setting that were asked for.
abbrev pub AsAsked : RunnerScaleSet → RunnerScaleSet → Type 0
AsAsked want s = (s.labels ≡ want.labels) × (s.disable_update ≡ want.disable_update)

same_labels_refl : (a : List Label) → same_labels a a ≡ true
unfolding same_labels
same_labels_refl a = equal_texts_refl (norm a)

module _ {E : Type 0} (lib : Library E) where
  abbrev pub Finds : List Call → ℤ → Text → RunnerScaleSet → Type 0
  Finds calls group_id name s = lib.get_scale_set_answer calls group_id name ≡ ok (some s)

  -- GitHub keeps the groups' IDs, answers a write with what was asked for, finds it afterwards,
  -- and changes nothing when it is read.
  pub record Stores : Type 0 where
    pub groups :
        (h k : List Call) (name : Text) (id : ℤ)
        → lib.get_group_answer h name ≡ ok id
        → lib.get_group_answer k name ≡ ok id
    pub created :
        (h : List Call) (want s : RunnerScaleSet)
        → lib.create_answer h want ≡ ok s
        → AsAsked want s × Finds (create_scale_set want ∷ h) want.runner_group_id want.name s
    pub updated :
        (h : List Call) (id : ℤ) (want s : RunnerScaleSet)
        → lib.update_answer h id want ≡ ok s
        → AsAsked want s × Finds (update_scale_set id want ∷ h) want.runner_group_id want.name s
    pub reading :
        (h : List Call) (c : Call) (group_id : ℤ) (name : Text)
        → is_read c ≡ true
        → lib.get_scale_set_answer (c ∷ h) group_id name ≡ lib.get_scale_set_answer h group_id name

  -- What `ensure_scale_set` leaves alone.
  abbrev Good : ScaleSetSpec → ℤ → RunnerScaleSet → Type 0
  Good spec group_id s =
      (same_labels s.labels (wanted lib spec group_id).labels && s.disable_update) ≡ true

  AsAsked-Good :
      (spec : ScaleSetSpec) (group_id : ℤ) (s : RunnerScaleSet)
      → AsAsked (wanted lib spec group_id) s
      → Good spec group_id s
  AsAsked-Good spec group_id s (l, d) =
      rw (l, d) ground (arith, same_labels_refl (wanted lib spec group_id).labels)

  and_then_ok :
      {A B : Type 0} (r : Reply lib A) (next : A → List Call → Reply lib B) (b : B) (k : List Call)
      → and_then lib r next ≡ (ok b, k)
      → (a : A) × ((c : List Call) × ((r ≡ (ok a, c)) × (next a c ≡ (ok b, k))))
  unfolding and_then
  and_then_ok (ok a, c) next b k h = (a, (c, (refl, h)))
  and_then_ok (err e, c) next b k h = cc

  runner_group_id_again :
      Stores
      → (name : Text) (h c k : List Call) (id : ℤ) → runner_group_id lib name h ≡ (ok id, c)
      → (d : List Call) × ((runner_group_id lib name k ≡ (ok id, d))
          × (((g : ℤ) (n : Text) → lib.get_scale_set_answer d g n ≡ lib.get_scale_set_answer k g n)
              × (writes d ≡ writes k)))
  unfolding runner_group_id writes
  runner_group_id_again stores name h c k id e =
      elim (Bool-cases (name == lib.default_runner_group)) [
        | inl b ↦
            let here : runner_group_id lib name h ≡ (ok default_runner_group_id, h) = rw b refl in
            let there : runner_group_id lib name k ≡ (ok default_runner_group_id, k) = rw b refl in
            (k, (cc (here, there, e), (λ g n. refl, refl)))
        | inr b ↦ elim (Result-cases (lib.get_group_answer h name)) [
          | inl (f, q) ↦
              let here : runner_group_id lib name h
                  ≡ (err (group_failed name f), get_group name ∷ h) =
                rw (b, q) refl in
              absurd (cc (here, e))
          | inr (g, q) ↦
              let here : runner_group_id lib name h ≡ (ok g, get_group name ∷ h) = rw (b, q) refl in
              let there : runner_group_id lib name k ≡ (ok g, get_group name ∷ k) =
                rw (b, stores.groups h k name g q) refl in
              (
                get_group name ∷ k,
                (cc (here, there, e), (λ g n. stores.reading k (get_group name) g n refl, refl)),
              )
        ]
      ]

  abbrev Matches : ScaleSetSpec → ℤ → List Call → Reply lib ScaleSet → Type 0
  Matches spec group_id calls r =
      match_spec lib spec (wanted lib spec group_id)
        (lib.get_scale_set_answer calls group_id spec.name)
        (get_scale_set group_id spec.name ∷ calls)
      ≡ r

  -- Whatever it did, the scale set that it answered is found and is left alone.
  match_spec_stored :
      Stores
      → (spec : ScaleSetSpec) (group_id : ℤ) (calls : List Call) (s : ScaleSet) (k : List Call)
      → Matches spec group_id calls (ok s, k)
      → (x : RunnerScaleSet) × (Finds k group_id spec.name x
          × (Good spec group_id x × (from_scale_set x ≡ s)))
  unfolding match_spec
  match_spec_stored stores spec group_id calls s k h =
      let want = wanted lib spec group_id in
      let reads = get_scale_set group_id spec.name ∷ calls in
      elim (Result-cases (lib.get_scale_set_answer calls group_id spec.name)) [
        | inl (f, q) ↦
            let ends : Matches spec group_id calls (err (find_failed spec.name f), reads) =
              rw q refl in
            absurd (cc (ends, h))
        | inr (none, q) ↦ elim (Result-cases (lib.create_answer reads want)) [
          | inl (f, r) ↦
              let ends : Matches spec group_id calls
                  (err (create_failed spec.name f), create_scale_set want ∷ reads) =
                rw (q, r) refl in
              absurd (cc (ends, h))
          | inr (x, r) ↦
              let ends : Matches spec group_id calls
                  (ok (from_scale_set x), create_scale_set want ∷ reads) =
                rw (q, r) refl in
              let kept = stores.created reads want x r in
              let last : k ≡ create_scale_set want ∷ reads = cc (ends, h) in
              (x, (rw last kept.1, (AsAsked-Good spec group_id x kept.0, cc (ends, h))))
        ]
        | inr (some x, q) ↦
            elim (Bool-cases (same_labels x.labels want.labels && x.disable_update)) [
              | inl g ↦
                  let ends : Matches spec group_id calls (ok (from_scale_set x), reads) =
                    rw (q, g) refl in
                  let last : k ≡ reads = cc (ends, h) in
                  (
                    x,
                    (
                      rw last (
                          stores.reading calls (get_scale_set group_id spec.name) group_id spec.name
                            refl
                          ∙ q),
                      (g, cc (ends, h)),
                    ),
                  )
              | inr g ↦ elim (Result-cases (lib.update_answer reads x.id want)) [
                | inl (f, r) ↦
                    let ends : Matches spec group_id calls
                        (err (update_failed spec.name f), update_scale_set x.id want ∷ reads) =
                      rw (q, g, r) refl in
                    absurd (cc (ends, h))
                | inr (y, r) ↦
                    let ends : Matches spec group_id calls
                        (ok (from_scale_set y), update_scale_set x.id want ∷ reads) =
                      rw (q, g, r) refl in
                    let kept = stores.updated reads x.id want y r in
                    let last : k ≡ update_scale_set x.id want ∷ reads = cc (ends, h) in
                    (y, (rw last kept.1, (AsAsked-Good spec group_id y kept.0, cc (ends, h))))
              ]
            ]
      ]

  -- For every library that stores what it is told, every spec and all earlier calls: if
  -- EnsureScaleSet succeeds with a scale set, calling it again right after succeeds with the same
  -- scale set and makes no further write.
  pub ensure_scale_set-settles :
      Stores
      → (spec : ScaleSetSpec) (calls k : List Call) (s : ScaleSet)
      → ensure_scale_set lib spec calls ≡ (ok s, k)
      → ((ensure_scale_set lib spec k).0 ≡ ok s)
        × (writes (ensure_scale_set lib spec k).1 ≡ writes k)
  unfolding ensure_scale_set and_then match_spec writes
  ensure_scale_set-settles stores spec calls k s h =
      let (group_id, (c, (e, f))) =
        and_then_ok (runner_group_id lib spec.runner_group calls) _ s k h in
      let (x, (there, (good, same))) = match_spec_stored stores spec group_id c s k f in
      let (d, (again, (reads, w))) =
        runner_group_id_again stores spec.runner_group calls c k group_id e in
      rw (again, reads group_id spec.name, there, good) (ap ok same, w)
