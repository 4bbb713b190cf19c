-- ===== src/Controller/Register/Live.antt =====
-- internal/controller/controller.go: `registerScaleSets` succeeds once GitHub answers.
use proxmox_actions_runners.Prelude.{
  ℕ, zero, suc, ◌+◌, ◌≤◌, ◌≤ℤ◌, true, List, [], ◌∷◌, Text, some, ◌≡◌, refl, inl, inr, arith,
}
use proxmox_actions_runners.Prelude.Results.{ok, Result-cases}
use proxmox_actions_runners.Prelude.Time.{Duration}
use proxmox_actions_runners.GitHub.ScaleSets
use proxmox_actions_runners.Controller.ScaleSet.{ScaleSetState}
use proxmox_actions_runners.Controller.Register.{
  Event, asked, waited, Surroundings, first_backoff, max_backoff, next_backoff, spec_of, with_id,
  register_one, and_rest, register_scale_sets,
}

unfoldable pub event_count : List Event → ℕ
event_count [] = zero
event_count (e ∷ es) = suc (event_count es)

-- No wait was longer than a minute.
abbrev pub ShortWaits : List Event → Type 0
ShortWaits [] = Unit
ShortWaits (asked spec ∷ es) = ShortWaits es
ShortWaits (waited d ∷ es) = (d ≤ℤ max_backoff) × ShortWaits es

next_backoff-le : (d : Duration) → next_backoff d ≤ℤ max_backoff
next_backoff-le d = ground arith

module _ {E : Type 0} (env : Surroundings E) where
  -- From some number of events on, GitHub answers; and nothing cuts a wait short.
  pub record Answers (n : ℕ) : Type 0 where
    pub answers :
        (es : List Event) (spec : ScaleSets.ScaleSetSpec)
        → n ≤ event_count es
        → (ss : ScaleSets.ScaleSet) × (env.ensure_answer es spec ≡ ok ss)
    pub waits : (es : List Event) (d : Duration) → env.wait_ends es d ≡ true

  -- The state is the old one with an ID that GitHub answered for its spec.
  abbrev pub Registered : ScaleSetState → ScaleSetState → Type 0
  Registered s t =
      (es : List Event) × ((ss : ScaleSets.ScaleSet) × ((env.ensure_answer es (spec_of s) ≡ ok ss)
          × (t ≡ with_id ss.id s)))

  abbrev pub AllRegistered : List (Text × ScaleSetState) → List (Text × ScaleSetState) → Type 0
  AllRegistered [] [] = Unit
  AllRegistered [] (y ∷ ys) = ⊥
  AllRegistered (x ∷ xs) [] = ⊥
  AllRegistered (x ∷ xs) (y ∷ ys) = (x.0 ≡ y.0) × (Registered x.1 y.1 × AllRegistered xs ys)

  abbrev Grows : List Event → List Event → Type 0
  Grows es fs = event_count es ≤ event_count fs

  answered :
      (fuel : ℕ) (d : Duration) (s : ScaleSetState) (es : List Event) (ss : ScaleSets.ScaleSet)
      → env.ensure_answer es (spec_of s) ≡ ok ss
      → register_one env (suc fuel) d s es ≡ some (true, with_id ss.id s, asked (spec_of s) ∷ es)
  unfolding register_one
  answered zero d s es ss q = rw (register_one, q) refl
  answered (suc fuel) d s es ss q = rw (register_one, q) refl

  register_one-live :
      (n : ℕ)
      → Answers n
      → (fuel : ℕ) (d : Duration) (s : ScaleSetState) (es : List Event) → n ≤ event_count es + fuel
      → d ≤ℤ max_backoff
      → ShortWaits es
      → (t : ScaleSetState) × ((fs : List Event) × ((register_one env (suc fuel) d s es
              ≡ some (true, t, fs))
            × (Registered s t × (ShortWaits fs × Grows es fs))))
  unfolding register_one event_count
  register_one-live n live zero d s es h k w =
      let (ss, q) = live.answers es (spec_of s) (omega arith) in
      (
        with_id ss.id s,
        (
          asked (spec_of s) ∷ es,
          (answered zero d s es ss q, ((es, (ss, (q, refl))), (w, omega arith))),
        ),
      )
  register_one-live n live (suc fuel) d s es h k w =
      elim (Result-cases (env.ensure_answer es (spec_of s))) [
        | inl (e, q) ↦
            let (t, (fs, (r, (g, (v, l))))) =
              register_one-live n live fuel (next_backoff d) s (waited d ∷ asked (spec_of s) ∷ es)
                (omega arith) (next_backoff-le d) (k, w) in
            (
              t,
              (
                fs,
                (
                  rw (register_one, q, live.waits (asked (spec_of s) ∷ es) d) r,
                  (g, (v, omega arith)),
                ),
              ),
            )
        | inr (ss, q) ↦ (
          with_id ss.id s,
          (
            asked (spec_of s) ∷ es,
            (answered (suc fuel) d s es ss q, ((es, (ss, (q, refl))), (w, omega arith))),
          ),
        )
      ]

  -- For every n such that GitHub answers EnsureScaleSet without an error once n events have
  -- happened and no wait is cut short: from any events whose waits are at most a minute,
  -- registerScaleSets with fuel n + 1 for each scale set returns true; each scale set has then
  -- the ID that GitHub answered for its name, labels and runner group and is otherwise
  -- unchanged, and no wait was longer than a minute.
  pub register_scale_sets-live :
      (n : ℕ)
      → Answers n
      → (sets : List (Text × ScaleSetState)) (es : List Event) → ShortWaits es
      → (out : List (Text × ScaleSetState)) × ((fs : List Event) × ((register_scale_sets env
                (suc n)
                sets
                es
              ≡ some (true, out, fs))
            × (AllRegistered sets out × ShortWaits fs)))
  unfolding register_scale_sets and_rest
  register_scale_sets-live n live [] es w = ([], (es, (refl, (tt, w))))
  register_scale_sets-live n live ((name, s) ∷ sets) es w =
      let (t, (fs, (r, (g, (v, l))))) =
        register_one-live n live n first_backoff s es (omega arith) (ground arith) w in
      let (out, (gs, (q, (a, b)))) = register_scale_sets-live n live sets fs v in
      ((name, t) ∷ out, (gs, (rw (r, q) refl, ((refl, (g, a)), b))))
