-- ===== src/Controller/Register.antt =====
-- internal/controller/controller.go: `registerScaleSets`. What GitHub answers to EnsureScaleSet, and
-- whether a wait runs to its end, can depend on what happened before, kept newest first. Each scale set
-- may try as often as the fuel says.
pub mod Live
use proxmox_actions_runners.Prelude.{
  ℕ, zero, suc, ℤ, ◌+ℤ◌, min_ℤ, Bool, true, false, List, [], ◌∷◌, Text, Option, none, some,
  if◌then◌else◌,
}
use proxmox_actions_runners.Prelude.Results.{Result, ok, err}
use proxmox_actions_runners.Prelude.Time.{Duration, seconds, minutes}
use proxmox_actions_runners.GitHub.ScaleSets
use proxmox_actions_runners.GitHub.ScaleSets.{ScaleSetSpec}
use proxmox_actions_runners.Controller.ScaleSet.{ScaleSetState}

pub data Event : Type 0 where
  asked : ScaleSetSpec → Event
  waited : Duration → Event

pub record Surroundings (E : Type 0) : Type 0 where
  pub ensure_answer : List Event → ScaleSetSpec → Result E ScaleSets.ScaleSet
  pub wait_ends : List Event → Duration → Bool

abbrev pub first_backoff : Duration
first_backoff = seconds 1

abbrev pub max_backoff : Duration
max_backoff = minutes 1

abbrev pub next_backoff : Duration → Duration
next_backoff backoff = min_ℤ (backoff +ℤ backoff) max_backoff

abbrev pub spec_of : ScaleSetState → ScaleSetSpec
spec_of s = record { name = s.cfg.name; labels = s.cfg.labels; runner_group = s.cfg.runner_group }

abbrev pub with_id : ℤ → ScaleSetState → ScaleSetState
with_id id s = record s { id = id }

-- Whether it was not cut short, what it leaves, and what happened; `none` is out of fuel.
abbrev pub Outcome : Type 0 → Type 0
Outcome A = Option (Bool × A × List Event)

module _ {E : Type 0} (env : Surroundings E) where
  -- The inner loop. The backoff is waited after a failure.
  unfoldable pub register_one : ℕ → Duration → ScaleSetState → List Event → Outcome ScaleSetState
  register_one zero backoff s events = none
  register_one (suc fuel) backoff s events =
      let spec = spec_of s in
      let retry =
        register_one fuel (next_backoff backoff) s (waited backoff ∷ asked spec ∷ events) in
      elim (env.ensure_answer events spec) [
        | ok ss ↦ some (true, with_id ss.id s, asked spec ∷ events)
        | err e ↦
            if env.wait_ends (asked spec ∷ events) backoff
            then retry
            else some (false, s, waited backoff ∷ asked spec ∷ events)
      ]

  abbrev pub prepend :
      Text × ScaleSetState
      → Outcome (List (Text × ScaleSetState))
      → Outcome (List (Text × ScaleSetState))
  prepend s none = none
  prepend s (some (b, ss, events)) = some (b, s ∷ ss, events)

  -- The scale sets that are left, after one of them.
  unfoldable pub and_rest :
      Text
      → List (Text × ScaleSetState)
      → Outcome ScaleSetState
      → (List Event → Outcome (List (Text × ScaleSetState)))
      → Outcome (List (Text × ScaleSetState))
  and_rest name ss none rest = none
  and_rest name ss (some (false, s, events)) rest = some (false, (name, s) ∷ ss, events)
  and_rest name ss (some (true, s, events)) rest = prepend (name, s) (rest events)

  unfoldable pub register_scale_sets :
      ℕ → List (Text × ScaleSetState) → List Event → Outcome (List (Text × ScaleSetState))
  register_scale_sets fuel [] events = some (true, [], events)
  register_scale_sets fuel ((name, s) ∷ ss) events =
      and_rest name ss (register_one fuel first_backoff s events) (register_scale_sets fuel ss)
