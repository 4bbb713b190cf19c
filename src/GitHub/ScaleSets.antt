-- ===== src/GitHub/ScaleSets.antt =====
-- internal/github/scaleset.go: the scale sets registered with GitHub. The answers of actions/scaleset
-- are parameters; an answer can depend on the calls made before it, kept newest first.
pub mod Labels
pub mod Settled
use proxmox_actions_runners.Prelude.{
  ℤ, pos, ◌==◌, text_eq, Bool, true, false, ◌&&◌, List, [], ◌∷◌, map, Text, Option, none, some,
  if◌then◌else◌,
}
use proxmox_actions_runners.Prelude.Results.{Result, ok, err}
use proxmox_actions_runners.Prelude.Strings.{to_lower}
use proxmox_actions_runners.Prelude.TextSets.{equal_texts}
use proxmox_actions_runners.Prelude.TextSets.Same.{text_set}

abbrev pub default_runner_group_id : ℤ
default_runner_group_id = pos 1

pub record ScaleSetSpec : Type 0 where
  pub name : Text
  pub labels : List Text
  pub runner_group : Text

pub record ScaleSet : Type 0 where
  pub id : ℤ
  pub name : Text
  pub runner_group_id : ℤ
  pub labels : List Text

-- What is used of the library's types.
pub record Label : Type 0 where
  pub name : Text

pub record RunnerScaleSet : Type 0 where
  pub id : ℤ
  pub name : Text
  pub runner_group_id : ℤ
  pub labels : List Label
  pub disable_update : Bool

-- The calls of the library that this file makes.
pub data Call : Type 0 where
  get_group : Text → Call
  get_scale_set : (group_id : ℤ) → (name : Text) → Call
  create_scale_set : RunnerScaleSet → Call
  update_scale_set : (id : ℤ) → RunnerScaleSet → Call
  delete_call : (id : ℤ) → Call

-- actions/scaleset. An answer without an error to create or update comes with a scale set.
pub record Library (E : Type 0) : Type 0 where
  pub default_runner_group : Text
  pub get_group_answer : List Call → Text → Result E ℤ
  pub get_scale_set_answer : List Call → ℤ → Text → Result E (Option RunnerScaleSet)
  pub create_answer : List Call → RunnerScaleSet → Result E RunnerScaleSet
  pub update_answer : List Call → ℤ → RunnerScaleSet → Result E RunnerScaleSet
  pub delete_answer : List Call → ℤ → Option E

pub data ScaleSetError (E : Type 0) : Type 0 where
  group_failed find_failed create_failed update_failed : (name : Text) → E → ScaleSetError E
  delete_failed : (id : ℤ) → E → ScaleSetError E

abbrev pub label_name : Label → Text
label_name l = l.name

unfoldable pub from_scale_set : RunnerScaleSet → ScaleSet
from_scale_set s = record {
  id = s.id;
  name = s.name;
  runner_group_id = s.runner_group_id;
  labels = map label_name s.labels;
}

abbrev pub to_label : Text → Label
to_label n = record { name = n }

unfoldable pub to_labels : List Text → List Label
to_labels names = map to_label names

abbrev pub lower_name : Label → Text
lower_name l = to_lower l.name

-- `norm`
unfoldable pub norm : List Label → List Text
norm labels = text_set (map lower_name labels)

unfoldable pub same_labels : List Label → List Label → Bool
unfolding norm
same_labels a b = equal_texts (norm a) (norm b)

module _ {E : Type 0} (lib : Library E) where
  -- A result, and the calls so far.
  abbrev pub Reply : Type 0 → Type 0
  Reply A = Result (ScaleSetError E) A × List Call

  unfoldable pub runner_group_id : Text → List Call → Reply ℤ
  runner_group_id name calls =
      if name == lib.default_runner_group
      then (ok default_runner_group_id, calls)
      else elim (lib.get_group_answer calls name) [
        | ok id ↦ (ok id, get_group name ∷ calls)
        | err e ↦ (err (group_failed name e), get_group name ∷ calls)
      ]

  abbrev pub found :
      Text → Result E (Option RunnerScaleSet) → Result (ScaleSetError E) (Option ScaleSet)
  found name (err e) = err (find_failed name e)
  found name (ok none) = ok none
  found name (ok (some s)) = ok (some (from_scale_set s))

  -- An error ends the method.
  unfoldable pub and_then : {A B : Type 0} → Reply A → (A → List Call → Reply B) → Reply B
  and_then (err e, calls) next = (err e, calls)
  and_then (ok a, calls) next = next a calls

  unfoldable pub find_scale_set : ScaleSetSpec → List Call → Reply (Option ScaleSet)
  find_scale_set spec calls = and_then (runner_group_id spec.runner_group calls) λ group_id calls1.
      (
        found spec.name (lib.get_scale_set_answer calls1 group_id spec.name),
        get_scale_set group_id spec.name ∷ calls1,
      )

  abbrev pub wanted : ScaleSetSpec → ℤ → RunnerScaleSet
  wanted spec group_id = record {
    id = pos 0;
    name = spec.name;
    runner_group_id = group_id;
    labels = to_labels spec.labels;
    disable_update = true;
  }

  abbrev pub written :
      (E → ScaleSetError E) → Result E RunnerScaleSet → Result (ScaleSetError E) ScaleSet
  written failed (err e) = err (failed e)
  written failed (ok s) = ok (from_scale_set s)

  -- What follows the lookup.
  unfoldable pub match_spec :
      ScaleSetSpec → RunnerScaleSet → Result E (Option RunnerScaleSet) → List Call → Reply ScaleSet
  match_spec spec want (err e) calls = (err (find_failed spec.name e), calls)
  match_spec spec want (ok none) calls = (
    written (create_failed spec.name) (lib.create_answer calls want),
    create_scale_set want ∷ calls,
  )
  match_spec spec want (ok (some existing)) calls =
      if same_labels existing.labels want.labels && existing.disable_update
      then (ok (from_scale_set existing), calls)
      else (
        written (update_failed spec.name) (lib.update_answer calls existing.id want),
        update_scale_set existing.id want ∷ calls,
      )

  unfoldable pub ensure_scale_set : ScaleSetSpec → List Call → Reply ScaleSet
  ensure_scale_set spec calls =
      and_then (runner_group_id spec.runner_group calls) λ group_id calls1.
        match_spec spec (wanted spec group_id) (lib.get_scale_set_answer calls1 group_id spec.name)
          (get_scale_set group_id spec.name ∷ calls1)

  unfoldable pub delete_scale_set : ℤ → List Call → Reply Unit
  delete_scale_set id calls = elim (lib.delete_answer calls id) [
    | none ↦ (ok tt, delete_call id ∷ calls)
    | some e ↦ (err (delete_failed id e), delete_call id ∷ calls)
  ]
