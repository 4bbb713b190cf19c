-- ===== src/VmTags.antt =====
-- internal/vmtags: the tags that mark what the project owns, and what is read from them.
pub mod Newest
use proxmox_actions_runners.Prelude.{
  ℤ, pos, negsuc, ltb_ℤ, ◌==◌, int_eq, text_eq, Bool, true, false, ◌&&◌, ◌||◌, List, [], ◌∷◌, Text,
  Option, none, some, codes, if◌then◌else◌, cut_prefix, is_empty, text_beq, beq_ℤ,
}
use proxmox_actions_runners.Prelude.Number.{parse_int}
use proxmox_actions_runners.Proxmox.{Vm, zero_vm, has_tag}

abbrev pub managed : Text
managed = codes "par-managed"

abbrev pub worker : Text
worker = codes "par-worker"

abbrev pub ready : Text
ready = codes "par-ready"

abbrev pub template : Text
template = codes "par-template"

abbrev pub scale_set_prefix : Text
scale_set_prefix = codes "par-ss-"

abbrev pub created_prefix : Text
created_prefix = codes "par-created-"

abbrev pub template_ref_prefix : Text
template_ref_prefix = codes "par-tpl-"

abbrev pub template_version_prefix : Text
template_version_prefix = codes "par-tv-"

abbrev pub runner_version_prefix : Text
runner_version_prefix = codes "par-rv-"

-- The loop of `String` over the tags.
unfoldable pub first_value : List Text → Text → Option Text
first_value [] prefix = none
first_value (tag ∷ tags) prefix =
    let rest = first_value tags prefix in
    elim (cut_prefix prefix tag) [ none ↦ rest | some v ↦ if is_empty v then rest else some v ]

-- `String`
unfoldable pub string : Vm → Text → Option Text
unfolding first_value
string vm prefix = first_value vm.tags prefix

abbrev pub parsed : Option Text → Option ℤ
parsed none = none
parsed (some s) = parse_int s

-- `Int`
unfoldable pub int : Vm → Text → Option ℤ
unfolding string
int vm prefix = parsed (string vm prefix)

unfoldable pub is_template : Vm → Text → Bool
is_template vm pool =
    vm.template && (vm.pool == pool && (has_tag vm managed && has_tag vm template))

-- The variables of the loop of `NewestTemplate`.
pub record Best : Type 0 where
  pub newest : Vm
  pub best : ℤ
  pub found : Bool

abbrev pub better : Best → Vm → ℤ → Bool
better b vm version = ltb_ℤ b.best version || (version == b.best && ltb_ℤ b.newest.vmid vm.vmid)

abbrev pub consider : Best → Vm → Option ℤ → Best
consider b vm none = b
consider b vm (some version) =
    if better b vm version then record { newest = vm; best = version; found = true } else b

unfoldable pub newest_loop : Best → List Vm → Text → Best
newest_loop b [] pool = b
newest_loop b (vm ∷ vms) pool =
    newest_loop (if is_template vm pool then consider b vm (int vm template_version_prefix) else b)
      vms pool

abbrev pub no_best : Best
no_best = record { newest = zero_vm; best = negsuc 0; found = false }

abbrev pub found_newest : Best → Option Vm
found_newest b = if b.found then some b.newest else none

unfoldable pub newest_template : List Vm → Text → Option Vm
unfolding newest_loop
newest_template vms pool = found_newest (newest_loop no_best vms pool)
