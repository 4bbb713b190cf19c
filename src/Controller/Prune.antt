-- ===== src/Controller/Prune.antt =====
-- internal/controller/templates.go: removing runner templates that nothing needs.
pub mod Safe
use proxmox_actions_runners.Prelude.{
  ℤ, ◌==◌, text_eq, int_eq, Bool, true, false, not, ◌||◌, List, [], ◌∷◌, Text, Option, none, some,
  if◌then◌else◌, get_or, lookup, insert,
}
use proxmox_actions_runners.Proxmox.{Vm, has_tag}
use proxmox_actions_runners.VmTags
use proxmox_actions_runners.Controller.State.{Controller, prune_template, start_op, creating_any}

-- The templates that VMs record; `none` as soon as one of the pool's managed VMs has no record.
unfoldable pub in_use : List Vm → Text → List (ℤ × Bool) → Option (List (ℤ × Bool))
in_use [] pool refs = some refs
in_use (vm ∷ vms) pool refs =
    let rest = λ (r : List (ℤ × Bool)). in_use vms pool r in
    if vm.template || (not (vm.pool == pool) || not (has_tag vm VmTags.managed))
    then rest refs
    else elim (VmTags.int vm VmTags.template_ref_prefix) [
      | none ↦ none
      | some ref ↦ rest (insert ref true refs)
    ]

abbrev pub is_kept : Vm → Text → Vm → List (ℤ × Bool) → Bool
is_kept vm pool newest refs =
    not (VmTags.is_template vm pool)
    || (vm.vmid == newest.vmid || get_or (lookup vm.vmid refs) false)

unfoldable pub prune_loop : List Vm → Text → Vm → List (ℤ × Bool) → Controller → Controller
prune_loop [] pool newest refs c = c
prune_loop (vm ∷ vms) pool newest refs c =
    prune_loop vms pool newest refs
      (if is_kept vm pool newest refs then c else start_op (prune_template vm) c)

unfoldable pub prune_templates : List Vm → Option Vm → Controller → Controller
prune_templates vms none c = c
prune_templates vms (some newest) c =
    if creating_any c then c else elim (in_use vms c.cfg.proxmox.pool []) [
      | none ↦ c
      | some refs ↦ prune_loop vms c.cfg.proxmox.pool newest refs c
    ]
