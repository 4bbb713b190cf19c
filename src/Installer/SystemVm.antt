-- ===== src/Installer/SystemVm.antt =====
-- internal/installer/systemvm.go: the VMIDs of the gateway and the controller VM.
pub mod Free
use proxmox_actions_runners.Prelude.{
  ℕ, zero, suc, ℤ, pos, ◌+ℤ◌, Bool, not, List, [], ◌∷◌, Text, Option, none, some, if◌then◌else◌,
}
use proxmox_actions_runners.Prelude.Lists.{length}
use proxmox_actions_runners.Prelude.Results.{Result, ok, err}
use proxmox_actions_runners.Config.{VmidRange}
use proxmox_actions_runners.Config.Range.{contains}
use proxmox_actions_runners.Proxmox.{Vm}
use proxmox_actions_runners.Installer.Template.{is_used}

-- The loop of `systemVMID`; `none` is out of fuel.
unfoldable pub next_unused : ℕ → List Vm → ℤ → Option ℤ
unfolding is_used
next_unused zero vms id = none
next_unused (suc fuel) vms id =
    let rest = next_unused fuel vms (id +ℤ pos 1) in if is_used vms id then rest else some id

-- `systemVMID`, of Proxmox's next free ID and the VMs that are listed.
unfoldable pub system_vmid :
    ℕ → VmidRange → (next_id : Result Text ℤ) → Result Text (List Vm) → Option (Result Text ℤ)
unfolding next_unused contains
system_vmid fuel r (err e) vms = some (err e)
system_vmid fuel r (ok id) vms = if not (contains r id) then some (ok id) else elim vms [
  | err e ↦ some (err e)
  | ok listed ↦ elim (next_unused fuel listed (r.end +ℤ pos 1)) [
    | none ↦ none
    | some found ↦ some (ok found)
  ]
]
