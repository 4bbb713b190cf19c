-- ===== src/Controller/Safety.antt =====
-- internal/controller: which VMs a pass may touch.
pub mod Seen
pub mod Verdicts
pub mod Rule
pub mod Passes
use mathlib.Core.List.{Memᴰ}
use proxmox_actions_runners.Prelude.{ℤ, ◌≡◌, ◌≢◌, Bool, true, false, List, Text, Option, none, some}
use proxmox_actions_runners.Prelude.Lists.{All}
use proxmox_actions_runners.Config.{Config}
use proxmox_actions_runners.Config.Range.{workers, contains}
use proxmox_actions_runners.Proxmox.{Vm, has_tag}
use proxmox_actions_runners.VmTags
use proxmox_actions_runners.Controller.State.{Op, retire, create, prune_template}

-- A VM that the controller may treat as a worker or a leftover.
abbrev pub Owned : Config → Vm → Type 0
Owned cfg vm =
    (vm.template ≡ false)
    × (vm.pool ≡ cfg.proxmox.pool)
    × (has_tag vm VmTags.managed ≡ true)
    × (contains (workers cfg.proxmox.vmid_range) vm.vmid ≡ true)

-- What a pass over a listing may start: a retirement of a listed VM that is owned, a creation from
-- the newest template under a worker's VMID that no listed VM has, and a removal of a listed runner
-- template of the pool other than the newest.
abbrev pub Allowed : Config → List Vm → Op → Type 0
Allowed cfg vms (retire s vm runner force reason) = Memᴰ vm vms × Owned cfg vm
Allowed cfg vms (create name t id) =
    (VmTags.newest_template vms cfg.proxmox.pool ≡ some t)
    × (contains (workers cfg.proxmox.vmid_range) id ≡ true)
    × All (λ (vm : Vm). vm.vmid ≢ id) vms
Allowed cfg vms (prune_template vm) =
    (t : Vm) × (VmTags.newest_template vms cfg.proxmox.pool ≡ some t)
    × Memᴰ vm vms
    × (VmTags.is_template vm cfg.proxmox.pool ≡ true)
    × (vm.vmid ≢ t.vmid)
