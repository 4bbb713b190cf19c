-- ===== src/Installer/Template/Reserved.antt =====
-- internal/installer/steps.go: which VMs a template import destroys and creates.
use mathlib.Core.List.{Memᴰ}
use proxmox_actions_runners.Prelude.{
  ℕ, ℤ, pos, ◌+ℤ◌, ◌≤ℤ◌, ◌<ℤ◌, int_eq, text_eq, false, List, Text, ◌≡◌, ◌⊎◌,
}
use proxmox_actions_runners.Prelude.Lists.{All}
use proxmox_actions_runners.Config.{VmidRange}
use proxmox_actions_runners.Config.Range.{reserved_vmids}
use proxmox_actions_runners.Proxmox.{Vm}
use proxmox_actions_runners.Installer.Template.{
  Look, already_there, failed, import_into, destroy_command, Import, import_commands,
}
use proxmox_actions_runners.Installer.{Command, Host, tagged, runner_pool, release_tag}

abbrev Within : ℤ → ℕ → ℤ → Type 0
Within a n id = (a ≤ℤ id) × (id <ℤ a +ℤ pos n)

-- One of the last four IDs of the range.
abbrev pub Reserved : VmidRange → ℤ → Type 0
Reserved r id = (id ≤ℤ r.end) × (r.end <ℤ id +ℤ reserved_vmids)

-- What each command may be, when the VMs to destroy are known.
module _ (host : Host) (P : Command → Type 0) (Stale : ℤ → Type 0)
    (destroys : (id : ℤ) → Stale id → P (destroy_command id)) where
  abbrev Kept : List Vm → List Vm → Type 0
  Kept vms left = (v : Vm) → Memᴰ v vms → Memᴰ v left ⊎ Stale v.vmid

  abbrev Fine : List Vm → Look → Type 0
  Fine vms (already_there log) = All P log
  Fine vms (failed e log) = All P log
  Fine vms (import_into left log) = All P log × Kept vms left

-- The ID of a listed VM that the import takes for what a failed one left: it has the release's tag in
-- the runner pool, and is no template.
abbrev pub Stale : Import → List Vm → ℤ → Type 0
Stale i vms id =
    (t : Vm) × (Memᴰ t (tagged vms runner_pool (release_tag i.version))
      × ((t.template ≡ false) × (t.vmid ≡ id)))

-- The command destroys such a VM, or is one of those that make a template of a reserved ID that no
-- other VM has.
abbrev pub Allowed : Import → List Vm → Command → Type 0
Allowed i vms c =
    ((id : ℤ) × (Stale i vms id × (c ≡ destroy_command id)))
    ⊎ ((id : ℤ) × (Reserved i.vmid_range id
          × (((v : Vm) → Memᴰ v vms → v.vmid ≡ id → Stale i vms id)
              × ((image : Text) × ((runner : Text) × Memᴰ c (import_commands i id image runner))))))
