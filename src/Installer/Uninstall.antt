-- ===== src/Installer/Uninstall.antt =====
-- internal/installer/uninstall.go and smoke.go: destroying the VMs that the project owns, and removing its
-- access objects.
pub mod Owned
use proxmox_actions_runners.Prelude.{
  ℤ, ltb_ℤ, ◌==◌, text_eq, int_eq, Bool, true, false, not, ◌&&◌, ◌||◌, List, [], ◌∷◌, ◌++◌, Text,
  Option, none, some, codes, if◌then◌else◌, has_prefix,
}
use proxmox_actions_runners.Prelude.Results.{Result, ok, err}
use proxmox_actions_runners.Prelude.Number.{itoa}
use proxmox_actions_runners.Proxmox.{Vm, has_tag}
use proxmox_actions_runners.VmTags
use proxmox_actions_runners.Installer.{
  Command, Host, Outcome, run, and_then, system_pool, runner_pool,
}

abbrev pub is_owned : Vm → Bool
is_owned vm = (vm.pool == system_pool || vm.pool == runner_pool) && has_tag vm VmTags.managed

unfoldable pub owned : List Vm → List Vm
owned [] = []
owned (vm ∷ vms) = let rest = owned vms in if is_owned vm then vm ∷ rest else rest

abbrev pub differ : Bool → Bool → Bool
differ a b = if a then not b else b

-- Clones before templates, then by VMID.
abbrev pub goes_before : Vm → Vm → Bool
goes_before a b = if differ a.template b.template then not a.template else ltb_ℤ a.vmid b.vmid

unfoldable pub insert_vm : Vm → List Vm → List Vm
insert_vm vm [] = vm ∷ []
insert_vm vm (x ∷ xs) =
    let rest = insert_vm vm xs in if goes_before x vm then x ∷ rest else vm ∷ x ∷ xs

-- `sort.SliceStable`
unfoldable pub sort_vms : List Vm → List Vm
unfolding insert_vm
sort_vms [] = []
sort_vms (x ∷ xs) = insert_vm x (sort_vms xs)

unfoldable pub managed_vms : List Vm → List Vm
unfolding sort_vms owned
managed_vms vms = sort_vms (owned vms)

abbrev pub stop_command : ℤ → Command
stop_command id = codes "qm" ∷ codes "stop" ∷ itoa id ∷ codes "--skiplock" ∷ codes "1" ∷ []

abbrev pub destroy_command : ℤ → Command
destroy_command id = codes "qm" ∷ codes "destroy" ∷ itoa id ∷ codes "--purge" ∷ codes "1" ∷ []

-- A running VM is stopped first, whatever that answers.
abbrev pub stop_if : Host → Bool → ℤ → List Command → List Command
stop_if host running id log = if running then (run host (stop_command id) log).1 else log

unfoldable pub destroy_listed : Host → ℤ → List Vm → List Command → Outcome
unfolding run and_then
destroy_listed host id [] log = (none, log)
destroy_listed host id (vm ∷ vms) log =
    let skip = destroy_listed host id vms log in
    let destroyed =
      and_then (run host (destroy_command id) (stop_if host (vm.status == codes "running") id log))
        (destroy_listed host id vms) in
    if not (vm.vmid == id) then skip else destroyed

-- `destroyVM` lists the VMs again.
unfoldable pub destroy_vm : Host → ℤ → List Command → Outcome
unfolding destroy_listed
destroy_vm host id log = elim (host.vms_answer log) [
  | err e ↦ (some e, log)
  | ok vms ↦ destroy_listed host id vms log
]

-- The loop of `Uninstall`.
unfoldable pub destroy_each : Host → List Vm → List Command → Outcome
unfolding destroy_vm and_then
destroy_each host [] log = (none, log)
destroy_each host (vm ∷ vms) log = and_then (destroy_vm host vm.vmid log) (destroy_each host vms)

-- What `Uninstall` does to the VMs.
unfoldable pub destroy_vms : Host → List Command → Outcome
unfolding managed_vms destroy_each
destroy_vms host log = elim (host.vms_answer log) [
  | err e ↦ (some e, log)
  | ok vms ↦ destroy_each host (managed_vms vms) log
]
