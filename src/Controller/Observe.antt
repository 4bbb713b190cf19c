-- ===== src/Controller/Observe.antt =====
-- internal/controller/reconcile.go: what a pass sees in Proxmox.
use proxmox_actions_runners.Prelude.{
  ℤ, ◌==◌, text_eq, int_eq, Bool, true, not, ◌||◌, List, [], ◌∷◌, ◌++◌, Text, Option, get_or,
  if◌then◌else◌, lookup, insert,
}
use proxmox_actions_runners.Prelude.Results.{Result, ok, err}
use proxmox_actions_runners.Config.{Config}
use proxmox_actions_runners.Config.Range.{workers, contains}
use proxmox_actions_runners.Proxmox.{Vm, has_tag}
use proxmox_actions_runners.VmTags
use proxmox_actions_runners.Controller.Naming.{Worker, TagError, parse_worker}

pub record View : Type 0 where
  pub template : Option Vm
  pub workers : List (Text × List Worker)
  pub strays : List Vm
  pub used : List (ℤ × Bool)

abbrev pub workers_of : View → Text → List Worker
workers_of v name = get_or (lookup name v.workers) []

abbrev pub sort_worker : View → Vm → Result TagError Worker → View
sort_worker v vm (err e) = record v { strays = v.strays ++ vm ∷ [] }
sort_worker v vm (ok w) = record v {
  workers = insert w.scale_set (workers_of v w.scale_set ++ w ∷ []) v.workers;
}

-- A VM that is none of the controller's workers or leftovers.
unfoldable pub is_ignored : Config → Vm → Bool
is_ignored cfg vm =
    vm.template
    || (not (vm.pool == cfg.proxmox.pool)
        || (not (has_tag vm VmTags.managed)
            || not (contains (workers cfg.proxmox.vmid_range) vm.vmid)))

-- One round of the loop over the listed VMs.
unfoldable pub observe_vm : Config → View → Vm → View
observe_vm cfg v vm =
    let seen = record v { used = insert vm.vmid true v.used } in
    if is_ignored cfg vm
    then seen
    else if not (has_tag vm VmTags.worker)
    then record seen { strays = v.strays ++ vm ∷ [] }
    else sort_worker seen vm (parse_worker vm)

unfoldable pub observe_loop : Config → View → List Vm → View
observe_loop cfg v [] = v
observe_loop cfg v (vm ∷ vms) = observe_loop cfg (observe_vm cfg v vm) vms

abbrev pub empty_view : Option Vm → View
empty_view t = record { template = t; workers = []; strays = []; used = [] }

unfoldable pub observe : Config → List Vm → View
observe cfg vms = observe_loop cfg (empty_view (VmTags.newest_template vms cfg.proxmox.pool)) vms
