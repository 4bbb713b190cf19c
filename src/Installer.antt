-- ===== src/Installer.antt =====
-- internal/installer: what the command on the host does to the node. The commands that change it are
-- logged, newest first; what they and the listings answer can depend on the commands before.
pub mod Log
pub mod Template
pub mod Uninstall
pub mod Network
pub mod Access
pub mod SystemVm
pub mod Upgrade
pub mod Update
pub mod Status
pub mod Tuning
pub mod Objects
pub mod Report
use proxmox_actions_runners.Prelude.{
  ℤ, ◌==◌, text_eq, int_eq, Bool, true, false, ◌&&◌, List, [], ◌∷◌, ◌++◌, Text, Option, none, some,
  codes, if◌then◌else◌,
}
use proxmox_actions_runners.Prelude.Results.{Result, ok, err}
use proxmox_actions_runners.Config.InstallDefaults
use proxmox_actions_runners.Proxmox.{Vm, has_tag}
use proxmox_actions_runners.Release.{Version, print}

abbrev pub system_pool : Text
system_pool = codes "par-system"

abbrev pub runner_pool : Text
runner_pool = InstallDefaults.pool

abbrev pub vnet : Text
vnet = InstallDefaults.vnet

-- A command of the host, with its arguments.
abbrev pub Command : Type 0
Command = List Text

-- The host: what a command fails with, and the VMs that are listed.
pub record Host : Type 0 where
  pub dry_run : Bool
  pub run_answer : List Command → Command → Option Text
  pub vms_answer : List Command → Result Text (List Vm)

-- An error that ends the operation, or none, and the commands so far.
abbrev pub Outcome : Type 0
Outcome = Option Text × List Command

-- `in.run`: a dry run only logs the command.
unfoldable pub run : Host → Command → List Command → Outcome
run host c log = (if host.dry_run then none else host.run_answer log c, c ∷ log)

-- What follows if there was no error.
unfoldable pub and_then : Outcome → (List Command → Outcome) → Outcome
and_then (some e, log) next = (some e, log)
and_then (none, log) next = next log

unfoldable pub run_each : Host → List Command → List Command → Outcome
run_each host [] log = (none, log)
run_each host (c ∷ cs) log = and_then (run host c log) (run_each host cs)

abbrev pub is_tagged : Vm → Text → Text → Bool
is_tagged vm pool tag = vm.pool == pool && has_tag vm tag

unfoldable pub tagged : List Vm → Text → Text → List Vm
tagged [] pool tag = []
tagged (vm ∷ vms) pool tag =
    let rest = tagged vms pool tag in if is_tagged vm pool tag then vm ∷ rest else rest

-- `findSystemVM`: the first of them.
unfoldable pub find_system_vm : List Vm → Text → Option Vm
unfolding tagged
find_system_vm vms tag = elim (tagged vms system_pool tag) [ [] ↦ none | vm ∷ rest ↦ some vm ]

abbrev pub release_prefix : Text
release_prefix = codes "par-release-"

abbrev pub release_tag : Version → Text
release_tag v = release_prefix ++ print v
