-- ===== src/Examples/Install.antt =====
-- The installer's steps at concrete inputs.
use mathlib.Core.List.{Perm}
use proxmox_actions_runners.Prelude.{
  pos, true, false, List, [], ◌∷◌, Text, Option, none, some, codes, ◌≡◌, refl, text_beq, beq_ℤ,
}
use proxmox_actions_runners.Prelude.{contains}
use proxmox_actions_runners.Prelude.Number.{format_int}
use proxmox_actions_runners.Prelude.Results.{ok}
use proxmox_actions_runners.Prelude.Lists.{All}
use proxmox_actions_runners.Prelude.Strings.{trim_space, trim_left, trim_right}
use proxmox_actions_runners.Proxmox.{Vm, has_tag}
use proxmox_actions_runners.Release.{Version, print, compare_versions}
use proxmox_actions_runners.Installer.{Host, find_system_vm, tagged}
use proxmox_actions_runners.Installer.Template.{Release, Import}
use proxmox_actions_runners.Installer.Template.Reserved
use proxmox_actions_runners.Installer.Uninstall.{destroy_vms}
use proxmox_actions_runners.Installer.Uninstall.Owned
use proxmox_actions_runners.Installer.Uninstall.Owned.{
  ClonesFirst, destroy_vms-Allowed, managed_vms-ClonesFirst,
}
use proxmox_actions_runners.Installer.Uninstall.{managed_vms, owned}
use proxmox_actions_runners.Installer.Upgrade.{
  UpgradeStep, Found, Permission, upgrade, upgrade_steps, run_plan, run_steps, plan_steps, needs,
  gateway_steps, has_template, any_template, with_controller, config_drifts,
}
use proxmox_actions_runners.Installer.Upgrade.Plan.{has_tag_step}
use proxmox_actions_runners.Installer.Upgrade.Tagged.{DoneBefore, upgrade-DoneBefore}
use proxmox_actions_runners.Prelude.{ℤ, leb, arith}
use proxmox_actions_runners.Prelude.Int.{+ℤ_parts}
use proxmox_actions_runners.Prelude.Results.{Result}
use proxmox_actions_runners.Prelude.Time.{seconds}
use proxmox_actions_runners.Installer.SystemVm.{system_vmid}
use proxmox_actions_runners.Installer.SystemVm.Free.{Answered, fuel_for, system_vmid-Answered}
use proxmox_actions_runners.Installer.{Command}
use proxmox_actions_runners.Installer.Network.{Network, create_network}
use proxmox_actions_runners.Installer.Network.Up.{Ticks, UpUnless, create_network-UpUnless}
use proxmox_actions_runners.Examples.Fleet.{worker_vm, vmids}

abbrev version : Version
version = record { major = pos 0; minor = pos 3; patch = pos 0; pre = [] }

-- What a failed import left, a worker, and the controller.
abbrev half_imported : Vm
half_imported = record worker_vm {
  vmid = pos 107;
  pool = codes "par-runners";
  tags = codes "par-managed" ∷ codes "par-template" ∷ codes "par-release-0.3.0" ∷ [];
}

abbrev a_worker : Vm
a_worker = record worker_vm { pool = codes "par-runners" }

abbrev controller_vm : Vm
controller_vm = record worker_vm {
  vmid = pos 120;
  pool = codes "par-system";
  tags = codes "par-managed" ∷ codes "par-controller" ∷ [];
}

abbrev listed : List Vm
listed = half_imported ∷ a_worker ∷ controller_vm ∷ []

abbrev host : Host
host = record { dry_run = false; run_answer = λ log c. none; vms_answer = λ log. ok listed }

abbrev assets : Release
assets = record {
  image = ok (codes "/var/tmp/runner.qcow2");
  manifest = ok (codes "/var/tmp/runner.json");
  builds = λ path. some (codes "2.330.0" ∷ []);
}

abbrev import_ : Import
import_ = record {
  storage = codes "local-lvm";
  vmid_range = vmids;
  version = version;
  now = pos 1700000000;
}

destroy_vms-Allowed_example : All (Owned.Allowed listed) (destroy_vms host []).1
destroy_vms-Allowed_example = destroy_vms-Allowed host listed [] refl tt

clones_before_templates :
    Perm (managed_vms listed) (owned listed) × ClonesFirst (managed_vms listed)
clones_before_templates = managed_vms-ClonesFirst listed

abbrev found : Found
found = record {
  vms = ok listed;
  controller_version = ok (codes "0.2.0");
  want_config = ok (codes "new");
  have_config = ok (codes "old");
  is_installed = true;
  needs_offloads = false;
  needs_async_pf = false;
}

abbrev permission : Permission
permission = record {
  settings = none;
  dry_run = false;
  confirmed = true;
  question = none;
  lock = none;
}

abbrev do_step : List UpgradeStep → UpgradeStep → Option Text
do_step done s = none

abbrev forced : List UpgradeStep
forced = (upgrade do_step version version true permission found).1

forced-tagged : has_tag_step forced ≡ true
unfolding upgrade upgrade_steps run_plan run_steps plan_steps needs gateway_steps has_template
    any_template with_controller config_drifts has_tag_step compare_versions find_system_vm tagged
    has_tag contains text_beq print trim_space trim_left trim_right beq_ℤ format_int
forced-tagged = refl

upgrade-DoneBefore_example : DoneBefore do_step version true found forced
upgrade-DoneBefore_example =
    upgrade-DoneBefore do_step version version true permission found forced-tagged

system_vmid-Answered_example :
    (out : Result Text ℤ) × ((system_vmid (fuel_for (ok listed)) vmids (ok (pos 103)) (ok listed)
        ≡ some out)
      × Answered vmids (ok (pos 103)) (ok listed) out)
system_vmid-Answered_example = system_vmid-Answered vmids (ok (pos 103)) (ok listed)

-- A new node whose VNet comes up after three waits of a second.
abbrev network : Network
network = record {
  sdn_exists = λ log object. false;
  pending = λ log. ok [];
  now = λ k. seconds k;
  is_up = λ k. leb 3 k;
  sleep = λ k d. none;
}

network-Ticks : Ticks network
network-Ticks k = omega (arith, +ℤ_parts (seconds k) (seconds 1))

create_network-UpUnless_example :
    (e : Option Text) × ((done : List Command) × ((create_network 63 host network []
          ≡ some (e, done))
        × UpUnless network e))
create_network-UpUnless_example = create_network-UpUnless host network [] network-Ticks refl
