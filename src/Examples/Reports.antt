-- ===== src/Examples/Reports.antt =====
-- The status of a node at concrete inputs.
use proxmox_actions_runners.Prelude.{
  ◌≡◌, refl, pos, true, false, [], ◌∷◌, none, codes, text_beq, contains,
}
use proxmox_actions_runners.Prelude.Results.{err}
use proxmox_actions_runners.Settings.{default_settings}
use proxmox_actions_runners.Release.Parse.RoundTrip.{version_of}
use proxmox_actions_runners.Installer.{system_pool, runner_pool}
use proxmox_actions_runners.Installer.Access.{token_name}
use proxmox_actions_runners.Installer.Status.{Guests, failed}
use proxmox_actions_runners.Installer.Report.{Asked, report}
use proxmox_actions_runners.Installer.Report.Failed.{Broken, object_missing, no_role, report-failed}

abbrev silent : Guests
silent = record {
  agent_answers = λ vmid. true;
  address = λ vmid. none;
  exec = λ vmid argv. ([], none);
  rendered = err (codes "no settings");
  unmarshal = λ text. none;
  now = pos 0;
}

-- A node that has everything but the role, and no VMs.
abbrev node : Asked
node = record {
  guests = silent;
  inventory = record {
    pools = system_pool ∷ runner_pool ∷ [];
    roles = codes "Administrator" ∷ [];
    tokens = token_name ∷ [];
    sdn_exists = λ object. true;
  };
  node = record {
    bridge_ports = λ bridge. codes "nic0" ∷ [];
    driver = λ nic. codes "virtio_net";
    ethtool = none;
    features = λ nic. none;
    read_file = λ path. none;
    file_exists = λ path. false;
    kvm_guest = true;
  };
  own = version_of 1 0 0 [];
  binary_path = codes "/usr/local/bin/parcon";
  settings_path = codes "/etc/parcon/settings.yaml";
}

role_missing : Broken default_settings [] node.inventory
unfolding text_beq contains
role_missing = object_missing (no_role refl)

report-failed_example : failed (report node default_settings [] (err (codes "offline"))) ≡ true
report-failed_example = report-failed node default_settings [] (err (codes "offline")) role_missing
