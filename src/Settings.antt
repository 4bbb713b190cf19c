-- ===== src/Settings.antt =====
-- internal/settings: the host's record of how its runners are set up.
pub mod Validate
pub mod Keys
pub mod Render
use proxmox_actions_runners.Prelude.{ℤ, pos, ◌==◌, int_eq, List, [], Text, codes, if◌then◌else◌}
use proxmox_actions_runners.Prelude.Time.{Duration}
use proxmox_actions_runners.Config
use proxmox_actions_runners.Config.{VmidRange}
use proxmox_actions_runners.Config.InstallDefaults
use proxmox_actions_runners.Config.Defaults.{
  default_runner_group, default_max_lifetime, default_worker,
}

-- The file's format version.
abbrev pub version_number : ℤ
version_number = pos 1

abbrev pub dhcp : Text
dhcp = codes "dhcp"

pub record Network : Type 0 where
  pub bridge : Text
  pub vlan : ℤ
  pub pve_address : Text
  pub gateway_ip : Text
  pub controller_ip : Text
  pub lan_gateway : Text
  pub worker_subnet : Text

pub record Proxmox : Type 0 where
  pub storage : Text
  pub vmid_range : VmidRange

pub record App : Type 0 where
  pub client_id : Text
  pub installation_id : ℤ
  pub slug : Text

pub record GitHub : Type 0 where
  pub config_url : Text
  pub app : App

pub record ScaleSet : Type 0 where
  pub name : Text
  pub labels : List Text
  pub runner_group : Text
  pub min_runners : ℤ
  pub max_runners : ℤ
  pub max_lifetime : Duration

pub record Settings : Type 0 where
  pub version : ℤ
  pub network : Network
  pub proxmox : Proxmox
  pub github : GitHub
  pub scale_set : ScaleSet
  pub worker : Config.Worker

-- `Default`
abbrev pub default_settings : Settings
default_settings = record {
  version = version_number;
  network = record {
    bridge = InstallDefaults.bridge;
    vlan = pos 0;
    pve_address = [];
    gateway_ip = dhcp;
    controller_ip = dhcp;
    lan_gateway = [];
    worker_subnet = InstallDefaults.worker_subnet;
  };
  proxmox = record {
    storage = InstallDefaults.storage;
    vmid_range = record { start = InstallDefaults.vmid_start; end = InstallDefaults.vmid_end };
  };
  github = record {
    config_url = [];
    app = record { client_id = []; installation_id = pos 0; slug = [] };
  };
  scale_set = record {
    name = InstallDefaults.scale_set_name;
    labels = [];
    runner_group = default_runner_group;
    min_runners = InstallDefaults.min_runners;
    max_runners = InstallDefaults.max_runners;
    max_lifetime = pos 0;
  };
  worker = record { cores = pos 0; memory_mib = pos 0; free_disk_gib = pos 0 };
}

unfoldable pub effective_max_lifetime : Settings → Duration
effective_max_lifetime s =
    if s.scale_set.max_lifetime == pos 0 then default_max_lifetime else s.scale_set.max_lifetime

-- The value, or the default for a value that is not set.
abbrev pub or_else : ℤ → ℤ → ℤ
or_else n default_value = if n == pos 0 then default_value else n

unfoldable pub effective_worker : Settings → Config.Worker
effective_worker s = record {
  cores = or_else s.worker.cores default_worker.cores;
  memory_mib = or_else s.worker.memory_mib default_worker.memory_mib;
  free_disk_gib = or_else s.worker.free_disk_gib default_worker.free_disk_gib;
}
