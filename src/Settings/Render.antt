-- ===== src/Settings/Render.antt =====
-- internal/settings/render.go: the controller's configuration, made from the settings and the node.
pub mod Fields
pub mod Accepted
use proxmox_actions_runners.Prelude.{
  ℤ, pos, Bool, List, [], ◌∷◌, ◌++◌, Text, Option, some, is_empty, codes, if◌then◌else◌,
}
use proxmox_actions_runners.Config
use proxmox_actions_runners.Config.{Config}
use proxmox_actions_runners.Config.InstallDefaults
use proxmox_actions_runners.Config.Defaults.{default_zone}
use proxmox_actions_runners.Settings
use proxmox_actions_runners.Settings.{Settings}

-- internal/hostsys/tls.go: how the controller verifies the API's certificate.
pub data TlsMode : Type 0 where
  node_ca system_cas pinned : TlsMode

pub record TlsInfo : Type 0 where
  pub mode : TlsMode
  pub server_name : Text
  pub fingerprint : Text

-- What the node adds. The address is printed with its port, as `netip.AddrPort` does.
pub record Env : Type 0 where
  pub node : Text
  pub pve_address_port : Text
  pub tls : TlsInfo
  pub linked_clone : Bool

abbrev pub api_url : Env → Text
api_url env = codes "https://" ++ (env.pve_address_port ++ codes "/api2/json")

abbrev pub with_tls : TlsInfo → TlsMode → Config.Proxmox → Config.Proxmox
with_tls tls node_ca p = record p {
  ca_cert_file = InstallDefaults.ca_cert_file;
  tls_server_name = tls.server_name;
}
with_tls tls system_cas p = record p { tls_server_name = tls.server_name }
with_tls tls pinned p = record p { tls_fingerprint = tls.fingerprint }

abbrev pub no_app : Config.GitHubApp
no_app = record { client_id = []; installation_id = pos 0; private_key_file = [] }

abbrev pub controller_app : Settings.App → Config.GitHubApp
controller_app a = if is_empty a.client_id then no_app else record {
  client_id = a.client_id;
  installation_id = a.installation_id;
  private_key_file = InstallDefaults.app_key_file;
}

abbrev pub controller_proxmox : Settings → Env → Config.Proxmox
controller_proxmox s env = record {
  url = api_url env;
  token_id = InstallDefaults.token_id;
  token_secret_file = InstallDefaults.token_secret_file;
  ca_cert_file = [];
  tls_server_name = [];
  tls_fingerprint = [];
  node = env.node;
  pool = InstallDefaults.pool;
  storage = s.proxmox.storage;
  zone = default_zone;
  vnet = InstallDefaults.vnet;
  vmid_range = s.proxmox.vmid_range;
  linked_clone = some env.linked_clone;
}

abbrev pub controller_scale_set : Settings.ScaleSet → Config.ScaleSet
controller_scale_set ss = record {
  name = ss.name;
  labels = ss.labels;
  runner_group = ss.runner_group;
  min_runners = ss.min_runners;
  max_runners = ss.max_runners;
  max_lifetime = ss.max_lifetime;
  worker = record { cores = pos 0; memory_mib = pos 0; free_disk_gib = pos 0 };
}

-- `ControllerConfig`, before it is written and read back.
unfoldable pub controller_config : Settings → Env → Config
controller_config s env = record {
  proxmox = with_tls env.tls env.tls.mode (controller_proxmox s env);
  github = record { config_url = s.github.config_url; app = controller_app s.github.app };
  worker = s.worker;
  scale_sets = controller_scale_set s.scale_set ∷ [];
}
