-- ===== src/Config.antt =====
-- internal/config: the controller's configuration.
pub mod Range
pub mod Defaults
pub mod Units
pub mod InstallDefaults
pub mod Lifetime
pub mod App
pub mod Validate
use proxmox_actions_runners.Prelude.{ℤ, pos, Bool, true, List, Text, Option, none, some}
use proxmox_actions_runners.Prelude.Time.{Duration}

-- An inclusive range of VM IDs.
pub record VmidRange : Type 0 where
  pub start : ℤ
  pub end : ℤ

-- How to reach the Proxmox VE API and where workers are created.
pub record Proxmox : Type 0 where
  pub url : Text
  pub token_id : Text
  pub token_secret_file : Text
  pub ca_cert_file : Text
  pub tls_server_name : Text
  pub tls_fingerprint : Text
  pub node : Text
  pub pool : Text
  pub storage : Text
  pub zone : Text
  pub vnet : Text
  pub vmid_range : VmidRange
  pub linked_clone : Option Bool

pub record GitHubApp : Type 0 where
  pub client_id : Text
  pub installation_id : ℤ
  pub private_key_file : Text

pub record GitHub : Type 0 where
  pub config_url : Text
  pub app : GitHubApp

-- A worker VM's hardware. A zero field is filled from the level above.
pub record Worker : Type 0 where
  pub cores : ℤ
  pub memory_mib : ℤ
  pub free_disk_gib : ℤ

pub record ScaleSet : Type 0 where
  pub name : Text
  pub labels : List Text
  pub runner_group : Text
  pub min_runners : ℤ
  pub max_runners : ℤ
  pub max_lifetime : Duration
  pub worker : Worker

pub record Config : Type 0 where
  pub proxmox : Proxmox
  pub github : GitHub
  pub worker : Worker
  pub scale_sets : List ScaleSet

abbrev pub default_linked_clone : Bool
default_linked_clone = true

unfoldable pub use_linked_clone : Proxmox → Bool
use_linked_clone p = elim p.linked_clone [ none ↦ default_linked_clone | some b ↦ b ]
