-- ===== src/Config/Defaults.antt =====
-- internal/config/defaults.go: what a configuration means where it leaves something out. A URL is
-- parsed by package net/url, which is a parameter.
use proxmox_actions_runners.Prelude.{
  ℤ, pos, ◌==◌, int_eq, text_eq, Bool, ◌||◌, ◌&&◌, not, List, [], ◌∷◌, Text, Option, none, some,
  codes, is_empty, if◌then◌else◌, nat_beq,
}
use proxmox_actions_runners.Prelude.Time.{Duration, hours}
use proxmox_actions_runners.Config.{Config, Worker, ScaleSet, default_linked_clone}

abbrev pub default_cores : ℤ
default_cores = pos 2

abbrev pub default_memory_mib : ℤ
default_memory_mib = pos 8192

abbrev pub default_free_disk_gib : ℤ
default_free_disk_gib = pos 14

abbrev pub default_max_lifetime : Duration
default_max_lifetime = hours 6

abbrev pub default_zone : Text
default_zone = codes "parzone"

abbrev pub default_runner_group : Text
default_runner_group = codes "default"

abbrev pub proxmox_api_path : Text
proxmox_api_path = codes "/api2/json"

abbrev pub default_worker : Worker
default_worker = record {
  cores = default_cores;
  memory_mib = default_memory_mib;
  free_disk_gib = default_free_disk_gib;
}

abbrev pub or_base : ℤ → ℤ → ℤ
or_base x base = if x == pos 0 then base else x

unfoldable pub with_defaults : Worker → Worker → Worker
with_defaults w base = record {
  cores = or_base w.cores base.cores;
  memory_mib = or_base w.memory_mib base.memory_mib;
  free_disk_gib = or_base w.free_disk_gib base.free_disk_gib;
}

-- A URL as package net/url splits it.
pub record Url : Type 0 where
  pub scheme : Text
  pub host : Text
  pub path : Text
  pub raw_query : Text
  pub fragment : Text
  pub has_user : Bool

-- `url.Parse` and `(*URL).String`.
pub record UrlPackage : Type 0 where
  pub parse : Text → Option Url
  pub print : Url → Text

abbrev pub complete : UrlPackage → Text → Option Url → Text
complete urls raw none = raw
complete urls raw (some u) =
    if u.scheme == codes "https"
      && (not (is_empty u.host) && (is_empty u.path || u.path == codes "/"))
    then urls.print (record u { path = proxmox_api_path })
    else raw

-- `strings.TrimSuffix(s, "/")`
unfoldable pub trim_slash : Text → Text
trim_slash [] = []
trim_slash (c ∷ []) = if nat_beq c b'/' then [] else c ∷ []
trim_slash (c ∷ d ∷ s) = c ∷ trim_slash (d ∷ s)

abbrev pub or_text : Text → Text → Text
or_text t d = if is_empty t then d else t

abbrev pub or_name : List Text → Text → List Text
or_name [] name = if is_empty name then [] else name ∷ []
or_name (l ∷ ls) name = l ∷ ls

-- One round of the loop over the scale sets.
unfoldable pub default_scale_set : Worker → ScaleSet → ScaleSet
default_scale_set base s = record s {
  labels = or_name s.labels s.name;
  runner_group = or_text s.runner_group default_runner_group;
  max_lifetime = or_base s.max_lifetime default_max_lifetime;
  worker = with_defaults s.worker base;
}

unfoldable pub default_scale_sets : Worker → List ScaleSet → List ScaleSet
default_scale_sets base [] = []
default_scale_sets base (s ∷ ss) = default_scale_set base s ∷ default_scale_sets base ss

abbrev pub or_linked : Option Bool → Option Bool
or_linked none = some default_linked_clone
or_linked (some b) = some b

unfoldable pub apply_defaults : UrlPackage → Config → Config
apply_defaults urls c =
    let base = with_defaults c.worker default_worker in
    record {
      proxmox = record c.proxmox {
        url = complete urls c.proxmox.url (urls.parse c.proxmox.url);
        zone = or_text c.proxmox.zone default_zone;
        linked_clone = or_linked c.proxmox.linked_clone;
      };
      github = record c.github { config_url = trim_slash c.github.config_url };
      worker = base;
      scale_sets = default_scale_sets base c.scale_sets;
    }
