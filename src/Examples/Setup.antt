-- ===== src/Examples/Setup.antt =====
-- Settings and the installer's steps at concrete inputs.
use proxmox_actions_runners.Prelude.{
  pos, ◌==◌, text_eq, text_beq, text_beq_iff, Bool, true, false, not, [], Text, Option, none, some,
  codes, ◌≡◌, refl, subst, sym, arith, if◌then◌else◌, is_empty, is_some,
}
use proxmox_actions_runners.Prelude.Results.{ok}
use proxmox_actions_runners.Prelude.Int.{◌+ℤ◌, ◌-ℤ◌, beq_ℤ, wrap64}
use proxmox_actions_runners.Prelude.Strings.{trim_space, trim_left, trim_right}
use proxmox_actions_runners.Prelude.Number.{parse_int, parse_nat, parse_digits}
use proxmox_actions_runners.Config.Range.{size}
use proxmox_actions_runners.Prelude.Time.{Duration}
use proxmox_actions_runners.Config.Defaults.{
  Url, UrlPackage, proxmox_api_path, apply_defaults, trim_slash,
}
use proxmox_actions_runners.Config.Validate
use proxmox_actions_runners.Config.Validate.{Checks}
use proxmox_actions_runners.Settings.{Settings, default_settings}
use proxmox_actions_runners.Settings.Validate.{Packages}
use proxmox_actions_runners.Settings.Validate as SettingsCheck
use proxmox_actions_runners.Settings.Validate.Sound.{IsValid}
use proxmox_actions_runners.Settings.Render.{Env, system_cas, controller_config}
use proxmox_actions_runners.Settings.Render.Fields.{Agree}
use proxmox_actions_runners.Settings.Render.Accepted.{controller_config-accepted}
use proxmox_actions_runners.Settings.Keys.{
  Key, Limits, key_name, runners_max, set_key, find_key, set_value, worker_ids, get_value, with_max,
}
use proxmox_actions_runners.Settings.Keys.Sound.{Changed, set_key-Changed}
use proxmox_actions_runners.Settings.Keys.RoundTrip.{set_key-get_value}

abbrev here_url : Text
here_url = codes "https://github.com/octo"

abbrev given : Text → Bool
given t = not (is_empty t)

abbrev read_github : Text → Option (Text × Text)
read_github t = if is_empty t then none else some (codes "octo", [])

abbrev packages : Packages
packages = record {
  is_id = given;
  is_label = given;
  is_runner_group = given;
  is_github_url = λ t. t == here_url;
  is_slug = given;
  is_scale_set_name = given;
  parse_addr = λ t. some true;
  parse_prefix = λ t. some (record { is_4 = true; bits = pos 22; is_masked = true });
  parse_github_url = read_github;
}

abbrev pve_url : Url
pve_url = record {
  scheme = codes "https";
  host = codes "10.0.0.2:8006";
  path = proxmox_api_path;
  raw_query = [];
  fragment = [];
  has_user = false;
}

abbrev urls : UrlPackage
urls = record { parse = λ t. some pve_url; print = λ u. u.host }

abbrev checks : Checks
checks = record {
  parse_url = λ t. some pve_url;
  is_abs = given;
  is_scale_set_name = given;
  parse_github_url = read_github;
}

abbrev env : Env
env = record {
  node = codes "pve";
  pve_address_port = codes "10.0.0.2:8006";
  tls = record { mode = system_cas; server_name = codes "pve.example.com"; fingerprint = [] };
  linked_clone = true;
}

abbrev settings : Settings
settings = record default_settings {
  github = record {
    config_url = here_url;
    app = record { client_id = codes "Iv1"; installation_id = pos 5; slug = codes "octo-runners" };
  };
}

settings_valid : SettingsCheck.validate packages settings ≡ []
unfolding SettingsCheck.validate SettingsCheck.validate_network text_beq
    SettingsCheck.range_problems size ◌+ℤ◌ ◌-ℤ◌ wrap64 SettingsCheck.validate_github
    SettingsCheck.validate_scale_set SettingsCheck.label_problems beq_ℤ
    SettingsCheck.validate_worker
settings_valid = refl

here_url_trimmed : trim_slash here_url ≡ here_url
unfolding trim_slash
here_url_trimmed = refl

agree : Agree packages checks urls env
agree = record {
  id_lem = refl;
  group_lem = refl;
  empty_name_lem = refl;
  name_lem = λ t h. h;
  slash_lem =
      λ t h. subst (λ u. trim_slash u ≡ u) (sym ((text_beq_iff t here_url).0 h)) here_url_trimmed;
  github_lem =
      λ t h. subst (λ u. is_some (read_github u) ≡ true) (sym ((text_beq_iff t here_url).0 h)) refl;
  same_lem = λ t. refl;
  nowhere_lem = refl;
  token_lem = refl;
  ca_lem = refl;
  key_lem = refl;
  parse_lem = refl;
  url_lem = (refl, λ e. cc e, refl, refl, refl, refl);
}

controller_config-accepted_example :
    Validate.validate checks (apply_defaults urls (controller_config settings env)) ≡ []
controller_config-accepted_example =
    controller_config-accepted packages checks urls settings env agree (λ e. cc e) (ground arith) tt
      settings_valid

abbrev limits : Limits
limits = record { host_cpus = pos 8; host_mem_mib = pos 32768 }

abbrev durations : Text → Option Duration
durations t = none

abbrev three : Settings
three = with_max settings (pos 3)

three_set :
    set_key packages durations settings (key_name runners_max) (codes " 3") limits ≡ ok three
unfolding set_key find_key set_value worker_ids parse_int parse_nat parse_digits trim_space
    trim_left trim_right SettingsCheck.validate SettingsCheck.validate_network text_beq
    SettingsCheck.range_problems size ◌+ℤ◌ ◌-ℤ◌ wrap64 SettingsCheck.validate_github
    SettingsCheck.validate_scale_set SettingsCheck.label_problems beq_ℤ
    SettingsCheck.validate_worker
three_set = refl

set_key-Changed_example :
    (key : Key) × (key_name key ≡ key_name runners_max)
    × Changed key limits settings three
    × IsValid packages three
set_key-Changed_example =
    set_key-Changed packages durations settings three (key_name runners_max) (codes " 3") limits
      three_set

set_key-get_value_example :
    set_key packages durations three (key_name runners_max) (get_value runners_max three).0 limits
    ≡ ok three
set_key-get_value_example =
    set_key-get_value packages durations settings three runners_max (codes " 3") limits (λ e. cc e)
      three_set
