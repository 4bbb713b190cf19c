-- ===== src/Settings/Keys.antt =====
-- internal/settings/keys.go: the settings that users change by name.
pub mod Sound
pub mod RoundTrip
use proxmox_actions_runners.Prelude.{
  ℤ, pos, ◌-ℤ◌, ltb_ℤ, max_ℤ, ◌==◌, int_eq, text_eq, Bool, true, false, ◌&&◌, ◌||◌, List, [], ◌∷◌,
  Text, Option, none, some, codes, if◌then◌else◌, contains,
}
use proxmox_actions_runners.Prelude.Int.{wrap64, ◌*ℤ◌}
use proxmox_actions_runners.Prelude.Strings.{trim_space}
use proxmox_actions_runners.Prelude.Number.{itoa, parse_int}
use proxmox_actions_runners.Prelude.Time.{Duration}
use proxmox_actions_runners.Prelude.Results.{Result, ok, err}
use proxmox_actions_runners.Config.Defaults.{
  default_cores, default_memory_mib, default_max_lifetime,
}
use proxmox_actions_runners.Config
use proxmox_actions_runners.Config.InstallDefaults
use proxmox_actions_runners.Config.Range.{size, reserved_vmids}
use proxmox_actions_runners.Config.Units.{SizeError, parse_size, format_mib}
use proxmox_actions_runners.Config.Lifetime.{LifetimeError, parse_lifetime, format_lifetime}
use proxmox_actions_runners.Config.Validate.{min_max_lifetime, max_max_lifetime}
use proxmox_actions_runners.Settings.{Settings, effective_worker, effective_max_lifetime}
use proxmox_actions_runners.Settings.Validate.{
  Packages, Problem, validate, min_cores, min_memory_mib,
}

-- What the node allows. Zero means unknown.
pub record Limits : Type 0 where
  pub host_cpus : ℤ
  pub host_mem_mib : ℤ

-- The four keys, whose functions are by clauses below.
pub data Key : Type 0 where
  runners_max worker_cores worker_max_lifetime worker_memory : Key

abbrev pub key_name : Key → Text
key_name runners_max = codes "runners.max"
key_name worker_cores = codes "worker.cores"
key_name worker_max_lifetime = codes "worker.maxLifetime"
key_name worker_memory = codes "worker.memory"

abbrev pub keys : List Key
keys = runners_max ∷ worker_cores ∷ worker_max_lifetime ∷ worker_memory ∷ []

unfoldable pub find_key : List Key → Text → Option Key
find_key [] name = none
find_key (k ∷ ks) name = if key_name k == name then some k else find_key ks name

-- Why a value is refused.
pub data Refusal : Type 0 where
  not_a_number : Refusal
  out_of_range : (lo : ℤ) → (hi : ℤ) → Refusal
  below_minimum : ℤ → Refusal
  above_host : ℤ → Refusal
  bad_size : SizeError → Refusal
  bad_lifetime : LifetimeError → Refusal
  invalid_settings : Problem → List Problem → Refusal

pub data SetError : Type 0 where
  unknown_key : Text → SetError
  refused : Key → Text → Refusal → SetError

unfoldable pub worker_ids : Settings → ℤ
worker_ids s = max_ℤ (size s.proxmox.vmid_range -ℤ reserved_vmids) (pos 0)

-- Each key's `Get`: the value as `set_value` takes it, and whether it is the default.
unfoldable pub get_value : Key → Settings → Text × Bool
get_value runners_max s =
    (itoa s.scale_set.max_runners, s.scale_set.max_runners == InstallDefaults.max_runners)
get_value worker_cores s = let n = (effective_worker s).cores in (itoa n, n == default_cores)
get_value worker_memory s =
    let n = (effective_worker s).memory_mib in (format_mib n, n == default_memory_mib)
get_value worker_max_lifetime s =
    let d = effective_max_lifetime s in (format_lifetime d, d == default_max_lifetime)

abbrev pub with_max : Settings → ℤ → Settings
with_max s n = record s { scale_set = record s.scale_set { max_runners = n } }

abbrev pub set_max : Settings → Option ℤ → Result Refusal Settings
set_max s none = err not_a_number
set_max s (some n) =
    let lo = max_ℤ (pos 1) s.scale_set.min_runners in
    if ltb_ℤ n lo || ltb_ℤ (worker_ids s) n
    then err (out_of_range lo (worker_ids s))
    else ok (with_max s n)

abbrev pub with_cores : Settings → ℤ → Settings
with_cores s n = record s { worker = record s.worker { cores = n } }

abbrev pub set_cores : Settings → Limits → Option ℤ → Result Refusal Settings
set_cores s l none = err not_a_number
set_cores s l (some n) =
    if ltb_ℤ n min_cores
    then err (below_minimum min_cores)
    else if ltb_ℤ (pos 0) l.host_cpus && ltb_ℤ l.host_cpus n
    then err (above_host l.host_cpus)
    else ok (with_cores s n)

abbrev pub with_memory : Settings → ℤ → Settings
with_memory s n = record s { worker = record s.worker { memory_mib = n } }

abbrev pub set_memory : Settings → Limits → Result SizeError ℤ → Result Refusal Settings
set_memory s l (err e) = err (bad_size e)
set_memory s l (ok mib) =
    if ltb_ℤ mib min_memory_mib
    then err (below_minimum min_memory_mib)
    else if ltb_ℤ (pos 0) l.host_mem_mib && ltb_ℤ l.host_mem_mib mib
    then err (above_host l.host_mem_mib)
    else ok (with_memory s mib)

abbrev pub with_lifetime : Settings → Duration → Settings
with_lifetime s d = record s { scale_set = record s.scale_set { max_lifetime = d } }

abbrev pub set_lifetime : Settings → Result LifetimeError Duration → Result Refusal Settings
set_lifetime s (err e) = err (bad_lifetime e)
set_lifetime s (ok d) =
    if ltb_ℤ d min_max_lifetime || ltb_ℤ max_max_lifetime d
    then err (out_of_range min_max_lifetime max_max_lifetime)
    else ok (with_lifetime s d)

-- Each key's `Set`.
unfoldable pub set_value :
    (Text → Option Duration) → Key → Settings → Text → Limits → Result Refusal Settings
set_value durations runners_max s value l = set_max s (parse_int (trim_space value))
set_value durations worker_cores s value l = set_cores s l (parse_int (trim_space value))
set_value durations worker_memory s value l = set_memory s l (parse_size value)
set_value durations worker_max_lifetime s value l = set_lifetime s (parse_lifetime durations value)

abbrev pub checked : Key → Text → Settings → List Problem → Result SetError Settings
checked key value next [] = ok next
checked key value next (p ∷ ps) = err (refused key value (invalid_settings p ps))

abbrev pub check_next : Packages → Key → Text → Result Refusal Settings → Result SetError Settings
check_next k key value (err r) = err (refused key value r)
check_next k key value (ok next) = checked key value next (validate k next)

-- `SetKey`: the new settings, or why they stay as they are.
unfoldable pub set_key :
    Packages → (Text → Option Duration) → Settings → Text → Text → Limits → Result SetError Settings
set_key k durations s name value l = elim (find_key keys name) [
  | none ↦ err (unknown_key name)
  | some key ↦ check_next k key value (set_value durations key s value l)
]

pub record Warning : Type 0 where
  pub about : List Key
  pub total_mib : ℤ

-- `Warning.About`
unfoldable pub warns_about : List Key → Text → Bool
warns_about [] name = false
warns_about (k ∷ ks) name = key_name k == name || warns_about ks name

-- `Warnings`: the product is a Go `int`.
unfoldable pub warnings : Settings → Limits → List Warning
warnings s l =
    let total = wrap64 (s.scale_set.max_runners *ℤ (effective_worker s).memory_mib) in
    if ltb_ℤ (pos 0) l.host_mem_mib && ltb_ℤ l.host_mem_mib total
    then record { about = runners_max ∷ worker_memory ∷ []; total_mib = total } ∷ []
    else []
