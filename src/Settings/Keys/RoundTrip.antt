-- ===== src/Settings/Keys/RoundTrip.antt =====
-- internal/settings/keys.go: a value that was set is read back as one that can be set again.
use proxmox_actions_runners.Prelude.{
  ℕ, ℤ, pos, negsuc, ◌≤ℤ◌, ◌<ℤ◌, ◌^◌, ◌≡◌, ◌≢◌, refl, subst, [], ◌∷◌, Text, Option, none, some,
  arith, text_beq,
}
use mathlib.Core.List.{append-nil}
use proxmox_actions_runners.Prelude.Int.{Fits64, beq_ℤ_iff}
use proxmox_actions_runners.Prelude.Results.{Result, ok, err}
use proxmox_actions_runners.Prelude.Time.{Duration}
use proxmox_actions_runners.Prelude.Strings.{trim_space, trim_space-NoSpace, NoSpace}
use proxmox_actions_runners.Prelude.Number.{parse_int, itoa}
use proxmox_actions_runners.Prelude.Number.RoundTrip.{parse_int-format_int}
use proxmox_actions_runners.Config.Units.{SizeError, parse_size, format_mib}
use proxmox_actions_runners.Config.Defaults.{default_cores, default_memory_mib}
use proxmox_actions_runners.Config.Units.RoundTrip.{
  AllDigits-NoSpace, format_int-digits, parse_size-format_mib, parse_size_bounds,
}
use proxmox_actions_runners.Settings.{Settings, effective_worker, or_else}
use proxmox_actions_runners.Settings.Validate.{Packages}
use proxmox_actions_runners.Settings.Keys.{
  Limits, Key, key_name, runners_max, worker_cores, worker_memory, worker_max_lifetime, keys,
  find_key, set_max, set_cores, set_memory, worker_ids, with_max, with_cores, with_memory,
  get_value, set_value, set_key,
}
use proxmox_actions_runners.Settings.Keys.Sound.{set_key-steps}

parse_int-Fits64 : (s : Text) (z : ℤ) → parse_int s ≡ some z → Fits64 z
unfolding parse_int
parse_int-Fits64 [] z h = cc
parse_int-Fits64 (c ∷ s) z h = ground arith

itoa_trimmed : (n : ℕ) → trim_space (itoa (pos n)) ≡ itoa (pos n)
itoa_trimmed n = trim_space-NoSpace (itoa (pos n)) (
    subst NoSpace (append-nil (itoa (pos n)))
      (AllDigits-NoSpace (itoa (pos n)) [] (format_int-digits n) tt))

itoa_again : (z : ℤ) → pos 0 ≤ℤ z → Fits64 z → parse_int (trim_space (itoa z)) ≡ some z
itoa_again (pos n) h f = rw (itoa_trimmed n) (parse_int-format_int (pos n) f)
itoa_again (negsuc n) h f = absurd (omega arith)

format_mib_again : (z : ℤ) → pos 0 ≤ℤ z → z <ℤ pos (2 ^ 31) → parse_size (format_mib z) ≡ ok z
format_mib_again (pos n) h b = parse_size-format_mib n (omega arith)
format_mib_again (negsuc n) h b = absurd (omega arith)

or_else_set : (n d : ℤ) → pos 1 ≤ℤ n → or_else n d ≡ n
or_else_set n d h = ground (arith, beq_ℤ_iff n (pos 0))

set_max_again :
    (s next : Settings) (o : Option ℤ)
    → ((z : ℤ) → o ≡ some z → Fits64 z)
    → set_max s o ≡ ok next
    → set_max next (parse_int (trim_space (itoa next.scale_set.max_runners))) ≡ ok next
unfolding worker_ids
set_max_again s next none f h = cc
set_max_again s next (some n) f h =
    let e : with_max s n ≡ next = ground arith in
    rw (← e) (rw (itoa_again n (ground arith) (f n refl)) (ground arith))

-- The number that `Get` shows is the one that was set.
set_cores_again :
    (s next : Settings) (l : Limits) (o : Option ℤ)
    → ((z : ℤ) → o ≡ some z → Fits64 z)
    → set_cores s l o ≡ ok next
    → set_cores next l (parse_int (trim_space (itoa (effective_worker next).cores))) ≡ ok next
unfolding effective_worker
set_cores_again s next l none f h = cc
set_cores_again s next l (some n) f h =
    let e : with_cores s n ≡ next = ground arith in
    rw (← e, or_else_set n default_cores (ground arith), itoa_again n (ground arith) (f n refl))
      (ground arith)

set_memory_again :
    (s next : Settings) (l : Limits) (r : Result SizeError ℤ)
    → ((z : ℤ) → r ≡ ok z → (pos 0 ≤ℤ z) × (z <ℤ pos (2 ^ 31)))
    → set_memory s l r ≡ ok next
    → set_memory next l (parse_size (format_mib (effective_worker next).memory_mib)) ≡ ok next
unfolding effective_worker
set_memory_again s next l (err x) f h = cc
set_memory_again s next l (ok n) f h =
    let e : with_memory s n ≡ next = ground arith in
    let (lo, hi) = f n refl in
    rw (← e, or_else_set n default_memory_mib (ground arith), format_mib_again n lo hi)
      (ground arith)

set_value_again :
    (durations : Text → Option Duration) (key : Key) (s next : Settings) (value : Text) (l : Limits)
    → key ≢ worker_max_lifetime
    → set_value durations key s value l ≡ ok next
    → set_value durations key next (get_value key next).0 l ≡ ok next
unfolding set_value get_value
set_value_again durations runners_max s next value l n h =
    set_max_again s next _ (parse_int-Fits64 (trim_space value)) h
set_value_again durations worker_cores s next value l n h =
    set_cores_again s next l _ (parse_int-Fits64 (trim_space value)) h
set_value_again durations worker_memory s next value l n h =
    set_memory_again s next l _ (parse_size_bounds value) h
set_value_again durations worker_max_lifetime s next value l n h = absurd (n refl)

find_key_name : (key : Key) → find_key keys (key_name key) ≡ some key
unfolding find_key text_beq
find_key_name runners_max = refl
find_key_name worker_cores = refl
find_key_name worker_memory = refl
find_key_name worker_max_lifetime = refl

-- For every key but the lifetime's: if SetKey succeeds, setting the same key to the value that is
-- then shown succeeds as well and leaves the settings as they are.
pub set_key-get_value :
    (k : Packages) (durations : Text → Option Duration) (s next : Settings) (key : Key)
    (value : Text) (l : Limits)
    → key ≢ worker_max_lifetime
    → set_key k durations s (key_name key) value l ≡ ok next
    → set_key k durations next (key_name key) (get_value key next).0 l ≡ ok next
unfolding set_key
set_key-get_value k durations s next key value l n h =
    let (key', found, v, fine) = set_key-steps k durations s next (key_name key) value l h in
    let same : key' ≡ key = cc (found, find_key_name key) in
    let v' = subst (λ x. set_value durations x s value l ≡ ok next) same v in
    ground (arith, find_key_name key, set_value_again durations key s next value l n v', fine)
