-- ===== src/Config/Lifetime.antt =====
-- internal/config/units.go: how a lifetime is read and printed. `time.ParseDuration` is a parameter.
use proxmox_actions_runners.Prelude.{
  ℕ, suc, ◌/◌, ◌%◌, ◌*◌, ◌-◌, ℤ, pos, negsuc, ltb_ℤ, ltb, ◌+ℤ◌, Option, none, some, [], ◌∷◌,
  is_empty, ◌||◌, not, ◌==◌, int_eq, nat_beq, ◌&&◌, ◌++◌, Text, codes, if◌then◌else◌,
}
use proxmox_actions_runners.Prelude.Int.{wrap64}
use proxmox_actions_runners.Prelude.Strings.{to_lower, trim_space}
use proxmox_actions_runners.Prelude.Results.{Result, ok, err}
use proxmox_actions_runners.Prelude.Number.{itoa, parse_int}
use proxmox_actions_runners.Config.Units.{take_digits}
use proxmox_actions_runners.Prelude.Time.{Duration, second}

-- The negative of a number.
abbrev pub minus : ℕ → ℤ
minus n = if nat_beq n 0 then pos 0 else negsuc (n - 1)

-- Go's `/` and `%`, which round towards zero.
abbrev pub quotient : ℤ → ℕ → ℤ
quotient (pos n) k = pos (n / k)
quotient (negsuc n) k = minus (suc n / k)

abbrev pub remainder : ℤ → ℕ → ℤ
remainder (pos n) k = pos (n % k)
remainder (negsuc n) k = minus (suc n % k)

abbrev pub hour : ℕ
hour = 3600 * second

abbrev pub format_clock : ℤ → ℤ → Text
format_clock h m =
    if h == pos 0
    then itoa m ++ codes "m"
    else if m == pos 0
    then itoa h ++ codes "h"
    else itoa h ++ codes "h" ++ itoa m ++ codes "m"

unfoldable pub format_lifetime : Duration → Text
format_lifetime d =
    if ltb_ℤ (pos 0) d && remainder d (24 * hour) == pos 0
    then itoa (quotient d (24 * hour)) ++ codes "d"
    else format_clock (quotient d hour) (quotient (remainder d hour) (60 * second))

pub data LifetimeError : Type 0 where
  needs_number_and_unit is_too_long not_whole_minutes : LifetimeError

-- `strings.ReplaceAll(s, " ", "")`
unfoldable pub remove_spaces : Text → Text
remove_spaces [] = []
remove_spaces (c ∷ s) = let rest = remove_spaces s in if nat_beq c 32 then rest else c ∷ rest

-- What is left after the days, to which they are added. The sum is a Go `int64`.
abbrev pub add_rest : ℤ → Option Duration → Result LifetimeError Duration
add_rest days none = err needs_number_and_unit
add_rest days (some rest) =
    if ltb_ℤ rest (pos 0) then err needs_number_and_unit else ok (wrap64 (days +ℤ rest))

abbrev pub whole_minutes : Result LifetimeError Duration → Result LifetimeError Duration
whole_minutes (err e) = err e
whole_minutes (ok d) = if remainder d (60 * second) == pos 0 then ok d else err not_whole_minutes

abbrev pub lifetime_days : Option ℤ → Result LifetimeError ℤ
lifetime_days none = err is_too_long
lifetime_days (some (negsuc n)) = err is_too_long
lifetime_days (some (pos n)) = if ltb 1000 n then err is_too_long else ok (pos (n * (24 * hour)))

-- The days that the pattern `^(\d+)d` finds, and what follows them.
abbrev pub split_days : Text × Text → Option (Text × Text)
split_days (digits, []) = none
split_days (digits, c ∷ rest) =
    if is_empty digits || not (nat_beq c b'd') then none else some (digits, rest)

abbrev pub with_days :
    (Text → Option Duration) → Result LifetimeError ℤ → Text → Result LifetimeError Duration
with_days parse_duration (err e) rest = err e
with_days parse_duration (ok days) rest =
    if is_empty rest then ok days else add_rest days (parse_duration rest)

abbrev pub read_lifetime :
    (Text → Option Duration) → Text → Option (Text × Text) → Result LifetimeError Duration
read_lifetime parse_duration t none = with_days parse_duration (ok (pos 0)) t
read_lifetime parse_duration t (some (digits, rest)) =
    with_days parse_duration (lifetime_days (parse_int digits)) rest

-- `ParseLifetime`
unfoldable pub parse_lifetime : (Text → Option Duration) → Text → Result LifetimeError Duration
parse_lifetime parse_duration s =
    let t = remove_spaces (to_lower (trim_space s)) in
    if is_empty t
    then err needs_number_and_unit
    else whole_minutes (read_lifetime parse_duration t (split_days (take_digits t)))
