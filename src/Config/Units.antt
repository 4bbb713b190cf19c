-- ===== src/Config/Units.antt =====
-- internal/config/units.go: memory sizes.
pub mod RoundTrip
use proxmox_actions_runners.Prelude.{
  ℕ, ◌+◌, ◌*◌, ◌%◌, ◌/◌, ◌^◌, ◌-◌, ℤ, pos, negsuc, ltb_ℤ, ◌==◌, text_eq, Bool, true, false, ◌||◌,
  ◌&&◌, not, List, [], ◌∷◌, ◌++◌, Text, Option, none, some, codes, is_empty, if◌then◌else◌, nat_beq,
  leb, ltb,
}
use proxmox_actions_runners.Prelude.Strings.{trim_space, to_lower}
use proxmox_actions_runners.Prelude.Number.{is_digit, itoa, parse_int}
use proxmox_actions_runners.Prelude.Results.{Result, ok, err}

pub data SizeError : Type 0 where
  needs_number_and_unit too_large use_binary_unit unknown_unit : SizeError

-- The digits in front of a text, and the rest.
unfoldable pub take_digits : Text → Text × Text
take_digits [] = ([], [])
take_digits (c ∷ s) =
    let (ds, rest) = take_digits s in if is_digit c then (c ∷ ds, rest) else ([], c ∷ s)

-- What a unit stands for, in MiB.
abbrev pub unit_size : Text → Result SizeError ℕ
unit_size unit =
    if unit == codes "gib"
    then ok 1024
    else if unit == codes "mib"
    then ok 1
    else if unit == codes "gb"
        || (unit == codes "g"
            || (unit == codes "mb"
                || (unit == codes "m"
                    || (unit == codes "tb" || (unit == codes "t" || unit == codes "tib")))))
    then err use_binary_unit
    else err unknown_unit

-- `n` is not negative, since it has no sign.
abbrev pub scaled : ℕ → Result SizeError ℕ → Result SizeError ℤ
scaled n (err e) = err e
scaled n (ok per_unit) =
    if ltb ((2 ^ 31 - 1) / per_unit) n then err too_large else ok (pos (n * per_unit))

abbrev pub sized : Option ℤ → Text → Result SizeError ℤ
sized none unit = err too_large
sized (some (pos n)) unit = scaled n (unit_size (to_lower (trim_space unit)))
sized (some (negsuc n)) unit = err too_large

-- `ParseSize`
unfoldable pub parse_size : Text → Result SizeError ℤ
parse_size s =
    let (ds, rest) = take_digits (trim_space s) in
    if is_empty ds || is_empty rest then err needs_number_and_unit else sized (parse_int ds) rest

abbrev pub format_mib_nat : ℕ → Text
format_mib_nat n =
    if not (nat_beq n 0) && nat_beq (n % 1024) 0
    then itoa (pos (n / 1024)) ++ codes "GiB"
    else itoa (pos n) ++ codes "MiB"

-- `FormatMiB`
unfoldable pub format_mib : ℤ → Text
format_mib (pos n) = format_mib_nat n
format_mib (negsuc n) =
    if nat_beq ((n + 1) % 1024) 0
    then b'-' ∷ itoa (pos ((n + 1) / 1024)) ++ codes "GiB"
    else itoa (negsuc n) ++ codes "MiB"
