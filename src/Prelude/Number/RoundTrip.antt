-- ===== src/Prelude/Number/RoundTrip.antt =====
-- What is printed is read back, in base ten by the program's own reader and in base 36 by `read36`.
use Prim.Native.Nat.{ℕ, zero, suc, ◌+◌, ◌-◌, ◌*◌, ◌/◌, ◌%◌, ◌<◌}
use mathlib.Core.Path.{◌≡◌, refl, ap, ◌∙◌}
use mathlib.Core.Logic.{inl, inr}
use mathlib.Core.Bool.{true}
use mathlib.Core.Option.{some}
use mathlib.Core.List.{[], ◌∷◌, ◌++◌}
use native.Mathlib.Omega.{arith}
use proxmox_actions_runners.Prelude.Tests.{leb, nat_beq, if◌then◌else◌, if_intro, Bool-cases}
use proxmox_actions_runners.Prelude.Int.{ℤ, pos, negsuc, Fits64}
use proxmox_actions_runners.Prelude.Strings.{Text}
use proxmox_actions_runners.Prelude.Number.{
  digit_char, digits, format_nat, format_int, is_digit, parse_digits, parse_nat, signed_pos,
  parse_int,
}

pub digit_char-is_digit : (d : ℕ) → d < 10 → is_digit (digit_char d) ≡ true
unfolding digit_char
digit_char-is_digit d h = ground arith

pub digit_char_value : (d : ℕ) → d < 10 → digit_char d - b'0' ≡ d
unfolding digit_char
digit_char_value d h = ground arith

parse_digits-digits :
    (f n : ℕ) (out : Text) → n < f → parse_digits 0 (digits 10 f n out) ≡ parse_digits n out
unfolding parse_digits digits
parse_digits-digits zero n out h = elim h [ ]
parse_digits-digits (suc f) n out h = elim (Bool-cases (nat_beq n 0)) [
  | inl e ↦ rw e (ground arith)
  | inr e ↦ rw e (
      parse_digits-digits f (n / 10) (digit_char (n % 10) ∷ out) (ground arith)
      ∙ ground (arith, digit_char-is_digit (n % 10), digit_char_value (n % 10)))
]

parse_nat-digits : (s : Text) (n : ℕ) → 0 < n → parse_digits 0 s ≡ some n → parse_nat s ≡ some n
unfolding parse_nat
parse_nat-digits [] n h e = ground arith
parse_nat-digits (c ∷ s) n h e = e

-- Zero is printed as one digit, and any other number as all of its digits.
pub format_nat_lem :
    (base n : ℕ) → format_nat base n ≡ (if nat_beq n 0 then b'0' ∷ [] else digits base (suc n) n [])
unfolding format_nat
format_nat_lem base n = refl

pub parse_nat-format_nat : (n : ℕ) → parse_nat (format_nat 10 n) ≡ some n
parse_nat-format_nat n = elim (Bool-cases (nat_beq n 0)) [
  | inl e ↦ rw (format_nat_lem, e) (unfold parse_nat in ground arith)
  | inr e ↦
      rw (format_nat_lem, e)
        (parse_nat-digits (digits 10 (suc n) n []) n (ground arith)
          (parse_digits-digits (suc n) n [] (omega arith) ∙ unfold parse_digits in refl))
]

parse_int-nat : (s : Text) (n : ℕ) → parse_nat s ≡ some n → parse_int s ≡ signed_pos (some n)
unfolding parse_int
parse_int-nat [] n e = ground arith
parse_int-nat (c ∷ s) n e = ground arith

-- `ParseInt` reads back every int64 that `FormatInt` prints in base ten.
pub parse_int-format_int : (z : ℤ) → Fits64 z → parse_int (format_int 10 z) ≡ some z
unfolding format_int
parse_int-format_int (pos n) h =
    parse_int-nat (format_nat 10 n) n (parse_nat-format_nat n) ∙ ground arith
parse_int-format_int (negsuc n) h = unfold parse_int in ground (arith, parse_nat-format_nat (suc n))

pub format_int_pos : (base n : ℕ) → format_int base (pos n) ≡ format_nat base n
unfolding format_int
format_int_pos base n = refl

-- The digits stand in front of what follows.
pub digits-append :
    (base f n : ℕ) (out r : Text) → digits base f n out ++ r ≡ digits base f n (out ++ r)
unfolding digits
digits-append base zero n out r = refl
digits-append base (suc f) n out r =
    ground (arith, digits-append base f (n / base) (digit_char (n % base) ∷ out) r)

-- A reader of base 36, for the names only.
abbrev pub value36 : ℕ → ℕ
value36 c = if leb c b'9' then c - b'0' else c - b'a' + 10

unfoldable pub read36 : ℕ → Text → ℕ
read36 acc [] = acc
read36 acc (c ∷ s) = read36 (acc * 36 + value36 c) s

value36-digit_char : (d : ℕ) → d < 36 → value36 (digit_char d) ≡ d
unfolding digit_char
value36-digit_char d h = ground arith

read36-digits : (f n : ℕ) (out : Text) → n < f → read36 0 (digits 36 f n out) ≡ read36 n out
unfolding read36 digits
read36-digits zero n out h = elim h [ ]
read36-digits (suc f) n out h = elim (Bool-cases (nat_beq n 0)) [
  | inl e ↦ rw e (ground arith)
  | inr e ↦ rw e (
      read36-digits f (n / 36) (digit_char (n % 36) ∷ out) (ground arith)
      ∙ ap (λ a. read36 a out) (omega (arith, value36-digit_char (n % 36))))
]

pub read36-format_nat : (n : ℕ) → read36 0 (format_nat 36 n) ≡ n
read36-format_nat n = elim (Bool-cases (nat_beq n 0)) [
  | inl e ↦ rw (format_nat_lem, e) (unfold read36 in ground arith)
  | inr e ↦
      rw (format_nat_lem, e) (read36-digits (suc n) n [] (omega arith) ∙ unfold read36 in refl)
]

-- A text of decimal digits.
abbrev pub AllDigits : Text → Type 0
AllDigits [] = Unit {0}
AllDigits (c ∷ s) = (is_digit c ≡ true) × AllDigits s

digits-AllDigits : (f n : ℕ) (out : Text) → AllDigits out → AllDigits (digits 10 f n out)
unfolding digits
digits-AllDigits zero n out h = h
digits-AllDigits (suc f) n out h = if_intro AllDigits (nat_beq n 0) out _ h (
    digits-AllDigits f (n / 10) (digit_char (n % 10) ∷ out)
      (digit_char-is_digit (n % 10) (omega arith), h))

pub format_nat-AllDigits : (n : ℕ) → AllDigits (format_nat 10 n)
format_nat-AllDigits n =
    rw (format_nat_lem 10 n)
      (if_intro AllDigits (nat_beq n 0) (b'0' ∷ []) _ (refl, tt) (digits-AllDigits (suc n) n [] tt))
