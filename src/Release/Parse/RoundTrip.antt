-- ===== src/Release/Parse/RoundTrip.antt =====
-- internal/release/version.go: a version that is printed is read back.
use mathlib.Core.List.{append_assoc, append-nil}
use proxmox_actions_runners.Prelude.{
  ℕ, zero, suc, ◌/◌, ◌%◌, ◌^◌, ◌<◌, ◌≡◌, refl, ap, ◌∙◌, pos, nat_beq, true, false, not, [], ◌∷◌,
  ◌++◌, Text, some, is_empty, codes, cut_prefix, trim_prefix, if◌then◌else◌, arith, Bool-cases, inl,
  inr,
}
use proxmox_actions_runners.Prelude.Number.{
  is_digit, digit_char, digits, format_nat, itoa, parse_int,
}
use proxmox_actions_runners.Prelude.Number.RoundTrip.{
  AllDigits, format_nat-AllDigits, format_nat_lem, format_int_pos, parse_int-format_int,
}
use proxmox_actions_runners.Prelude.Results.{ok}
use proxmox_actions_runners.Release.{Version, print, tag}
use proxmox_actions_runners.Release.Parse.{
  leading_digits, after_digits, is_numeral, numeral, dotted, all_pre, suffix, last_parts,
  find_parts, find_version, number, parse_version,
}

-- No zero is in front.
abbrev NonzeroFirst : Text → Type 0
NonzeroFirst [] = ⊥
NonzeroFirst (c ∷ s) = nat_beq c b'0' ≡ false

digit_char-nonzero : (d : ℕ) → 0 < d → d < 10 → nat_beq (digit_char d) b'0' ≡ false
unfolding digit_char
digit_char-nonzero d h k = ground arith

digits-zero : (f m : ℕ) (out : Text) → nat_beq m 0 ≡ true → digits 10 f m out ≡ out
unfolding digits
digits-zero zero m out h = refl
digits-zero (suc f) m out h = rw h refl

digits-nonzero : (f n : ℕ) (out : Text) → 0 < n → n < f → NonzeroFirst (digits 10 f n out)
unfolding digits
digits-nonzero zero n out h k = absurd (omega arith)
digits-nonzero (suc f) n out h k =
    let some_left : nat_beq n 0 ≡ false = ground arith in
    elim (Bool-cases (nat_beq (n / 10) 0)) [
      | inl y ↦
          rw (some_left, digits-zero f (n / 10) (digit_char (n % 10) ∷ out) y)
            (digit_char-nonzero (n % 10) (ground arith) (omega arith))
      | inr e ↦
          rw some_left
            (digits-nonzero f (n / 10) (digit_char (n % 10) ∷ out) (ground arith) (omega arith))
    ]

numeral-nonzero : (s : Text) → NonzeroFirst s → is_numeral s ≡ true
numeral-nonzero [] h = absurd h
numeral-nonzero (c ∷ []) h = refl
numeral-nonzero (c ∷ d ∷ s) h = rw h refl

format_nat-is_numeral : (n : ℕ) → is_numeral (format_nat 10 n) ≡ true
format_nat-is_numeral n = elim (Bool-cases (nat_beq n 0)) [
  | inl e ↦ rw (format_nat_lem, e) refl
  | inr e ↦
      rw (format_nat_lem, e)
        (numeral-nonzero _ (digits-nonzero (suc n) n [] (ground arith) (omega arith)))
]

-- What follows a number: nothing, or no digit.
abbrev Apart : Text → Type 0
Apart [] = Unit
Apart (c ∷ s) = is_digit c ≡ false

leading_digits-append : (d r : Text) → AllDigits d → Apart r → leading_digits (d ++ r) ≡ d
unfolding leading_digits
leading_digits-append [] [] h k = refl
leading_digits-append [] (c ∷ r) h k = rw k refl
leading_digits-append (c ∷ d) r (h, hs) k = rw (h, leading_digits-append d r hs k) refl

after_digits-append : (d r : Text) → AllDigits d → Apart r → after_digits (d ++ r) ≡ r
unfolding after_digits
after_digits-append [] [] h k = refl
after_digits-append [] (c ∷ r) h k = rw k refl
after_digits-append (c ∷ d) r (h, hs) k = rw (h, after_digits-append d r hs k) refl

numeral-printed :
    (n : ℕ) (r : Text) → Apart r → numeral (format_nat 10 n ++ r) ≡ some (format_nat 10 n, r)
unfolding numeral
numeral-printed n r k =
    let a = format_nat-AllDigits n in
    rw
      (
        leading_digits-append (format_nat 10 n) r a k,
        format_nat-is_numeral n,
        after_digits-append (format_nat 10 n) r a k,
      )
      refl

dotted-printed :
    (n : ℕ) (r : Text) → dotted (format_nat 10 n ++ b'.' ∷ r) ≡ some (format_nat 10 n, r)
unfolding dotted cut_prefix
dotted-printed n r = rw (dotted, numeral-printed n (b'.' ∷ r) refl) refl

suffix_of : Text → Text
suffix_of pre = if not (is_empty pre) then b'-' ∷ pre else []

suffix-suffix_of : (pre : Text) → all_pre pre ≡ true → suffix (suffix_of pre) ≡ some pre
unfolding suffix suffix_of cut_prefix
suffix-suffix_of [] h = refl
suffix-suffix_of (c ∷ pre) h = rw h refl

Apart-suffix_of : (pre : Text) → Apart (suffix_of pre)
unfolding suffix_of
Apart-suffix_of [] = tt
Apart-suffix_of (c ∷ pre) = refl

last_parts-printed :
    (a b pre : Text) (n : ℕ)
    → all_pre pre ≡ true
    → last_parts a b (format_nat 10 n ++ suffix_of pre)
      ≡ some (record { major = a; minor = b; patch = format_nat 10 n; pre = pre })
unfolding last_parts
last_parts-printed a b pre n h =
    rw (last_parts, numeral-printed n (suffix_of pre) (Apart-suffix_of pre), suffix-suffix_of pre h)
      refl

-- What is printed, with its parts in order.
joined : (a b c pre : Text) → Text
joined a b c pre = a ++ b'.' ∷ (b ++ b'.' ∷ (c ++ suffix_of pre))

print_joined :
    (a b c pre : Text)
    → (let t = a ++ codes "." ++ b ++ codes "." ++ c in
        if not (is_empty pre) then t ++ codes "-" ++ pre else t)
      ≡ joined a b c pre
unfolding joined suffix_of
print_joined a b c [] = simp (append_assoc, append-nil) refl
print_joined a b c (x ∷ pre) = simp append_assoc refl

trim-digits : (d r : Text) → AllDigits d → trim_prefix (d ++ b'.' ∷ r) (codes "v") ≡ d ++ b'.' ∷ r
unfolding trim_prefix cut_prefix
trim-digits [] r h = refl
trim-digits (c ∷ d) r (h, hs) = ground arith

find_parts-joined :
    (a b c : ℕ) (pre : Text)
    → all_pre pre ≡ true
    → find_parts (joined (format_nat 10 a) (format_nat 10 b) (format_nat 10 c) pre)
      ≡ some (record {
        major = format_nat 10 a;
        minor = format_nat 10 b;
        patch = format_nat 10 c;
        pre = pre;
      })
unfolding find_parts joined
find_parts-joined a b c pre h =
    rw (find_parts, dotted-printed a _, dotted-printed b _, last_parts-printed _ _ pre c h) refl

trim-joined :
    (a b c : ℕ) (pre : Text)
    → let text = joined (format_nat 10 a) (format_nat 10 b) (format_nat 10 c) pre in
      trim_prefix text (codes "v") ≡ text
unfolding joined
trim-joined a b c pre = trim-digits (format_nat 10 a) _ (format_nat-AllDigits a)

number-printed : (n : ℕ) → n < 2 ^ 63 → number (format_nat 10 n) ≡ ok (pos n)
unfolding number
number-printed n h =
    let read : parse_int (format_nat 10 n) ≡ some (pos n) =
      rw (← format_int_pos 10 n) (parse_int-format_int (pos n) (ground arith)) in
    rw (number, read) refl

abbrev pub version_of : (a b c : ℕ) → Text → Version
version_of a b c pre = record { major = pos a; minor = pos b; patch = pos c; pre = pre }

parsed :
    (a b c : ℕ) (pre text : Text)
    → a < 2 ^ 63
    → b < 2 ^ 63
    → c < 2 ^ 63
    → find_version text
      ≡ some (record {
        major = format_nat 10 a;
        minor = format_nat 10 b;
        patch = format_nat 10 c;
        pre = pre;
      })
    → parse_version text ≡ ok (version_of a b c pre)
unfolding parse_version
parsed a b c pre text k l m e =
    rw (parse_version, e, number-printed a k, number-printed b l, number-printed c m) refl

-- ParseVersion reads back each version that String prints, and also with the v that Tag puts in front,
-- if its numbers fit in an int and its pre-release suffix has lowercase letters, digits and dots alone.
pub parse_version-print :
    (a b c : ℕ) (pre : Text)
    → a < 2 ^ 63
    → b < 2 ^ 63
    → c < 2 ^ 63
    → all_pre pre ≡ true
    → (parse_version (print (version_of a b c pre)) ≡ ok (version_of a b c pre))
      × (parse_version (tag (version_of a b c pre)) ≡ ok (version_of a b c pre))
unfolding print find_version trim_prefix cut_prefix
parse_version-print a b c pre k l m h =
    let text = joined (format_nat 10 a) (format_nat 10 b) (format_nat 10 c) pre in
    let printed : print (version_of a b c pre) ≡ text =
      print_joined (itoa (pos a)) (itoa (pos b)) (itoa (pos c)) pre
      ∙ same_joined (format_int_pos 10 a) (format_int_pos 10 b) (format_int_pos 10 c) in
    let found = find_parts-joined a b c pre h in
    (
      rw printed (parsed a b c pre text k l m (ap find_parts (trim-joined a b c pre) ∙ found)),
      rw printed (parsed a b c pre (b'v' ∷ text) k l m found),
    )
  where
    same_joined :
        {a' b' c' d e f : Text} → a' ≡ d → b' ≡ e → c' ≡ f → joined a' b' c' pre ≡ joined d e f pre
    same_joined p q r = rw (p, q, r) refl
