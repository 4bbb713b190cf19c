-- ===== src/Config/Units/RoundTrip.antt =====
-- internal/config/units.go: a size that is printed is read back.
use proxmox_actions_runners.Prelude.{
  ℕ, ◌%◌, ◌/◌, ◌^◌, ◌<◌, ℤ, pos, negsuc, ◌≡◌, refl, ap, ◌∙◌, ◌⊎◌, inl, inr, ◌==◌, text_eq, text_beq,
  ◌≤ℤ◌, ◌<ℤ◌, false, ◌||◌, ◌&&◌, not, [], ◌∷◌, ◌++◌, Text, Option, none, some, codes, is_empty,
  nat_beq, arith, Bool-cases,
}
use proxmox_actions_runners.Prelude.Strings.{trim_space, to_lower, NoSpace, trim_space-NoSpace}
use proxmox_actions_runners.Prelude.Number.{is_digit, itoa, parse_int}
use proxmox_actions_runners.Prelude.Number.RoundTrip.{
  AllDigits, format_nat-AllDigits, format_int_pos, parse_int-format_int,
}
use proxmox_actions_runners.Prelude.Results.{ok}
use proxmox_actions_runners.Config.Units.{
  take_digits, unit_size, scaled, sized, parse_size, format_mib,
}

take_digits-append :
    (ds : Text) (c : ℕ) (r : Text)
    → AllDigits ds
    → is_digit c ≡ false
    → take_digits (ds ++ c ∷ r) ≡ (ds, c ∷ r)
unfolding take_digits
take_digits-append [] c r h n = rw n
take_digits-append (d ∷ ds) c r h n = rw (h.0, take_digits-append ds c r h.1 n)

pub AllDigits-NoSpace : (ds r : Text) → AllDigits ds → NoSpace r → NoSpace (ds ++ r)
AllDigits-NoSpace [] r h n = n
AllDigits-NoSpace (d ∷ ds) r h n = (ground arith, AllDigits-NoSpace ds r h.1 n)

pub format_int-digits : (n : ℕ) → AllDigits (itoa (pos n))
format_int-digits n = rw (format_int_pos 10 n) (format_nat-AllDigits n)

nonempty-digits : (ds : Text) {z : ℤ} → parse_int ds ≡ some z → is_empty ds ≡ false
nonempty-digits [] e = unfold parse_int in ground arith
nonempty-digits (d ∷ ds) e = refl

-- A number in front of a unit with no white space in it is read as the number and the unit.
parse_size-number :
    (n : ℕ) (c : ℕ) (r : Text)
    → n < 2 ^ 63
    → is_digit c ≡ false
    → NoSpace (c ∷ r)
    → parse_size (itoa (pos n) ++ c ∷ r) ≡ sized (some (pos n)) (c ∷ r)
unfolding parse_size
parse_size-number n c r h d s =
    let back = parse_int-format_int (pos n) (h, omega arith) in
    rw (
      trim_space-NoSpace (itoa (pos n) ++ c ∷ r)
          (AllDigits-NoSpace (itoa (pos n)) (c ∷ r) (format_int-digits n) s),
      take_digits-append (itoa (pos n)) c r (format_int-digits n) d,
      nonempty-digits (itoa (pos n)) back,
      back,
    )

sized-gib : (q : ℕ) → sized (some (pos q)) (codes "GiB") ≡ scaled q (ok 1024)
unfolding trim_space to_lower text_beq
sized-gib q = refl

sized-mib : (q : ℕ) → sized (some (pos q)) (codes "MiB") ≡ scaled q (ok 1)
unfolding trim_space to_lower text_beq
sized-mib q = refl

format_mib_cases :
    (n : ℕ)
    → ((n % 1024 ≡ 0) × (format_mib (pos n) ≡ itoa (pos (n / 1024)) ++ codes "GiB"))
      ⊎ (format_mib (pos n) ≡ itoa (pos n) ++ codes "MiB")
unfolding format_mib
format_mib_cases n = elim (Bool-cases (not (nat_beq n 0) && nat_beq (n % 1024) 0)) [
  | inl e ↦ inl (ground arith, rw e)
  | inr e ↦ inr (rw e)
]

-- `ParseSize` reads back every size that `FormatMiB` prints, up to the limit of 2^31 - 1 MiB.
pub parse_size-format_mib : (n : ℕ) → n < 2 ^ 31 → parse_size (format_mib (pos n)) ≡ ok (pos n)
parse_size-format_mib n h = elim (format_mib_cases n) [
  | inl (m, e) ↦
      ap parse_size e
      ∙ parse_size-number (n / 1024) b'G' (codes "iB") (omega arith) refl (refl, (refl, (refl, tt)))
      ∙ sized-gib (n / 1024)
      ∙ ground arith
  | inr e ↦
      ap parse_size e
      ∙ parse_size-number n b'M' (codes "iB") (omega arith) refl (refl, (refl, (refl, tt)))
      ∙ sized-mib n
      ∙ ground arith
]

scaled_bounds :
    (n : ℕ) (u : Text) (z : ℤ) → scaled n (unit_size u) ≡ ok z → (pos 0 ≤ℤ z) × (z <ℤ pos (2 ^ 31))
scaled_bounds n u z e = elim (Bool-cases (u == codes "gib")) [
  | inl g ↦ gib (rw g at e)
  | inr g ↦ elim (Bool-cases (u == codes "mib")) [
    | inl m ↦ mib (rw (g, m) at e)
    | inr m ↦ absurd (ground arith)
  ]
]
  where
    gib : scaled n (ok 1024) ≡ ok z → (pos 0 ≤ℤ z) × (z <ℤ pos (2 ^ 31))
    gib q = ground arith

    mib : scaled n (ok 1) ≡ ok z → (pos 0 ≤ℤ z) × (z <ℤ pos (2 ^ 31))
    mib q = ground arith

sized_bounds :
    (o : Option ℤ) (u : Text) (z : ℤ) → sized o u ≡ ok z → (pos 0 ≤ℤ z) × (z <ℤ pos (2 ^ 31))
sized_bounds none u z e = absurd (ground arith)
sized_bounds (some (pos n)) u z e = scaled_bounds n (to_lower (trim_space u)) z e
sized_bounds (some (negsuc n)) u z e = absurd (ground arith)

-- A size that `ParseSize` accepts is neither negative nor above 2^31 - 1 MiB, so the product with
-- its unit does not overflow.
pub parse_size_bounds :
    (s : Text) (z : ℤ) → parse_size s ≡ ok z → (pos 0 ≤ℤ z) × (z <ℤ pos (2 ^ 31))
unfolding parse_size
parse_size_bounds s z e =
    let (ds, rest) = take_digits (trim_space s) in
    elim (Bool-cases (is_empty ds || is_empty rest)) [
      | inl t ↦ absurd (ground arith)
      | inr t ↦ sized_bounds (parse_int ds) rest z (rw t at e)
    ]
