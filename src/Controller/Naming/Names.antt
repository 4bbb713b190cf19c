-- ===== src/Controller/Naming/Names.antt =====
-- internal/controller/naming.go: a VMID that is used again never gets an old runner name.
use proxmox_actions_runners.Prelude.{
  ℕ, zero, suc, ◌+◌, ◌-◌, ◌*◌, ◌/◌, ◌%◌, ◌<◌, pos, ◌≡◌, refl, ap, sym, ◌∙◌, inl, inr, nat_beq,
  Bool-cases, [], ◌∷◌, ◌++◌, Text, if◌then◌else◌, arith,
}
use proxmox_actions_runners.Prelude.Number.{digits, digit_char, format_nat, is_digit}
use proxmox_actions_runners.Prelude.Number.RoundTrip.{
  digits-append, format_nat_lem, format_int_pos, digit_char-is_digit, digit_char_value, read36,
  read36-format_nat,
}
use proxmox_actions_runners.Prelude.Time.{Time, unix}
use proxmox_actions_runners.Controller.Naming.{worker_name}

-- The number in front of a text, and the text after its digits.
scan : ℕ → Text → ℕ × Text
scan acc [] = (acc, [])
scan acc (c ∷ s) = if is_digit c then scan (acc * 10 + (c - b'0')) s else (acc, c ∷ s)

scan-digits : (f n : ℕ) (out : Text) → n < f → scan 0 (digits 10 f n out) ≡ scan n out
unfolding scan digits
scan-digits zero n out h = elim h [ ]
scan-digits (suc f) n out h = elim (Bool-cases (nat_beq n 0)) [
  | inl e ↦ rw e (ground arith)
  | inr e ↦ rw e (
      scan-digits f (n / 10) (digit_char (n % 10) ∷ out) (ground arith)
      ∙ ground (arith, digit_char-is_digit (n % 10), digit_char_value (n % 10)))
]

scan-format_nat : (n : ℕ) (r : Text) → scan 0 (format_nat 10 n ++ b'-' ∷ r) ≡ (n, b'-' ∷ r)
scan-format_nat n r = elim (Bool-cases (nat_beq n 0)) [
  | inl e ↦ rw (format_nat_lem, e) (unfold scan in ground arith)
  | inr e ↦
      rw (format_nat_lem, e)
        (ap (scan 0) (digits-append 10 (suc n) n [] (b'-' ∷ r))
          ∙ scan-digits (suc n) n (b'-' ∷ r) (omega arith)
          ∙ unfold scan in refl)
]

tail_of : Text → Text
tail_of [] = []
tail_of (c ∷ s) = s

-- The VMID and the creation second, read back from a name.
read_name : Text → ℕ × ℕ
unfolding tail_of
read_name (p ∷ a ∷ r ∷ dash ∷ s) = let (vmid, rest) = scan 0 s in (vmid, read36 0 (tail_of rest))
read_name _ = (0, 0)

read_name-worker_name :
    (vmid n : ℕ) (t : Time) → unix t ≡ pos n → read_name (worker_name (pos vmid) t) ≡ (vmid, n)
unfolding read_name worker_name tail_of
read_name-worker_name vmid n t e =
    rw (e, format_int_pos 10 vmid, format_int_pos 36 n, scan-format_nat vmid (format_nat 36 n))
      (ap (λ k. (vmid, k)) (read36-format_nat n))

-- Two workers have one name only if they have one VMID and were created in one second, where the
-- VMIDs are not negative and the times not before 1970.
pub worker_name-injective :
    (i j m n : ℕ) (t u : Time)
    → unix t ≡ pos m
    → unix u ≡ pos n
    → worker_name (pos i) t ≡ worker_name (pos j) u
    → (i ≡ j) × (unix t ≡ unix u)
worker_name-injective i j m n t u p q e =
    let same : ◌≡◌ {A = ℕ × ℕ} (i, m) (j, n) =
      sym (read_name-worker_name i m t p) ∙ ap read_name e ∙ read_name-worker_name j n u q in
    (ap (λ r. r.0) same, p ∙ ap (λ r. pos r.1) same ∙ sym q)
