-- ===== src/Prelude/Strings.antt =====
-- Go's strings as lists of bytes, and what the program uses of package strings.
use Prim.Native.Char.{code}
use Prim.Native.String.{String}
use Prim.Native.Nat.{ℕ, ◌+◌}
use mathlib.Core.Path.{◌≡◌, refl}
use mathlib.Core.Logic.{◌↔◌}
use mathlib.Core.Bool.{Bool, true, false, ◌&&◌, ◌||◌}
use mathlib.Core.Option.{Option, none, some}
use mathlib.Core.List.{List, [], ◌∷◌, ◌++◌}
use native.Mathlib.Omega.{arith}
use proxmox_actions_runners.Prelude.Tests.{nat_beq, ltb, leb, if◌then◌else◌}
use proxmox_actions_runners.Prelude.Maps.{Eq, is_some, get_or}

abbrev pub Text : Type 0
Text = List ℕ

abbrev pub codes : String → Text
codes String.[] = []
codes (String.◌∷◌ c s) = code c ∷ codes s

unfoldable pub text_beq : Text → Text → Bool
text_beq [] [] = true
text_beq [] (d ∷ t) = false
text_beq (c ∷ s) [] = false
text_beq (c ∷ s) (d ∷ t) = nat_beq c d && text_beq s t

pub text_beq_iff : (s t : Text) → (text_beq s t ≡ true) ↔ (s ≡ t)
unfolding text_beq
text_beq_iff [] [] = ground arith
text_beq_iff [] (d ∷ t) = ground arith
text_beq_iff (c ∷ s) [] = ground arith
text_beq_iff (c ∷ s) (d ∷ t) = ground (arith, text_beq_iff s t)

instance abbrev pub text_eq : Eq Text
text_eq = record { beq = text_beq; beq_iff = text_beq_iff }

-- `strings.CutPrefix`: the text after the prefix, if it has it.
unfoldable pub cut_prefix : (prefix s : Text) → Option Text
cut_prefix [] s = some s
cut_prefix (p ∷ ps) [] = none
cut_prefix (p ∷ ps) (c ∷ s) = if nat_beq p c then cut_prefix ps s else none

-- `strings.HasPrefix`
unfoldable pub has_prefix : (s prefix : Text) → Bool
unfolding cut_prefix
has_prefix s prefix = is_some (cut_prefix prefix s)

-- `strings.TrimPrefix`
unfoldable pub trim_prefix : (s prefix : Text) → Text
unfolding cut_prefix
trim_prefix s prefix = get_or (cut_prefix prefix s) s

-- A text cut after its prefix is the prefix and the rest, and nothing else is.
pub cut_prefix_iff : (p s r : Text) → (cut_prefix p s ≡ some r) ↔ (s ≡ p ++ r)
unfolding cut_prefix
cut_prefix_iff [] s r = ground arith
cut_prefix_iff (x ∷ p) [] r = ground arith
cut_prefix_iff (x ∷ p) (c ∷ s) r = ground (arith, cut_prefix_iff p s r)

pub cut_prefix-append : (p r : Text) → cut_prefix p (p ++ r) ≡ some r
cut_prefix-append p r = (cut_prefix_iff p (p ++ r) r).1 refl

-- `strings.ToLower` on ASCII.
abbrev pub lower_byte : ℕ → ℕ
lower_byte c = if leb b'A' c && leb c b'Z' then c + 32 else c

unfoldable pub to_lower : Text → Text
to_lower [] = []
to_lower (c ∷ s) = lower_byte c ∷ to_lower s

-- The white space that `strings.TrimSpace` removes, of ASCII.
abbrev pub is_space : ℕ → Bool
is_space c = nat_beq c 32 || (leb 9 c && leb c 13)

-- `s == ""`
abbrev pub is_empty : Text → Bool
is_empty [] = true
is_empty (c ∷ s) = false

abbrev pub cons_head : ℕ → List Text → List Text
cons_head c [] = (c ∷ []) ∷ []
cons_head c (t ∷ ts) = (c ∷ t) ∷ ts

-- `strings.Split` at a one-byte separator.
unfoldable pub split : ℕ → Text → List Text
split sep [] = [] ∷ []
split sep (c ∷ s) = let rest = split sep s in if nat_beq c sep then [] ∷ rest else cons_head c rest

-- `a < b` on strings, byte by byte.
unfoldable pub text_less : Text → Text → Bool
text_less s [] = false
text_less [] (d ∷ t) = true
text_less (c ∷ s) (d ∷ t) = if nat_beq c d then text_less s t else ltb c d

unfoldable pub trim_left : Text → Text
trim_left [] = []
trim_left (c ∷ s) = if is_space c then trim_left s else c ∷ s

unfoldable pub trim_right : Text → Text
trim_right [] = []
trim_right (c ∷ s) = let r = trim_right s in if is_empty r && is_space c then [] else c ∷ r

-- `strings.TrimSpace` on ASCII.
unfoldable pub trim_space : Text → Text
unfolding trim_left trim_right
trim_space s = trim_right (trim_left s)

-- A text with no white space is not changed.
abbrev pub NoSpace : Text → Type 0
NoSpace [] = Unit {0}
NoSpace (c ∷ s) = (is_space c ≡ false) × NoSpace s

trim_right-NoSpace : (s : Text) → NoSpace s → trim_right s ≡ s
unfolding trim_right
trim_right-NoSpace [] h = refl
trim_right-NoSpace (c ∷ s) h = rw (trim_right-NoSpace s h.1) (ground arith)

trim_left-NoSpace : (s : Text) → NoSpace s → trim_left s ≡ s
unfolding trim_left
trim_left-NoSpace [] h = refl
trim_left-NoSpace (c ∷ s) h = rw h.0

trim_space_lem : (s : Text) → trim_space s ≡ trim_right (trim_left s)
unfolding trim_space
trim_space_lem s = refl

pub trim_space-NoSpace : (s : Text) → NoSpace s → trim_space s ≡ s
trim_space-NoSpace s h = rw (trim_space_lem, trim_left-NoSpace s h) (trim_right-NoSpace s h)
