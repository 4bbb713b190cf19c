-- ===== src/Prelude/TextSets/Same.antt =====
-- Lists of strings as sets: what is left after sorting and removing repetitions.
use mathlib.Core.Path.{◌≡◌, ◌∙◌, refl, sym, ap, subst}
use mathlib.Core.Logic.{inl, inr}
use mathlib.Core.Bool.{true, false, ◌&&◌}
use mathlib.Core.List.{List, [], ◌∷◌}
use native.Mathlib.Omega.{arith}
use proxmox_actions_runners.Prelude.Tests.{Bool-cases, &&-true}
use proxmox_actions_runners.Prelude.Maps.{◌==◌, contains}
use proxmox_actions_runners.Prelude.Strings.{Text, text_eq, text_beq_iff, text_less}
use proxmox_actions_runners.Prelude.Lists.{All}
use proxmox_actions_runners.Prelude.TextSets.{
  sort_texts, compact, equal_texts, covers, Increasing, text_less_irrefl, text_less_trans,
  contains-sort_texts, contains-compact, sort_texts-Ascending, compact-Increasing,
}

unfoldable pub text_set : List Text → List Text
text_set xs = compact (sort_texts xs)

contains-text_set : (t : Text) (xs : List Text) → contains (text_set xs) t ≡ contains xs t
unfolding text_set
contains-text_set t xs = contains-compact t (sort_texts xs) ∙ contains-sort_texts t xs

text_set-Increasing : (xs : List Text) → Increasing (text_set xs)
unfolding text_set
text_set-Increasing xs = compact-Increasing (sort_texts xs) (sort_texts-Ascending xs)

pub equal_texts_refl : (xs : List Text) → equal_texts xs xs ≡ true
unfolding equal_texts
equal_texts_refl [] = refl
equal_texts_refl (x ∷ xs) = ground (arith, text_beq_iff x x, equal_texts_refl xs)

equal_texts_eq : (xs ys : List Text) → equal_texts xs ys ≡ true → xs ≡ ys
unfolding equal_texts
equal_texts_eq [] [] h = refl
equal_texts_eq [] (y ∷ ys) h = cc
equal_texts_eq (x ∷ xs) [] h = cc
equal_texts_eq (x ∷ xs) (y ∷ ys) h = ground (arith, text_beq_iff x y, equal_texts_eq xs ys)

-- A text that comes after all of a list is not in it.
not_below : (x : Text) (ys : List Text) → All (λ y. text_less x y ≡ true) ys → contains ys x ≡ false
unfolding contains
not_below x [] h = refl
not_below x (y ∷ ys) (h, k) = ground (arith, not_below x ys k, text_beq_iff y x, text_less_irrefl x)

before_in :
    (x z : Text) (ys : List Text)
    → All (λ y. text_less x y ≡ true) ys
    → contains ys z ≡ true
    → text_less x z ≡ true
unfolding contains
before_in x z [] h k = cc
before_in x z (y ∷ ys) (h, hs) k = ground (arith, before_in x z ys hs, text_beq_iff y z)

abbrev SameTexts : List Text → List Text → Type 0
SameTexts xs ys = (t : Text) → contains xs t ≡ contains ys t

head_in : (x : Text) (xs : List Text) → contains (x ∷ xs) x ≡ true
unfolding contains
head_in x xs = ground (arith, text_beq_iff x x)

tail_in :
    (x t : Text) (xs : List Text)
    → contains (x ∷ xs) t ≡ true
    → (x == t) ≡ false
    → contains xs t ≡ true
unfolding contains
tail_in x t xs h k = ground (arith, text_beq_iff x t)

in_tail : (x t : Text) (xs : List Text) → contains xs t ≡ true → contains (x ∷ xs) t ≡ true
unfolding contains
in_tail x t xs h = ground arith

heads_agree :
    (x : Text) (xs : List Text) (y : Text) (ys : List Text)
    → Increasing (x ∷ xs)
    → Increasing (y ∷ ys)
    → SameTexts (x ∷ xs) (y ∷ ys)
    → x ≡ y
heads_agree x xs y ys (hx, sx) (hy, sy) same = elim (Bool-cases (x == y)) [
  | inl e ↦ (text_beq_iff x y).0 e
  | inr e ↦
      let other : (y == x) ≡ false = ground (arith, text_beq_iff x y, text_beq_iff y x) in
      let below = before_in x y xs hx (tail_in x y xs (same y ∙ head_in y ys) e) in
      let above = before_in y x ys hy (tail_in y x ys (sym (same x) ∙ head_in x xs) other) in
      cc (text_less_trans x y x below above, text_less_irrefl x)
]

tails_agree :
    (x : Text) (xs ys : List Text)
    → Increasing (x ∷ xs)
    → Increasing (x ∷ ys)
    → SameTexts (x ∷ xs) (x ∷ ys)
    → SameTexts xs ys
unfolding contains
tails_agree x xs ys (hx, sx) (hy, sy) same t =
    ground (
      arith,
      same t,
      text_beq_iff x t,
      before_in x t xs hx,
      before_in x t ys hy,
      text_less_irrefl x,
    )

Increasing-unique : (xs ys : List Text) → Increasing xs → Increasing ys → SameTexts xs ys → xs ≡ ys
unfolding contains
Increasing-unique [] [] h k same = refl
Increasing-unique [] (y ∷ ys) h k same = ground (arith, same y, head_in y ys)
Increasing-unique (x ∷ xs) [] h k same = ground (arith, same x, head_in x xs)
Increasing-unique (x ∷ xs) (y ∷ ys) h k same =
    let e : x ≡ y = heads_agree x xs y ys h k same in
    let h2 : Increasing (y ∷ xs) = subst (λ z. Increasing (z ∷ xs)) e h in
    let same2 : SameTexts (y ∷ xs) (y ∷ ys) = subst (λ z. SameTexts (z ∷ xs) (y ∷ ys)) e same in
    cc (e, Increasing-unique xs ys h2.1 k.1 (tails_agree y xs ys h2 k same2))

pub covers_at :
    (xs ys : List Text) (t : Text)
    → covers xs ys ≡ true
    → contains xs t ≡ true
    → contains ys t ≡ true
unfolding covers contains
covers_at [] ys t h k = cc
covers_at (x ∷ xs) ys t h k = ground (arith, covers_at xs ys t, text_beq_iff x t)

covers_more : (xs ys : List Text) (y : Text) → covers xs ys ≡ true → covers xs (y ∷ ys) ≡ true
unfolding covers contains
covers_more [] ys y h = refl
covers_more (x ∷ xs) ys y h = ground (arith, covers_more xs ys y)

covers_by :
    (xs ys : List Text)
    → ((t : Text) → contains xs t ≡ true → contains ys t ≡ true)
    → covers xs ys ≡ true
unfolding covers
covers_by [] ys h = refl
covers_by (x ∷ xs) ys h =
    ground (arith, h x (head_in x xs), covers_by xs ys (λ t k. h t (in_tail x t xs k)))

covers-SameTexts : (xs ys : List Text) → covers xs ys ≡ true → covers ys xs ≡ true → SameTexts xs ys
covers-SameTexts xs ys h k t = ground (arith, covers_at xs ys t h, covers_at ys xs t k)

-- Comparing the sets is checking each list for the other's texts.
pub equal_text_set :
    (xs ys : List Text) → equal_texts (text_set xs) (text_set ys) ≡ (covers xs ys && covers ys xs)
equal_text_set xs ys = elim (Bool-cases (covers xs ys && covers ys xs)) [
  | inl e ↦
      let both = (&&-true (covers xs ys) (covers ys xs)).0 e in
      let same : text_set xs ≡ text_set ys =
        Increasing-unique (text_set xs) (text_set ys) (text_set-Increasing xs)
          (text_set-Increasing ys)
          (λ t.
            contains-text_set t xs
            ∙ covers-SameTexts xs ys both.0 both.1 t
            ∙ sym (contains-text_set t ys)) in
      rw (e, same) (equal_texts_refl (text_set ys))
  | inr e ↦ elim (Bool-cases (equal_texts (text_set xs) (text_set ys))) [
    | inl f ↦
        let same = equal_texts_eq (text_set xs) (text_set ys) f in
        let agree : SameTexts xs ys = λ t.
          sym (contains-text_set t xs) ∙ ap (λ zs. contains zs t) same ∙ contains-text_set t ys in
        let there = covers_by xs ys (λ t k. sym (agree t) ∙ k) in
        let back = covers_by ys xs (λ t k. agree t ∙ k) in ground (arith, there, back, e)
    | inr f ↦ f ∙ sym e
  ]
]
