-- ===== src/Prelude/TextSets.antt =====
-- Package slices on lists of strings: sorting, and removing neighbours that are the same.
pub mod Same
use mathlib.Core.Path.{◌≡◌, ◌∙◌, refl, sym, ap}
use mathlib.Core.Logic.{◌↔◌, ◌≢◌, ◌⊎◌, inl, inr}
use mathlib.Core.Bool.{Bool, true, false, ◌&&◌, ◌||◌}
use mathlib.Core.List.{List, [], ◌∷◌}
use native.Mathlib.Omega.{arith}
use proxmox_actions_runners.Prelude.Tests.{if◌then◌else◌, Bool-cases}
use proxmox_actions_runners.Prelude.Maps.{◌==◌, contains, ==-refl}
use proxmox_actions_runners.Prelude.Strings.{Text, text_eq, text_beq, text_beq_iff, text_less}
use proxmox_actions_runners.Prelude.Lists.{All}

unfoldable pub insert_text : Text → List Text → List Text
insert_text t [] = t ∷ []
insert_text t (x ∷ xs) = if text_less x t then x ∷ insert_text t xs else t ∷ x ∷ xs

-- `slices.Sort`
unfoldable pub sort_texts : List Text → List Text
unfolding insert_text
sort_texts [] = []
sort_texts (x ∷ xs) = insert_text x (sort_texts xs)

-- `slices.Compact`
unfoldable pub compact : List Text → List Text
compact [] = []
compact (x ∷ []) = x ∷ []
compact (x ∷ y ∷ ys) = let rest = compact (y ∷ ys) in if x == y then rest else x ∷ rest

-- `slices.Equal`
unfoldable pub equal_texts : List Text → List Text → Bool
equal_texts [] [] = true
equal_texts [] (y ∷ ys) = false
equal_texts (x ∷ xs) [] = false
equal_texts (x ∷ xs) (y ∷ ys) = x == y && equal_texts xs ys

-- Every text of the first list is in the second.
unfoldable pub covers : List Text → List Text → Bool
covers [] ys = true
covers (x ∷ xs) ys = contains ys x && covers xs ys

pub text_less_irrefl : (t : Text) → text_less t t ≡ false
unfolding text_less
text_less_irrefl [] = refl
text_less_irrefl (c ∷ t) = ground (arith, text_less_irrefl t)

pub text_less_trans :
    (a b c : Text) → text_less a b ≡ true → text_less b c ≡ true → text_less a c ≡ true
unfolding text_less
text_less_trans a [] c h k = cc
text_less_trans a (y ∷ b) [] h k = cc
text_less_trans [] (y ∷ b) (z ∷ c) h k = refl
text_less_trans (x ∷ a) (y ∷ b) (z ∷ c) h k = ground (arith, text_less_trans a b c)

pub text_less_total : (a b : Text) → text_less a b ≡ false → text_less b a ≡ false → a ≡ b
unfolding text_less
text_less_total [] [] h k = refl
text_less_total [] (y ∷ b) h k = cc
text_less_total (x ∷ a) [] h k = cc
text_less_total (x ∷ a) (y ∷ b) h k = ground (arith, text_less_total a b)

-- Each text comes strictly before those that follow it.
abbrev pub Increasing : List Text → Type 0
Increasing [] = Unit
Increasing (x ∷ xs) = All (λ y. text_less x y ≡ true) xs × Increasing xs

abbrev NotBefore : Text → List Text → Type 0
NotBefore x ys = All (λ y. text_less y x ≡ false) ys

abbrev Ascending : List Text → Type 0
Ascending [] = Unit
Ascending (x ∷ xs) = NotBefore x xs × Ascending xs

contains-insert_text :
    (t x : Text) (xs : List Text) → contains (insert_text x xs) t ≡ (x == t || contains xs t)
unfolding insert_text contains
contains-insert_text t x [] = ground arith
contains-insert_text t x (y ∷ xs) = ground (arith, contains-insert_text t x xs)

pub contains-sort_texts : (t : Text) (xs : List Text) → contains (sort_texts xs) t ≡ contains xs t
unfolding sort_texts contains
contains-sort_texts t [] = refl
contains-sort_texts t (x ∷ xs) =
    contains-insert_text t x (sort_texts xs) ∙ ground (arith, contains-sort_texts t xs)

NotBefore-insert_text :
    (x t : Text) (xs : List Text)
    → text_less t x ≡ false
    → NotBefore x xs
    → NotBefore x (insert_text t xs)
unfolding insert_text
NotBefore-insert_text x t [] h k = (h, tt)
NotBefore-insert_text x t (y ∷ xs) h k = elim (Bool-cases (text_less y t)) [
  | inl e ↦ rw e (k.0, NotBefore-insert_text x t xs h k.1)
  | inr e ↦ rw e (h, k)
]

NotBefore-trans :
    (t y : Text) (xs : List Text) → text_less y t ≡ false → NotBefore y xs → NotBefore t xs
NotBefore-trans t y [] h k = tt
NotBefore-trans t y (x ∷ xs) h (k, ks) = (
  ground (arith, text_less_trans x t y, text_less_total t y, text_less_total y t),
  NotBefore-trans t y xs h ks,
)

insert_text-Ascending : (t : Text) (xs : List Text) → Ascending xs → Ascending (insert_text t xs)
unfolding insert_text
insert_text-Ascending t [] h = (tt, tt)
insert_text-Ascending t (y ∷ xs) h = elim (Bool-cases (text_less y t)) [
  | inl e ↦ rw e (
    NotBefore-insert_text y t xs (ground (arith, text_less_trans t y t, text_less_irrefl t)) h.0,
    insert_text-Ascending t xs h.1,
  )
  | inr e ↦ rw e ((e, NotBefore-trans t y xs e h.0), h)
]

pub sort_texts-Ascending : (xs : List Text) → Ascending (sort_texts xs)
unfolding sort_texts
sort_texts-Ascending [] = tt
sort_texts-Ascending (x ∷ xs) = insert_text-Ascending x (sort_texts xs) (sort_texts-Ascending xs)

pub contains-compact : (t : Text) (xs : List Text) → contains (compact xs) t ≡ contains xs t
unfolding compact contains
contains-compact t [] = refl
contains-compact t (x ∷ []) = refl
contains-compact t (x ∷ y ∷ ys) = ground (arith, contains-compact t (y ∷ ys), text_beq_iff x y)

All-compact : (P : Text → Type 0) (xs : List Text) → All P xs → All P (compact xs)
unfolding compact
All-compact P [] h = tt
All-compact P (x ∷ []) h = h
All-compact P (x ∷ y ∷ ys) h = elim (Bool-cases (x == y)) [
  | inl e ↦ rw e (All-compact P (y ∷ ys) h.1)
  | inr e ↦ rw e (h.0, All-compact P (y ∷ ys) h.1)
]

Before-All :
    (x y : Text) (ys : List Text)
    → text_less x y ≡ true
    → NotBefore y ys
    → All (λ z. text_less x z ≡ true) ys
Before-All x y [] h k = tt
Before-All x y (z ∷ ys) h (k, ks) =
    (ground (arith, text_less_trans x y z, text_less_total y z), Before-All x y ys h ks)

pub compact-Increasing : (xs : List Text) → Ascending xs → Increasing (compact xs)
unfolding compact
compact-Increasing [] h = tt
compact-Increasing (x ∷ []) h = (tt, tt)
compact-Increasing (x ∷ y ∷ ys) ((n, ns), (m, r)) = elim (Bool-cases (x == y)) [
  | inl e ↦ rw e (compact-Increasing (y ∷ ys) (m, r))
  | inr e ↦
      let less : text_less x y ≡ true = ground (arith, text_less_total x y, text_beq_iff x y) in
      rw e (
        All-compact (λ z. text_less x z ≡ true) (y ∷ ys) (less, Before-All x y ys less m),
        compact-Increasing (y ∷ ys) (m, r),
      )
]
