-- ===== src/Prelude/Lists.antt =====
-- Lists measured by native numbers, predicates on their elements, and sorting by a key.
use Prim.Native.Nat.{ℕ, zero, suc, ◌+◌, min}
use mathlib.Core.Path.{◌≡◌, refl, sym, subst}
use mathlib.Core.List.{List, [], ◌∷◌, ◌++◌, Memᴰ, Perm}
use mathlib.Core.List.Perm
use mathlib.Core.Logic.{inl, inr, ◌⊎◌}
use mathlib.Core.Bool.{Bool}
use native.Mathlib.Omega.{arith}
use proxmox_actions_runners.Prelude.Tests.{if◌then◌else◌, Bool-cases}
use proxmox_actions_runners.Prelude.Int.{ℤ, ltb_ℤ, ◌≤ℤ◌}

module _ {ℓ} {A : Type ℓ} where
  abbrev pub length : List A → ℕ
  length [] = 0
  length (x ∷ xs) = suc (length xs)

  abbrev pub take : ℕ → List A → List A
  take zero xs = []
  take (suc n) [] = []
  take (suc n) (x ∷ xs) = x ∷ take n xs

  abbrev pub drop : ℕ → List A → List A
  drop zero xs = xs
  drop (suc n) [] = []
  drop (suc n) (x ∷ xs) = drop n xs

  pub length-append : (xs ys : List A) → length (xs ++ ys) ≡ length xs + length ys
  length-append [] ys = omega arith
  length-append (x ∷ xs) ys = omega (arith, length-append xs ys)

  pub length-take : (n : ℕ) (xs : List A) → length (take n xs) ≡ min n (length xs)
  length-take zero xs = omega arith
  length-take (suc n) [] = omega arith
  length-take (suc n) (x ∷ xs) = omega (arith, length-take n xs)

  -- How many elements pass a test.
  abbrev pub tally : (A → Bool) → List A → ℕ
  tally f [] = 0
  tally f (x ∷ xs) = let rest = tally f xs in if f x then suc rest else rest

  pub tally-append : (f : A → Bool) (xs ys : List A) → tally f (xs ++ ys) ≡ tally f xs + tally f ys
  tally-append f [] ys = omega arith
  tally-append f (x ∷ xs) ys = ground (arith, tally-append f xs ys)

  pub Memᴰ-take : {a : A} (n : ℕ) (xs : List A) → Memᴰ a (take n xs) → Memᴰ a xs
  Memᴰ-take zero xs m = elim m [ ]
  Memᴰ-take (suc n) [] m = elim m [ ]
  Memᴰ-take (suc n) (x ∷ xs) (Memᴰ.head e) = Memᴰ.head e
  Memᴰ-take (suc n) (x ∷ xs) (Memᴰ.tail m) = Memᴰ.tail (Memᴰ-take n xs m)

  pub Memᴰ-drop : {a : A} (n : ℕ) (xs : List A) → Memᴰ a (drop n xs) → Memᴰ a xs
  Memᴰ-drop zero xs m = m
  Memᴰ-drop (suc n) [] m = elim m [ ]
  Memᴰ-drop (suc n) (x ∷ xs) m = Memᴰ.tail (Memᴰ-drop n xs m)

-- A predicate by recursion computes to tuples, which the tactics read and build.
abbrev pub All {ℓ κ} : {A : Type ℓ} → (A → Type κ) → List A → Type κ
All Holds [] = Unit
All Holds (y ∷ ys) = Holds y × All Holds ys

pub All-mem {ℓ κ} : {A : Type ℓ} (P : A → Type κ) {a : A} (xs : List A) → All P xs → Memᴰ a xs → P a
All-mem P [] h m = elim m [ ]
All-mem P (x ∷ xs) h (Memᴰ.head e) = subst P (sym e) h.0
All-mem P (x ∷ xs) h (Memᴰ.tail m) = All-mem P xs h.1 m

pub All-of_mem {ℓ κ} :
    {A : Type ℓ} (P : A → Type κ) (xs : List A) → ((a : A) → Memᴰ a xs → P a) → All P xs
All-of_mem P [] f = tt
All-of_mem P (x ∷ xs) f = (f x (Memᴰ.head refl), All-of_mem P xs (λ a m. f a (Memᴰ.tail m)))

pub All-append {ℓ κ} :
    {A : Type ℓ} (P : A → Type κ) (xs ys : List A) → All P xs → All P ys → All P (xs ++ ys)
All-append P [] ys h k = k
All-append P (x ∷ xs) ys h k = (h.0, All-append P xs ys h.1 k)

-- `sort.Slice` by a key, as an insertion sort. (Go's sort may order equal keys otherwise.)
module _ {ℓ} {A : Type ℓ} (key : A → ℤ) where
  unfoldable pub insert_sorted : A → List A → List A
  insert_sorted x [] = x ∷ []
  insert_sorted x (y ∷ ys) = if ltb_ℤ (key y) (key x) then y ∷ insert_sorted x ys else x ∷ y ∷ ys

  unfoldable pub sort_by : List A → List A
  unfolding insert_sorted
  sort_by [] = []
  sort_by (x ∷ xs) = insert_sorted x (sort_by xs)

  -- Every element's key is at most the keys after it.
  abbrev pub Sorted : List A → Type 0
  Sorted [] = Unit
  Sorted (x ∷ xs) = All (λ y. key x ≤ℤ key y) xs × Sorted xs

  All-insert_sorted :
      (P : A → Type 0) (x : A) (xs : List A) → P x → All P xs → All P (insert_sorted x xs)
  unfolding insert_sorted
  All-insert_sorted P x [] p h = (p, tt)
  All-insert_sorted P x (y ∷ ys) p h = elim (Bool-cases (ltb_ℤ (key y) (key x))) [
    | inl e ↦ rw e (h.0, All-insert_sorted P x ys p h.1)
    | inr e ↦ rw e (p, h)
  ]

  All-le : (a b : ℤ) (xs : List A) → a ≤ℤ b → All (λ y. b ≤ℤ key y) xs → All (λ y. a ≤ℤ key y) xs
  All-le a b [] l h = tt
  All-le a b (x ∷ xs) l h = (omega arith, All-le a b xs l h.1)

  insert_sorted-Sorted : (x : A) (xs : List A) → Sorted xs → Sorted (insert_sorted x xs)
  unfolding insert_sorted
  insert_sorted-Sorted x [] h = (tt, tt)
  insert_sorted-Sorted x (y ∷ ys) h = elim (Bool-cases (ltb_ℤ (key y) (key x))) [
    | inl e ↦ rw e (
      All-insert_sorted (λ z. key y ≤ℤ key z) x ys (ground arith) h.0,
      insert_sorted-Sorted x ys h.1,
    )
    | inr e ↦
        let l : key x ≤ℤ key y = ground arith in rw e ((l, All-le (key x) (key y) ys l h.0), h)
  ]

  pub sort_by-Sorted : (xs : List A) → Sorted (sort_by xs)
  unfolding sort_by
  sort_by-Sorted [] = tt
  sort_by-Sorted (x ∷ xs) = insert_sorted-Sorted x (sort_by xs) (sort_by-Sorted xs)

  insert_sorted-perm : (x : A) (xs : List A) → Perm (insert_sorted x xs) (x ∷ xs)
  unfolding insert_sorted
  insert_sorted-perm x [] = Perm.refl (x ∷ [])
  insert_sorted-perm x (y ∷ ys) = elim (Bool-cases (ltb_ℤ (key y) (key x))) [
    | inl e ↦ rw e (Perm.trans (Perm.cons y (insert_sorted-perm x ys)) (Perm.swap x y ys))
    | inr e ↦ rw e (Perm.refl (x ∷ y ∷ ys))
  ]

  pub sort_by-perm : (xs : List A) → Perm (sort_by xs) xs
  unfolding sort_by
  sort_by-perm [] = Perm.refl []
  sort_by-perm (x ∷ xs) =
      Perm.trans (insert_sorted-perm x (sort_by xs)) (Perm.cons x (sort_by-perm xs))

  Memᴰ-insert_sorted :
      {a : A} (x : A) (xs : List A) → Memᴰ a (insert_sorted x xs) → (a ≡ x) ⊎ Memᴰ a xs
  unfolding insert_sorted
  Memᴰ-insert_sorted x [] (Memᴰ.head e) = inl e
  Memᴰ-insert_sorted x [] (Memᴰ.tail m) = elim m [ ]
  Memᴰ-insert_sorted {a} x (y ∷ ys) m = elim (Bool-cases (ltb_ℤ (key y) (key x))) [
    | inl e ↦ under (rw e at m) (Memᴰ-insert_sorted x ys)
    | inr e ↦ here (rw e at m)
  ]
    where
      under :
          Memᴰ a (y ∷ insert_sorted x ys)
          → (Memᴰ a (insert_sorted x ys) → (a ≡ x) ⊎ Memᴰ a ys)
          → (a ≡ x) ⊎ Memᴰ a (y ∷ ys)
      under (Memᴰ.head e) f = inr (Memᴰ.head e)
      under (Memᴰ.tail m) f = elim (f m) [ inl e ↦ inl e | inr m' ↦ inr (Memᴰ.tail m') ]

      here : Memᴰ a (x ∷ y ∷ ys) → (a ≡ x) ⊎ Memᴰ a (y ∷ ys)
      here (Memᴰ.head e) = inl e
      here (Memᴰ.tail m) = inr m

  pub Memᴰ-sort_by : {a : A} (xs : List A) → Memᴰ a (sort_by xs) → Memᴰ a xs
  unfolding sort_by
  Memᴰ-sort_by [] m = elim m [ ]
  Memᴰ-sort_by (x ∷ xs) m = elim (Memᴰ-insert_sorted x (sort_by xs) m) [
    | inl e ↦ Memᴰ.head e
    | inr m' ↦ Memᴰ.tail (Memᴰ-sort_by xs m')
  ]

  -- What is taken from a sorted list has keys at most those of what is left.
  pub Sorted-take-drop :
      {a b : A} (n : ℕ) (xs : List A)
      → Sorted xs
      → Memᴰ a (take n xs)
      → Memᴰ b (drop n xs)
      → key a ≤ℤ key b
  Sorted-take-drop zero xs h p q = elim p [ ]
  Sorted-take-drop (suc n) [] h p q = elim p [ ]
  Sorted-take-drop {b} (suc n) (x ∷ xs) h (Memᴰ.head e) q =
      rw e (All-mem (λ y. key x ≤ℤ key y) xs h.0 (Memᴰ-drop n xs q))
  Sorted-take-drop (suc n) (x ∷ xs) h (Memᴰ.tail p) q = Sorted-take-drop n xs h.1 p q
