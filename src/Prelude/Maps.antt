-- ===== src/Prelude/Maps.antt =====
-- Types whose values the program compares, and Go's maps as association lists over such a key.
use mathlib.Core.Path.{◌≡◌, refl, subst}
use mathlib.Core.Logic.{◌↔◌, inl, inr}
use mathlib.Core.Bool.{Bool, true, false}
use mathlib.Core.Option.{Option, none, some}
use mathlib.Core.List.{List, [], ◌∷◌}
use native.Mathlib.Omega.{arith}
use Prim.Native.Nat.{ℕ}
use proxmox_actions_runners.Prelude.Tests.{nat_beq, nat_beq_iff, Bool-cases, if◌then◌else◌}
use proxmox_actions_runners.Prelude.Int.{ℤ, beq_ℤ, beq_ℤ_iff}

-- Equality that the program can test.
pub record Eq {ℓ} (A : Type ℓ) : Type ℓ where
  pub beq : (x y : A) → Bool
  pub beq_iff : (x y : A) → (beq x y ≡ true) ↔ (x ≡ y)

abbrev pub is_some {ℓ} : {A : Type ℓ} → Option A → Bool
is_some none = false
is_some (some a) = true

pub is_some-value {ℓ} : {A : Type ℓ} (o : Option A) → is_some o ≡ true → (a : A) × (o ≡ some a)
is_some-value none h = cc
is_some-value (some a) h = (a, refl)

abbrev pub get_or {ℓ} : {A : Type ℓ} → Option A → A → A
get_or none d = d
get_or (some a) d = a

infix 50 ◌==◌
abbrev pub ◌==◌ {ℓ} : {K : Type ℓ} ⦃keys : Eq K⦄ → K → K → Bool
◌==◌ ⦃keys⦄ = keys.beq

instance abbrev pub int_eq : Eq ℤ
int_eq = record { beq = beq_ℤ; beq_iff = beq_ℤ_iff }

instance abbrev pub nat_eq : Eq ℕ
nat_eq = record { beq = nat_beq; beq_iff = nat_beq_iff }

module _ {ℓ} {A : Type ℓ} ⦃e : Eq A⦄ where
  pub ==-refl : (a : A) → (a == a) ≡ true
  ==-refl a = (e.beq_iff a a).1 refl

  unfoldable pub contains : List A → A → Bool
  contains [] a = false
  contains (x ∷ xs) a = if x == a then true else contains xs a

module _ {ℓ κ} {K : Type ℓ} {V : Type κ} ⦃e : Eq K⦄ where
  -- `m[k]`
  unfoldable pub lookup : K → List (K × V) → Option V
  lookup key [] = none
  lookup key ((k, v) ∷ rest) = if k == key then some v else lookup key rest

  -- `m[k] = v`
  unfoldable pub insert : K → V → List (K × V) → List (K × V)
  insert key new [] = (key, new) ∷ []
  insert key new ((k, old) ∷ rest) =
      if k == key then (key, new) ∷ rest else (k, old) ∷ insert key new rest

  -- `delete(m, k)`
  unfoldable pub delete : K → List (K × V) → List (K × V)
  delete k [] = []
  delete k ((j, w) ∷ m) = if j == k then delete k m else (j, w) ∷ delete k m

  pub lookup-insert :
      (key k : K) (new : V) (rest : List (K × V))
      → lookup k (insert key new rest) ≡ (if key == k then some new else lookup k rest)
  unfolding lookup insert
  lookup-insert key k new [] = refl
  lookup-insert key k new ((i, old) ∷ rest) =
      ground (arith, e.beq_iff key k, e.beq_iff i key, e.beq_iff i k, lookup-insert key k new rest)

  pub lookup-delete :
      (k j : K) (m : List (K × V)) → lookup j (delete k m) ≡ (if k == j then none else lookup j m)
  unfolding lookup delete
  lookup-delete k j [] = ground arith
  lookup-delete k j ((i, w) ∷ m) =
      ground (arith, e.beq_iff k j, e.beq_iff i k, e.beq_iff i j, lookup-delete k j m)

  pub lookup-insert_self : (k : K) (v : V) (m : List (K × V)) → lookup k (insert k v m) ≡ some v
  lookup-insert_self k v m = rw (lookup-insert k k v m, ==-refl k)

-- A property of every value of a map.
abbrev pub Values {ℓ κ μ} : {K : Type ℓ} {V : Type κ} → (V → Type μ) → List (K × V) → Type μ
Values P [] = Unit
Values P ((k, v) ∷ m) = P v × Values P m

module _ {ℓ κ μ} {K : Type ℓ} {V : Type κ} ⦃e : Eq K⦄ (P : V → Type μ) where
  pub insert-Values :
      (k : K) (v : V) (m : List (K × V)) → P v → Values P m → Values P (insert k v m)
  unfolding insert
  insert-Values k v [] p h = (p, tt)
  insert-Values k v ((j, w) ∷ m) p h = elim (Bool-cases (j == k)) [
    | inl y ↦ rw y (p, h.1)
    | inr n ↦ rw n (h.0, insert-Values k v m p h.1)
  ]

  pub lookup-Values : (k : K) (m : List (K × V)) {v : V} → Values P m → lookup k m ≡ some v → P v
  unfolding lookup
  lookup-Values k [] h q = cc
  lookup-Values k ((j, w) ∷ m) {v} h q = elim (Bool-cases (j == k)) [
    | inl y ↦ hit (rw y at q)
    | inr n ↦ lookup-Values k m h.1 (rw n at q)
  ]
    where
      hit : some w ≡ some v → P v
      hit r = let same : w ≡ v = cc in subst P same h.0
