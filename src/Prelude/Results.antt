-- ===== src/Prelude/Results.antt =====
-- A Go result that is either a value or an error.
use mathlib.Core.Path.{◌≡◌, refl}
use mathlib.Core.Logic.{◌⊎◌, inl, inr}

pub data Result {ℓ} (E : Type 0) (A : Type ℓ) : Type ℓ where
  ok : A → Result E A
  err : E → Result E A

infixl 5 ◌>>=◌
abbrev pub ◌>>=◌ {ℓ κ} :
    {E : Type 0} {A : Type ℓ} {B : Type κ} → Result E A → (A → Result E B) → Result E B
ok value >>= next = next value
err failure >>= next = err failure

-- What ran before a successful end succeeded, and so did what followed.
pub >>=-eq-ok {ℓ κ} :
    {E : Type 0} {A : Type ℓ} {B : Type κ} (first : Result E A) (next : A → Result E B) {b : B}
    → (first >>= next) ≡ ok b
    → (x : A) × (first ≡ ok x) × (next x ≡ ok b)
>>=-eq-ok (ok x) next done = (x, refl, done)
>>=-eq-ok (err failure) next done = cc

pub Result-cases :
    {A B : Type 0} (r : Result A B) → ((a : A) × (r ≡ err a)) ⊎ ((b : B) × (r ≡ ok b))
Result-cases (err a) = inl (a, refl)
Result-cases (ok b) = inr (b, refl)
