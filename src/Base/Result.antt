-- ===== src/Base/Result.antt =====
-- A Python call that returns or raises. A transaction that raises is rolled back, so an error
-- carries no state.
use mathlib.Core.Path.{◌≡◌, refl}
use mathlib.Core.Logic.{◌⊎◌, inl, inr}
use mathlib.Core.Bool.{Bool, true, false}

pub data Result {ℓ} (E : Type ℓ) (A : Type ℓ) : Type ℓ where
  ok : A → Result E A
  err : E → Result E A

abbrev pub is_ok {ℓ} : {E A : Type ℓ} → Result E A → Bool
is_ok (ok a) = true
is_ok (err e) = false

infixl 5 ◌>>=◌ ◌>>◌
abbrev pub ◌>>=◌ {ℓ} : {E A B : Type ℓ} → Result E A → (A → Result E B) → Result E B
ok a >>= f = f a
err e >>= f = err e

abbrev pub ◌>>◌ : {E B : Type 0} → Result E (Unit {0}) → Result E B → Result E B
m >> k = m >>= λ _. k

-- `if not test: raise e`
abbrev pub require : {E : Type 0} → Bool → E → Result E (Unit {0})
require true e = ok tt
require false e = err e

pub Result-cases {ℓ} :
    {E A : Type ℓ} (m : Result E A) → ((a : A) × (m ≡ ok a)) ⊎ ((e : E) × (m ≡ err e))
Result-cases (ok a) = inl (a, refl)
Result-cases (err e) = inr (e, refl)
