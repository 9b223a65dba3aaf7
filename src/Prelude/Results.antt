-- ===== src/Prelude/Results.antt =====
-- Rust's `Result`, with `?` as its bind.
use mathlib.Core.Path.{◌≡◌, refl}
use mathlib.Core.Logic.{◌⊎◌, inl, inr}
use mathlib.Core.Bool.{Bool, true, false}

pub data Result {ℓ κ} (E : Type ℓ) (A : Type κ) : Type (ℓ ⊔ κ) where
  ok : A → Result E A
  err : E → Result E A

abbrev pub is_ok {ℓ κ} : {E : Type ℓ} {A : Type κ} → Result E A → Bool
is_ok (ok a) = true
is_ok (err e) = false

abbrev pub is_ok_and {ℓ κ} : {E : Type ℓ} {A : Type κ} → (A → Bool) → Result E A → Bool
is_ok_and p (ok a) = p a
is_ok_and p (err e) = false

module _ {ℓ κ μ} {E : Type ℓ} {A : Type κ} {B : Type μ} where
  infixl 5 ◌>>=◌
  abbrev pub ◌>>=◌ : Result E A → (A → Result E B) → Result E B
  ok a >>= f = f a
  err e >>= f = err e

  -- The parts of a chain that succeeds.
  pub >>=-eq-ok :
      (r : Result E A) (f : A → Result E B) {b : B}
      → r >>= f ≡ ok b
      → (a : A) × (r ≡ ok a) × (f a ≡ ok b)
  >>=-eq-ok (ok a) f e = (a, refl, e)
  >>=-eq-ok (err x) f e = cc

pub Result-cases {ℓ κ} :
    {E : Type ℓ} {A : Type κ} (r : Result E A) → ((a : A) × (r ≡ ok a)) ⊎ ((e : E) × (r ≡ err e))
Result-cases (ok a) = inl (a, refl)
Result-cases (err e) = inr (e, refl)
