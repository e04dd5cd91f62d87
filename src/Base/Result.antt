-- ===== src/Base/Result.antt =====
-- Errors as values: `(v, err)` of the source, and the sequencing of fallible steps.
use go_kubegrpc.Base.{◌≡◌, refl, ◌⊎◌, inl, inr}

pub data Result {ℓ κ} (E : Type ℓ) (A : Type κ) : Type (ℓ ⊔ κ) where
  ok : A → Result E A
  err : E → Result E A

infixl 5 ◌>>=◌
abbrev pub ◌>>=◌ {ℓ κ ι} :
    {E : Type ℓ} {A : Type κ} {B : Type ι} → Result E A → (A → Result E B) → Result E B
ok a >>= f = f a
err e >>= f = err e

-- An error of the callee is replaced by one of the caller.
abbrev pub or_else {ℓ κ ι} : {E : Type ℓ} {F : Type κ} {A : Type ι} → Result E A → F → Result F A
or_else (ok a) e = ok a
or_else (err _) e = err e

-- To split on a computed result and keep the equation.
pub Result-cases {ℓ κ} :
    {E : Type ℓ} {A : Type κ} (r : Result E A) → ((a : A) × (r ≡ ok a)) ⊎ ((e : E) × (r ≡ err e))
Result-cases (ok a) = inl (a, refl)
Result-cases (err e) = inr (e, refl)
