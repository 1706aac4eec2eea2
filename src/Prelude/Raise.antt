-- ===== src/Prelude/Raise.antt =====
-- Code that may raise: an error or a value, with the error type of each component.
use mathlib.Core.Path.{◌≡◌, refl, subst}
use mathlib.Core.Logic.{◌⊎◌, inl, inr}
use mathlib.Core.Bool.{Bool, true, false}
use mathlib.Core.Option.{Option, none, some}
use native.Mathlib.Omega.{arith}

pub data Result {ℓ} (E A : Type ℓ) : Type ℓ where
  ok : A → Result E A
  err : E → Result E A

infixl 5 ◌>>=◌ ◌>>◌
abbrev pub ◌>>=◌ {ℓ} : {E A B : Type ℓ} → Result E A → (A → Result E B) → Result E B
err e >>= next = err e
ok a >>= next = next a

abbrev pub ◌>>◌ {ℓ} : {E A B : Type ℓ} → Result E A → Result E B → Result E B
m >> k = m >>= λ _. k

-- `if test: raise e`
abbrev pub raise_if : {E : Type 0} → Bool → E → Result E (Unit {0})
raise_if true e = err e
raise_if false e = ok tt

-- `if o is None: raise e`
abbrev pub required : {E A : Type 0} → E → Option A → Result E A
required e none = err e
required e (some a) = ok a

module _ {E A : Type 0} where
  -- Inversion of a successful bind.
  pub >>=-eq-ok :
      {B : Type 0} (r : Result E A) (next : A → Result E B) {y : B}
      → (r >>= next) ≡ ok y
      → (x : A) × (r ≡ ok x) × (next x ≡ ok y)
  >>=-eq-ok (err e) next h = cc
  >>=-eq-ok (ok x) next h = (x, refl, h)

  -- Inversion of a guard that was passed.
  pub raise_if-eq-ok :
      (t : Bool) (e : E) (k : Result E A) {a : A}
      → (raise_if t e >>= λ _. k) ≡ ok a
      → (t ≡ false) × (k ≡ ok a)
  raise_if-eq-ok true e k h = cc
  raise_if-eq-ok false e k h = (refl, h)

  pub required-eq-ok : (e : E) (o : Option A) {a : A} → required e o ≡ ok a → o ≡ some a
  required-eq-ok e none h = cc
  required-eq-ok e (some x) h = ground arith

  pub ok_injective : (a b : A) → ◌≡◌ {A = Result E A} (ok a) (ok b) → a ≡ b
  ok_injective a b h = cc

  -- A property of what an action returned, moved along the equation that says what it returned.
  pub along_ok : (P : A → Type 0) {a b : A} → ◌≡◌ {A = Result E A} (ok a) (ok b) → P a → P b
  along_ok P {a} {b} h p = subst P (ok_injective a b h) p

  pub Result-cases : (r : Result E A) → ((a : A) × (r ≡ ok a)) ⊎ ((e : E) × (r ≡ err e))
  Result-cases (ok a) = inl (a, refl)
  Result-cases (err e) = inr (e, refl)
