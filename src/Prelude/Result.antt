-- ===== src/Prelude/Result.antt =====
-- Results of code that may throw, or fail an assertion. An exception carries its kind alone: its
-- text is for people. `undefined` is undefined behaviour.
use mathlib.Core.Path.{◌≡◌, refl, subst}
use mathlib.Core.Logic.{◌⊎◌, inl, inr}
use mathlib.Core.Bool.{Bool, true, false}

pub data Error : Type 0 where
  assertion_failed : Error
  runtime_error : Error
  exception : Error
  out_of_range : Error
  out_of_fuel : Error
  undefined : Error

pub data Result {ℓ} (A : Type ℓ) : Type ℓ where
  ok : A → Result A
  err : Error → Result A

infixl 5 ◌>>=◌ ◌>>◌
abbrev pub ◌>>=◌ {ℓ κ} : {A : Type ℓ} {B : Type κ} → Result A → (A → Result B) → Result B
err e >>= next = err e
ok a >>= next = next a

abbrev pub ◌>>◌ {ℓ} : {B : Type ℓ} → Result (Unit {0}) → Result B → Result B
first >> second = first >>= λ done. second

-- `assert( b )`, and `if ( not b ) throw e`.
abbrev pub assert : Bool → Result (Unit {0})
assert true = ok tt
assert false = err assertion_failed

abbrev pub require : Bool → Error → Result (Unit {0})
require false e = err e
require true e = ok tt

pub Result-cases {ℓ} :
    {A : Type ℓ} (r : Result A) → ((a : A) × (r ≡ ok a)) ⊎ ((e : Error) × (r ≡ err e))
Result-cases (ok a) = inl (a, refl)
Result-cases (err e) = inr (e, refl)

-- The call returns, and `Holds` is true of its value.
abbrev pub Returns {ℓ κ} : {A : Type ℓ} (call : Result A) (Holds : A → Type κ) → Type (ℓ ⊔ κ)
Returns {A} call Holds = (value : A) × (call ≡ ok value) × Holds value

pub Returns->>= {ℓ κ μ ν} :
    {A : Type ℓ} {B : Type κ} (P : A → Type μ) (Q : B → Type ν) (m : Result A) (f : A → Result B)
    → Returns m P
    → ((a : A) → P a → Returns (f a) Q)
    → Returns (m >>= f) Q
Returns->>= P Q (ok a) f (value, e, p) k = k a (subst P (cc) p)
Returns->>= P Q (err e) f (value, e', p) k = absurd (cc)
