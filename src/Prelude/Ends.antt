-- ===== src/Prelude/Ends.antt =====
-- A result that is neither "out of fuel" nor undefined behaviour: the loops behind it have ended.
use mathlib.Core.Path.{◌≡◌, refl}
use mathlib.Core.Bool.{Bool, true, false}
use mpshell_ext.Prelude.Result.{
  Result, ok, err, Error, assertion_failed, runtime_error, exception, out_of_range, out_of_fuel,
  undefined, ◌>>=◌, assert, require,
}

abbrev pub error_ends : Error → Bool
error_ends assertion_failed = true
error_ends runtime_error = true
error_ends exception = true
error_ends out_of_range = true
error_ends out_of_fuel = false
error_ends undefined = false

abbrev pub Ends {ℓ} : {A : Type ℓ} → Result A → Type 0
Ends (ok a) = true ≡ true
Ends (err e) = error_ends e ≡ true

pub Ends->>= {ℓ κ} :
    {A : Type ℓ} {B : Type κ} (m : Result A) (f : A → Result B)
    → Ends m
    → ((a : A) → m ≡ ok a → Ends (f a))
    → Ends (m >>= f)
Ends->>= (ok a) f h k = k a refl
Ends->>= (err e) f h k = h

pub Ends-assert : (b : Bool) → Ends (assert b)
Ends-assert true = refl
Ends-assert false = refl

pub Ends-require : (b : Bool) (e : Error) → error_ends e ≡ true → Ends (require b e)
Ends-require true e h = refl
Ends-require false e h = h

-- The call ends, and if it returns, then `P` is true of its value.
abbrev pub Meets {ℓ} : {A : Type ℓ} (call : Result A) (P : A → Type 0) → Type 0
Meets (ok a) P = P a
Meets (err e) P = error_ends e ≡ true

pub Meets->>= {ℓ κ} :
    {A : Type ℓ} {B : Type κ} (P : A → Type 0) (Q : B → Type 0) (m : Result A) (f : A → Result B)
    → Meets m P
    → ((a : A) → P a → Meets (f a) Q)
    → Meets (m >>= f) Q
Meets->>= P Q (ok a) f h k = k a h
Meets->>= P Q (err e) f h k = h

abbrev pub Always {ℓ} : {A : Type ℓ} → A → Type 0
Always a = true ≡ true

-- What ends meets what is always true.
pub Meets-Ends {ℓ} : {A : Type ℓ} (m : Result A) → Ends m → Meets m Always
Meets-Ends (ok a) h = refl
Meets-Ends (err e) h = h

pub Ends-Meets {ℓ} : {A : Type ℓ} (P : A → Type 0) (m : Result A) → Meets m P → Ends m
Ends-Meets P (ok a) h = refl
Ends-Meets P (err e) h = h

pub Meets-assert : (b : Bool) → Meets (assert b) (λ u. b ≡ true)
Meets-assert true = refl
Meets-assert false = refl

-- If the call returns, then `P` is true of its value.
abbrev pub Gives {ℓ} : {A : Type ℓ} (call : Result A) (P : A → Type 0) → Type 0
Gives (ok a) P = P a
Gives (err e) P = Unit

pub Gives->>= {ℓ κ} :
    {A : Type ℓ} {B : Type κ} (P : A → Type 0) (Q : B → Type 0) (m : Result A) (f : A → Result B)
    → Gives m P
    → ((a : A) → m ≡ ok a → P a → Gives (f a) Q)
    → Gives (m >>= f) Q
Gives->>= P Q (ok a) f h k = k a refl h
Gives->>= P Q (err e) f h k = tt

pub Gives-any {ℓ} : {A : Type ℓ} (m : Result A) → Gives m Always
Gives-any (ok a) = refl
Gives-any (err e) = tt

pub Meets-of_Gives {ℓ} :
    {A : Type ℓ} (P : A → Type 0) (m : Result A) → Ends m → Gives m P → Meets m P
Meets-of_Gives P (ok a) e g = g
Meets-of_Gives P (err x) e g = e

pub Gives-imp {ℓ} :
    {A : Type ℓ} (P Q : A → Type 0) (m : Result A) → ((a : A) → P a → Q a) → Gives m P → Gives m Q
Gives-imp P Q (ok a) f g = f a g
Gives-imp P Q (err x) f g = tt

pub Meets-imp {ℓ} :
    {A : Type ℓ} (P Q : A → Type 0) (m : Result A) → ((a : A) → P a → Q a) → Meets m P → Meets m Q
Meets-imp P Q (ok a) f h = f a h
Meets-imp P Q (err x) f h = h
