-- ===== src/Prelude/Partial.antt =====
-- Chains of calls that may have no result.
use mathlib.Core.Path.{◌≡◌, ap}
use mathlib.Core.Option.{Option, none, some}

infixl 5 ◌>>=◌
abbrev pub ◌>>=◌ {ℓ κ} : {A : Type ℓ} {B : Type κ} → Option A → (A → Option B) → Option B
none >>= f = none
some a >>= f = f a

-- What is done with a result, where the result is known after a function `g`.
pub >>=-through {ℓ κ μ} :
    {A : Type ℓ} {B : Type κ} {C : Type μ} (m : Option A) (g : A → B) (f : B → C) {b : B}
    → (m >>= λ a. some (g a)) ≡ some b
    → (m >>= λ a. some (f (g a))) ≡ some (f b)
>>=-through none g f e = cc
>>=-through (some a) g f e = cc

-- A function of the result of two calls, one after the other.
pub >>=->>= {ℓ κ μ} :
    {A : Type ℓ} {B : Type κ} {C : Type μ} (m : Option A) (f : A → Option B) (g : B → C) {b : B}
    → (m >>= f) ≡ some b
    → (m >>= λ a. f a >>= λ x. some (g x)) ≡ some (g b)
>>=->>= none f g e = cc
>>=->>= (some a) f g e = ap (λ m. m >>= λ x. some (g x)) e
