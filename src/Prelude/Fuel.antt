-- ===== src/Prelude/Fuel.antt =====
-- What runs on fuel: `none` where it ran out.
use mathlib.Core.Path.{◌≡◌, refl}
use mathlib.Core.Option.{Option, none, some}

infixl 5 ◌>>=◌
abbrev pub ◌>>=◌ {ℓ κ} : {A : Type ℓ} {B : Type κ} → Option A → (A → Option B) → Option B
none >>= f = none
some a >>= f = f a

-- Inversion of a sequence that has a result.
pub >>=-eq-some {ℓ κ} :
    {A : Type ℓ} {B : Type κ} (m : Option A) (f : A → Option B) {b : B}
    → (m >>= f) ≡ some b
    → (a : A) × (m ≡ some a) × (f a ≡ some b)
>>=-eq-some none f e = cc
>>=-eq-some (some a) f e = (a, refl, e)

-- A sequence that ends in a result stops in its first part only.
pub >>=-eq-none {ℓ κ} :
    {A : Type ℓ} {B : Type κ} (m : Option A) (f : A → B)
    → (m >>= (λ a. some (f a))) ≡ none
    → m ≡ none
>>=-eq-none none f e = refl
>>=-eq-none (some a) f e = cc
