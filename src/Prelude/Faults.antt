-- ===== src/Prelude/Faults.antt =====
-- What a C routine that reads a buffer does: it returns a value, it returns its error code, or it
-- reads outside the buffer. The last is a case of its own, so that its absence can be proved.
use Prim.Native.Nat.{ℕ, ◌+◌}
use mathlib.Core.Path.{◌≡◌, refl}
use mathlib.Core.Bool.{Bool, true, false}
use mathlib.Core.Option.{none, some}
use mathlib.Core.List.{List}
use mathlib.Core.Logic.{◌≢◌, ◌⊎◌, inl, inr}
use ledger_app_qrl_v.Prelude.Tests.{leb, if◌then◌else◌}
use ledger_app_qrl_v.Prelude.Lists.{length, get_elem?, take, drop}

pub data Outcome {ℓ} (A : Type ℓ) : Type ℓ where
  ok : A → Outcome A
  reject : Outcome A
  fault : Outcome A

infixl 5 ◌>>=◌
abbrev pub ◌>>=◌ {ℓ κ} : {A : Type ℓ} {C : Type κ} → Outcome A → (A → Outcome C) → Outcome C
fault >>= next = fault
reject >>= next = reject
ok value >>= next = next value

infixl 5 ◌>>◌
abbrev pub ◌>>◌ {ℓ} : {C : Type ℓ} → Outcome (Unit {0}) → Outcome C → Outcome C
first >> second = first >>= λ _. second

-- `if (b) return -1;`
abbrev pub reject_if : Bool → Outcome (Unit {0})
reject_if true = reject
reject_if false = ok tt

-- `xs[i]`
abbrev pub byte_at : List ℕ → ℕ → Outcome ℕ
byte_at xs i = elim (get_elem? xs i) [ none ↦ fault | some b ↦ ok b ]

-- The `n` bytes from `xs + i` on.
abbrev pub bytes_at : List ℕ → ℕ → ℕ → Outcome (List ℕ)
bytes_at xs i n = if leb (i + n) (length xs) then ok (take n (drop i xs)) else fault

pub >>=-eq-ok {ℓ κ} :
    {A : Type ℓ} {C : Type κ} (first : Outcome A) (next : A → Outcome C) {c : C}
    → (first >>= next) ≡ ok c
    → (value : A) × (first ≡ ok value) × (next value ≡ ok c)
>>=-eq-ok fault next e = cc
>>=-eq-ok reject next e = cc
>>=-eq-ok (ok value) next e = (value, refl, e)

-- A sequence is free of faults when its first part is, and its second part is on what that gives.
pub >>=-ne-fault {ℓ κ} :
    {A : Type ℓ} {B : Type κ} (m : Outcome A) (f : A → Outcome B)
    → m ≢ fault
    → ((a : A) → m ≡ ok a → f a ≢ fault)
    → (m >>= f) ≢ fault
>>=-ne-fault (ok a) f h k = k a refl
>>=-ne-fault reject f h k = λ e. cc
>>=-ne-fault fault f h k = λ e. h refl

pub Outcome-cases {ℓ} :
    {A : Type ℓ} (o : Outcome A) → (o ≡ fault) ⊎ ((o ≡ reject) ⊎ ((a : A) × (o ≡ ok a)))
Outcome-cases (ok a) = inr (inr (a, refl))
Outcome-cases reject = inr (inl refl)
Outcome-cases fault = inl refl
