-- ===== src/Prelude/Bytes.antt =====
-- Bytes, and numbers as big-endian byte strings.
use Prim.Native.Nat.{ℕ, zero, suc, ◌+◌, ◌*◌, ◌/◌, ◌%◌, ◌^◌, ◌≤◌, ◌<◌}
use mathlib.Core.Path.{◌≡◌, refl, ap, ◌∙◌, sym}
use mathlib.Core.List.{List, [], ◌∷◌, ◌++◌, append_assoc, append-nil}
use native.Mathlib.Omega.{arith}
use native.Mathlib.Nat.{pow-suc, add-zero}
use ledger_app_qrl_v.Prelude.Tests.{◌==◌, if◌then◌else◌, Bool-cases, ==_iff}
use ledger_app_qrl_v.Prelude.Lists.{length, take, drop, length-append}
use mathlib.Core.Logic.{inl, inr}

abbrev pub All {ℓ κ} : {A : Type ℓ} → (A → Type κ) → List A → Type κ
All P [] = Unit
All P (x ∷ xs) = P x × All P xs

abbrev pub IsByte : ℕ → Type 0
IsByte b = b < 256

module _ {ℓ κ} {A : Type ℓ} (P : A → Type κ) where
  pub All-append : (xs ys : List A) → All P xs → All P ys → All P (xs ++ ys)
  All-append [] ys hx hy = hy
  All-append (x ∷ xs) ys hx hy = (hx.0, All-append xs ys hx.1 hy)

  pub All-drop : (n : ℕ) (xs : List A) → All P xs → All P (drop n xs)
  All-drop zero xs h = h
  All-drop (suc n) [] h = h
  All-drop (suc n) (x ∷ xs) h = All-drop n xs h.1

  pub All-take : (n : ℕ) (xs : List A) → All P xs → All P (take n xs)
  All-take zero xs h = tt
  All-take (suc n) [] h = h
  All-take (suc n) (x ∷ xs) h = (h.0, All-take n xs h.1)

-- The number that the bytes spell behind the number read so far.
unfoldable pub value_from : ℕ → List ℕ → ℕ
value_from acc [] = acc
value_from acc (b ∷ bs) = value_from (acc * 256 + b) bs

-- The number that the bytes spell.
unfoldable pub value_of : List ℕ → ℕ
unfolding value_from
value_of bs = value_from 0 bs

pub value_from-ge : (acc : ℕ) (bs : List ℕ) → acc ≤ value_from acc bs
unfolding value_from
value_from-ge acc [] = omega arith
value_from-ge acc (b ∷ bs) = omega (arith, value_from-ge (acc * 256 + b) bs)

pub value_from-append :
    (acc : ℕ) (xs ys : List ℕ) → value_from acc (xs ++ ys) ≡ value_from (value_from acc xs) ys
unfolding value_from
value_from-append acc [] ys = refl
value_from-append acc (x ∷ xs) ys = value_from-append (acc * 256 + x) xs ys

byte_scaled : (b p : ℕ) → b < 256 → b * p ≤ 255 * p
byte_scaled b p h = grind arith

pub value_from-lt :
    (acc : ℕ) (bs : List ℕ) → All IsByte bs → value_from acc bs < (acc + 1) * 256 ^ length bs
unfolding value_from
value_from-lt acc [] h = omega arith
value_from-lt acc (b ∷ bs) h =
    rw (pow-suc 256 (length bs))
      (omega (arith, byte_scaled b (256 ^ length bs) h.0, value_from-lt (acc * 256 + b) bs h.1))

pub value_of-lt : (bs : List ℕ) → All IsByte bs → value_of bs < 256 ^ length bs
unfolding value_of
value_of-lt bs h = omega (arith, value_from-lt 0 bs h)

-- The bytes of a number with no leading zero, big-endian; `fuel` of them are enough.
unfoldable pub be_bytes : (fuel n : ℕ) → List ℕ
be_bytes zero n = []
be_bytes (suc k) n =
    let rest = be_bytes k (n / 256) in if n == 0 then [] else rest ++ (n % 256 ∷ [])

pub be_bytes-zero : (k : ℕ) → be_bytes k 0 ≡ []
unfolding be_bytes
be_bytes-zero zero = refl
be_bytes-zero (suc k) = refl

pub be_bytes-pos : (k n : ℕ) → 0 < n → be_bytes (suc k) n ≡ be_bytes k (n / 256) ++ (n % 256 ∷ [])
unfolding be_bytes
be_bytes-pos k n h = ground arith

pub All-be_bytes : (k n : ℕ) → All IsByte (be_bytes k n)
unfolding be_bytes
All-be_bytes zero n = tt
All-be_bytes (suc k) n = elim (Bool-cases (n == 0)) [
  | inl e ↦ rw e tt
  | inr e ↦
      rw e (All-append IsByte (be_bytes k (n / 256)) _ (All-be_bytes k (n / 256)) (omega arith))
]

pub value_of-be_bytes : (k n : ℕ) → n < 256 ^ k → value_of (be_bytes k n) ≡ n
unfolding value_of value_from
value_of-be_bytes zero n h = unfold be_bytes in omega arith
value_of-be_bytes (suc k) zero h = rw (be_bytes-zero (suc k))
value_of-be_bytes (suc k) (suc n) h =
    rw (be_bytes-pos k (suc n) (omega arith), value_from-append 0)
      (omega (arith, value_of-be_bytes k (suc n / 256) (omega (arith, pow-suc 256 k))))

pub length-be_bytes : (k n : ℕ) → length (be_bytes k n) ≤ k
unfolding be_bytes
length-be_bytes zero n = omega arith
length-be_bytes (suc k) n = elim (Bool-cases (n == 0)) [
  | inl e ↦ rw e (omega arith)
  | inr e ↦ rw (e, length-append) (omega (arith, length-be_bytes k (n / 256)))
]

pub be_bytes_enough : (k m n : ℕ) → n < 256 ^ k → k ≤ m → be_bytes m n ≡ be_bytes k n
be_bytes_enough k m zero h p = be_bytes-zero m ∙ sym (be_bytes-zero k)
be_bytes_enough zero m (suc n) h p = absurd (omega arith)
be_bytes_enough (suc k) zero (suc n) h p = absurd (omega arith)
be_bytes_enough (suc k) (suc m) (suc n) h p =
    rw (be_bytes-pos k (suc n) (omega arith), be_bytes-pos m (suc n) (omega arith))
      (ap (λ t. t ++ (suc n % 256 ∷ []))
        (be_bytes_enough k m (suc n / 256) (omega (arith, pow-suc 256 k)) (omega arith)))

-- Bytes behind a positive number are given back as they are.
pub be_bytes-value_from :
    (k acc : ℕ) (bs : List ℕ)
    → 0 < acc
    → All IsByte bs
    → be_bytes (k + length bs) (value_from acc bs) ≡ be_bytes k acc ++ bs
unfolding value_from
be_bytes-value_from k acc [] p h = rw (add-zero, append-nil)
be_bytes-value_from k acc (b ∷ bs) p h =
    ap (λ t. be_bytes t (value_from (acc * 256 + b) bs)) (reorder k (length bs))
    ∙ be_bytes-value_from (suc k) (acc * 256 + b) bs (omega arith) h.1
    ∙ rw (be_bytes-pos k (acc * 256 + b) (omega arith), quotient acc b h.0, remainder acc b h.0)
        (append_assoc (be_bytes k acc) (b ∷ []) bs)
  where
    reorder : (k n : ℕ) → k + suc n ≡ suc k + n
    reorder k n = omega arith

    quotient : (acc b : ℕ) → b < 256 → (acc * 256 + b) / 256 ≡ acc
    quotient acc b h = omega arith

    remainder : (acc b : ℕ) → b < 256 → (acc * 256 + b) % 256 ≡ b
    remainder acc b h = omega arith

value_of-cons : (b : ℕ) (bs : List ℕ) → value_of (b ∷ bs) ≡ value_from b bs
unfolding value_of value_from
value_of-cons b bs = ap (λ t. value_from t bs) (omega arith)

be_bytes_single : (b : ℕ) → 0 < b → b < 256 → be_bytes 1 b ≡ b ∷ []
unfolding be_bytes
be_bytes_single b p h = rw (be_bytes-pos 0 b p) (ap (λ t. t ∷ []) (omega arith))

one_more : (n : ℕ) → suc n ≡ 1 + n
one_more n = omega arith

-- The bytes of a number are the only ones that spell it with no leading zero.
pub be_bytes-value_of :
    (m b : ℕ) (bs : List ℕ)
    → 0 < b
    → All IsByte (b ∷ bs)
    → length (b ∷ bs) ≤ m
    → be_bytes m (value_of (b ∷ bs)) ≡ b ∷ bs
be_bytes-value_of m b bs p h q =
    be_bytes_enough (suc (length bs)) m (value_of (b ∷ bs)) (value_of-lt (b ∷ bs) h) q
    ∙ rw (value_of-cons b bs, one_more (length bs), be_bytes-value_from 1 b bs p h.1)
        (rw (be_bytes_single b p h.0))

-- The bytes of a positive number begin with one that is not zero.
pub be_bytes_leading :
    (k n : ℕ) → 0 < n → n < 256 ^ k → (b : ℕ) × (bs : List ℕ) × (be_bytes k n ≡ b ∷ bs) × (0 < b)
be_bytes_leading k zero p h = absurd (omega arith)
be_bytes_leading zero (suc n) p h = absurd (omega arith)
be_bytes_leading (suc k) (suc n) p h = elim (Bool-cases (suc n / 256 == 0)) [
  | inl e ↦ (
    suc n % 256,
    [],
    be_bytes-pos k (suc n) p ∙ rw ((==_iff (suc n / 256) 0).0 e, be_bytes-zero k),
    ground arith,
  )
  | inr e ↦
      let (b, bs, q, r) =
        be_bytes_leading k (suc n / 256) (ground arith) (omega (arith, pow-suc 256 k)) in
      (b, bs ++ (suc n % 256 ∷ []), be_bytes-pos k (suc n) p ∙ rw q, r)
]
