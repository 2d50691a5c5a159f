-- ===== src/TxFormat/Accum.antt =====
-- The limbs of `multiply_uint8_arrays` (src/ui/tx_format.c) as a number, and what one write does to it.
use ledger_app_qrl_v.Prelude.{
  ℕ, zero, suc, ◌+◌, ◌-◌, ◌*◌, ◌%◌, ◌^◌, ◌≤◌, ◌<◌, ◌≡◌, ◌≢◌, refl, ap, ◌∙◌, arith, List, [], ◌∷◌,
  length, get_or, set, take, length-set, All, IsByte, value_from, value_of, Bool-cases, inl, inr,
  ◌==◌,
}
use ledger_app_qrl_v.TxFormat.DivMod.{value_of-cons}
use ledger_app_qrl_v.TxFormat.{add_at}

-- Every limb is at most `k`.
abbrev pub AtMost : ℕ → List ℕ → Type 0
AtMost k accum = (p : ℕ) → get_or accum p 0 ≤ k

pub get_or-set_self : (xs : List ℕ) (p v : ℕ) → p < length xs → get_or (set xs p v) p 0 ≡ v
get_or-set_self [] p v h = absurd (omega arith)
get_or-set_self (x ∷ xs) zero v h = refl
get_or-set_self (x ∷ xs) (suc p) v h = get_or-set_self xs p v (omega arith)

pub get_or-set_ne : (xs : List ℕ) (p q v : ℕ) → p ≢ q → get_or (set xs p v) q 0 ≡ get_or xs q 0
get_or-set_ne [] p q v h = refl
get_or-set_ne (x ∷ xs) zero zero v h = absurd (h refl)
get_or-set_ne (x ∷ xs) zero (suc q) v h = refl
get_or-set_ne (x ∷ xs) (suc p) zero v h = refl
get_or-set_ne (x ∷ xs) (suc p) (suc q) v h = get_or-set_ne xs p q v (λ e. h (ap suc e))

-- A write replaces one limb, at its place value.
pub value_of-set :
    (xs : List ℕ) (p v : ℕ)
    → p < length xs
    → value_of (set xs p v) + get_or xs p 0 * 256 ^ (length xs - 1 - p)
      ≡ value_of xs + v * 256 ^ (length xs - 1 - p)
value_of-set [] p v h = absurd (omega arith)
value_of-set (x ∷ xs) zero v h =
    rw (value_of-cons x xs, value_of-cons v xs, front (length xs)) (omega arith)
  where
    front : (n : ℕ) → suc n - 1 - 0 ≡ n
    front n = omega arith
value_of-set (x ∷ xs) (suc p) v h =
    rw (value_of-cons x xs, value_of-cons x (set xs p v), length-set xs p v, place (length xs) p)
      (omega (arith, value_of-set xs p v (omega arith)))
  where
    place : (n p : ℕ) → suc n - 1 - suc p ≡ n - 1 - p
    place n p = omega arith

-- What `accum[p] += x` does while nothing overflows.
pub record IsAdded (k amount : ℕ) (accum accum' : List ℕ) : Type 0 where
  pub sums : value_of accum' ≡ value_of accum + amount
  pub at_most : AtMost k accum'
  pub same_length : length accum' ≡ length accum

pub add_at_lem :
    (k : ℕ) (accum : List ℕ) (p x : ℕ)
    → p < length accum
    → AtMost k accum
    → k + x < 2 ^ 32
    → IsAdded (k + x) (x * 256 ^ (length accum - 1 - p)) accum (add_at accum p x)
unfolding add_at
add_at_lem k accum p x h bound fits = rw kept (record {
  sums = omega (arith, value_of-set accum p (get_or accum p 0 + x) h);
  at_most = limbs;
  same_length = length-set accum p (get_or accum p 0 + x);
})
  where
    kept : (get_or accum p 0 + x) % 2 ^ 32 ≡ get_or accum p 0 + x
    kept = omega (arith, bound p, fits)

    limbs : (q : ℕ) → get_or (set accum p (get_or accum p 0 + x)) q 0 ≤ k + x
    limbs q = elim (Bool-cases (p == q)) [
      | inl e ↦ ground (arith, get_or-set_self accum p (get_or accum p 0 + x) h, bound p)
      | inr n ↦
          let ne : p ≢ q = (λ e. ground arith) in
          omega (arith, get_or-set_ne accum p q (get_or accum p 0 + x) ne, bound q)
    ]

-- Adding twice.
pub IsAdded-trans :
    (k k' m n : ℕ) (xs ys zs : List ℕ)
    → IsAdded k m xs ys
    → IsAdded k' n ys zs
    → IsAdded k' (m + n) xs zs
IsAdded-trans k k' m n xs ys zs a b = record {
  sums = omega (arith, a.sums, b.sums);
  at_most = b.at_most;
  same_length = b.same_length ∙ a.same_length;
}

pub IsAdded-weaken :
    (k k' m m' : ℕ) (xs ys : List ℕ) → IsAdded k m xs ys → k ≤ k' → m ≡ m' → IsAdded k' m' xs ys
IsAdded-weaken k k' m m' xs ys a h e = record {
  sums = omega (arith, a.sums, e);
  at_most = λ p. omega (arith, a.at_most p, h);
  same_length = a.same_length;
}

-- One more byte in front of the value.
value_from-take :
    (acc : ℕ) (bs : List ℕ) (r : ℕ)
    → r < length bs
    → value_from acc (take (suc r) bs) ≡ value_from acc (take r bs) * 256 + get_or bs r 0
unfolding value_from
value_from-take acc [] r h = absurd (omega arith)
value_from-take acc (b ∷ bs) zero h = refl
value_from-take acc (b ∷ bs) (suc r) h = value_from-take (acc * 256 + b) bs r (omega arith)

pub value_of-take :
    (bs : List ℕ) (r : ℕ)
    → r < length bs
    → value_of (take (suc r) bs) ≡ value_of (take r bs) * 256 + get_or bs r 0
unfolding value_of
value_of-take bs r h = value_from-take 0 bs r h

pub byte_or_zero : (bs : List ℕ) (i : ℕ) → All IsByte bs → get_or bs i 0 < 256
byte_or_zero [] i h = omega arith
byte_or_zero (b ∷ bs) zero h = h.0
byte_or_zero (b ∷ bs) (suc i) h = byte_or_zero bs i h.1

pub byte_product : (a b : ℕ) → a < 256 → b < 256 → a * b ≤ 65025
byte_product a b h h' = grind arith
