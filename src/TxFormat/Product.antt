-- ===== src/TxFormat/Product.antt =====
-- `multiply_uint8_arrays` of src/ui/tx_format.c gives the product, as its shortest byte string.
use native.Mathlib.Nat.{pow-suc}
use ledger_app_qrl_v.Prelude.{
  ℕ, zero, suc, ◌+◌, ◌-◌, ◌*◌, ◌%◌, ◌^◌, ◌≤◌, ◌<◌, ◌≡◌, ◌⊎◌, refl, sym, ap, ◌∙◌, arith, false, none,
  some, List, [], ◌∷◌, map, length, length-replicate, get_or, take, take_all, replicate, ltb, ◌==◌,
  ==_iff, if◌then◌else◌, Bool-cases, inl, inr, All, IsByte, value_from, value_of, value_of-lt,
}
use ledger_app_qrl_v.TxFormat.DivMod.{value_of-cons}
use ledger_app_qrl_v.TxFormat.Accum.{IsAdded}
use ledger_app_qrl_v.TxFormat.Multiply.{rows_lem, pow_256_add}
use ledger_app_qrl_v.TxFormat.Carries.{IsCarried, carry_lem}
use ledger_app_qrl_v.TxFormat.{
  multiply_rows, carry, drop_leading, multiply_uint8_arrays, max_integer_bytes,
}

-- The shortest byte string of a number: bytes, the first of them no zero, but for a single byte.
pub record IsShortest (bytes : List ℕ) (n : ℕ) : Type 0 where
  pub spells : value_of bytes ≡ n
  pub are_bytes : All IsByte bytes
  pub shortest : (length bytes ≡ 1) ⊎ (0 < get_or bytes 0 0)

zero_front : (ts : List ℕ) → value_of (0 ∷ ts) ≡ value_of ts
zero_front ts = value_of-cons 0 ts ∙ omega arith

drop_leading_lem :
    (xs : List ℕ) → 0 < length xs → All IsByte xs → IsShortest (drop_leading xs) (value_of xs)
unfolding drop_leading
drop_leading_lem [] h hb = absurd (omega arith)
drop_leading_lem (x ∷ []) h hb = record { spells = refl; are_bytes = hb; shortest = inl refl }
drop_leading_lem (x ∷ y ∷ xs) h hb = one_more (drop_leading_lem (y ∷ xs) (omega arith) hb.1)
  where
    one_more :
        IsShortest (drop_leading (y ∷ xs)) (value_of (y ∷ xs))
        → IsShortest (if x == 0 then drop_leading (y ∷ xs) else x ∷ y ∷ xs) (value_of (x ∷ y ∷ xs))
    one_more s = elim (Bool-cases (x == 0)) [
      | inl e ↦ rw (e, (==_iff x 0).0 e, zero_front (y ∷ xs)) s
      | inr n ↦ rw n (record { spells = refl; are_bytes = hb; shortest = inr (ground arith) })
    ]

limbs_are_bytes : (xs : List ℕ) → ((p : ℕ) → get_or xs p 0 < 256) → All IsByte xs
limbs_are_bytes [] h = tt
limbs_are_bytes (x ∷ xs) h = (h 0, limbs_are_bytes xs (λ p. h (suc p)))

bytes_stay : (xs : List ℕ) → All IsByte xs → map (λ x. x % 256) xs ≡ xs
bytes_stay [] h = refl
bytes_stay (x ∷ xs) h = rw (kept x h.0, bytes_stay xs h.1) refl
  where
    kept : (x : ℕ) → x < 256 → x % 256 ≡ x
    kept x h = omega arith

get_or-zeros : (n p : ℕ) → get_or (replicate {A = ℕ} n 0) p 0 ≡ 0
get_or-zeros zero p = refl
get_or-zeros (suc n) zero = refl
get_or-zeros (suc n) (suc p) = get_or-zeros n p

get_or-outside : (xs : List ℕ) (p : ℕ) → length xs ≤ p → get_or xs p 0 ≡ 0
get_or-outside [] p h = refl
get_or-outside (x ∷ xs) zero h = absurd (omega arith)
get_or-outside (x ∷ xs) (suc p) h = get_or-outside xs p (omega arith)

value_of-zeros : (n : ℕ) → value_of (replicate {A = ℕ} n 0) ≡ 0
value_of-zeros zero = unfold value_of value_from in refl
value_of-zeros (suc n) = zero_front (replicate n 0) ∙ value_of-zeros n

-- Forty bytes are few enough for the limbs not to overflow.
few_products : (a b : ℕ) → a + b ≤ 40 → a * b ≤ 1600
few_products a b h = grind arith

product_small : (a b p q : ℕ) → a < p → b < q → a * b < p * q
product_small a b p q h h' = grind arith

-- The first limb is a byte, since the number has no more than `n` bytes.
first_is_byte :
    (xs : List ℕ) (n : ℕ) → length xs ≡ suc n → value_of xs < 256 ^ suc n → get_or xs 0 0 < 256
first_is_byte [] n e h = omega arith
first_is_byte (x ∷ xs) n e h = elim (Bool-cases (ltb x 256)) [
  | inl small ↦ ground arith
  | inr big ↦
      let least = times x (256 ^ n) (ground arith) in
      absurd
        (omega (arith, value_of-cons x xs, h, pow-suc 256 n, least, ap (λ k. x * 256 ^ k) shorter))
]
  where
    shorter : length xs ≡ n
    shorter = omega (arith, e)

    times : (x p : ℕ) → 256 ≤ x → 256 * p ≤ x * p
    times x p h = grind arith

module _ (a b : List ℕ) (ha : All IsByte a) (hb : All IsByte b) (short : length a + length b ≤ 40)
    (n : ℕ) (some_bytes : length a + length b ≡ suc n) where
  sums : List ℕ
  sums = multiply_rows (length a + length b) a b 0 (length a) (replicate (length a + length b) 0)

  sums-IsAdded :
      IsAdded
        (0 + length a * (length b * 65025))
        (256 ^ 0 * value_of (take (length a) a) * value_of b)
        (replicate (length a + length b) 0)
        sums
  unfolding sums
  sums-IsAdded =
      rows_lem 0 a b (length a) (omega arith) ha hb 0 _
        (length-replicate {A = ℕ} (length a + length b) 0)
        (λ p. omega (arith, get_or-zeros (length a + length b) p))
        (omega (arith, few_products (length a) (length b) short))

  value_of-sums : value_of sums ≡ value_of a * value_of b
  value_of-sums = sums-IsAdded.sums ∙ rw (take_all a, value_of-zeros) (omega arith)

  length-sums : length sums ≡ suc n
  length-sums =
      sums-IsAdded.same_length ∙ length-replicate {A = ℕ} (length a + length b) 0 ∙ some_bytes

  carried : IsCarried 0 sums (carry n sums)
  carried =
      carry_lem (1600 * 65025) n sums
        (record {
          inside = omega (arith, length-sums);
          top = λ p h. omega (arith, limb p);
          low = λ p h. limb p;
          bytes = λ p h. omega (arith, get_or-outside sums p (omega (arith, h, length-sums)));
        })
        (omega arith)
    where
      limb : (p : ℕ) → get_or sums p 0 ≤ 1600 * 65025
      limb p = omega (arith, sums-IsAdded.at_most p, few_products (length a) (length b) short)

  product_bytes : All IsByte (carry n sums)
  product_bytes = limbs_are_bytes _ each
    where
      bound : value_of (carry n sums) < 256 ^ suc n
      bound =
          rw (carried.keeps, value_of-sums, sym some_bytes, pow_256_add)
            (product_small (value_of a) (value_of b) _ _ (value_of-lt a ha) (value_of-lt b hb))

      each : (p : ℕ) → get_or (carry n sums) p 0 < 256
      each zero = first_is_byte (carry n sums) n (carried.same_length ∙ length-sums) bound
      each (suc p) = carried.bytes (suc p) (omega arith)

  product-IsShortest : IsShortest (drop_leading (carry n sums)) (value_of a * value_of b)
  product-IsShortest =
      rw (sym value_of-sums, sym carried.keeps)
        (drop_leading_lem (carry n sums) (omega (arith, carried.same_length, length-sums))
          product_bytes)

  product_stored :
      (out_len : ℕ)
      → multiply_uint8_arrays a b out_len ≡ (
          if ltb out_len (length (drop_leading (carry n sums)))
          then none
          else some (drop_leading (carry n sums)))
  unfolding multiply_uint8_arrays sums
  product_stored out_len =
      rw (fits, some_limbs, last, bytes_stay _ product-IsShortest.are_bytes) refl
    where
      fits : ltb max_integer_bytes (length a + length b) ≡ false
      fits = ground (arith, short)

      some_limbs : (length a + length b == 0) ≡ false
      some_limbs = ground (arith, some_bytes)

      last : length a + length b - 1 ≡ n
      last = omega (arith, some_bytes)

-- For bytes that together are at most 40, the result is the shortest byte string of the product, and it
-- is stored exactly where the caller's buffer holds it.
pub multiply_uint8_arrays_lem :
    (a b : List ℕ) (out_len : ℕ)
    → All IsByte a
    → All IsByte b
    → length a + length b ≤ 40
    → (product : List ℕ) × IsShortest product (value_of a * value_of b)
      × (multiply_uint8_arrays a b out_len
          ≡ (if ltb out_len (length product) then none else some product))
multiply_uint8_arrays_lem [] [] out_len ha hb h = (
  0 ∷ [],
  record {
    spells = unfold value_of value_from in refl;
    are_bytes = omega arith;
    shortest = inl refl;
  },
  unfold multiply_uint8_arrays in ground arith,
)
multiply_uint8_arrays_lem [] (y ∷ b) out_len ha hb h = (
  _,
  product-IsShortest [] (y ∷ b) ha hb h (length b) (omega arith),
  product_stored [] (y ∷ b) ha hb h (length b) (omega arith) out_len,
)
multiply_uint8_arrays_lem (x ∷ a) b out_len ha hb h = (
  _,
  product-IsShortest (x ∷ a) b ha hb h (length a + length b) (omega arith),
  product_stored (x ∷ a) b ha hb h (length a + length b) (omega arith) out_len,
)
