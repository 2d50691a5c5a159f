-- ===== src/TxFormat/Multiply.antt =====
-- `multiply_uint8_arrays` of src/ui/tx_format.c multiplies: the rows, in the order of its loops.
use native.Mathlib.Nat.{pow-suc, suc-add, add-suc, add-zero}
use ledger_app_qrl_v.Prelude.{
  ℕ, zero, suc, ◌+◌, ◌-◌, ◌*◌, ◌%◌, ◌^◌, ◌<◌, ◌≡◌, refl, ap, ◌∙◌, arith, List, [], length, get_or,
  take, take_all, All, IsByte, value_of, value_from,
}
use ledger_app_qrl_v.TxFormat.Accum.{
  AtMost, IsAdded, add_at_lem, IsAdded-trans, IsAdded-weaken, value_of-take, byte_or_zero,
  byte_product,
}
use ledger_app_qrl_v.TxFormat.{add_at, multiply_row, multiply_rows}

pub pow_256_add : (m n : ℕ) → 256 ^ (m + n) ≡ 256 ^ m * 256 ^ n
pow_256_add zero n = ap (λ (k : ℕ). 256 ^ k) (zero_left n) ∙ omega arith
  where
    zero_left : (n : ℕ) → 0 + n ≡ n
    zero_left n = omega arith
pow_256_add (suc m) n =
    rw (suc-add m n, pow-suc 256 (m + n), pow-suc 256 m) (omega (arith, pow_256_add m n))

nothing-IsAdded : (k : ℕ) (accum : List ℕ) → AtMost k accum → IsAdded k 0 accum accum
nothing-IsAdded k accum h = record { sums = omega arith; at_most = h; same_length = refl }

-- The product of two bytes at its place.
cell :
    (i j ai : ℕ) (a b : List ℕ) (r : ℕ)
    → i < length a
    → j + suc r ≡ length b
    → ai < 256
    → All IsByte b
    → (k : ℕ) (accum : List ℕ) → length accum ≡ length a + length b
    → AtMost k accum
    → k + 65025 < 2 ^ 32
    → IsAdded (k + 65025) (ai * get_or b r 0 * 256 ^ (i + j)) accum (
        add_at accum
          (length a + length b - 1 - i - j)
          (ai * get_or b (length b - 1 - j) 0 % 2 ^ 32))
cell i j ai a b r hi hj ha hb k accum len bound fits =
    rw (index, small, place)
      (IsAdded-weaken _ _ _ _ accum _ added
        (omega (arith, byte_product ai (get_or b r 0) ha (byte_or_zero b r hb))) refl)
  where
    index : length b - 1 - j ≡ r
    index = omega (arith, hj)

    small : ai * get_or b r 0 % 2 ^ 32 ≡ ai * get_or b r 0
    small = omega (arith, byte_product ai (get_or b r 0) ha (byte_or_zero b r hb))

    added :
        IsAdded
          (k + ai * get_or b r 0)
          (ai * get_or b r 0 * 256 ^ (length accum - 1 - (length a + length b - 1 - i - j)))
          accum
          (add_at accum (length a + length b - 1 - i - j) (ai * get_or b r 0))
    added =
        add_at_lem k accum (length a + length b - 1 - i - j) (ai * get_or b r 0)
          (omega (arith, len, hi, hj)) bound
          (omega (arith, fits, byte_product ai (get_or b r 0) ha (byte_or_zero b r hb)))

    place : i + j ≡ length accum - 1 - (length a + length b - 1 - i - j)
    place = omega (arith, len, hi, hj)

row_total : (ai b x p : ℕ) → ai * x * p + ai * b * (p * 256) ≡ ai * (b * 256 + x) * p
row_total ai b x p = omega arith

-- One row adds ai * b, `i` places up.
row_lem :
    (i j ai : ℕ) (a b : List ℕ) (r : ℕ)
    → i < length a
    → j + r ≡ length b
    → ai < 256
    → All IsByte b
    → (k : ℕ) (accum : List ℕ) → length accum ≡ length a + length b
    → AtMost k accum
    → k + r * 65025 < 2 ^ 32
    → IsAdded
        (k + r * 65025)
        (ai * value_of (take r b) * 256 ^ (i + j))
        accum
        (multiply_row (length a + length b) i ai b j r accum)
unfolding multiply_row
row_lem i j ai a b zero hi hj ha hb k accum len bound fits =
    IsAdded-weaken _ _ _ _ accum accum (nothing-IsAdded k accum bound) (omega arith)
      (omega (arith, none_left))
  where
    none_left : ai * value_of [] * 256 ^ (i + j) ≡ 0
    none_left = unfold value_of value_from in omega arith
row_lem i j ai a b (suc r) hi hj ha hb k accum len bound fits =
    let first = cell i j ai a b r hi hj ha hb k accum len bound (omega (arith, fits)) in
    let rest =
      row_lem i (suc j) ai a b r hi (omega (arith, hj)) ha hb (k + 65025) _
        (first.same_length ∙ len) first.at_most (omega (arith, fits)) in
    IsAdded-weaken _ _ _ _ accum _ (IsAdded-trans _ _ _ _ accum _ _ first rest) (omega arith) (
      rw (value_of-take b r (omega (arith, hj)), add-suc i j, pow-suc 256 (i + j))
        (row_total ai (value_of (take r b)) (get_or b r 0) (256 ^ (i + j))))

-- The rows add a * b.
rows_total : (a x b p : ℕ) → x * b * p + p * 256 * a * b ≡ p * (a * 256 + x) * b
rows_total a x b p = omega arith

rows_step :
    (i : ℕ) (a b : List ℕ) (r : ℕ)
    → i + suc r ≡ length a
    → (k : ℕ) (accum accum' accum'' : List ℕ)
    → IsAdded
        (k + length b * 65025)
        (get_or a (length a - 1 - i) 0 * value_of (take (length b) b) * 256 ^ (i + 0))
        accum
        accum'
    → IsAdded
        (k + length b * 65025 + r * (length b * 65025))
        (256 ^ suc i * value_of (take r a) * value_of b)
        accum'
        accum''
    → IsAdded
        (k + suc r * (length b * 65025))
        (256 ^ i * value_of (take (suc r) a) * value_of b)
        accum
        accum''
rows_step i a b r hi k accum accum' accum'' row rest =
    IsAdded-weaken _ _ _ _ accum accum'' (IsAdded-trans _ _ _ _ accum accum' accum'' row rest)
      (omega arith)
      (rw (index, value_of-take a r (omega (arith, hi)), take_all b, add-zero i, pow-suc 256 i)
        (rows_total (value_of (take r a)) (get_or a r 0) (value_of b) (256 ^ i)))
  where
    index : length a - 1 - i ≡ r
    index = omega (arith, hi)

pub rows_lem :
    (i : ℕ) (a b : List ℕ) (r : ℕ)
    → i + r ≡ length a
    → All IsByte a
    → All IsByte b
    → (k : ℕ) (accum : List ℕ) → length accum ≡ length a + length b
    → AtMost k accum
    → k + r * (length b * 65025) < 2 ^ 32
    → IsAdded
        (k + r * (length b * 65025))
        (256 ^ i * value_of (take r a) * value_of b)
        accum
        (multiply_rows (length a + length b) a b i r accum)
unfolding multiply_rows
rows_lem i a b zero hi ha hb k accum len bound fits =
    IsAdded-weaken _ _ _ _ accum accum (nothing-IsAdded k accum bound) (omega arith)
      (omega (arith, none_left))
  where
    none_left : 256 ^ i * value_of [] * value_of b ≡ 0
    none_left = unfold value_of value_from in omega arith
rows_lem i a b (suc r) hi ha hb k accum len bound fits =
    let row =
      row_lem i 0 (get_or a (length a - 1 - i) 0) a b (length b) (omega (arith, hi)) (omega arith)
        (byte_or_zero a (length a - 1 - i) ha) hb k accum len bound (omega (arith, fits)) in
    let rest =
      rows_lem (suc i) a b r (omega (arith, hi)) ha hb (k + length b * 65025) _
        (row.same_length ∙ len) row.at_most (omega (arith, fits)) in
    rows_step i a b r hi k accum _ _ row rest
