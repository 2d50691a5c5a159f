-- ===== src/TxFormat/Decimal.antt =====
-- `uint8_array_to_decimal` of src/ui/tx_format.c writes the shortest decimal text of its number.
use mathlib.Core.List.{append_assoc, append-nil}
use native.Mathlib.Nat.{pow-suc, pow-le-pow_right}
use ledger_app_qrl_v.Prelude.{
  ℕ, zero, suc, ◌+◌, ◌*◌, ◌^◌, ◌≤◌, ◌<◌, ◌≡◌, refl, sym, ap, arith, true, false, none, some, List,
  [], ◌∷◌, ◌++◌, length, length-append, ltb, if◌then◌else◌, Bool-cases, inl, inr, All, IsByte,
  value_of, value_of-lt,
}
use ledger_app_qrl_v.TxFormat.{divide_by_ten, all_zero, decimal_loop, uint8_array_to_decimal}
use ledger_app_qrl_v.TxFormat.Digits.{IsDecimal, one_digit, next_digit}
use ledger_app_qrl_v.TxFormat.DivMod.{divide_by_ten_lem, all_zero_value, not-all_zero_value}

-- What the loop leaves: the text of the number in front of the digits written before it.
abbrev Writes : (index : ℕ) (temp digits : List ℕ) → Type 0
Writes index temp digits =
    (text : List ℕ) × (decimal_loop index temp digits ≡ some (text ++ digits))
    × IsDecimal text (value_of temp)
    × (length text ≤ index)

decimal_loop-step :
    (index : ℕ) (temp digits : List ℕ)
    → decimal_loop (suc index) temp digits ≡ (
        if all_zero (divide_by_ten 0 temp).0
        then some ((b'0' + (divide_by_ten 0 temp).1) ∷ digits)
        else decimal_loop index
            (divide_by_ten 0 temp).0
            ((b'0' + (divide_by_ten 0 temp).1) ∷ digits))
unfolding decimal_loop
decimal_loop-step index temp digits = refl

value_divided :
    (temp : List ℕ)
    → All IsByte temp
    → value_of temp ≡ value_of (divide_by_ten 0 temp).0 * 10 + (divide_by_ten 0 temp).1
value_divided temp hb = unfold value_of in (divide_by_ten_lem 0 temp (omega arith) hb).divides

-- The last digit, and one digit more in front of those that the rest of the loop writes.
last_digit :
    (index : ℕ) (temp digits : List ℕ)
    → All IsByte temp
    → all_zero (divide_by_ten 0 temp).0 ≡ true
    → Writes (suc index) temp digits
last_digit index temp digits hb done = (
  (b'0' + (divide_by_ten 0 temp).1) ∷ [],
  rw (decimal_loop-step index temp digits, done),
  rw last (one_digit (divide_by_ten 0 temp).1 (divide_by_ten_lem 0 temp (omega arith) hb).small),
  omega arith,
)
  where
    last : value_of temp ≡ (divide_by_ten 0 temp).1
    last = omega (arith, value_divided temp hb, all_zero_value _ done)

one_more_digit :
    (index : ℕ) (temp digits : List ℕ)
    → All IsByte temp
    → all_zero (divide_by_ten 0 temp).0 ≡ false
    → Writes index (divide_by_ten 0 temp).0 ((b'0' + (divide_by_ten 0 temp).1) ∷ digits)
    → Writes (suc index) temp digits
one_more_digit index temp digits hb more (text, e, dec, len) = (
  text ++ ((b'0' + (divide_by_ten 0 temp).1) ∷ []),
  rw (decimal_loop-step index temp digits, more, e) (ap some (sym (append_assoc text _ digits))),
  rw (value_divided temp hb) (
      next_digit text _ _ (not-all_zero_value _ more)
        (divide_by_ten_lem 0 temp (omega arith) hb).small dec),
  rw length-append (omega arith),
)

positive_power : (n v : ℕ) → v < 10 ^ n → 0 < v → 0 < n
positive_power zero v a b = absurd (omega arith)
positive_power (suc n) v a b = omega arith

-- Each round writes one digit: with `index` places left, a number below 10 ^ index is written.
decimal_loop-Writes :
    (index : ℕ) (temp digits : List ℕ)
    → 0 < index
    → All IsByte temp
    → value_of temp < 10 ^ index
    → Writes index temp digits
decimal_loop-Writes zero temp digits p hb h = absurd (omega arith)
decimal_loop-Writes (suc index) temp digits p hb h =
    elim (Bool-cases (all_zero (divide_by_ten 0 temp).0)) [
      | inl done ↦ last_digit index temp digits hb done
      | inr more ↦
          let smaller : value_of (divide_by_ten 0 temp).0 < 10 ^ index =
            omega (arith, pow-suc 10 index, value_divided temp hb) in
          one_more_digit index temp digits hb more (
            decimal_loop-Writes index (divide_by_ten 0 temp).0 _
              (positive_power index _ smaller (not-all_zero_value _ more))
              (divide_by_ten_lem 0 temp (omega arith) hb).bytes smaller)
    ]

forty_bytes_fit : (bytes : List ℕ) → All IsByte bytes → length bytes ≤ 40 → value_of bytes < 10 ^ 97
forty_bytes_fit bytes hb h = omega (
  arith,
  value_of-lt bytes hb,
  let p : 256 ^ length bytes ≤ 256 ^ 40 = pow-le-pow_right (omega arith) h in p,
)

-- For up to 40 bytes the loop ends with the shortest decimal text of the number, and the text is
-- returned exactly where the buffer holds it and its NUL.
pub uint8_array_to_decimal_lem :
    (bytes : List ℕ) (out_len : ℕ)
    → All IsByte bytes
    → length bytes ≤ 40
    → (text : List ℕ) × IsDecimal text (value_of bytes)
      × (length text ≤ 97)
      × (uint8_array_to_decimal bytes out_len
          ≡ (if ltb out_len (length text + 1) then none else some text))
uint8_array_to_decimal_lem bytes out_len hb h =
    returned (decimal_loop-Writes 97 bytes [] (omega arith) hb (forty_bytes_fit bytes hb h))
  where
    returned :
        Writes 97 bytes []
        → (text : List ℕ) × IsDecimal text (value_of bytes)
          × (length text ≤ 97)
          × (uint8_array_to_decimal bytes out_len
              ≡ (if ltb out_len (length text + 1) then none else some text))
    returned (text, e, dec, len) =
        (text, dec, len, unfold uint8_array_to_decimal in rw (e, append-nil) (ground arith))
