-- ===== src/TxFormat/Amount.antt =====
-- `format_with_decimals` and `format_qrl_amount` of src/ui/tx_format.c show the amount they are given.
use ledger_app_qrl_v.Prelude.{
  ℕ, ◌^◌, zero, suc, ◌+◌, ◌-◌, ◌≤◌, ◌<◌, ◌≡◌, refl, sym, ap, ◌∙◌, arith, none, some, List, [], ◌∷◌,
  ◌++◌, length, length-append, length-replicate, length-take, length-drop, take, drop,
  take-append-drop, replicate, ltb, leb, if◌then◌else◌, Bool-cases, inl, inr, All, All-append,
  All-drop, IsByte, value_of,
}
use ledger_app_qrl_v.TxFormat.Digits.{IsDigit, digits_from, digits_value, IsDecimal}
use ledger_app_qrl_v.TxFormat.Fixed.{EndsWell, Split, split, with_point, strip_pointed}
use ledger_app_qrl_v.TxFormat.Decimal.{uint8_array_to_decimal_lem}
use ledger_app_qrl_v.TxFormat.{
  pointed, bytes_needed, format_with_decimals, then_format, format_qrl_amount,
  uint8_array_to_decimal, strip_zeros, strip_point,
}

-- A fixed-point text of the digits `raw`, `decimals` of them behind the point: the digits of its whole
-- part and of its fraction, with the zeros it leaves out put back, spell the same number.
pub record IsFixed (raw : List ℕ) (decimals : ℕ) (text : List ℕ) : Type 0 where
  pub whole : List ℕ
  pub frac : List ℕ
  pub zeros : ℕ
  pub shown : text ≡ with_point whole frac
  pub spells : digits_value (whole ++ (frac ++ replicate zeros b'0')) ≡ digits_value raw
  pub places : length frac + zeros ≡ decimals
  pub ends : EndsWell frac
  pub not_empty : 0 < length whole
  pub digits : All IsDigit (whole ++ frac)

digits_value-zeros :
    (n : ℕ) (raw : List ℕ) → digits_value (replicate n b'0' ++ raw) ≡ digits_value raw
unfolding digits_value digits_from
digits_value-zeros zero raw = refl
digits_value-zeros (suc n) raw = digits_value-zeros n raw

zeros_are_digits : (n : ℕ) → All IsDigit (replicate n b'0')
zeros_are_digits zero = tt
zeros_are_digits (suc n) = (omega arith, zeros_are_digits n)

All-append_left : (xs ys : List ℕ) → All IsDigit (xs ++ ys) → All IsDigit xs
All-append_left [] ys h = tt
All-append_left (x ∷ xs) ys h = (h.0, All-append_left xs ys h.1)

-- Whatever the digits before and behind the point are, stripping them keeps the number.
stripped_IsFixed :
    (raw whole frac : List ℕ) (decimals : ℕ)
    → All IsDigit whole
    → All IsDigit frac
    → 0 < length whole
    → length frac ≡ decimals
    → digits_value (whole ++ frac) ≡ digits_value raw
    → let out = whole ++ (b'.' ∷ frac) in
      IsFixed raw decimals (take (strip_point (strip_zeros (length out) out) out) out)
stripped_IsFixed raw whole frac decimals hw hf pos len val = parts (split frac hf)
  where
    parts :
        Split frac
        → let out = whole ++ (b'.' ∷ frac) in
          IsFixed raw decimals (take (strip_point (strip_zeros (length out) out) out) out)
    parts s = record {
      whole = whole;
      frac = s.kept;
      zeros = s.zeros;
      shown = rw (s.whole) (strip_pointed whole s.kept s.zeros s.ends);
      spells = ap (λ t. digits_value (whole ++ t)) (sym s.whole) ∙ val;
      places = omega (
        arith,
        len,
        ap length s.whole,
        length-append s.kept (replicate s.zeros b'0'),
        length-replicate {A = ℕ} s.zeros b'0',
      );
      ends = s.ends;
      not_empty = pos;
      digits =
          All-append IsDigit whole s.kept hw
            (All-append_left s.kept (replicate s.zeros b'0') (rw (sym s.whole) hf));
    }

pointed-IsFixed :
    (raw : List ℕ) (decimals : ℕ)
    → All IsDigit raw
    → 0 < decimals
    → let out = pointed raw decimals in
      IsFixed raw decimals (take (strip_point (strip_zeros (length out) out) out) out)
unfolding pointed
pointed-IsFixed raw decimals h pos = elim (Bool-cases (leb (length raw) decimals)) [
  | inl short ↦
      let fits : length raw ≤ decimals = ground arith in
      rw short (
        stripped_IsFixed raw (b'0' ∷ []) (replicate (decimals - length raw) b'0' ++ raw) decimals
          (omega arith)
          (All-append IsDigit (replicate (decimals - length raw) b'0') raw
            (zeros_are_digits (decimals - length raw)) h)
          (omega arith)
          (omega (
            arith,
            length-append (replicate (decimals - length raw) b'0') raw,
            length-replicate {A = ℕ} (decimals - length raw) b'0',
          ))
          (digits_value-zeros (suc (decimals - length raw)) raw))
  | inr long ↦
      let over : decimals < length raw = ground arith in
      rw long (
        stripped_IsFixed raw (take (length raw - decimals) raw) (drop (length raw - decimals) raw)
          decimals
          (All-append_left (take (length raw - decimals) raw) (drop (length raw - decimals) raw)
            (rw (take-append-drop (length raw - decimals) raw) h))
          (All-drop IsDigit (length raw - decimals) raw h)
          (omega (arith, length-take (length raw - decimals) raw))
          (omega (arith, length-drop (length raw - decimals) raw))
          (ap digits_value (take-append-drop (length raw - decimals) raw)))
]

-- Without a wrap-around: the digits, the point and the final zero byte, and a leading zero where there is
-- no digit before the point.
bytes_needed_lem :
    (raw : List ℕ) (decimals : ℕ)
    → length raw < 2 ^ 32 - 2
    → decimals < 2 ^ 32 - 3
    → bytes_needed raw decimals
      ≡ (if ltb decimals (length raw) then length raw + 2 else decimals + 3)
unfolding bytes_needed
bytes_needed_lem raw decimals h h' = ground (arith, h, h')

-- With decimals to show, fewer than 2 ^ 32 - 3 of them, and fewer than 2 ^ 32 - 2 digits, so that a
-- `size_t` of 32 bits counts the text, `format_with_decimals` gives the fixed-point text of the digits
-- exactly where the buffer holds two bytes more than the digits, or three more than the decimals where
-- there are not more digits than decimals.
pub format_with_decimals_lem :
    (raw : List ℕ) (decimals out_len : ℕ)
    → All IsDigit raw
    → 0 < decimals
    → length raw < 2 ^ 32 - 2
    → decimals < 2 ^ 32 - 3
    → (text : List ℕ) × IsFixed raw decimals text
      × (format_with_decimals raw decimals out_len ≡ (
          if ltb out_len (if ltb decimals (length raw) then length raw + 2 else decimals + 3)
          then none
          else some text))
format_with_decimals_lem raw decimals out_len h pos few places = (
  let out = pointed raw decimals in take (strip_point (strip_zeros (length out) out) out) out,
  pointed-IsFixed raw decimals h pos,
  unfold format_with_decimals in ground (arith, bytes_needed_lem raw decimals few places),
)

chained :
    (amount raw text : List ℕ)
    → uint8_array_to_decimal amount 98 ≡ some raw
    → format_with_decimals raw 18 100 ≡ some text
    → format_qrl_amount amount 100 ≡ some text
unfolding format_qrl_amount then_format
chained amount raw text e f = rw (e, f) refl

-- An amount of up to 40 bytes is always shown in a buffer of TX_FORMAT_MAX_AMOUNT_LEN bytes, and the
-- text is its value as a decimal number with 18 places behind the point.
pub format_qrl_amount_lem :
    (amount : List ℕ)
    → All IsByte amount
    → length amount ≤ 40
    → (digits text : List ℕ) × (format_qrl_amount amount 100 ≡ some text)
      × IsDecimal digits (value_of amount)
      × IsFixed digits 18 text
format_qrl_amount_lem amount hb h = formatted (uint8_array_to_decimal_lem amount 98 hb h)
  where
    formatted :
        ((raw : List ℕ) × IsDecimal raw (value_of amount)
          × (length raw ≤ 97)
          × (uint8_array_to_decimal amount 98
              ≡ (if ltb 98 (length raw + 1) then none else some raw)))
        → (digits text : List ℕ) × (format_qrl_amount amount 100 ≡ some text)
          × IsDecimal digits (value_of amount)
          × IsFixed digits 18 text
    formatted (raw, dec, len, e) =
        let (text, fixed, f) =
          format_with_decimals_lem raw 18 100 dec.digits (omega arith) (omega arith)
            (omega arith) in
        (
          raw,
          text,
          chained amount raw text (ground (arith, e, len)) (ground (arith, f, len)),
          dec,
          fixed,
        )
