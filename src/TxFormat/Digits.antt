-- ===== src/TxFormat/Digits.antt =====
-- Decimal text: what the formatting of src/ui/tx_format.c is measured against.
use ledger_app_qrl_v.Prelude.{
  ℕ, zero, suc, ◌+◌, ◌-◌, ◌*◌, ◌≤◌, ◌<◌, ◌≡◌, ◌⊎◌, refl, ap, ◌∙◌, arith, Bool, true, false, List,
  [], ◌∷◌, ◌++◌, ◌==◌, All, All-append, inl, inr,
}

abbrev pub IsDigit : ℕ → Type 0
IsDigit c = (b'0' ≤ c) × (c ≤ b'9')

unfoldable pub digits_from : ℕ → List ℕ → ℕ
digits_from acc [] = acc
digits_from acc (c ∷ cs) = digits_from (acc * 10 + (c - b'0')) cs

-- The number that a decimal text spells.
unfoldable pub digits_value : List ℕ → ℕ
unfolding digits_from
digits_value cs = digits_from 0 cs

pub digits_from-append :
    (acc : ℕ) (xs ys : List ℕ) → digits_from acc (xs ++ ys) ≡ digits_from (digits_from acc xs) ys
unfolding digits_from
digits_from-append acc [] ys = refl
digits_from-append acc (x ∷ xs) ys = digits_from-append (acc * 10 + (x - b'0')) xs ys

pub digits_value-snoc :
    (xs : List ℕ) (c : ℕ) → digits_value (xs ++ (c ∷ [])) ≡ digits_value xs * 10 + (c - b'0')
unfolding digits_value digits_from
digits_value-snoc xs c = digits_from-append 0 xs (c ∷ [])

abbrev pub first_is_zero : List ℕ → Bool
first_is_zero [] = true
first_is_zero (c ∷ cs) = c == b'0'

-- The shortest decimal text of a number: digits, the first of them no zero, but for the text "0".
pub record IsDecimal (text : List ℕ) (n : ℕ) : Type 0 where
  pub digits : All IsDigit text
  pub spells : digits_value text ≡ n
  pub shortest : (text ≡ b'0' ∷ []) ⊎ (first_is_zero text ≡ false)

pub one_digit : (r : ℕ) → r < 10 → IsDecimal ((b'0' + r) ∷ []) r
unfolding digits_value digits_from
one_digit zero h = record { digits = omega arith; spells = refl; shortest = inl refl }
one_digit (suc r) h = record {
  digits = omega arith;
  spells = omega arith;
  shortest = inr (ground arith);
}

-- One more digit behind the text of a positive number.
pub next_digit :
    (text : List ℕ) (n r : ℕ)
    → 0 < n
    → r < 10
    → IsDecimal text n
    → IsDecimal (text ++ ((b'0' + r) ∷ [])) (n * 10 + r)
next_digit text n r pos h d = record {
  digits = All-append IsDigit text _ d.digits (omega arith);
  spells = digits_value-snoc text (b'0' + r) ∙ omega (arith, d.spells);
  shortest = inr (longer text d.spells d.shortest);
}
  where
    longer :
        (text : List ℕ)
        → digits_value text ≡ n
        → (text ≡ b'0' ∷ []) ⊎ (first_is_zero text ≡ false)
        → first_is_zero (text ++ ((b'0' + r) ∷ [])) ≡ false
    longer [] v s = absurd (omega (arith, pos, v, nil_value))
      where
        nil_value : digits_value [] ≡ 0
        nil_value = unfold digits_value digits_from in refl
    longer (c ∷ cs) v (inl e) = absurd (omega (arith, pos, v, ap digits_value e, zero_value))
      where
        zero_value : digits_value (b'0' ∷ []) ≡ 0
        zero_value = unfold digits_value digits_from in refl
    longer (c ∷ cs) v (inr e) = e
