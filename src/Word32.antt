-- ===== src/Word32.antt =====
-- `int32_t` and `int64_t` of C, as bit patterns below 2 ^ 32 and 2 ^ 64. A result that does not fit
-- wraps around; `>>` of a signed number keeps its sign.
use ledger_app_qrl_v.Prelude.{
  ℕ, ◌+◌, ◌-◌, ◌*◌, ◌/◌, ◌%◌, ◌^◌, ◌≤◌, ◌<◌, ◌≡◌, arith, bit_and, zero-bit_and, bit_and_comm,
  bit_and-ones, ◌∙◌, lt→ltb, ge→ltb_false, ltb, if◌then◌else◌,
}

abbrev pub add32 : ℕ → ℕ → ℕ
add32 a b = (a + b) % 2 ^ 32

abbrev pub sub32 : ℕ → ℕ → ℕ
sub32 a b = (a + 2 ^ 32 - b) % 2 ^ 32

abbrev pub neg32 : ℕ → ℕ
neg32 a = (2 ^ 32 - a) % 2 ^ 32

abbrev pub mul32 : ℕ → ℕ → ℕ
mul32 a b = a * b % 2 ^ 32

-- `a >> k` on `int32_t`.
abbrev pub asr32 : (a k : ℕ) → ℕ
asr32 a k = a / 2 ^ k + (if ltb a (2 ^ 31) then 0 else 2 ^ 32 - 2 ^ (32 - k))

-- `(int64_t) a` of an `int32_t`.
abbrev pub to64 : ℕ → ℕ
to64 a = a + (if ltb a (2 ^ 31) then 0 else 2 ^ 64 - 2 ^ 32)

-- `(int64_t) a * (int64_t) b`
abbrev pub mul64 : ℕ → ℕ → ℕ
mul64 a b = to64 a * to64 b % 2 ^ 64

-- The pattern `p` stands for a number from -lo to hi.
abbrev pub Within : (lo hi p : ℕ) → Type 0
Within lo hi p = (p < 2 ^ 32) × ((p + lo) % 2 ^ 32 ≤ lo + hi)

-- `(a >> 31) & m`: nothing, or the mask.
pub sign_mask_nonneg : (a m : ℕ) → a < 2 ^ 31 → bit_and (asr32 a 31) m ≡ 0
sign_mask_nonneg a m h = rw (lt→ltb a (2 ^ 31) h, quotient) (zero-bit_and m)
  where
    quotient : a / 2 ^ 31 + 0 ≡ 0
    quotient = omega arith

pub sign_mask_neg : (a m : ℕ) → 2 ^ 31 ≤ a → a < 2 ^ 32 → m < 2 ^ 32 → bit_and (asr32 a 31) m ≡ m
sign_mask_neg a m h l b =
    rw (ge→ltb_false a (2 ^ 31) h, quotient)
      (bit_and_comm (2 ^ 32 - 1) m ∙ bit_and-ones 32 m ∙ omega arith)
  where
    quotient : a / 2 ^ 31 + (2 ^ 32 - 2) ≡ 2 ^ 32 - 1
    quotient = omega arith
