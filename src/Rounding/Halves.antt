-- ===== src/Rounding/Halves.antt =====
-- The two parts into which power2_round and decompose of src/mldsa87/rounding.c take a number.
use ledger_app_qrl_v.Prelude.{
  ℕ, ◌+◌, ◌-◌, ◌*◌, ◌/◌, ◌%◌, ◌^◌, ◌≤◌, ◌<◌, ◌≡◌, refl, arith, bit_and-ones, ltb, ◌⊎◌, Bool-cases,
  inl, inr, ltb→lt, ltb_false→ge,
}
use ledger_app_qrl_v.Word32.{sub32, mul32, Within, sign_mask_nonneg, sign_mask_neg}
use ledger_app_qrl_v.Reduce.{q_const}
use ledger_app_qrl_v.Rounding.{gamma2, power2_round, rounded, centered, decompose}

-- Below Q, power2_round gives a high part below 2 ^ 10 and a low part in (-2 ^ 12, 2 ^ 12] of which the
-- number is the sum, the high part counting 2 ^ 13 times.
pub power2_round_lem :
    (a : ℕ)
    → a < q_const
    → ((power2_round a).0 < 2 ^ 10)
      × Within (2 ^ 12 - 1) (2 ^ 12) (power2_round a).1
      × ((power2_round a).0 * 2 ^ 13 + ((power2_round a).1 + (2 ^ 12 - 1)) % 2 ^ 32
          ≡ a + (2 ^ 12 - 1))
unfolding power2_round
power2_round_lem a h = ground arith

rounded_scaled : (a : ℕ) → a < q_const → rounded a ≡ ((a + 127) / 128 * 1025 + 2097152) / 4194304
unfolding rounded
rounded_scaled a h = ground arith

rounded_near :
    (x : ℕ)
    → x ≤ 65472
    → ((x * 1025 + 2097152) / 4194304 ≤ 16)
      × (x ≤ (x * 1025 + 2097152) / 4194304 * 4092 + 2046)
      × ((x * 1025 + 2097152) / 4194304 * 4092 < x + 2047)
rounded_near x h = omega arith

-- The nearest multiple of 2 * GAMMA2, the lower one of two that are as near.
pub rounded_lem :
    (a : ℕ)
    → a < q_const
    → (rounded a ≤ 16)
      × (a ≤ rounded a * (2 * gamma2) + gamma2)
      × (rounded a * (2 * gamma2) < a + gamma2)
rounded_lem a h =
    rw (rounded_scaled a h) (omega (arith, rounded_near ((a + 127) / 128) (omega arith)))

-- `*a0` moves by Q where it is above (Q - 1) / 2.
centered_low : (x : ℕ) → Within gamma2 ((q_const - 1) / 2) x → centered x ≡ x
unfolding centered
centered_low x h =
    rw (sign_mask_nonneg (sub32 ((q_const - 1) / 2) x) q_const (omega arith)) (omega arith)

centered_high : (x : ℕ) → (q_const - 1) / 2 < x → x < q_const → centered x ≡ x + 2 ^ 32 - q_const
unfolding centered
centered_high x l h =
    rw
      (sign_mask_neg (sub32 ((q_const - 1) / 2) x) q_const (omega arith) (omega arith)
        (omega arith))
      (omega arith)

-- The parts of a number below Q, where it is not above the last half interval.
decompose_below :
    (a : ℕ)
    → a < q_const
    → rounded a < 16
    → (((decompose a).0 ≡ rounded a)
        × ((decompose a).1 ≡ (a + 2 ^ 32 - rounded a * (2 * gamma2)) % 2 ^ 32))
unfolding decompose
decompose_below a h l = rw (bit_and-ones 4 (rounded a)) (
  omega arith,
  rw
      (centered_low (sub32 a (mul32 (mul32 (rounded a % 2 ^ 4) 2) gamma2))
        (omega (arith, rounded_lem a h)))
      (omega arith),
)

-- And where it is: the high part is 0, the low part is less by Q.
decompose_top :
    (a : ℕ)
    → a < q_const
    → rounded a ≡ 16
    → (((decompose a).0 ≡ 0) × ((decompose a).1 ≡ a + 2 ^ 32 - q_const))
unfolding decompose
decompose_top a h e = rw e (refl, rw unmoved (centered_high a (omega (arith, rounded_lem a h)) h))
  where
    unmoved : (a + 2 ^ 32 - 0) % 2 ^ 32 ≡ a
    unmoved = omega arith

-- The parts of `a`, in the two cases of the interval in which it lies.
abbrev pub DecomposedBelow : ℕ → Type 0
DecomposedBelow a =
    (rounded a < 16)
    × ((decompose a).0 ≡ rounded a)
    × ((decompose a).1 ≡ (a + 2 ^ 32 - rounded a * (2 * gamma2)) % 2 ^ 32)

abbrev pub DecomposedTop : ℕ → Type 0
DecomposedTop a =
    (rounded a ≡ 16) × ((decompose a).0 ≡ 0) × ((decompose a).1 ≡ a + 2 ^ 32 - q_const)

pub decompose-cases : (a : ℕ) → a < q_const → DecomposedBelow a ⊎ DecomposedTop a
decompose-cases a h = elim (Bool-cases (ltb (rounded a) 16)) [
  | inl e ↦
      let l = ltb→lt (rounded a) 16 e in
      inl (l, (decompose_below a h l).0, (decompose_below a h l).1)
  | inr e ↦
      let top : rounded a ≡ 16 = omega (arith, rounded_lem a h, ltb_false→ge (rounded a) 16 e) in
      inr (top, (decompose_top a h top).0, (decompose_top a h top).1)
]

-- Below Q, decompose gives a high part below 16 and a low part from -GAMMA2 to GAMMA2 of which the number is
-- the sum modulo Q, the high part counting 2 * GAMMA2 times.
pub decompose_lem :
    (a : ℕ)
    → a < q_const
    → ((decompose a).0 < 16)
      × Within gamma2 gamma2 (decompose a).1
      × (((decompose a).0 * (2 * gamma2) + ((decompose a).1 + gamma2) % 2 ^ 32) % q_const
          ≡ (a + gamma2) % q_const)
decompose_lem a h = elim (decompose-cases a h) [
  | inl below ↦ omega (arith, below, rounded_lem a h)
  | inr top ↦ omega (arith, top, rounded_lem a h)
]
