-- ===== src/Reduce/Bounds.antt =====
-- What the reductions of src/mldsa87/reduce.c compute modulo Q, and in which range.
use ledger_app_qrl_v.Prelude.{
  ℕ, ◌+◌, ◌-◌, ◌*◌, ◌%◌, ◌^◌, ◌<◌, ◌≡◌, arith, ltb, if◌then◌else◌, Bool-cases, inl, inr, ltb→lt,
  ltb_false→ge,
}
use ledger_app_qrl_v.Word32.{sign_mask_nonneg, sign_mask_neg, Within}
use ledger_app_qrl_v.Reduce.{q_const, montgomery_reduce, reduce_32, c_addq}

-- The residue modulo Q of the number that a pattern of 32 bits stands for; 513 * Q is above 2 ^ 32.
abbrev pub residue : ℕ → ℕ
residue p = (p + (if ltb p (2 ^ 31) then 0 else 513 * q_const - 2 ^ 32)) % q_const

pub c_addq_lem :
    (a : ℕ) → Within q_const (q_const - 1) a → (c_addq a < q_const) × (c_addq a ≡ residue a)
unfolding c_addq
c_addq_lem a h = elim (Bool-cases (ltb a (2 ^ 31))) [
  | inl e ↦
      rw (sign_mask_nonneg a q_const (ltb→lt a (2 ^ 31) e), e) (omega (arith, ltb→lt a (2 ^ 31) e))
  | inr e ↦
      rw (sign_mask_neg a q_const (ltb_false→ge a (2 ^ 31) e) h.0 (omega arith), e)
        (omega (arith, ltb_false→ge a (2 ^ 31) e))
]

-- From -2^31 to 2^31 - 2^22 - 1, reduce_32 gives a number from -6283009 to 6283008 that is the same modulo Q.
pub reduce_32_lem :
    (a : ℕ)
    → Within (2 ^ 31) (2 ^ 31 - 2 ^ 22 - 1) a
    → Within 6283009 6283008 (reduce_32 a) × (residue (reduce_32 a) ≡ residue a)
unfolding reduce_32
reduce_32_lem a h = ground arith

-- Of a number from -2^31 * Q to 2^31 * Q, the upper end left out, montgomery_reduce gives one from -(Q - 1) to Q - 1
-- which, times 2^32, is the number modulo Q.
pub montgomery_reduce_lem :
    (a : ℕ)
    → a < 2 ^ 64
    → (a + 2 ^ 31 * q_const) % 2 ^ 64 < 2 ^ 32 * q_const
    → Within (q_const - 1) (q_const - 1) (montgomery_reduce a)
      × ((montgomery_reduce a + q_const) % 2 ^ 32 * 2 ^ 32 % q_const
          ≡ (a + 2 ^ 31 * q_const) % 2 ^ 64 % q_const)
unfolding montgomery_reduce
montgomery_reduce_lem a h r = ground arith
