-- ===== src/Reduce.antt =====
-- Reduction modulo Q: src/mldsa87/reduce.c.
pub mod Bounds
use ledger_app_qrl_v.Prelude.{ℕ, ◌+◌, ◌-◌, ◌*◌, ◌/◌, ◌%◌, ◌^◌, bit_and}
use ledger_app_qrl_v.Word32.{add32, sub32, mul32, asr32, to64}

abbrev pub q_const : ℕ
q_const = 8380417

abbrev pub q_inv : ℕ
q_inv = 58728449

-- `t` of montgomery_reduce: the low 32 bits of the product.
abbrev pub montgomery_factor : ℕ → ℕ
montgomery_factor a = a % 2 ^ 32 * q_inv % 2 ^ 32

-- Of the bits above the 32 lowest of `a - (int64_t) t * Q_CONST` the low 32 are kept.
unfoldable pub montgomery_reduce : ℕ → ℕ
montgomery_reduce a = (a + 2 ^ 64 - to64 (montgomery_factor a) * q_const % 2 ^ 64) % 2 ^ 64 / 2 ^ 32

unfoldable pub reduce_32 : ℕ → ℕ
reduce_32 a = sub32 a (mul32 (asr32 (add32 a (2 ^ 22)) 23) q_const)

unfoldable pub c_addq : ℕ → ℕ
c_addq a = add32 a (bit_and (asr32 a 31) q_const)
