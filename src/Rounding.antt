-- ===== src/Rounding.antt =====
-- Rounding and hints: src/mldsa87/rounding.c.
pub mod Halves
pub mod Hints
pub mod Recovery
use ledger_app_qrl_v.Prelude.{ℕ, ◌+◌, ◌-◌, ◌*◌, ◌/◌, ◌%◌, ◌^◌, bit_and, bit_or}
use ledger_app_qrl_v.Word32.{add32, sub32, neg32, mul32, asr32}
use ledger_app_qrl_v.Reduce.{q_const}

abbrev pub gamma2 : ℕ
gamma2 = (q_const - 1) / 32

-- `a1` and `*a0`.
unfoldable pub power2_round : ℕ → ℕ × ℕ
power2_round a = let a1 = asr32 (sub32 (add32 a (2 ^ 12)) 1) 13 in (a1, sub32 a (mul32 a1 (2 ^ 13)))

-- `a1` before the mask `& 15`.
unfoldable pub rounded : ℕ → ℕ
rounded a = asr32 (add32 (mul32 (asr32 (add32 a 127) 7) 1025) (2 ^ 21)) 22

-- `*a0` from `a - a1 * 2 * GAMMA2`.
unfoldable pub centered : ℕ → ℕ
centered a0 = sub32 a0 (bit_and (asr32 (sub32 ((q_const - 1) / 2) a0) 31) q_const)

unfoldable pub decompose : ℕ → ℕ × ℕ
decompose a =
    let a1 = bit_and (rounded a) 15 in (a1, centered (sub32 a (mul32 (mul32 a1 2) gamma2)))

-- `(uint32_t) (x | -x) >> 31`
abbrev pub nonzero_bit : ℕ → ℕ
nonzero_bit x = bit_or x (neg32 x) / 2 ^ 31

unfoldable pub make_hint : (a0 a1 : ℕ) → ℕ
make_hint a0 a1 =
    let gt = sub32 gamma2 a0 / 2 ^ 31 in
    let lt = add32 a0 gamma2 / 2 ^ 31 in
    let eq = sub32 1 (nonzero_bit (add32 a0 gamma2)) in
    bit_and (bit_or (bit_or gt lt) (bit_and eq (nonzero_bit a1))) 1

-- The selection by masks at the end of use_hint.
unfoldable pub select_high : (hint a1 a0 : ℕ) → ℕ
select_high hint a1 a0 =
    let hint_zero = sub32 1 (nonzero_bit hint) in
    let positive = neg32 a0 / 2 ^ 31 in
    let mask_zero = neg32 hint_zero in
    let mask_nz = neg32 (sub32 1 hint_zero) in
    let mask_pos = neg32 positive in
    bit_or
      (bit_or (bit_and a1 mask_zero) (bit_and (bit_and (bit_and (add32 a1 1) 15) mask_nz) mask_pos))
      (bit_and (bit_and (bit_and (sub32 a1 1) 15) mask_nz) (2 ^ 32 - 1 - mask_pos))

unfoldable pub use_hint : (a hint : ℕ) → ℕ
use_hint a hint = let (a1, a0) = decompose a in select_high hint a1 a0
