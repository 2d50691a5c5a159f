-- ===== src/Rounding/Hints.antt =====
-- What a hint of make_hint says to use_hint: src/mldsa87/rounding.c.
use ledger_app_qrl_v.Prelude.{
  ℕ, zero, suc, ◌+◌, ◌-◌, ◌*◌, ◌/◌, ◌%◌, ◌^◌, ◌≤◌, ◌<◌, ◌≡◌, ◌∙◌, refl, arith, bit_and, bit_or,
  bit_and-ones, bit_and-zero, bit_or-zero, zero-bit_and, bit_or-div, zero-bit_or, bit_or_comm, ltb,
  Bool-cases, inl, inr, ltb→lt, ltb_false→ge,
}
use ledger_app_qrl_v.Word32.{neg32, Within}
use ledger_app_qrl_v.Rounding.{gamma2, nonzero_bit, make_hint, select_high}

bit_or-one : (a : ℕ) → a < 2 → bit_or a 1 ≡ 1
bit_or-one zero h = refl
bit_or-one (suc zero) h = refl
bit_or-one (suc (suc a)) h = absurd (omega arith)

one-bit_or : (b : ℕ) → b < 2 → bit_or 1 b ≡ 1
one-bit_or b h = bit_or_comm 1 b ∙ bit_or-one b h

nonzero_bit-zero : nonzero_bit 0 ≡ 0
nonzero_bit-zero = refl

nonzero_bit-pos : (x : ℕ) → 0 < x → x < 2 ^ 32 → nonzero_bit x ≡ 1
nonzero_bit-pos x l h = bit_or-div 31 x (neg32 x) ∙ elim (Bool-cases (ltb x (2 ^ 31))) [
  | inl e ↦
      rw (high (neg32 x) (omega (arith, ltb→lt x (2 ^ 31) e)) (omega arith))
        (bit_or-one (x / 2 ^ 31) (omega arith))
  | inr e ↦ rw (high x (ltb_false→ge x (2 ^ 31) e) h) (one-bit_or (neg32 x / 2 ^ 31) (omega arith))
]
  where
    high : (y : ℕ) → 2 ^ 31 ≤ y → y < 2 ^ 32 → y / 2 ^ 31 ≡ 1
    high y l h = omega arith

-- A mask of 32 bits.
all_ones : (a : ℕ) → a < 2 ^ 32 → bit_and a (2 ^ 32 - 1) ≡ a
all_ones a h = bit_and-ones 32 a ∙ omega arith

ruleset masks = (bit_and-zero, bit_or-zero, zero-bit_or, zero-bit_and)

-- Without a hint the high part stays.
pub select_high-zero : (a1 a0 : ℕ) → a1 < 2 ^ 32 → select_high 0 a1 a0 ≡ a1
unfolding select_high
select_high-zero a1 a0 h = simp masks (all_ones a1 h)

-- With one it goes up where the low part is above 0, and down where it is not.
pub select_high-up :
    (hint a1 a0 : ℕ)
    → 0 < hint
    → hint < 2 ^ 32
    → 0 < a0
    → a0 < 2 ^ 31
    → select_high hint a1 a0 ≡ (a1 + 1) % 2 ^ 32 % 16
unfolding select_high
select_high-up hint a1 a0 l h p q =
    let positive : (2 ^ 32 - a0) % 2 ^ 32 / 2 ^ 31 ≡ 1 = omega arith in
    let x = (a1 + 1) % 2 ^ 32 in
    let kept : bit_and (x % 16) (2 ^ 32 - 1) ≡ x % 16 = all_ones (x % 16) (omega arith) in
    rw (nonzero_bit-pos hint l h, positive, bit_and-ones 4 x, kept, kept) (simp masks)

pub select_high-down :
    (hint a1 a0 : ℕ)
    → 0 < hint
    → hint < 2 ^ 32
    → (2 ^ 32 - a0) % 2 ^ 32 < 2 ^ 31
    → select_high hint a1 a0 ≡ (a1 + 2 ^ 32 - 1) % 2 ^ 32 % 16
unfolding select_high
select_high-down hint a1 a0 l h p =
    let positive : (2 ^ 32 - a0) % 2 ^ 32 / 2 ^ 31 ≡ 0 = omega arith in
    let x = (a1 + 2 ^ 32 - 1) % 2 ^ 32 in
    let kept : bit_and (x % 16) (2 ^ 32 - 1) ≡ x % 16 = all_ones (x % 16) (omega arith) in
    rw (nonzero_bit-pos hint l h, positive, bit_and-ones 4 x, kept, kept) (simp masks)

-- The tests of make_hint, for a low part from -(2 * GAMMA2 - 1) to 2 * GAMMA2: above GAMMA2,
pub make_hint-above : (a0 a1 : ℕ) → gamma2 < a0 → a0 ≤ 2 * gamma2 → make_hint a0 a1 ≡ 1
unfolding make_hint
make_hint-above a0 a1 l h =
    let gt : (gamma2 + 2 ^ 32 - a0) % 2 ^ 32 / 2 ^ 31 ≡ 1 = omega arith in
    let lt : (a0 + gamma2) % 2 ^ 32 / 2 ^ 31 ≡ 0 = omega arith in
    rw (nonzero_bit-pos ((a0 + gamma2) % 2 ^ 32) (omega arith) (omega arith), gt, lt) (simp masks)

-- below -GAMMA2,
pub make_hint-under :
    (a0 a1 : ℕ) → 2 ^ 32 - 2 * gamma2 < a0 → a0 < 2 ^ 32 - gamma2 → make_hint a0 a1 ≡ 1
unfolding make_hint
make_hint-under a0 a1 l h =
    let gt : (gamma2 + 2 ^ 32 - a0) % 2 ^ 32 / 2 ^ 31 ≡ 0 = omega arith in
    let lt : (a0 + gamma2) % 2 ^ 32 / 2 ^ 31 ≡ 1 = omega arith in
    rw (nonzero_bit-pos ((a0 + gamma2) % 2 ^ 32) (omega arith) (omega arith), gt, lt) (simp masks)

-- between the two,
pub make_hint-Within : (a0 a1 : ℕ) → Within (gamma2 - 1) gamma2 a0 → make_hint a0 a1 ≡ 0
unfolding make_hint
make_hint-Within a0 a1 h =
    let gt : (gamma2 + 2 ^ 32 - a0) % 2 ^ 32 / 2 ^ 31 ≡ 0 = omega arith in
    let lt : (a0 + gamma2) % 2 ^ 32 / 2 ^ 31 ≡ 0 = omega arith in
    rw (nonzero_bit-pos ((a0 + gamma2) % 2 ^ 32) (omega arith) (omega arith), gt, lt) (simp masks)

-- and at -GAMMA2.
pub make_hint-edge_zero : make_hint (2 ^ 32 - gamma2) 0 ≡ 0
unfolding make_hint
make_hint-edge_zero = refl

pub make_hint-edge_pos : (a1 : ℕ) → 0 < a1 → a1 < 2 ^ 32 → make_hint (2 ^ 32 - gamma2) a1 ≡ 1
unfolding make_hint
make_hint-edge_pos a1 l h = rw (nonzero_bit-pos a1 l h) refl
