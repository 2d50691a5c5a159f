-- ===== src/Rounding/Recovery.antt =====
-- The high part that use_hint gets back with the hint of make_hint: src/mldsa87/rounding.c.
use ledger_app_qrl_v.Prelude.{
  ℕ, zero, suc, ◌+◌, ◌-◌, ◌*◌, ◌%◌, ◌^◌, ◌≤◌, ◌<◌, ◌≡◌, ◌∙◌, ◌⊎◌, ◌≢◌, ◌==◌, ==_iff, refl, arith,
  ltb, Bool-cases, inl, inr, ltb→lt, ltb_false→ge,
}
use ledger_app_qrl_v.Word32.{Within}
use ledger_app_qrl_v.Reduce.{q_const}
use ledger_app_qrl_v.Rounding.{gamma2, decompose, make_hint, use_hint}
use ledger_app_qrl_v.Rounding.Halves.{rounded_lem, decompose-cases}
use ledger_app_qrl_v.Rounding.Hints.{
  select_high-zero, select_high-up, select_high-down, make_hint-above, make_hint-under,
  make_hint-Within, make_hint-edge_zero, make_hint-edge_pos,
}

-- The sum of a high part, counted 2 * GAMMA2 times, and a low part that may have left its interval.
abbrev pub IsSumOf : (a a0 a1 : ℕ) → Type 0
IsSumOf a a0 a1 =
    (a1 * (2 * gamma2) + (a0 + 2 * gamma2) % 2 ^ 32) % q_const ≡ (a + 2 * gamma2) % q_const

-- A low part that left its interval upwards is seen one high part further, as one that is not above 0.
use_hint-above :
    (a a0 a1 : ℕ)
    → a < q_const
    → a1 < 16
    → gamma2 < a0
    → a0 ≤ 2 * gamma2
    → IsSumOf a a0 a1
    → use_hint a 1 ≡ a1
unfolding use_hint
use_hint-above a a0 a1 h b l u e = elim (decompose-cases a h) [
  | inl below ↦
      select_high-down 1 (decompose a).0 (decompose a).1 (omega arith) (omega arith)
        (omega (arith, below, rounded_lem a h))
      ∙ omega (arith, below, rounded_lem a h)
  | inr top ↦
      select_high-down 1 (decompose a).0 (decompose a).1 (omega arith) (omega arith)
        (omega (arith, top, rounded_lem a h))
      ∙ omega (arith, top, rounded_lem a h)
]

use_hint-under :
    (a a0 a1 : ℕ)
    → a < q_const
    → a1 < 16
    → 2 ^ 32 - 2 * gamma2 < a0
    → a0 ≤ 2 ^ 32 - gamma2
    → (a1 ≡ 0 → a0 < 2 ^ 32 - gamma2)
    → IsSumOf a a0 a1
    → use_hint a 1 ≡ a1
unfolding use_hint
use_hint-under a a0 a1 h b l u ne e = elim (decompose-cases a h) [
  | inl below ↦
      select_high-up 1 (decompose a).0 (decompose a).1 (omega arith) (omega arith)
        (omega (arith, below, rounded_lem a h)) (omega (arith, below, rounded_lem a h))
      ∙ omega (arith, below, rounded_lem a h)
  | inr top ↦ absurd (omega (arith, top, rounded_lem a h))
]

use_hint-Within :
    (a a0 a1 : ℕ)
    → a < q_const
    → a1 < 16
    → Within gamma2 gamma2 a0
    → (a0 ≢ 2 ^ 32 - gamma2) ⊎ (a1 ≡ 0)
    → IsSumOf a a0 a1
    → use_hint a 0 ≡ a1
unfolding use_hint
use_hint-Within a a0 a1 h b w ne e = elim (decompose-cases a h) [
  | inl below ↦
      select_high-zero (decompose a).0 (decompose a).1 (omega (arith, below, rounded_lem a h))
      ∙ omega (arith, below, rounded_lem a h)
  | inr top ↦
      select_high-zero (decompose a).0 (decompose a).1 (omega (arith, top, rounded_lem a h))
      ∙ omega (arith, top, rounded_lem a h)
]

-- At -GAMMA2 the hint depends on the high part.
use_hint-edge :
    (a a1 : ℕ)
    → a < q_const
    → a1 < 16
    → IsSumOf a (2 ^ 32 - gamma2) a1
    → use_hint a (make_hint (2 ^ 32 - gamma2) a1) ≡ a1
use_hint-edge a zero h b e =
    rw make_hint-edge_zero (use_hint-Within a (2 ^ 32 - gamma2) 0 h b (omega arith) (inr refl) e)
use_hint-edge a (suc a1) h b e = rw (make_hint-edge_pos (suc a1) (omega arith) (omega arith)) (
    use_hint-under a (2 ^ 32 - gamma2) (suc a1) h b (omega arith) (omega arith)
      (λ p. absurd (omega arith)) e)

use_hint-inside :
    (a a0 a1 : ℕ)
    → a < q_const
    → a1 < 16
    → Within gamma2 gamma2 a0
    → IsSumOf a a0 a1
    → use_hint a (make_hint a0 a1) ≡ a1
use_hint-inside a a0 a1 h b w e = elim (Bool-cases (a0 == 2 ^ 32 - gamma2)) [
  | inl p ↦
      let edge : a0 ≡ 2 ^ 32 - gamma2 = (==_iff a0 (2 ^ 32 - gamma2)).0 p in
      rw edge (use_hint-edge a a1 h b (rw edge at e))
  | inr p ↦
      rw (make_hint-Within a0 a1 (ground arith))
        (use_hint-Within a a0 a1 h b w (inl (ground arith)) e)
]

-- Whatever a low part from -(2 * GAMMA2 - 1) to 2 * GAMMA2 does to the sum, use_hint gets the high part back
-- from the sum modulo Q and the hint that make_hint computes of the two parts.
pub use_hint-make_hint :
    (a a0 a1 : ℕ)
    → a < q_const
    → a1 < 16
    → Within (2 * gamma2 - 1) (2 * gamma2) a0
    → IsSumOf a a0 a1
    → use_hint a (make_hint a0 a1) ≡ a1
use_hint-make_hint a a0 a1 h b w e =
    elim (Bool-cases (ltb ((a0 + gamma2) % 2 ^ 32) (2 * gamma2 + 1))) [
      | inl near ↦ use_hint-inside a a0 a1 h b (omega (arith, ltb→lt _ _ near)) e
      | inr far ↦ elim (Bool-cases (ltb a0 (2 ^ 31))) [
        | inl up ↦
            let l : gamma2 < a0 = omega (arith, ltb_false→ge _ _ far, ltb→lt _ _ up) in
            let u : a0 ≤ 2 * gamma2 = omega (arith, ltb→lt _ _ up) in
            rw (make_hint-above a0 a1 l u) (use_hint-above a a0 a1 h b l u e)
        | inr down ↦
            let l : 2 ^ 32 - 2 * gamma2 < a0 = omega (arith, ltb_false→ge _ _ down) in
            let u : a0 < 2 ^ 32 - gamma2 =
              omega (arith, ltb_false→ge _ _ far, ltb_false→ge _ _ down) in
            rw (make_hint-under a0 a1 l u) (use_hint-under a a0 a1 h b l (omega arith) (λ p. u) e)
      ]
    ]
