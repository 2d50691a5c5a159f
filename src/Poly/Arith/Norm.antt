-- ===== src/Poly/Arith/Norm.antt =====
-- What poly_chk_norm of src/mldsa87/poly.c finds out.
use ledger_app_qrl_v.Prelude.{
  ℕ, ◌+◌, ◌-◌, ◌/◌, ◌%◌, ◌^◌, ◌≤◌, ◌<◌, ◌≡◌, ◌↔◌, ◌⊎◌, refl, arith, Bool-cases, inl, inr, List, [],
  ◌∷◌, All, ltb, ltb→lt, ltb_false→ge, ge→ltb_false, if◌then◌else◌,
}
use ledger_app_qrl_v.Word32.{mul32, Within, sign_mask_nonneg, sign_mask_neg}
use ledger_app_qrl_v.Reduce.{q_const}
use ledger_app_qrl_v.Poly.Arith.{absolute, violates, violations, poly_chk_norm}

-- The absolute value of what the pattern stands for.
pub magnitude : ℕ → ℕ
magnitude c = if ltb c (2 ^ 31) then c else 2 ^ 32 - c

absolute_lem : (c : ℕ) → c < 2 ^ 32 → absolute c ≡ magnitude c
unfolding absolute magnitude
absolute_lem c h = elim (Bool-cases (ltb c (2 ^ 31))) [
  | inl e ↦
      rw (sign_mask_nonneg c (mul32 2 c) (ltb→lt c (2 ^ 31) e), e)
        (omega (arith, ltb→lt c (2 ^ 31) e))
  | inr e ↦
      rw (sign_mask_neg c (mul32 2 c) (ltb_false→ge c (2 ^ 31) e) h (omega arith), e)
        (omega (arith, ltb_false→ge c (2 ^ 31) e))
]

pub magnitude-lt : (c : ℕ) → c < 2 ^ 32 → magnitude c ≤ 2 ^ 31
unfolding magnitude
magnitude-lt c h = ground arith

pub magnitude-Within :
    (b c : ℕ) → c < 2 ^ 32 → magnitude c < b → b ≤ 2 ^ 31 → Within (b - 1) (b - 1) c
unfolding magnitude
magnitude-Within b c h l s = ground arith

-- A coefficient violates the bound where it is not below it, in its absolute value.
violates-below :
    (bound c : ℕ)
    → c < 2 ^ 32
    → bound ≤ (q_const - 1) / 8
    → magnitude c < bound
    → violates bound c ≡ 0
unfolding violates
violates-below bound c h b l =
    let bit : (magnitude c + 2 ^ 32 - bound) % 2 ^ 32 / 2 ^ 31 ≡ 1 = omega arith in
    rw (absolute_lem c h, bit) refl

violates-above :
    (bound c : ℕ)
    → c < 2 ^ 32
    → 0 < bound
    → bound ≤ (q_const - 1) / 8
    → bound ≤ magnitude c
    → violates bound c ≡ 1
unfolding violates
violates-above bound c h z b l =
    let bit : (magnitude c + 2 ^ 32 - bound) % 2 ^ 32 / 2 ^ 31 ≡ 0 =
      omega (arith, magnitude-lt c h) in
    rw (absolute_lem c h, bit) refl

module _ (bound : ℕ) (z : 0 < bound) (b : bound ≤ (q_const - 1) / 8) where
  abbrev IsShort : List ℕ → Type 0
  IsShort cs = All (λ c. magnitude c < bound) cs

  violates-bit :
      (c : ℕ)
      → c < 2 ^ 32
      → ((magnitude c < bound) × (violates bound c ≡ 0))
        ⊎ ((bound ≤ magnitude c) × (violates bound c ≡ 1))
  violates-bit c h = elim (Bool-cases (ltb (magnitude c) bound)) [
    | inl e ↦ let l = ltb→lt _ _ e in inl (l, violates-below bound c h b l)
    | inr e ↦ let l = ltb_false→ge _ _ e in inr (l, violates-above bound c h z b l)
  ]

  -- One violation stays.
  violations-one : (cs : List ℕ) → All (λ c. c < 2 ^ 32) cs → violations bound 1 cs ≡ 1
  unfolding violations
  violations-one [] h = refl
  violations-one (c ∷ cs) (h, hs) = elim (violates-bit c h) [
    | inl (l, e) ↦ rw e (violations-one cs hs)
    | inr (l, e) ↦ rw e (violations-one cs hs)
  ]

  violations_lem :
      (cs : List ℕ)
      → All (λ c. c < 2 ^ 32) cs
      → ((violations bound 0 cs ≡ 0) × IsShort cs) ⊎ ((violations bound 0 cs ≡ 1) × ¬ IsShort cs)
  unfolding violations
  violations_lem [] h = inl (refl, tt)
  violations_lem (c ∷ cs) (h, hs) = elim (violates-bit c h) [
    | inl (l, e) ↦ rw e (elim (violations_lem cs hs) [
      | inl (v, short) ↦ inl (v, (l, short))
      | inr (v, not_short) ↦ inr (v, λ short. not_short short.1)
    ])
    | inr (l, e) ↦ rw e (inr (violations-one cs hs, λ short. absurd (omega (arith, short.0))))
  ]

  -- For a bound of 1 to (Q - 1) / 8, poly_chk_norm gives 0 exactly when each coefficient is below the bound in
  -- its absolute value, and 1 otherwise.
  pub poly_chk_norm_lem :
      (a : List ℕ)
      → All (λ c. c < 2 ^ 32) a
      → ((poly_chk_norm a bound ≡ 0) ↔ All (λ c. magnitude c < bound) a)
        × (poly_chk_norm a bound ≤ 1)
  unfolding poly_chk_norm
  poly_chk_norm_lem a h = rw (ge→ltb_false ((q_const - 1) / 8) bound b) (elim (violations_lem a h) [
    | inl (v, short) ↦ rw v ((λ e. short, λ s. refl), omega arith)
    | inr (v, not_short) ↦
        rw v ((λ e. absurd (omega arith), λ s. absurd (not_short s)), omega arith)
  ])
