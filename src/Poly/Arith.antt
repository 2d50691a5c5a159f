-- ===== src/Poly/Arith.antt =====
-- The coefficient by coefficient operations of src/mldsa87/poly.c.
pub mod Norm
use ledger_app_qrl_v.Prelude.{
  ℕ, ◌+◌, ◌-◌, ◌*◌, ◌/◌, ◌%◌, ◌^◌, bit_and, bit_or, bit_xor, Bool, List, [], ◌∷◌, map, zip_with,
  ltb, if◌then◌else◌,
}
use ledger_app_qrl_v.Word32.{add32, sub32, mul32, asr32, mul64}
use ledger_app_qrl_v.Reduce.{q_const, montgomery_reduce, reduce_32, c_addq}
use ledger_app_qrl_v.Rounding.{power2_round, decompose, make_hint, use_hint}
use ledger_app_qrl_v.Ntt.{ntt, inv_ntt_to_mont}

unfoldable pub poly_c_addq : List ℕ → List ℕ
poly_c_addq a = map c_addq a

unfoldable pub poly_reduce : List ℕ → List ℕ
poly_reduce a = map reduce_32 a

unfoldable pub poly_add : List ℕ → List ℕ → List ℕ
poly_add a b = zip_with add32 a b

unfoldable pub poly_sub : List ℕ → List ℕ → List ℕ
poly_sub a b = zip_with sub32 a b

-- `a->coeffs[i] <<= D`
unfoldable pub poly_shitf_l : List ℕ → List ℕ
poly_shitf_l a = map (λ c. mul32 c (2 ^ 13)) a

unfoldable pub poly_ntt : List ℕ → List ℕ
poly_ntt a = ntt a

unfoldable pub poly_inv_ntt_to_mont : List ℕ → List ℕ
poly_inv_ntt_to_mont a = inv_ntt_to_mont a

unfoldable pub poly_pointwise_montgomery : List ℕ → List ℕ → List ℕ
poly_pointwise_montgomery a b = zip_with (λ x y. montgomery_reduce (mul64 x y)) a b

-- `a1` and `a0`.
unfoldable pub poly_power2_round : List ℕ → List ℕ × List ℕ
poly_power2_round a = (map (λ c. (power2_round c).0) a, map (λ c. (power2_round c).1) a)

unfoldable pub poly_decompose : List ℕ → List ℕ × List ℕ
poly_decompose a = (map (λ c. (decompose c).0) a, map (λ c. (decompose c).1) a)

-- The sum of `uint32_t`.
unfoldable pub sum32 : List ℕ → ℕ
sum32 [] = 0
sum32 (c ∷ cs) = (c + sum32 cs) % 2 ^ 32

-- `h`, and the number that poly_make_hint returns.
unfoldable pub poly_make_hint : (a0 a1 : List ℕ) → List ℕ × ℕ
poly_make_hint a0 a1 = let h = zip_with make_hint a0 a1 in (h, sum32 h)

unfoldable pub poly_use_hint : (a h : List ℕ) → List ℕ
poly_use_hint a h = zip_with use_hint a h

-- `t = a - ((a >> 31) & 2 * a)`
unfoldable pub absolute : ℕ → ℕ
absolute a = sub32 a (bit_and (asr32 a 31) (mul32 2 a))

-- `1U ^ ((uint32_t) (t - B) >> 31)`
unfoldable pub violates : (bound c : ℕ) → ℕ
violates bound c = bit_xor 1 (sub32 (absolute c) bound / 2 ^ 31)

-- The loop of poly_chk_norm.
unfoldable pub violations : (bound violation : ℕ) → List ℕ → ℕ
violations bound violation [] = violation
violations bound violation (c ∷ cs) = violations bound (bit_or violation (violates bound c)) cs

-- Zero where all coefficients are below the bound.
unfoldable pub poly_chk_norm : List ℕ → (bound : ℕ) → ℕ
poly_chk_norm a bound =
    if ltb ((q_const - 1) / 8) bound then 1 else bit_and (violations bound 0 a) 1
