-- ===== src/Polyvec.antt =====
-- Vectors of polynomials: src/mldsa87/polyvec.c. A vector is the list of its polynomials,
-- L of them or K.
pub mod Packed
use ledger_app_qrl_v.Prelude.{
  ℕ, zero, suc, ◌+◌, ◌-◌, ◌*◌, ◌%◌, ◌^◌, ◌≤◌, not, List, [], ◌∷◌, ◌++◌, length, take, drop, map,
  zip_with, Outcome, ◌>>=◌, ok, reject, fault, leb, ◌==◌, if◌then◌else◌,
}
use ledger_app_qrl_v.Poly.{poly_w1_pack}
use ledger_app_qrl_v.Poly.Arith.{
  poly_c_addq, poly_reduce, poly_add, poly_sub, poly_shitf_l, poly_ntt, poly_inv_ntt_to_mont,
  poly_pointwise_montgomery, poly_power2_round, poly_decompose, poly_make_hint, poly_use_hint,
  poly_chk_norm,
}

unfoldable pub poly_vec_l_reduce : List (List ℕ) → List (List ℕ)
poly_vec_l_reduce v = map poly_reduce v

unfoldable pub poly_vec_k_reduce : List (List ℕ) → List (List ℕ)
poly_vec_k_reduce v = map poly_reduce v

unfoldable pub poly_vec_l_add : List (List ℕ) → List (List ℕ) → List (List ℕ)
poly_vec_l_add u v = zip_with poly_add u v

unfoldable pub poly_vec_k_add : List (List ℕ) → List (List ℕ) → List (List ℕ)
poly_vec_k_add u v = zip_with poly_add u v

unfoldable pub poly_vec_k_sub : List (List ℕ) → List (List ℕ) → List (List ℕ)
poly_vec_k_sub u v = zip_with poly_sub u v

unfoldable pub poly_vec_k_shift_l : List (List ℕ) → List (List ℕ)
poly_vec_k_shift_l v = map poly_shitf_l v

unfoldable pub poly_vec_l_ntt : List (List ℕ) → List (List ℕ)
poly_vec_l_ntt v = map poly_ntt v

unfoldable pub poly_vec_k_ntt : List (List ℕ) → List (List ℕ)
poly_vec_k_ntt v = map poly_ntt v

unfoldable pub poly_vec_l_inv_ntt_to_mont : List (List ℕ) → List (List ℕ)
poly_vec_l_inv_ntt_to_mont v = map poly_inv_ntt_to_mont v

unfoldable pub poly_vec_k_inv_ntt_to_mont : List (List ℕ) → List (List ℕ)
poly_vec_k_inv_ntt_to_mont v = map poly_inv_ntt_to_mont v

unfoldable pub poly_vec_l_pointwise_poly_montgomery : List ℕ → List (List ℕ) → List (List ℕ)
poly_vec_l_pointwise_poly_montgomery a v = map (poly_pointwise_montgomery a) v

unfoldable pub poly_vec_k_pointwise_poly_montgomery : List ℕ → List (List ℕ) → List (List ℕ)
poly_vec_k_pointwise_poly_montgomery a v = map (poly_pointwise_montgomery a) v

unfoldable pub poly_vec_k_c_addq : List (List ℕ) → List (List ℕ)
poly_vec_k_c_addq v = map poly_c_addq v

-- Any error of a polynomial is one of the vector.
unfoldable pub poly_vec_l_chk_norm : List (List ℕ) → (bound : ℕ) → ℕ
poly_vec_l_chk_norm [] bound = 0
poly_vec_l_chk_norm (p ∷ ps) bound =
    if not (poly_chk_norm p bound == 0) then 1 else poly_vec_l_chk_norm ps bound

unfoldable pub poly_vec_k_chk_norm : List (List ℕ) → (bound : ℕ) → ℕ
poly_vec_k_chk_norm [] bound = 0
poly_vec_k_chk_norm (p ∷ ps) bound =
    if not (poly_chk_norm p bound == 0) then 1 else poly_vec_k_chk_norm ps bound

unfoldable pub poly_vec_k_power2_round : List (List ℕ) → List (List ℕ) × List (List ℕ)
poly_vec_k_power2_round v =
    (map (λ p. (poly_power2_round p).0) v, map (λ p. (poly_power2_round p).1) v)

unfoldable pub poly_vec_k_decompose : List (List ℕ) → List (List ℕ) × List (List ℕ)
poly_vec_k_decompose v = (map (λ p. (poly_decompose p).0) v, map (λ p. (poly_decompose p).1) v)

-- `h`, and the number that is returned.
unfoldable pub poly_vec_k_make_hint : (v0 v1 : List (List ℕ)) → List (List ℕ) × ℕ
poly_vec_k_make_hint [] v1 = ([], 0)
poly_vec_k_make_hint (a0 ∷ v0) [] = ([], 0)
poly_vec_k_make_hint (a0 ∷ v0) (a1 ∷ v1) =
    let (h, s) = poly_make_hint a0 a1 in
    let (hs, rest) = poly_vec_k_make_hint v0 v1 in (h ∷ hs, (s + rest) % 2 ^ 32)

unfoldable pub poly_vec_k_use_hint : (u h : List (List ℕ)) → List (List ℕ)
poly_vec_k_use_hint u h = zip_with poly_use_hint u h

-- The loop of poly_vec_l_pointwise_acc_montgomery from i = 1 on.
unfoldable pub acc_from : (w : List ℕ) → (u v : List (List ℕ)) → List ℕ
acc_from w (a ∷ u) (b ∷ v) = acc_from (poly_add w (poly_pointwise_montgomery a b)) u v
acc_from w _ _ = w

unfoldable pub poly_vec_l_pointwise_acc_montgomery : (u v : List (List ℕ)) → List ℕ
poly_vec_l_pointwise_acc_montgomery (a ∷ u) (b ∷ v) = acc_from (poly_pointwise_montgomery a b) u v
poly_vec_l_pointwise_acc_montgomery _ _ = []

unfoldable pub poly_vec_matrix_pointwise_montgomery :
    List (List (List ℕ)) → List (List ℕ) → List (List ℕ)
poly_vec_matrix_pointwise_montgomery mat v =
    map (λ row. poly_vec_l_pointwise_acc_montgomery row v) mat

abbrev pub poly_w1_packed_bytes : ℕ
poly_w1_packed_bytes = 128

-- A write of `bytes` at an offset of `r`: outside `r` it is a fault.
abbrev pub write_at : (r : List ℕ) → (offset : ℕ) → (bytes : List ℕ) → Outcome (List ℕ)
write_at r offset bytes =
    if leb (offset + length bytes) (length r)
    then ok (take offset r ++ (bytes ++ drop (offset + length bytes) r))
    else fault

-- The loop of poly_vec_k_pack_w1; `off` is where the pointer stands, which moves on by
-- `i * POLY_W1_PACKED_BYTES` in each round.
unfoldable pub pack_w1_from : (i off : ℕ) → (r : List ℕ) → List (List ℕ) → Outcome (List ℕ)
pack_w1_from i off r [] = ok r
pack_w1_from i off r (p ∷ ps) = do
  let off' = off + i * poly_w1_packed_bytes
  r' ← write_at r off' (poly_w1_pack p)
  pack_w1_from (suc i) off' r' ps

-- `reject` is ERR_INVALID_LENGTH.
unfoldable pub poly_vec_k_pack_w1 : (r : List ℕ) → (r_len : ℕ) → List (List ℕ) → Outcome (List ℕ)
poly_vec_k_pack_w1 r r_len w1 =
    if not (r_len == 8 * poly_w1_packed_bytes) then reject else pack_w1_from 0 0 r w1
