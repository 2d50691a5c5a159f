-- ===== src/Sign/Volatile.antt =====
-- The routines of src/mldsa87/sign.c on vectors that stand in NVM. Each copies a polynomial to RAM,
-- changes its coefficients by the inlined code of poly.c, rounding.c or reduce.c and writes it back.
use ledger_app_qrl_v.Prelude.{
  ℕ, zero, suc, ◌+◌, ◌*◌, ◌%◌, ◌^◌, Option, some, List, [], ◌∷◌, ◌++◌, length, map, zip_with, drop,
  ◌==◌, if◌then◌else◌,
}
use ledger_app_qrl_v.Prelude.Fuel.{◌>>=◌}
use ledger_app_qrl_v.Word32.{add32, sub32, mul32, mul64}
use ledger_app_qrl_v.Reduce.{montgomery_reduce, reduce_32, c_addq}
use ledger_app_qrl_v.Rounding.{power2_round, decompose, make_hint, use_hint}
use ledger_app_qrl_v.Ntt.{ntt, inv_ntt_to_mont}
use ledger_app_qrl_v.Poly.{poly_t1_pack, poly_w1_pack}
use ledger_app_qrl_v.Poly.Arith.{sum32}
use ledger_app_qrl_v.Sign.Samplers.{poly_uniform_gamma1, matrix_poly}

unfoldable pub poly_vec_k_reduce_volatile : List (List ℕ) → List (List ℕ)
poly_vec_k_reduce_volatile v = map (map reduce_32) v

unfoldable pub poly_vec_k_inv_ntt_to_mont_volatile : List (List ℕ) → List (List ℕ)
poly_vec_k_inv_ntt_to_mont_volatile v = map inv_ntt_to_mont v

unfoldable pub poly_vec_k_add_volatile : (w v : List (List ℕ)) → List (List ℕ)
poly_vec_k_add_volatile w v = zip_with (zip_with add32) w v

unfoldable pub poly_vec_k_ntt_volatile : List (List ℕ) → List (List ℕ)
poly_vec_k_ntt_volatile v = map ntt v

unfoldable pub poly_vec_k_c_addq_volatile : List (List ℕ) → List (List ℕ)
poly_vec_k_c_addq_volatile v = map (map c_addq) v

-- `v1` and `v0`, each in a loop of its own.
unfoldable pub poly_vec_k_power2_round_volatile : List (List ℕ) → List (List ℕ) × List (List ℕ)
poly_vec_k_power2_round_volatile v =
    (map (map (λ c. (power2_round c).0)) v, map (map (λ c. (power2_round c).1)) v)

unfoldable pub poly_vec_k_power2_round_volatile_keypair : List (List ℕ) → List (List ℕ)
poly_vec_k_power2_round_volatile_keypair v = map (map (λ c. (power2_round c).0)) v

-- The packed polynomials one behind the other.
unfoldable pub pack_t1 : List (List ℕ) → List ℕ
pack_t1 [] = []
pack_t1 (p ∷ ps) = poly_t1_pack p ++ pack_t1 ps

-- The public key: rho, and t1.
unfoldable pub pack_pk_volatile : (rho : List ℕ) → List (List ℕ) → List ℕ
pack_pk_volatile rho t1 = rho ++ pack_t1 t1

-- The loop on `j` of combined_method: the row `i` of the matrix times the vector. `temp` is the
-- polynomial of the result so far.
unfoldable pub combined_row :
    (fuel : ℕ) → (rho : List ℕ) → (i j : ℕ) → List (List ℕ) → (temp : List ℕ) → Option (List ℕ)
combined_row fuel rho i j [] temp = some temp
combined_row fuel rho i j (s ∷ ss) temp = do
  entry ← matrix_poly fuel rho ((i * 256 + j) % 2 ^ 16)
  let product = zip_with (λ x y. montgomery_reduce (mul64 x y)) entry s
  let sum = zip_with add32 temp product
  combined_row fuel rho i (suc j) ss (if j == 0 then product else sum)

unfoldable pub combined_rows :
    (fuel : ℕ) → (rho : List ℕ) → (i : ℕ) → (t1 s1hat : List (List ℕ)) → Option (List (List ℕ))
combined_rows fuel rho i [] s1hat = some []
combined_rows fuel rho i (t ∷ t1) s1hat = do
  row ← combined_row fuel rho i 0 s1hat t
  rows ← combined_rows fuel rho (suc i) t1 s1hat
  some (row ∷ rows)

unfoldable pub combined_method :
    (fuel : ℕ) → (t1 s1hat : List (List ℕ)) → (rho : List ℕ) → Option (List (List ℕ))
combined_method fuel t1 s1hat rho = combined_rows fuel rho 0 t1 s1hat

-- The polynomials from `j` on, `rounds` of them.
unfoldable pub uniform_gamma1_from : (rounds j : ℕ) → (seed : List ℕ) → (nonce : ℕ) → List (List ℕ)
uniform_gamma1_from zero j seed nonce = []
uniform_gamma1_from (suc rounds) j seed nonce =
    poly_uniform_gamma1 seed ((7 * nonce + j) % 2 ^ 16)
    ∷ uniform_gamma1_from rounds (suc j) seed nonce

unfoldable pub poly_vec_l_uniform_gamma1_volatile : (seed : List ℕ) → (nonce : ℕ) → List (List ℕ)
poly_vec_l_uniform_gamma1_volatile seed nonce = uniform_gamma1_from 7 0 seed nonce

unfoldable pub poly_vec_l_ntt_volatile : List (List ℕ) → List (List ℕ)
poly_vec_l_ntt_volatile v = map ntt v

-- `v1` and `v0`, each in a loop of its own.
unfoldable pub poly_vec_k_decompose_volatile : List (List ℕ) → List (List ℕ) × List (List ℕ)
poly_vec_k_decompose_volatile v =
    (map (map (λ c. (decompose c).0)) v, map (map (λ c. (decompose c).1)) v)

unfoldable pub pack_w1 : List (List ℕ) → List ℕ
pack_w1 [] = []
pack_w1 (p ∷ ps) = poly_w1_pack p ++ pack_w1 ps

-- The packed polynomials, written over the front of `r`.
unfoldable pub poly_vec_k_pack_w1_volatile : (r : List ℕ) → (w1 : List (List ℕ)) → List ℕ
poly_vec_k_pack_w1_volatile r w1 = pack_w1 w1 ++ drop (length (pack_w1 w1)) r

unfoldable pub poly_vec_k_pack_w1_volatile_verify : (r : List ℕ) → (w1 : List (List ℕ)) → List ℕ
poly_vec_k_pack_w1_volatile_verify r w1 = pack_w1 w1 ++ drop (length (pack_w1 w1)) r

unfoldable pub poly_vec_l_pointwise_poly_montgomery_volatile :
    (a : List ℕ) → (v : List (List ℕ)) → List (List ℕ)
poly_vec_l_pointwise_poly_montgomery_volatile a v =
    map (zip_with (λ x y. montgomery_reduce (mul64 x y)) a) v

unfoldable pub poly_vec_l_inv_ntt_to_mont_volatile : List (List ℕ) → List (List ℕ)
poly_vec_l_inv_ntt_to_mont_volatile v = map inv_ntt_to_mont v

unfoldable pub poly_vec_l_add_volatile : (w v : List (List ℕ)) → List (List ℕ)
poly_vec_l_add_volatile w v = zip_with (zip_with add32) w v

unfoldable pub poly_vec_l_reduce_volatile : List (List ℕ) → List (List ℕ)
poly_vec_l_reduce_volatile v = map (map reduce_32) v

unfoldable pub poly_vec_k_sub_volatile : (u v : List (List ℕ)) → List (List ℕ)
poly_vec_k_sub_volatile u v = zip_with (zip_with sub32) u v

unfoldable pub poly_vec_k_pointwise_poly_montgomery_volatile :
    (a : List ℕ) → (v : List (List ℕ)) → List (List ℕ)
poly_vec_k_pointwise_poly_montgomery_volatile a v =
    map (zip_with (λ x y. montgomery_reduce (mul64 x y)) a) v

unfoldable pub poly_ntt_volatile : List ℕ → List ℕ
poly_ntt_volatile a = ntt a

-- `h`, and the number that is returned.
unfoldable pub poly_vec_k_make_hint_volatile : (v0 v1 : List (List ℕ)) → List (List ℕ) × ℕ
poly_vec_k_make_hint_volatile [] v1 = ([], 0)
poly_vec_k_make_hint_volatile (a0 ∷ v0) [] = ([], 0)
poly_vec_k_make_hint_volatile (a0 ∷ v0) (a1 ∷ v1) =
    let row = zip_with make_hint a0 a1 in
    let (rows, s) = poly_vec_k_make_hint_volatile v0 v1 in (row ∷ rows, (sum32 row + s) % 2 ^ 32)

unfoldable pub poly_vec_k_shift_l_volatile : List (List ℕ) → List (List ℕ)
poly_vec_k_shift_l_volatile v = map (map (λ c. mul32 c (2 ^ 13))) v

unfoldable pub poly_vec_k_use_hint_volatile : (u h : List (List ℕ)) → List (List ℕ)
poly_vec_k_use_hint_volatile u h = zip_with (zip_with use_hint) u h
