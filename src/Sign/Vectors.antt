-- ===== src/Sign/Vectors.antt =====
-- The vectors that key generation and signing compute have their polynomials: src/mldsa87/sign.c.
use mathlib.Core.Option.{some_inj}
use ledger_app_qrl_v.Prelude.{
  ℕ, zero, suc, ◌+◌, ◌*◌, ◌%◌, ◌^◌, ◌≡◌, ◌∙◌, ap, sym, refl, arith, some, List, [], ◌∷◌, All,
  length, map, length-map, Bool, ◌==◌, if◌then◌else◌, true, false,
}
use ledger_app_qrl_v.Prelude.Fuel.{>>=-eq-some}
use ledger_app_qrl_v.Reduce.{reduce_32, c_addq, montgomery_reduce}
use ledger_app_qrl_v.Word32.{mul64, add32}
use ledger_app_qrl_v.Rounding.{power2_round}
use ledger_app_qrl_v.Polyvec.{poly_vec_l_ntt}
use ledger_app_qrl_v.Poly.Arith.{poly_ntt}
use ledger_app_qrl_v.Ntt.{ntt, inv_ntt_to_mont}
use ledger_app_qrl_v.Sign.{Nvm}
use ledger_app_qrl_v.Sign.Samplers.{poly_uniform_eta, matrix_poly}
use ledger_app_qrl_v.Sign.Volatile.{
  combined_row, combined_rows, combined_method, poly_vec_k_reduce_volatile,
  poly_vec_k_inv_ntt_to_mont_volatile, poly_vec_k_add_volatile, poly_vec_k_c_addq_volatile,
  poly_vec_k_power2_round_volatile, uniform_gamma1_from,
}
use ledger_app_qrl_v.Sign.Keys.{
  uniform_eta_from, poly_vec_l_uniform_eta, poly_vec_k_uniform_eta, Expanded, public_vector,
  KeyPair, key_pair,
}
use ledger_app_qrl_v.Sign.Shapes.{
  IsVec, length-zip_with, map-IsVec, zip_with-IsVec, length-ntt, length-inv_ntt_to_mont,
}
use ledger_app_qrl_v.Sign.Lengths.{
  length-poly_uniform_eta, length-matrix_poly, length-poly_uniform_gamma1,
}

uniform_eta_from-IsVec :
    (fuel n : ℕ) (seed : List ℕ) (nonce : ℕ) (v : List (List ℕ))
    → uniform_eta_from fuel n seed nonce ≡ some v
    → IsVec n v
unfolding uniform_eta_from
uniform_eta_from-IsVec fuel zero seed nonce v e = rw (← some_inj.0 e) (refl, tt)
uniform_eta_from-IsVec fuel (suc n) seed nonce v e =
    let (p, ep, e1) = >>=-eq-some (poly_uniform_eta fuel seed nonce) _ e in
    let (ps, eps, e2) = >>=-eq-some (uniform_eta_from fuel n seed (suc nonce)) _ e1 in
    let (l, rest) = uniform_eta_from-IsVec fuel n seed (suc nonce) ps eps in
    rw (← some_inj.0 e2) (ap suc l, (length-poly_uniform_eta fuel seed nonce p ep, rest))

pub uniform_gamma1_from-IsVec :
    (n j : ℕ) (seed : List ℕ) (nonce : ℕ) → IsVec n (uniform_gamma1_from n j seed nonce)
unfolding uniform_gamma1_from
uniform_gamma1_from-IsVec zero j seed nonce = (refl, tt)
uniform_gamma1_from-IsVec (suc n) j seed nonce =
    let (l, rest) = uniform_gamma1_from-IsVec n (suc j) seed nonce in
    (ap suc l, (length-poly_uniform_gamma1 seed ((7 * nonce + j) % 2 ^ 16), rest))

abbrev AllWhole : List (List ℕ) → Type 0
AllWhole v = All (λ p. length p ≡ 256) v

length-if :
    (b : Bool) (x y : List ℕ) → length x ≡ 256 → length y ≡ 256 → length (if b then x else y) ≡ 256
length-if true x y hx hy = hx
length-if false x y hx hy = hy

-- From a polynomial of 256 coefficients on, and, at the first entry, from any.
length-combined_row :
    (fuel : ℕ) (rho : List ℕ) (i j : ℕ) (ss : List (List ℕ)) (temp p : List ℕ)
    → AllWhole ss
    → length temp ≡ 256
    → combined_row fuel rho i j ss temp ≡ some p
    → length p ≡ 256
unfolding combined_row
length-combined_row fuel rho i j [] temp p h l e = ap length (sym (some_inj.0 e)) ∙ l
length-combined_row fuel rho i j (s ∷ ss) temp p h l e =
    let (entry, en, e') = >>=-eq-some (matrix_poly fuel rho ((i * 256 + j) % 2 ^ 16)) _ e in
    let product =
      length-zip_with (λ x y. montgomery_reduce (mul64 x y)) 256 entry s
        (length-matrix_poly fuel rho _ entry en) h.0 in
    length-combined_row fuel rho i (suc j) ss _ p h.1
      (length-if (j == 0) _ _ product (length-zip_with add32 256 temp _ l product)) e'

length-combined_row_start :
    (fuel : ℕ) (rho : List ℕ) (i : ℕ) (s : List ℕ) (ss : List (List ℕ)) (temp p : List ℕ)
    → AllWhole (s ∷ ss)
    → combined_row fuel rho i 0 (s ∷ ss) temp ≡ some p
    → length p ≡ 256
unfolding combined_row
length-combined_row_start fuel rho i s ss temp p h e =
    let (entry, en, e') = >>=-eq-some (matrix_poly fuel rho ((i * 256 + 0) % 2 ^ 16)) _ e in
    let product =
      length-zip_with (λ x y. montgomery_reduce (mul64 x y)) 256 entry s
        (length-matrix_poly fuel rho _ entry en) h.0 in
    length-combined_row fuel rho i 1 ss _ p h.1 product e'

combined_rows-IsVec :
    (fuel n : ℕ) (rho : List ℕ) (i : ℕ) (t1 s v : List (List ℕ))
    → length t1 ≡ n
    → IsVec 7 s
    → combined_rows fuel rho i t1 s ≡ some v
    → IsVec n v
unfolding combined_rows
combined_rows-IsVec fuel n rho i [] s v l h e = rw (← some_inj.0 e) (l, tt)
combined_rows-IsVec fuel zero rho i (t ∷ t1) s v l h e = absurd (omega arith)
combined_rows-IsVec fuel (suc n) rho i (t ∷ t1) [] v l h e = absurd (omega (arith, h.0))
combined_rows-IsVec fuel (suc n) rho i (t ∷ t1) (s ∷ ss) v l h e =
    let (row, er, e1) = >>=-eq-some (combined_row fuel rho i 0 (s ∷ ss) t) _ e in
    let (rows, ers, e2) = >>=-eq-some (combined_rows fuel rho (suc i) t1 (s ∷ ss)) _ e1 in
    let (len, rest) = combined_rows-IsVec fuel n rho (suc i) t1 (s ∷ ss) rows (omega arith) h ers in
    rw (← some_inj.0 e2)
      (ap suc len, (length-combined_row_start fuel rho i s ss t row h.1 er, rest))

pub combined_method-IsVec :
    (fuel : ℕ) (t1 s v : List (List ℕ)) (rho : List ℕ)
    → length t1 ≡ 8
    → IsVec 7 s
    → combined_method fuel t1 s rho ≡ some v
    → IsVec 8 v
unfolding combined_method
combined_method-IsVec fuel t1 s v rho l h e = combined_rows-IsVec fuel 8 rho 0 t1 s v l h e

-- A coefficient by coefficient change.
pub map_each-IsVec : (f : ℕ → ℕ) (n : ℕ) (v : List (List ℕ)) → IsVec n v → IsVec n (map (map f) v)
map_each-IsVec f n v h = map-IsVec (map f) n v (λ p l. length-map p f ∙ l) h

public_vector-IsVec :
    (fuel : ℕ) (t1 s1 s2 v : List (List ℕ)) (rho : List ℕ)
    → length t1 ≡ 8
    → IsVec 7 s1
    → IsVec 8 s2
    → public_vector fuel t1 s1 s2 rho ≡ some v
    → IsVec 8 v
unfolding public_vector poly_vec_l_ntt poly_ntt poly_vec_k_add_volatile
    poly_vec_k_inv_ntt_to_mont_volatile poly_vec_k_reduce_volatile poly_vec_k_c_addq_volatile
public_vector-IsVec fuel t1 s1 s2 v rho l h1 h2 e =
    let (product, ep, e') = >>=-eq-some (combined_method fuel t1 (poly_vec_l_ntt s1) rho) _ e in
    let hp = combined_method-IsVec fuel t1 _ product rho l (map-IsVec ntt 7 s1 length-ntt h1) ep in
    let reduced = map_each-IsVec reduce_32 8 product hp in
    let inverted = map-IsVec inv_ntt_to_mont 8 _ length-inv_ntt_to_mont reduced in
    rw (← some_inj.0 e') (map_each-IsVec c_addq 8 _ (zip_with-IsVec add32 8 _ s2 inverted h2))

-- The vectors of a key pair.
pub key_pair-IsVec :
    (fuel : ℕ) (e : Expanded) (nvm : Nvm) (keys : KeyPair)
    → length nvm.t1 ≡ 8
    → key_pair fuel e nvm ≡ some keys
    → IsVec 7 keys.s1 × IsVec 8 keys.s2 × IsVec 8 keys.nvm.t0 × (keys.nvm.w1 ≡ nvm.w1)
unfolding key_pair poly_vec_l_uniform_eta poly_vec_k_uniform_eta poly_vec_k_power2_round_volatile
key_pair-IsVec fuel e nvm keys l eq =
    let (s1, e1, r1) = >>=-eq-some (poly_vec_l_uniform_eta fuel e.rho_prime 0) _ eq in
    let (s2, e2, r2) = >>=-eq-some (poly_vec_k_uniform_eta fuel e.rho_prime 7) _ r1 in
    let (t, et, r3) = >>=-eq-some (public_vector fuel nvm.t1 s1 s2 e.rho) _ r2 in
    let h1 = uniform_eta_from-IsVec fuel 7 e.rho_prime 0 s1 e1 in
    let h2 = uniform_eta_from-IsVec fuel 8 e.rho_prime 7 s2 e2 in
    let ht = public_vector-IsVec fuel nvm.t1 s1 s2 t e.rho l h1 h2 et in
    rw (← some_inj.0 r3) (h1, h2, map_each-IsVec (λ c. (power2_round c).1) 8 t ht, refl)
