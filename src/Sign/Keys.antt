-- ===== src/Sign/Keys.antt =====
-- Key generation: crypto_sign_keypair of src/mldsa87/sign.c, and what signing and verification share
-- with it.
use ledger_app_qrl_v.Prelude.{ℕ, zero, suc, Option, some, List, [], ◌∷◌}
use ledger_app_qrl_v.Prelude.Fuel.{◌>>=◌}
use ledger_app_qrl_v.Keccak.{init}
use ledger_app_qrl_v.Keccak.Hashes.{shake256_absorb, shake256_finalize, shake256_squeeze}
use ledger_app_qrl_v.Polyvec.{poly_vec_l_ntt}
use ledger_app_qrl_v.Sign.{Nvm}
use ledger_app_qrl_v.Sign.Samplers.{poly_uniform_eta}
use ledger_app_qrl_v.Sign.Volatile.{
  combined_method, poly_vec_k_reduce_volatile, poly_vec_k_inv_ntt_to_mont_volatile,
  poly_vec_k_add_volatile, poly_vec_k_c_addq_volatile, poly_vec_k_power2_round_volatile,
  poly_vec_k_power2_round_volatile_keypair, pack_pk_volatile,
}

-- Of polyvec.c: poly_vec_l_uniform_eta and poly_vec_k_uniform_eta, which have 7 and 8 rounds.
unfoldable pub uniform_eta_from :
    (fuel rounds : ℕ) → (seed : List ℕ) → (nonce : ℕ) → Option (List (List ℕ))
uniform_eta_from fuel zero seed nonce = some []
uniform_eta_from fuel (suc rounds) seed nonce = do
  p ← poly_uniform_eta fuel seed nonce
  ps ← uniform_eta_from fuel rounds seed (suc nonce)
  some (p ∷ ps)

unfoldable pub poly_vec_l_uniform_eta :
    (fuel : ℕ) → (seed : List ℕ) → (nonce : ℕ) → Option (List (List ℕ))
poly_vec_l_uniform_eta fuel seed nonce = uniform_eta_from fuel 7 seed nonce

unfoldable pub poly_vec_k_uniform_eta :
    (fuel : ℕ) → (seed : List ℕ) → (nonce : ℕ) → Option (List (List ℕ))
poly_vec_k_uniform_eta fuel seed nonce = uniform_eta_from fuel 8 seed nonce

pub record Expanded : Type 0 where
  pub rho : List ℕ
  pub rho_prime : List ℕ
  pub key : List ℕ

-- The 32 bytes of the seed expanded into rho, rhoPrime and key.
unfoldable pub expand_seed : List ℕ → Expanded
expand_seed seed =
    let ctx = shake256_finalize (shake256_absorb (shake256_absorb init seed) (8 ∷ 7 ∷ [])) in
    let (rho, ctx1) = shake256_squeeze ctx 32 in
    let (rho_prime, ctx2) = shake256_squeeze ctx1 64 in
    let (key, ctx3) = shake256_squeeze ctx2 32 in
    record { rho = rho; rho_prime = rho_prime; key = key }

-- t = A * s1 + s2, before it is rounded: from the matrix-vector multiplication to c_addq.
unfoldable pub public_vector :
    (fuel : ℕ) → (t1 s1 s2 : List (List ℕ)) → (rho : List ℕ) → Option (List (List ℕ))
public_vector fuel t1 s1 s2 rho = do
  product ← combined_method fuel t1 (poly_vec_l_ntt s1) rho
  let summed =
      poly_vec_k_add_volatile
        (poly_vec_k_inv_ntt_to_mont_volatile (poly_vec_k_reduce_volatile product)) s2
  some (poly_vec_k_c_addq_volatile summed)

-- No step of key generation returns an error.
unfoldable pub crypto_sign_keypair : (fuel : ℕ) → (seed : List ℕ) → Nvm → Option (Nvm × ℕ)
crypto_sign_keypair fuel seed nvm = do
  let e = expand_seed seed
  s1 ← poly_vec_l_uniform_eta fuel e.rho_prime 0
  s2 ← poly_vec_k_uniform_eta fuel e.rho_prime 7
  t ← public_vector fuel nvm.t1 s1 s2 e.rho
  let t1 = poly_vec_k_power2_round_volatile_keypair t
  some (record nvm { t1 = t1; pk = pack_pk_volatile e.rho t1 }, 0)

-- The secret vectors, and N_storage with t1, t0 and the public key: what crypto_sign_optimized and
-- crypto_verify_optimized compute first.
pub record KeyPair : Type 0 where
  pub s1 : List (List ℕ)
  pub s2 : List (List ℕ)
  pub nvm : Nvm

unfoldable pub key_pair : (fuel : ℕ) → Expanded → Nvm → Option KeyPair
key_pair fuel e nvm = do
  s1 ← poly_vec_l_uniform_eta fuel e.rho_prime 0
  s2 ← poly_vec_k_uniform_eta fuel e.rho_prime 7
  t ← public_vector fuel nvm.t1 s1 s2 e.rho
  let rounded = poly_vec_k_power2_round_volatile t
  let stored = record nvm { t1 = rounded.0; t0 = rounded.1; pk = pack_pk_volatile e.rho rounded.0 }
  some (record { s1 = s1; s2 = s2; nvm = stored })
