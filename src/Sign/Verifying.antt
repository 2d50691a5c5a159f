-- ===== src/Sign/Verifying.antt =====
-- Verification: crypto_verify_optimized of src/mldsa87/sign.c.
use ledger_app_qrl_v.Prelude.{
  ℕ, ◌-◌, ◌*◌, ◌^◌, Bool, true, false, not, ◌&&◌, Option, none, some, List, [], ◌∷◌, length, take,
  ◌==◌, if◌then◌else◌,
}
use ledger_app_qrl_v.Prelude.Fuel.{◌>>=◌}
use ledger_app_qrl_v.Polyvec.{poly_vec_l_chk_norm}
use ledger_app_qrl_v.Signature.{unpack_sig_volatile, crypto_bytes, ctilde_bytes}
use ledger_app_qrl_v.Sign.{Nvm}
use ledger_app_qrl_v.Sign.Samplers.{poly_challenge_volatile}
use ledger_app_qrl_v.Sign.Volatile.{
  combined_method, poly_vec_k_reduce_volatile, poly_vec_k_inv_ntt_to_mont_volatile,
  poly_vec_k_c_addq_volatile, poly_vec_l_ntt_volatile, poly_vec_k_ntt_volatile, poly_ntt_volatile,
  poly_vec_k_sub_volatile, poly_vec_k_pointwise_poly_montgomery_volatile,
  poly_vec_k_shift_l_volatile, poly_vec_k_use_hint_volatile, poly_vec_k_pack_w1_volatile_verify,
}
use ledger_app_qrl_v.Sign.Keys.{expand_seed, key_pair}
use ledger_app_qrl_v.Sign.Signing.{pre, crh, z_bound}

-- Whether two hashes of 64 bytes are equal, byte by byte.
unfoldable pub same_bytes : List ℕ → List ℕ → Bool
same_bytes [] [] = true
same_bytes (x ∷ xs) (y ∷ ys) = x == y && same_bytes xs ys
same_bytes _ _ = false

-- From the challenge to the second hash: w1 is computed from z, c, t1 and the hints.
unfoldable pub hash_again : (fuel : ℕ) → (rho mu c : List ℕ) → Nvm → Option (Nvm × List ℕ)
hash_again fuel rho mu c nvm = do
  challenge ← poly_challenge_volatile fuel c
  let z = poly_vec_l_ntt_volatile nvm.z
  product ← combined_method fuel nvm.w1 z rho
  let cp = poly_ntt_volatile challenge
  let t1 =
      poly_vec_k_pointwise_poly_montgomery_volatile cp
        (poly_vec_k_ntt_volatile (poly_vec_k_shift_l_volatile nvm.t1))
  let w = poly_vec_k_c_addq_volatile (
      poly_vec_k_inv_ntt_to_mont_volatile
        (poly_vec_k_reduce_volatile (poly_vec_k_sub_volatile product t1)))
  let w1 = poly_vec_k_use_hint_volatile w nvm.h
  let buf = poly_vec_k_pack_w1_volatile_verify nvm.buf_verify w1
  let c2 = crh ctilde_bytes (mu ∷ take (8 * 128) buf ∷ [])
  some (record nvm { z = z; cp = cp; t1 = t1; w1 = w1; buf_verify = buf }, c2)

-- The hash of the signature is compared with it.
unfoldable pub recompute : (fuel : ℕ) → (rho mu c : List ℕ) → Nvm → Option (Nvm × Bool)
recompute fuel rho mu c nvm = do
  (after, c2) ← hash_again fuel rho mu c nvm
  some (after, same_bytes c c2)

-- The signature is unpacked, its z is tested, and then it is compared.
unfoldable pub check_signature : (fuel : ℕ) → (rho message sig : List ℕ) → Nvm → Option (Nvm × Bool)
check_signature fuel rho message sig nvm =
    let (c, z, h, code) = unpack_sig_volatile nvm.h sig in
    let unpacked = record nvm { z = z; h = h } in
    let tr = crh 64 (nvm.pk ∷ []) in
    let mu = crh 64 (tr ∷ pre ∷ message ∷ []) in
    if not (code == 0)
    then some (unpacked, false)
    else if not (poly_vec_l_chk_norm z z_bound == 0)
    then some (unpacked, false)
    else recompute fuel rho mu c unpacked

-- The error code and `*is_verified`: ERR_INVALID_MESSAGE is 9, ERR_INVALID_SIGNATURE is 10.
unfoldable pub crypto_verify_optimized :
    (fuel : ℕ)
    → (derived : Option (List ℕ)) → (sig message : List ℕ) → Nvm
    → Option (Nvm × ℕ × Bool)
crypto_verify_optimized fuel derived sig message nvm =
    if length sig == 0
    then some (nvm, 10, false)
    else if length message == 0
    then some (nvm, 9, false)
    else if not (length sig == crypto_bytes)
    then some (nvm, 10, false)
    else elim derived [
      | none ↦ some (nvm, 2 ^ 32 - 1, false)
      | some raw_seed ↦ do
        let e = expand_seed (take 32 raw_seed)
        keys ← key_pair fuel e nvm
        (after, verified) ← check_signature fuel e.rho message sig keys.nvm
        some (after, 0, verified)
    ]
