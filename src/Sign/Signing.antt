-- ===== src/Sign/Signing.antt =====
-- Signing: crypto_sign_optimized of src/mldsa87/sign.c.
use ledger_app_qrl_v.Prelude.{
  ℕ, zero, suc, ◌-◌, ◌*◌, ◌^◌, Bool, true, false, not, Option, none, some, List, [], ◌∷◌, ◌++◌,
  length, take, drop, ltb, ◌==◌, if◌then◌else◌,
}
use ledger_app_qrl_v.Prelude.Fuel.{◌>>=◌}
use ledger_app_qrl_v.Keccak.{Ctx, init}
use ledger_app_qrl_v.Keccak.Hashes.{shake256_absorb, shake256_finalize, shake256_squeeze}
use ledger_app_qrl_v.Rounding.{gamma2}
use ledger_app_qrl_v.Polyvec.{
  poly_vec_l_ntt, poly_vec_k_ntt, poly_vec_l_chk_norm, poly_vec_k_chk_norm,
}
use ledger_app_qrl_v.Signature.{pack_sig_volatile, crypto_bytes, ctilde_bytes, omega_const}
use ledger_app_qrl_v.Sign.{Nvm}
use ledger_app_qrl_v.Sign.Samplers.{poly_challenge_volatile}
use ledger_app_qrl_v.Sign.Volatile.{
  combined_method, poly_vec_k_reduce_volatile, poly_vec_k_inv_ntt_to_mont_volatile,
  poly_vec_k_add_volatile, poly_vec_k_c_addq_volatile, poly_vec_l_uniform_gamma1_volatile,
  poly_vec_l_ntt_volatile, poly_vec_k_ntt_volatile, poly_vec_k_decompose_volatile,
  poly_vec_k_pack_w1_volatile, poly_ntt_volatile, poly_vec_l_pointwise_poly_montgomery_volatile,
  poly_vec_l_inv_ntt_to_mont_volatile, poly_vec_l_add_volatile, poly_vec_l_reduce_volatile,
  poly_vec_k_sub_volatile, poly_vec_k_pointwise_poly_montgomery_volatile,
  poly_vec_k_make_hint_volatile,
}
use ledger_app_qrl_v.Sign.Keys.{Expanded, KeyPair, expand_seed, key_pair}

-- The 8 bytes of CTX in constant.c, with the two bytes that go before them.
abbrev pub pre : List ℕ
pre = 0 ∷ 8 ∷ b'Z' ∷ b'O' ∷ b'N' ∷ b'D' ∷ 0x01 ∷ 0x01 ∷ 0x00 ∷ 0x00 ∷ []

-- The first `n` bytes of SHAKE256 of the parts one behind the other.
abbrev pub absorb_all : Ctx → List (List ℕ) → Ctx
absorb_all ctx [] = ctx
absorb_all ctx (part ∷ parts) = absorb_all (shake256_absorb ctx part) parts

unfoldable pub crh : (n : ℕ) → List (List ℕ) → List ℕ
crh n parts = (shake256_squeeze (shake256_finalize (absorb_all init parts)) n).0

-- GAMMA1 - BETA and GAMMA2 - BETA.
abbrev pub z_bound : ℕ
z_bound = 2 ^ 19 - 120

abbrev pub w0_bound : ℕ
w0_bound = gamma2 - 120

-- What an attempt works with: rho, mu and rhoprime, and s1 and s2 transformed.
pub record Secrets : Type 0 where
  pub rho : List ℕ
  pub mu : List ℕ
  pub rho_prime : List ℕ
  pub s1 : List (List ℕ)
  pub s2 : List (List ℕ)

-- From the sampling of y to the hash, which the signature begins with.
unfoldable pub mask_and_hash : (fuel : ℕ) → Secrets → (nonce : ℕ) → Nvm → Option Nvm
mask_and_hash fuel s nonce nvm = do
  let y = poly_vec_l_uniform_gamma1_volatile s.rho_prime nonce
  let z = poly_vec_l_ntt_volatile y
  product ← combined_method fuel nvm.w1 z s.rho
  let w =
      poly_vec_k_c_addq_volatile
        (poly_vec_k_inv_ntt_to_mont_volatile (poly_vec_k_reduce_volatile product))
  let parts = poly_vec_k_decompose_volatile w
  let packed = poly_vec_k_pack_w1_volatile nvm.sig parts.0
  let hash = crh ctilde_bytes (s.mu ∷ take (8 * 128) packed ∷ [])
  some (record nvm {
    y = y;
    z = z;
    w1 = parts.0;
    w0 = parts.1;
    sig = hash ++ drop ctilde_bytes packed;
  })

-- And from the hash to the challenge.
unfoldable pub commit : (fuel : ℕ) → Secrets → (nonce : ℕ) → Nvm → Option Nvm
commit fuel s nonce nvm = do
  masked ← mask_and_hash fuel s nonce nvm
  challenge ← poly_challenge_volatile fuel (take ctilde_bytes masked.sig)
  some (record masked { cp = poly_ntt_volatile challenge })

-- `z = y + c * s1`
unfoldable pub respond : Secrets → Nvm → Nvm
respond s nvm = record nvm {
  z = poly_vec_l_reduce_volatile (
      poly_vec_l_add_volatile
        (poly_vec_l_inv_ntt_to_mont_volatile
          (poly_vec_l_pointwise_poly_montgomery_volatile nvm.cp s.s1))
        nvm.y);
}

-- `w0 = w0 - c * s2`
unfoldable pub subtract_cs2 : Secrets → Nvm → Nvm
subtract_cs2 s nvm =
    let h =
      poly_vec_k_inv_ntt_to_mont_volatile
        (poly_vec_k_pointwise_poly_montgomery_volatile nvm.cp s.s2) in
    record nvm { h = h; w0 = poly_vec_k_reduce_volatile (poly_vec_k_sub_volatile nvm.w0 h) }

-- `h = c * t0`
unfoldable pub compute_ct0 : Nvm → Nvm
compute_ct0 nvm = record nvm {
  h = poly_vec_k_reduce_volatile (
      poly_vec_k_inv_ntt_to_mont_volatile
        (poly_vec_k_pointwise_poly_montgomery_volatile nvm.cp nvm.t0));
}

-- `w0 = w0 + h`, then the hints, with their number.
unfoldable pub compute_hints : Nvm → Nvm × ℕ
compute_hints nvm =
    let w0 = poly_vec_k_add_volatile nvm.w0 nvm.h in
    let (h, number) = poly_vec_k_make_hint_volatile w0 nvm.w1 in
    (record nvm { w0 = w0; h = h }, number)

-- The tests of one attempt, in their order. `false` is `goto rej`; the code is that of
-- pack_sig_volatile.
unfoldable pub conclude : Secrets → Nvm → Nvm × Bool × ℕ
conclude s nvm =
    let a = respond s nvm in
    let b = subtract_cs2 s a in
    let c = compute_ct0 b in
    let (d, number) = compute_hints c in
    let (sig, code) = pack_sig_volatile d.sig crypto_bytes (take ctilde_bytes d.sig) d.z d.h in
    if not (poly_vec_l_chk_norm a.z z_bound == 0)
    then (a, false, 0)
    else if not (poly_vec_k_chk_norm b.w0 w0_bound == 0)
    then (b, false, 0)
    else if not (poly_vec_k_chk_norm c.h gamma2 == 0)
    then (c, false, 0)
    else if ltb omega_const number
    then (d, false, 0)
    else (record d { sig = sig }, true, code)

-- The attempts from the label `rej` on, `rounds` of the 814 being left: ERR_INVALID_SIGNATURE is 10.
unfoldable pub attempts : (fuel rounds : ℕ) → Secrets → (nonce : ℕ) → Nvm → Option (Nvm × ℕ)
attempts fuel zero s nonce nvm = some (nvm, 10)
attempts fuel (suc rounds) s nonce nvm = do
  committed ← commit fuel s nonce nvm
  let (after, done, code) = conclude s committed
  let rest = attempts fuel rounds s (suc nonce) after
  if done then some (after, code) else rest

-- The hashes of a key pair, the random bytes and the message, and the secret vectors transformed.
unfoldable pub secrets_of : Expanded → KeyPair → (rnd message : List ℕ) → Secrets
secrets_of e keys rnd message =
    let tr = crh 64 (keys.nvm.pk ∷ []) in
    let mu = crh 64 (tr ∷ pre ∷ message ∷ []) in
    record {
      rho = e.rho;
      mu = mu;
      rho_prime = crh 64 (e.key ∷ rnd ∷ mu ∷ []);
      s1 = poly_vec_l_ntt keys.s1;
      s2 = poly_vec_k_ntt keys.s2;
    }

-- N_storage at the first attempt: t0 is transformed.
unfoldable pub prepared : KeyPair → Nvm
prepared keys = record keys.nvm { t0 = poly_vec_k_ntt_volatile keys.nvm.t0 }

-- `derived` is what os_derive_bip32_no_throw gives, or none on its error; `rnd` what cx_rng gives.
-- ERR_INVALID_MESSAGE is 9; -1 is the error of the derivation.
unfoldable pub crypto_sign_optimized :
    (fuel : ℕ) → (derived : Option (List ℕ)) → (rnd message : List ℕ) → Nvm → Option (Nvm × ℕ)
crypto_sign_optimized fuel derived rnd message nvm =
    if length message == 0 then some (nvm, 9) else elim derived [
      | none ↦ some (nvm, 2 ^ 32 - 1)
      | some raw_seed ↦ do
        let e = expand_seed (take 32 raw_seed)
        keys ← key_pair fuel e nvm
        attempts fuel 814 (secrets_of e keys rnd message) 0 (prepared keys)
    ]
