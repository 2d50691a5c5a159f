-- ===== src/Sign/Attempt.antt =====
-- One attempt to sign: what it leaves in N_storage, of crypto_sign_optimized in src/mldsa87/sign.c.
use mathlib.Core.Option.{some_inj}
use ledger_app_qrl_v.Prelude.{
  ℕ, ◌≤◌, ◌≡◌, refl, arith, some, List, ◌++◌, length, length-append, length-take, zip_with, take,
  ltb, ltb_false→ge, ◌==◌, ==_iff, true, false, Bool-cases, ◌⊎◌, inl, inr,
}
use ledger_app_qrl_v.Prelude.Fuel.{>>=-eq-some}
use ledger_app_qrl_v.Word32.{add32, sub32, mul64}
use ledger_app_qrl_v.Reduce.{reduce_32, c_addq, montgomery_reduce}
use ledger_app_qrl_v.Rounding.{gamma2, decompose}
use ledger_app_qrl_v.Ntt.{ntt, inv_ntt_to_mont}
use ledger_app_qrl_v.Polyvec.{poly_vec_l_chk_norm, poly_vec_k_chk_norm}
use ledger_app_qrl_v.Signature.{pack_sig_volatile, unpack_sig_volatile, crypto_bytes, omega_const}
use ledger_app_qrl_v.Signature.Encoding.{flat}
use ledger_app_qrl_v.Signature.RoundTrip.{AreHints}
use ledger_app_qrl_v.Signature.Whole.{AreZ, unpack_sig_volatile-pack_sig_volatile}
use ledger_app_qrl_v.Sign.{Nvm}
use ledger_app_qrl_v.Sign.Samplers.{poly_challenge_volatile}
use ledger_app_qrl_v.Sign.Volatile.{
  combined_method, poly_vec_k_reduce_volatile, poly_vec_k_inv_ntt_to_mont_volatile,
  poly_vec_k_add_volatile, poly_vec_k_c_addq_volatile, poly_vec_l_uniform_gamma1_volatile,
  poly_vec_l_ntt_volatile, poly_vec_k_decompose_volatile, poly_ntt_volatile,
  poly_vec_l_pointwise_poly_montgomery_volatile, poly_vec_l_inv_ntt_to_mont_volatile,
  poly_vec_l_add_volatile, poly_vec_l_reduce_volatile, poly_vec_k_sub_volatile,
  poly_vec_k_pointwise_poly_montgomery_volatile,
}
use ledger_app_qrl_v.Sign.Signing.{
  Secrets, crh, z_bound, w0_bound, mask_and_hash, commit, respond, subtract_cs2, compute_ct0,
  compute_hints, conclude,
}
use ledger_app_qrl_v.Sign.Shapes.{
  IsVec, length-zip_with, map-IsVec, zip_with-IsVec, length-ntt, length-inv_ntt_to_mont,
}
use ledger_app_qrl_v.Sign.Lengths.{length-shake256_squeeze, length-poly_challenge_volatile}
use ledger_app_qrl_v.Sign.Vectors.{uniform_gamma1_from-IsVec, combined_method-IsVec, map_each-IsVec}
use ledger_app_qrl_v.Sign.Hinted.{make_hint_volatile-AreHints, chk_norm-AreZ}

-- The signature is unpacked, without an error and where h held `old`, to the z and the hints in
-- N_storage; and z passes the test of its norm.
abbrev pub IsAccepted : (old : List (List ℕ)) → Nvm → Type 0
IsAccepted old nvm =
    (poly_vec_l_chk_norm nvm.z z_bound ≡ 0)
    × ((c : List ℕ) × (unpack_sig_volatile old nvm.sig ≡ (c, nvm.z, nvm.h, 0)))

pub record AreSecrets (s : Secrets) : Type 0 where
  pub s1 : IsVec 7 s.s1
  pub s2 : IsVec 8 s.s2

-- N_storage at the start of an attempt.
pub record IsReady (nvm : Nvm) : Type 0 where
  pub w1 : length nvm.w1 ≡ 8
  pub t0 : IsVec 8 nvm.t0

pub record IsCommitted (nvm : Nvm) : Type 0 where
  pub w1 : IsVec 8 nvm.w1
  pub w0 : IsVec 8 nvm.w0
  pub y : IsVec 7 nvm.y
  pub t0 : IsVec 8 nvm.t0
  pub cp : length nvm.cp ≡ 256
  pub sig : 64 ≤ length nvm.sig

hash_front : (parts : List (List ℕ)) (rest : List ℕ) → 64 ≤ length (crh 64 parts ++ rest)
unfolding crh
hash_front parts rest =
    omega (arith, length-append (crh 64 parts) rest, length-shake256_squeeze _ 64)

-- N_storage once the hash is taken.
record IsMasked (nvm : Nvm) : Type 0 where
  w1 : IsVec 8 nvm.w1
  w0 : IsVec 8 nvm.w0
  y : IsVec 7 nvm.y
  t0 : IsVec 8 nvm.t0
  sig : 64 ≤ length nvm.sig

mask_and_hash-IsMasked :
    (fuel : ℕ) (s : Secrets) (nonce : ℕ) (nvm masked : Nvm)
    → IsReady nvm
    → mask_and_hash fuel s nonce nvm ≡ some masked
    → IsMasked masked
unfolding mask_and_hash poly_vec_l_uniform_gamma1_volatile poly_vec_l_ntt_volatile
    poly_vec_k_decompose_volatile poly_vec_k_c_addq_volatile poly_vec_k_inv_ntt_to_mont_volatile
    poly_vec_k_reduce_volatile
mask_and_hash-IsMasked fuel s nonce nvm masked r e =
    let hy = uniform_gamma1_from-IsVec 7 0 s.rho_prime nonce in
    let (product, ep, e1) = >>=-eq-some (combined_method fuel nvm.w1 _ s.rho) _ e in
    let hp =
      combined_method-IsVec fuel nvm.w1 _ product s.rho r.w1 (map-IsVec ntt 7 _ length-ntt hy) ep in
    let hw = map_each-IsVec c_addq 8 _ (
      map-IsVec inv_ntt_to_mont 8 _ length-inv_ntt_to_mont
        (map_each-IsVec reduce_32 8 product hp)) in
    rw (← some_inj.0 e1) (record {
      w1 = map_each-IsVec (λ c. (decompose c).0) 8 _ hw;
      w0 = map_each-IsVec (λ c. (decompose c).1) 8 _ hw;
      y = hy;
      t0 = r.t0;
      sig = hash_front _ _;
    })

pub commit-IsCommitted :
    (fuel : ℕ) (s : Secrets) (nonce : ℕ) (nvm after : Nvm)
    → IsReady nvm
    → commit fuel s nonce nvm ≡ some after
    → IsCommitted after
unfolding commit poly_ntt_volatile
commit-IsCommitted fuel s nonce nvm after r e =
    let (masked, em, e1) = >>=-eq-some (mask_and_hash fuel s nonce nvm) _ e in
    let h = mask_and_hash-IsMasked fuel s nonce nvm masked r em in
    let (challenge, ec, e2) = >>=-eq-some (poly_challenge_volatile fuel _) _ e1 in
    let lc = length-poly_challenge_volatile fuel _ challenge ec in
    rw (← some_inj.0 e2) (record {
      w1 = h.w1;
      w0 = h.w0;
      y = h.y;
      t0 = h.t0;
      cp = length-ntt challenge lc;
      sig = h.sig;
    })

-- `z = y + c * s1` has its seven polynomials, reduced.
respond-IsVec :
    (s : Secrets) (nvm : Nvm) → AreSecrets s → IsCommitted nvm → IsVec 7 (respond s nvm).z
unfolding respond poly_vec_l_reduce_volatile poly_vec_l_add_volatile
    poly_vec_l_inv_ntt_to_mont_volatile poly_vec_l_pointwise_poly_montgomery_volatile
respond-IsVec s nvm hs h =
    let product =
      map-IsVec (zip_with (λ x y. montgomery_reduce (mul64 x y)) nvm.cp) 7 s.s1
        (λ p l. length-zip_with _ 256 nvm.cp p h.cp l) hs.s1 in
    let inverted = map-IsVec inv_ntt_to_mont 7 _ length-inv_ntt_to_mont product in
    map_each-IsVec reduce_32 7 _ (zip_with-IsVec add32 7 _ nvm.y inverted h.y)

respond-AreZ :
    (s : Secrets) (nvm : Nvm)
    → AreSecrets s
    → IsCommitted nvm
    → poly_vec_l_chk_norm (respond s nvm).z z_bound ≡ 0
    → AreZ (respond s nvm).z
unfolding respond poly_vec_l_reduce_volatile
respond-AreZ s nvm hs h e = chk_norm-AreZ 7 _ (respond-IsVec s nvm hs h) e

-- The last N_storage of an attempt.
abbrev hinted : Secrets → Nvm → Nvm × ℕ
hinted s nvm = compute_hints (compute_ct0 (subtract_cs2 s (respond s nvm)))

hinted-AreHints :
    (s : Secrets) (nvm : Nvm)
    → AreSecrets s
    → IsCommitted nvm
    → AreHints (hinted s nvm).0.h
      × (length (hinted s nvm).0.h ≡ 8)
      × ((hinted s nvm).1 ≡ length (flat (hinted s nvm).0.h))
unfolding compute_hints compute_ct0 subtract_cs2 respond poly_vec_k_add_volatile
    poly_vec_k_reduce_volatile poly_vec_k_sub_volatile poly_vec_k_inv_ntt_to_mont_volatile
    poly_vec_k_pointwise_poly_montgomery_volatile
hinted-AreHints s nvm hs h =
    let times = λ (v : List (List ℕ)) (hv : IsVec 8 v).
      map-IsVec inv_ntt_to_mont 8 _ length-inv_ntt_to_mont (
        map-IsVec (zip_with (λ x y. montgomery_reduce (mul64 x y)) nvm.cp) 8 v
          (λ p l. length-zip_with _ 256 nvm.cp p h.cp l) hv) in
    let w0 =
      map_each-IsVec reduce_32 8 _ (zip_with-IsVec sub32 8 nvm.w0 _ h.w0 (times s.s2 hs.s2)) in
    let sum = zip_with-IsVec add32 8 _ _ w0 (map_each-IsVec reduce_32 8 _ (times nvm.t0 h.t0)) in
    let (hints, len, number, small) =
      make_hint_volatile-AreHints 8 _ nvm.w1 (omega arith) sum h.w1 in
    (hints, len, number)

-- What an attempt that passes all tests leaves.
hinted-IsAccepted :
    (old : List (List ℕ)) (s : Secrets) (nvm : Nvm)
    → length old ≡ 8
    → AreSecrets s
    → IsCommitted nvm
    → poly_vec_l_chk_norm (respond s nvm).z z_bound ≡ 0
    → (hinted s nvm).1 ≤ 75
    → IsAccepted old (record (hinted s nvm).0 {
      sig =
          (pack_sig_volatile
            (hinted s nvm).0.sig
            crypto_bytes
            (take 64 (hinted s nvm).0.sig)
            (hinted s nvm).0.z
            (hinted s nvm).0.h).0;
    })
unfolding compute_hints compute_ct0 subtract_cs2 respond
hinted-IsAccepted old s nvm lo hs h short few =
    let (hints, len, number) = hinted-AreHints s nvm hs h in
    let (seven, _) = respond-IsVec s nvm hs h in
    let hash : length (take 64 nvm.sig) ≡ 64 = omega (arith, length-take 64 nvm.sig, h.sig) in
    (
      short,
      (
        take 64 nvm.sig,
        unpack_sig_volatile-pack_sig_volatile nvm.sig (take 64 nvm.sig) (respond s nvm).z
            (hinted s nvm).0.h old hash (respond-AreZ s nvm hs h short) seven hints len
            (omega (arith, few, number)) lo,
      ),
    )

-- No step of an attempt changes what the next one needs.
stages-IsReady :
    (s : Secrets) (nvm : Nvm)
    → IsCommitted nvm
    → IsReady (respond s nvm)
      × IsReady (subtract_cs2 s (respond s nvm))
      × IsReady (compute_ct0 (subtract_cs2 s (respond s nvm)))
      × IsReady (hinted s nvm).0
unfolding compute_hints compute_ct0 subtract_cs2 respond
stages-IsReady s nvm h = (
  record { w1 = h.w1.0; t0 = h.t0 },
  record { w1 = h.w1.0; t0 = h.t0 },
  record { w1 = h.w1.0; t0 = h.t0 },
  record { w1 = h.w1.0; t0 = h.t0 },
)

-- An attempt ends without a signature and leaves N_storage ready for the next, or it ends with one that is accepted.
pub conclude-cases :
    (old : List (List ℕ)) (s : Secrets) (nvm : Nvm)
    → length old ≡ 8
    → AreSecrets s
    → IsCommitted nvm
    → (((conclude s nvm).1 ≡ false) × IsReady (conclude s nvm).0)
      ⊎ (((conclude s nvm).1 ≡ true) × ((conclude s nvm).2 ≡ 0) × IsAccepted old (conclude s nvm).0)
unfolding conclude pack_sig_volatile
conclude-cases old s nvm lo hs h =
    let (a, b, c, d) = stages-IsReady s nvm h in
    elim (Bool-cases (poly_vec_l_chk_norm (respond s nvm).z z_bound == 0)) [
      | inr t ↦ rw t (inl (refl, a))
      | inl t ↦
          elim (Bool-cases
            (poly_vec_k_chk_norm (subtract_cs2 s (respond s nvm)).w0 w0_bound == 0)) [
              | inr u ↦ rw (t, u) (inl (refl, b))
              | inl u ↦
                  elim (Bool-cases (
                    poly_vec_k_chk_norm (compute_ct0 (subtract_cs2 s (respond s nvm))).h gamma2
                    == 0)) [
                      | inr v ↦ rw (t, u, v) (inl (refl, c))
                      | inl v ↦ elim (Bool-cases (ltb omega_const (hinted s nvm).1)) [
                        | inl n ↦ rw (t, u, v, n) (inl (refl, d))
                        | inr n ↦
                            rw (t, u, v, n)
                              (inr (
                                refl,
                                refl,
                                hinted-IsAccepted old s nvm lo hs h ((==_iff _ 0).0 t)
                                    (ltb_false→ge _ _ n),
                              ))
                      ]
                    ]
            ]
    ]
