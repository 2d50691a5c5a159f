-- ===== src/Sign/Checked.antt =====
-- What crypto_verify_optimized of src/mldsa87/sign.c has found out when it says that a signature is verified.
use mathlib.Core.Option.{some_inj}
use ledger_app_qrl_v.Prelude.{
  arith, ℕ, ◌≡◌, ap, ◌∙◌, sym, refl, Bool, Option, none, some, Option-cases, List, [], ◌∷◌, All,
  IsByte, length, take, ◌==◌, ==_iff, true, false, Bool-cases, ◌⊎◌, inl, inr,
}
use ledger_app_qrl_v.Prelude.Fuel.{>>=-eq-some}
use ledger_app_qrl_v.Polyvec.{poly_vec_l_chk_norm}
use ledger_app_qrl_v.Signature.{pack_sig_volatile, unpack_sig_volatile, crypto_bytes, ctilde_bytes}
use ledger_app_qrl_v.Signature.Whole.{pack_sig_volatile-unpack_sig_volatile}
use ledger_app_qrl_v.Sign.{Nvm}
use ledger_app_qrl_v.Sign.Samplers.{poly_challenge_volatile}
use ledger_app_qrl_v.Sign.Keys.{
  Expanded, poly_vec_l_uniform_eta, poly_vec_k_uniform_eta, public_vector, expand_seed, KeyPair,
  key_pair,
}
use ledger_app_qrl_v.Sign.Signing.{pre, crh, z_bound}
use ledger_app_qrl_v.Sign.Exhausted.{
  IsExhausted, no_entry, expanded, key_pair-none, check_signature-none,
}
use ledger_app_qrl_v.Sign.Verifying.{
  same_bytes, hash_again, recompute, check_signature, crypto_verify_optimized,
}

-- The bytes are the one encoding of their hash, z and hints; z passes the test of its norm; and the
-- hash is the one that hash_again comes to.
pub record IsVerified (fuel : ℕ) (rho mu sig : List ℕ) (nvm : Nvm) : Type 0 where
  pub c : List ℕ
  pub z : List (List ℕ)
  pub h : List (List ℕ)
  pub encoded : (front : List ℕ) → pack_sig_volatile front crypto_bytes c z h ≡ (sig, 0)
  pub short : poly_vec_l_chk_norm z z_bound ≡ 0
  pub after : Nvm
  pub recomputed : hash_again fuel rho mu c (record nvm { z = z; h = h }) ≡ some (after, c)

abbrev pub IsChecked : (fuel : ℕ) → (rho mu sig : List ℕ) → Nvm → Option (Nvm × Bool) → Type 0
IsChecked fuel rho mu sig nvm none = Unit
IsChecked fuel rho mu sig nvm (some (after, verified)) =
    (verified ≡ false) ⊎ IsVerified fuel rho mu sig nvm

same_bytes-eq : (xs ys : List ℕ) → same_bytes xs ys ≡ true → xs ≡ ys
unfolding same_bytes
same_bytes-eq [] [] e = refl
same_bytes-eq [] (y ∷ ys) e = cc
same_bytes-eq (x ∷ xs) [] e = cc
same_bytes-eq (x ∷ xs) (y ∷ ys) e =
    let same : x ≡ y = ground (arith, e) in
    ap (λ t. t ∷ xs) same ∙ ap (λ t. y ∷ t) (same_bytes-eq xs ys (ground (arith, e)))

-- The comparison goes through only where the second hash is the first.
recompute_same :
    (fuel : ℕ) (rho mu c : List ℕ) (nvm after : Nvm)
    → recompute fuel rho mu c nvm ≡ some (after, true)
    → hash_again fuel rho mu c nvm ≡ some (after, c)
unfolding recompute
recompute_same fuel rho mu c nvm after h =
    let ((state, c2), e, r) = >>=-eq-some (hash_again fuel rho mu c nvm) _ h in
    let both = some_inj.0 r in
    e
    ∙ ap some (
        ap (λ (n : Nvm). (n, c2)) (ap (λ (q : Nvm × Bool). q.0) both)
        ∙ ap (λ (b : List ℕ). (after, b))
            (sym (same_bytes-eq c c2 (ap (λ (q : Nvm × Bool). q.1) both))))

check_signature-IsChecked :
    (fuel : ℕ) (rho message sig : List ℕ) (nvm : Nvm)
    → length sig ≡ crypto_bytes
    → All IsByte sig
    → length nvm.h ≡ 8
    → IsChecked fuel rho
        (crh 64 (crh 64 (nvm.pk ∷ []) ∷ pre ∷ message ∷ []))
        sig
        nvm
        (check_signature fuel rho message sig nvm)
unfolding check_signature
check_signature-IsChecked fuel rho message sig nvm l b lh =
    let (c, z, h, code) = unpack_sig_volatile nvm.h sig in
    let mu = crh 64 (crh 64 (nvm.pk ∷ []) ∷ pre ∷ message ∷ []) in
    elim (Bool-cases (code == 0)) [
      | inr t ↦ rw t (inl refl)
      | inl t ↦ elim (Bool-cases (poly_vec_l_chk_norm z z_bound == 0)) [
        | inr u ↦ rw (t, u) (inl refl)
        | inl u ↦
            rw (t, u)
              (elim (Option-cases (recompute fuel rho mu c (record nvm { z = z; h = h }))) [
                | inl out ↦ rw out tt
                | inr ((after, verified), e) ↦ rw e (elim (Bool-cases verified) [
                  | inr v ↦ inl v
                  | inl v ↦
                      let accepted : code ≡ 0 = (==_iff code 0).0 t in
                      inr (record {
                        c = c;
                        z = z;
                        h = h;
                        encoded = λ front.
                            pack_sig_volatile-unpack_sig_volatile sig front c z h nvm.h l b lh
                              (λ i. (c, z, h, accepted i));
                        short = (==_iff _ 0).0 u;
                        after = after;
                        recomputed = recompute_same fuel rho mu c _ after (rw v at e);
                      })
                ])
              ])
      ]
    ]

key_pair-h :
    (fuel : ℕ) (e : Expanded) (nvm : Nvm) (keys : KeyPair)
    → key_pair fuel e nvm ≡ some keys
    → keys.nvm.h ≡ nvm.h
unfolding key_pair
key_pair-h fuel e nvm keys eq =
    let (s1, _, r1) = >>=-eq-some (poly_vec_l_uniform_eta fuel e.rho_prime 0) _ eq in
    let (s2, _, r2) = >>=-eq-some (poly_vec_k_uniform_eta fuel e.rho_prime 7) _ r1 in
    let (t, _, r3) = >>=-eq-some (public_vector fuel nvm.t1 s1 s2 e.rho) _ r2 in
    rw (← some_inj.0 r3) refl

-- How verification ends: a sampler has used up its refills, the signature is not verified, or the
-- code is 0 and the signature is verified under the derived key.
abbrev pub IsAnswer :
    (fuel : ℕ) → (e : Expanded) → (sig message : List ℕ) → Nvm → Option (Nvm × ℕ × Bool) → Type 0
IsAnswer fuel e sig message nvm none =
    IsExhausted fuel e.rho e.rho_prime
    ⊎ (poly_challenge_volatile fuel (take ctilde_bytes sig) ≡ none)
IsAnswer fuel e sig message nvm (some (after, code, verified)) =
    (verified ≡ false)
    ⊎ ((code ≡ 0)
        × ((keys : KeyPair) × (key_pair fuel e nvm ≡ some keys)
            × IsVerified fuel e.rho (crh 64 (crh 64 (keys.nvm.pk ∷ []) ∷ pre ∷ message ∷ [])) sig
                keys.nvm))

-- Behind the tests on the lengths and the derivation of the seed.
derived-IsAnswer :
    (fuel : ℕ) (raw sig message : List ℕ) (nvm : Nvm)
    → length nvm.h ≡ 8
    → All IsByte sig
    → (length sig == 0) ≡ false
    → (length message == 0) ≡ false
    → (length sig == crypto_bytes) ≡ true
    → IsAnswer fuel
        (expand_seed (take 32 raw))
        sig
        message
        nvm
        (crypto_verify_optimized fuel (some raw) sig message nvm)
unfolding crypto_verify_optimized
derived-IsAnswer fuel raw sig message nvm lh b t u v =
    let e = expand_seed (take 32 raw) in
    rw (t, u, v)
      (elim (Option-cases (key_pair fuel e nvm)) [
        | inl out ↦ rw out (inl (key_pair-none fuel e nvm out))
        | inr (keys, ek) ↦
            let checked =
              check_signature-IsChecked fuel e.rho message sig keys.nvm
                ((==_iff (length sig) crypto_bytes).0 v) b
                (ap length (key_pair-h fuel e nvm keys ek) ∙ lh) in
            rw ek (elim (Option-cases (check_signature fuel e.rho message sig keys.nvm)) [
              | inl out ↦ rw out (elim (check_signature-none fuel e.rho message sig keys.nvm out) [
                | inl entry ↦ inl (no_entry entry)
                | inr challenge ↦ inr challenge
              ])
              | inr ((after, verified), ec) ↦ rw ec (elim (rw ec at checked) [
                | inl unverified ↦ inl unverified
                | inr is_verified ↦ inr (refl, (keys, ek, is_verified))
              ])
            ])
      ])

-- Where N_storage has eight rows of hints and the signature is of bytes, crypto_verify_optimized ends in one of
-- three ways. A sampler, which starts from the seed expanded or from the first 64 bytes of the signature, has
-- not enough with the refills it may take. Or it says that the signature is not verified. Or it returns 0 and says that it is, and then the
-- signature is the one encoding of its hash, z and hints, z passes the test of its norm, and the hash is the one
-- that hash_again computes from z, the hints, the message and the key pair of the seed.
pub crypto_verify_optimized-IsAnswer :
    (fuel : ℕ) (derived : Option (List ℕ)) (sig message : List ℕ) (nvm : Nvm)
    → length nvm.h ≡ 8
    → All IsByte sig
    → IsAnswer fuel
        (expanded derived)
        sig
        message
        nvm
        (crypto_verify_optimized fuel derived sig message nvm)
unfolding crypto_verify_optimized
crypto_verify_optimized-IsAnswer fuel derived sig message nvm lh b =
    elim (Bool-cases (length sig == 0)) [
      | inl t ↦ rw t (inl refl)
      | inr t ↦ elim (Bool-cases (length message == 0)) [
        | inl u ↦ rw (t, u) (inl refl)
        | inr u ↦ elim (Bool-cases (length sig == crypto_bytes)) [
          | inr v ↦ rw (t, u, v) (inl refl)
          | inl v ↦ known derived t u v
        ]
      ]
    ]
  where
    known :
        (d : Option (List ℕ))
        → (length sig == 0) ≡ false
        → (length message == 0) ≡ false
        → (length sig == crypto_bytes) ≡ true
        → IsAnswer fuel
            (expanded d)
            sig
            message
            nvm
            (crypto_verify_optimized fuel d sig message nvm)
    known none t u v = rw (t, u, v) (inl refl)
    known (some raw) t u v = derived-IsAnswer fuel raw sig message nvm lh b t u v
