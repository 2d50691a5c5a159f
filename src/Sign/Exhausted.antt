-- ===== src/Sign/Exhausted.antt =====
-- When the routines of src/mldsa87/sign.c have no result: only where a sampler has used up its
-- refills.
use ledger_app_qrl_v.Prelude.{
  ℕ, zero, suc, ◌+◌, ◌*◌, ◌%◌, ◌^◌, ◌≡◌, ◌⊎◌, Option-cases, Option, none, some, List, [], ◌∷◌, take,
  ◌==◌, inl, inr, Bool-cases,
}
use ledger_app_qrl_v.Prelude.Fuel.{>>=-eq-none}
use ledger_app_qrl_v.Polyvec.{poly_vec_l_ntt}
use ledger_app_qrl_v.Polyvec.{poly_vec_l_chk_norm}
use ledger_app_qrl_v.Signature.{unpack_sig_volatile, ctilde_bytes}
use ledger_app_qrl_v.Sign.{Nvm}
use ledger_app_qrl_v.Sign.Samplers.{poly_uniform_eta, matrix_poly, poly_challenge_volatile}
use ledger_app_qrl_v.Sign.Volatile.{
  combined_row, combined_rows, combined_method, poly_vec_l_ntt_volatile,
  poly_vec_l_uniform_gamma1_volatile,
}
use ledger_app_qrl_v.Sign.Keys.{
  uniform_eta_from, poly_vec_l_uniform_eta, poly_vec_k_uniform_eta, public_vector, Expanded,
  expand_seed, key_pair,
}
use ledger_app_qrl_v.Sign.Signing.{Secrets, mask_and_hash, commit, z_bound}
use ledger_app_qrl_v.Sign.Verifying.{hash_again, recompute, check_signature}

-- With this many refills, the sampler of an entry of the matrix has not enough.
abbrev pub HasNoEntry : (fuel : ℕ) → (rho : List ℕ) → Type 0
HasNoEntry fuel rho = (nonce : ℕ) × (matrix_poly fuel rho nonce ≡ none)

-- With this many refills, the sampler of a secret polynomial has not enough, or that of an entry of the
-- matrix, where both start from the expanded seed.
pub data IsExhausted (fuel : ℕ) (rho rho_prime : List ℕ) : Type 0 where
  no_secret :
      (nonce : ℕ) → poly_uniform_eta fuel rho_prime nonce ≡ none → IsExhausted fuel rho rho_prime
  no_entry : HasNoEntry fuel rho → IsExhausted fuel rho rho_prime

-- An attempt has no result: the sampler of an entry of the matrix has not enough, or the one of the
-- challenge, which starts from the hash of this attempt.
pub data IsStuck (fuel : ℕ) (s : Secrets) (nonce : ℕ) (nvm : Nvm) : Type 0 where
  without_entry : HasNoEntry fuel s.rho → IsStuck fuel s nonce nvm
  without_challenge :
      (masked : Nvm)
      → mask_and_hash fuel s nonce nvm ≡ some masked
      → poly_challenge_volatile fuel (take ctilde_bytes masked.sig) ≡ none
      → IsStuck fuel s nonce nvm

-- What the derived bytes expand to; without them, nothing is sampled.
abbrev pub expanded : Option (List ℕ) → Expanded
expanded none = expand_seed []
expanded (some raw) = expand_seed (take 32 raw)

combined_row-none :
    (fuel : ℕ) (rho : List ℕ) (i j : ℕ) (ss : List (List ℕ)) (temp : List ℕ)
    → combined_row fuel rho i j ss temp ≡ none
    → HasNoEntry fuel rho
unfolding combined_row
combined_row-none fuel rho i j [] temp h = cc
combined_row-none fuel rho i j (s ∷ ss) temp h =
    let nonce = (i * 256 + j) % 2 ^ 16 in
    elim (Option-cases (matrix_poly fuel rho nonce)) [
      | inl out ↦ (nonce, out)
      | inr (entry, e) ↦ combined_row-none fuel rho i (suc j) ss _ (rw e at h)
    ]

combined_rows-none :
    (fuel : ℕ) (rho : List ℕ) (i : ℕ) (t1 s1hat : List (List ℕ))
    → combined_rows fuel rho i t1 s1hat ≡ none
    → HasNoEntry fuel rho
unfolding combined_rows
combined_rows-none fuel rho i [] s1hat h = cc
combined_rows-none fuel rho i (t ∷ t1) s1hat h =
    elim (Option-cases (combined_row fuel rho i 0 s1hat t)) [
      | inl out ↦ combined_row-none fuel rho i 0 s1hat t out
      | inr (row, e) ↦ elim (Option-cases (combined_rows fuel rho (suc i) t1 s1hat)) [
        | inl out ↦ combined_rows-none fuel rho (suc i) t1 s1hat out
        | inr (rows, e') ↦ absurd (cc (rw (e, e') at h))
      ]
    ]

uniform_eta_from-none :
    (fuel rounds : ℕ) (rho rho_prime : List ℕ) (nonce : ℕ)
    → uniform_eta_from fuel rounds rho_prime nonce ≡ none
    → IsExhausted fuel rho rho_prime
unfolding uniform_eta_from
uniform_eta_from-none fuel zero rho rho_prime nonce h = cc
uniform_eta_from-none fuel (suc rounds) rho rho_prime nonce h =
    elim (Option-cases (poly_uniform_eta fuel rho_prime nonce)) [
      | inl out ↦ no_secret nonce out
      | inr (p, e) ↦ elim (Option-cases (uniform_eta_from fuel rounds rho_prime (suc nonce))) [
        | inl out ↦ uniform_eta_from-none fuel rounds rho rho_prime (suc nonce) out
        | inr (ps, e') ↦ absurd (cc (rw (e, e') at h))
      ]
    ]

public_vector-none :
    (fuel : ℕ) (t1 s1 s2 : List (List ℕ)) (rho rho_prime : List ℕ)
    → public_vector fuel t1 s1 s2 rho ≡ none
    → IsExhausted fuel rho rho_prime
unfolding public_vector combined_method
public_vector-none fuel t1 s1 s2 rho rho_prime h =
    elim (Option-cases (combined_rows fuel rho 0 t1 (poly_vec_l_ntt s1))) [
      | inl out ↦ no_entry (combined_rows-none fuel rho 0 t1 (poly_vec_l_ntt s1) out)
      | inr (product, e) ↦ absurd (cc (rw e at h))
    ]

pub key_pair-none :
    (fuel : ℕ) (e : Expanded) (nvm : Nvm)
    → key_pair fuel e nvm ≡ none
    → IsExhausted fuel e.rho e.rho_prime
unfolding key_pair poly_vec_l_uniform_eta poly_vec_k_uniform_eta
key_pair-none fuel e nvm h = elim (Option-cases (uniform_eta_from fuel 7 e.rho_prime 0)) [
  | inl out ↦ uniform_eta_from-none fuel 7 e.rho e.rho_prime 0 out
  | inr (s1, e1) ↦ elim (Option-cases (uniform_eta_from fuel 8 e.rho_prime 7)) [
    | inl out ↦ uniform_eta_from-none fuel 8 e.rho e.rho_prime 7 out
    | inr (s2, e2) ↦ elim (Option-cases (public_vector fuel nvm.t1 s1 s2 e.rho)) [
      | inl out ↦ public_vector-none fuel nvm.t1 s1 s2 e.rho e.rho_prime out
      | inr (t, e3) ↦ absurd (cc (rw (e1, e2, e3) at h))
    ]
  ]
]

mask_and_hash-none :
    (fuel : ℕ) (s : Secrets) (nonce : ℕ) (nvm : Nvm)
    → mask_and_hash fuel s nonce nvm ≡ none
    → HasNoEntry fuel s.rho
unfolding mask_and_hash combined_method
mask_and_hash-none fuel s nonce nvm h =
    let z = poly_vec_l_ntt_volatile (poly_vec_l_uniform_gamma1_volatile s.rho_prime nonce) in
    elim (Option-cases (combined_rows fuel s.rho 0 nvm.w1 z)) [
      | inl out ↦ combined_rows-none fuel s.rho 0 nvm.w1 z out
      | inr (product, e) ↦ absurd (cc (rw e at h))
    ]

pub commit-none :
    (fuel : ℕ) (s : Secrets) (nonce : ℕ) (nvm : Nvm)
    → commit fuel s nonce nvm ≡ none
    → IsStuck fuel s nonce nvm
unfolding commit
commit-none fuel s nonce nvm h = elim (Option-cases (mask_and_hash fuel s nonce nvm)) [
  | inl out ↦ without_entry (mask_and_hash-none fuel s nonce nvm out)
  | inr (masked, e) ↦
      without_challenge masked e
        (>>=-eq-none (poly_challenge_volatile fuel (take ctilde_bytes masked.sig)) _ (rw e at h))
]

hash_again-none :
    (fuel : ℕ) (rho mu c : List ℕ) (nvm : Nvm)
    → hash_again fuel rho mu c nvm ≡ none
    → HasNoEntry fuel rho ⊎ (poly_challenge_volatile fuel c ≡ none)
unfolding hash_again combined_method
hash_again-none fuel rho mu c nvm h = elim (Option-cases (poly_challenge_volatile fuel c)) [
  | inl out ↦ inr out
  | inr (challenge, e) ↦
      let z = poly_vec_l_ntt_volatile nvm.z in
      elim (Option-cases (combined_rows fuel rho 0 nvm.w1 z)) [
        | inl out ↦ inl (combined_rows-none fuel rho 0 nvm.w1 z out)
        | inr (product, e') ↦ absurd (cc (rw (e, e') at h))
      ]
]

recompute-none :
    (fuel : ℕ) (rho mu c : List ℕ) (nvm : Nvm)
    → recompute fuel rho mu c nvm ≡ none
    → HasNoEntry fuel rho ⊎ (poly_challenge_volatile fuel c ≡ none)
unfolding recompute
recompute-none fuel rho mu c nvm h = elim (Option-cases (hash_again fuel rho mu c nvm)) [
  | inl out ↦ hash_again-none fuel rho mu c nvm out
  | inr (pair, e) ↦ absurd (cc (rw e at h))
]

-- The challenge of a signature is sampled from its first 64 bytes.
pub check_signature-none :
    (fuel : ℕ) (rho message sig : List ℕ) (nvm : Nvm)
    → check_signature fuel rho message sig nvm ≡ none
    → HasNoEntry fuel rho ⊎ (poly_challenge_volatile fuel (take ctilde_bytes sig) ≡ none)
unfolding check_signature unpack_sig_volatile
check_signature-none fuel rho message sig nvm h =
    let (c, z, h', code) = unpack_sig_volatile nvm.h sig in
    elim (Bool-cases (code == 0)) [
      | inr t ↦ absurd (cc (rw t at h))
      | inl t ↦ elim (Bool-cases (poly_vec_l_chk_norm z z_bound == 0)) [
        | inr u ↦ absurd (cc (rw (t, u) at h))
        | inl u ↦ recompute-none fuel rho _ c _ (rw (t, u) at h)
      ]
    ]
