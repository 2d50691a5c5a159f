-- ===== src/Sign/Frame.antt =====
-- What crypto_sign_keypair of src/mldsa87/sign.c writes of N_storage.
use mathlib.Core.Option.{some_inj}
use ledger_app_qrl_v.Prelude.{ℕ, ◌≡◌, sym, ◌∙◌, ap, some, List}
use ledger_app_qrl_v.Prelude.Fuel.{>>=-eq-some}
use ledger_app_qrl_v.Sign.{Nvm}
use ledger_app_qrl_v.Sign.Keys.{
  poly_vec_l_uniform_eta, poly_vec_k_uniform_eta, public_vector, Expanded, expand_seed,
  crypto_sign_keypair,
}

-- Key generation works on t1 and writes the public key, and nothing else: its result depends on no other
-- part of N_storage. This is the shape of the interface that the application calls.
pub crypto_sign_keypair_frame :
    (fuel : ℕ) (seed : List ℕ) (nvm after : Nvm) (code : ℕ)
    → crypto_sign_keypair fuel seed nvm ≡ some (after, code)
    → (after ≡ record nvm { t1 = after.t1; pk = after.pk })
      × ((other : Nvm)
          → other.t1 ≡ nvm.t1
          → crypto_sign_keypair fuel seed other
            ≡ some (record other { t1 = after.t1; pk = after.pk }, code))
unfolding crypto_sign_keypair
crypto_sign_keypair_frame fuel seed nvm after code h =
    let e : Expanded = expand_seed seed in
    let (s1, e1, r1) = >>=-eq-some (poly_vec_l_uniform_eta fuel e.rho_prime 0) _ h in
    let (s2, e2, r2) = >>=-eq-some (poly_vec_k_uniform_eta fuel e.rho_prime 7) _ r1 in
    let (t, e3, r3) = >>=-eq-some (public_vector fuel nvm.t1 s1 s2 e.rho) _ r2 in
    let both = some_inj.0 r3 in
    let stored = ap (λ (q : Nvm × ℕ). q.0) both in
    (
      sym stored ∙ ap (λ (n : Nvm). record nvm { t1 = n.t1; pk = n.pk }) stored,
      λ other same.
          rw (e1, e2, same, e3)
            (ap some (ap (λ (q : Nvm × ℕ). (record other { t1 = q.0.t1; pk = q.0.pk }, q.1)) both)),
    )
