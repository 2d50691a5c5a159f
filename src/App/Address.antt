-- ===== src/App/Address.antt =====
-- The address of a path: src/address.c and `new_mldsa87_from_seed` of src/mldsa87/mldsa87.c.
use ledger_app_qrl_v.Prelude.{ℕ, not, none, List, [], ◌∷◌, take, ◌==◌, if◌then◌else◌}
use ledger_app_qrl_v.Address.{address_size}
use ledger_app_qrl_v.Keccak.{init}
use ledger_app_qrl_v.Keccak.Hashes.{shake256_absorb, shake256_finalize, shake256_squeeze}
use ledger_app_qrl_v.App.{World, Storage, Sdk, MlDsa}

-- It passes on the error code of the key generation, 0 for none.
unfoldable pub new_mldsa87_from_seed : MlDsa → (seed : List ℕ) → Storage → Storage × ℕ
new_mldsa87_from_seed ml seed st =
    let (t1, pk, err) = ml.crypto_sign_keypair seed st.t1 in (record st { t1 = t1; pk = pk }, err)

-- `nbgl_useCaseSpinner`: its page takes the place of a review that is pending.
unfoldable pub use_case_spinner : World → World
use_case_spinner w = record w { screen = none }

-- SHAKE256 of the descriptor and the public key.
unfoldable pub address_of_pk : (pk : List ℕ) → List ℕ
address_of_pk pk =
    (shake256_squeeze
      (shake256_finalize (shake256_absorb (shake256_absorb init (1 ∷ 0 ∷ 0 ∷ [])) pk))
      address_size).0

-- `address_from_bip32_path` with the address put in `G_context.address`, where both callers want it.
unfoldable pub address_from_bip32_path : Sdk → MlDsa → World → World × ℕ
address_from_bip32_path sdk ml w =
    let (raw_seed, err) = sdk.os_derive_bip32 w.ctx.bip32_path w.ctx.bip32_path_len in
    if not (err == 0)
    then (w, err)
    else let w1 = use_case_spinner w in
      let (st, mldsa_err) = new_mldsa87_from_seed ml (take 32 raw_seed) w1.storage in
      if not (mldsa_err == 0)
      then (record w1 { storage = st }, sdk.cx_internal_error)
      else (record w1 { storage = st; ctx = record w1.ctx { address = address_of_pk st.pk } }, 0)
