-- ===== src/Sign/Accepted.antt =====
-- A signature that signing makes is unpacked and passes the test of z: src/mldsa87/sign.c.
use mathlib.Core.Path.{subst}
use ledger_app_qrl_v.Prelude.{
  ℕ, zero, suc, ◌+◌, true, ◌-◌, ◌^◌, ◌≡◌, ◌∙◌, ap, refl, arith, Option, none, some, List, [], ◌∷◌,
  length, map, take, ◌==◌, false, Option-cases, ◌⊎◌, inl, inr,
}
use ledger_app_qrl_v.Ntt.{ntt}
use ledger_app_qrl_v.Polyvec.{poly_vec_l_ntt, poly_vec_k_ntt}
use ledger_app_qrl_v.Poly.Arith.{poly_ntt}
use ledger_app_qrl_v.Sign.{Nvm}
use ledger_app_qrl_v.Sign.Volatile.{poly_vec_k_ntt_volatile}
use ledger_app_qrl_v.Sign.Keys.{Expanded, KeyPair, expand_seed, key_pair}
use ledger_app_qrl_v.Sign.Signing.{
  Secrets, secrets_of, prepared, commit, conclude, attempts, crypto_sign_optimized,
}
use ledger_app_qrl_v.Sign.Shapes.{IsVec, map-IsVec, length-ntt}
use ledger_app_qrl_v.Sign.Vectors.{key_pair-IsVec}
use ledger_app_qrl_v.Sign.Exhausted.{IsExhausted, IsStuck, key_pair-none, commit-none}
use ledger_app_qrl_v.Sign.Attempt.{
  AreSecrets, IsReady, IsAccepted, commit-IsCommitted, conclude-cases,
}

-- The attempts of a run from `start` on: the attempt with this nonce begins with this N_storage, all
-- attempts before it being rejected.
pub data IsReached (fuel : ℕ) (s : Secrets) (start : Nvm) : (nonce : ℕ) → Nvm → Type 0 where
  at_start : IsReached fuel s start 0 start
  one_rejected :
      (nonce : ℕ) (nvm committed : Nvm)
      → IsReached fuel s start nonce nvm
      → commit fuel s nonce nvm ≡ some committed
      → (conclude s committed).1 ≡ false
      → IsReached fuel s start (suc nonce) (conclude s committed).0

-- An attempt that the run reaches has no result.
pub record IsStopped (fuel : ℕ) (s : Secrets) (start : Nvm) : Type 0 where
  pub nonce : ℕ
  pub nvm : Nvm
  pub reached : IsReached fuel s start nonce nvm
  pub stuck : IsStuck fuel s nonce nvm

-- An attempt that the run reaches passes all tests: it leaves `after`, with an accepted signature.
pub record IsPassed (fuel : ℕ) (s : Secrets) (start : Nvm) (old : List (List ℕ)) (after : Nvm)
    : Type 0 where
  pub nonce : ℕ
  pub nvm : Nvm
  pub committed : Nvm
  pub reached : IsReached fuel s start nonce nvm
  pub goes_on : commit fuel s nonce nvm ≡ some committed
  pub done : (conclude s committed).1 ≡ true
  pub leaves : (conclude s committed).0 ≡ after
  pub accepted : IsAccepted old after

-- How the attempts of a run end.
abbrev pub IsTried :
    (fuel : ℕ) → (s : Secrets) → (start : Nvm) → (old : List (List ℕ)) → Option (Nvm × ℕ) → Type 0
IsTried fuel s start old none = IsStopped fuel s start
IsTried fuel s start old (some (after, code)) =
    ((code ≡ 10) × IsReached fuel s start 814 after)
    ⊎ ((code ≡ 0) × IsPassed fuel s start old after)

attempts-IsTried :
    (fuel rounds : ℕ) (s : Secrets) (start : Nvm) (nonce : ℕ) (nvm : Nvm) (old : List (List ℕ))
    → length old ≡ 8
    → AreSecrets s
    → IsReady nvm
    → IsReached fuel s start nonce nvm
    → nonce + rounds ≡ 814
    → IsTried fuel s start old (attempts fuel rounds s nonce nvm)
unfolding attempts
attempts-IsTried fuel zero s start nonce nvm old lo hs r reached count =
    let last : nonce ≡ 814 = omega arith in
    inl (refl, subst (λ n. IsReached fuel s start n nvm) last reached)
attempts-IsTried fuel (suc rounds) s start nonce nvm old lo hs r reached count =
    elim (Option-cases (commit fuel s nonce nvm)) [
      | inl out ↦ rw out (record {
        nonce = nonce;
        nvm = nvm;
        reached = reached;
        stuck = commit-none fuel s nonce nvm out;
      })
      | inr (committed, ec) ↦
          rw ec
            (elim (conclude-cases old s committed lo hs
              (commit-IsCommitted fuel s nonce nvm committed r ec)) [
                | inl (undone, ready) ↦ rw undone (
                    attempts-IsTried fuel rounds s start (suc nonce) (conclude s committed).0 old lo
                      hs ready (one_rejected nonce nvm committed reached ec undone) (omega arith))
                | inr (done, code, accepted) ↦ rw done (
                    inr (
                      code,
                      record {
                        nonce = nonce;
                        nvm = nvm;
                        committed = committed;
                        reached = reached;
                        goes_on = ec;
                        done = done;
                        leaves = refl;
                        accepted = accepted;
                      },
                    ))
              ])
    ]

-- How signing ends: the message is empty (9), no seed is derived (-1), a sampler of the key generation
-- has used up its refills, or the attempts of this run end.
pub data IsSigned (fuel : ℕ) (derived : Option (List ℕ)) (rnd message : List ℕ) (nvm : Nvm)
    (old : List (List ℕ)) : Option (Nvm × ℕ) → Type 0 where
  without_message : message ≡ [] → IsSigned fuel derived rnd message nvm old (some (nvm, 9))
  without_seed : derived ≡ none → IsSigned fuel derived rnd message nvm old (some (nvm, 2 ^ 32 - 1))
  without_keys :
      (raw : List ℕ)
      → derived ≡ some raw
      → IsExhausted fuel (expand_seed (take 32 raw)).rho (expand_seed (take 32 raw)).rho_prime
      → IsSigned fuel derived rnd message nvm old none
  tried :
      (raw : List ℕ) (keys : KeyPair) (out : Option (Nvm × ℕ))
      → derived ≡ some raw
      → key_pair fuel (expand_seed (take 32 raw)) nvm ≡ some keys
      → IsTried fuel
          (secrets_of (expand_seed (take 32 raw)) keys rnd message)
          (prepared keys)
          old
          out
      → IsSigned fuel derived rnd message nvm old out

ntt_each-IsVec : (n : ℕ) (v : List (List ℕ)) → IsVec n v → IsVec n (map ntt v)
ntt_each-IsVec n v h = map-IsVec ntt n v length-ntt h

with_keys-IsTried :
    (fuel : ℕ) (e : Expanded) (rnd message : List ℕ) (nvm : Nvm) (old : List (List ℕ))
    (keys : KeyPair)
    → length nvm.t1 ≡ 8
    → length nvm.w1 ≡ 8
    → length old ≡ 8
    → key_pair fuel e nvm ≡ some keys
    → IsTried fuel
        (secrets_of e keys rnd message)
        (prepared keys)
        old
        (attempts fuel 814 (secrets_of e keys rnd message) 0 (prepared keys))
unfolding secrets_of prepared poly_vec_l_ntt poly_vec_k_ntt poly_ntt poly_vec_k_ntt_volatile
with_keys-IsTried fuel e rnd message nvm old keys l w lo ek =
    let (h1, h2, h0, kept) = key_pair-IsVec fuel e nvm keys l ek in
    attempts-IsTried fuel 814 _ _ 0 _ old lo
      (record { s1 = ntt_each-IsVec 7 keys.s1 h1; s2 = ntt_each-IsVec 8 keys.s2 h2 })
      (record { w1 = ap length kept ∙ w; t0 = ntt_each-IsVec 8 keys.nvm.t0 h0 }) at_start refl

derived-IsSigned :
    (fuel : ℕ) (derived : Option (List ℕ)) (rnd : List ℕ) (m : ℕ) (message : List ℕ) (nvm : Nvm)
    (old : List (List ℕ))
    → length nvm.t1 ≡ 8
    → length nvm.w1 ≡ 8
    → length old ≡ 8
    → IsSigned fuel derived rnd
        (m ∷ message)
        nvm
        old
        (crypto_sign_optimized fuel derived rnd (m ∷ message) nvm)
unfolding crypto_sign_optimized
derived-IsSigned fuel none rnd m message nvm old l w lo =
    let nonempty : (suc (length message) == 0) ≡ false = ground arith in
    rw nonempty (without_seed refl)
derived-IsSigned fuel (some raw) rnd m message nvm old l w lo =
    let nonempty : (suc (length message) == 0) ≡ false = ground arith in
    let e = expand_seed (take 32 raw) in
    rw nonempty (elim (Option-cases (key_pair fuel e nvm)) [
      | inl out ↦ rw out (without_keys raw refl (key_pair-none fuel e nvm out))
      | inr (keys, ek) ↦ rw ek (
          tried raw keys _ refl ek
            (with_keys-IsTried fuel e rnd (m ∷ message) nvm old keys l w lo ek))
    ])

-- Where N_storage has the eight polynomials of t1 and w1, crypto_sign_optimized ends in one of these ways.
-- It returns ERR_INVALID_MESSAGE, and the message is empty; or -1, and no seed was derived. It has no result
-- because a sampler of the key generation, which starts from the seed expanded, has not enough with the
-- refills it may take; or because, an attempt of this run being reached with all attempts before it
-- rejected, the sampler of an entry of the matrix has not enough, or the one of the challenge of this
-- attempt's hash. It returns ERR_INVALID_SIGNATURE, and the first 814 attempts of this run are rejected. Or it
-- returns 0, and then an attempt of this run passes all tests, those before it being rejected, and leaves a
-- signature that unpack_sig_volatile takes without an error, whatever eight polynomials h held before, as
-- the z and the hints in N_storage; and z passes the test of its norm that crypto_verify_optimized makes.
pub crypto_sign_optimized-IsSigned :
    (fuel : ℕ) (derived : Option (List ℕ)) (rnd message : List ℕ) (nvm : Nvm) (old : List (List ℕ))
    → length nvm.t1 ≡ 8
    → length nvm.w1 ≡ 8
    → length old ≡ 8
    → IsSigned fuel derived rnd message nvm old (crypto_sign_optimized fuel derived rnd message nvm)
unfolding crypto_sign_optimized
crypto_sign_optimized-IsSigned fuel derived rnd [] nvm old l w lo = without_message refl
crypto_sign_optimized-IsSigned fuel derived rnd (m ∷ message) nvm old l w lo =
    derived-IsSigned fuel derived rnd m message nvm old l w lo
