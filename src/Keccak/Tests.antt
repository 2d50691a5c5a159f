-- ===== src/Keccak/Tests.antt =====
-- Published digests of the empty message, by the model of src/mldsa87's hash functions.
use ledger_app_qrl_v.Prelude.{◌≡◌, refl, [], ◌∷◌, take}
use ledger_app_qrl_v.Keccak.{init, keccakf}
use ledger_app_qrl_v.Keccak.Hashes.{
  shake256_absorb, shake256_squeeze, shake128_absorb, shake128_squeeze, keccak256_absorb,
  keccak256_squeeze,
}

keccak256_empty :
    take 4 (keccak256_squeeze (keccak256_absorb init [])).0 ≡ 0xc5 ∷ 0xd2 ∷ 0x46 ∷ 0x01 ∷ []
unfolding keccak256_squeeze keccak256_absorb init keccakf
keccak256_empty = refl

shake256_empty : (shake256_squeeze (shake256_absorb init []) 4).0 ≡ 0x46 ∷ 0xb9 ∷ 0xdd ∷ 0x2b ∷ []
unfolding shake256_squeeze shake256_absorb init keccakf
shake256_empty = refl

shake128_empty : (shake128_squeeze (shake128_absorb init []) 4).0 ≡ 0x7f ∷ 0x9c ∷ 0x2b ∷ 0xa4 ∷ []
unfolding shake128_squeeze shake128_absorb init keccakf
shake128_empty = refl
