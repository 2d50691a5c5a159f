-- ===== src/Keccak/Digests.antt =====
-- The digests of src/mldsa87/shake256.c, shake128.c and keccak256.c.
use ledger_app_qrl_v.Prelude.{ℕ, ◌≡◌, arith, List}
use ledger_app_qrl_v.Keccak.{init}
use ledger_app_qrl_v.Keccak.Hashes.{
  shake256_absorb, shake256_finalize, shake256_squeeze, shake128_absorb, shake128_finalize,
  shake128_squeeze, keccak256_absorb, keccak256_finalize, keccak256_squeeze,
}
use ledger_app_qrl_v.Keccak.Padding.{sponge}
use ledger_app_qrl_v.Keccak.Output.{squeeze_lem}

-- Each of the three hash functions computes the sponge of its rate and domain byte: the message is
-- padded, split into blocks, absorbed block by block, and the output read off block by block.
pub digests_lem :
    (message : List ℕ) (outlen : ℕ)
    → ((shake256_squeeze (shake256_finalize (shake256_absorb init message)) outlen).0
        ≡ sponge 136 0x1F message outlen)
      × ((shake128_squeeze (shake128_finalize (shake128_absorb init message)) outlen).0
          ≡ sponge 168 0x1F message outlen)
      × ((keccak256_squeeze (keccak256_finalize (keccak256_absorb init message))).0
          ≡ sponge 136 0x01 message 32)
unfolding shake256_squeeze shake256_finalize shake256_absorb shake128_squeeze shake128_finalize
    shake128_absorb keccak256_squeeze keccak256_finalize keccak256_absorb
digests_lem message outlen = (
  squeeze_lem 136 0x1F message outlen (omega arith),
  squeeze_lem 168 0x1F message outlen (omega arith),
  squeeze_lem 136 0x01 message 32 (omega arith),
)
