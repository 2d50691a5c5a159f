-- ===== src/Keccak/Hashes.antt =====
-- The functions of src/mldsa87/shake256.c, shake128.c and keccak256.c by their names.
use ledger_app_qrl_v.Prelude.{ℕ, List}
use ledger_app_qrl_v.Keccak.{Ctx, absorb, finalize, squeeze}

unfoldable pub shake256_absorb : Ctx → List ℕ → Ctx
unfolding absorb
shake256_absorb ctx input = absorb 136 ctx input

unfoldable pub shake256_finalize : Ctx → Ctx
unfolding finalize
shake256_finalize ctx = finalize 136 0x1F ctx

unfoldable pub shake256_squeeze : Ctx → (outlen : ℕ) → List ℕ × Ctx
unfolding squeeze
shake256_squeeze ctx outlen = squeeze 136 0x1F outlen ctx

unfoldable pub shake128_absorb : Ctx → List ℕ → Ctx
unfolding absorb
shake128_absorb ctx input = absorb 168 ctx input

unfoldable pub shake128_finalize : Ctx → Ctx
unfolding finalize
shake128_finalize ctx = finalize 168 0x1F ctx

unfoldable pub shake128_squeeze : Ctx → (outlen : ℕ) → List ℕ × Ctx
unfolding squeeze
shake128_squeeze ctx outlen = squeeze 168 0x1F outlen ctx

unfoldable pub keccak256_absorb : Ctx → List ℕ → Ctx
unfolding absorb
keccak256_absorb ctx input = absorb 136 ctx input

unfoldable pub keccak256_finalize : Ctx → Ctx
unfolding finalize
keccak256_finalize ctx = finalize 136 0x01 ctx

-- The output is always 32 bytes.
unfoldable pub keccak256_squeeze : Ctx → List ℕ × Ctx
unfolding squeeze
keccak256_squeeze ctx = squeeze 136 0x01 32 ctx
