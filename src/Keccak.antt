-- ===== src/Keccak.antt =====
-- The permutation of src/mldsa87/keccakf.c, and the three hash functions that share one sponge:
-- shake256.c, shake128.c and keccak256.c, which differ in the rate and in the domain byte.
-- A lane is a number below 2 ^ 64 and the state is the list of the 25 lanes.
pub mod Sponge
pub mod Lanes
pub mod Padding
pub mod Output
pub mod Hashes
pub mod Digests
mod Tests
use ledger_app_qrl_v.Prelude.{
  ℕ, zero, suc, ◌+◌, ◌-◌, ◌*◌, ◌/◌, ◌%◌, ◌^◌, bit_and, bit_or, bit_xor, Bool, true, false, List, [],
  ◌∷◌, get_or, set, replicate, ◌==◌, if◌then◌else◌,
}

-- `rol64`: the left shift drops what passes bit 63.
unfoldable pub rol64 : (x n : ℕ) → ℕ
rol64 x n = bit_or (x * 2 ^ n % 2 ^ 64) (x / 2 ^ ((64 - n) % 64))

-- `RC`.
abbrev pub round_constants : List ℕ
round_constants =
    0x0000000000000001 ∷ 0x0000000000008082 ∷ 0x800000000000808A ∷ 0x8000000080008000
    ∷ 0x000000000000808B ∷ 0x0000000080000001 ∷ 0x8000000080008081 ∷ 0x8000000000008009
    ∷ 0x000000000000008A ∷ 0x0000000000000088 ∷ 0x0000000080008009 ∷ 0x000000008000000A
    ∷ 0x000000008000808B ∷ 0x800000000000008B ∷ 0x8000000000008089 ∷ 0x8000000000008003
    ∷ 0x8000000000008002 ∷ 0x8000000000000080 ∷ 0x000000000000800A ∷ 0x800000008000000A
    ∷ 0x8000000080008081 ∷ 0x8000000000008080 ∷ 0x0000000080000001 ∷ 0x8000000080008008 ∷ []

-- `r`.
abbrev pub rotations : List ℕ
rotations =
    0 ∷ 1 ∷ 62 ∷ 28 ∷ 27 ∷ 36 ∷ 44 ∷ 6 ∷ 55 ∷ 20 ∷ 3 ∷ 10 ∷ 43 ∷ 25 ∷ 39 ∷ 41 ∷ 45 ∷ 15 ∷ 21 ∷ 8
    ∷ 18 ∷ 2 ∷ 61 ∷ 56 ∷ 14 ∷ []

-- `[f i, f (i + 1), ...]`, `rounds` of them: a `for` loop that fills an array in order.
unfoldable pub tabulate : (i rounds : ℕ) → (ℕ → ℕ) → List ℕ
tabulate i zero f = []
tabulate i (suc rounds) f = f i ∷ tabulate (suc i) rounds f

unfoldable pub column_parity : List ℕ → ℕ → ℕ
column_parity s x =
    bit_xor
      (bit_xor (bit_xor (bit_xor (get_or s x 0) (get_or s (x + 5) 0)) (get_or s (x + 10) 0))
        (get_or s (x + 15) 0))
      (get_or s (x + 20) 0)

unfoldable pub theta : List ℕ → List ℕ
unfolding tabulate column_parity rol64
theta s =
    let c = tabulate 0 5 (column_parity s) in
    let d =
      tabulate 0 5 (λ x. bit_xor (get_or c ((x + 4) % 5) 0) (rol64 (get_or c ((x + 1) % 5) 0) 1)) in
    tabulate 0 25 (λ i. bit_xor (get_or s i 0) (get_or d (i % 5) 0))

-- The loop that fills `B`, which is written at the places `y + 5 * ((2 * x + 3 * y) % 5)`.
unfoldable pub rho_pi : (i rounds : ℕ) (s b : List ℕ) → List ℕ
unfolding rol64
rho_pi i zero s b = b
rho_pi i (suc rounds) s b =
    let x = i % 5 in
    let y = i / 5 in
    rho_pi (suc i) rounds s
      (set b (y + 5 * ((2 * x + 3 * y) % 5)) (rol64 (get_or s i 0) (get_or rotations i 0)))

unfoldable pub chi : List ℕ → List ℕ
unfolding tabulate
chi b = tabulate 0 25 (λ i. bit_xor (get_or b i 0) (
    bit_and (2 ^ 64 - 1 - get_or b ((i + 1) % 5 + 5 * (i / 5)) 0)
      (get_or b ((i + 2) % 5 + 5 * (i / 5)) 0)))

-- One round of the loop of `keccakf`.
unfoldable pub keccak_round : (constant : ℕ) → List ℕ → List ℕ
unfolding theta rho_pi chi
keccak_round constant s =
    let s' = chi (rho_pi 0 25 (theta s) (replicate 25 0)) in
    set s' 0 (bit_xor (get_or s' 0 0) constant)

unfoldable pub keccak_rounds : (constants s : List ℕ) → List ℕ
unfolding keccak_round
keccak_rounds [] s = s
keccak_rounds (c ∷ cs) s = keccak_rounds cs (keccak_round c s)

unfoldable pub keccakf : List ℕ → List ℕ
unfolding keccak_rounds
keccakf s = keccak_rounds round_constants s

-- `shake256_ctx`, `shake128_ctx`, `keccak256_ctx`.
pub record Ctx : Type 0 where
  pub s : List ℕ
  pub pos : ℕ
  pub squeezing : Bool

-- `MEMSET(ctx, 0, sizeof(*ctx))`: `init` and `clear`.
unfoldable pub init : Ctx
init = record { s = replicate 25 0; pos = 0; squeezing = false }

-- `s[pos / 8] ^= byte << (8 * (pos % 8))`
unfoldable pub xor_byte : List ℕ → (pos byte : ℕ) → List ℕ
xor_byte s pos byte = set s (pos / 8) (bit_xor (get_or s (pos / 8) 0) (byte * 2 ^ (8 * (pos % 8))))

-- One byte of `absorb`.
unfoldable pub absorb_byte : (rate : ℕ) → Ctx → ℕ → Ctx
unfolding xor_byte
absorb_byte rate ctx b =
    let s' = xor_byte ctx.s ctx.pos b in
    if suc ctx.pos == rate
    then record { s = keccakf s'; pos = 0; squeezing = ctx.squeezing }
    else record { s = s'; pos = suc ctx.pos; squeezing = ctx.squeezing }

unfoldable pub absorb : (rate : ℕ) → Ctx → List ℕ → Ctx
unfolding absorb_byte
absorb rate ctx [] = ctx
absorb rate ctx (b ∷ bs) = absorb rate (absorb_byte rate ctx b) bs

unfoldable pub finalize : (rate domain : ℕ) → Ctx → Ctx
unfolding xor_byte
finalize rate domain ctx = record {
  s = keccakf (xor_byte (xor_byte ctx.s ctx.pos domain) (rate - 1) 0x80);
  pos = 0;
  squeezing = true;
}

-- `(s[pos / 8] >> (8 * (pos % 8))) & 0xFF`
unfoldable pub byte_of_state : List ℕ → (pos : ℕ) → ℕ
byte_of_state s pos = bit_and (get_or s (pos / 8) 0 / 2 ^ (8 * (pos % 8))) 0xff

-- What follows the output of a byte.
unfoldable pub next_ctx : (rate : ℕ) → Ctx → Ctx
next_ctx rate ctx =
    if suc ctx.pos == rate
    then record { s = keccakf ctx.s; pos = 0; squeezing = ctx.squeezing }
    else record { s = ctx.s; pos = suc ctx.pos; squeezing = ctx.squeezing }

-- The `while (outlen--)` loop.
unfoldable pub squeeze_bytes : (rate outlen : ℕ) → Ctx → List ℕ × Ctx
unfolding byte_of_state next_ctx
squeeze_bytes rate zero ctx = ([], ctx)
squeeze_bytes rate (suc n) ctx =
    let (out, ctx') = squeeze_bytes rate n (next_ctx rate ctx) in
    (byte_of_state ctx.s ctx.pos ∷ out, ctx')

unfoldable pub squeeze : (rate domain outlen : ℕ) → Ctx → List ℕ × Ctx
unfolding squeeze_bytes finalize
squeeze rate domain outlen ctx =
    if ctx.squeezing
    then squeeze_bytes rate outlen ctx
    else squeeze_bytes rate outlen (finalize rate domain ctx)
