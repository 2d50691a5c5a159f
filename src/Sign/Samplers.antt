-- ===== src/Sign/Samplers.antt =====
-- Polynomials sampled from SHAKE: src/mldsa87/poly.c, and the inlined samplers of
-- src/mldsa87/sign.c.
use ledger_app_qrl_v.Prelude.{
  ℕ, zero, suc, ◌+◌, ◌-◌, ◌*◌, ◌/◌, ◌%◌, ◌^◌, not, Option, none, some, List, [], ◌∷◌, ◌++◌, length,
  get_or, set, take, drop, replicate, bit_or, Outcome, ok, reject, ltb, leb, ◌==◌, if◌then◌else◌,
}
use ledger_app_qrl_v.Prelude.Fuel.{◌>>=◌}
use ledger_app_qrl_v.Word32.{sub32}
use ledger_app_qrl_v.Keccak.{Ctx, init}
use ledger_app_qrl_v.Keccak.Hashes.{
  shake256_absorb, shake256_finalize, shake256_squeeze, shake128_absorb, shake128_finalize,
  shake128_squeeze,
}
use ledger_app_qrl_v.Poly.{rej_uniform, rej_eta, poly_z_unpack}

-- `{(uint8_t) nonce, (uint8_t) (nonce >> 8)}`
abbrev pub nonce_bytes : ℕ → List ℕ
nonce_bytes nonce = (nonce % 256) ∷ (nonce / 256 % 256) ∷ []

abbrev pub seeded256 : (seed : List ℕ) → (nonce : ℕ) → Ctx
seeded256 seed nonce =
    shake256_finalize (shake256_absorb (shake256_absorb init seed) (nonce_bytes nonce))

abbrev pub seeded128 : (seed : List ℕ) → (nonce : ℕ) → Ctx
seeded128 seed nonce =
    shake128_finalize (shake128_absorb (shake128_absorb init seed) (nonce_bytes nonce))

-- `while (ctr < N)` of poly_uniform_eta: `a` has the coefficients written so far.
unfoldable pub refill_eta : (fuel : ℕ) → Ctx → List ℕ → Option (List ℕ)
refill_eta zero ctx a = if ltb (length a) 256 then none else some a
refill_eta (suc fuel) ctx a =
    let (buf, ctx') = shake256_squeeze ctx 136 in
    let rest = refill_eta fuel ctx' (a ++ rej_eta (256 - length a) buf) in
    if ltb (length a) 256 then rest else some a

unfoldable pub poly_uniform_eta : (fuel : ℕ) → (seed : List ℕ) → (nonce : ℕ) → Option (List ℕ)
poly_uniform_eta fuel seed nonce =
    let (buf, ctx) = shake256_squeeze (seeded256 seed nonce) 136 in
    refill_eta fuel ctx (rej_eta 256 buf)

-- The refill loop of combined_method: the bytes left over move to the front of the buffer, and a
-- block is read behind them.
unfoldable pub refill_matrix :
    (fuel : ℕ) → Ctx → (buf : List ℕ) → (buf_len : ℕ) → List ℕ → Option (List ℕ)
refill_matrix zero ctx buf buf_len a = if ltb (length a) 256 then none else some a
refill_matrix (suc fuel) ctx buf buf_len a =
    let off = buf_len % 3 in
    let (block, ctx') = shake128_squeeze ctx 168 in
    let buf' = take off (drop (buf_len - off) buf) ++ (block ++ drop (off + 168) buf) in
    let got = rej_uniform (256 - length a) (take (168 + off) buf') in
    let rest = refill_matrix fuel ctx' buf' (168 + off) (a ++ got) in
    if ltb (length a) 256 then rest else some a

-- The entry of the matrix that combined_method computes with; the first round goes over all 842
-- bytes that were read.
unfoldable pub matrix_poly : (fuel : ℕ) → (rho : List ℕ) → (nonce : ℕ) → Option (List ℕ)
matrix_poly fuel rho nonce =
    let (buf, ctx) = shake128_squeeze (seeded128 rho nonce) (840 + 2) in
    refill_matrix fuel ctx buf 840 (rej_uniform 256 buf)

-- poly_uniform writes what a refill gives from the first coefficient on, not from `ctr` on. `a` has
-- all 256 coefficients, `ptr` is the place in the buffer.
unfoldable pub refill_uniform :
    (fuel : ℕ)
    → Ctx
    → (a : List ℕ) → (ctr : ℕ) → (buf : List ℕ) → (ptr buf_len : ℕ) → Option (List ℕ)
refill_uniform zero ctx a ctr buf ptr buf_len = if ltb ctr 256 then none else some a
refill_uniform (suc fuel) ctx a ctr buf ptr buf_len =
    let off = buf_len % 3 in
    let moved = take off (drop (buf_len - off) buf) ++ drop off buf in
    let ptr' = ptr + off in
    let (block, ctx') = shake128_squeeze ctx 168 in
    let buf' = take ptr' moved ++ (block ++ drop (ptr' + 168) moved) in
    let got = rej_uniform (256 - ctr) (take (168 + off) buf') in
    let rest =
      refill_uniform fuel ctx' (got ++ drop (length got) a) (ctr + length got) buf' ptr'
        (168 + off) in
    if ltb ctr 256 then rest else some a

unfoldable pub poly_uniform : (fuel : ℕ) → (a seed : List ℕ) → (nonce : ℕ) → Option (List ℕ)
poly_uniform fuel a seed nonce =
    let (buf, ctx) = shake128_squeeze (seeded128 seed nonce) (840 + 2) in
    let got = rej_uniform 256 (take 840 buf) in
    refill_uniform fuel ctx (got ++ drop (length got) a) (length got) buf 0 840

unfoldable pub poly_uniform_gamma1 : (seed : List ℕ) → (nonce : ℕ) → List ℕ
poly_uniform_gamma1 seed nonce =
    poly_z_unpack (take 640 (shake256_squeeze (seeded256 seed nonce) (5 * 136)).0)

-- The stream of poly_challenge: the buffer and the place in it.
pub record Stream : Type 0 where
  pub ctx : Ctx
  pub buf : List ℕ
  pub pos : ℕ

-- `while (1)`: the next byte that is not above `i`.
unfoldable pub next_place : (fuel i : ℕ) → Stream → Option (ℕ × Stream)
next_place zero i st = none
next_place (suc fuel) i st =
    let refilled = leb 136 st.pos in
    let (block, ctx') = shake256_squeeze st.ctx 136 in
    let buf = if refilled then block else st.buf in
    let pos = if refilled then 0 else st.pos in
    let b = get_or buf pos 0 in
    let st' : Stream = record {
      ctx = if refilled then ctx' else st.ctx;
      buf = buf;
      pos = suc pos;
    } in
    let rest = next_place fuel i st' in if ltb i b then rest else some (b, st')

-- `for (int i = N - TAU; i < N; i++)`, with the rounds that are left.
unfoldable pub challenge_loop : (fuel rounds i signs : ℕ) → Stream → List ℕ → Option (List ℕ)
challenge_loop fuel zero i signs st c = some c
challenge_loop fuel (suc rounds) i signs st c = do
  (b, st') ← next_place fuel i st
  let moved = set c i (get_or c b 0)
  let signed = set moved b (sub32 1 (2 * (signs % 2)))
  challenge_loop fuel rounds (suc i) (signs / 2) st' signed

-- `signs |= (uint64_t) buf[i] << (8 * i)`, from place `i` on.
unfoldable pub sign_bits : (rounds i : ℕ) → List ℕ → ℕ → ℕ
sign_bits zero i buf signs = signs
sign_bits (suc rounds) i buf signs =
    sign_bits rounds (suc i) buf (bit_or signs (get_or buf i 0 * 2 ^ (8 * i)))

unfoldable pub poly_challenge_volatile : (fuel : ℕ) → (seed : List ℕ) → Option (List ℕ)
poly_challenge_volatile fuel seed =
    let (buf, ctx) = shake256_squeeze (shake256_finalize (shake256_absorb init seed)) 136 in
    challenge_loop fuel 60 196 (sign_bits 8 0 buf 0) (record { ctx = ctx; buf = buf; pos = 8 })
      (replicate 256 0)

-- The same with a check; `reject` is ERR_INVALID_SEED_LENGTH.
unfoldable pub poly_challenge : (fuel : ℕ) → (seed : List ℕ) → Outcome (Option (List ℕ))
poly_challenge fuel seed =
    if not (length seed == 64) then reject else ok (poly_challenge_volatile fuel seed)

-- Of polyvec.c, not called by the application: poly_vec_matrix_expand. The matrix holds old polynomials before.
unfoldable pub expand_row : (fuel i j : ℕ) → (rho : List ℕ) → List (List ℕ) → Option (List (List ℕ))
expand_row fuel i j rho [] = some []
expand_row fuel i j rho (old ∷ olds) = do
  entry ← poly_uniform fuel old rho ((i * 256 + j) % 2 ^ 16)
  entries ← expand_row fuel i (suc j) rho olds
  some (entry ∷ entries)

unfoldable pub expand_rows :
    (fuel i : ℕ) → (rho : List ℕ) → List (List (List ℕ)) → Option (List (List (List ℕ)))
expand_rows fuel i rho [] = some []
expand_rows fuel i rho (row ∷ mat) = do
  entries ← expand_row fuel i 0 rho row
  rows ← expand_rows fuel (suc i) rho mat
  some (entries ∷ rows)

unfoldable pub poly_vec_matrix_expand :
    (fuel : ℕ) → (mat : List (List (List ℕ))) → (rho : List ℕ) → Option (List (List (List ℕ)))
poly_vec_matrix_expand fuel mat rho = expand_rows fuel 0 rho mat

-- Of polyvec.c, not called by the application: the polynomials from `i` on, `rounds` of them.
unfoldable pub gamma1_from : (rounds i : ℕ) → (seed : List ℕ) → (nonce : ℕ) → List (List ℕ)
gamma1_from zero i seed nonce = []
gamma1_from (suc rounds) i seed nonce =
    poly_uniform_gamma1 seed ((7 * nonce + i) % 2 ^ 16) ∷ gamma1_from rounds (suc i) seed nonce

unfoldable pub poly_vec_l_uniform_gamma1 : (seed : List ℕ) → (nonce : ℕ) → List (List ℕ)
poly_vec_l_uniform_gamma1 seed nonce = gamma1_from 7 0 seed nonce
