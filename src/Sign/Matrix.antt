-- ===== src/Sign/Matrix.antt =====
-- The entries of the matrix that combined_method of src/mldsa87/sign.c samples, and the stream of
-- SHAKE128 that they come from.
use mathlib.Core.List.{append_assoc, append-nil}
use ledger_app_qrl_v.Prelude.{
  ℕ, zero, suc, ◌+◌, ◌-◌, ◌*◌, ◌%◌, ◌≤◌, ◌<◌, ◌≡◌, ◌∙◌, ap, refl, sym, arith, bit_and-ones, true,
  Bool-cases, some, List, [], ◌∷◌, ◌++◌, All, IsByte, length, length-take, take, drop,
  take-append-drop, drop-length_append, length-drop, take-append_less, take-append_more, take_short,
  ltb, ltb→lt, ltb_false→ge, inl, inr,
}
use ledger_app_qrl_v.Keccak.{Ctx, byte_of_state, next_ctx, squeeze_bytes, squeeze}
use ledger_app_qrl_v.Keccak.Hashes.{shake128_finalize, shake128_squeeze}
use ledger_app_qrl_v.Keccak.Output.{squeeze_bytes-add}
use ledger_app_qrl_v.Reduce.{q_const}
use ledger_app_qrl_v.Poly.{rej_uniform}
use ledger_app_qrl_v.Poly.Sampling.{candidates, accepted, rej_uniform-accepted}
use ledger_app_qrl_v.Sign.Samplers.{seeded128, refill_matrix, matrix_poly}
use ledger_app_qrl_v.Sign.Lengths.{length-squeeze_bytes}
use ledger_app_qrl_v.Sign.Streams.{
  first_256, first_256-append_more, full_take, squeeze_bytes-squeezing,
}

squeeze_bytes-IsByte : (rate n : ℕ) (ctx : Ctx) → All IsByte (squeeze_bytes rate n ctx).0
unfolding squeeze_bytes byte_of_state
squeeze_bytes-IsByte rate zero ctx = tt
squeeze_bytes-IsByte rate (suc n) ctx =
    (rw (bit_and-ones 8 _) (omega arith), squeeze_bytes-IsByte rate n (next_ctx rate ctx))

accepted-append : (xs ys : List ℕ) → accepted (xs ++ ys) ≡ accepted xs ++ accepted ys
unfolding accepted
accepted-append [] ys = refl
accepted-append (x ∷ xs) ys = elim (Bool-cases (ltb x q_const)) [
  | inl e ↦ rw (e, accepted-append xs ys) refl
  | inr e ↦ rw (e, accepted-append xs ys) refl
]

-- Behind whole groups of three bytes, other groups start.
candidates-append :
    (n : ℕ) (xs ys : List ℕ)
    → length xs ≡ n * 3
    → candidates (xs ++ ys) ≡ candidates xs ++ candidates ys
unfolding candidates
candidates-append zero [] ys h = refl
candidates-append zero (x ∷ xs) ys h = absurd (omega arith)
candidates-append (suc n) [] ys h = absurd (omega arith)
candidates-append (suc n) (x ∷ []) ys h = absurd (omega arith)
candidates-append (suc n) (x ∷ y ∷ []) ys h = absurd (omega arith)
candidates-append (suc n) (x ∷ y ∷ z ∷ xs) ys h =
    ap (λ t. ((x + y * 256 + z * 65536) % 8388608) ∷ t) (candidates-append n xs ys (omega arith))

-- The numbers below Q that the bytes stand for.
abbrev pub uniform_samples : List ℕ → List ℕ
uniform_samples bs = accepted (candidates bs)

uniform_samples-append :
    (n : ℕ) (xs ys : List ℕ)
    → length xs ≡ n * 3
    → uniform_samples (xs ++ ys) ≡ uniform_samples xs ++ uniform_samples ys
uniform_samples-append n xs ys h =
    ap accepted (candidates-append n xs ys h) ∙ accepted-append (candidates xs) (candidates ys)

shake128_squeeze_bytes :
    (ctx : Ctx) (n : ℕ) → ctx.squeezing ≡ true → shake128_squeeze ctx n ≡ squeeze_bytes 168 n ctx
unfolding shake128_squeeze squeeze
shake128_squeeze_bytes ctx n h = simp h refl

refilled_lem :
    (got block : List ℕ)
    → All IsByte block
    → length got < 256
    → got ++ rej_uniform (256 - length got) block ≡ take 256 (got ++ uniform_samples block)
refilled_lem got block b h =
    ap (λ t. got ++ t) (rej_uniform-accepted (256 - length got) block b)
    ∙ sym (take-append_less 256 (256 - length got) got (uniform_samples block) (omega arith))

stream_lem :
    (m fuel : ℕ) (ctx : Ctx)
    → (squeeze_bytes 168 (m + fuel * 168) ctx).0
      ≡ (squeeze_bytes 168 m ctx).0
        ++ (squeeze_bytes 168 (fuel * 168) (squeeze_bytes 168 m ctx).1).0
stream_lem m fuel ctx = squeeze_bytes-add 168 m (fuel * 168) ctx

refill_matrix_kept :
    (fuel : ℕ) (ctx : Ctx) (buf : List ℕ) (buf_len : ℕ) (got : List ℕ)
    → 256 ≤ length got
    → refill_matrix fuel ctx buf buf_len (take 256 got) ≡ some (take 256 got)
unfolding refill_matrix
refill_matrix_kept zero ctx buf buf_len got h = rw (full_take got h) refl
refill_matrix_kept (suc fuel) ctx buf buf_len got h = rw (full_take got h) refl

-- What a run of the loop comes to from the first samples of `more` on.
abbrev Refills : (fuel : ℕ) → Type 0
Refills fuel =
    (ctx : Ctx) (buf : List ℕ) (buf_len : ℕ) (got : List ℕ)
    → ctx.squeezing ≡ true
    → buf_len % 3 ≡ 0
    → refill_matrix fuel ctx buf buf_len (take 256 got)
      ≡ first_256 (got ++ uniform_samples (squeeze_bytes 168 (fuel * 168) ctx).0)

refill_matrix-grown :
    (fuel : ℕ) (ctx : Ctx) (buf : List ℕ) (buf_len : ℕ) (got : List ℕ)
    → ctx.squeezing ≡ true
    → buf_len % 3 ≡ 0
    → ltb (length got) 256 ≡ true
    → Refills fuel
    → refill_matrix (suc fuel) ctx buf buf_len (take 256 got)
      ≡ first_256 (got ++ uniform_samples (squeeze_bytes 168 (168 + fuel * 168) ctx).0)
unfolding refill_matrix
refill_matrix-grown fuel ctx buf buf_len got h whole e ih =
    let block = (squeeze_bytes 168 168 ctx).0 in
    let next = (squeeze_bytes 168 168 ctx).1 in
    let later = (squeeze_bytes 168 (fuel * 168) next).0 in
    let size : length block ≡ 168 = length-squeeze_bytes 168 168 ctx in
    let front : take 168 (block ++ drop 168 buf) ≡ block =
      take-append_less 168 0 block (drop 168 buf) (omega (arith, size)) ∙ append-nil block in
    rw
      (
        take_short 256 got (omega (arith, ltb→lt _ _ e)),
        shake128_squeeze_bytes ctx 168 h,
        whole,
        e,
        front,
        refilled_lem got block (squeeze_bytes-IsByte 168 168 ctx) (ltb→lt _ _ e),
        ih next (block ++ drop 168 buf) 168 (got ++ uniform_samples block)
            (squeeze_bytes-squeezing 168 168 ctx ∙ h) refl,
        stream_lem 168 fuel ctx,
        uniform_samples-append 56 block later size,
        append_assoc got (uniform_samples block) (uniform_samples later),
      )
      refl

refill_matrix_lem : (fuel : ℕ) → Refills fuel
unfolding refill_matrix squeeze_bytes candidates accepted
refill_matrix_lem zero ctx buf buf_len got h whole = elim (Bool-cases (ltb (length got) 256)) [
  | inr e ↦
      let full = ltb_false→ge (length got) 256 e in
      refill_matrix_kept zero ctx buf buf_len got full ∙ sym (first_256-append_more got [] full)
  | inl e ↦ rw (append-nil got, take_short 256 got (omega (arith, ltb→lt _ _ e)), e) refl
]
refill_matrix_lem (suc fuel) ctx buf buf_len got h whole =
    elim (Bool-cases (ltb (length got) 256)) [
      | inr e ↦
          let full = ltb_false→ge (length got) 256 e in
          refill_matrix_kept (suc fuel) ctx buf buf_len got full
          ∙ sym (first_256-append_more got _ full)
      | inl e ↦
          let blocks : suc fuel * 168 ≡ 168 + fuel * 168 = omega arith in
          rw blocks
            (refill_matrix-grown fuel ctx buf buf_len got h whole e (refill_matrix_lem fuel))
    ]

two_left : (bs : List ℕ) → length bs ≡ 2 → uniform_samples bs ≡ []
unfolding candidates accepted
two_left [] h = absurd (omega arith)
two_left (x ∷ []) h = absurd (omega arith)
two_left (x ∷ y ∷ []) h = refl
two_left (x ∷ y ∷ z ∷ bs) h = absurd (omega arith)

-- The first round does not use the last two of its bytes, and the next round does not either.
gap_lem :
    (front later : List ℕ)
    → length front ≡ 842
    → uniform_samples (take 840 (front ++ later) ++ drop 842 (front ++ later))
      ≡ uniform_samples front ++ uniform_samples later
gap_lem front later h =
    let used = take 840 front in
    let size : length used ≡ 840 = omega (arith, length-take 840 front, h) in
    let lost : length (drop 840 front) ≡ 2 = omega (arith, length-drop 840 front, h) in
    let behind : drop 842 (front ++ later) ≡ later =
      ap (λ n. drop n (front ++ later)) (sym h) ∙ drop-length_append front later in
    let first : uniform_samples front ≡ uniform_samples used =
      ap uniform_samples (sym (take-append-drop 840 front))
      ∙ uniform_samples-append 280 used (drop 840 front) size
      ∙ ap (λ t. uniform_samples used ++ t) (two_left (drop 840 front) lost)
      ∙ append-nil (uniform_samples used) in
    rw
      (
        take-append_more 840 front later (omega (arith, h)),
        behind,
        uniform_samples-append 280 used later size,
        first,
      )
      refl

-- matrix_poly gives the first 256 numbers below Q that the bytes of SHAKE128 stand for, three each, less two bytes:
-- those at 840 and 841 are read and lost. It has no result only where the bytes that it may read have fewer.
pub matrix_poly-uniform_samples :
    (fuel : ℕ) (rho : List ℕ) (nonce : ℕ)
    → matrix_poly fuel rho nonce
      ≡ first_256 (
          uniform_samples (
            take 840 (shake128_squeeze (seeded128 rho nonce) (842 + fuel * 168)).0
            ++ drop 842 (shake128_squeeze (seeded128 rho nonce) (842 + fuel * 168)).0))
unfolding matrix_poly shake128_finalize
matrix_poly-uniform_samples fuel rho nonce =
    let ctx = seeded128 rho nonce in
    let front = (squeeze_bytes 168 842 ctx).0 in
    let next = (squeeze_bytes 168 842 ctx).1 in
    let later = (squeeze_bytes 168 (fuel * 168) next).0 in
    rw
      (
        shake128_squeeze_bytes ctx 842 refl,
        shake128_squeeze_bytes ctx (842 + fuel * 168) refl,
        rej_uniform-accepted 256 front (squeeze_bytes-IsByte 168 842 ctx),
        refill_matrix_lem fuel next front 840 (uniform_samples front)
            (squeeze_bytes-squeezing 168 842 ctx) refl,
        stream_lem 842 fuel ctx,
        gap_lem front later (length-squeeze_bytes 168 842 ctx),
      )
      refl
