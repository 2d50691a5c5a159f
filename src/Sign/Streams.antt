-- ===== src/Sign/Streams.antt =====
-- The secret polynomials that poly_uniform_eta of src/mldsa87/poly.c samples, and the stream of
-- SHAKE256 that they come from.
use mathlib.Core.List.{append_assoc, append-nil}
use ledger_app_qrl_v.Prelude.{
  ℕ, zero, suc, ◌+◌, ◌-◌, ◌*◌, ◌/◌, ◌^◌, ◌≤◌, ◌<◌, ◌≡◌, ◌∙◌, ap, refl, sym, arith, bit_and, true,
  false, Bool-cases, Option, none, some, List, [], ◌∷◌, ◌++◌, ◌==◌, length, length-append,
  length-take, take, take-append_less, take-append_more, take_short, ltb, ltb→lt, ltb_false→ge,
  ge→ltb_false, if◌then◌else◌, inl, inr,
}
use ledger_app_qrl_v.Keccak.{Ctx, next_ctx, squeeze_bytes, squeeze}
use ledger_app_qrl_v.Keccak.Hashes.{shake256_finalize, shake256_squeeze}
use ledger_app_qrl_v.Keccak.Output.{squeeze_bytes-add}
use ledger_app_qrl_v.Poly.{eta_sample, rej_eta}
use ledger_app_qrl_v.Sign.Samplers.{seeded256, refill_eta, poly_uniform_eta}

-- The samples that the bytes stand for: of the low and the high half of each byte, those below 15.
unfoldable pub eta_samples : List ℕ → List ℕ
eta_samples [] = []
eta_samples (b ∷ bs) =
    let rest = eta_samples bs in
    let t0 = bit_and b 0x0F in
    let t1 = b / 2 ^ 4 in
    let high = if ltb t1 15 then eta_sample t1 ∷ rest else rest in
    if ltb t0 15 then eta_sample t0 ∷ high else high

-- The first 256, where there are as many.
abbrev pub first_256 : List ℕ → Option (List ℕ)
first_256 cs = if ltb (length cs) 256 then none else some (take 256 cs)

eta_samples-append : (xs ys : List ℕ) → eta_samples (xs ++ ys) ≡ eta_samples xs ++ eta_samples ys
unfolding eta_samples
eta_samples-append [] ys = refl
eta_samples-append (b ∷ xs) ys = elim (Bool-cases (ltb (bit_and b 0x0F) 15)) [
  | inl e ↦ elim (Bool-cases (ltb (b / 2 ^ 4) 15)) [
    | inl u ↦ rw (e, u, eta_samples-append xs ys) refl
    | inr u ↦ rw (e, u, eta_samples-append xs ys) refl
  ]
  | inr e ↦ elim (Bool-cases (ltb (b / 2 ^ 4) 15)) [
    | inl u ↦ rw (e, u, eta_samples-append xs ys) refl
    | inr u ↦ rw (e, u, eta_samples-append xs ys) refl
  ]
]

-- rej_eta writes the first samples, as many as there is room for.
pub rej_eta-eta_samples : (room : ℕ) (bs : List ℕ) → rej_eta room bs ≡ take room (eta_samples bs)
unfolding rej_eta eta_samples
rej_eta-eta_samples zero [] = refl
rej_eta-eta_samples (suc room) [] = refl
rej_eta-eta_samples zero (b ∷ bs) = refl
rej_eta-eta_samples (suc zero) (b ∷ bs) = elim (Bool-cases (ltb (bit_and b 0x0F) 15)) [
  | inl e ↦ elim (Bool-cases (ltb (b / 2 ^ 4) 15)) [
    | inl u ↦ rw (e, u, rej_eta-eta_samples 0 bs) refl
    | inr u ↦ rw (e, u, rej_eta-eta_samples 0 bs) refl
  ]
  | inr e ↦ elim (Bool-cases (ltb (b / 2 ^ 4) 15)) [
    | inl u ↦ rw (e, u, rej_eta-eta_samples 0 bs) refl
    | inr u ↦ rw (e, u, rej_eta-eta_samples 1 bs) refl
  ]
]
rej_eta-eta_samples (suc (suc room)) (b ∷ bs) =
    let some_room : ltb 0 (suc (suc room)) ≡ true = ground arith in
    let more_room : ltb 1 (suc (suc room)) ≡ true = ground arith in
    let one_less : suc (suc room) - 1 ≡ suc room = omega arith in
    let two_less : suc (suc room) - 2 ≡ room = omega arith in
    elim (Bool-cases (ltb (bit_and b 0x0F) 15)) [
      | inl e ↦ elim (Bool-cases (ltb (b / 2 ^ 4) 15)) [
        | inl u ↦ rw (e, u, some_room, more_room, two_less, rej_eta-eta_samples room bs) refl
        | inr u ↦ rw (e, u, some_room, one_less, rej_eta-eta_samples (suc room) bs) refl
      ]
      | inr e ↦ elim (Bool-cases (ltb (b / 2 ^ 4) 15)) [
        | inl u ↦ rw (e, u, some_room, one_less, rej_eta-eta_samples (suc room) bs) refl
        | inr u ↦ rw (e, u, some_room, rej_eta-eta_samples (suc (suc room)) bs) refl
      ]
    ]

-- Reading on does not change that the context is squeezed.
pub squeeze_bytes-squeezing :
    (rate n : ℕ) (ctx : Ctx) → (squeeze_bytes rate n ctx).1.squeezing ≡ ctx.squeezing
unfolding squeeze_bytes next_ctx
squeeze_bytes-squeezing rate zero ctx = refl
squeeze_bytes-squeezing rate (suc n) ctx = elim (Bool-cases (suc ctx.pos == rate)) [
  | inl e ↦ simp e (squeeze_bytes-squeezing rate n _)
  | inr e ↦ simp e (squeeze_bytes-squeezing rate n _)
]

shake256_squeeze_bytes :
    (ctx : Ctx) (n : ℕ) → ctx.squeezing ≡ true → shake256_squeeze ctx n ≡ squeeze_bytes 136 n ctx
unfolding shake256_squeeze squeeze
shake256_squeeze_bytes ctx n h = simp h refl

pub first_256-append_more :
    (got ys : List ℕ) → 256 ≤ length got → first_256 (got ++ ys) ≡ some (take 256 got)
first_256-append_more got ys h =
    let test : ltb (length (got ++ ys)) 256 ≡ false =
      ge→ltb_false _ _ (omega (arith, length-append got ys, h)) in
    rw (test, take-append_more 256 got ys h) refl

pub full_take : (got : List ℕ) → 256 ≤ length got → ltb (length (take 256 got)) 256 ≡ false
full_take got h = ge→ltb_false _ _ (omega (arith, length-take 256 got, h))

-- A refill adds what is missing.
refilled_lem :
    (got block : List ℕ)
    → length got < 256
    → got ++ rej_eta (256 - length got) block ≡ take 256 (got ++ eta_samples block)
refilled_lem got block h =
    ap (λ t. got ++ t) (rej_eta-eta_samples (256 - length got) block)
    ∙ sym (take-append_less 256 (256 - length got) got (eta_samples block) (omega arith))

stream_lem :
    (fuel : ℕ) (ctx : Ctx)
    → (squeeze_bytes 136 (suc fuel * 136) ctx).0
      ≡ (squeeze_bytes 136 136 ctx).0
        ++ (squeeze_bytes 136 (fuel * 136) (squeeze_bytes 136 136 ctx).1).0
stream_lem fuel ctx =
    let blocks : suc fuel * 136 ≡ 136 + fuel * 136 = omega arith in
    ap (λ n. (squeeze_bytes 136 n ctx).0) blocks ∙ squeeze_bytes-add 136 136 (fuel * 136) ctx

refill_eta_kept :
    (fuel : ℕ) (ctx : Ctx) (got : List ℕ)
    → 256 ≤ length got
    → refill_eta fuel ctx (take 256 got) ≡ some (take 256 got)
unfolding refill_eta
refill_eta_kept zero ctx got h = rw (full_take got h) refl
refill_eta_kept (suc fuel) ctx got h = rw (full_take got h) refl

-- One round of the loop, before there are 256.
refill_eta-grown :
    (fuel : ℕ) (ctx : Ctx) (got : List ℕ)
    → ctx.squeezing ≡ true
    → ltb (length got) 256 ≡ true
    → ((next : Ctx) (more : List ℕ)
        → next.squeezing ≡ true
        → refill_eta fuel next (take 256 more)
          ≡ first_256 (more ++ eta_samples (squeeze_bytes 136 (fuel * 136) next).0))
    → refill_eta (suc fuel) ctx (take 256 got)
      ≡ first_256 (got ++ eta_samples (squeeze_bytes 136 (suc fuel * 136) ctx).0)
unfolding refill_eta
refill_eta-grown fuel ctx got h e ih =
    let block = (squeeze_bytes 136 136 ctx).0 in
    let next = (squeeze_bytes 136 136 ctx).1 in
    rw
      (
        take_short 256 got (omega (arith, ltb→lt _ _ e)),
        shake256_squeeze_bytes ctx 136 h,
        e,
        refilled_lem got block (ltb→lt _ _ e),
        ih next (got ++ eta_samples block) (squeeze_bytes-squeezing 136 136 ctx ∙ h),
        stream_lem fuel ctx,
        eta_samples-append block (squeeze_bytes 136 (fuel * 136) next).0,
        append_assoc got (eta_samples block) (eta_samples (squeeze_bytes 136 (fuel * 136) next).0),
      )
      refl

-- The loop that refills: from the first samples of `got` on, it comes to the first 256 of these and of
-- what the next blocks give.
refill_eta_lem :
    (fuel : ℕ) (ctx : Ctx) (got : List ℕ)
    → ctx.squeezing ≡ true
    → refill_eta fuel ctx (take 256 got)
      ≡ first_256 (got ++ eta_samples (squeeze_bytes 136 (fuel * 136) ctx).0)
unfolding refill_eta squeeze_bytes eta_samples
refill_eta_lem zero ctx got h = elim (Bool-cases (ltb (length got) 256)) [
  | inr e ↦
      let full = ltb_false→ge (length got) 256 e in
      refill_eta_kept zero ctx got full ∙ sym (first_256-append_more got [] full)
  | inl e ↦ rw (append-nil got, take_short 256 got (omega (arith, ltb→lt _ _ e)), e) refl
]
refill_eta_lem (suc fuel) ctx got h = elim (Bool-cases (ltb (length got) 256)) [
  | inr e ↦
      let full = ltb_false→ge (length got) 256 e in
      refill_eta_kept (suc fuel) ctx got full ∙ sym (first_256-append_more got _ full)
  | inl e ↦ refill_eta-grown fuel ctx got h e (refill_eta_lem fuel)
]

-- poly_uniform_eta gives the first 256 samples of the stream of SHAKE256, read without a gap, and it has no result
-- only where the blocks that it may read have fewer.
pub poly_uniform_eta-eta_samples :
    (fuel : ℕ) (seed : List ℕ) (nonce : ℕ)
    → poly_uniform_eta fuel seed nonce
      ≡ first_256 (eta_samples (shake256_squeeze (seeded256 seed nonce) (suc fuel * 136)).0)
unfolding poly_uniform_eta shake256_finalize
poly_uniform_eta-eta_samples fuel seed nonce =
    let ctx = seeded256 seed nonce in
    let block = (squeeze_bytes 136 136 ctx).0 in
    let next = (squeeze_bytes 136 136 ctx).1 in
    rw
      (
        shake256_squeeze_bytes ctx 136 refl,
        shake256_squeeze_bytes ctx (suc fuel * 136) refl,
        rej_eta-eta_samples 256 block,
        refill_eta_lem fuel next (eta_samples block) (squeeze_bytes-squeezing 136 136 ctx),
        stream_lem fuel ctx,
        eta_samples-append block (squeeze_bytes 136 (fuel * 136) next).0,
      )
      refl
