-- ===== src/Keccak/Output.antt =====
-- The output side of the sponge of src/mldsa87: `squeeze` reads the output blocks.
use native.Mathlib.Nat.{mod-lt, div-add-mod', suc-add}
use ledger_app_qrl_v.Prelude.{
  ℕ, zero, suc, ◌+◌, ◌-◌, ◌*◌, ◌/◌, ◌≤◌, ◌<◌, ◌≡◌, refl, ap, ◌∙◌, arith, Bool, true, false, List,
  ◌∷◌, ◌++◌, take, ◌==◌, Bool-cases, inl, inr,
}
use ledger_app_qrl_v.Keccak.{
  Ctx, init, absorb, finalize, byte_of_state, next_ctx, squeeze_bytes, squeeze, keccakf,
}
use ledger_app_qrl_v.Keccak.Lanes.{ctx_at}
use ledger_app_qrl_v.Keccak.Padding.{state_bytes, output_blocks, sponge}
use ledger_app_qrl_v.Keccak.Sponge.{finalize_lem}

-- Two squeezes in a row give the output of one.
pub squeeze_bytes-add :
    (rate m n : ℕ) (ctx : Ctx)
    → (squeeze_bytes rate (m + n) ctx).0
      ≡ (squeeze_bytes rate m ctx).0 ++ (squeeze_bytes rate n (squeeze_bytes rate m ctx).1).0
unfolding squeeze_bytes
squeeze_bytes-add rate zero n ctx = ap (λ k. (squeeze_bytes rate k ctx).0) (omega arith)
squeeze_bytes-add rate (suc m) n ctx =
    ap (λ k. (squeeze_bytes rate k ctx).0) (suc-add m n)
    ∙ ap (λ t. byte_of_state ctx.s ctx.pos ∷ t) (squeeze_bytes-add rate m n (next_ctx rate ctx))

state_bytes_last :
    (pos rate : ℕ) (s : List ℕ)
    → pos < rate
    → state_bytes pos (rate - pos) s
      ≡ byte_of_state s pos ∷ state_bytes (suc pos) (rate - suc pos) s
state_bytes_last pos rate s h =
    ap (λ k. state_bytes pos k s) (one_left rate pos h) ∙ unfold state_bytes in refl
  where
    one_left : (rate pos : ℕ) → pos < rate → rate - pos ≡ suc (rate - suc pos)
    one_left rate pos h = omega arith

next_ctx-within :
    (rate pos : ℕ) (s : List ℕ) (q : Bool)
    → suc pos < rate
    → next_ctx rate (ctx_at s pos q) ≡ ctx_at s (suc pos) q
unfolding next_ctx
next_ctx-within rate pos s q h = rw (differs) refl
  where
    differs : (suc pos == rate) ≡ false
    differs = ground (arith, h)

next_ctx-last :
    (rate pos : ℕ) (s : List ℕ) (q : Bool)
    → suc pos ≡ rate
    → next_ctx rate (ctx_at s pos q) ≡ ctx_at (keccakf s) 0 q
unfolding next_ctx
next_ctx-last rate pos s q h = rw (same) refl
  where
    same : (suc pos == rate) ≡ true
    same = ground (arith, h)

-- The bytes from place `pos` of the block on, for as many blocks as are needed.
rest_of_output : (rate count pos : ℕ) → List ℕ → List ℕ
rest_of_output rate count pos s =
    state_bytes pos (rate - pos) s ++ output_blocks rate count (keccakf s)

-- Behind the last byte of a block comes the next block, if there is more to come.
next_block :
    (rate count n : ℕ) (s : List ℕ) (q : Bool)
    → n ≤ count * rate
    → ((c : ℕ)
        → n ≤ rate - 0 + c * rate
        → (squeeze_bytes rate n (ctx_at s 0 q)).0 ≡ take n (rest_of_output rate c 0 s))
    → (squeeze_bytes rate n (ctx_at s 0 q)).0 ≡ take n (output_blocks rate count s)
unfolding squeeze_bytes rest_of_output output_blocks
next_block rate zero zero s q h rec = refl
next_block rate zero (suc n) s q h rec = absurd (omega (arith, h))
next_block rate (suc c) n s q h rec =
    rec c (omega (arith, h))
    ∙ ap (λ k. take n (state_bytes 0 k s ++ output_blocks rate c (keccakf s))) (omega arith)

none_left : (rate pos : ℕ) → (suc pos == rate) ≡ true → rate - suc pos ≡ 0
none_left rate pos e = ground arith

squeeze_bytes_lem :
    (rate count n pos : ℕ) (s : List ℕ) (q : Bool)
    → pos < rate
    → n ≤ rate - pos + count * rate
    → (squeeze_bytes rate n (ctx_at s pos q)).0 ≡ take n (rest_of_output rate count pos s)
unfolding squeeze_bytes rest_of_output state_bytes
squeeze_bytes_lem rate count zero pos s q h k = refl
squeeze_bytes_lem rate count (suc n) pos s q h k = elim (Bool-cases (suc pos == rate)) [
  | inl e ↦
      rw
        (
          next_ctx-last rate pos s q (ground arith),
          state_bytes_last pos rate s h,
          none_left rate pos e,
        )
        (ap (λ t. byte_of_state s pos ∷ t)
          (next_block rate count n (keccakf s) q (ground (arith, k, h))
            (λ c bound. squeeze_bytes_lem rate c n 0 (keccakf s) q (omega (arith, h)) bound)))
  | inr f ↦
      let more : suc pos < rate = ground arith in
      rw (next_ctx-within rate pos s q more, state_bytes_last pos rate s h)
        (ap (λ t. byte_of_state s pos ∷ t)
          (squeeze_bytes_lem rate count n (suc pos) s q more (omega (arith, k, h))))
]

enough_blocks : (rate n : ℕ) → 0 < rate → n ≤ rate - 0 + n / rate * rate
enough_blocks rate n h = omega (arith, div-add-mod' n rate, mod-lt n h)

whole_output :
    (rate k n : ℕ) (s : List ℕ)
    → take n (rest_of_output rate k 0 s) ≡ take n (output_blocks rate (k + 1) s)
unfolding rest_of_output output_blocks
whole_output rate k n s =
    ap (λ t. take n (state_bytes 0 t s ++ output_blocks rate k (keccakf s))) (start rate)
    ∙ ap (λ t. take n (output_blocks rate t s)) (next k)
  where
    start : (rate : ℕ) → rate - 0 ≡ rate
    start rate = omega arith

    next : (k : ℕ) → suc k ≡ k + 1
    next k = omega arith

-- The digest of a message, absorbed from the start and squeezed at once, is the sponge's.
pub squeeze_lem :
    (rate domain : ℕ) (message : List ℕ) (outlen : ℕ)
    → 0 < rate
    → (squeeze rate domain outlen (finalize rate domain (absorb rate init message))).0
      ≡ sponge rate domain message outlen
squeeze_lem rate domain message outlen h = rw (finalize_lem rate domain message h) (
    unfold squeeze sponge output_blocks in
    squeeze_bytes_lem rate (outlen / rate) outlen 0 _ true h (enough_blocks rate outlen h)
    ∙ whole_output rate (outlen / rate) outlen _)
