-- ===== src/Keccak/Sponge.antt =====
-- The byte-wise sponge of src/mldsa87 computes the padded, block-wise one.
use native.Mathlib.Nat.{add-zero, mod-lt, div-add-mod'}
use ledger_app_qrl_v.Prelude.{
  ℕ, zero, suc, ◌+◌, ◌-◌, ◌*◌, ◌/◌, ◌%◌, ◌<◌, ◌≡◌, refl, sym, ap, ◌∙◌, arith, bit_xor, Bool, true,
  false, List, [], ◌∷◌, ◌++◌, length, length-append, length-replicate, length-take, length-drop,
  take, drop, take-append-drop, replicate, ◌==◌, Bool-cases, inl, inr,
}
use ledger_app_qrl_v.Keccak.{Ctx, init, xor_byte, absorb_byte, absorb, finalize}
use ledger_app_qrl_v.Keccak.Lanes.{
  ctx_at, xor_bytes, absorb_blocks, absorb-append, absorb-within, absorb-full, absorb-concat,
  xor_byte_twice, xor_byte-zero,
}
use ledger_app_qrl_v.Keccak.Padding.{
  padding, padded, split_blocks, concat-split_blocks, split_blocks-full, length-padded,
}

absorb_byte-IsInside :
    (rate : ℕ) (ctx : Ctx) (b : ℕ) → ctx.pos < rate → (absorb_byte rate ctx b).pos < rate
unfolding absorb_byte
absorb_byte-IsInside rate ctx b h = elim (Bool-cases (suc ctx.pos == rate)) [
  | inl e ↦ rw e (omega (arith, h))
  | inr n ↦ rw n (ground arith)
]

-- Absorbing leaves the position inside the block.
pub absorb-IsInside :
    (rate : ℕ) (ctx : Ctx) (bs : List ℕ) → ctx.pos < rate → (absorb rate ctx bs).pos < rate
unfolding absorb
absorb-IsInside rate ctx [] h = h
absorb-IsInside rate ctx (b ∷ bs) h =
    absorb-IsInside rate (absorb_byte rate ctx b) bs (absorb_byte-IsInside rate ctx b h)

xor_zeros :
    (s : List ℕ) (pos n b : ℕ)
    → xor_bytes s pos (replicate n 0 ++ (b ∷ [])) ≡ xor_byte s (pos + n) b
unfolding xor_bytes
xor_zeros s pos zero b = rw (add-zero pos) refl
xor_zeros s pos (suc n) b =
    ap (λ t. xor_bytes t (suc pos) (replicate n 0 ++ (b ∷ []))) (xor_byte-zero s pos)
    ∙ xor_zeros s (suc pos) n b
    ∙ ap (λ p. xor_byte s p b) (omega arith)

-- A block's rest: the domain byte at `pos` and the bit at the end.
xor_padding :
    (rate domain : ℕ) (s : List ℕ) (pos : ℕ)
    → suc pos < rate
    → xor_bytes s pos (domain ∷ (replicate (rate - 2 - pos) 0 ++ (0x80 ∷ [])))
      ≡ xor_byte (xor_byte s pos domain) (rate - 1) 0x80
xor_padding rate domain s pos h =
    unfold xor_bytes in
    xor_zeros (xor_byte s pos domain) (suc pos) (rate - 2 - pos) 0x80
    ∙ ap (λ p. xor_byte (xor_byte s pos domain) p 0x80) (omega (arith, h))

-- `finalize` absorbs the padding.
finalize_absorbs :
    (rate domain : ℕ) (s : List ℕ) (pos : ℕ) (q : Bool)
    → pos < rate
    → absorb rate (ctx_at s pos q) (padding rate domain pos)
      ≡ ctx_at (finalize rate domain (ctx_at s pos q)).s 0 q
unfolding padding finalize
finalize_absorbs rate domain s pos q h = elim (Bool-cases (suc pos == rate)) [
  | inl e ↦
      let last : pos ≡ rate - 1 = ground arith in
      rw e (
        absorb-full rate s pos q (bit_xor domain 0x80) [] (ground arith)
        ∙ rw (sym last, xor_byte_twice s pos domain 0x80) (unfold xor_bytes in refl))
  | inr n ↦
      let more : suc pos < rate = ground arith in
      rw n (
        absorb-full rate s pos q domain (replicate (rate - 2 - pos) 0 ++ (0x80 ∷ [])) (
          omega (
            arith,
            length-append {A = ℕ} (replicate (rate - 2 - pos) 0) (0x80 ∷ []),
            length-replicate {A = ℕ} (rate - 2 - pos) 0,
            more,
          ))
        ∙ rw (xor_padding rate domain s pos more) refl)
]

absorbed_rest :
    (rate : ℕ) (message : List ℕ)
    → 0 < rate
    → (s : List ℕ) × (absorb rate init message ≡ ctx_at s (length message % rate) false)
unfolding init
absorbed_rest rate message h = (
  _,
  ap (absorb rate (ctx_at (replicate 25 0) 0 false)) (sym (take-append-drop full message))
      ∙ absorb-append rate _ (take full message) (drop full message)
      ∙ ap (λ t. absorb rate (absorb rate (ctx_at (replicate 25 0) 0 false) t) (drop full message))
          (sym (concat-split_blocks rate (length message / rate) (take full message) front))
      ∙ ap (λ ctx. absorb rate ctx (drop full message))
          (absorb-concat rate (replicate 25 0) false blocks h
            (split_blocks-full rate (length message / rate) (take full message) front))
      ∙ absorb-within rate (absorb_blocks (replicate 25 0) blocks) 0 false (drop full message)
          (omega (arith, back, mod-lt (length message) h))
      ∙ ap
          (λ p.
            ctx_at (xor_bytes (absorb_blocks (replicate 25 0) blocks) 0 (drop full message)) p
              false)
          (omega (arith, back)),
)
  where
    full : ℕ
    full = length message / rate * rate

    blocks : List (List ℕ)
    blocks = split_blocks rate (length message / rate) (take full message)

    front : length (take full message) ≡ length message / rate * rate
    front = omega (arith, length-take full message, div-add-mod' (length message) rate)

    back : length (drop full message) ≡ length message % rate
    back = omega (arith, length-drop full message, div-add-mod' (length message) rate)

-- However the message was handed over, `finalize` leaves the state of the padded blocks.
pub finalize_lem :
    (rate domain : ℕ) (message : List ℕ)
    → 0 < rate
    → finalize rate domain (absorb rate init message)
      ≡ ctx_at
          (absorb_blocks
            (replicate 25 0)
            (split_blocks rate (length message / rate + 1) (padded rate domain message)))
          0
          true
unfolding finalize
finalize_lem rate domain message h =
    let (s, e) = absorbed_rest rate message h in
    rw e (ap (λ t. ctx_at t 0 true) (ap (λ (ctx : Ctx). ctx.s) (finalized s e)))
  where
    blocks : List (List ℕ)
    blocks = split_blocks rate (length message / rate + 1) (padded rate domain message)

    whole :
        absorb rate init (padded rate domain message)
        ≡ ctx_at (absorb_blocks (replicate 25 0) blocks) 0 false
    whole =
        unfold init in
        ap (absorb rate (ctx_at (replicate 25 0) 0 false))
          (sym (concat-split_blocks rate _ _ (length-padded rate domain message h)))
        ∙ absorb-concat rate (replicate 25 0) false blocks h
            (split_blocks-full rate _ _ (length-padded rate domain message h))

    finalized :
        (s : List ℕ)
        → absorb rate init message ≡ ctx_at s (length message % rate) false
        → ctx_at (finalize rate domain (ctx_at s (length message % rate) false)).s 0 false
          ≡ ctx_at (absorb_blocks (replicate 25 0) blocks) 0 false
    finalized s e =
        sym
          (finalize_absorbs rate domain s (length message % rate) false (mod-lt (length message) h))
        ∙ ap (λ ctx. absorb rate ctx (padding rate domain (length message % rate))) (sym e)
        ∙ sym (absorb-append rate init message (padding rate domain (length message % rate)))
        ∙ (unfold padded in whole)
