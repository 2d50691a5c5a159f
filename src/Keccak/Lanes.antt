-- ===== src/Keccak/Lanes.antt =====
-- Absorbing on the state, block by block: what the byte loop of src/mldsa87/shake256.c (and of
-- shake128.c and keccak256.c) amounts to.
use native.Mathlib.Nat.{add-zero, add-suc}
use ledger_app_qrl_v.Prelude.{
  ℕ, zero, suc, ◌+◌, ◌*◌, ◌/◌, ◌%◌, ◌^◌, ◌<◌, ◌≡◌, refl, sym, ap, ◌∙◌, arith, bit_xor,
  bit_xor_assoc, bit_xor-shifted, bit_xor-zero, Bool, true, false, List, [], ◌∷◌, ◌++◌, length,
  get_or, set, ◌==◌, All,
}
use ledger_app_qrl_v.Keccak.{Ctx, xor_byte, absorb_byte, absorb, keccakf}

-- The bytes joined to the state from byte `pos` on.
unfoldable pub xor_bytes : List ℕ → (pos : ℕ) → List ℕ → List ℕ
unfolding xor_byte
xor_bytes s pos [] = s
xor_bytes s pos (b ∷ bs) = xor_bytes (xor_byte s pos b) (suc pos) bs

-- Each block is joined to the state, which is then permuted.
unfoldable pub absorb_blocks : List ℕ → List (List ℕ) → List ℕ
unfolding xor_bytes
absorb_blocks s [] = s
absorb_blocks s (block ∷ blocks) = absorb_blocks (keccakf (xor_bytes s 0 block)) blocks

abbrev pub concat : List (List ℕ) → List ℕ
concat [] = []
concat (block ∷ blocks) = block ++ concat blocks

pub absorb-append :
    (rate : ℕ) (ctx : Ctx) (xs ys : List ℕ)
    → absorb rate ctx (xs ++ ys) ≡ absorb rate (absorb rate ctx xs) ys
unfolding absorb
absorb-append rate ctx [] ys = refl
absorb-append rate ctx (x ∷ xs) ys = absorb-append rate (absorb_byte rate ctx x) xs ys

abbrev pub ctx_at : List ℕ → ℕ → Bool → Ctx
ctx_at s pos squeezing = record { s = s; pos = pos; squeezing = squeezing }

absorb_byte-within :
    (rate : ℕ) (s : List ℕ) (pos : ℕ) (q : Bool) (b : ℕ)
    → suc pos < rate
    → absorb_byte rate (ctx_at s pos q) b ≡ ctx_at (xor_byte s pos b) (suc pos) q
unfolding absorb_byte
absorb_byte-within rate s pos q b h = rw (differs) refl
  where
    differs : (suc pos == rate) ≡ false
    differs = ground (arith, h)

absorb_byte-last :
    (s : List ℕ) (pos : ℕ) (q : Bool) (b : ℕ)
    → absorb_byte (suc pos) (ctx_at s pos q) b ≡ ctx_at (keccakf (xor_byte s pos b)) 0 q
unfolding absorb_byte
absorb_byte-last s pos q b = rw (same) refl
  where
    same : (suc pos == suc pos) ≡ true
    same = ground arith

-- Bytes that do not fill the block.
pub absorb-within :
    (rate : ℕ) (s : List ℕ) (pos : ℕ) (q : Bool) (bs : List ℕ)
    → pos + length bs < rate
    → absorb rate (ctx_at s pos q) bs ≡ ctx_at (xor_bytes s pos bs) (pos + length bs) q
unfolding absorb xor_bytes
absorb-within rate s pos q [] h = rw (add-zero pos) refl
absorb-within rate s pos q (b ∷ bs) h =
    rw (absorb_byte-within rate s pos q b (omega (arith, h)), one_on pos (length bs))
      (absorb-within rate (xor_byte s pos b) (suc pos) q bs (omega (arith, h)))
  where
    one_on : (p n : ℕ) → p + suc n ≡ suc p + n
    one_on p n = omega arith

-- Bytes that fill it.
pub absorb-full :
    (rate : ℕ) (s : List ℕ) (pos : ℕ) (q : Bool) (b : ℕ) (bs : List ℕ)
    → pos + suc (length bs) ≡ rate
    → absorb rate (ctx_at s pos q) (b ∷ bs) ≡ ctx_at (keccakf (xor_bytes s pos (b ∷ bs))) 0 q
unfolding absorb xor_bytes
absorb-full rate s pos q b [] h =
    rw (sym (h), add-suc pos 0, add-zero pos) (absorb_byte-last s pos q b)
absorb-full rate s pos q b (c ∷ bs) h =
    rw (absorb_byte-within rate s pos q b (omega (arith, h)))
      (absorb-full rate (xor_byte s pos b) (suc pos) q c bs (omega (arith, h)))

pub absorb-concat :
    (rate : ℕ) (s : List ℕ) (q : Bool) (blocks : List (List ℕ))
    → 0 < rate
    → All (λ block. length block ≡ rate) blocks
    → absorb rate (ctx_at s 0 q) (concat blocks) ≡ ctx_at (absorb_blocks s blocks) 0 q
unfolding absorb_blocks
absorb-concat rate s q [] p h = unfold absorb in refl
absorb-concat rate s q ([] ∷ blocks) p h = absurd (omega (arith, h.0, p))
absorb-concat rate s q ((b ∷ bs) ∷ blocks) p h =
    absorb-append rate (ctx_at s 0 q) (b ∷ bs) (concat blocks)
    ∙ rw (absorb-full rate s 0 q b bs (omega (arith, h.0)))
        (absorb-concat rate (keccakf (xor_bytes s 0 (b ∷ bs))) q blocks p h.1)

-- A byte at a place that already had one, and a zero byte.
set_twice :
    (xs : List ℕ) (i : ℕ) (f g : ℕ → ℕ)
    → set (set xs i (f (get_or xs i 0))) i (g (get_or (set xs i (f (get_or xs i 0))) i 0))
      ≡ set xs i (g (f (get_or xs i 0)))
set_twice [] i f g = refl
set_twice (x ∷ xs) zero f g = refl
set_twice (x ∷ xs) (suc i) f g = ap (λ t. x ∷ t) (set_twice xs i f g)

set_same : (xs : List ℕ) (i : ℕ) → set xs i (get_or xs i 0) ≡ xs
set_same [] i = refl
set_same (x ∷ xs) zero = refl
set_same (x ∷ xs) (suc i) = ap (λ t. x ∷ t) (set_same xs i)

pub xor_byte_twice :
    (s : List ℕ) (pos a b : ℕ) → xor_byte (xor_byte s pos a) pos b ≡ xor_byte s pos (bit_xor a b)
unfolding xor_byte
xor_byte_twice s pos a b =
    set_twice s (pos / 8) (λ x. bit_xor x (a * 2 ^ (8 * (pos % 8))))
      (λ x. bit_xor x (b * 2 ^ (8 * (pos % 8))))
    ∙ rw (bit_xor_assoc, bit_xor-shifted (8 * (pos % 8)) a b) refl

pub xor_byte-zero : (s : List ℕ) (pos : ℕ) → xor_byte s pos 0 ≡ s
unfolding xor_byte
xor_byte-zero s pos = rw (nothing (2 ^ (8 * (pos % 8))), bit_xor-zero) (set_same s (pos / 8))
  where
    nothing : (p : ℕ) → 0 * p ≡ 0
    nothing p = omega arith
