-- ===== src/Keccak/Padding.antt =====
-- The sponge as a specification: the message padded to whole blocks, each block absorbed at once, and
-- the output read off the permuted states.
use native.Mathlib.Nat.{mod-lt, div-add-mod'}
use ledger_app_qrl_v.Prelude.{
  ℕ, zero, suc, ◌+◌, ◌-◌, ◌*◌, ◌/◌, ◌%◌, ◌<◌, ◌≡◌, refl, ap, ◌∙◌, arith, bit_xor, List, [], ◌∷◌,
  ◌++◌, length, length-append, length-take, length-drop, take, drop, take-append-drop, replicate,
  length-replicate, ◌==◌, if◌then◌else◌, Bool-cases, inl, inr, All,
}
use ledger_app_qrl_v.Keccak.{keccakf, byte_of_state}
use ledger_app_qrl_v.Keccak.Lanes.{absorb_blocks, concat}

-- What is put behind the message: the domain byte, zeros, and the bit 0x80 in the block's last byte,
-- which may be the byte of the domain.
unfoldable pub padding : (rate domain used : ℕ) → List ℕ
padding rate domain used =
    if suc used == rate
    then bit_xor domain 0x80 ∷ []
    else domain ∷ (replicate (rate - 2 - used) 0 ++ (0x80 ∷ []))

-- The first `count` blocks of `rate` bytes.
unfoldable pub split_blocks : (rate count : ℕ) → List ℕ → List (List ℕ)
split_blocks rate zero xs = []
split_blocks rate (suc count) xs = take rate xs ∷ split_blocks rate count (drop rate xs)

-- `n` bytes of the state from byte `pos` on.
unfoldable pub state_bytes : (pos n : ℕ) → List ℕ → List ℕ
unfolding byte_of_state
state_bytes pos zero s = []
state_bytes pos (suc n) s = byte_of_state s pos ∷ state_bytes (suc pos) n s

-- The output blocks: `rate` bytes of the state, and of the state permuted, and so on.
unfoldable pub output_blocks : (rate count : ℕ) → List ℕ → List ℕ
unfolding state_bytes
output_blocks rate zero s = []
output_blocks rate (suc count) s = state_bytes 0 rate s ++ output_blocks rate count (keccakf s)

unfoldable pub padded : (rate domain : ℕ) → List ℕ → List ℕ
unfolding padding
padded rate domain message = message ++ padding rate domain (length message % rate)

unfoldable pub sponge : (rate domain : ℕ) → (message : List ℕ) → (outlen : ℕ) → List ℕ
unfolding padded split_blocks absorb_blocks output_blocks
sponge rate domain message outlen =
    let blocks = split_blocks rate (length message / rate + 1) (padded rate domain message) in
    take outlen (output_blocks rate (outlen / rate + 1) (absorb_blocks (replicate 25 0) blocks))

pub length-padding :
    (rate domain used : ℕ) → used < rate → length (padding rate domain used) ≡ rate - used
unfolding padding
length-padding rate domain used h = elim (Bool-cases (suc used == rate)) [
  | inl e ↦ rw e (ground arith)
  | inr n ↦
      rw
        (
          n,
          length-append {A = ℕ} (replicate (rate - 2 - used) 0) (0x80 ∷ []),
          length-replicate {A = ℕ} (rate - 2 - used) 0,
        )
        (ground arith)
]

pub concat-split_blocks :
    (rate count : ℕ) (xs : List ℕ)
    → length xs ≡ count * rate
    → concat (split_blocks rate count xs) ≡ xs
unfolding split_blocks
concat-split_blocks rate zero [] h = refl
concat-split_blocks rate zero (x ∷ xs) h = absurd (omega (arith, h))
concat-split_blocks rate (suc count) xs h =
    ap (λ t. take rate xs ++ t)
      (concat-split_blocks rate count (drop rate xs) (omega (arith, length-drop rate xs, h)))
    ∙ take-append-drop rate xs

pub split_blocks-full :
    (rate count : ℕ) (xs : List ℕ)
    → length xs ≡ count * rate
    → All (λ block. length block ≡ rate) (split_blocks rate count xs)
unfolding split_blocks
split_blocks-full rate zero xs h = tt
split_blocks-full rate (suc count) xs h = (
  omega (arith, length-take rate xs, h),
  split_blocks-full rate count (drop rate xs) (omega (arith, length-drop rate xs, h)),
)

pub length-padded :
    (rate domain : ℕ) (message : List ℕ)
    → 0 < rate
    → length (padded rate domain message) ≡ (length message / rate + 1) * rate
unfolding padded
length-padded rate domain message h =
    length-append message (padding rate domain (length message % rate))
    ∙ omega (
      arith,
      length-padding rate domain (length message % rate) (mod-lt (length message) h),
      div-add-mod' (length message) rate,
      mod-lt (length message) h,
    )
