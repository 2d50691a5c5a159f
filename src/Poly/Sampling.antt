-- ===== src/Poly/Sampling.antt =====
-- What the samplers of src/mldsa87/poly.c write.
use ledger_app_qrl_v.Prelude.{
  ℕ, zero, suc, ◌≤◌, ◌<◌, arith, List, [], ◌∷◌, length, All, ltb→lt, bit_and, bit_or,
  bit_or-shifted, bit_and-ones, ◌≡◌, ◌+◌, ◌%◌, take, IsByte, if◌then◌else◌, refl, ◌*◌, ◌^◌, ltb,
  Bool-cases, inl, inr,
}
use ledger_app_qrl_v.Reduce.{q_const}
use ledger_app_qrl_v.Poly.{rej_uniform}

-- Whatever the bytes and the room, rej_uniform writes no more coefficients than there is room for, and each
-- of them is below Q.
pub rej_uniform_lem :
    (room : ℕ) (bs : List ℕ)
    → (length (rej_uniform room bs) ≤ room) × All (λ c. c < q_const) (rej_uniform room bs)
unfolding rej_uniform
rej_uniform_lem zero bs = (omega arith, tt)
rej_uniform_lem (suc room) [] = (omega arith, tt)
rej_uniform_lem (suc room) (b0 ∷ []) = (omega arith, tt)
rej_uniform_lem (suc room) (b0 ∷ b1 ∷ []) = (omega arith, tt)
rej_uniform_lem (suc room) (b0 ∷ b1 ∷ b2 ∷ bs) =
    let t = bit_and (bit_or (bit_or b0 (b1 * 2 ^ 8)) (b2 * 2 ^ 16)) 0x7fffff in
    let (few, small) = rej_uniform_lem room bs in
    elim (Bool-cases (ltb t q_const)) [
      | inl e ↦ rw e (omega (arith, few), (ltb→lt t q_const e, small))
      | inr e ↦ rw e (rej_uniform_lem (suc room) bs)
    ]

-- The numbers that the bytes stand for: three bytes, the least significant first, less the highest bit.
unfoldable pub candidates : List ℕ → List ℕ
candidates (b0 ∷ b1 ∷ b2 ∷ bs) = ((b0 + b1 * 256 + b2 * 65536) % 8388608) ∷ candidates bs
candidates _ = []

-- The numbers of the list that are below Q, in their order.
unfoldable pub accepted : List ℕ → List ℕ
accepted [] = []
accepted (x ∷ xs) = let rest = accepted xs in if ltb x q_const then x ∷ rest else rest

candidate_lem :
    (b0 b1 b2 : ℕ)
    → b0 < 256
    → b1 < 256
    → bit_and (bit_or (bit_or b0 (b1 * 2 ^ 8)) (b2 * 2 ^ 16)) 0x7fffff
      ≡ (b0 + b1 * 256 + b2 * 65536) % 8388608
candidate_lem b0 b1 b2 h0 h1 =
    rw (bit_or-shifted 8 b0 b1 h0, bit_or-shifted 16 (b0 + b1 * 2 ^ 8) b2 (omega arith))
      (bit_and-ones 23 (b0 + b1 * 2 ^ 8 + b2 * 2 ^ 16))

-- Of any bytes, rej_uniform writes the first numbers below Q that the bytes stand for, three bytes each, as
-- many as there is room for.
pub rej_uniform-accepted :
    (room : ℕ) (bs : List ℕ)
    → All IsByte bs
    → rej_uniform room bs ≡ take room (accepted (candidates bs))
unfolding rej_uniform candidates accepted
rej_uniform-accepted zero bs h = refl
rej_uniform-accepted (suc room) [] h = refl
rej_uniform-accepted (suc room) (b0 ∷ []) h = refl
rej_uniform-accepted (suc room) (b0 ∷ b1 ∷ []) h = refl
rej_uniform-accepted (suc room) (b0 ∷ b1 ∷ b2 ∷ bs) (h0, (h1, (h2, h))) =
    let t = (b0 + b1 * 256 + b2 * 65536) % 8388608 in
    rw (candidate_lem b0 b1 b2 h0 h1) (elim (Bool-cases (ltb t q_const)) [
      | inl e ↦ rw (e, rej_uniform-accepted room bs h) refl
      | inr e ↦ rw (e, rej_uniform-accepted (suc room) bs h) refl
    ])
