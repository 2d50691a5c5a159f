-- ===== src/Signature/Decoding.antt =====
-- What the loop of unpack_sig_volatile on one row of hints does: src/mldsa87/sign.c.
use mathlib.Core.List.{append_assoc, append-nil}
use ledger_app_qrl_v.Prelude.{
  lt→ltb, ge→ltb_false, ℕ, zero, suc, ◌+◌, ◌-◌, ◌≤◌, ◌<◌, ◌≡◌, ◌∙◌, sym, refl, arith, false, ◌&&◌,
  List, [], ◌∷◌, ◌++◌, All, length, set, take, drop, get_or, replicate, if◌then◌else◌, ltb, leb,
  Bool-cases, inl, inr, length-set, length-replicate, ltb_false→ge,
}
use ledger_app_qrl_v.Signature.{decode_row}
use ledger_app_qrl_v.Signature.Rows.{
  positions, IsZero, IsBit, IsAscending, positions-set, All-replicate-IsZero, All-drop_further,
  drop-set, set-IsBit, positions-zeros, positions-IsAscending, positions_inj,
}

-- The loop on the places themselves: each has to be at least `bound`.
place_all : (bound : ℕ) → List ℕ → List ℕ → List ℕ × ℕ
place_all bound [] row = (row, 0)
place_all bound (b ∷ bs) row =
    let rest = place_all (suc b) bs (set row b 1) in if ltb b bound then (row, 1) else rest

-- The bound at `j`: none at the start of the row, then the place before.
abbrev bound_at : (hint : List ℕ) → (k j : ℕ) → ℕ
bound_at hint k j = if ltb k j then suc (get_or hint (j - 1) 0) else 0

take-drop-suc :
    (j r : ℕ) (xs : List ℕ)
    → j < length xs
    → take (suc r) (drop j xs) ≡ get_or xs j 0 ∷ take r (drop (suc j) xs)
take-drop-suc j r [] h = absurd (omega arith)
take-drop-suc zero r (x ∷ xs) h = refl
take-drop-suc (suc j) r (x ∷ xs) h = take-drop-suc j r xs (omega arith)

bound_at-suc : (hint : List ℕ) (k j : ℕ) → k ≤ j → bound_at hint k (suc j) ≡ suc (get_or hint j 0)
bound_at-suc hint k j h =
    let prior : suc j - 1 ≡ j = omega arith in rw (lt→ltb k (suc j) (omega arith), prior) refl

same_test : (k j b p : ℕ) → (ltb k j && leb b p) ≡ ltb b (if ltb k j then suc p else 0)
same_test k j b p = ground arith

decode_row-place_all :
    (hint : List ℕ) (k j r : ℕ) (row : List ℕ)
    → k ≤ j
    → j + r ≤ length hint
    → decode_row hint k j r row ≡ place_all (bound_at hint k j) (take r (drop j hint)) row
unfolding decode_row place_all
decode_row-place_all hint k j zero row h l = refl
decode_row-place_all hint k j (suc r) row h l =
    let ih =
      decode_row-place_all hint k (suc j) r (set row (get_or hint j 0) 1) (omega arith)
        (omega arith) in
    rw
      (
        take-drop-suc j r hint (omega arith),
        ih,
        bound_at-suc hint k j h,
        same_test k j (get_or hint j 0) (get_or hint (j - 1) 0),
      )
      refl

-- The loop on a row goes through exactly when the places are in ascending order,
place_all-ok : (bound : ℕ) (bs row : List ℕ) → IsAscending bound bs → (place_all bound bs row).1 ≡ 0
unfolding place_all
place_all-ok bound [] row h = refl
place_all-ok bound (b ∷ bs) row (h, l, hs) =
    rw (ge→ltb_false b bound h) (place_all-ok (suc b) bs (set row b 1) hs)

place_all-IsAscending :
    (bound : ℕ) (bs row : List ℕ)
    → All (λ b. b < 256) bs
    → (place_all bound bs row).1 ≡ 0
    → IsAscending bound bs
unfolding place_all
place_all-IsAscending bound [] row h e = tt
place_all-IsAscending bound (b ∷ bs) row (h, hs) e = elim (Bool-cases (ltb b bound)) [
  | inl t ↦ absurd (omega (arith, rw t at e))
  | inr t ↦
      (ltb_false→ge b bound t, h, place_all-IsAscending (suc b) bs (set row b 1) hs (rw t at e))
]

-- A row of 256 bits with nothing set from `bound` on.
pub record IsRow (bound : ℕ) (row : List ℕ) : Type 0 where
  pub full : length row ≡ 256
  pub bits : All IsBit row
  pub rest : All IsZero (drop bound row)

set-IsRow : (bound b : ℕ) (row : List ℕ) → bound ≤ b → IsRow bound row → IsRow (suc b) (set row b 1)
set-IsRow bound b row h r = record {
  full = length-set row b 1 ∙ r.full;
  bits = set-IsBit b row r.bits;
  rest = rw (drop-set b row 1) (All-drop_further bound (suc b) row (omega arith) r.rest);
}

-- and it then sets these places behind the others.
place_all-positions :
    (bound : ℕ) (bs row : List ℕ)
    → IsRow bound row
    → IsAscending bound bs
    → (positions 0 (place_all bound bs row).0 ≡ positions 0 row ++ bs)
      × (length (place_all bound bs row).0 ≡ 256)
      × All IsBit (place_all bound bs row).0
unfolding place_all
place_all-positions bound [] row r h = (sym (append-nil (positions 0 row)), r.full, r.bits)
place_all-positions bound (b ∷ bs) row r (h, l, hs) =
    let (e, full, bits) =
      place_all-positions (suc b) bs (set row b 1) (set-IsRow bound b row h r) hs in
    let behind =
      positions-set 0 b row (omega (arith, r.full)) (All-drop_further bound b row h r.rest) in
    let place : 0 + b ≡ b = omega arith in
    rw (ge→ltb_false b bound h)
      (e ∙ rw (behind, place) (append_assoc (positions 0 row) (b ∷ []) bs), full, bits)

zeros-IsRow : IsRow 0 (replicate 256 0)
zeros-IsRow = record {
  full = length-replicate {A = ℕ} 256 0;
  bits = omega arith;
  rest = All-replicate-IsZero 256;
}

from_row_start :
    (hint : List ℕ) (k r : ℕ)
    → k + r ≤ length hint
    → decode_row hint k k r (replicate 256 0) ≡ place_all 0 (take r (drop k hint)) (replicate 256 0)
from_row_start hint k r l =
    let none_before : ltb k k ≡ false = ground arith in
    decode_row-place_all hint k k r (replicate 256 0) (omega arith) l ∙ rw none_before refl

no_positions : positions 0 (replicate 256 0) ≡ []
no_positions = positions-zeros 0 (replicate 256 0) (All-replicate-IsZero 256)

abbrev pub IsRowOf : (seg row : List ℕ) → Type 0
IsRowOf seg row = (positions 0 row ≡ seg) × (length row ≡ 256) × All IsBit row

-- A row that the loop goes through has the places that were read.
pub decode_row_found :
    (hint : List ℕ) (k r : ℕ)
    → k + r ≤ length hint
    → All (λ b. b < 256) (take r (drop k hint))
    → (decode_row hint k k r (replicate 256 0)).1 ≡ 0
    → IsRowOf (take r (drop k hint)) (decode_row hint k k r (replicate 256 0)).0
decode_row_found hint k r l bytes e =
    let seg = take r (drop k hint) in
    let up =
      place_all-IsAscending 0 seg (replicate 256 0) bytes (rw (from_row_start hint k r l) at e) in
    rw (from_row_start hint k r l)
      (rw no_positions at (place_all-positions 0 seg (replicate 256 0) zeros-IsRow up))

-- And the loop gets any row back from its places.
pub decode_row_back :
    (hint : List ℕ) (k r : ℕ) (row : List ℕ)
    → k + r ≤ length hint
    → length row ≡ 256
    → All IsBit row
    → take r (drop k hint) ≡ positions 0 row
    → decode_row hint k k r (replicate 256 0) ≡ (row, 0)
decode_row_back hint k r row l full bits e =
    let up = positions-IsAscending 0 row (omega arith) in
    let done = place_all-ok 0 (positions 0 row) (replicate 256 0) up in
    let (same, full', bits') =
      rw no_positions at
        (place_all-positions 0 (positions 0 row) (replicate 256 0) zeros-IsRow up) in
    from_row_start hint k r l
    ∙ rw e (pair_eq (positions_inj 0 _ row (full' ∙ sym full) bits' bits same) done)
  where
    pair_eq : {a b : List ℕ} {m n : ℕ} → a ≡ b → m ≡ n → ◌≡◌ {A = List ℕ × ℕ} (a, m) (b, n)
    pair_eq p q = λ i. (p i, q i)
