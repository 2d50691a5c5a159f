-- ===== src/Signature/Encoding.antt =====
-- The bytes that pack_sig_volatile writes for the hints: src/mldsa87/sign.c.
use mathlib.Core.List.{append_assoc, append-nil}
use ledger_app_qrl_v.Prelude.{
  ℕ, zero, suc, ◌+◌, ◌%◌, ◌≤◌, ◌<◌, ◌≡◌, ◌∙◌, ap, sym, refl, arith, List, [], ◌∷◌, ◌++◌, length,
  set, replicate, length-append, length-replicate, ◌==◌, false,
}
use ledger_app_qrl_v.Signature.{encode_row, encode_rows, encode_hints}
use ledger_app_qrl_v.Signature.Rows.{positions}

set-append :
    (xs ys : List ℕ) (i j v : ℕ) → i ≡ length xs + j → set (xs ++ ys) i v ≡ xs ++ set ys j v
set-append [] ys i j v e = ap (λ t. set ys t v) (omega arith)
set-append (x ∷ xs) ys zero j v e = absurd (omega arith)
set-append (x ∷ xs) ys (suc i) j v e = ap (λ t. x ∷ t) (set-append xs ys i j v (omega arith))

-- The 83 bytes: the places so far, room for `m` more, the counts of the rows done, the count of the
-- row in work and room for `n` more.
abbrev layout : (out : List ℕ) → (m : ℕ) → (done : List ℕ) → (v n : ℕ) → List ℕ
layout out m done v n = out ++ (replicate m 0 ++ (done ++ (v ∷ replicate n 0)))

set-count :
    (out : List ℕ) (m : ℕ) (done : List ℕ) (v n w : ℕ)
    → length out + m ≡ 75
    → set (layout out m done v n) (75 + length done) w ≡ layout out m done w n
set-count out m done v n w e =
    set-append out _ (75 + length done) (m + length done) w (omega arith)
    ∙ ap (λ t. out ++ t)
        (set-append (replicate m 0) _ (m + length done) (length done) w
            (omega (arith, length-replicate {A = ℕ} m 0))
          ∙ ap (λ t. replicate m 0 ++ t) (set-append done _ (length done) 0 w (omega arith)))

set-place :
    (out : List ℕ) (m : ℕ) (done : List ℕ) (v n p : ℕ)
    → set (layout out (suc m) done v n) (length out) p ≡ layout (out ++ p ∷ []) m done v n
set-place out m done v n p =
    set-append out _ (length out) 0 p (omega arith) ∙ sym (append_assoc out (p ∷ []) _)

-- One coefficient that is zero, and one that is not.
encode_row_zero :
    (j : ℕ) (cs out : List ℕ) (m : ℕ) (done : List ℕ) (v n : ℕ)
    → length out + m ≡ 75
    → encode_row (length done) j (0 ∷ cs) (layout out m done v n, length out)
      ≡ encode_row (length done) (suc j) cs (layout out m done (length out) n, length out)
unfolding encode_row
encode_row_zero j cs out m done v n e =
    let small : length out % 256 ≡ length out = omega arith in
    rw (set-count out m done v n (length out % 256) e, small) refl

encode_row_set :
    (j c : ℕ) (cs out : List ℕ) (m : ℕ) (done : List ℕ) (v n : ℕ)
    → j < 256
    → length out + suc m ≡ 75
    → encode_row (length done) j (suc c ∷ cs) (layout out (suc m) done v n, length out)
      ≡ encode_row
          (length done)
          (suc j)
          cs
          (layout (out ++ j ∷ []) m done (length (out ++ j ∷ [])) n, length (out ++ j ∷ []))
unfolding encode_row
encode_row_set j c cs out m done v n h e =
    let k : length (out ++ j ∷ []) ≡ suc (length out) = omega (arith, length-append out (j ∷ [])) in
    let small : suc (length out) % 256 ≡ suc (length out) = omega arith in
    let place : j % 256 ≡ j = omega arith in
    let nonzero : (suc c == 0) ≡ false = ground arith in
    rw
      (
        nonzero,
        place,
        set-place out m done v n j,
        k,
        small,
        set-count (out ++ j ∷ []) m done v n (suc (length out)) (omega arith),
      )
      refl

-- The state behind a row.
abbrev marked : (out : List ℕ) → (m : ℕ) → (done : List ℕ) → (n : ℕ) → List ℕ × ℕ
marked out m done n = (layout out m done (length out) n, length out)

-- A row that is not empty.
encode_row_lem :
    (j c : ℕ) (cs out : List ℕ) (m t : ℕ) (done : List ℕ) (v n : ℕ)
    → j + suc (length cs) ≤ 256
    → length out + t ≡ 75
    → t ≡ length (positions j (c ∷ cs)) + m
    → encode_row (length done) j (c ∷ cs) (layout out t done v n, length out)
      ≡ marked (out ++ positions j (c ∷ cs)) m done n
unfolding positions encode_row
encode_row_lem j zero [] out m t done v n h l e =
    let room : t ≡ m = omega arith in
    encode_row_zero j [] out t done v n l ∙ rw (append-nil out, room) refl
encode_row_lem j (suc c) [] out m zero done v n h l e = absurd (omega arith)
encode_row_lem j (suc c) [] out m (suc t) done v n h l e =
    let room : t ≡ m = omega arith in
    encode_row_set j c [] out t done v n (omega arith) l ∙ rw room refl
encode_row_lem j zero (d ∷ cs) out m t done v n h l e =
    encode_row_zero j (d ∷ cs) out t done v n l
    ∙ encode_row_lem (suc j) d cs out m t done (length out) n (omega arith) l e
encode_row_lem j (suc c) (d ∷ cs) out m zero done v n h l e = absurd (omega arith)
encode_row_lem j (suc c) (d ∷ cs) out m (suc t) done v n h l e =
    let out' = out ++ j ∷ [] in
    encode_row_set j c (d ∷ cs) out t done v n (omega arith) l
    ∙ encode_row_lem (suc j) d cs out' m t done (length out') n (omega arith)
        (omega (arith, length-append out (j ∷ []))) (omega arith)
    ∙ ap (λ o. marked o m done n) (append_assoc out (j ∷ []) (positions (suc j) (d ∷ cs)))

-- The places of all rows, and their number up to the end of each row.
unfoldable pub flat : List (List ℕ) → List ℕ
flat [] = []
flat (row ∷ rows) = positions 0 row ++ flat rows

unfoldable pub counts : (k : ℕ) → List (List ℕ) → List ℕ
counts k [] = []
counts k (row ∷ rows) = let k' = k + length (positions 0 row) in k' ∷ counts k' rows

pub data AreFull : List (List ℕ) → Type 0 where
  full_nil : AreFull []
  full_row :
      (row : List ℕ) (rows : List (List ℕ)) → length row ≡ 256 → AreFull rows → AreFull (row ∷ rows)

encode_row_full :
    (row out : List ℕ) (m t : ℕ) (done : List ℕ) (n : ℕ)
    → length row ≡ 256
    → length out + t ≡ 75
    → t ≡ length (positions 0 row) + m
    → encode_row (length done) 0 row (layout out t done 0 n, length out)
      ≡ marked (out ++ positions 0 row) m done n
encode_row_full [] out m t done n h l e = absurd (omega arith)
encode_row_full (c ∷ cs) out m t done n h l e =
    encode_row_lem 0 c cs out m t done 0 n (omega arith) l e

encode_rows_lem :
    (rows : List (List ℕ)) (out : List ℕ) (m t : ℕ) (done : List ℕ)
    → AreFull rows
    → length out + t ≡ 75
    → t ≡ length (flat rows) + m
    → (encode_rows
        (length done)
        rows
        (out ++ (replicate t 0 ++ (done ++ replicate (length rows) 0)), length out)).0
      ≡ (out ++ flat rows) ++ (replicate m 0 ++ (done ++ counts (length out) rows))
unfolding encode_rows flat counts
encode_rows_lem [] out m t done f l e =
    let room : t ≡ m = omega arith in rw (append-nil out, room) refl
encode_rows_lem _ out m t done (full_row row rows full f) l e =
    let ps = positions 0 row in
    let k = length (out ++ ps) in
    let room : t ≡ length ps + (length (flat rows) + m) =
      omega (arith, length-append (positions 0 row) (flat rows)) in
    let total : length out + length ps ≡ k = omega (arith, length-append out (positions 0 row)) in
    let further : length (done ++ k ∷ []) ≡ suc (length done) =
      omega (arith, length-append done (k ∷ [])) in
    let ih =
      encode_rows_lem rows (out ++ ps) m (length (flat rows) + m) (done ++ k ∷ []) f
        (omega (arith, length-append out (positions 0 row))) refl in
    ap (λ st. (encode_rows (suc (length done)) rows st).0)
      (encode_row_full row out (length (flat rows) + m) t done (length rows) full l room)
    ∙ rw (total, ← append_assoc out ps (flat rows))
        (rw
          (
            further,
            append_assoc done (k ∷ []) (replicate (length rows) 0),
            append_assoc done (k ∷ []) (counts k rows),
          )
          at ih)

-- The 83 bytes: the places, zeros up to OMEGA, and the counts.
pub encode_hints_lem :
    (h : List (List ℕ)) (m : ℕ)
    → AreFull h
    → length h ≡ 8
    → length (flat h) + m ≡ 75
    → encode_hints h ≡ flat h ++ (replicate m 0 ++ counts 0 h)
unfolding encode_hints
encode_hints_lem h m f n e =
    let start : replicate {A = ℕ} 83 0 ≡ replicate 75 0 ++ replicate (length h) 0 = rw n refl in
    ap (λ t. (encode_rows 0 h (t, 0)).0) start ∙ encode_rows_lem h [] m 75 [] f refl (omega arith)

pub length-counts : (k : ℕ) (rows : List (List ℕ)) → length (counts k rows) ≡ length rows
unfolding counts
length-counts k [] = refl
length-counts k (row ∷ rows) = ap suc (length-counts (k + length (positions 0 row)) rows)
