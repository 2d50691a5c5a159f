-- ===== src/Signature/RoundTrip.antt =====
-- Hints written and read: pack_sig_volatile and unpack_sig_volatile of src/mldsa87/sign.c.
use mathlib.Core.List.{append_assoc, append-nil}
use ledger_app_qrl_v.Prelude.{
  ℕ, suc, ◌+◌, ◌-◌, ◌≤◌, ◌≡◌, ◌∙◌, ap, sym, refl, arith, false, List, [], ◌∷◌, ◌++◌, All, length,
  take, drop, replicate, ltb, take-length_append, drop-length_append, drop-add, length-append,
  length-replicate,
}
use ledger_app_qrl_v.Signature.{decode_rows, decode_hints, encode_hints}
use ledger_app_qrl_v.Signature.Rows.{positions, IsBit}
use ledger_app_qrl_v.Signature.Decoding.{decode_row_back}
use ledger_app_qrl_v.Signature.Padding.{get_or-drop, padding_code-replicate}
use ledger_app_qrl_v.Signature.Encoding.{
  flat, counts, AreFull, full_nil, full_row, encode_hints_lem, length-counts,
}

-- The rows of h: 256 bits each.
pub data AreHints : List (List ℕ) → Type 0 where
  hints_nil : AreHints []
  hints_row :
      (row : List ℕ) (rows : List (List ℕ))
      → length row ≡ 256
      → All IsBit row
      → AreHints rows
      → AreHints (row ∷ rows)

pub AreHints-AreFull : (rows : List (List ℕ)) → AreHints rows → AreFull rows
AreHints-AreFull [] h = full_nil
AreHints-AreFull _ (hints_row row rows full bits h) =
    full_row row rows full (AreHints-AreFull rows h)

split_rest :
    (k : ℕ) (hint ps rest : List ℕ)
    → drop k hint ≡ ps ++ rest
    → (take (length ps) (drop k hint) ≡ ps) × (drop (k + length ps) hint ≡ rest)
split_rest k hint ps rest e = (
  rw e (take-length_append ps rest),
  drop-add k (length ps) hint ∙ rw e (drop-length_append ps rest),
)

-- The loop on `i` gets back the rows whose places and counts it reads.
decode_rows_back :
    (hint : List ℕ) (rows old : List (List ℕ)) (i k : ℕ) (tail counts_tail : List ℕ)
    → length hint ≡ 83
    → AreHints rows
    → length old ≡ length rows
    → k + length (flat rows) ≤ 75
    → drop k hint ≡ flat rows ++ tail
    → drop (75 + i) hint ≡ counts k rows ++ counts_tail
    → decode_rows hint i k old ≡ record { rows = rows; upto = k + length (flat rows); code = 0 }
unfolding decode_rows flat counts
decode_rows_back hint [] [] i k tail ct full h n small e c =
    ap (λ t. record { rows = []; upto = t; code = 0 }) (omega arith)
decode_rows_back hint [] (o ∷ old) i k tail ct full h n small e c = absurd (omega arith)
decode_rows_back hint (row ∷ rows) [] i k tail ct full h n small e c = absurd (omega arith)
decode_rows_back hint _ (o ∷ old) i k tail ct full (hints_row row rows len bits h) n small e c =
    let ps = positions 0 row in
    let k' = k + length ps in
    let (limit, c') = get_or-drop (75 + i) hint k' (counts k' rows ++ ct) c in
    let (seg, e') =
      split_rest k hint ps (flat rows ++ tail) (e ∙ append_assoc ps (flat rows) tail) in
    let small' : k' + length (flat rows) ≤ 75 =
      omega (arith, length-append (positions 0 row) (flat rows)) in
    let next : 75 + suc i ≡ suc (75 + i) = omega arith in
    let ih =
      decode_rows_back hint rows old (suc i) k' tail ct full h (omega arith) small' e'
        (ap (λ t. drop t hint) next ∙ c') in
    let back = decode_row_back hint k (length ps) row (omega arith) len bits seg in
    let room : k' - k ≡ length ps = omega arith in
    let up : ltb k' k ≡ false = ground arith in
    let inside : ltb 75 k' ≡ false = ground arith in
    let total : k' + length (flat rows) ≡ k + length (ps ++ flat rows) =
      omega (arith, length-append (positions 0 row) (flat rows)) in
    rw (limit, room, up, inside, back, ih, total) refl

-- Places, zeros up to OMEGA, and counts are read back.
decode_hints_layout :
    (h old : List (List ℕ)) (m : ℕ)
    → AreHints h
    → length h ≡ 8
    → length old ≡ 8
    → length (flat h) + m ≡ 75
    → decode_hints (flat h ++ (replicate m 0 ++ counts 0 h)) old ≡ (h, 0)
unfolding decode_hints
decode_hints_layout h old m hints n n' e =
    let zeros = replicate {A = ℕ} m 0 in
    let hint = flat h ++ (zeros ++ counts 0 h) in
    let full : length hint ≡ 83 = omega (
      arith,
      length-append (flat h) (replicate {A = ℕ} m 0 ++ counts 0 h),
      length-append (replicate {A = ℕ} m 0) (counts 0 h),
      length-replicate {A = ℕ} m 0,
      length-counts 0 h,
    ) in
    let ahead : 75 ≡ length (flat h ++ zeros) =
      omega (arith, length-append (flat h) (replicate {A = ℕ} m 0), length-replicate {A = ℕ} m 0) in
    let behind : drop 75 hint ≡ counts 0 h ++ [] =
      ap (drop 75) (sym (append_assoc (flat h) zeros (counts 0 h)))
      ∙ ap (λ t. drop t ((flat h ++ zeros) ++ counts 0 h)) ahead
      ∙ drop-length_append (flat h ++ zeros) (counts 0 h)
      ∙ sym (append-nil (counts 0 h)) in
    let rows =
      decode_rows_back hint h old 0 0 (zeros ++ counts 0 h) [] full hints (omega arith)
        (omega arith) refl behind in
    let start : 0 + length (flat h) ≡ length (flat h) = omega arith in
    let left : 75 - length (flat h) ≡ m = omega arith in
    let padded =
      padding_code-replicate hint (length (flat h)) m (counts 0 h)
        (drop-length_append (flat h) (zeros ++ counts 0 h)) in
    rw (rows, start, left, padded) refl

-- What is packed for rows of 256 bits with at most OMEGA bits set is read back as these rows, whatever h held
-- before, and is accepted.
pub decode_hints-encode_hints :
    (h old : List (List ℕ))
    → AreHints h
    → length h ≡ 8
    → length old ≡ 8
    → length (flat h) ≤ 75
    → decode_hints (encode_hints h) old ≡ (h, 0)
decode_hints-encode_hints h old hints n n' small =
    let m = 75 - length (flat h) in
    rw (encode_hints_lem h m (AreHints-AreFull h hints) n (omega arith))
      (decode_hints_layout h old m hints n n' (omega arith))
