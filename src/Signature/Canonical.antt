-- ===== src/Signature/Canonical.antt =====
-- Only one encoding of hints is accepted: unpack_sig_volatile of src/mldsa87/sign.c.
use mathlib.Core.List.{append_assoc}
use ledger_app_qrl_v.Prelude.{
  ℕ, suc, ◌+◌, ◌-◌, ◌≤◌, ◌<◌, ◌≡◌, ◌∙◌, ap, sym, refl, arith, ◌||◌, List, [], ◌∷◌, ◌++◌, All,
  All-take, All-drop, length, take, drop, get_or, replicate, ◌==◌, ==_iff, ltb, Bool-cases, inl,
  inr, drop_all, drop-add, take-append-drop, length-append, length-take, length-drop,
}
use ledger_app_qrl_v.Signature.{
  Decoded, decode_row, decode_rows, padding_code, decode_hints, encode_hints, put_row,
}
use ledger_app_qrl_v.Signature.Rows.{positions}
use ledger_app_qrl_v.Signature.Decoding.{decode_row_found, IsRowOf}
use ledger_app_qrl_v.Signature.Padding.{drop_cons, padding_code-zero}
use ledger_app_qrl_v.Signature.Encoding.{flat, counts, encode_hints_lem}
use ledger_app_qrl_v.Signature.RoundTrip.{AreHints, hints_nil, hints_row, AreHints-AreFull}

-- What the loop on `i` has read where it goes through.
pub record Found (hint : List ℕ) (i k : ℕ) (old : List (List ℕ)) (d : Decoded) : Type 0 where
  pub hints : AreHints d.rows
  pub all : length d.rows ≡ length old
  pub reached : d.upto ≡ k + length (flat d.rows)
  pub inside : d.upto ≤ 75
  pub places : drop k hint ≡ flat d.rows ++ drop d.upto hint
  pub numbers : drop (75 + i) hint ≡ counts k d.rows

module _ (hint : List ℕ) (i k limit : ℕ) (full : length hint ≡ 83) (up : k ≤ limit)
    (inside : limit ≤ 75) where
  length_seg :
      (row : List ℕ)
      → IsRowOf (take (limit - k) (drop k hint)) row
      → length (positions 0 row) ≡ limit - k
  length_seg row r =
      omega (arith, ap length r.0, length-take (limit - k) (drop k hint), length-drop k hint)

  seg_places :
      (row : List ℕ) (rest : List ℕ)
      → IsRowOf (take (limit - k) (drop k hint)) row
      → drop limit hint ≡ rest
      → drop k hint ≡ positions 0 row ++ rest
  seg_places row rest r e =
      let further : k + (limit - k) ≡ limit = omega arith in
      sym (take-append-drop (limit - k) (drop k hint))
      ∙ rw (← r.0, ← drop-add k (limit - k) hint, further, e) refl

  add_row :
      (row o : List ℕ) (old : List (List ℕ)) (d : Decoded)
      → i + suc (length old) ≡ 8
      → get_or hint (75 + i) 0 ≡ limit
      → IsRowOf (take (limit - k) (drop k hint)) row
      → Found hint (suc i) limit old d
      → Found hint i k (o ∷ old) (put_row row d)
  unfolding flat counts
  add_row row o old d n at_i r f =
      let ps = positions 0 row in
      let count : k + length ps ≡ limit = omega (arith, length_seg row r) in
      let next : 75 + suc i ≡ suc (75 + i) = omega arith in
      record {
        hints = hints_row row d.rows r.1 r.2 f.hints;
        all = ap suc f.all;
        reached =
            omega
              (arith, f.reached, length_seg row r, length-append (positions 0 row) (flat d.rows));
        inside = f.inside;
        places =
            seg_places row (flat d.rows ++ drop d.upto hint) r f.places
            ∙ sym (append_assoc ps (flat d.rows) (drop d.upto hint));
        numbers = drop_cons (75 + i) hint (omega arith) ∙ rw (at_i, count, ← next, f.numbers) refl;
      }

all_dropped : (hint : List ℕ) (j : ℕ) → j ≡ length hint → drop j hint ≡ []
all_dropped hint j e = ap (λ t. drop t hint) e ∙ drop_all hint

decode_rows-Found :
    (hint : List ℕ) (old : List (List ℕ)) (i k : ℕ)
    → length hint ≡ 83
    → All (λ b. b < 256) hint
    → i + length old ≡ 8
    → k ≤ 75
    → (decode_rows hint i k old).code ≡ 0
    → Found hint i k old (decode_rows hint i k old)
unfolding decode_rows flat counts
decode_rows-Found hint [] i k full bytes n small e = record {
  hints = hints_nil;
  all = refl;
  reached = omega arith;
  inside = small;
  places = refl;
  numbers = all_dropped hint (75 + i) (omega arith);
}
decode_rows-Found hint (o ∷ old) i k full bytes n small e =
    elim (Bool-cases (ltb (get_or hint (75 + i) 0) k || ltb 75 (get_or hint (75 + i) 0))) [
      | inl t ↦ absurd (omega (arith, rw t at e))
      | inr t ↦
          elim (Bool-cases
            ((decode_row hint k k (get_or hint (75 + i) 0 - k) (replicate 256 0)).1 == 0)) [
              | inl r ↦
                  let up : k ≤ get_or hint (75 + i) 0 = ground arith in
                  let inside : get_or hint (75 + i) 0 ≤ 75 = ground arith in
                  let seg_bytes =
                    All-take _ (get_or hint (75 + i) 0 - k) (drop k hint)
                      (All-drop _ k hint bytes) in
                  let row =
                    decode_row_found hint k (get_or hint (75 + i) 0 - k) (omega arith) seg_bytes
                      ((==_iff _ 0).0 r) in
                  let rest =
                    decode_rows-Found hint old (suc i) (get_or hint (75 + i) 0) full bytes
                      (omega arith) inside (rw (t, r) at e) in
                  rw (t, r)
                    (add_row hint i k (get_or hint (75 + i) 0) full up inside _ o old _ n refl row
                      rest)
              | inr r ↦ absurd (omega (arith, rw (t, r) at e))
            ]
    ]

Found-bytes :
    (hint : List ℕ) (old : List (List ℕ)) (d : Decoded)
    → length hint ≡ 83
    → length old ≡ 8
    → Found hint 0 0 old d
    → padding_code hint d.upto (75 - d.upto) ≡ 0
    → AreHints d.rows × (length (flat d.rows) ≤ 75) × (encode_hints d.rows ≡ hint)
Found-bytes hint old d full n f code =
    let upto : d.upto ≡ length (flat d.rows) = omega (arith, f.reached) in
    let end : d.upto + (75 - d.upto) ≡ 75 = omega (arith, f.inside) in
    let zeros : drop d.upto hint ≡ replicate (75 - d.upto) 0 ++ counts 0 d.rows =
      padding_code-zero hint d.upto (75 - d.upto) (omega (arith, f.inside)) code
      ∙ ap (λ t. replicate (75 - d.upto) 0 ++ t) (ap (λ t. drop t hint) end ∙ f.numbers) in
    (
      f.hints,
      omega (arith, f.reached, f.inside),
      encode_hints_lem d.rows (75 - d.upto) (AreHints-AreFull d.rows f.hints) (omega (arith, f.all))
            (omega (arith, f.reached, f.inside))
          ∙ sym (f.places ∙ ap (λ t. flat d.rows ++ t) zeros),
    )

-- Hints that unpack_sig_volatile accepts have at most OMEGA places, and the bytes that it has read are the
-- ones that pack_sig_volatile writes for them: no other bytes are accepted for the same hints.
pub encode_hints-decode_hints :
    (hint : List ℕ) (old h : List (List ℕ))
    → length hint ≡ 83
    → All (λ b. b < 256) hint
    → length old ≡ 8
    → decode_hints hint old ≡ (h, 0)
    → AreHints h × (length (flat h) ≤ 75) × (encode_hints h ≡ hint)
unfolding decode_hints
encode_hints-decode_hints hint old h full bytes n e =
    elim (Bool-cases ((decode_rows hint 0 0 old).code == 0)) [
      | inl t ↦
          let f =
            decode_rows-Found hint old 0 0 full bytes (omega arith) (omega arith)
              ((==_iff _ 0).0 t) in
          let code : padding_code hint (decode_rows hint 0 0 old).upto
                (75 - (decode_rows hint 0 0 old).upto)
              ≡ 0 =
            rw t at (ap (λ p. p.1) e) in
          rw (ap (λ p. p.0) e) at (Found-bytes hint old (decode_rows hint 0 0 old) full n f code)
      | inr t ↦ absurd (omega (arith, rw t at (ap (λ p. p.1) e)))
    ]
