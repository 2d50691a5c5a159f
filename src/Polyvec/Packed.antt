-- ===== src/Polyvec/Packed.antt =====
-- Where poly_vec_k_pack_w1 of src/mldsa87/polyvec.c writes.
use ledger_app_qrl_v.Prelude.{
  ℕ, zero, suc, ◌+◌, ◌*◌, ◌≤◌, ◌<◌, ◌≡◌, ◌∙◌, ap, refl, arith, List, [], ◌∷◌, ◌++◌, length, take,
  drop, fault, leb, true, false, length-append, length-take, length-drop,
}
use ledger_app_qrl_v.Poly.{poly_w1_pack}
use ledger_app_qrl_v.Polyvec.{poly_vec_k_pack_w1, pack_w1_from}

-- The polynomials, of 256 coefficients each.
pub data AreWhole : (n : ℕ) → List (List ℕ) → Type 0 where
  whole_nil : AreWhole 0 []
  whole_poly :
      (n : ℕ) (p : List ℕ) (ps : List (List ℕ))
      → length p ≡ 256
      → AreWhole n ps
      → AreWhole (suc n) (p ∷ ps)

length-poly_w1_pack : (p : List ℕ) (n : ℕ) → length p ≡ n + n → length (poly_w1_pack p) ≡ n
unfolding poly_w1_pack
length-poly_w1_pack [] n h = omega arith
length-poly_w1_pack (c ∷ []) n h = absurd (omega arith)
length-poly_w1_pack (c0 ∷ c1 ∷ cs) zero h = absurd (omega arith)
length-poly_w1_pack (c0 ∷ c1 ∷ cs) (suc n) h = ap suc (length-poly_w1_pack cs n (omega arith))

-- A round that stays inside, and one that does not.
step_inside :
    (i off : ℕ) (r p : List ℕ) (ps : List (List ℕ))
    → length r ≡ 1024
    → length p ≡ 256
    → off + i * 128 + 128 ≤ 1024
    → (r' : List ℕ) × (length r' ≡ 1024)
      × (pack_w1_from i off r (p ∷ ps) ≡ pack_w1_from (suc i) (off + i * 128) r' ps)
unfolding pack_w1_from
step_inside i off r p ps l h fits =
    let at = off + i * 128 in
    let packed = poly_w1_pack p in
    let size : length packed ≡ 128 = length-poly_w1_pack p 128 h in
    let test : leb (at + length packed) (length r) ≡ true = ground arith in
    (
      take at r ++ (packed ++ drop (at + length packed) r),
      omega (
        arith,
        size,
        length-append (take at r) (packed ++ drop (at + length packed) r),
        length-append packed (drop (at + length packed) r),
        length-take at r,
        length-drop (at + length packed) r,
      ),
      rw test refl,
    )

step_outside :
    (i off : ℕ) (r p : List ℕ) (ps : List (List ℕ))
    → length r ≡ 1024
    → length p ≡ 256
    → 1024 < off + i * 128 + 128
    → pack_w1_from i off r (p ∷ ps) ≡ fault
unfolding pack_w1_from
step_outside i off r p ps l h over =
    let size : length (poly_w1_pack p) ≡ 128 = length-poly_w1_pack p 128 h in
    let test : leb (off + i * 128 + length (poly_w1_pack p)) (length r) ≡ false = ground arith in
    rw test refl

-- For every vector of eight polynomials and every buffer of the length asked for, the fifth round of
-- poly_vec_k_pack_w1 writes outside the buffer.
pub poly_vec_k_pack_w1_faults :
    (r : List ℕ) (w1 : List (List ℕ))
    → length r ≡ 1024
    → AreWhole 8 w1
    → poly_vec_k_pack_w1 r 1024 w1 ≡ fault
unfolding poly_vec_k_pack_w1
poly_vec_k_pack_w1_faults r _ l
      (whole_poly _ p0 _ h0 (
        whole_poly _ p1 _ h1
          (whole_poly _ p2 _ h2 (whole_poly _ p3 _ h3 (whole_poly _ p4 ps h4 h))))) =
    let (r1, l1, e1) = step_inside 0 0 r p0 (p1 ∷ p2 ∷ p3 ∷ p4 ∷ ps) l h0 (omega arith) in
    let (r2, l2, e2) = step_inside 1 0 r1 p1 (p2 ∷ p3 ∷ p4 ∷ ps) l1 h1 (omega arith) in
    let (r3, l3, e3) = step_inside 2 128 r2 p2 (p3 ∷ p4 ∷ ps) l2 h2 (omega arith) in
    let (r4, l4, e4) = step_inside 3 384 r3 p3 (p4 ∷ ps) l3 h3 (omega arith) in
    e1 ∙ e2 ∙ e3 ∙ e4 ∙ step_outside 4 768 r4 p4 ps l4 h4 (omega arith)
