-- ===== src/Sign/Hinted.antt =====
-- The hints that signing computes, and the range of the z that it accepts: src/mldsa87/sign.c.
use ledger_app_qrl_v.Prelude.{
  ℕ, zero, suc, ◌+◌, ◌*◌, ◌^◌, ◌≤◌, ◌<◌, ◌≡◌, ap, refl, arith, bit_and-ones, List, [], ◌∷◌, All,
  length, length-append, map, zip_with, ◌==◌, ==_iff, Bool-cases, inl, inr,
}
use ledger_app_qrl_v.Reduce.{reduce_32}
use ledger_app_qrl_v.Rounding.{make_hint}
use ledger_app_qrl_v.Poly.Arith.{sum32, poly_chk_norm}
use ledger_app_qrl_v.Poly.Arith.Norm.{magnitude, magnitude-Within, poly_chk_norm_lem}
use ledger_app_qrl_v.Poly.ZPacking.{IsZ, z_nil, z_pair}
use ledger_app_qrl_v.Polyvec.{poly_vec_l_chk_norm}
use ledger_app_qrl_v.Signature.Rows.{positions, IsBit}
use ledger_app_qrl_v.Signature.Encoding.{flat}
use ledger_app_qrl_v.Signature.RoundTrip.{AreHints, hints_nil, hints_row}
use ledger_app_qrl_v.Signature.Whole.{AreZ, zs_nil, zs_poly}
use ledger_app_qrl_v.Sign.Volatile.{poly_vec_k_make_hint_volatile}
use ledger_app_qrl_v.Sign.Signing.{z_bound}
use ledger_app_qrl_v.Sign.Shapes.{IsVec, length-zip_with}

make_hint-IsBit : (a0 a1 : ℕ) → make_hint a0 a1 < 2
unfolding make_hint
make_hint-IsBit a0 a1 = rw (bit_and-ones 1 _) (omega arith)

hints-IsBit : (a0 a1 : List ℕ) → All IsBit (zip_with make_hint a0 a1)
hints-IsBit [] a1 = tt
hints-IsBit (x ∷ a0) [] = tt
hints-IsBit (x ∷ a0) (y ∷ a1) = (make_hint-IsBit x y, hints-IsBit a0 a1)

length-positions : (j : ℕ) (cs : List ℕ) → length (positions j cs) ≤ length cs
unfolding positions
length-positions j [] = omega arith
length-positions j (zero ∷ cs) = omega (arith, length-positions (suc j) cs)
length-positions j (suc c ∷ cs) = omega (arith, length-positions (suc j) cs)

-- The sum of the bits of a row is the number of its places.
sum32-positions :
    (j : ℕ) (cs : List ℕ) → All IsBit cs → length cs ≤ 256 → sum32 cs ≡ length (positions j cs)
unfolding sum32 positions
sum32-positions j [] h l = refl
sum32-positions j (zero ∷ cs) (b, h) l =
    omega (arith, sum32-positions (suc j) cs h (omega arith), length-positions (suc j) cs)
sum32-positions j (suc c ∷ cs) (b, h) l =
    omega (arith, b, sum32-positions (suc j) cs h (omega arith), length-positions (suc j) cs)

-- The rows are hints, and the number that make_hint returns is the number of their places.
pub make_hint_volatile-AreHints :
    (n : ℕ) (v0 v1 : List (List ℕ))
    → n ≤ 8
    → IsVec n v0
    → IsVec n v1
    → AreHints (poly_vec_k_make_hint_volatile v0 v1).0
      × (length (poly_vec_k_make_hint_volatile v0 v1).0 ≡ n)
      × ((poly_vec_k_make_hint_volatile v0 v1).1
          ≡ length (flat (poly_vec_k_make_hint_volatile v0 v1).0))
      × (length (flat (poly_vec_k_make_hint_volatile v0 v1).0) ≤ n * 256)
unfolding poly_vec_k_make_hint_volatile flat
make_hint_volatile-AreHints n [] v1 s h0 h1 = (hints_nil, h0.0, refl, omega arith)
make_hint_volatile-AreHints n (a0 ∷ v0) [] s h0 h1 = absurd (omega (arith, h0.0, h1.0))
make_hint_volatile-AreHints zero (a0 ∷ v0) (a1 ∷ v1) s h0 h1 = absurd (omega (arith, h0.0))
make_hint_volatile-AreHints (suc n) (a0 ∷ v0) (a1 ∷ v1) s h0 h1 =
    let (hints, len, number, small) =
      make_hint_volatile-AreHints n v0 v1 (omega arith) (omega (arith, h0.0), h0.1.1)
        (omega (arith, h1.0), h1.1.1) in
    let row = zip_with make_hint a0 a1 in
    let bits = hints-IsBit a0 a1 in
    let full : length row ≡ 256 = length-zip_with make_hint 256 a0 a1 h0.1.0 h1.1.0 in
    let counted = sum32-positions 0 row bits (omega (arith, full)) in
    let bound = length-positions 0 row in
    let both = length-append (positions 0 row) (flat (poly_vec_k_make_hint_volatile v0 v1).0) in
    (
      hints_row row _ full bits hints,
      ap suc len,
      omega (arith, counted, bound, both, number, small, full),
      omega (arith, bound, both, small, full),
    )

reduced-lt : (p : List ℕ) → All (λ c. c < 2 ^ 32) (map reduce_32 p)
unfolding reduce_32
reduced-lt [] = tt
reduced-lt (c ∷ p) = (omega arith, reduced-lt p)

IsZ-short :
    (n : ℕ) (p : List ℕ)
    → length p ≡ n + n
    → All (λ c. c < 2 ^ 32) p
    → All (λ c. magnitude c < z_bound) p
    → IsZ p
IsZ-short n [] l h s = z_nil
IsZ-short n (c ∷ []) l h s = absurd (omega arith)
IsZ-short zero (c0 ∷ c1 ∷ p) l h s = absurd (omega arith)
IsZ-short (suc n) (c0 ∷ c1 ∷ p) l (h0, (h1, h)) (s0, (s1, s)) =
    z_pair c0 c1 p (omega (arith, magnitude-Within z_bound c0 h0 s0 (omega arith)))
      (omega (arith, magnitude-Within z_bound c1 h1 s1 (omega arith)))
      (IsZ-short n p (omega arith) h s)

-- What passes the test of z can be packed.
pub chk_norm-AreZ :
    (n : ℕ) (v : List (List ℕ))
    → IsVec n (map (map reduce_32) v)
    → poly_vec_l_chk_norm (map (map reduce_32) v) z_bound ≡ 0
    → AreZ (map (map reduce_32) v)
unfolding poly_vec_l_chk_norm
chk_norm-AreZ n [] h e = zs_nil
chk_norm-AreZ zero (p ∷ v) h e = absurd (omega (arith, h.0))
chk_norm-AreZ (suc n) (p ∷ v) h e =
    elim (Bool-cases (poly_chk_norm (map reduce_32 p) z_bound == 0)) [
      | inl t ↦
          let short =
            ((poly_chk_norm_lem z_bound (omega arith) (omega arith) (map reduce_32 p)
              (reduced-lt p)).0
            ).0
              ((==_iff _ 0).0 t) in
          zs_poly (map reduce_32 p) _ (IsZ-short 128 _ h.1.0 (reduced-lt p) short) h.1.0
            (chk_norm-AreZ n v (omega (arith, h.0), h.1.1) (rw t at e))
      | inr t ↦ absurd (omega (arith, rw t at e))
    ]
