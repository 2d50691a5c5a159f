-- ===== src/Signature/Whole.antt =====
-- Whole signatures packed and unpacked: src/mldsa87/sign.c.
use mathlib.Core.List.{append_assoc}
use ledger_app_qrl_v.Prelude.{
  ℕ, zero, suc, ◌+◌, ◌*◌, ◌≤◌, ◌≡◌, ◌∙◌, ap, sym, refl, arith, List, [], ◌∷◌, ◌++◌, All, IsByte,
  All-take, All-drop, length, take, drop, take-length_append, drop-length_append, drop-add,
  take-append-drop, length-append, length-take, length-drop, take_all,
}
use ledger_app_qrl_v.Poly.{poly_z_pack, poly_z_unpack}
use ledger_app_qrl_v.Poly.ZPacking.{
  IsZ, z_pair, IsPacked, packed_nil, packed_group, poly_z_unpack-poly_z_pack,
  poly_z_pack-poly_z_unpack,
}
use ledger_app_qrl_v.Signature.{
  pack_z, unpack_z, encode_hints, decode_hints, pack_sig_volatile, unpack_sig_volatile,
  crypto_bytes,
}
use ledger_app_qrl_v.Signature.Encoding.{flat}
use ledger_app_qrl_v.Signature.RoundTrip.{AreHints, decode_hints-encode_hints}
use ledger_app_qrl_v.Signature.Canonical.{encode_hints-decode_hints}

-- The polynomials of z: 256 coefficients in the range that the packing covers.
pub data AreZ : List (List ℕ) → Type 0 where
  zs_nil : AreZ []
  zs_poly : (p : List ℕ) (ps : List (List ℕ)) → IsZ p → length p ≡ 256 → AreZ ps → AreZ (p ∷ ps)

length-poly_z_pack : (p : List ℕ) → IsZ p → length (poly_z_pack p) * 2 ≡ length p * 5
unfolding poly_z_pack
length-poly_z_pack [] h = refl
length-poly_z_pack _ (z_pair c0 c1 cs h0 h1 h) = omega (arith, length-poly_z_pack cs h)

cut_front :
    (n : ℕ) (xs ys : List ℕ) → length xs ≡ n → (take n (xs ++ ys) ≡ xs) × (drop n (xs ++ ys) ≡ ys)
cut_front n xs ys e = rw (← e) (take-length_append xs ys, drop-length_append xs ys)

unpack_z-pack_z :
    (z : List (List ℕ)) (tail : List ℕ) → AreZ z → unpack_z (length z) (pack_z z ++ tail) ≡ z
unfolding pack_z unpack_z
unpack_z-pack_z [] tail h = refl
unpack_z-pack_z _ tail (zs_poly p ps h l hs) =
    let (front, rest) =
      cut_front 640 (poly_z_pack p) (pack_z ps ++ tail) (omega (arith, length-poly_z_pack p h)) in
    rw
      (
        append_assoc (poly_z_pack p) (pack_z ps) tail,
        front,
        rest,
        poly_z_unpack-poly_z_pack p h,
        unpack_z-pack_z ps tail hs,
      )
      refl

-- Bytes in whole groups of five.
groups : (n : ℕ) (bs : List ℕ) → length bs ≡ n * 5 → All IsByte bs → IsPacked bs
groups zero [] l h = packed_nil
groups zero (b ∷ bs) l h = absurd (omega arith)
groups (suc n) (a0 ∷ a1 ∷ a2 ∷ a3 ∷ a4 ∷ bs) l (h0, (h1, (h2, (h3, (h4, h))))) =
    packed_group a0 a1 a2 a3 a4 bs (h0, (h1, (h2, (h3, (h4, tt))))) (groups n bs (omega arith) h)
groups (suc n) (a0 ∷ a1 ∷ a2 ∷ a3 ∷ []) l h = absurd (omega arith)
groups (suc n) (a0 ∷ a1 ∷ a2 ∷ []) l h = absurd (omega arith)
groups (suc n) (a0 ∷ a1 ∷ []) l h = absurd (omega arith)
groups (suc n) (a0 ∷ []) l h = absurd (omega arith)
groups (suc n) [] l h = absurd (omega arith)

pack_z-unpack_z :
    (n : ℕ) (bs : List ℕ)
    → n * 640 ≤ length bs
    → All IsByte bs
    → pack_z (unpack_z n bs) ++ drop (n * 640) bs ≡ bs
unfolding pack_z unpack_z
pack_z-unpack_z zero bs l h = refl
pack_z-unpack_z (suc n) bs l h =
    let packed =
      groups 128 (take 640 bs) (omega (arith, length-take 640 bs)) (All-take IsByte 640 bs h) in
    let ih =
      pack_z-unpack_z n (drop 640 bs) (omega (arith, length-drop 640 bs))
        (All-drop IsByte 640 bs h) in
    let split : suc n * 640 ≡ 640 + n * 640 = omega arith in
    append_assoc (poly_z_pack (poly_z_unpack (take 640 bs))) (pack_z (unpack_z n (drop 640 bs))) _
    ∙ rw (poly_z_pack-poly_z_unpack (take 640 bs) packed, split, drop-add 640 (n * 640) bs, ih)
        (take-append-drop 640 bs)

length-pack_z : (z : List (List ℕ)) → AreZ z → length (pack_z z) ≡ length z * 640
unfolding pack_z
length-pack_z [] h = refl
length-pack_z _ (zs_poly p ps h l hs) =
    omega (
      arith,
      length-append (poly_z_pack p) (pack_z ps),
      length-poly_z_pack p h,
      length-pack_z ps hs,
    )

take_whole : (n : ℕ) (xs : List ℕ) → length xs ≡ n → take n xs ≡ xs
take_whole n xs e = rw (← e) (take_all xs)

-- A signature packed from a hash of 64 bytes, seven polynomials z with coefficients from -(GAMMA1 - 1) to GAMMA1
-- and eight rows of hints with at most OMEGA set is unpacked to these, without an error and whatever h held before.
pub unpack_sig_volatile-pack_sig_volatile :
    (sig c : List ℕ) (z h old : List (List ℕ))
    → length c ≡ 64
    → AreZ z
    → length z ≡ 7
    → AreHints h
    → length h ≡ 8
    → length (flat h) ≤ 75
    → length old ≡ 8
    → unpack_sig_volatile old (pack_sig_volatile sig crypto_bytes c z h).0 ≡ (c, z, h, 0)
unfolding unpack_sig_volatile pack_sig_volatile
unpack_sig_volatile-pack_sig_volatile sig c z h old lc hz lz hh lh small lo =
    let (hash, rest) = cut_front 64 c (pack_z z ++ encode_hints h) lc in
    let (_, hints) =
      cut_front 4480 (pack_z z) (encode_hints h) (omega (arith, length-pack_z z hz)) in
    let behind : drop 4544 (c ++ (pack_z z ++ encode_hints h)) ≡ encode_hints h =
      drop-add 64 4480 (c ++ (pack_z z ++ encode_hints h)) ∙ ap (drop 4480) rest ∙ hints in
    let polys : unpack_z 7 (pack_z z ++ encode_hints h) ≡ z =
      ap (λ n. unpack_z n (pack_z z ++ encode_hints h)) (sym lz)
      ∙ unpack_z-pack_z z (encode_hints h) hz in
    let read = decode_hints-encode_hints h old hh lh lo small in
    rw (take_whole 64 c lc, hash, rest, behind, polys, read) refl

-- What unpack_sig_volatile accepts is what pack_sig_volatile writes for its parts: no second signature has the same
-- hash, z and hints.
pub pack_sig_volatile-unpack_sig_volatile :
    (sig sig' c : List ℕ) (z h old : List (List ℕ))
    → length sig ≡ crypto_bytes
    → All IsByte sig
    → length old ≡ 8
    → unpack_sig_volatile old sig ≡ (c, z, h, 0)
    → pack_sig_volatile sig' crypto_bytes c z h ≡ (sig, 0)
unfolding unpack_sig_volatile pack_sig_volatile
pack_sig_volatile-unpack_sig_volatile sig sig' c z h old l b lo e =
    let hash : take 64 sig ≡ c = ap (λ r. r.0) e in
    let polys : unpack_z 7 (drop 64 sig) ≡ z = ap (λ r. r.1) e in
    let read : decode_hints (drop 4544 sig) old ≡ (h, 0) = ap (λ r. (r.2, r.3)) e in
    let hints =
      encode_hints-decode_hints (drop 4544 sig) old h (omega (arith, length-drop 4544 sig))
        (All-drop IsByte 4544 sig b) lo read in
    let whole : take 64 (take 64 sig) ≡ take 64 sig =
      take_whole 64 (take 64 sig) (omega (arith, length-take 64 sig)) in
    let zs =
      pack_z-unpack_z 7 (drop 64 sig) (omega (arith, length-drop 64 sig))
        (All-drop IsByte 64 sig b) in
    rw (← hash, ← polys, whole, hints.2, drop-add 64 4480 sig, zs, take-append-drop 64 sig) refl
