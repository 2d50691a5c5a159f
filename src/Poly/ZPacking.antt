-- ===== src/Poly/ZPacking.antt =====
-- The packing of the coefficients of z: src/mldsa87/poly.c, there and back.
use ledger_app_qrl_v.Prelude.{
  ℕ, ◌+◌, ◌-◌, ◌*◌, ◌/◌, ◌%◌, ◌^◌, ◌<◌, ◌≡◌, ◌∙◌, refl, arith, bit_and, bit_or, bit_and-ones,
  bit_or-shifted, List, [], ◌∷◌, All, IsByte,
}
use ledger_app_qrl_v.Word32.{Within}
use ledger_app_qrl_v.Poly.{z_code, low_part, high_part, poly_z_pack, poly_z_unpack}

z_code_twice : (c : ℕ) → c < 2 ^ 32 → z_code (z_code c) ≡ c
z_code_twice c h = omega arith

z_code-lt : (c : ℕ) → Within (2 ^ 19 - 1) (2 ^ 19) c → z_code c < 2 ^ 20
z_code-lt c h = omega arith

-- The number that the first 20 bits of a group of five bytes stand for, and that of the other 20.
first_read :
    (a0 a1 a2 : ℕ)
    → a0 < 256
    → a1 < 256
    → bit_and (bit_and (bit_or (bit_or a0 (a1 * 2 ^ 8)) (a2 * 2 ^ 16)) 0xFFFFF) 0xFFFFF
      ≡ (a0 + a1 * 256 + a2 * 65536) % 1048576
first_read a0 a1 a2 h0 h1 =
    rw
      (
        bit_or-shifted 8 a0 a1 h0,
        bit_or-shifted 16 (a0 + a1 * 2 ^ 8) a2 (omega arith),
        bit_and-ones 20 (a0 + a1 * 2 ^ 8 + a2 * 2 ^ 16),
        bit_and-ones 20 ((a0 + a1 * 2 ^ 8 + a2 * 2 ^ 16) % 2 ^ 20),
      )
      (omega arith)

second_read :
    (a2 a3 a4 : ℕ)
    → a2 < 256
    → a3 < 256
    → bit_or (bit_or (a2 / 2 ^ 4) (a3 * 2 ^ 4)) (a4 * 2 ^ 12) ≡ a2 / 16 + a3 * 16 + a4 * 4096
second_read a2 a3 a4 h2 h3 =
    rw
      (
        bit_or-shifted 4 (a2 / 2 ^ 4) a3 (omega arith),
        bit_or-shifted 12 (a2 / 2 ^ 4 + a3 * 2 ^ 4) a4 (omega arith),
      )
      refl

-- The byte that the two share.
shared_byte :
    (t0 t1 : ℕ) → t0 < 2 ^ 20 → bit_or (low_part t0 16) (high_part t1 4) ≡ t0 / 65536 + t1 % 16 * 16
shared_byte t0 t1 h =
    let high : t1 * 2 ^ 4 % 256 ≡ t1 % 16 * 2 ^ 4 = omega arith in
    rw high (bit_or-shifted 4 (low_part t0 16) (t1 % 16) (omega arith) ∙ omega arith)

-- A polynomial of pairs of coefficients from -(GAMMA1 - 1) to GAMMA1.
pub data IsZ : List ℕ → Type 0 where
  z_nil : IsZ []
  z_pair :
      (c0 c1 : ℕ) (cs : List ℕ)
      → Within (2 ^ 19 - 1) (2 ^ 19) c0
      → Within (2 ^ 19 - 1) (2 ^ 19) c1
      → IsZ cs
      → IsZ (c0 ∷ c1 ∷ cs)

-- The coefficients of the pair that five bytes stand for.
read_pair :
    (t0 t1 : ℕ)
    → t0 < 2 ^ 20
    → t1 < 2 ^ 20
    → (bit_and
          (bit_and
            (bit_or
              (bit_or (t0 % 256) (low_part t0 8 * 2 ^ 8))
              (bit_or (low_part t0 16) (high_part t1 4) * 2 ^ 16))
            0xFFFFF)
          0xFFFFF
        ≡ t0)
      × (bit_or
            (bit_or (bit_or (low_part t0 16) (high_part t1 4) / 2 ^ 4) (low_part t1 4 * 2 ^ 4))
            (low_part t1 12 * 2 ^ 12)
          ≡ t1)
read_pair t0 t1 h0 h1 =
    let s = t0 / 65536 + t1 % 16 * 16 in
    rw
      (
        shared_byte t0 t1 h0,
        first_read (t0 % 256) (low_part t0 8) s (omega arith) (omega arith),
        second_read s (low_part t1 4) (low_part t1 12) (omega arith) (omega arith),
      )
      (omega arith)

-- For a polynomial of pairs of coefficients from -(GAMMA1 - 1) to GAMMA1, poly_z_unpack of its packed bytes
-- is the polynomial.
pub poly_z_unpack-poly_z_pack : (cs : List ℕ) → IsZ cs → poly_z_unpack (poly_z_pack cs) ≡ cs
unfolding poly_z_unpack poly_z_pack
poly_z_unpack-poly_z_pack [] h = refl
poly_z_unpack-poly_z_pack _ (z_pair c0 c1 cs h0 h1 h) =
    let (e0, e1) = read_pair (z_code c0) (z_code c1) (z_code-lt c0 h0) (z_code-lt c1 h1) in
    rw (e0, e1, z_code_twice c0 h0.0, z_code_twice c1 h1.0, poly_z_unpack-poly_z_pack cs h) refl

-- Bytes in groups of five.
pub data IsPacked : List ℕ → Type 0 where
  packed_nil : IsPacked []
  packed_group :
      (a0 a1 a2 a3 a4 : ℕ) (bs : List ℕ)
      → All IsByte (a0 ∷ a1 ∷ a2 ∷ a3 ∷ a4 ∷ [])
      → IsPacked bs
      → IsPacked (a0 ∷ a1 ∷ a2 ∷ a3 ∷ a4 ∷ bs)

-- Any bytes in groups of five are the packed bytes of the polynomial that poly_z_unpack reads from them.
pub poly_z_pack-poly_z_unpack : (bs : List ℕ) → IsPacked bs → poly_z_pack (poly_z_unpack bs) ≡ bs
unfolding poly_z_unpack poly_z_pack
poly_z_pack-poly_z_unpack [] h = refl
poly_z_pack-poly_z_unpack _ (packed_group a0 a1 a2 a3 a4 bs (h0, (h1, (h2, (h3, (h4, u))))) h) =
    let t0 = (a0 + a1 * 256 + a2 * 65536) % 1048576 in
    let t1 = a2 / 16 + a3 * 16 + a4 * 4096 in
    let e0 : t0 % 256 ≡ a0 = omega arith in
    let e1 : t0 / 256 % 256 ≡ a1 = omega arith in
    let e2 : t0 / 65536 + t1 % 16 * 16 ≡ a2 = omega arith in
    let e3 : t1 / 16 % 256 ≡ a3 = omega arith in
    let e4 : t1 / 4096 % 256 ≡ a4 = omega arith in
    rw
      (
        first_read a0 a1 a2 h0 h1,
        second_read a2 a3 a4 h2 h3,
        z_code_twice t0 (omega arith),
        z_code_twice t1 (omega arith),
        shared_byte t0 t1 (omega arith),
        e0,
        e1,
        e2,
        e3,
        e4,
        poly_z_pack-poly_z_unpack bs h,
      )
      refl
