-- ===== src/Poly/Packing.antt =====
-- Unpacking gives back what was packed: src/mldsa87/poly.c.
use ledger_app_qrl_v.Prelude.{
  ℕ, ◌+◌, ◌*◌, ◌/◌, ◌%◌, ◌^◌, ◌<◌, ◌≡◌, refl, ap, ◌∙◌, arith, bit_and, bit_or, bit_or-shifted,
  bit_and-ones, List, [], ◌∷◌,
}
use ledger_app_qrl_v.Poly.{poly_t1_pack, poly_t1_unpack}

-- A low part of `k` bits and a part above it, cut to a byte.
joined_byte : (k a b : ℕ) → a < 2 ^ k → bit_or a (b * 2 ^ k) % 256 ≡ (a + b * 2 ^ k) % 256
joined_byte k a b h = ap (λ (t : ℕ). t % 256) (bit_or-shifted k a b h)

-- `(low | (high << k)) & 0x3FF`
ten_bits : (k a b : ℕ) → a < 2 ^ k → bit_and (bit_or a (b * 2 ^ k)) 0x3FF ≡ (a + b * 2 ^ k) % 1024
ten_bits k a b h =
    bit_and-ones 10 (bit_or a (b * 2 ^ k)) ∙ ap (λ (t : ℕ). t % 1024) (bit_or-shifted k a b h)

-- Each coefficient is read from the two bytes that hold its parts.
first_coeff :
    (c0 c1 : ℕ)
    → c0 < 1024
    → bit_and (bit_or (c0 % 256) (bit_or (c0 / 256) (c1 * 4) % 256 * 256)) 1023 ≡ c0
first_coeff c0 c1 h =
    rw
      (
        joined_byte 2 (c0 / 256) c1 (omega arith),
        ten_bits 8 (c0 % 256) ((c0 / 256 + c1 * 4) % 256) (omega arith),
      )
      (omega arith)

second_coeff :
    (c0 c1 c2 : ℕ)
    → c0 < 1024
    → c1 < 1024
    → bit_and
        (bit_or (bit_or (c0 / 256) (c1 * 4) % 256 / 4) (bit_or (c1 / 64) (c2 * 16) % 256 * 64))
        1023
      ≡ c1
second_coeff c0 c1 c2 h0 h1 =
    rw
      (
        joined_byte 2 (c0 / 256) c1 (omega arith),
        joined_byte 4 (c1 / 64) c2 (omega arith),
        ten_bits 6 ((c0 / 256 + c1 * 4) % 256 / 4) ((c1 / 64 + c2 * 16) % 256) (omega arith),
      )
      (omega arith)

third_coeff :
    (c1 c2 c3 : ℕ)
    → c1 < 1024
    → c2 < 1024
    → bit_and
        (bit_or (bit_or (c1 / 64) (c2 * 16) % 256 / 16) (bit_or (c2 / 16) (c3 * 64) % 256 * 16))
        1023
      ≡ c2
third_coeff c1 c2 c3 h1 h2 =
    rw
      (
        joined_byte 4 (c1 / 64) c2 (omega arith),
        joined_byte 6 (c2 / 16) c3 (omega arith),
        ten_bits 4 ((c1 / 64 + c2 * 16) % 256 / 16) ((c2 / 16 + c3 * 64) % 256) (omega arith),
      )
      (omega arith)

fourth_coeff :
    (c2 c3 : ℕ)
    → c2 < 1024
    → c3 < 1024
    → bit_and (bit_or (bit_or (c2 / 16) (c3 * 64) % 256 / 64) (c3 / 4 % 256 * 4)) 1023 ≡ c3
fourth_coeff c2 c3 h2 h3 =
    rw
      (
        joined_byte 6 (c2 / 16) c3 (omega arith),
        ten_bits 2 ((c2 / 16 + c3 * 64) % 256 / 64) (c3 / 4 % 256) (omega arith),
      )
      (omega arith)

-- A polynomial of whole groups of four coefficients of ten bits.
pub data IsT1 : List ℕ → Type 0 where
  t1_nil : IsT1 []
  t1_group :
      (c0 c1 c2 c3 : ℕ) (cs : List ℕ)
      → c0 < 1024
      → c1 < 1024
      → c2 < 1024
      → c3 < 1024
      → IsT1 cs
      → IsT1 (c0 ∷ c1 ∷ c2 ∷ c3 ∷ cs)

-- For a polynomial of whole groups of four coefficients below 2 ^ 10, poly_t1_unpack of its packed bytes is
-- the polynomial.
pub poly_t1_unpack-poly_t1_pack : (cs : List ℕ) → IsT1 cs → poly_t1_unpack (poly_t1_pack cs) ≡ cs
unfolding poly_t1_unpack poly_t1_pack
poly_t1_unpack-poly_t1_pack [] h = refl
poly_t1_unpack-poly_t1_pack _ (t1_group c0 c1 c2 c3 cs h0 h1 h2 h3 g) =
    rw
      (
        first_coeff c0 c1 h0,
        second_coeff c0 c1 c2 h0 h1,
        third_coeff c1 c2 c3 h1 h2,
        fourth_coeff c2 c3 h2 h3,
        poly_t1_unpack-poly_t1_pack cs g,
      )
      refl
