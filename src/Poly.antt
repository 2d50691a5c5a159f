-- ===== src/Poly.antt =====
-- Packing polynomials and sampling their coefficients: src/mldsa87/poly.c.
-- An `int32_t` coefficient is its bit pattern, a number below 2 ^ 32; a polynomial is the list of its
-- coefficients, which the loops take a group at a time. A conversion to `uint8_t` is `% 256`.
pub mod Arith
pub mod Packing
pub mod ZPacking
pub mod Sampling
use ledger_app_qrl_v.Prelude.{
  ℕ, zero, suc, ◌+◌, ◌-◌, ◌*◌, ◌/◌, ◌%◌, ◌^◌, bit_and, bit_or, Bool, true, false, ◌&&◌, List, [],
  ◌∷◌, ◌++◌, ltb, if◌then◌else◌,
}
use ledger_app_qrl_v.Word32.{sub32}
use ledger_app_qrl_v.Reduce.{q_const}

-- `ETA - coeff` as a byte.
abbrev pub eta_code : ℕ → ℕ
eta_code c = sub32 2 c % 256

abbrev pub eta_bytes : (t0 t1 t2 t3 t4 t5 t6 t7 : ℕ) → List ℕ
eta_bytes t0 t1 t2 t3 t4 t5 t6 t7 =
    (bit_or (bit_or t0 (t1 * 2 ^ 3)) (t2 * 2 ^ 6) % 256)
    ∷ (bit_or (bit_or (bit_or (t2 / 2 ^ 2) (t3 * 2 ^ 1)) (t4 * 2 ^ 4)) (t5 * 2 ^ 7) % 256)
    ∷ (bit_or (bit_or (t5 / 2 ^ 1) (t6 * 2 ^ 2)) (t7 * 2 ^ 5) % 256)
    ∷ []

unfoldable pub poly_eta_pack : List ℕ → List ℕ
poly_eta_pack (c0 ∷ c1 ∷ c2 ∷ c3 ∷ c4 ∷ c5 ∷ c6 ∷ c7 ∷ cs) =
    eta_bytes (eta_code c0) (eta_code c1) (eta_code c2) (eta_code c3) (eta_code c4) (eta_code c5)
      (eta_code c6) (eta_code c7)
    ++ poly_eta_pack cs
poly_eta_pack _ = []

unfoldable pub poly_eta_unpack : List ℕ → List ℕ
poly_eta_unpack (a0 ∷ a1 ∷ a2 ∷ rest) =
    sub32 2 (bit_and a0 7)
    ∷ sub32 2 (bit_and (a0 / 2 ^ 3) 7)
    ∷ sub32 2 (bit_and (bit_or (a0 / 2 ^ 6) (a1 * 2 ^ 2)) 7)
    ∷ sub32 2 (bit_and (a1 / 2 ^ 1) 7)
    ∷ sub32 2 (bit_and (a1 / 2 ^ 4) 7)
    ∷ sub32 2 (bit_and (bit_or (a1 / 2 ^ 7) (a2 * 2 ^ 1)) 7)
    ∷ sub32 2 (bit_and (a2 / 2 ^ 2) 7)
    ∷ sub32 2 (bit_and (a2 / 2 ^ 5) 7)
    ∷ poly_eta_unpack rest
poly_eta_unpack _ = []

unfoldable pub poly_t1_pack : List ℕ → List ℕ
poly_t1_pack (c0 ∷ c1 ∷ c2 ∷ c3 ∷ cs) =
    (c0 % 256)
    ∷ (bit_or (c0 / 2 ^ 8) (c1 * 2 ^ 2) % 256)
    ∷ (bit_or (c1 / 2 ^ 6) (c2 * 2 ^ 4) % 256)
    ∷ (bit_or (c2 / 2 ^ 4) (c3 * 2 ^ 6) % 256)
    ∷ (c3 / 2 ^ 2 % 256)
    ∷ poly_t1_pack cs
poly_t1_pack _ = []

unfoldable pub poly_t1_unpack : List ℕ → List ℕ
poly_t1_unpack (a0 ∷ a1 ∷ a2 ∷ a3 ∷ a4 ∷ rest) =
    bit_and (bit_or a0 (a1 * 2 ^ 8)) 0x3FF
    ∷ bit_and (bit_or (a1 / 2 ^ 2) (a2 * 2 ^ 6)) 0x3FF
    ∷ bit_and (bit_or (a2 / 2 ^ 4) (a3 * 2 ^ 4)) 0x3FF
    ∷ bit_and (bit_or (a3 / 2 ^ 6) (a4 * 2 ^ 2)) 0x3FF
    ∷ poly_t1_unpack rest
poly_t1_unpack _ = []

-- `t[k] = (1 << (D - 1)) - coeff`
abbrev pub t0_code : ℕ → ℕ
t0_code c = sub32 (2 ^ 12) c

-- `(uint8_t) (t << k)`
abbrev pub high_part : (t k : ℕ) → ℕ
high_part t k = t * 2 ^ k % 256

-- `(uint8_t) (t >> k)`
abbrev pub low_part : (t k : ℕ) → ℕ
low_part t k = t / 2 ^ k % 256

abbrev pub t0_bytes : (t0 t1 t2 t3 t4 t5 t6 t7 : ℕ) → List ℕ
t0_bytes t0 t1 t2 t3 t4 t5 t6 t7 =
    (t0 % 256)
    ∷ bit_or (low_part t0 8) (high_part t1 5)
    ∷ low_part t1 3
    ∷ bit_or (low_part t1 11) (high_part t2 2)
    ∷ bit_or (low_part t2 6) (high_part t3 7)
    ∷ low_part t3 1
    ∷ bit_or (low_part t3 9) (high_part t4 4)
    ∷ low_part t4 4
    ∷ bit_or (low_part t4 12) (high_part t5 1)
    ∷ bit_or (low_part t5 7) (high_part t6 6)
    ∷ low_part t6 2
    ∷ bit_or (low_part t6 10) (high_part t7 3)
    ∷ low_part t7 5
    ∷ []

unfoldable pub poly_t0_pack : List ℕ → List ℕ
poly_t0_pack (c0 ∷ c1 ∷ c2 ∷ c3 ∷ c4 ∷ c5 ∷ c6 ∷ c7 ∷ cs) =
    t0_bytes (t0_code c0) (t0_code c1) (t0_code c2) (t0_code c3) (t0_code c4) (t0_code c5)
      (t0_code c6) (t0_code c7)
    ++ poly_t0_pack cs
poly_t0_pack _ = []

unfoldable pub poly_t0_unpack : List ℕ → List ℕ
poly_t0_unpack (a0 ∷ a1 ∷ a2 ∷ a3 ∷ a4 ∷ a5 ∷ a6 ∷ a7 ∷ a8 ∷ a9 ∷ a10 ∷ a11 ∷ a12 ∷ rest) =
    t0_code (bit_and (bit_or a0 (a1 * 2 ^ 8)) 0x1FFF)
    ∷ t0_code (bit_and (bit_or (bit_or (a1 / 2 ^ 5) (a2 * 2 ^ 3)) (a3 * 2 ^ 11)) 0x1FFF)
    ∷ t0_code (bit_and (bit_or (a3 / 2 ^ 2) (a4 * 2 ^ 6)) 0x1FFF)
    ∷ t0_code (bit_and (bit_or (bit_or (a4 / 2 ^ 7) (a5 * 2 ^ 1)) (a6 * 2 ^ 9)) 0x1FFF)
    ∷ t0_code (bit_and (bit_or (bit_or (a6 / 2 ^ 4) (a7 * 2 ^ 4)) (a8 * 2 ^ 12)) 0x1FFF)
    ∷ t0_code (bit_and (bit_or (a8 / 2 ^ 1) (a9 * 2 ^ 7)) 0x1FFF)
    ∷ t0_code (bit_and (bit_or (bit_or (a9 / 2 ^ 6) (a10 * 2 ^ 2)) (a11 * 2 ^ 10)) 0x1FFF)
    ∷ t0_code (bit_and (bit_or (a11 / 2 ^ 3) (a12 * 2 ^ 5)) 0x1FFF)
    ∷ poly_t0_unpack rest
poly_t0_unpack _ = []

-- `GAMMA1 - coeff`
abbrev pub z_code : ℕ → ℕ
z_code c = sub32 (2 ^ 19) c

abbrev pub z_bytes : (t0 t1 : ℕ) → List ℕ
z_bytes t0 t1 =
    (t0 % 256)
    ∷ low_part t0 8
    ∷ bit_or (low_part t0 16) (high_part t1 4)
    ∷ low_part t1 4
    ∷ low_part t1 12
    ∷ []

unfoldable pub poly_z_pack : List ℕ → List ℕ
poly_z_pack (c0 ∷ c1 ∷ cs) = z_bytes (z_code c0) (z_code c1) ++ poly_z_pack cs
poly_z_pack _ = []

-- The second coefficient is not masked: the mask at its place is applied to the first one again.
unfoldable pub poly_z_unpack : List ℕ → List ℕ
poly_z_unpack (a0 ∷ a1 ∷ a2 ∷ a3 ∷ a4 ∷ rest) =
    z_code (bit_and (bit_and (bit_or (bit_or a0 (a1 * 2 ^ 8)) (a2 * 2 ^ 16)) 0xFFFFF) 0xFFFFF)
    ∷ z_code (bit_or (bit_or (a2 / 2 ^ 4) (a3 * 2 ^ 4)) (a4 * 2 ^ 12))
    ∷ poly_z_unpack rest
poly_z_unpack _ = []

unfoldable pub poly_w1_pack : List ℕ → List ℕ
poly_w1_pack (c0 ∷ c1 ∷ cs) = (bit_or c0 (c1 * 2 ^ 4) % 256) ∷ poly_w1_pack cs
poly_w1_pack _ = []

-- The coefficients that `rej_uniform` writes, `room` of them at most; their number is what it returns.
unfoldable pub rej_uniform : (room : ℕ) → List ℕ → List ℕ
rej_uniform zero bs = []
rej_uniform (suc room) (b0 ∷ b1 ∷ b2 ∷ bs) =
    let t = bit_and (bit_or (bit_or b0 (b1 * 2 ^ 8)) (b2 * 2 ^ 16)) 0x7fffff in
    let kept = rej_uniform room bs in
    let dropped = rej_uniform (suc room) bs in if ltb t q_const then t ∷ kept else dropped
rej_uniform (suc room) _ = []

-- `2 - (t - (205 * t >> 10) * 5)`
abbrev pub eta_sample : ℕ → ℕ
eta_sample t = sub32 2 (t - 205 * t / 2 ^ 10 * 5)

-- The same of `rej_eta`, with two candidates in each byte.
unfoldable pub rej_eta : (room : ℕ) → List ℕ → List ℕ
rej_eta room [] = []
rej_eta room (b ∷ bs) =
    let t0 = bit_and b 0x0F in
    let t1 = b / 2 ^ 4 in
    let two = rej_eta (room - 2) bs in
    let one = rej_eta (room - 1) bs in
    let none_kept = rej_eta room bs in
    if ltb 0 room
    then (if ltb t0 15
        then (if ltb t1 15 && ltb 1 room
            then eta_sample t0 ∷ eta_sample t1 ∷ two
            else eta_sample t0 ∷ one)
        else (if ltb t1 15 then eta_sample t1 ∷ one else none_kept))
    else []
