-- ===== src/Examples/Lattice.antt =====
-- Reduction, rounding, packing, signing and verification of ML-DSA-87 at concrete inputs.
use ledger_app_qrl_v.Prelude.{
  ℕ, zero, suc, Option, some, ◌+◌, ◌-◌, ◌*◌, ◌%◌, ◌^◌, ◌≤◌, ◌<◌, ◌≡◌, ◌↔◌, refl, arith, List, [],
  ◌∷◌, length, get_or, set, ◌++◌, replicate, take, drop, All, All-append, IsByte, fault,
}
use ledger_app_qrl_v.Word32.{Within}
use ledger_app_qrl_v.Reduce.{q_const, montgomery_reduce}
use ledger_app_qrl_v.Reduce.Bounds.{residue, montgomery_reduce_lem}
use ledger_app_qrl_v.Rounding.{gamma2, decompose, make_hint, use_hint}
use ledger_app_qrl_v.Rounding.Halves.{decompose_lem}
use ledger_app_qrl_v.Rounding.Recovery.{use_hint-make_hint}
use ledger_app_qrl_v.Ntt.{zetas}
use ledger_app_qrl_v.Ntt.Roots.{power_mod, reversed, zetas_lem}
use ledger_app_qrl_v.Poly.Arith.{poly_chk_norm}
use ledger_app_qrl_v.Poly.Arith.Norm.{magnitude, poly_chk_norm_lem}
use ledger_app_qrl_v.Polyvec.{poly_vec_k_pack_w1}
use ledger_app_qrl_v.Polyvec.Packed.{AreWhole, whole_nil, whole_poly, poly_vec_k_pack_w1_faults}
use ledger_app_qrl_v.Poly.ZPacking.{IsZ, z_nil, z_pair}
use ledger_app_qrl_v.Signature.{
  pack_sig_volatile, unpack_sig_volatile, crypto_bytes, unpack_z, decode_hints, decode_rows,
  decode_row, padding_code,
}
use ledger_app_qrl_v.Poly.{poly_z_unpack}
use ledger_app_qrl_v.Signature.Rows.{IsBit, positions}
use ledger_app_qrl_v.Signature.Encoding.{flat}
use ledger_app_qrl_v.Signature.RoundTrip.{AreHints, hints_nil, hints_row}
use ledger_app_qrl_v.Signature.Whole.{
  AreZ, zs_nil, zs_poly, unpack_sig_volatile-pack_sig_volatile,
  pack_sig_volatile-unpack_sig_volatile,
}
use ledger_app_qrl_v.Sign.{Nvm}
use ledger_app_qrl_v.Keccak.Hashes.{shake256_squeeze, shake128_squeeze}
use ledger_app_qrl_v.Sign.Samplers.{seeded256, seeded128, poly_uniform_eta, matrix_poly}
use ledger_app_qrl_v.Sign.Matrix.{uniform_samples, matrix_poly-uniform_samples}
use ledger_app_qrl_v.Sign.Streams.{eta_samples, first_256, poly_uniform_eta-eta_samples}
use ledger_app_qrl_v.Sign.Signing.{crypto_sign_optimized}
use ledger_app_qrl_v.Sign.Verifying.{crypto_verify_optimized}
use ledger_app_qrl_v.Sign.Exhausted.{expanded}
use ledger_app_qrl_v.Sign.Accepted.{IsSigned, crypto_sign_optimized-IsSigned}
use ledger_app_qrl_v.Sign.Checked.{IsAnswer, crypto_verify_optimized-IsAnswer}

-- The sum of the high part 3 and the low part -300000: it has another high part, so the hint is 1.
use_hint-make_hint_example :
    use_hint (3 * (2 * gamma2) - 300000) (make_hint (2 ^ 32 - 300000) 3) ≡ 3
use_hint-make_hint_example =
    use_hint-make_hint (3 * (2 * gamma2) - 300000) (2 ^ 32 - 300000) 3 (omega arith) (omega arith)
      (omega arith) refl

decompose_example :
    ((decompose 8380000).0 < 16)
    × Within gamma2 gamma2 (decompose 8380000).1
    × (((decompose 8380000).0 * (2 * gamma2) + ((decompose 8380000).1 + gamma2) % 2 ^ 32) % q_const
        ≡ (8380000 + gamma2) % q_const)
decompose_example = decompose_lem 8380000 (omega arith)

montgomery_reduce_example :
    Within (q_const - 1) (q_const - 1) (montgomery_reduce (2 ^ 64 - 123456789))
    × ((montgomery_reduce (2 ^ 64 - 123456789) + q_const) % 2 ^ 32 * 2 ^ 32 % q_const
        ≡ (2 ^ 64 - 123456789 + 2 ^ 31 * q_const) % 2 ^ 64 % q_const)
montgomery_reduce_example = montgomery_reduce_lem (2 ^ 64 - 123456789) (omega arith) (omega arith)

-- The coefficients 5 and -7, with the bound 7.
poly_chk_norm_example :
    ((poly_chk_norm (5 ∷ (2 ^ 32 - 7) ∷ []) 7 ≡ 0)
      ↔ All (λ c. magnitude c < 7) (5 ∷ (2 ^ 32 - 7) ∷ []))
    × (poly_chk_norm (5 ∷ (2 ^ 32 - 7) ∷ []) 7 ≤ 1)
poly_chk_norm_example =
    poly_chk_norm_lem 7 (omega arith) (omega arith) (5 ∷ (2 ^ 32 - 7) ∷ [])
      (omega arith, (omega arith, tt))

abbrev zero_poly : List ℕ
zero_poly = replicate 256 0

zero_polys-AreWhole : (n : ℕ) → AreWhole n (replicate n zero_poly)
zero_polys-AreWhole zero = whole_nil
zero_polys-AreWhole (suc n) = whole_poly n zero_poly _ refl (zero_polys-AreWhole n)

poly_vec_k_pack_w1_example :
    poly_vec_k_pack_w1 (replicate 1024 0) 1024 (replicate 8 zero_poly) ≡ fault
poly_vec_k_pack_w1_example =
    poly_vec_k_pack_w1_faults (replicate 1024 0) (replicate 8 zero_poly) refl
      (zero_polys-AreWhole 8)

zetas_example : residue (get_or zetas 2 0) ≡ 2 ^ 32 * power_mod 1753 (reversed 8 2) % q_const
zetas_example = zetas_lem 1 (omega arith)

-- Coefficients that are 0, two for each number.
abbrev zero_pairs : ℕ → List ℕ
zero_pairs zero = []
zero_pairs (suc n) = 0 ∷ 0 ∷ zero_pairs n

zero_pairs-IsZ : (n : ℕ) → IsZ (zero_pairs n)
zero_pairs-IsZ zero = z_nil
zero_pairs-IsZ (suc n) = z_pair 0 0 (zero_pairs n) (omega arith) (omega arith) (zero_pairs-IsZ n)

-- A polynomial of z with the coefficients 5 and -7, and a row of hints with the place 0.
abbrev z_poly : List ℕ
z_poly = 5 ∷ (2 ^ 32 - 7) ∷ zero_pairs 127

abbrev one_hint : List ℕ
one_hint = 1 ∷ replicate 255 0

z_polys-AreZ : (n : ℕ) → AreZ (replicate n z_poly)
z_polys-AreZ zero = zs_nil
z_polys-AreZ (suc n) =
    zs_poly z_poly (replicate n z_poly)
      (z_pair 5 (2 ^ 32 - 7) _ (omega arith) (omega arith) (zero_pairs-IsZ 127)) refl
      (z_polys-AreZ n)

zeros-IsBit : (n : ℕ) → All IsBit (replicate n 0)
zeros-IsBit zero = tt
zeros-IsBit (suc n) = (omega arith, zeros-IsBit n)

one_hints-AreHints : (n : ℕ) → AreHints (replicate n one_hint)
one_hints-AreHints zero = hints_nil
one_hints-AreHints (suc n) =
    hints_row one_hint (replicate n one_hint) refl (omega arith, zeros-IsBit 255)
      (one_hints-AreHints n)

few_hints : length (flat (replicate 8 one_hint)) ≤ 75
unfolding flat positions
few_hints = omega arith

unpack_sig_volatile-pack_sig_volatile_example :
    unpack_sig_volatile
      (replicate 8 [])
      (pack_sig_volatile [] crypto_bytes
        (replicate 64 9)
        (replicate 7 z_poly)
        (replicate 8 one_hint)).0
    ≡ (replicate 64 9, replicate 7 z_poly, replicate 8 one_hint, 0)
unpack_sig_volatile-pack_sig_volatile_example =
    unpack_sig_volatile-pack_sig_volatile [] (replicate 64 9) (replicate 7 z_poly)
      (replicate 8 one_hint) (replicate 8 []) refl (z_polys-AreZ 7) refl (one_hints-AreHints 8) refl
      few_hints refl

-- The signature with a hash of zeros, z of GAMMA1 everywhere, and one hint, at the place 5 of the first row.
abbrev hint_bytes : List ℕ
hint_bytes = 5 ∷ (replicate 74 0 ++ replicate 8 1)

abbrev placed : List ℕ
placed = replicate 64 0 ++ (replicate 4480 0 ++ hint_bytes)

abbrev high_polys : List (List ℕ)
high_polys = replicate 7 (replicate 256 (2 ^ 19))

abbrev hint_rows : List (List ℕ)
hint_rows = set (replicate 256 0) 5 1 ∷ replicate 7 (replicate 256 0)

copies-IsByte : (n b : ℕ) → b < 256 → All IsByte (replicate n b)
copies-IsByte zero b h = tt
copies-IsByte (suc n) b h = (h, copies-IsByte n b h)

placed-IsByte : All IsByte placed
placed-IsByte =
    All-append IsByte (replicate 64 0) (replicate 4480 0 ++ hint_bytes)
      (copies-IsByte 64 0 (omega arith))
      (All-append IsByte (replicate 4480 0) hint_bytes (copies-IsByte 4480 0 (omega arith)) (
        omega arith,
        All-append IsByte (replicate 74 0) (replicate 8 1) (copies-IsByte 74 0 (omega arith))
            (copies-IsByte 8 1 (omega arith)),
      ))

placed_unpacks :
    unpack_sig_volatile (replicate 8 []) placed ≡ (replicate 64 0, high_polys, hint_rows, 0)
unfolding unpack_sig_volatile unpack_z poly_z_unpack decode_hints decode_rows decode_row
    padding_code
placed_unpacks = refl

pack_sig_volatile-unpack_sig_volatile_example :
    pack_sig_volatile [] crypto_bytes (replicate 64 0) high_polys hint_rows ≡ (placed, 0)
pack_sig_volatile-unpack_sig_volatile_example =
    pack_sig_volatile-unpack_sig_volatile placed [] (replicate 64 0) high_polys hint_rows
      (replicate 8 []) refl placed-IsByte refl placed_unpacks

-- N_storage with zeros everywhere.
abbrev blank_nvm : Nvm
blank_nvm = record {
  t1 = replicate 8 zero_poly;
  w1 = replicate 8 zero_poly;
  w0 = replicate 8 zero_poly;
  h = replicate 8 zero_poly;
  y = replicate 7 zero_poly;
  z = replicate 7 zero_poly;
  cp = zero_poly;
  t0 = replicate 8 zero_poly;
  buf_verify = replicate 1024 0;
  sig = replicate 4627 0;
  pk = replicate 2592 0;
}

abbrev derived_bytes : Option (List ℕ)
derived_bytes = some (replicate 64 7)

abbrev abc : List ℕ
abc = 97 ∷ 98 ∷ 99 ∷ []

-- A sampler may take 100 refills.
crypto_sign_optimized_example :
    IsSigned 100 derived_bytes
      (replicate 32 1)
      abc
      blank_nvm
      (replicate 8 [])
      (crypto_sign_optimized 100 derived_bytes (replicate 32 1) abc blank_nvm)
crypto_sign_optimized_example =
    crypto_sign_optimized-IsSigned 100 derived_bytes (replicate 32 1) abc blank_nvm (replicate 8 [])
      refl refl refl

crypto_verify_optimized_example :
    IsAnswer 100
      (expanded derived_bytes)
      placed
      abc
      blank_nvm
      (crypto_verify_optimized 100 derived_bytes placed abc blank_nvm)
crypto_verify_optimized_example =
    crypto_verify_optimized-IsAnswer 100 derived_bytes placed abc blank_nvm refl placed-IsByte

-- The secret polynomial number 3 of a seed.
poly_uniform_eta_example :
    poly_uniform_eta 100 (replicate 64 7) 3
    ≡ first_256 (eta_samples (shake256_squeeze (seeded256 (replicate 64 7) 3) (101 * 136)).0)
poly_uniform_eta_example = poly_uniform_eta-eta_samples 100 (replicate 64 7) 3

-- The entry of the matrix in row 2 and column 5.
matrix_poly_example :
    matrix_poly 3 (replicate 32 9) (2 * 256 + 5)
    ≡ first_256 (
        uniform_samples (
          take 840 (shake128_squeeze (seeded128 (replicate 32 9) (2 * 256 + 5)) (842 + 3 * 168)).0
          ++ drop 842
              (shake128_squeeze (seeded128 (replicate 32 9) (2 * 256 + 5)) (842 + 3 * 168)).0))
matrix_poly_example = matrix_poly-uniform_samples 3 (replicate 32 9) (2 * 256 + 5)
