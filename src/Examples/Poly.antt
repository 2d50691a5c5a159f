-- ===== src/Examples/Poly.antt =====
-- Packed polynomials and sampled coefficients at concrete inputs.
use ledger_app_qrl_v.Prelude.{ℕ, ◌≡◌, arith, List, [], ◌∷◌}
use ledger_app_qrl_v.Poly.{poly_t1_pack, poly_t1_unpack}
use ledger_app_qrl_v.Poly.Packing.{IsT1, t1_nil, t1_group, poly_t1_unpack-poly_t1_pack}

abbrev eight_coeffs : List ℕ
eight_coeffs = 1023 ∷ 0 ∷ 517 ∷ 258 ∷ 3 ∷ 1000 ∷ 512 ∷ 255 ∷ []

eight_coeffs-IsT1 : IsT1 eight_coeffs
eight_coeffs-IsT1 =
    t1_group 1023 0 517 258 _ (omega arith) (omega arith) (omega arith) (omega arith)
      (t1_group 3 1000 512 255 _ (omega arith) (omega arith) (omega arith) (omega arith) t1_nil)

poly_t1_example : poly_t1_unpack (poly_t1_pack eight_coeffs) ≡ eight_coeffs
poly_t1_example = poly_t1_unpack-poly_t1_pack eight_coeffs eight_coeffs-IsT1
