-- ===== src/Sign/Lengths.antt =====
-- The samplers give 256 coefficients: src/mldsa87/poly.c and src/mldsa87/sign.c.
use mathlib.Core.Option.{some_inj}
use ledger_app_qrl_v.Prelude.{
  sym, min, get_or, replicate, ℕ, zero, suc, ◌+◌, ◌-◌, ◌*◌, ◌/◌, ◌%◌, ◌≤◌, ◌≡◌, ◌∙◌, ap, refl,
  arith, none, some, List, [], ◌∷◌, ◌++◌, length, set, length-append, length-take, length-set,
  length-replicate, ltb, Bool-cases, inl, inr, false, ltb_false→ge,
}
use ledger_app_qrl_v.Prelude.Fuel.{>>=-eq-some}
use ledger_app_qrl_v.Word32.{sub32}
use ledger_app_qrl_v.Keccak.{Ctx, squeeze_bytes, squeeze, finalize}
use ledger_app_qrl_v.Keccak.Hashes.{shake256_squeeze}
use ledger_app_qrl_v.Poly.{rej_eta, poly_z_unpack}
use ledger_app_qrl_v.Poly.Sampling.{rej_uniform_lem}
use ledger_app_qrl_v.Sign.Samplers.{
  refill_eta, poly_uniform_eta, refill_matrix, matrix_poly, poly_uniform_gamma1, next_place,
  challenge_loop, poly_challenge_volatile, Stream,
}

pub length-squeeze_bytes : (rate n : ℕ) (ctx : Ctx) → length (squeeze_bytes rate n ctx).0 ≡ n
unfolding squeeze_bytes
length-squeeze_bytes rate zero ctx = refl
length-squeeze_bytes rate (suc n) ctx = ap suc (length-squeeze_bytes rate n _)

pub length-shake256_squeeze : (ctx : Ctx) (n : ℕ) → length (shake256_squeeze ctx n).0 ≡ n
unfolding shake256_squeeze squeeze
length-shake256_squeeze ctx n = elim (Bool-cases ctx.squeezing) [
  | inl e ↦ simp e (length-squeeze_bytes 136 n ctx)
  | inr e ↦ simp e (length-squeeze_bytes 136 n (finalize 136 0x1F ctx))
]

-- rej_eta writes no more than there is room for.
length-rej_eta : (room : ℕ) (bs : List ℕ) → length (rej_eta room bs) ≤ room
unfolding rej_eta
length-rej_eta room [] = omega arith
length-rej_eta room (b ∷ bs) =
    ground
      (arith, length-rej_eta (room - 2) bs, length-rej_eta (room - 1) bs, length-rej_eta room bs)

none-ne-some {ℓ} : {A : Type ℓ} {a : A} → none ≡ some a → ⊥
none-ne-some e = cc

-- The coefficients so far and some more that fit.
fits : (a got : List ℕ) → length a ≤ 256 → length got ≤ 256 - length a → length (a ++ got) ≤ 256
fits a got l g = omega (arith, length-append a got)

whole :
    (a p : List ℕ) → length a ≤ 256 → ltb (length a) 256 ≡ false → some a ≡ some p → length p ≡ 256
whole a p l t e = omega (arith, l, ltb_false→ge (length a) 256 t, ap length (some_inj.0 e))

length-refill_eta :
    (fuel : ℕ) (ctx : Ctx) (a p : List ℕ)
    → length a ≤ 256
    → refill_eta fuel ctx a ≡ some p
    → length p ≡ 256
unfolding refill_eta
length-refill_eta zero ctx a p l e = elim (Bool-cases (ltb (length a) 256)) [
  | inl t ↦ absurd (none-ne-some (rw t at e))
  | inr t ↦ whole a p l t (rw t at e)
]
length-refill_eta (suc fuel) ctx a p l e =
    let (buf, ctx') = shake256_squeeze ctx 136 in
    elim (Bool-cases (ltb (length a) 256)) [
      | inl t ↦
          length-refill_eta fuel ctx' (a ++ rej_eta (256 - length a) buf) p
            (fits a (rej_eta (256 - length a) buf) l (length-rej_eta (256 - length a) buf))
            (rw t at e)
      | inr t ↦ whole a p l t (rw t at e)
    ]

pub length-poly_uniform_eta :
    (fuel : ℕ) (seed : List ℕ) (nonce : ℕ) (p : List ℕ)
    → poly_uniform_eta fuel seed nonce ≡ some p
    → length p ≡ 256
unfolding poly_uniform_eta
length-poly_uniform_eta fuel seed nonce p e = length-refill_eta fuel _ _ p (length-rej_eta 256 _) e

length-refill_matrix :
    (fuel : ℕ) (ctx : Ctx) (buf : List ℕ) (buf_len : ℕ) (a p : List ℕ)
    → length a ≤ 256
    → refill_matrix fuel ctx buf buf_len a ≡ some p
    → length p ≡ 256
unfolding refill_matrix
length-refill_matrix zero ctx buf buf_len a p l e = elim (Bool-cases (ltb (length a) 256)) [
  | inl t ↦ absurd (none-ne-some (rw t at e))
  | inr t ↦ whole a p l t (rw t at e)
]
length-refill_matrix (suc fuel) ctx buf buf_len a p l e = elim (Bool-cases (ltb (length a) 256)) [
  | inl t ↦
      length-refill_matrix fuel _ _ _ _ p (fits a _ l (rej_uniform_lem (256 - length a) _).0)
        (rw t at e)
  | inr t ↦ whole a p l t (rw t at e)
]

pub length-matrix_poly :
    (fuel : ℕ) (rho : List ℕ) (nonce : ℕ) (p : List ℕ)
    → matrix_poly fuel rho nonce ≡ some p
    → length p ≡ 256
unfolding matrix_poly
length-matrix_poly fuel rho nonce p e =
    length-refill_matrix fuel _ _ _ _ p (rej_uniform_lem 256 _).0 e

-- Two coefficients for five bytes.
pub length-poly_z_unpack :
    (n : ℕ) (bs : List ℕ) → length bs ≡ n * 5 → length (poly_z_unpack bs) ≡ n + n
unfolding poly_z_unpack
length-poly_z_unpack zero [] l = refl
length-poly_z_unpack zero (b ∷ bs) l = absurd (omega arith)
length-poly_z_unpack (suc n) (a0 ∷ a1 ∷ a2 ∷ a3 ∷ a4 ∷ bs) l =
    omega (arith, length-poly_z_unpack n bs (omega arith))
length-poly_z_unpack (suc n) (a0 ∷ a1 ∷ a2 ∷ a3 ∷ []) l = absurd (omega arith)
length-poly_z_unpack (suc n) (a0 ∷ a1 ∷ a2 ∷ []) l = absurd (omega arith)
length-poly_z_unpack (suc n) (a0 ∷ a1 ∷ []) l = absurd (omega arith)
length-poly_z_unpack (suc n) (a0 ∷ []) l = absurd (omega arith)
length-poly_z_unpack (suc n) [] l = absurd (omega arith)

pub length-poly_uniform_gamma1 :
    (seed : List ℕ) (nonce : ℕ) → length (poly_uniform_gamma1 seed nonce) ≡ 256
unfolding poly_uniform_gamma1
length-poly_uniform_gamma1 seed nonce =
    length-poly_z_unpack 128 _
      (length-take 640 _ ∙ ap (min 640) (length-shake256_squeeze _ (5 * 136)))

length-challenge_loop :
    (fuel rounds i signs : ℕ) (st : Stream) (c p : List ℕ)
    → challenge_loop fuel rounds i signs st c ≡ some p
    → length p ≡ length c
unfolding challenge_loop
length-challenge_loop fuel zero i signs st c p e = ap length (sym (some_inj.0 e))
length-challenge_loop fuel (suc rounds) i signs st c p e =
    let ((b, st'), _, e') = >>=-eq-some (next_place fuel i st) _ e in
    length-challenge_loop fuel rounds (suc i) (signs / 2) st' _ p e'
    ∙ length-set (set c i (get_or c b 0)) b (sub32 1 (2 * (signs % 2)))
    ∙ length-set c i (get_or c b 0)

pub length-poly_challenge_volatile :
    (fuel : ℕ) (seed p : List ℕ) → poly_challenge_volatile fuel seed ≡ some p → length p ≡ 256
unfolding poly_challenge_volatile
length-poly_challenge_volatile fuel seed p e =
    length-challenge_loop fuel 60 196 _ _ (replicate 256 0) p e ∙ length-replicate {A = ℕ} 256 0
