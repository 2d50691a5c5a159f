-- ===== src/Signature/Padding.antt =====
-- The bytes from a place on, and the last loop of unpack_sig_volatile of src/mldsa87/sign.c.
use ledger_app_qrl_v.Prelude.{
  ℕ, zero, suc, ◌+◌, ◌≤◌, ◌<◌, ◌≡◌, ◌∙◌, ap, refl, arith, List, [], ◌∷◌, ◌++◌, length, drop, get_or,
  replicate, ◌==◌, ==_iff, Bool-cases, inl, inr,
}
use ledger_app_qrl_v.Signature.{padding_code}

pub drop_cons : (j : ℕ) (xs : List ℕ) → j < length xs → drop j xs ≡ get_or xs j 0 ∷ drop (suc j) xs
drop_cons j [] h = absurd (omega arith)
drop_cons zero (x ∷ xs) h = refl
drop_cons (suc j) (x ∷ xs) h = drop_cons j xs (omega arith)

-- The first byte of the rest, and what is behind it.
pub get_or-drop :
    (j : ℕ) (xs : List ℕ) (y : ℕ) (ys : List ℕ)
    → drop j xs ≡ y ∷ ys
    → (get_or xs j 0 ≡ y) × (drop (suc j) xs ≡ ys)
get_or-drop zero [] y ys e = cc
get_or-drop (suc j) [] y ys e = cc
get_or-drop zero (x ∷ xs) y ys e = (cc, cc)
get_or-drop (suc j) (x ∷ xs) y ys e = get_or-drop j xs y ys e

-- The bytes are zero where the last loop goes through,
pub padding_code-zero :
    (hint : List ℕ) (j r : ℕ)
    → j + r ≤ length hint
    → padding_code hint j r ≡ 0
    → drop j hint ≡ replicate r 0 ++ drop (j + r) hint
unfolding padding_code
padding_code-zero hint j zero l e = ap (λ t. drop t hint) (omega arith)
padding_code-zero hint j (suc r) l e = elim (Bool-cases (get_or hint j 0 == 0)) [
  | inl t ↦
      let place : suc j + r ≡ j + suc r = omega arith in
      drop_cons j hint (omega arith)
      ∙ rw ((==_iff (get_or hint j 0) 0).0 t) (
          ap (λ t. 0 ∷ t)
            (padding_code-zero hint (suc j) r (omega arith) (rw t at e) ∙ rw place refl))
  | inr t ↦ absurd (omega (arith, rw t at e))
]

-- and it goes through zeros.
pub padding_code-replicate :
    (hint : List ℕ) (j r : ℕ) (tail : List ℕ)
    → drop j hint ≡ replicate r 0 ++ tail
    → padding_code hint j r ≡ 0
unfolding padding_code
padding_code-replicate hint j zero tail e = refl
padding_code-replicate hint j (suc r) tail e =
    let (first, rest) = get_or-drop j hint 0 (replicate r 0 ++ tail) e in
    rw first (padding_code-replicate hint (suc j) r tail rest)
