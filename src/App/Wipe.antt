-- ===== src/App/Wipe.antt =====
-- `nvm_zero` and `wipe_nvm_secrets` of src/mldsa87/sign.c.
use mathlib.Core.List.{append_assoc}
use native.Mathlib.Nat.{suc-add}
use ledger_app_qrl_v.Prelude.{
  sym, take-length_append, drop-length_append, drop-add, ℕ, zero, suc, ◌+◌, ◌-◌, ◌*◌, ◌≤◌, ◌≡◌,
  refl, ap, ◌∙◌, arith, List, ◌∷◌, ◌++◌, length, take, drop, replicate, length-replicate, ltb,
  if◌then◌else◌, Bool-cases, inl, inr,
}
use ledger_app_qrl_v.App.{Storage}

-- `nvm_write(dst + off, src, length src)` on the bytes of `dst`.
unfoldable pub nvm_write : (dst : List ℕ) → (off : ℕ) → (src : List ℕ) → List ℕ
nvm_write dst off src = take off dst ++ (src ++ drop (off + length src) dst)

-- The `while` loop: `fuel` rounds, of which `len` are enough since each moves `off` on.
unfoldable pub nvm_zero_from : (fuel off len : ℕ) → List ℕ → List ℕ
unfolding nvm_write
nvm_zero_from zero off len dst = dst
nvm_zero_from (suc fuel) off len dst =
    let chunk = if ltb 256 (len - off) then 256 else len - off in
    let rest = nvm_zero_from fuel (off + chunk) len (nvm_write dst off (replicate chunk 0)) in
    if ltb off len then rest else dst

unfoldable pub nvm_zero : (len : ℕ) → List ℕ → List ℕ
unfolding nvm_zero_from
nvm_zero len dst = nvm_zero_from len 0 len dst

-- sizeof(PolyVecL), sizeof(PolyVecK), and sizeof(N_storage.pack1), a union as large as a PolyVecK.
abbrev pub size_of_poly_vec_l : ℕ
size_of_poly_vec_l = 7 * (256 * 4)

abbrev pub size_of_poly_vec_k : ℕ
size_of_poly_vec_k = 8 * (256 * 4)

unfoldable pub wipe_nvm_secrets : Storage → Storage
wipe_nvm_secrets st = record st {
  y = nvm_zero size_of_poly_vec_l st.y;
  pack1 = nvm_zero size_of_poly_vec_k st.pack1;
  w0 = nvm_zero size_of_poly_vec_k st.w0;
}

take_front : (xs ys : List ℕ) (n : ℕ) → length xs ≡ n → take n (xs ++ ys) ≡ xs
take_front xs ys n e = rw (sym e) (take-length_append xs ys)

drop_behind : (xs ys : List ℕ) (n k : ℕ) → length xs ≡ n → drop (n + k) (xs ++ ys) ≡ drop k ys
drop_behind xs ys n k e =
    drop-add n k (xs ++ ys) ∙ rw (sym e) (ap (drop k) (drop-length_append xs ys))

replicate_add : (m n : ℕ) → replicate {A = ℕ} m 0 ++ replicate n 0 ≡ replicate (m + n) 0
replicate_add zero n = ap (λ k. replicate k 0) (omega arith)
replicate_add (suc m) n = rw (suc-add m n) (ap (λ t. 0 ∷ t) (replicate_add m n))

-- The first `off` bytes are zero already, and so are the next `chunk` bytes then.
write_zeros :
    (off chunk : ℕ) (dst : List ℕ)
    → nvm_write (replicate off 0 ++ drop off dst) off (replicate chunk 0)
      ≡ replicate (off + chunk) 0 ++ drop (off + chunk) dst
unfolding nvm_write
write_zeros off chunk dst =
    rw
      (
        take_front (replicate off 0) (drop off dst) off (length-replicate {A = ℕ} off 0),
        length-replicate {A = ℕ} chunk 0,
        drop_behind (replicate off 0) (drop off dst) off chunk (length-replicate {A = ℕ} off 0),
        sym (append_assoc (replicate off 0) (replicate chunk 0) (drop chunk (drop off dst))),
        replicate_add off chunk,
        drop-add off chunk dst,
      )
      refl

-- Each round moves on, so that fuel of what is left is enough.
nvm_zero_from_lem :
    (fuel off len : ℕ) (dst : List ℕ)
    → off ≤ len
    → len ≤ off + fuel
    → nvm_zero_from fuel off len (replicate off 0 ++ drop off dst) ≡ replicate len 0 ++ drop len dst
unfolding nvm_zero_from
nvm_zero_from_lem zero off len dst h enough =
    ap (λ k. replicate k 0 ++ drop k dst) (omega (arith, h, enough))
nvm_zero_from_lem (suc fuel) off len dst h enough = elim (Bool-cases (ltb off len)) [
  | inl more ↦
      let chunk : ℕ = if ltb 256 (len - off) then 256 else len - off in
      rw (more, write_zeros off chunk dst)
        (nvm_zero_from_lem fuel (off + chunk) len dst (ground arith) (ground arith))
  | inr done ↦ rw done (ap (λ k. replicate k 0 ++ drop k dst) (ground (arith, h)))
]

-- The loop writes zeros over the first `len` bytes and nothing else.
pub nvm_zero_lem : (len : ℕ) (dst : List ℕ) → nvm_zero len dst ≡ replicate len 0 ++ drop len dst
unfolding nvm_zero
nvm_zero_lem len dst = nvm_zero_from_lem len 0 len dst (omega arith) (omega arith)

-- Every byte that sizeof counts of y, of pack1 and of w0 is zero.
pub record IsWiped (st : Storage) : Type 0 where
  pub y_zero : take size_of_poly_vec_l st.y ≡ replicate size_of_poly_vec_l 0
  pub pack1_zero : take size_of_poly_vec_k st.pack1 ≡ replicate size_of_poly_vec_k 0
  pub w0_zero : take size_of_poly_vec_k st.w0 ≡ replicate size_of_poly_vec_k 0

nvm_zero-front : (len : ℕ) (dst : List ℕ) → take len (nvm_zero len dst) ≡ replicate len 0
nvm_zero-front len dst =
    ap (take len) (nvm_zero_lem len dst)
    ∙ take_front (replicate len 0) (drop len dst) len (length-replicate {A = ℕ} len 0)

pub wipe_nvm_secrets-IsWiped : (st : Storage) → IsWiped (wipe_nvm_secrets st)
unfolding wipe_nvm_secrets
wipe_nvm_secrets-IsWiped st = record {
  y_zero = nvm_zero-front size_of_poly_vec_l st.y;
  pack1_zero = nvm_zero-front size_of_poly_vec_k st.pack1;
  w0_zero = nvm_zero-front size_of_poly_vec_k st.w0;
}
