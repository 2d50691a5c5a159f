-- ===== src/App/Reassembly.antt =====
-- The chunks of src/helper/send_response.c put together again.
use mathlib.Core.List.{append-nil}
use native.Mathlib.Nat.{suc-add}
use ledger_app_qrl_v.Prelude.{
  ℕ, zero, suc, ◌+◌, ◌*◌, ◌<◌, ◌≡◌, refl, sym, ap, ◌∙◌, arith, List, [], ◌∷◌, ◌++◌, length, get_or,
  lt→ltb,
}
use ledger_app_qrl_v.App.Send.{copy_from, sig_chunk, pk_chunk}

-- The chunks from `index` on, `rounds` of them, one behind the other.
unfoldable pub joined : (chunk : ℕ → List ℕ) → (index rounds : ℕ) → List ℕ
joined chunk index zero = []
joined chunk index (suc rounds) = chunk index ++ joined chunk (suc index) rounds

copy_from-add :
    (a : List ℕ) (offset m n : ℕ)
    → copy_from a offset (m + n) ≡ copy_from a offset m ++ copy_from a (offset + m) n
unfolding copy_from
copy_from-add a offset zero n =
    ap (λ k. copy_from a offset k) (omega arith) ∙ ap (λ k. copy_from a k n) (omega arith)
copy_from-add a offset (suc m) n =
    ap (λ k. copy_from a offset k) (suc-add m n)
    ∙ ap (λ t. get_or a offset 0 ∷ t)
        (copy_from-add a (suc offset) m n
          ∙ ap (λ k. copy_from a (suc offset) m ++ copy_from a k n) (omega arith))

copy_from-drop :
    (x : ℕ) (xs : List ℕ) (offset n : ℕ) → copy_from (x ∷ xs) (suc offset) n ≡ copy_from xs offset n
unfolding copy_from
copy_from-drop x xs offset zero = refl
copy_from-drop x xs offset (suc n) =
    ap (λ t. get_or xs offset 0 ∷ t) (copy_from-drop x xs (suc offset) n)

copy_from-whole : (a : List ℕ) → copy_from a 0 (length a) ≡ a
unfolding copy_from
copy_from-whole [] = refl
copy_from-whole (x ∷ xs) = ap (λ t. x ∷ t) (copy_from-drop x xs 0 (length xs) ∙ copy_from-whole xs)

-- Chunks of the same size, and a last one.
joined-copy_from :
    (a : List ℕ) (chunk : ℕ → List ℕ) (size last top index rounds : ℕ)
    → ((i : ℕ) → i < top → chunk i ≡ copy_from a (i * size) size)
    → chunk top ≡ copy_from a (top * size) last
    → index + rounds ≡ top
    → joined chunk index (suc rounds) ≡ copy_from a (index * size) (rounds * size + last)
unfolding joined
joined-copy_from a chunk size last top index zero each e at =
    append-nil (chunk index)
    ∙ ap chunk index_top
    ∙ e
    ∙ ap (λ k. copy_from a (k * size) last) (sym index_top)
    ∙ ap (λ k. copy_from a (index * size) k) (omega arith)
  where
    index_top : index ≡ top
    index_top = omega (arith, at)
joined-copy_from a chunk size last top index (suc rounds) each e at =
    rw
      (
        each index (omega (arith, at)),
        joined-copy_from a chunk size last top (suc index) rounds each e (omega (arith, at)),
      )
      (ap (λ k. copy_from a (index * size) size ++ copy_from a k (rounds * size + last))
          (omega arith)
        ∙ sym (copy_from-add a (index * size) size (rounds * size + last))
        ∙ ap (λ k. copy_from a (index * size) k) (omega arith))

-- The host that requests the chunks 0 to 17 gets the whole signature, all 4627 bytes in order.
pub joined-sig_chunk : (sig : List ℕ) → length sig ≡ 4627 → joined (sig_chunk sig) 0 18 ≡ sig
joined-sig_chunk sig len =
    joined-copy_from sig (sig_chunk sig) 258 241 17 0 17 full refl_last (omega arith)
    ∙ ap (copy_from sig 0) (sym len)
    ∙ copy_from-whole sig
  where
    full : (i : ℕ) → i < 17 → sig_chunk sig i ≡ copy_from sig (i * 258) 258
    full i h = unfold sig_chunk in rw (lt→ltb i 17 h) refl

    refl_last : sig_chunk sig 17 ≡ copy_from sig (17 * 258) 241
    refl_last = unfold sig_chunk in refl

-- The same for the public key of 2592 bytes and the chunks 0 to 10.
pub joined-pk_chunk : (pk : List ℕ) → length pk ≡ 2592 → joined (pk_chunk pk) 0 11 ≡ pk
joined-pk_chunk pk len =
    joined-copy_from pk (pk_chunk pk) 258 12 10 0 10 full refl_last (omega arith)
    ∙ ap (copy_from pk 0) (sym len)
    ∙ copy_from-whole pk
  where
    full : (i : ℕ) → i < 10 → pk_chunk pk i ≡ copy_from pk (i * 258) 258
    full i h = unfold pk_chunk in rw (lt→ltb i 10 h) refl

    refl_last : pk_chunk pk 10 ≡ copy_from pk (10 * 258) 12
    refl_last = unfold pk_chunk in refl
