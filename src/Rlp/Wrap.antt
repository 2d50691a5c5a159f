-- ===== src/Rlp/Wrap.antt =====
-- A length of more than four bytes on a device, whose `size_t` has 32 bits: the shift in the loop of
-- `parse_rlp_item` (src/mldsa87/rlp_decode.c) loses the high bytes.
use mathlib.Core.Path.{subst}
use ledger_app_qrl_v.Prelude.{
  sym, ℕ, ◌+◌, ◌%◌, ◌^◌, ◌≤◌, ◌<◌, ◌≡◌, ◌⊎◌, ◌∙◌, refl, ap, arith, List, ◌∷◌, ◌++◌, length, ok,
  reject, All, IsByte, value_of, length-append, take-length_append, inl, inr,
}
use native.Mathlib.Nat.{mod-eq_of_lt}
use ledger_app_qrl_v.Rlp.{
  SizeT, bits32, bits64, size_mod, Item, long_length, long_item, item_of_prefix, read_item,
  parse_rlp_item,
}
use ledger_app_qrl_v.Rlp.Length.{read_length_mod, eight_bytes_fit}
use ledger_app_qrl_v.Rlp.Consumed.{parse_rlp_item-read}

-- A prefix of a long form, a string (base 0xb7) or a list (base 0xf7), its length bytes, and `tail`.
abbrev pub spelled : (base : ℕ) → (bs tail : List ℕ) → List ℕ
spelled base bs tail = (base + length bs) ∷ bs ++ tail

-- The item that the low 32 bits of the length announce.
abbrev pub wrapped : (bs : List ℕ) → Item
wrapped bs = record {
  start = 1 + length bs;
  len = value_of bs % 2 ^ 32;
  consumed = 1 + length bs + value_of bs % 2 ^ 32;
}

long_length-spelled :
    (s : SizeT) (base first : ℕ) (more tail : List ℕ)
    → 0 < first
    → All IsByte (first ∷ more)
    → long_length s (spelled base (first ∷ more) tail) (length (first ∷ more))
      ≡ ok (value_of (first ∷ more) % size_mod s)
unfolding long_length
long_length-spelled s base first more tail h hb =
    let bs : List ℕ = first ∷ more in
    let again =
      read_length_mod s (spelled base bs tail) (length bs) (omega (arith, length-append bs tail))
        (subst (All IsByte) (sym (take-length_append bs tail)) hb)
      ∙ ap (λ v. ok (value_of v % size_mod s)) (take-length_append bs tail) in
    ground (arith, again, length-append more tail)

read_item-spelled :
    (s : SizeT) (base : ℕ) (bs tail : List ℕ)
    → (base ≡ 0xb7) ⊎ (base ≡ 0xf7)
    → 0 < length bs
    → length bs ≤ 8
    → read_item s (spelled base bs tail) ≡ long_item s (spelled base bs tail) (length bs)
unfolding read_item item_of_prefix
read_item-spelled s base bs tail (inl e) h h' = ground (arith, e)
read_item-spelled s base bs tail (inr e) h h' = ground (arith, e)

accepted :
    (base first : ℕ) (more tail : List ℕ)
    → 0 < first
    → All IsByte (first ∷ more)
    → 56 ≤ value_of (first ∷ more) % 2 ^ 32
    → value_of (first ∷ more) % 2 ^ 32 ≤ length tail
    → long_item bits32 (spelled base (first ∷ more) tail) (length (first ∷ more))
      ≡ ok (wrapped (first ∷ more))
unfolding long_item
accepted base first more tail h hb big held =
    ground (arith, long_length-spelled bits32 base first more tail h hb, length-append more tail)

refused :
    (base first : ℕ) (more tail : List ℕ)
    → 0 < first
    → All IsByte (first ∷ more)
    → length (first ∷ more) ≤ 8
    → length tail < value_of (first ∷ more)
    → long_item bits64 (spelled base (first ∷ more) tail) (length (first ∷ more)) ≡ reject
unfolding long_item
refused base first more tail h hb few large =
    let all =
      long_length-spelled bits64 base first more tail h hb
      ∙ ap ok (mod-eq_of_lt (eight_bytes_fit (first ∷ more) hb few)) in
    ground (arith, all, length-append more tail)

-- A string or a list whose length bytes (at most eight, the first not zero) spell 2 ^ 32 or more, in a
-- buffer of less than 2 ^ 31 bytes that holds the 56 or more bytes which the low 32 bits of that length
-- announce: with a `size_t` of 32 bits it is accepted with these low bits as its length, and with 64
-- bits it is refused.
pub parse_rlp_item_wraps :
    (base first : ℕ) (more tail : List ℕ)
    → (base ≡ 0xb7) ⊎ (base ≡ 0xf7)
    → 0 < first
    → All IsByte (first ∷ more)
    → length (first ∷ more) ≤ 8
    → 2 ^ 32 ≤ value_of (first ∷ more)
    → 56 ≤ value_of (first ∷ more) % 2 ^ 32
    → value_of (first ∷ more) % 2 ^ 32 ≤ length tail
    → length (spelled base (first ∷ more) tail) < 2 ^ 31
    → (parse_rlp_item bits32 (spelled base (first ∷ more) tail) ≡ ok (wrapped (first ∷ more)))
      × (parse_rlp_item bits64 (spelled base (first ∷ more) tail) ≡ reject)
parse_rlp_item_wraps base first more tail long h hb few large big held short = (
  parse_rlp_item-read bits32 (spelled base (first ∷ more) tail) (wrapped (first ∷ more))
      (read_item-spelled bits32 base (first ∷ more) tail long (omega arith) few
        ∙ accepted base first more tail h hb big held)
      (omega (arith, short, held, length-append more tail)),
  unfold parse_rlp_item in
      rw
        (
          read_item-spelled bits64 base (first ∷ more) tail long (omega arith) few,
          refused base first more tail h hb few
              (omega (arith, short, large, length-append more tail)),
        )
        refl,
)
