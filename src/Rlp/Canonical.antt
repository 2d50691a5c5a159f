-- ===== src/Rlp/Canonical.antt =====
-- Which byte strings `parse_rlp_item` of src/mldsa87/rlp_decode.c accepts as strings.
use mathlib.Core.Path.{subst}
use native.Mathlib.Decide.{dec_le}
use ledger_app_qrl_v.Prelude.{
  ℕ, ◌^◌, ◌%◌, ◌+◌, suc, ◌+◌, ◌-◌, ◌≤◌, ◌<◌, ◌≡◌, sym, ◌∙◌, arith, List, [], ◌∷◌, ◌++◌, take, drop,
  drop-add, ok, All, IsByte,
}
use ledger_app_qrl_v.Rlp.Items.{read_item-IsInside}
use ledger_app_qrl_v.Rlp.Consumed.{parse_rlp_item_reads}
use ledger_app_qrl_v.Rlp.{
  parse_rlp_item, SizeT, bits64, Item, long_length, short_string, long_item, item_of_prefix,
  read_item,
}
use ledger_app_qrl_v.Rlp.Encode.{encode_string}
use ledger_app_qrl_v.Rlp.Spelling.{short_string_canonical, long_item_canonical}

-- The item at the front of a buffer is the encoding of its content.
IsSpelled : List ℕ → Item → Type 0
IsSpelled input it =
    input ≡ encode_string (take it.len (drop it.start input)) ++ drop it.consumed input

own_byte_case :
    (p : ℕ) (xs : List ℕ) (it : Item)
    → p ≤ 0x7f
    → item_of_prefix bits64 (p ∷ xs) p ≡ ok it
    → IsSpelled (p ∷ xs) it
unfolding IsSpelled
own_byte_case p xs it h e = rw is (unfold encode_string in ground arith)
  where
    is : it ≡ record { start = 0; len = 1; consumed = 1 }
    is = unfold item_of_prefix in ground arith

short_case :
    (n : ℕ) (xs : List ℕ) (it : Item)
    → n < 56
    → item_of_prefix bits64 ((0x80 + n) ∷ xs) (0x80 + n) ≡ ok it
    → IsSpelled ((0x80 + n) ∷ xs) it
unfolding IsSpelled
short_case n xs it h e =
    let (is, spelled) = short_string_canonical n xs it h (sym dispatch ∙ e) in rw is spelled
  where
    cancel : 0x80 + n - 0x80 ≡ n
    cancel = omega arith

    dispatch : item_of_prefix bits64 ((0x80 + n) ∷ xs) (0x80 + n) ≡ short_string ((0x80 + n) ∷ xs) n
    dispatch = unfold item_of_prefix in ground (arith, cancel)

long_case :
    (x : ℕ) (xs : List ℕ) (k : ℕ) (it : Item)
    → suc k ≤ 8
    → All IsByte (x ∷ xs)
    → item_of_prefix bits64 ((0xb7 + suc k) ∷ x ∷ xs) (0xb7 + suc k) ≡ ok it
    → IsSpelled ((0xb7 + suc k) ∷ x ∷ xs) it
unfolding IsSpelled
long_case x xs k it h hb e =
    let (starts, ends, spelled) = long_item_canonical x xs k it h hb (sym dispatch ∙ e) in
    rw (starts, ends, drop-add (suc (suc k)) it.len ((0xb7 + suc k) ∷ x ∷ xs)) spelled
  where
    cancel : 0xb7 + suc k - 0xb7 ≡ suc k
    cancel = omega arith

    dispatch :
        item_of_prefix bits64 ((0xb7 + suc k) ∷ x ∷ xs) (0xb7 + suc k)
        ≡ long_item bits64 ((0xb7 + suc k) ∷ x ∷ xs) (suc k)
    dispatch = unfold item_of_prefix in ground (arith, cancel)

-- A long prefix with nothing behind it is refused.
long_prefix_alone :
    (p : ℕ) (it : Item) → 0xb7 < p → p < 0xc0 → item_of_prefix bits64 (p ∷ []) p ≡ ok it → ⊥
unfolding item_of_prefix long_item long_length
long_prefix_alone p it h q e = ground arith

prefix_canonical :
    (p : ℕ) (xs : List ℕ) (it : Item)
    → p < 0xc0
    → All IsByte xs
    → item_of_prefix bits64 (p ∷ xs) p ≡ ok it
    → IsSpelled (p ∷ xs) it
prefix_canonical p xs it h hb e = elim (dec_le p 0x7f) [
  | yes own ↦ own_byte_case p xs it own e
  | no not_own ↦ elim (dec_le p 0xb7) [
    | yes short ↦
        let is : p ≡ 0x80 + (p - 0x80) = omega arith in
        subst (λ q. IsSpelled (q ∷ xs) it) (sym is)
          (short_case (p - 0x80) xs it (omega arith)
            (subst (λ q. item_of_prefix bits64 (q ∷ xs) q ≡ ok it) is e))
    | no long ↦ long_prefix p xs it (omega arith) h hb e
  ]
]
  where
    long_prefix :
        (p : ℕ) (xs : List ℕ) (it : Item)
        → 0xb7 < p
        → p < 0xc0
        → All IsByte xs
        → item_of_prefix bits64 (p ∷ xs) p ≡ ok it
        → IsSpelled (p ∷ xs) it
    long_prefix p [] it a b hb e = absurd (long_prefix_alone p it a b e)
    long_prefix p (x ∷ xs) it a b hb e =
        let is : p ≡ 0xb7 + suc (p - 0xb8) = omega arith in
        subst (λ q. IsSpelled (q ∷ x ∷ xs) it) (sym is)
          (long_case x xs (p - 0xb8) it (omega arith) hb
            (subst (λ q. item_of_prefix bits64 (q ∷ x ∷ xs) q ≡ ok it) is e))

read_prefix : (s : SizeT) (p : ℕ) (xs : List ℕ) → read_item s (p ∷ xs) ≡ item_of_prefix s (p ∷ xs) p
unfolding read_item
read_prefix s p xs = ground arith

read_item_canonical :
    (p : ℕ) (xs : List ℕ) (it : Item)
    → p < 0xc0
    → All IsByte xs
    → read_item bits64 (p ∷ xs) ≡ ok it
    → p ∷ xs ≡ encode_string (take it.len (drop it.start (p ∷ xs))) ++ drop it.consumed (p ∷ xs)
unfolding IsSpelled
read_item_canonical p xs it h hb e =
    prefix_canonical p xs it h hb (sym (read_prefix bits64 p xs) ∙ e)

-- With a `size_t` of 64 bits, a string is accepted only in the one form that the encoding gives it:
-- a buffer of bytes whose item is accepted and begins below 0xc0 is the encoding of the item's
-- content, followed by the bytes behind that content, whose place (as an `int`) is the number of
-- bytes consumed.
pub parse_rlp_item_canonical :
    (p : ℕ) (xs : List ℕ) (it : Item)
    → p < 0xc0
    → All IsByte xs
    → parse_rlp_item bits64 (p ∷ xs) ≡ ok it
    → (p ∷ xs
        ≡ encode_string (take it.len (drop it.start (p ∷ xs))) ++ drop (it.start + it.len) (p ∷ xs))
      × (it.consumed ≡ (it.start + it.len) % 2 ^ 32)
parse_rlp_item_canonical p xs it h hb e =
    let (full, e', r) = parse_rlp_item_reads bits64 (p ∷ xs) it e in
    let inside = read_item-IsInside bits64 (p ∷ xs) full e' in
    (
      rw (r.same_start, r.same_len, inside.ends) (read_item_canonical p xs full h hb e'),
      omega (arith, r.same_start, r.same_len, inside.ends, r.low),
    )
