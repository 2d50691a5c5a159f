-- ===== src/Rlp/Announced.antt =====
-- Items that are parsed from their headers: parse_rlp_item of src/mldsa87/rlp_decode.c.
use ledger_app_qrl_v.Prelude.{
  ℕ, suc, ◌+◌, ◌-◌, ◌≤◌, ◌<◌, ◌^◌, ◌≡◌, ◌∙◌, ap, arith, List, [], ◌∷◌, ◌++◌, length, length-append,
  take-length_append, get_elem?, get_elem?-some, some, ok, ◌==◌, Bool-cases, inl, inr, be_bytes,
  be_bytes_leading, length-be_bytes, All-be_bytes, value_of-be_bytes, value_of,
}
use ledger_app_qrl_v.Rlp
use ledger_app_qrl_v.Rlp.{
  SizeT, bits32, bits64, size_mod, Item, ListHeader, long_length, short_string, long_item,
  short_list, item_of_prefix, read_item, short_header, long_header, parse_rlp_list_header,
}
use ledger_app_qrl_v.Rlp.Length.{read_length_exact}
use native.Mathlib.Decide.{dec_lt}
use ledger_app_qrl_v.Rlp.Encode.{header}

fits_size : (s : SizeT) (n : ℕ) → n < 2 ^ 32 → n < size_mod s
fits_size bits32 n h = h
fits_size bits64 n h = omega arith

read_length_encoded :
    (s : SizeT) (p n : ℕ) (tail : List ℕ)
    → n < 2 ^ 32
    → Rlp.read_length s (p ∷ be_bytes 8 n ++ tail) 0 (length (be_bytes 8 n)) 0 ≡ ok n
read_length_encoded s p n tail h =
    read_length_exact s (p ∷ be_bytes 8 n ++ tail) (length (be_bytes 8 n))
      (omega (arith, length-append (be_bytes 8 n) tail))
      (rw (take-length_append (be_bytes 8 n) tail) (All-be_bytes 8 n))
      (rw (take-length_append (be_bytes 8 n) tail, exact) (fits_size s n h))
    ∙ ap ok (ap value_of (take-length_append (be_bytes 8 n) tail) ∙ exact)
  where
    exact : value_of (be_bytes 8 n) ≡ n
    exact = value_of-be_bytes 8 n (omega arith)

-- The length behind a long prefix is read back.
pub long_length_encoded :
    (s : SizeT) (p n : ℕ) (tail : List ℕ)
    → 0 < n
    → n < 2 ^ 32
    → long_length s (p ∷ be_bytes 8 n ++ tail) (length (be_bytes 8 n)) ≡ ok n
unfolding long_length
long_length_encoded s p n tail hp h =
    let (b, bs, e, q) = be_bytes_leading 8 n hp (omega arith) in
    let again = read_length_encoded s p n tail h in
    ground (arith, again, length-append (be_bytes 8 n) tail, e)

-- The item that a header of `n` bytes of content announces.
abbrev pub announced : (base n : ℕ) → Item
announced base n = record {
  start = length (header base n);
  len = n;
  consumed = length (header base n) + n;
}

pub header_short : (base n : ℕ) → n < 56 → header base n ≡ (base + n) ∷ []
unfolding header
header_short base n h = ground arith

pub header_long :
    (base n : ℕ) → 56 ≤ n → header base n ≡ (base + 55 + length (be_bytes 8 n)) ∷ be_bytes 8 n
unfolding header
header_long base n h = ground arith

parse_short_string :
    (s : SizeT) (n : ℕ) (tail : List ℕ)
    → n < 56
    → n ≤ length tail
    → (n ≡ 1 → (b : ℕ) → get_elem? tail 0 ≡ some b → 0x80 ≤ b)
    → read_item s ((0x80 + n) ∷ tail) ≡ ok (record { start = 1; len = n; consumed = 1 + n })
unfolding read_item item_of_prefix short_string
parse_short_string s n tail h fits canonical = elim (Bool-cases (n == 1)) [
  | inl one ↦
      let (b, e) = get_elem?-some tail 0 (ground arith) in
      let big = canonical (ground arith) b e in ground (arith, e)
  | inr other ↦ ground arith
]

parse_short_list :
    (s : SizeT) (n : ℕ) (tail : List ℕ)
    → n < 56
    → n ≤ length tail
    → read_item s ((0xc0 + n) ∷ tail) ≡ ok (record { start = 1; len = n; consumed = 1 + n })
unfolding read_item item_of_prefix short_list
parse_short_list s n tail h fits = ground arith

long_item_encoded :
    (s : SizeT) (p n : ℕ) (tail : List ℕ)
    → 56 ≤ n
    → n < 2 ^ 32
    → n ≤ length tail
    → long_item s (p ∷ be_bytes 8 n ++ tail) (length (be_bytes 8 n))
      ≡ ok (record {
        start = suc (length (be_bytes 8 n));
        len = n;
        consumed = suc (length (be_bytes 8 n)) + n;
      })
unfolding long_item
long_item_encoded s p n tail big h fits =
    ground
      (arith, long_length_encoded s p n tail (omega arith) h, length-append (be_bytes 8 n) tail)

parse_long_string :
    (s : SizeT) (n : ℕ) (tail : List ℕ)
    → 56 ≤ n
    → n < 2 ^ 32
    → n ≤ length tail
    → read_item s ((0x80 + 55 + length (be_bytes 8 n)) ∷ be_bytes 8 n ++ tail)
      ≡ long_item s
          ((0x80 + 55 + length (be_bytes 8 n)) ∷ be_bytes 8 n ++ tail)
          (length (be_bytes 8 n))
unfolding read_item item_of_prefix
parse_long_string s n tail big h fits =
    let (b, bs, e, q) = be_bytes_leading 8 n (omega arith) (omega arith) in
    ground (arith, length-be_bytes 8 n, e, cancel (length (be_bytes 8 n)))
  where
    cancel : (k : ℕ) → 0x80 + 55 + k - 0xb7 ≡ k
    cancel k = omega arith

parse_long_list :
    (s : SizeT) (n : ℕ) (tail : List ℕ)
    → 56 ≤ n
    → n < 2 ^ 32
    → n ≤ length tail
    → read_item s ((0xc0 + 55 + length (be_bytes 8 n)) ∷ be_bytes 8 n ++ tail)
      ≡ long_item s
          ((0xc0 + 55 + length (be_bytes 8 n)) ∷ be_bytes 8 n ++ tail)
          (length (be_bytes 8 n))
unfolding read_item item_of_prefix
parse_long_list s n tail big h fits =
    let (b, bs, e, q) = be_bytes_leading 8 n (omega arith) (omega arith) in
    ground (arith, length-be_bytes 8 n, e, cancel (length (be_bytes 8 n)))
  where
    cancel : (k : ℕ) → 0xc0 + 55 + k - 0xf7 ≡ k
    cancel k = omega arith

-- A string header is read back, except in front of one byte that would stand for itself.
pub parse-header_string :
    (s : SizeT) (n : ℕ) (tail : List ℕ)
    → n < 2 ^ 32
    → n ≤ length tail
    → (n ≡ 1 → (b : ℕ) → get_elem? tail 0 ≡ some b → 0x80 ≤ b)
    → read_item s (header 0x80 n ++ tail) ≡ ok (announced 0x80 n)
parse-header_string s n tail h fits canonical = elim (dec_lt n 56) [
  | yes small ↦ rw (header_short 0x80 n small) (parse_short_string s n tail small fits canonical)
  | no large ↦ rw (header_long 0x80 n (omega arith)) (
      parse_long_string s n tail (omega arith) h fits
      ∙ long_item_encoded s _ n tail (omega arith) h fits)
]

pub parse-header_list :
    (s : SizeT) (n : ℕ) (tail : List ℕ)
    → n < 2 ^ 32
    → n ≤ length tail
    → read_item s (header 0xc0 n ++ tail) ≡ ok (announced 0xc0 n)
parse-header_list s n tail h fits = elim (dec_lt n 56) [
  | yes small ↦ rw (header_short 0xc0 n small) (parse_short_list s n tail small fits)
  | no large ↦ rw (header_long 0xc0 n (omega arith)) (
      parse_long_list s n tail (omega arith) h fits
      ∙ long_item_encoded s _ n tail (omega arith) h fits)
]
