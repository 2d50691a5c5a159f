-- ===== src/Rlp/RoundTrip.antt =====
-- The parser of src/mldsa87/rlp_decode.c reads back what the encoding writes.
use ledger_app_qrl_v.Prelude.{
  ℕ, suc, ◌+◌, ◌-◌, ◌≤◌, ◌<◌, ◌^◌, ◌≡◌, ◌∙◌, arith, List, [], ◌∷◌, ◌++◌, length, length-append,
  take-length_append, drop-length_append, drop-add, ok, ltb, Bool-cases, inl, inr, be_bytes,
  be_bytes_leading, length-be_bytes,
}
use ledger_app_qrl_v.Rlp.Consumed.{parse_rlp_item-read}
use ledger_app_qrl_v.Rlp.{
  parse_rlp_item, as_int, SizeT, item_of_prefix, read_item, short_header, long_header,
  parse_rlp_list_header,
}
use native.Mathlib.Decide.{dec_lt}
use mathlib.Core.List.{append_assoc, append-nil}
use ledger_app_qrl_v.Rlp.Tx.{Cursor, take_item}
use ledger_app_qrl_v.Rlp.Encode.{header, encode_string, encode_list}
use ledger_app_qrl_v.Rlp.Announced.{
  long_length_encoded, announced, header_short, header_long, parse-header_string, parse-header_list,
}

parse_short_header :
    (s : SizeT) (n : ℕ) (tail : List ℕ)
    → n < 56
    → n ≤ length tail
    → parse_rlp_list_header s ((0xc0 + n) ∷ tail) ≡ ok (record { payload_len = n; header_len = 1 })
unfolding parse_rlp_list_header short_header
parse_short_header s n tail h fits = ground arith

long_header_encoded :
    (s : SizeT) (p n : ℕ) (tail : List ℕ)
    → 56 ≤ n
    → n < 2 ^ 32
    → n ≤ length tail
    → long_header s (p ∷ be_bytes 8 n ++ tail) (length (be_bytes 8 n))
      ≡ ok (record { payload_len = n; header_len = suc (length (be_bytes 8 n)) })
unfolding long_header
long_header_encoded s p n tail big h fits =
    ground
      (arith, long_length_encoded s p n tail (omega arith) h, length-append (be_bytes 8 n) tail)

parse_long_header :
    (s : SizeT) (n : ℕ) (tail : List ℕ)
    → 56 ≤ n
    → n < 2 ^ 32
    → parse_rlp_list_header s ((0xc0 + 55 + length (be_bytes 8 n)) ∷ be_bytes 8 n ++ tail)
      ≡ long_header s
          ((0xc0 + 55 + length (be_bytes 8 n)) ∷ be_bytes 8 n ++ tail)
          (length (be_bytes 8 n))
unfolding parse_rlp_list_header
parse_long_header s n tail big h =
    let (b, bs, e, q) = be_bytes_leading 8 n (omega arith) (omega arith) in
    ground (arith, length-be_bytes 8 n, e, cancel (length (be_bytes 8 n)))
  where
    cancel : (k : ℕ) → 0xc0 + 55 + k - 0xf7 ≡ k
    cancel k = omega arith

list_header_encoded :
    (s : SizeT) (n : ℕ) (tail : List ℕ)
    → n < 2 ^ 32
    → n ≤ length tail
    → parse_rlp_list_header s (header 0xc0 n ++ tail)
      ≡ ok (record { payload_len = n; header_len = length (header 0xc0 n) })
list_header_encoded s n tail h fits = elim (dec_lt n 56) [
  | yes small ↦ rw (header_short 0xc0 n small) (parse_short_header s n tail small fits)
  | no large ↦ rw (header_long 0xc0 n (omega arith)) (
      parse_long_header s n tail (omega arith) h
      ∙ long_header_encoded s _ n tail (omega arith) h fits)
]

-- What `take_item` returns once the header is read: the content, and what stands behind it.
take_item-announced :
    (s : SizeT) (at base : ℕ) (v rest : List ℕ)
    → length (header base (length v) ++ v) < 2 ^ 31
    → read_item s (header base (length v) ++ (v ++ rest)) ≡ ok (announced base (length v))
    → take_item s (record { at = at; rest = header base (length v) ++ (v ++ rest) })
      ≡ ok (v, record { at = at + (length (header base (length v)) + length v); rest = rest })
unfolding take_item
take_item-announced s at base v rest short e = ground (
  arith,
  parse_rlp_item-read s (header base (length v) ++ (v ++ rest)) (announced base (length v)) e
      (omega (arith, short, length-append (header base (length v)) v)),
  length-append (header base (length v)) (v ++ rest),
  length-append v rest,
  drop-length_append (header base (length v)) (v ++ rest),
  take-length_append v rest,
  drop-add (length (header base (length v))) (length v) (header base (length v) ++ (v ++ rest)),
  drop-length_append v rest,
)

-- A cursor behind `n` bytes.
abbrev pub behind : (at n : ℕ) → List ℕ → Cursor
behind at n rest = record { at = at + n; rest = rest }

take_item_content :
    (s : SizeT) (at base : ℕ) (v rest : List ℕ)
    → length (header base (length v) ++ v) < 2 ^ 31
    → read_item s (header base (length v) ++ (v ++ rest)) ≡ ok (announced base (length v))
    → take_item s (record { at = at; rest = (header base (length v) ++ v) ++ rest })
      ≡ ok (v, behind at (length (header base (length v) ++ v)) rest)
take_item_content s at base v rest short e =
    rw (append_assoc, length-append (header base (length v)) v)
      (take_item-announced s at base v rest short e)

take_own_byte :
    (s : SizeT) (at b : ℕ) (rest : List ℕ)
    → b < 0x80
    → take_item s (record { at = at; rest = b ∷ rest }) ≡ ok (b ∷ [], behind at 1 rest)
unfolding take_item parse_rlp_item as_int read_item item_of_prefix
take_own_byte s at b rest h = ground arith

empty_header : length (header 0x80 0 ++ []) < 2 ^ 31
unfolding header
empty_header = omega arith

own_header : (b : ℕ) → length (header 0x80 1 ++ (b ∷ [])) < 2 ^ 31
unfolding header
own_header b = omega arith

-- Every byte string whose encoding is below 2 ^ 31 bytes is taken back, and the cursor stands behind
-- its encoding.
pub take_item-encode_string :
    (s : SizeT) (at : ℕ) (v rest : List ℕ)
    → length (encode_string v) < 2 ^ 31
    → take_item s (record { at = at; rest = encode_string v ++ rest })
      ≡ ok (v, behind at (length (encode_string v)) rest)
unfolding encode_string
take_item-encode_string s at [] rest h = rw (append-nil) at (
    take_item_content s at 0x80 [] rest empty_header
      (parse-header_string s 0 rest (omega arith) (omega arith) (λ e. absurd (omega arith))))
take_item-encode_string s at (b ∷ []) rest h = elim (Bool-cases (ltb b 0x80)) [
  | inl e ↦ rw e (take_own_byte s at b rest (ground arith))
  | inr e ↦ rw e (
      take_item_content s at 0x80 (b ∷ []) rest (own_header b)
        (parse-header_string s 1 (b ∷ rest) (omega arith) (omega arith) (λ one x q. ground arith)))
]
take_item-encode_string s at (b ∷ c ∷ bs) rest h =
    let total = length-append (header 0x80 (length (b ∷ c ∷ bs))) (b ∷ c ∷ bs) in
    take_item_content s at 0x80 (b ∷ c ∷ bs) rest h (
      parse-header_string s (length (b ∷ c ∷ bs)) (b ∷ c ∷ bs ++ rest) (omega (arith, total, h))
        (omega (arith, length-append bs rest)) (λ one. absurd (omega arith)))

-- Every list whose encoding is below 2 ^ 31 bytes is taken back, and the cursor stands behind its
-- encoding.
pub take_item-encode_list :
    (s : SizeT) (at : ℕ) (payload rest : List ℕ)
    → length (encode_list payload) < 2 ^ 31
    → take_item s (record { at = at; rest = encode_list payload ++ rest })
      ≡ ok (payload, behind at (length (encode_list payload)) rest)
unfolding encode_list
take_item-encode_list s at payload rest h =
    let total = length-append (header 0xc0 (length payload)) payload in
    take_item_content s at 0xc0 payload rest h (
      parse-header_list s (length payload) (payload ++ rest) (omega (arith, total, h))
        (omega (arith, length-append payload rest)))

-- The header of an encoded list announces its payload.
pub parse_rlp_list_header-encode_list :
    (s : SizeT) (payload rest : List ℕ)
    → length payload < 2 ^ 32
    → parse_rlp_list_header s (encode_list payload ++ rest)
      ≡ ok (record {
        payload_len = length payload;
        header_len = length (header 0xc0 (length payload));
      })
unfolding encode_list
parse_rlp_list_header-encode_list s payload rest h = rw append_assoc (
    list_header_encoded s (length payload) (payload ++ rest) h
      (omega (arith, length-append payload rest)))
