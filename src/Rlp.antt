-- ===== src/Rlp.antt =====
-- RLP parsing: src/mldsa87/rlp_decode.c and rlp_decode.h.
-- The items and list headers are here, the transaction in the child `Tx`; the other children prove.
-- A buffer with its length is the list of its bytes, `-1` is `reject`, a read outside the buffer is
-- `fault`. `PRINTF` has no effect on the result and is left out.
pub mod Tx
pub mod Length
pub mod Encode
pub mod Safety
pub mod Items
pub mod Consumed
pub mod TxSafety
pub mod Announced
pub mod RoundTrip
pub mod Spelling
pub mod Canonical
pub mod Fields
pub mod TxRoundTrip
pub mod TxValid
pub mod Wrap
use ledger_app_qrl_v.Prelude.{
  ℕ, zero, suc, ◌+◌, ◌-◌, ◌*◌, ◌%◌, ◌^◌, bit_or, Bool, List, length, Outcome, ok, reject, ◌>>=◌,
  ◌>>◌, reject_if, byte_at, ltb, leb, ◌==◌, if◌then◌else◌, ◌&&◌, not,
}

-- The width of `size_t`: 32 bits on the devices, 64 on the hosts that run the unit tests.
pub data SizeT : Type 0 where
  bits32 bits64 : SizeT

abbrev pub size_mod : SizeT → ℕ
size_mod bits32 = 2 ^ 32
size_mod bits64 = 2 ^ 64

-- What `parse_rlp_item` returns: `*out_data - input`, `*out_len` and the number of bytes consumed.
pub record Item : Type 0 where
  pub start : ℕ
  pub len : ℕ
  pub consumed : ℕ

-- `for (i...) len = (len << 8) | input[1 + i];` with `rounds` rounds left.
unfoldable pub read_length : SizeT → List ℕ → (i rounds len : ℕ) → Outcome ℕ
read_length s input i zero len = ok len
read_length s input i (suc n) len = do
  b ← byte_at input (1 + i)
  read_length s input (suc i) n (bit_or (len * 2 ^ 8 % size_mod s) b)

-- The length that follows a prefix of the long forms: not cut off, with no leading zero.
unfoldable pub long_length : SizeT → List ℕ → ℕ → Outcome ℕ
long_length s input len_of_len = do
  reject_if (ltb (length input - 1) len_of_len)
  first ← byte_at input 1
  reject_if (first == 0)
  read_length s input 0 len_of_len 0

unfoldable pub short_string : List ℕ → ℕ → Outcome Item
short_string input len = do
  reject_if (ltb (length input - 1) len)
  next ← (if len == 1 then byte_at input 1 else ok 0x80)
  reject_if (len == 1 && ltb next 0x80)
  ok (record { start = 1; len = len; consumed = 1 + len })

unfoldable pub long_item : SizeT → List ℕ → ℕ → Outcome Item
long_item s input len_of_len = do
  len ← long_length s input len_of_len
  reject_if (ltb (length input - 1 - len_of_len) len)
  reject_if (ltb len 56)
  ok (record { start = 1 + len_of_len; len = len; consumed = 1 + len_of_len + len })

unfoldable pub short_list : List ℕ → ℕ → Outcome Item
short_list input len = do
  reject_if (ltb (length input) (1 + len))
  ok (record { start = 1; len = len; consumed = 1 + len })

unfoldable pub item_of_prefix : SizeT → List ℕ → ℕ → Outcome Item
item_of_prefix s input prefix =
    if leb prefix 0x7f
    then ok (record { start = 0; len = 1; consumed = 1 })
    else if leb prefix 0xb7
    then short_string input (prefix - 0x80)
    else if leb prefix 0xbf
    then long_item s input (prefix - 0xb7)
    else if leb prefix 0xf7
    then short_list input (prefix - 0xc0)
    else long_item s input (prefix - 0xf7)

-- `parse_rlp_item` up to the conversion of what it returns.
unfoldable pub read_item : SizeT → List ℕ → Outcome Item
read_item s input = do
  reject_if (length input == 0)
  prefix ← byte_at input 0
  item_of_prefix s input prefix

-- The number of bytes consumed is returned as an `int`: its low 32 bits are kept, and where they make
-- a negative number every caller refuses the item.
unfoldable pub as_int : Item → Outcome Item
as_int it = do
  reject_if (leb (2 ^ 31) (it.consumed % 2 ^ 32))
  ok (record { start = it.start; len = it.len; consumed = it.consumed % 2 ^ 32 })

unfoldable pub parse_rlp_item : SizeT → List ℕ → Outcome Item
parse_rlp_item s input = do it ← read_item s input; as_int it

-- The lengths of the payload and of the header in front of it.
pub record ListHeader : Type 0 where
  pub payload_len : ℕ
  pub header_len : ℕ

unfoldable pub short_header : List ℕ → ℕ → Outcome ListHeader
short_header input len = do
  reject_if (ltb (length input - 1) len)
  ok (record { payload_len = len; header_len = 1 })

unfoldable pub long_header : SizeT → List ℕ → ℕ → Outcome ListHeader
long_header s input len_of_len = do
  len ← long_length s input len_of_len
  reject_if (ltb (length input - (1 + len_of_len)) len)
  reject_if (ltb len 56)
  ok (record { payload_len = len; header_len = 1 + len_of_len })

unfoldable pub parse_rlp_list_header : SizeT → List ℕ → Outcome ListHeader
parse_rlp_list_header s input = do
  reject_if (length input == 0)
  prefix ← byte_at input 0
  if leb 0xc0 prefix && leb prefix 0xf7
      then short_header input (prefix - 0xc0)
      else if leb 0xf8 prefix
      then long_header s input (prefix - 0xf7)
      else reject
