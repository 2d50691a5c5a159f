-- ===== src/Rlp/Items.antt =====
-- Where items and lists lie, before their bytes are counted as an int: src/mldsa87/rlp_decode.c.
use ledger_app_qrl_v.Prelude.{
  ℕ, ◌+◌, ◌-◌, ◌≤◌, ◌<◌, ◌≡◌, arith, List, length, ok, reject_if, byte_at, >>=-eq-ok, ◌==◌,
}
use ledger_app_qrl_v.Rlp.{
  SizeT, Item, ListHeader, long_length, short_string, long_item, short_list, item_of_prefix,
  read_item, short_header, long_header, parse_rlp_list_header,
}

pub record IsInside (input : List ℕ) (it : Item) : Type 0 where
  pub ends : it.start + it.len ≡ it.consumed
  pub within : it.consumed ≤ length input
  pub advances : 0 < it.consumed

-- A prefix of the long forms is followed by the bytes of the length.
pub long_length_room :
    (s : SizeT) (input : List ℕ) (n : ℕ) {len : ℕ}
    → long_length s input n ≡ ok len
    → n ≤ length input - 1
unfolding long_length
long_length_room s input n h = ground arith

long_item-IsInside :
    (s : SizeT) (input : List ℕ) (n : ℕ) (it : Item)
    → 0 < length input
    → long_item s input n ≡ ok it
    → IsInside input it
unfolding long_item
long_item-IsInside s input n it p h =
    let (len, e, r) = >>=-eq-ok (long_length s input n) _ h in
    let room = long_length_room s input n e in ground arith

item_of_prefix-IsInside :
    (s : SizeT) (input : List ℕ) (prefix : ℕ) (it : Item)
    → 0 < length input
    → item_of_prefix s input prefix ≡ ok it
    → IsInside input it
unfolding item_of_prefix short_string short_list
item_of_prefix-IsInside s input prefix it p h = ground (
  arith,
  long_item-IsInside s input (prefix - 0xb7) it p,
  long_item-IsInside s input (prefix - 0xf7) it p,
)

pub read_item-IsInside :
    (s : SizeT) (input : List ℕ) (it : Item) → read_item s input ≡ ok it → IsInside input it
unfolding read_item
read_item-IsInside s input it h =
    let (u, e, r) = >>=-eq-ok (reject_if (length input == 0)) _ h in
    let (prefix, e', r') = >>=-eq-ok (byte_at input 0) _ r in
    item_of_prefix-IsInside s input prefix it (ground arith) r'

long_header_within :
    (s : SizeT) (input : List ℕ) (n : ℕ) (h : ListHeader)
    → 0 < length input
    → long_header s input n ≡ ok h
    → (h.header_len + h.payload_len ≤ length input) × (0 < h.header_len)
unfolding long_header
long_header_within s input n h p q =
    let (len, e, r) = >>=-eq-ok (long_length s input n) _ q in
    let room = long_length_room s input n e in ground arith

-- The list that a header announces lies in the buffer.
pub parse_rlp_list_header_within :
    (s : SizeT) (input : List ℕ) (h : ListHeader)
    → parse_rlp_list_header s input ≡ ok h
    → (h.header_len + h.payload_len ≤ length input) × (0 < h.header_len)
unfolding parse_rlp_list_header short_header
parse_rlp_list_header_within s input h q =
    let (u, e, r) = >>=-eq-ok (reject_if (length input == 0)) _ q in
    let (prefix, e', r') = >>=-eq-ok (byte_at input 0) _ r in
    ground (arith, long_header_within s input (prefix - 0xf7) h)
