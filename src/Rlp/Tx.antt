-- ===== src/Rlp/Tx.antt =====
-- The dynamic-fee transaction: `zond_tx_t` of src/mldsa87/rlp_decode.h and `decode_ledger_tx`.
-- `int consumed` is what `parse_rlp_item` returns; `consumed < 0` is its `reject`.
use ledger_app_qrl_v.Prelude.{
  ℕ, ◌+◌, Bool, true, false, not, ◌&&◌, ◌||◌, List, [], ◌∷◌, length, drop, replicate, Outcome, ok,
  ◌>>=◌, ◌>>◌, reject_if, byte_at, bytes_at, ltb, leb, ◌==◌, if◌then◌else◌,
}
use ledger_app_qrl_v.Rlp.{SizeT, parse_rlp_item, parse_rlp_list_header}

abbrev pub address_length : ℕ
address_length = 64

abbrev pub max_field_size : ℕ
max_field_size = 32

-- A field stands for the first `_len` bytes of its array: the rest of the array, which the caller
-- has zeroed, is not read. `to` is the whole array.
pub record ZondTx : Type 0 where
  pub chain_id : List ℕ
  pub nonce : List ℕ
  pub gas_tip_cap : List ℕ
  pub gas_fee_cap : List ℕ
  pub gas : List ℕ
  pub to : List ℕ
  pub value : List ℕ
  pub has_data : Bool
  pub has_access_list : Bool
  pub descriptor : List ℕ

-- `p` with `remaining`: the offset of `p` in the buffer, and the bytes from there to its end.
pub record Cursor : Type 0 where
  pub at : ℕ
  pub rest : List ℕ

-- `consumed = parse_rlp_item(p, remaining, &val_ptr, &val_len)` with `p += consumed`,
-- `remaining -= consumed`, and the bytes `val_ptr[0..val_len)`.
unfoldable pub take_item : SizeT → Cursor → Outcome (List ℕ × Cursor)
take_item s c = do
  it ← parse_rlp_item s c.rest
  val ← bytes_at c.rest it.start it.len
  ok (val, record { at = c.at + it.consumed; rest = drop it.consumed c.rest })

-- `val_len > 0 && val_ptr[0] == 0`
abbrev pub has_leading_zero : List ℕ → Bool
has_leading_zero [] = false
has_leading_zero (b ∷ bs) = b == 0

-- Fields 1 to 5 and 7: an integer of at most `max` bytes with no leading zero.
unfoldable pub take_integer : SizeT → ℕ → Cursor → Outcome (List ℕ × Cursor)
take_integer s max c = do
  (val, c') ← take_item s c
  reject_if (ltb max (length val) || has_leading_zero val)
  ok (val, c')

-- Field 6. `memset` and `memcpy` fill the array of 64 bytes.
unfoldable pub take_to : SizeT → Cursor → Outcome (List ℕ × Cursor)
take_to s c = do
  (val, c') ← take_item s c
  reject_if (not (length val == address_length) && not (length val == 0))
  ok ((if ltb 0 (length val) then val else replicate address_length 0), c')

-- Fields 8 and 9: `remaining == 0 || p[0] >= 0xc0`, or `p[0] < 0xc0`, is refused. Only the presence
-- of content is kept.
unfoldable pub take_opaque : SizeT → (is_list : Bool) → Cursor → Outcome (Bool × Cursor)
take_opaque s is_list c = do
  reject_if (length c.rest == 0)
  first ← byte_at c.rest 0
  reject_if (if is_list then ltb first 0xc0 else leb 0xc0 first)
  (val, c') ← take_item s c
  ok (not (length val == 0), c')

-- Field 10: exactly 01 00 00.
unfoldable pub take_descriptor : SizeT → Cursor → Outcome (List ℕ × Cursor)
take_descriptor s c = do
  (val, c') ← take_item s c
  reject_if (not (length val == 3))
  b0 ← byte_at val 0
  reject_if (not (b0 == 1))
  b1 ← byte_at val 1
  reject_if (not (b1 == 0))
  b2 ← byte_at val 2
  reject_if (not (b2 == 0))
  ok (val, c')

-- Field 11: an item with no content.
unfoldable pub take_extra_params : SizeT → Cursor → Outcome Cursor
take_extra_params s c = do (val, c') ← take_item s c; reject_if (not (length val == 0)); ok c'

-- Fields 6 to 11, after the five integers, and the test `p != payload_end`.
unfoldable pub decode_rest :
    SizeT → (payload_end : ℕ) → (chain_id nonce tip fee gas : List ℕ) → Cursor → Outcome ZondTx
decode_rest s payload_end chain_id nonce tip fee gas c5 = do
  (to, c6) ← take_to s c5
  (value, c7) ← take_integer s max_field_size c6
  (has_data, c8) ← take_opaque s false c7
  (has_access_list, c9) ← take_opaque s true c8
  (descriptor, c10) ← take_descriptor s c9
  c11 ← take_extra_params s c10
  reject_if (not (c11.at == payload_end))
  ok (record {
    chain_id = chain_id;
    nonce = nonce;
    gas_tip_cap = tip;
    gas_fee_cap = fee;
    gas = gas;
    to = to;
    value = value;
    has_data = has_data;
    has_access_list = has_access_list;
    descriptor = descriptor;
  })

-- The items of the payload.
unfoldable pub decode_fields : SizeT → (payload_end : ℕ) → Cursor → Outcome ZondTx
decode_fields s payload_end c0 = do
  (chain_id, c1) ← take_integer s max_field_size c0
  (nonce, c2) ← take_integer s 8 c1
  (tip, c3) ← take_integer s max_field_size c2
  (fee, c4) ← take_integer s max_field_size c3
  (gas, c5) ← take_integer s 8 c4
  decode_rest s payload_end chain_id nonce tip fee gas c5

unfoldable pub decode_ledger_tx : SizeT → List ℕ → Outcome ZondTx
decode_ledger_tx s rlp = do
  reject_if (length rlp == 0)
  type_byte ← byte_at rlp 0
  reject_if (not (type_byte == 0x02))
  let p = drop 1 rlp
  h ← parse_rlp_list_header s p
  let payload = drop h.header_len p
  reject_if (ltb (length payload) h.payload_len)
  decode_fields s (1 + h.header_len + h.payload_len)
      (record { at = 1 + h.header_len; rest = payload })
