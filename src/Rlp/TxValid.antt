-- ===== src/Rlp/TxValid.antt =====
-- What a transaction that `decode_ledger_tx` of src/mldsa87/rlp_decode.c accepts looks like.
use ledger_app_qrl_v.Prelude.{
  ℕ, ◌≡◌, arith, true, false, not, List, [], ◌∷◌, length, drop, length-replicate, get_elem?, some,
  ok, reject_if, byte_at, >>=-eq-ok, ltb, ◌==◌,
}
use ledger_app_qrl_v.Rlp.{SizeT, parse_rlp_list_header}
use ledger_app_qrl_v.Rlp.Tx.{
  Cursor, ZondTx, max_field_size, address_length, take_item, take_integer, take_to, take_opaque,
  take_descriptor, take_extra_params, decode_rest, decode_fields, decode_ledger_tx,
}
use ledger_app_qrl_v.Rlp.Encode.{descriptor_bytes}
use ledger_app_qrl_v.Rlp.Fields.{IsInteger}

pub record IsValid (tx : ZondTx) : Type 0 where
  pub chain_id_ok : IsInteger 32 tx.chain_id
  pub nonce_ok : IsInteger 8 tx.nonce
  pub tip_ok : IsInteger 32 tx.gas_tip_cap
  pub fee_ok : IsInteger 32 tx.gas_fee_cap
  pub gas_ok : IsInteger 8 tx.gas
  pub to_ok : length tx.to ≡ 64
  pub value_ok : IsInteger 32 tx.value
  pub descriptor_ok : tx.descriptor ≡ descriptor_bytes

take_integer-IsInteger :
    (s : SizeT) (max : ℕ) (c : Cursor) (p : List ℕ × Cursor)
    → take_integer s max c ≡ ok p
    → IsInteger max p.0
unfolding take_integer
take_integer-IsInteger s max c p h = let (q, e, r) = >>=-eq-ok (take_item s c) _ h in ground arith

length-take_to :
    (s : SizeT) (c : Cursor) (p : List ℕ × Cursor) → take_to s c ≡ ok p → length p.0 ≡ 64
unfolding take_to
length-take_to s c p h =
    let (q, e, r) = >>=-eq-ok (take_item s c) _ h in
    ground (arith, length-replicate {A = ℕ} address_length 0)

-- A list of three bytes that pass the tests.
three_bytes :
    (v : List ℕ)
    → length v ≡ 3
    → get_elem? v 0 ≡ some 1
    → get_elem? v 1 ≡ some 0
    → get_elem? v 2 ≡ some 0
    → v ≡ descriptor_bytes
three_bytes [] l p q r = absurd (omega arith)
three_bytes (a ∷ []) l p q r = absurd (omega arith)
three_bytes (a ∷ b ∷ []) l p q r = absurd (omega arith)
three_bytes (a ∷ b ∷ c ∷ []) l p q r = cc
three_bytes (a ∷ b ∷ c ∷ d ∷ v) l p q r = absurd (omega arith)

take_descriptor_exact :
    (s : SizeT) (c : Cursor) (p : List ℕ × Cursor)
    → take_descriptor s c ≡ ok p
    → p.0 ≡ descriptor_bytes
unfolding take_descriptor
take_descriptor_exact s c p h =
    let (q, e, r) = >>=-eq-ok (take_item s c) _ h in ground (arith, three_bytes q.0)

-- The fields of an accepted transaction come from these steps.
decode_rest-IsValid :
    (s : SizeT) (payload_end : ℕ) (chain_id nonce tip fee gas : List ℕ) (c : Cursor) (tx : ZondTx)
    → IsInteger 32 chain_id
    → IsInteger 8 nonce
    → IsInteger 32 tip
    → IsInteger 32 fee
    → IsInteger 8 gas
    → decode_rest s payload_end chain_id nonce tip fee gas c ≡ ok tx
    → IsValid tx
unfolding decode_rest
decode_rest-IsValid s payload_end chain_id nonce tip fee gas c tx i1 i2 i3 i4 i5 h =
    let (to, e6, h6) = >>=-eq-ok (take_to s c) _ h in
    let (value, e7, h7) = >>=-eq-ok (take_integer s max_field_size to.1) _ h6 in
    let (call_data, e8, h8) = >>=-eq-ok (take_opaque s false value.1) _ h7 in
    let (access, e9, h9) = >>=-eq-ok (take_opaque s true call_data.1) _ h8 in
    let (desc, e10, h10) = >>=-eq-ok (take_descriptor s access.1) _ h9 in
    let (c11, e11, h11) = >>=-eq-ok (take_extra_params s desc.1) _ h10 in
    ground (
      arith,
      length-take_to s c to e6,
      take_integer-IsInteger s 32 to.1 value e7,
      take_descriptor_exact s access.1 desc e10,
    )

decode_fields-IsValid :
    (s : SizeT) (payload_end : ℕ) (c : Cursor) (tx : ZondTx)
    → decode_fields s payload_end c ≡ ok tx
    → IsValid tx
unfolding decode_fields
decode_fields-IsValid s payload_end c tx h =
    let (chain_id, e1, h1) = >>=-eq-ok (take_integer s max_field_size c) _ h in
    let (nonce, e2, h2) = >>=-eq-ok (take_integer s 8 chain_id.1) _ h1 in
    let (tip, e3, h3) = >>=-eq-ok (take_integer s max_field_size nonce.1) _ h2 in
    let (fee, e4, h4) = >>=-eq-ok (take_integer s max_field_size tip.1) _ h3 in
    let (gas, e5, h5) = >>=-eq-ok (take_integer s 8 fee.1) _ h4 in
    decode_rest-IsValid s payload_end chain_id.0 nonce.0 tip.0 fee.0 gas.0 gas.1 tx
      (take_integer-IsInteger s 32 c chain_id e1) (take_integer-IsInteger s 8 chain_id.1 nonce e2)
      (take_integer-IsInteger s 32 nonce.1 tip e3) (take_integer-IsInteger s 32 tip.1 fee e4)
      (take_integer-IsInteger s 8 fee.1 gas e5) h5

-- Every accepted transaction has integers of at most 32 bytes (8 for the nonce and the gas) with no
-- leading zero, an address array of 64 bytes, and the descriptor 01 00 00.
pub decode_ledger_tx-IsValid :
    (s : SizeT) (rlp : List ℕ) (tx : ZondTx) → decode_ledger_tx s rlp ≡ ok tx → IsValid tx
unfolding decode_ledger_tx
decode_ledger_tx-IsValid s rlp tx h =
    let (u0, e0, h0) = >>=-eq-ok (reject_if (length rlp == 0)) _ h in
    let (type_byte, e1, h1) = >>=-eq-ok (byte_at rlp 0) _ h0 in
    let (u2, e2, h2) = >>=-eq-ok (reject_if (not (type_byte == 0x02))) _ h1 in
    let (hd, e3, h3) = >>=-eq-ok (parse_rlp_list_header s (drop 1 rlp)) _ h2 in
    let (u4, e4, h4) =
      >>=-eq-ok (reject_if (ltb (length (drop hd.header_len (drop 1 rlp))) hd.payload_len)) _ h3 in
    decode_fields-IsValid s _ _ tx h4
