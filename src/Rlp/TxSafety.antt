-- ===== src/Rlp/TxSafety.antt =====
-- `decode_ledger_tx` of src/mldsa87/rlp_decode.c reads nothing outside its buffer.
use ledger_app_qrl_v.Prelude.{
  ℕ, ◌+◌, ◌≤◌, ◌≡◌, ◌≢◌, arith, Bool, true, false, ◌&&◌, ◌||◌, not, List, length, take, drop,
  Outcome, ok, fault, ◌>>=◌, byte_at, bytes_at, >>=-ne-fault, ltb, leb, ◌==◌, if◌then◌else◌,
}
use ledger_app_qrl_v.Rlp.{SizeT, parse_rlp_item, parse_rlp_list_header}
use ledger_app_qrl_v.Rlp.Tx.{
  Cursor, take_item, has_leading_zero, max_field_size, take_integer, take_to, take_opaque,
  take_descriptor, take_extra_params, decode_rest, decode_fields, decode_ledger_tx,
}
use ledger_app_qrl_v.Rlp.Consumed.{parse_rlp_item-ne-fault, parse_rlp_item_within}
use ledger_app_qrl_v.Rlp.Safety.{byte_at-ne-fault, guarded, parse_rlp_list_header-ne-fault}

bytes_at_within :
    (xs : List ℕ) (i n : ℕ) → i + n ≤ length xs → bytes_at xs i n ≡ ok (take n (drop i xs))
bytes_at_within xs i n h = ground arith

pub take_item-ne-fault : (s : SizeT) (c : Cursor) → take_item s c ≢ fault
unfolding take_item
take_item-ne-fault s c =
    >>=-ne-fault (parse_rlp_item s c.rest) _ (parse_rlp_item-ne-fault s c.rest) λ it e.
      rw (bytes_at_within c.rest it.start it.len (parse_rlp_item_within s c.rest it e)) (λ p. cc)

-- A step that takes an item and then tests its bytes.
after_item :
    {A : Type 0} (s : SizeT) (c : Cursor) (k : List ℕ × Cursor → Outcome A)
    → ((p : List ℕ × Cursor) → k p ≢ fault)
    → (take_item s c >>= k) ≢ fault
after_item s c k h = >>=-ne-fault (take_item s c) k (take_item-ne-fault s c) λ p e. h p

take_integer-ne-fault : (s : SizeT) (max : ℕ) (c : Cursor) → take_integer s max c ≢ fault
unfolding take_integer
take_integer-ne-fault s max c =
    after_item s c _ λ p. guarded (ltb max (length p.0) || has_leading_zero p.0) _ λ e. λ q. cc

take_to-ne-fault : (s : SizeT) (c : Cursor) → take_to s c ≢ fault
unfolding take_to
take_to-ne-fault s c =
    after_item s c _ λ p. guarded (not (length p.0 == 64) && not (length p.0 == 0)) _ λ e. λ q. cc

take_opaque-ne-fault : (s : SizeT) (is_list : Bool) (c : Cursor) → take_opaque s is_list c ≢ fault
unfolding take_opaque
take_opaque-ne-fault s is_list c = guarded (length c.rest == 0) _ λ some_byte.
    >>=-ne-fault (byte_at c.rest 0) _ (byte_at-ne-fault c.rest 0 (ground arith)) λ first e.
      guarded (if is_list then ltb first 0xc0 else leb 0xc0 first) _
        λ kind. after_item s c _ λ p. λ q. cc

take_descriptor-ne-fault : (s : SizeT) (c : Cursor) → take_descriptor s c ≢ fault
unfolding take_descriptor
take_descriptor-ne-fault s c = after_item s c _ λ p. guarded (not (length p.0 == 3)) _ λ three.
    >>=-ne-fault (byte_at p.0 0) _ (byte_at-ne-fault p.0 0 (ground arith)) λ b0 e0.
      guarded (not (b0 == 1)) _ λ one.
        >>=-ne-fault (byte_at p.0 1) _ (byte_at-ne-fault p.0 1 (ground arith)) λ b1 e1.
          guarded (not (b1 == 0)) _ λ zero1.
            >>=-ne-fault (byte_at p.0 2) _ (byte_at-ne-fault p.0 2 (ground arith))
              λ b2 e2. guarded (not (b2 == 0)) _ λ zero2. λ q. cc

take_extra_params-ne-fault : (s : SizeT) (c : Cursor) → take_extra_params s c ≢ fault
unfolding take_extra_params
take_extra_params-ne-fault s c =
    after_item s c _ λ p. guarded (not (length p.0 == 0)) _ λ e. λ q. cc

decode_rest-ne-fault :
    (s : SizeT) (payload_end : ℕ) (chain_id nonce tip fee gas : List ℕ) (c : Cursor)
    → decode_rest s payload_end chain_id nonce tip fee gas c ≢ fault
unfolding decode_rest
decode_rest-ne-fault s payload_end chain_id nonce tip fee gas c =
    >>=-ne-fault (take_to s c) _ (take_to-ne-fault s c) λ to e6.
      >>=-ne-fault (take_integer s max_field_size to.1) _ (take_integer-ne-fault s _ to.1)
        λ value e7.
          >>=-ne-fault (take_opaque s false value.1) _ (take_opaque-ne-fault s _ value.1)
            λ data' e8.
              >>=-ne-fault (take_opaque s true data'.1) _ (take_opaque-ne-fault s _ data'.1)
                λ access e9.
                  >>=-ne-fault (take_descriptor s access.1) _ (take_descriptor-ne-fault s access.1)
                    λ desc e10.
                      >>=-ne-fault (take_extra_params s desc.1) _
                        (take_extra_params-ne-fault s desc.1)
                        λ c11 e11. guarded (not (c11.at == payload_end)) _ λ e. λ q. cc

decode_fields-ne-fault :
    (s : SizeT) (payload_end : ℕ) (c : Cursor) → decode_fields s payload_end c ≢ fault
unfolding decode_fields
decode_fields-ne-fault s payload_end c =
    >>=-ne-fault (take_integer s max_field_size c) _ (take_integer-ne-fault s _ c) λ chain_id e1.
      >>=-ne-fault (take_integer s 8 chain_id.1) _ (take_integer-ne-fault s _ chain_id.1)
        λ nonce e2.
          >>=-ne-fault (take_integer s max_field_size nonce.1) _ (take_integer-ne-fault s _ nonce.1)
            λ tip e3.
              >>=-ne-fault (take_integer s max_field_size tip.1) _ (take_integer-ne-fault s _ tip.1)
                λ fee e4.
                  >>=-ne-fault (take_integer s 8 fee.1) _ (take_integer-ne-fault s _ fee.1)
                    λ gas e5.
                      decode_rest-ne-fault s payload_end chain_id.0 nonce.0 tip.0 fee.0 gas.0 gas.1

-- Whatever the host streams, on a `size_t` of either width, the decoder never reads a byte outside
-- the buffer that it is given: it returns a transaction or -1.
pub decode_ledger_tx-ne-fault : (s : SizeT) (rlp : List ℕ) → decode_ledger_tx s rlp ≢ fault
unfolding decode_ledger_tx
decode_ledger_tx-ne-fault s rlp = guarded (length rlp == 0) _ λ some_byte.
    >>=-ne-fault (byte_at rlp 0) _ (byte_at-ne-fault rlp 0 (ground arith)) λ type_byte e.
      guarded (not (type_byte == 0x02)) _ λ dynamic_fee.
        >>=-ne-fault (parse_rlp_list_header s (drop 1 rlp)) _
          (parse_rlp_list_header-ne-fault s (drop 1 rlp))
          λ h e'.
            guarded (ltb (length (drop h.header_len (drop 1 rlp))) h.payload_len) _
              λ fits. decode_fields-ne-fault s _ _
