-- ===== src/Rlp/TxRoundTrip.antt =====
-- `decode_ledger_tx` of src/mldsa87/rlp_decode.c on an encoded preimage.
use mathlib.Core.List.{append_assoc}
use ledger_app_qrl_v.Prelude.{
  ℕ, ◌+◌, ◌-◌, ◌≡◌, ◌∙◌, arith, List, [], ◌++◌, length, length-append, drop-length_append, ok,
}
use ledger_app_qrl_v.Rlp.{SizeT}
use ledger_app_qrl_v.Rlp.Tx.{decode_rest, decode_fields, decode_ledger_tx}
use ledger_app_qrl_v.Rlp.Encode.{
  header, encode_string, encode_list, Preimage, encode_tail, encode_items, encode_preimage,
  descriptor_bytes,
}
use ledger_app_qrl_v.Rlp.RoundTrip.{parse_rlp_list_header-encode_list}
use ledger_app_qrl_v.Rlp.Fields.{
  IsWellFormed, take_integer-encode_string, take_to-encode_string, take_opaque-encode_string,
  take_opaque-encode_list, take_descriptor-encode_string, take_extra_params-encode_string, shown,
}

length-encode_tail :
    (u : Preimage) (at : ℕ) (more : List ℕ)
    → at
        + length (encode_string u.to)
        + length (encode_string u.value)
        + length (encode_string u.call_data)
        + length (encode_list u.access_list)
        + length (encode_string descriptor_bytes)
        + length (encode_string [])
      ≡ at + (length (encode_tail u more) - length more)
unfolding encode_tail
length-encode_tail u at more = simp length-append (omega arith)

decode_rest-encode_tail :
    (s : SizeT) (u : Preimage) (at payload_end : ℕ) (more : List ℕ)
    → IsWellFormed u
    → at + (length (encode_tail u more) - length more) ≡ payload_end
    → decode_rest s payload_end u.chain_id u.nonce u.gas_tip_cap u.gas_fee_cap u.gas
        (record { at = at; rest = encode_tail u more })
      ≡ ok (shown u)
decode_rest-encode_tail s u at payload_end more w e =
    let total = length-encode_tail u at more ∙ e in
    unfold decode_rest encode_tail shown in
    rw
      (
        take_to-encode_string s _ u.to _ w.to_ok,
        take_integer-encode_string s 32 _ u.value _ (omega arith) w.value_ok,
        take_opaque-encode_string s _ u.call_data _ w.data_ok,
        take_opaque-encode_list s _ u.access_list _ w.access_ok,
        take_descriptor-encode_string s _ _,
        take_extra_params-encode_string s _ _,
        total,
      )
      (ground arith)

length-encode_items :
    (u : Preimage) (at : ℕ) (more : List ℕ)
    → at
        + length (encode_string u.chain_id)
        + length (encode_string u.nonce)
        + length (encode_string u.gas_tip_cap)
        + length (encode_string u.gas_fee_cap)
        + length (encode_string u.gas)
        + (length (encode_tail u more) - length more)
      ≡ at + (length (encode_items u more) - length more)
unfolding encode_items encode_tail
length-encode_items u at more = simp length-append (omega arith)

decode_fields-encode_items :
    (s : SizeT) (u : Preimage) (at payload_end : ℕ) (more : List ℕ)
    → IsWellFormed u
    → at + (length (encode_items u more) - length more) ≡ payload_end
    → decode_fields s payload_end (record { at = at; rest = encode_items u more }) ≡ ok (shown u)
decode_fields-encode_items s u at payload_end more w e =
    let total = length-encode_items u at more ∙ e in
    unfold decode_fields encode_items in
    rw
      (
        take_integer-encode_string s 32 _ u.chain_id _ (omega arith) w.chain_id_ok,
        take_integer-encode_string s 8 _ u.nonce _ (omega arith) w.nonce_ok,
        take_integer-encode_string s 32 _ u.gas_tip_cap _ (omega arith) w.tip_ok,
        take_integer-encode_string s 32 _ u.gas_fee_cap _ (omega arith) w.fee_ok,
        take_integer-encode_string s 8 _ u.gas _ (omega arith) w.gas_ok,
      )
      (decode_rest-encode_tail s u _ payload_end more w total)

encode_items-append :
    (u : Preimage) (more : List ℕ) → encode_items u [] ++ more ≡ encode_items u more
unfolding encode_items encode_tail
encode_items-append u more = simp (append_assoc)

length-encode_items_more :
    (u : Preimage) (more : List ℕ)
    → length (encode_items u more) - length more ≡ length (encode_items u [])
length-encode_items_more u more =
    rw (← encode_items-append u more, length-append (encode_items u []) more) (omega arith)

-- The decoder accepts the encoding of every well-formed preimage, whatever bytes follow the list,
-- and returns its fields: the integers as they are, the address or 64 zeros, and whether there is
-- call data and an access list.
pub decode_ledger_tx-encode_preimage :
    (s : SizeT) (u : Preimage) (trailing : List ℕ)
    → IsWellFormed u
    → decode_ledger_tx s (encode_preimage u ++ trailing) ≡ ok (shown u)
unfolding encode_preimage decode_ledger_tx encode_list
decode_ledger_tx-encode_preimage s u trailing w =
    rw
      (
        parse_rlp_list_header-encode_list s (encode_items u []) trailing w.list_ok,
        append_assoc,
        drop-length_append (header 0xc0 (length (encode_items u [])))
            (encode_items u [] ++ trailing),
        encode_items-append u trailing,
      )
      (ground (
        arith,
        length-encode_items_more u trailing,
        decode_fields-encode_items s u (1 + length (header 0xc0 (length (encode_items u []))))
            (1 + length (header 0xc0 (length (encode_items u []))) + length (encode_items u []))
            trailing w (omega (arith, length-encode_items_more u trailing)),
      ))
