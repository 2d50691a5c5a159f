-- ===== src/Examples/Encodings.antt =====
-- RLP items and transactions at concrete inputs.
use ledger_app_qrl_v.Prelude.{
  ◌≡◌, ◌≢◌, refl, arith, inl, inr, value_of, value_from, ◌%◌, ◌^◌, [], ◌∷◌, ◌++◌, length, take,
  drop, replicate, ok, reject, fault, be_bytes,
}
use ledger_app_qrl_v.Rlp.{
  SizeT, bits32, bits64, Item, as_int, read_item, parse_rlp_item, item_of_prefix, short_string,
}
use ledger_app_qrl_v.Rlp.Tx.{decode_ledger_tx, take_item}
use ledger_app_qrl_v.Rlp.Encode.{
  Preimage, encode_preimage, encode_string, encode_list, encode_items, encode_tail, header,
}
use ledger_app_qrl_v.Rlp.Items.{IsInside}
use ledger_app_qrl_v.Rlp.Consumed.{parse_rlp_item-IsInside}
use ledger_app_qrl_v.Rlp.RoundTrip.{behind, take_item-encode_string, take_item-encode_list}
use ledger_app_qrl_v.Rlp.Canonical.{parse_rlp_item_canonical}
use ledger_app_qrl_v.Rlp.TxSafety.{decode_ledger_tx-ne-fault}
use ledger_app_qrl_v.Rlp.Fields.{IsWellFormed, shown}
use ledger_app_qrl_v.Rlp.TxRoundTrip.{decode_ledger_tx-encode_preimage}
use ledger_app_qrl_v.Rlp.TxValid.{IsValid, decode_ledger_tx-IsValid}
use ledger_app_qrl_v.Rlp.Wrap.{spelled, wrapped, parse_rlp_item_wraps}

-- A transfer of 5 to an address, with no call data and no access list.
abbrev pub transfer : Preimage
transfer = record {
  chain_id = 1 ∷ [];
  nonce = [];
  gas_tip_cap = 2 ∷ [];
  gas_fee_cap = 0x03 ∷ 0xe8 ∷ [];
  gas = 0x52 ∷ 0x08 ∷ [];
  to = replicate 64 0xab;
  value = 5 ∷ [];
  call_data = [];
  access_list = [];
}

transfer-IsWellFormed : IsWellFormed transfer
transfer-IsWellFormed = record {
  chain_id_ok = record { bounded = omega arith; minimal = refl };
  nonce_ok = record { bounded = omega arith; minimal = refl };
  tip_ok = record { bounded = omega arith; minimal = refl };
  fee_ok = record { bounded = omega arith; minimal = refl };
  gas_ok = record { bounded = omega arith; minimal = refl };
  to_ok = inl refl;
  value_ok = record { bounded = omega arith; minimal = refl };
  data_ok = unfold encode_string header in omega arith;
  access_ok = unfold encode_list header in omega arith;
  list_ok =
      unfold encode_items encode_string encode_tail encode_list header be_bytes in omega arith;
}

decode_ledger_tx-encode_preimage_example :
    decode_ledger_tx bits32 (encode_preimage transfer ++ (0xff ∷ [])) ≡ ok (shown transfer)
decode_ledger_tx-encode_preimage_example =
    decode_ledger_tx-encode_preimage bits32 transfer (0xff ∷ []) transfer-IsWellFormed

decode_ledger_tx-ne-fault_example : decode_ledger_tx bits32 (0x02 ∷ 0xf8 ∷ 0xff ∷ []) ≢ fault
decode_ledger_tx-ne-fault_example = decode_ledger_tx-ne-fault bits32 (0x02 ∷ 0xf8 ∷ 0xff ∷ [])

decode_ledger_tx-IsValid_example : IsValid (shown transfer)
decode_ledger_tx-IsValid_example =
    decode_ledger_tx-IsValid bits32 (encode_preimage transfer ++ (0xff ∷ [])) (shown transfer)
      decode_ledger_tx-encode_preimage_example

take_item-encode_string_example :
    take_item bits32 (record { at = 2; rest = encode_string (replicate 60 7) ++ (9 ∷ []) })
    ≡ ok (replicate 60 7, behind 2 (length (encode_string (replicate 60 7))) (9 ∷ []))
take_item-encode_string_example =
    take_item-encode_string bits32 2 (replicate 60 7) (9 ∷ [])
      (unfold encode_string header be_bytes in omega arith)

take_item-encode_list_example :
    take_item bits64 (record { at = 0; rest = encode_list (1 ∷ 2 ∷ []) ++ (9 ∷ []) })
    ≡ ok (1 ∷ 2 ∷ [], behind 0 (length (encode_list (1 ∷ 2 ∷ []))) (9 ∷ []))
take_item-encode_list_example =
    take_item-encode_list bits64 0 (1 ∷ 2 ∷ []) (9 ∷ []) (unfold encode_list header in omega arith)

abbrev two_bytes : Item
two_bytes = record { start = 1; len = 2; consumed = 3 }

two_bytes_parsed : (s : SizeT) → parse_rlp_item s (0x82 ∷ 7 ∷ 8 ∷ 9 ∷ []) ≡ ok two_bytes
unfolding parse_rlp_item as_int read_item item_of_prefix short_string
two_bytes_parsed s = refl

parse_rlp_item-IsInside_example : IsInside (0x82 ∷ 7 ∷ 8 ∷ 9 ∷ []) two_bytes
parse_rlp_item-IsInside_example =
    parse_rlp_item-IsInside bits32 (0x82 ∷ 7 ∷ 8 ∷ 9 ∷ []) two_bytes (omega arith)
      (two_bytes_parsed bits32)

parse_rlp_item_canonical_example :
    (0x82 ∷ 7 ∷ 8 ∷ 9 ∷ []
      ≡ encode_string (take 2 (drop 1 (0x82 ∷ 7 ∷ 8 ∷ 9 ∷ []))) ++ drop 3 (0x82 ∷ 7 ∷ 8 ∷ 9 ∷ []))
    × (3 ≡ 3 % 2 ^ 32)
parse_rlp_item_canonical_example =
    parse_rlp_item_canonical 0x82 (7 ∷ 8 ∷ 9 ∷ []) two_bytes (omega arith) (omega arith)
      (two_bytes_parsed bits64)

-- A list of 60 bytes whose length is written as 1 0 0 0 60 in five bytes.
parse_rlp_item_wraps_example :
    (parse_rlp_item bits32 (spelled 0xf7 (1 ∷ 0 ∷ 0 ∷ 0 ∷ 60 ∷ []) (replicate 60 7))
      ≡ ok (wrapped (1 ∷ 0 ∷ 0 ∷ 0 ∷ 60 ∷ [])))
    × (parse_rlp_item bits64 (spelled 0xf7 (1 ∷ 0 ∷ 0 ∷ 0 ∷ 60 ∷ []) (replicate 60 7)) ≡ reject)
parse_rlp_item_wraps_example =
    parse_rlp_item_wraps 0xf7 1 (0 ∷ 0 ∷ 0 ∷ 60 ∷ []) (replicate 60 7) (inr refl) (omega arith)
      (omega arith) (omega arith) (unfold value_of value_from in omega arith)
      (unfold value_of value_from in omega arith) (unfold value_of value_from in omega arith)
      (omega arith)
