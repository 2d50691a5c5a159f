-- ===== src/Rlp/Encode.antt =====
-- RLP as the Ethereum encoding defines it: what the decoder of src/mldsa87/rlp_decode.c is measured
-- against. Nothing here is code of the application.
use ledger_app_qrl_v.Prelude.{ℕ, ◌+◌, List, [], ◌∷◌, ◌++◌, length, be_bytes, ltb, if◌then◌else◌}

-- The header of a payload of `n` bytes: 0x80 + n or 0xc0 + n up to 55 bytes, else the number of bytes
-- of `n` and these bytes. `base` is 0x80 for strings and 0xc0 for lists.
unfoldable pub header : (base n : ℕ) → List ℕ
header base n =
    if ltb n 56 then (base + n) ∷ [] else (base + 55 + length (be_bytes 8 n)) ∷ be_bytes 8 n

-- A byte below 0x80 stands for itself.
unfoldable pub encode_string : List ℕ → List ℕ
encode_string [] = header 0x80 0
encode_string (b ∷ []) = if ltb b 0x80 then b ∷ [] else header 0x80 1 ++ (b ∷ [])
encode_string (b ∷ c ∷ bs) = header 0x80 (length (b ∷ c ∷ bs)) ++ (b ∷ c ∷ bs)

unfoldable pub encode_list : (payload : List ℕ) → List ℕ
encode_list payload = header 0xc0 (length payload) ++ payload

-- The unsigned signing preimage of doc/TRANSACTION.md: its eleven fields, but for the descriptor,
-- which is fixed, and `extra_params`, which is empty. `access_list` is the content of the list.
pub record Preimage : Type 0 where
  pub chain_id : List ℕ
  pub nonce : List ℕ
  pub gas_tip_cap : List ℕ
  pub gas_fee_cap : List ℕ
  pub gas : List ℕ
  pub to : List ℕ
  pub value : List ℕ
  pub call_data : List ℕ
  pub access_list : List ℕ

abbrev pub descriptor_bytes : List ℕ
descriptor_bytes = 1 ∷ 0 ∷ 0 ∷ []

-- The last items, in front of what follows the list.
unfoldable pub encode_tail : Preimage → List ℕ → List ℕ
encode_tail u more =
    encode_string u.to
    ++ (encode_string u.value
        ++ (encode_string u.call_data
            ++ (encode_list u.access_list
                ++ (encode_string descriptor_bytes ++ (encode_string [] ++ more)))))

unfoldable pub encode_items : Preimage → List ℕ → List ℕ
encode_items u more =
    encode_string u.chain_id
    ++ (encode_string u.nonce
        ++ (encode_string u.gas_tip_cap
            ++ (encode_string u.gas_fee_cap ++ (encode_string u.gas ++ encode_tail u more))))

-- 0x02 || rlp([chain_id, ..., extra_params])
unfoldable pub encode_preimage : Preimage → List ℕ
encode_preimage u = 0x02 ∷ encode_list (encode_items u [])
