-- ===== src/Rlp/Fields.antt =====
-- The single fields of a transaction that is encoded: decode_ledger_tx of src/mldsa87/rlp_decode.c.
use ledger_app_qrl_v.Prelude.{
  ℕ, ◌+◌, ◌≤◌, ◌<◌, ◌^◌, ◌≡◌, ◌⊎◌, refl, length-append, arith, true, false, not, List, [], ◌∷◌,
  ◌++◌, length, replicate, ok, ltb, ◌==◌, if◌then◌else◌, Bool-cases, inl, inr, be_bytes,
  length-be_bytes,
}
use ledger_app_qrl_v.Rlp.{SizeT}
use ledger_app_qrl_v.Rlp.Tx.{
  ZondTx, has_leading_zero, address_length, take_integer, take_to, take_opaque, take_descriptor,
  take_extra_params,
}
use ledger_app_qrl_v.Rlp.Encode.{
  header, encode_string, encode_list, Preimage, encode_items, descriptor_bytes,
}
use ledger_app_qrl_v.Rlp.RoundTrip.{behind, take_item-encode_string, take_item-encode_list}

-- An integer field: its bytes with no leading zero, `max` at most.
pub record IsInteger (max : ℕ) (v : List ℕ) : Type 0 where
  pub bounded : length v ≤ max
  pub minimal : has_leading_zero v ≡ false

-- What doc/TRANSACTION.md asks of the fields; the items that may be long are below 2 ^ 31 bytes, so that
-- an `int` counts them, and the list below 2 ^ 32.
pub record IsWellFormed (u : Preimage) : Type 0 where
  pub chain_id_ok : IsInteger 32 u.chain_id
  pub nonce_ok : IsInteger 8 u.nonce
  pub tip_ok : IsInteger 32 u.gas_tip_cap
  pub fee_ok : IsInteger 32 u.gas_fee_cap
  pub gas_ok : IsInteger 8 u.gas
  pub to_ok : (length u.to ≡ 64) ⊎ (length u.to ≡ 0)
  pub value_ok : IsInteger 32 u.value
  pub data_ok : length (encode_string u.call_data) < 2 ^ 31
  pub access_ok : length (encode_list u.access_list) < 2 ^ 31
  pub list_ok : length (encode_items u []) < 2 ^ 32

-- An encoding is at most nine bytes longer than what it encodes.
length-header : (base n : ℕ) → length (header base n) ≤ 9
unfolding header
length-header base n = ground (arith, length-be_bytes 8 n)

encode_string_size :
    (v : List ℕ) → (length v ≤ length (encode_string v)) × (length (encode_string v) ≤ 9 + length v)
unfolding encode_string
encode_string_size [] =
    (omega arith, omega (arith, length-append (header 0x80 0) [], length-header 0x80 0))
encode_string_size (b ∷ []) = elim (Bool-cases (ltb b 0x80)) [
  | inl e ↦ rw e (omega arith, omega arith)
  | inr e ↦
      rw (e, length-append (header 0x80 1) (b ∷ []))
        (omega arith, omega (arith, length-header 0x80 1))
]
encode_string_size (b ∷ c ∷ bs) =
    let n = length (b ∷ c ∷ bs) in
    rw (length-append (header 0x80 n) (b ∷ c ∷ bs))
      (omega arith, omega (arith, length-header 0x80 n))

short_string_fits : (v : List ℕ) → length v ≤ 64 → length (encode_string v) < 2 ^ 31
short_string_fits v h = omega (arith, (encode_string_size v).1)

pub take_integer-encode_string :
    (s : SizeT) (max at : ℕ) (v rest : List ℕ)
    → max ≤ 32
    → IsInteger max v
    → take_integer s max (record { at = at; rest = encode_string v ++ rest })
      ≡ ok (v, behind at (length (encode_string v)) rest)
unfolding take_integer
take_integer-encode_string s max at v rest m h =
    rw (take_item-encode_string s at v rest (short_string_fits v (omega arith))) (ground arith)

-- The array `to`: the address, or zeros where there is none.
unfoldable pub shown_to : List ℕ → List ℕ
shown_to to = if ltb 0 (length to) then to else replicate address_length 0

pub take_to-encode_string :
    (s : SizeT) (at : ℕ) (v rest : List ℕ)
    → (length v ≡ 64) ⊎ (length v ≡ 0)
    → take_to s (record { at = at; rest = encode_string v ++ rest })
      ≡ ok (shown_to v, behind at (length (encode_string v)) rest)
unfolding take_to shown_to
take_to-encode_string s at v rest h =
    rw (take_item-encode_string s at v rest (short_string_fits v (ground arith))) (ground arith)

-- The first byte of a string's encoding lies below 0xc0, that of a list's does not.
string_first :
    (v rest : List ℕ)
    → length v < 2 ^ 32
    → (b : ℕ) × (bs : List ℕ) × (encode_string v ++ rest ≡ b ∷ bs) × (b < 0xc0)
unfolding encode_string header
string_first [] rest h = (0x80, rest, refl, omega arith)
string_first (b ∷ []) rest h = elim (Bool-cases (ltb b 0x80)) [
  | inl e ↦ (b, rest, rw e, ground arith)
  | inr e ↦ (0x81, b ∷ rest, rw e, omega arith)
]
string_first (b ∷ c ∷ bs) rest h = elim (Bool-cases (ltb (length (b ∷ c ∷ bs)) 56)) [
  | inl e ↦ (0x80 + length (b ∷ c ∷ bs), b ∷ c ∷ bs ++ rest, rw e, ground arith)
  | inr e ↦
      let k = length-be_bytes 8 (length (b ∷ c ∷ bs)) in
      (
        0x80 + 55 + length (be_bytes 8 (length (b ∷ c ∷ bs))),
        (be_bytes 8 (length (b ∷ c ∷ bs)) ++ (b ∷ c ∷ bs)) ++ rest,
        rw e,
        omega arith,
      )
]

list_first :
    (v rest : List ℕ) → (b : ℕ) × (bs : List ℕ) × (encode_list v ++ rest ≡ b ∷ bs) × (0xc0 ≤ b)
unfolding encode_list header
list_first v rest = elim (Bool-cases (ltb (length v) 56)) [
  | inl e ↦ (0xc0 + length v, v ++ rest, rw e, omega arith)
  | inr e ↦ (
    0xc0 + 55 + length (be_bytes 8 (length v)),
    (be_bytes 8 (length v) ++ v) ++ rest,
    rw e,
    omega arith,
  )
]

pub take_opaque-encode_string :
    (s : SizeT) (at : ℕ) (v rest : List ℕ)
    → length (encode_string v) < 2 ^ 31
    → take_opaque s false (record { at = at; rest = encode_string v ++ rest })
      ≡ ok (not (length v == 0), behind at (length (encode_string v)) rest)
unfolding take_opaque
take_opaque-encode_string s at v rest h =
    let (b, bs, e, q) = string_first v rest (omega (arith, (encode_string_size v).0, h)) in
    ground (arith, e, take_item-encode_string s at v rest h)

pub take_opaque-encode_list :
    (s : SizeT) (at : ℕ) (v rest : List ℕ)
    → length (encode_list v) < 2 ^ 31
    → take_opaque s true (record { at = at; rest = encode_list v ++ rest })
      ≡ ok (not (length v == 0), behind at (length (encode_list v)) rest)
unfolding take_opaque
take_opaque-encode_list s at v rest h =
    let (b, bs, e, q) = list_first v rest in ground (arith, e, take_item-encode_list s at v rest h)

pub take_descriptor-encode_string :
    (s : SizeT) (at : ℕ) (rest : List ℕ)
    → take_descriptor s (record { at = at; rest = encode_string descriptor_bytes ++ rest })
      ≡ ok (descriptor_bytes, behind at (length (encode_string descriptor_bytes)) rest)
unfolding take_descriptor
take_descriptor-encode_string s at rest =
    rw
      (take_item-encode_string s at descriptor_bytes rest
        (short_string_fits descriptor_bytes (omega arith)))
      refl

pub take_extra_params-encode_string :
    (s : SizeT) (at : ℕ) (rest : List ℕ)
    → take_extra_params s (record { at = at; rest = encode_string [] ++ rest })
      ≡ ok (behind at (length (encode_string [])) rest)
unfolding take_extra_params
take_extra_params-encode_string s at rest =
    rw (take_item-encode_string s at [] rest (short_string_fits [] (omega arith))) refl

-- What the device keeps of a preimage.
unfoldable pub shown : Preimage → ZondTx
shown u = record {
  chain_id = u.chain_id;
  nonce = u.nonce;
  gas_tip_cap = u.gas_tip_cap;
  gas_fee_cap = u.gas_fee_cap;
  gas = u.gas;
  to = shown_to u.to;
  value = u.value;
  has_data = not (length u.call_data == 0);
  has_access_list = not (length u.access_list == 0);
  descriptor = descriptor_bytes;
}
