-- ===== src/Examples/Formats.antt =====
-- Amounts, digests, paths and addresses at concrete inputs.
use ledger_app_qrl_v.Prelude.{
  ℕ, ◌+◌, ◌*◌, ◌≤◌, ◌≡◌, ◌↔◌, refl, arith, true, none, some, List, [], ◌∷◌, length, replicate,
  get_or, ltb, if◌then◌else◌, value_of,
}
use ledger_app_qrl_v.TxFormat.{
  uint8_array_to_decimal, format_with_decimals, format_qrl_amount, multiply_uint8_arrays,
}
use ledger_app_qrl_v.TxFormat.Digits.{IsDecimal}
use ledger_app_qrl_v.TxFormat.Decimal.{uint8_array_to_decimal_lem}
use ledger_app_qrl_v.TxFormat.Amount.{IsFixed, format_with_decimals_lem, format_qrl_amount_lem}
use ledger_app_qrl_v.TxFormat.Product.{IsShortest, multiply_uint8_arrays_lem}
use ledger_app_qrl_v.Keccak.{init}
use ledger_app_qrl_v.Keccak.Hashes.{
  shake256_absorb, shake256_finalize, shake256_squeeze, shake128_absorb, shake128_finalize,
  shake128_squeeze, keccak256_absorb, keccak256_finalize, keccak256_squeeze,
}
use ledger_app_qrl_v.Keccak.Padding.{sponge}
use ledger_app_qrl_v.Keccak.Digests.{digests_lem}
use ledger_app_qrl_v.Address.{
  is_valid_zond_bip32_path, hex_body, mask_nibble, checksum_mask, format_checksummed_address,
}
use ledger_app_qrl_v.Address.Hex.{decode_hex}
use ledger_app_qrl_v.Address.Paths.{IsZondPath, is_valid_zond_bip32_path_lem}
use ledger_app_qrl_v.Address.Checksum.{IsCapital, IsSmall, format_checksummed_address_lem}

-- 1.5 QRL.
abbrev amount : List ℕ
amount = 0x14 ∷ 0xd1 ∷ 0x12 ∷ 0x0d ∷ 0x7b ∷ 0x16 ∷ 0x00 ∷ 0x00 ∷ []

uint8_array_to_decimal_example :
    (text : List ℕ) × IsDecimal text (value_of amount)
    × (length text ≤ 97)
    × (uint8_array_to_decimal amount 98 ≡ (if ltb 98 (length text + 1) then none else some text))
uint8_array_to_decimal_example = uint8_array_to_decimal_lem amount 98 (omega arith) (omega arith)

format_with_decimals_example :
    (text : List ℕ) × IsFixed (b'1' ∷ b'5' ∷ b'0' ∷ []) 2 text
    × (format_with_decimals (b'1' ∷ b'5' ∷ b'0' ∷ []) 2 10
        ≡ (if ltb 10 (if ltb 2 3 then 3 + 2 else 2 + 3) then none else some text))
format_with_decimals_example =
    format_with_decimals_lem (b'1' ∷ b'5' ∷ b'0' ∷ []) 2 10 (omega arith) (omega arith)
      (omega arith) (omega arith)

format_qrl_amount_example :
    (digits text : List ℕ) × (format_qrl_amount amount 100 ≡ some text)
    × IsDecimal digits (value_of amount)
    × IsFixed digits 18 text
format_qrl_amount_example = format_qrl_amount_lem amount (omega arith) (omega arith)

multiply_uint8_arrays_example :
    (product : List ℕ) × IsShortest product (value_of amount * value_of (0x52 ∷ 0x08 ∷ []))
    × (multiply_uint8_arrays amount (0x52 ∷ 0x08 ∷ []) 40
        ≡ (if ltb 40 (length product) then none else some product))
multiply_uint8_arrays_example =
    multiply_uint8_arrays_lem amount (0x52 ∷ 0x08 ∷ []) 40 (omega arith) (omega arith) (omega arith)

-- A message of a whole block and one byte.
abbrev message : List ℕ
message = replicate 137 0xa5

digests_example :
    ((shake256_squeeze (shake256_finalize (shake256_absorb init message)) 64).0
      ≡ sponge 136 0x1F message 64)
    × ((shake128_squeeze (shake128_finalize (shake128_absorb init message)) 64).0
        ≡ sponge 168 0x1F message 64)
    × ((keccak256_squeeze (keccak256_finalize (keccak256_absorb init message))).0
        ≡ sponge 136 0x01 message 32)
digests_example = digests_lem message 64

-- m/44'/238'/0'/0/0
abbrev path : List ℕ
path = 0x8000002C ∷ 0x800000EE ∷ 0x80000000 ∷ 0 ∷ 0 ∷ []

is_valid_zond_bip32_path_example : (is_valid_zond_bip32_path path 5 ≡ true) ↔ IsZondPath path 5
is_valid_zond_bip32_path_example = is_valid_zond_bip32_path_lem path 5 (omega arith)

abbrev address : List ℕ
address = replicate 64 0xab

format_checksummed_address_example :
    (text : List ℕ) × (length text ≡ 128)
    × (decode_hex text ≡ some address)
    × (IsCapital (get_or text 3 0) ↔ (
        IsSmall (get_or (hex_body address) 3 0)
        × (8 ≤ mask_nibble (checksum_mask (hex_body address)) 3)))
    × (format_checksummed_address address 130 ≡ (if ltb 130 130 then none else some (b'Q' ∷ text)))
format_checksummed_address_example =
    format_checksummed_address_lem address 130 3 refl (omega arith) (omega arith)
