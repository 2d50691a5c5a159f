-- ===== src/Address.antt =====
-- Derivation paths and address text: src/address_format.c.
-- `bip32_path` is an array of 32-bit numbers read with `[]`, its length is handed over beside it.
pub mod Paths
pub mod Hex
pub mod Checksum
use ledger_app_qrl_v.Prelude.{
  ℕ, zero, suc, ◌+◌, ◌-◌, ◌*◌, ◌/◌, ◌%◌, ◌^◌, bit_and, Bool, true, false, ◌&&◌, ◌||◌, not, Option,
  none, some, List, [], ◌∷◌, ◌++◌, get_or, ltb, leb, ◌==◌, if◌then◌else◌,
}
use ledger_app_qrl_v.Keccak.{Ctx, init}
use ledger_app_qrl_v.Keccak.Hashes.{shake256_absorb, shake256_finalize, shake256_squeeze}

unfoldable pub is_valid_zond_bip32_path : (bip32_path : List ℕ) → (bip32_path_len : ℕ) → Bool
is_valid_zond_bip32_path path len =
    if not (len == 5)
    then false
    else if not (get_or path 0 0 == 0x8000002C)
        || (not (get_or path 1 0 == 0x800000EE)
            || (bit_and (get_or path 2 0) 0x80000000 == 0
                || (not (bit_and (get_or path 3 0) 0x80000000 == 0)
                    || not (bit_and (get_or path 4 0) 0x80000000 == 0))))
    then false
    else true

abbrev pub address_size : ℕ
address_size = 64

-- `hexc`, "0123456789abcdef".
abbrev pub hexc : List ℕ
hexc =
    b'0' ∷ b'1' ∷ b'2' ∷ b'3' ∷ b'4' ∷ b'5' ∷ b'6' ∷ b'7' ∷ b'8' ∷ b'9' ∷ b'a' ∷ b'b' ∷ b'c' ∷ b'd'
    ∷ b'e' ∷ b'f' ∷ []

-- `body`: two characters for each byte of the address.
unfoldable pub hex_body : List ℕ → List ℕ
hex_body [] = []
hex_body (b ∷ bs) = get_or hexc (b / 2 ^ 4) 0 ∷ get_or hexc (bit_and b 0x0f) 0 ∷ hex_body bs

-- `nibble` of the loop over the body.
unfoldable pub mask_nibble : (mask : List ℕ) → (i : ℕ) → ℕ
mask_nibble mask i =
    if i % 2 == 0 then get_or mask (i / 2) 0 / 2 ^ 4 else bit_and (get_or mask (i / 2) 0) 0x0f

-- The loop that turns letters to capitals; `i` counts the characters.
unfoldable pub checksum_case : (mask : List ℕ) → (i : ℕ) → List ℕ → List ℕ
unfolding mask_nibble
checksum_case mask i [] = []
checksum_case mask i (c ∷ cs) =
    (if leb b'a' c && (leb c b'f' && leb 8 (mask_nibble mask i)) then c - (b'a' - b'A') else c)
    ∷ checksum_case mask (suc i) cs

unfoldable pub checksum_mask : List ℕ → List ℕ
unfolding shake256_absorb shake256_finalize shake256_squeeze
checksum_mask body =
    (shake256_squeeze (shake256_finalize (shake256_absorb init body)) address_size).0

unfoldable pub format_checksummed_address : (address : List ℕ) → (out_len : ℕ) → Option (List ℕ)
unfolding hex_body checksum_mask checksum_case
format_checksummed_address address out_len =
    if ltb out_len (1 + 2 * address_size + 1)
    then none
    else let body = hex_body address in some (b'Q' ∷ checksum_case (checksum_mask body) 0 body)
