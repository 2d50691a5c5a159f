-- ===== src/Address/Checksum.antt =====
-- The text of an address: `format_checksummed_address` of src/address_format.c.
use native.Mathlib.Nat.{add-zero}
use ledger_app_qrl_v.Prelude.{
  ℕ, zero, suc, ◌+◌, ◌-◌, ◌/◌, ◌^◌, ◌≤◌, ◌<◌, ◌≡◌, ◌↔◌, ◌⊎◌, refl, sym, ap, ◌∙◌, arith, bit_and,
  bit_and-ones, Bool, true, false, ◌&&◌, none, some, List, [], ◌∷◌, length, get_or, leb, ltb,
  all_below_each, if◌then◌else◌, inl, inr, All, IsByte,
}
use ledger_app_qrl_v.Address.{
  hexc, hex_body, mask_nibble, checksum_case, checksum_mask, format_checksummed_address,
}
use ledger_app_qrl_v.Address.Hex.{hex_digit, decode_hex, decode_hex-hex_body, length-hex_body}

-- The case of a letter does not matter to its value.
same_digit :
    (c : ℕ) (b : Bool)
    → hex_digit (if leb b'a' c && (leb c b'f' && b) then c - (b'a' - b'A') else c) ≡ hex_digit c
unfolding hex_digit
same_digit c true = ground arith
same_digit c false = ground arith

decode_hex-checksum_case :
    (mask : List ℕ) (i : ℕ) (cs : List ℕ) → decode_hex (checksum_case mask i cs) ≡ decode_hex cs
unfolding decode_hex checksum_case
decode_hex-checksum_case mask i [] = refl
decode_hex-checksum_case mask i (c ∷ []) = refl
decode_hex-checksum_case mask i (c ∷ d ∷ cs) =
    rw
      (
        same_digit c (leb 8 (mask_nibble mask i)),
        same_digit d (leb 8 (mask_nibble mask (suc i))),
        decode_hex-checksum_case mask (suc (suc i)) cs,
      )
      refl

length-checksum_case :
    (mask : List ℕ) (i : ℕ) (cs : List ℕ) → length (checksum_case mask i cs) ≡ length cs
unfolding checksum_case
length-checksum_case mask i [] = refl
length-checksum_case mask i (c ∷ cs) = ap suc (length-checksum_case mask (suc i) cs)

abbrev pub IsSmall : ℕ → Type 0
IsSmall c = (b'a' ≤ c) × (c ≤ b'f')

abbrev pub IsCapital : ℕ → Type 0
IsCapital c = (b'A' ≤ c) × (c ≤ b'F')

abbrev IsHexChar : ℕ → Type 0
IsHexChar c = ((b'0' ≤ c) × (c ≤ b'9')) ⊎ IsSmall c

hexc_char : (n : ℕ) → n < 16 → IsHexChar (get_or hexc n 0)
hexc_char n h =
    classified (get_or hexc n 0) (all_below_each 16 (λ n. is_hex_char (get_or hexc n 0)) refl n h)
  where
    is_hex_char : ℕ → Bool
    is_hex_char c = if leb b'0' c && leb c b'9' then true else leb b'a' c && leb c b'f'

    classified : (c : ℕ) → is_hex_char c ≡ true → IsHexChar c
    classified c e = ground arith

hex_body-chars : (bytes : List ℕ) → All IsByte bytes → All IsHexChar (hex_body bytes)
unfolding hex_body
hex_body-chars [] h = tt
hex_body-chars (b ∷ bs) h = (
  hexc_char (b / 2 ^ 4) (omega (arith, h.0)),
  (hexc_char (bit_and b 0x0f) (omega (arith, bit_and-ones 4 b)), hex_body-chars bs h.1),
)

-- A letter becomes a capital where the mask's digit is 8 or more.
IsCapital-char :
    (c n : ℕ)
    → IsHexChar c
    → IsCapital (if leb b'a' c && (leb c b'f' && leb 8 n) then c - (b'a' - b'A') else c)
      ↔ (IsSmall c × (8 ≤ n))
IsCapital-char c n (inl digit) = ground arith
IsCapital-char c n (inr small) = ground arith

IsCapital-at :
    (mask : List ℕ) (i : ℕ) (cs : List ℕ)
    → All IsHexChar cs
    → (k j : ℕ) → i + k ≡ j
    → k < length cs
    → IsCapital (get_or (checksum_case mask i cs) k 0)
      ↔ (IsSmall (get_or cs k 0) × (8 ≤ mask_nibble mask j))
unfolding checksum_case
IsCapital-at mask i [] h k j e lt = absurd (omega arith)
IsCapital-at mask i (c ∷ cs) h zero j e lt =
    rw (sym e, add-zero i) (IsCapital-char c (mask_nibble mask i) h.0)
IsCapital-at mask i (c ∷ cs) h (suc k) j e lt =
    IsCapital-at mask (suc i) cs h.1 k j (omega (arith, e)) (omega arith)

-- The text of an address of 64 bytes in a buffer of at least 130: 'Q' and 128 digits that are read back
-- as the address. The character at place `k` is a capital just where the small text has a letter and the
-- digit of its SHAKE256 mask is 8 or more. A smaller buffer is refused.
pub format_checksummed_address_lem :
    (address : List ℕ) (out_len k : ℕ)
    → length address ≡ 64
    → All IsByte address
    → k < 128
    → (text : List ℕ) × (length text ≡ 128)
      × (decode_hex text ≡ some address)
      × (IsCapital (get_or text k 0) ↔ (
          IsSmall (get_or (hex_body address) k 0)
          × (8 ≤ mask_nibble (checksum_mask (hex_body address)) k)))
      × (format_checksummed_address address out_len
          ≡ (if ltb out_len 130 then none else some (b'Q' ∷ text)))
format_checksummed_address_lem address out_len k len h lt = (
  checksum_case (checksum_mask (hex_body address)) 0 (hex_body address),
  length-checksum_case _ 0 (hex_body address) ∙ omega (arith, length-hex_body address, len),
  decode_hex-checksum_case _ 0 (hex_body address) ∙ decode_hex-hex_body address h,
  IsCapital-at _ 0 (hex_body address) (hex_body-chars address h) k k (omega arith)
      (omega (arith, length-hex_body address, len, lt)),
  unfold format_checksummed_address in refl,
)
