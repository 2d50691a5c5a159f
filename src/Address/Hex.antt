-- ===== src/Address/Hex.antt =====
-- Hexadecimal text, read back: what the text of src/address_format.c and `bytes_to_lower_hex` of
-- src/ui/nbgl_display_transaction.c are measured against. Small letters and capitals are read alike.
use ledger_app_qrl_v.Prelude.{
  ℕ, ◌+◌, ◌-◌, ◌*◌, ◌/◌, ◌^◌, ◌<◌, ◌≡◌, refl, ◌∙◌, arith, bit_and, bit_and-ones, ◌&&◌, Option, none,
  some, List, [], ◌∷◌, length, get_or, leb, ltb, ◌==◌, ==_iff, all_below_each, if◌then◌else◌, All,
  IsByte,
}
use ledger_app_qrl_v.Address.{hexc, hex_body}

-- The value of a character.
unfoldable pub hex_digit : ℕ → Option ℕ
hex_digit c =
    if leb b'0' c && leb c b'9'
    then some (c - b'0')
    else if leb b'a' c && leb c b'f'
    then some (c - b'a' + 10)
    else if leb b'A' c && leb c b'F'
    then some (c - b'A' + 10)
    else none

abbrev pub pair_of_digits : Option ℕ → Option ℕ → Option (List ℕ) → Option (List ℕ)
pair_of_digits (some h) (some l) (some bs) = some ((h * 16 + l) ∷ bs)
pair_of_digits _ _ _ = none

-- The bytes of a text, two characters each.
unfoldable pub decode_hex : List ℕ → Option (List ℕ)
unfolding hex_digit
decode_hex [] = some []
decode_hex (c ∷ []) = none
decode_hex (c ∷ d ∷ cs) = pair_of_digits (hex_digit c) (hex_digit d) (decode_hex cs)

-- A character that `hexc` has, or the capital of one.
pub Spells : ℕ → ℕ → Type 0
Spells n c = hex_digit c ≡ some n

hexc_char : ℕ → ℕ
hexc_char n = if ltb n 10 then b'0' + n else b'a' + (n - 10)

hexc_table : (n : ℕ) → n < 16 → get_or hexc n 0 ≡ hexc_char n
unfolding hexc_char
hexc_table n h = (==_iff _ _).0 (all_below_each 16 (λ n. get_or hexc n 0 == hexc_char n) refl n h)

pub hexc_digit : (n : ℕ) → n < 16 → Spells n (get_or hexc n 0)
unfolding Spells hex_digit
hexc_digit n h = rw (hexc_table n h) (unfold hexc_char in ground (arith, h))

-- Each letter of `text` stands for the digit of `body` at its place.
pub decode_hex-pair :
    (n m c d : ℕ) (text bytes : List ℕ)
    → Spells n c
    → Spells m d
    → decode_hex text ≡ some bytes
    → decode_hex (c ∷ d ∷ text) ≡ some ((n * 16 + m) ∷ bytes)
unfolding decode_hex Spells
decode_hex-pair n m c d text bytes h h' e = rw (h, h', e) refl

pub digits_of_byte : (b : ℕ) → b / 2 ^ 4 * 16 + bit_and b 0x0f ≡ b
digits_of_byte b = omega (arith, bit_and-ones 4 b)

-- The body is read back as the bytes.
pub decode_hex-hex_body :
    (bytes : List ℕ) → All IsByte bytes → decode_hex (hex_body bytes) ≡ some bytes
unfolding hex_body
decode_hex-hex_body [] h = unfold decode_hex in refl
decode_hex-hex_body (b ∷ bs) h =
    decode_hex-pair (b / 2 ^ 4) (bit_and b 0x0f) _ _ (hex_body bs) bs
      (hexc_digit (b / 2 ^ 4) (omega (arith, h.0)))
      (hexc_digit (bit_and b 0x0f) (omega (arith, bit_and-ones 4 b))) (decode_hex-hex_body bs h.1)
    ∙ rw (digits_of_byte b) refl

pub length-hex_body : (bytes : List ℕ) → length (hex_body bytes) ≡ 2 * length bytes
unfolding hex_body
length-hex_body [] = refl
length-hex_body (b ∷ bs) = omega (arith, length-hex_body bs)
