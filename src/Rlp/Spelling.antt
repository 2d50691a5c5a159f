-- ===== src/Rlp/Spelling.antt =====
-- The encodings that parse_rlp_item of src/mldsa87/rlp_decode.c accepts, by their first byte.
use mathlib.Core.List.{append_assoc, append-nil}
use ledger_app_qrl_v.Prelude.{
  ℕ, zero, suc, ◌+◌, ◌≤◌, ◌<◌, ◌≡◌, refl, sym, ap, ◌∙◌, arith, some, List, [], ◌∷◌, ◌++◌, length,
  take, drop, get_elem?, length-take, take-append-drop, length-drop, ok, >>=-eq-ok, All, IsByte,
  All-take, be_bytes, be_bytes-value_of, value_of,
}
use ledger_app_qrl_v.Rlp
use ledger_app_qrl_v.Rlp.{
  SizeT, bits32, bits64, Item, long_length, short_string, long_item, short_list, item_of_prefix,
  parse_rlp_item,
}
use ledger_app_qrl_v.Rlp.Length.{read_length_exact, eight_bytes_fit}
use ledger_app_qrl_v.Rlp.Encode.{header, encode_string}

-- An accepted length of 64 bits is the number that its bytes spell, the first of them not zero.
long_length_value :
    (p x : ℕ) (xs : List ℕ) (k n : ℕ)
    → suc k ≤ 8
    → All IsByte (x ∷ xs)
    → long_length bits64 (p ∷ x ∷ xs) (suc k) ≡ ok n
    → (suc k ≤ length (x ∷ xs)) × (0 < x) × (n ≡ value_of (x ∷ take k xs))
unfolding long_length
long_length_value p x xs k n h hb e = (room, ground arith, ground (arith, exact))
  where
    room : suc k ≤ length (x ∷ xs)
    room = ground arith

    few : length (x ∷ take k xs) ≤ 8
    few = omega (arith, length-take k xs)

    exact : Rlp.read_length bits64 (p ∷ x ∷ xs) 0 (suc k) 0 ≡ ok (value_of (x ∷ take k xs))
    exact =
        read_length_exact bits64 (p ∷ x ∷ xs) (suc k) room (All-take IsByte (suc k) (x ∷ xs) hb)
          (eight_bytes_fit (x ∷ take k xs) (All-take IsByte (suc k) (x ∷ xs) hb) few)

-- So they are the only bytes that spell it.
long_length_canonical :
    (p x : ℕ) (xs : List ℕ) (k n : ℕ)
    → suc k ≤ 8
    → All IsByte (x ∷ xs)
    → long_length bits64 (p ∷ x ∷ xs) (suc k) ≡ ok n
    → be_bytes 8 n ≡ x ∷ take k xs
long_length_canonical p x xs k n h hb e =
    let (room, pos, exact) = long_length_value p x xs k n h hb e in
    ap (be_bytes 8) exact
    ∙ be_bytes-value_of 8 x (take k xs) pos (All-take IsByte (suc k) (x ∷ xs) hb)
        (omega (arith, length-take k xs))

-- A string that no single byte stands for is its header and its bytes.
encode_string_headed :
    (v : List ℕ) → ((b : ℕ) → v ≡ b ∷ [] → 0x80 ≤ b) → encode_string v ≡ header 0x80 (length v) ++ v
unfolding encode_string
encode_string_headed [] h = sym (append-nil _)
encode_string_headed (b ∷ []) h = let big = h b refl in ground arith
encode_string_headed (b ∷ c ∷ bs) h = refl

header_short : (n : ℕ) → n < 56 → header 0x80 n ≡ (0x80 + n) ∷ []
unfolding header
header_short n h = ground arith

header_long : (n : ℕ) → 56 ≤ n → header 0x80 n ≡ (0x80 + 55 + length (be_bytes 8 n)) ∷ be_bytes 8 n
unfolding header
header_long n h = ground arith

take_single :
    (n : ℕ) (xs : List ℕ) (b : ℕ)
    → n ≤ length xs
    → take n xs ≡ b ∷ []
    → (n ≡ 1) × (get_elem? xs 0 ≡ some b)
take_single zero xs b h e = cc
take_single (suc n) [] b h e = cc
take_single (suc zero) (x ∷ xs) b h e = (refl, cc)
take_single (suc (suc n)) (x ∷ []) b h e = absurd (omega arith)
take_single (suc (suc n)) (x ∷ y ∷ xs) b h e = cc

-- `p` with its content and the rest, where `p` announces a short string.
pub short_string_canonical :
    (n : ℕ) (xs : List ℕ) (it : Item)
    → n < 56
    → short_string ((0x80 + n) ∷ xs) n ≡ ok it
    → (it ≡ record { start = 1; len = n; consumed = suc n })
      × ((0x80 + n) ∷ xs ≡ encode_string (take n xs) ++ drop n xs)
unfolding short_string
short_string_canonical n xs it h e = (ground arith, sym spelled)
  where
    room : n ≤ length xs
    room = ground arith

    whole : length (take n xs) ≡ n
    whole = omega (arith, room, length-take n xs)

    not_own : (b : ℕ) → take n xs ≡ b ∷ [] → 0x80 ≤ b
    not_own b q = let (one, first) = take_single n xs b room q in ground arith

    spelled : encode_string (take n xs) ++ drop n xs ≡ (0x80 + n) ∷ xs
    spelled =
        rw (encode_string_headed (take n xs) not_own, whole, header_short n h)
          (ap (λ t. (0x80 + n) ∷ t) (take-append-drop n xs))

long_item_length :
    (s : SizeT) (input : List ℕ) (k : ℕ) (it : Item)
    → long_item s input k ≡ ok it
    → (n : ℕ) × (long_length s input k ≡ ok n)
unfolding long_item
long_item_length s input k it h = let (n, e, r) = >>=-eq-ok (long_length s input k) _ h in (n, e)

-- What the tests on an accepted length leave.
long_item_accepts :
    (p x : ℕ) (xs : List ℕ) (k n : ℕ) (it : Item)
    → suc k ≤ length (x ∷ xs)
    → long_length bits64 (p ∷ x ∷ xs) (suc k) ≡ ok n
    → long_item bits64 (p ∷ x ∷ xs) (suc k) ≡ ok it
    → (56 ≤ n)
      × (k + n ≤ length xs)
      × (it ≡ record { start = 1 + suc k; len = n; consumed = 1 + suc k + n })
unfolding long_item
long_item_accepts p x xs k n it room e h = (ground arith, ground arith, ground arith)

-- The content behind a long header with the header in front.
long_spelled :
    (x : ℕ) (xs : List ℕ) (k n : ℕ)
    → 56 ≤ n
    → k + n ≤ length xs
    → be_bytes 8 n ≡ x ∷ take k xs
    → encode_string (take n (drop k xs)) ++ drop n (drop k xs) ≡ (0xb7 + suc k) ∷ x ∷ xs
long_spelled x xs k n big fits same =
    rw
      (
        encode_string_headed (take n (drop k xs)) not_own,
        whole,
        header_long n big,
        same,
        append_assoc,
        take-append-drop n (drop k xs),
        prefix,
      )
      (ap (λ t. (0xb7 + suc k) ∷ x ∷ t) (take-append-drop k xs))
  where
    whole : length (take n (drop k xs)) ≡ n
    whole = omega (arith, length-take n (drop k xs), length-drop k xs)

    not_own : (b : ℕ) → take n (drop k xs) ≡ b ∷ [] → 0x80 ≤ b
    not_own b q = absurd (omega (arith, whole, ap length q))

    prefix : 0x80 + 55 + length (x ∷ take k xs) ≡ 0xb7 + suc k
    prefix = omega (arith, length-take k xs)

pub long_item_canonical :
    (x : ℕ) (xs : List ℕ) (k : ℕ) (it : Item)
    → suc k ≤ 8
    → All IsByte (x ∷ xs)
    → long_item bits64 ((0xb7 + suc k) ∷ x ∷ xs) (suc k) ≡ ok it
    → (it.start ≡ suc (suc k))
      × (it.consumed ≡ suc (suc k) + it.len)
      × ((0xb7 + suc k) ∷ x ∷ xs
          ≡ encode_string (take it.len (drop k xs)) ++ drop it.len (drop k xs))
long_item_canonical x xs k it h hb e =
    let (n, e1) = long_item_length bits64 ((0xb7 + suc k) ∷ x ∷ xs) (suc k) it e in
    let (room, pos, exact) = long_length_value (0xb7 + suc k) x xs k n h hb e1 in
    let (big, fits, is) = long_item_accepts (0xb7 + suc k) x xs k n it room e1 e in
    let same = long_length_canonical (0xb7 + suc k) x xs k n h hb e1 in
    (
      ground arith,
      ground arith,
      rw (ap (λ i. i.len) is) (sym (long_spelled x xs k n big fits same)),
    )
