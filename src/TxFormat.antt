-- ===== src/TxFormat.antt =====
-- Amounts as text: src/ui/tx_format.c and tx_format.h.
-- A C string is the list of its characters without the final NUL; `false` is `none`; `out_len` is the
-- size of the caller's buffer, NUL included. Callers pass no null pointers, so these tests are left out.
pub mod Digits
pub mod DivMod
pub mod Decimal
pub mod Fixed
pub mod Amount
pub mod Accum
pub mod Multiply
pub mod Carries
pub mod Product
use ledger_app_qrl_v.Prelude.{
  ℕ, zero, suc, ◌+◌, ◌-◌, ◌*◌, ◌/◌, ◌%◌, ◌^◌, bit_or, bit_and, Bool, true, false, ◌&&◌, ◌||◌, not,
  Option, none, some, List, [], ◌∷◌, ◌++◌, map, length, get_or, set, take, drop, replicate, ltb,
  leb, ◌==◌, if◌then◌else◌,
}

abbrev pub max_integer_bytes : ℕ
max_integer_bytes = 40

abbrev pub max_decimal_digits : ℕ
max_decimal_digits = 97

abbrev pub max_amount_len : ℕ
max_amount_len = 100

-- The `for` loop of `uint8_array_to_decimal`: `temp` divided by ten in place, and the remainder.
unfoldable pub divide_by_ten : (remainder : ℕ) → List ℕ → List ℕ × ℕ
divide_by_ten remainder [] = ([], remainder)
divide_by_ten remainder (t ∷ ts) =
    let val = bit_or (remainder * 2 ^ 8) t in
    let (qs, r) = divide_by_ten (val % 10) ts in ((val / 10 % 256) ∷ qs, r)

-- `zero &= temp[i] == 0` over all bytes.
unfoldable pub all_zero : List ℕ → Bool
all_zero [] = true
all_zero (t ∷ ts) = t == 0 && all_zero ts

-- The `do` loop, with `index` places of `result` left and `digits` behind them.
unfoldable pub decimal_loop : (index : ℕ) → (temp digits : List ℕ) → Option (List ℕ)
unfolding divide_by_ten all_zero
decimal_loop zero temp digits = none
decimal_loop (suc index) temp digits =
    let (qs, r) = divide_by_ten 0 temp in
    let more = decimal_loop index qs ((b'0' + r) ∷ digits) in
    if all_zero qs then some ((b'0' + r) ∷ digits) else more

-- The copy of `result` into the caller's buffer.
unfoldable pub copy_digits : (out_len : ℕ) → Option (List ℕ) → Option (List ℕ)
copy_digits out_len none = none
copy_digits out_len (some digits) = if ltb out_len (length digits + 1) then none else some digits

unfoldable pub uint8_array_to_decimal : List ℕ → (out_len : ℕ) → Option (List ℕ)
unfolding decimal_loop copy_digits
uint8_array_to_decimal bytes out_len =
    if out_len == 0 || ltb max_integer_bytes (length bytes)
    then none
    else copy_digits out_len (decimal_loop max_decimal_digits bytes [])

-- `while (pos && out[pos - 1] == '0') out[--pos] = '\0';`
unfoldable pub strip_zeros : (pos : ℕ) → List ℕ → ℕ
strip_zeros zero out = zero
strip_zeros (suc pos) out = if get_or out pos 0 == b'0' then strip_zeros pos out else suc pos

-- `if (pos && out[pos - 1] == '.') out[--pos] = '\0';`
unfoldable pub strip_point : (pos : ℕ) → List ℕ → ℕ
strip_point zero out = zero
strip_point (suc pos) out = if get_or out pos 0 == b'.' then pos else suc pos

-- The text before the zeros are stripped.
unfoldable pub pointed : List ℕ → (decimals : ℕ) → List ℕ
pointed raw decimals =
    if leb (length raw) decimals
    then b'0' ∷ b'.' ∷ (replicate (decimals - length raw) b'0' ++ raw)
    else take (length raw - decimals) raw ++ (b'.' ∷ drop (length raw - decimals) raw)

-- `needed`, a `size_t` of the 32 bits that it has on the devices. Where it wraps around, which takes more
-- than 2 ^ 32 - 4 digits or places, the text is longer than the buffer may be.
unfoldable pub bytes_needed : List ℕ → (decimals : ℕ) → ℕ
bytes_needed raw decimals =
    ((if ltb decimals (length raw) then length raw - decimals else 1)
      + 1
      + (if ltb (length raw) decimals then decimals - length raw else 0)
      + (if ltb decimals (length raw) then decimals else length raw)
      + 1)
    % 2 ^ 32

unfoldable pub format_with_decimals : List ℕ → (decimals out_len : ℕ) → Option (List ℕ)
unfolding pointed bytes_needed strip_zeros strip_point
format_with_decimals raw decimals out_len =
    if out_len == 0
    then none
    else if decimals == 0
    then (if ltb out_len (length raw + 1) then none else some raw)
    else if ltb out_len (bytes_needed raw decimals)
    then none
    else let out = pointed raw decimals in
      some (take (strip_point (strip_zeros (length out) out) out) out)

-- `format_with_decimals` on what `uint8_array_to_decimal` wrote.
unfoldable pub then_format : Option (List ℕ) → (decimals out_len : ℕ) → Option (List ℕ)
unfolding format_with_decimals
then_format none decimals out_len = none
then_format (some raw) decimals out_len = format_with_decimals raw decimals out_len

unfoldable pub format_qrl_amount : List ℕ → (out_len : ℕ) → Option (List ℕ)
unfolding then_format uint8_array_to_decimal
format_qrl_amount amount out_len =
    then_format (uint8_array_to_decimal amount (max_decimal_digits + 1)) 18 out_len

-- `accum[p] += x`, of 32 bits.
unfoldable pub add_at : List ℕ → (p x : ℕ) → List ℕ
add_at accum p x = set accum p ((get_or accum p 0 + x) % 2 ^ 32)

-- The inner loop: `j` counts up while `rounds` are left.
unfoldable pub multiply_row : (full_len i ai : ℕ) (b : List ℕ) (j rounds : ℕ) → List ℕ → List ℕ
unfolding add_at
multiply_row full_len i ai b j zero accum = accum
multiply_row full_len i ai b j (suc rounds) accum =
    multiply_row full_len i ai b (suc j) rounds
      (add_at accum (full_len - 1 - i - j) (ai * get_or b (length b - 1 - j) 0 % 2 ^ 32))

-- The outer loop.
unfoldable pub multiply_rows : (full_len : ℕ) (a b : List ℕ) (i rounds : ℕ) → List ℕ → List ℕ
unfolding multiply_row
multiply_rows full_len a b i zero accum = accum
multiply_rows full_len a b i (suc rounds) accum =
    multiply_rows full_len a b (suc i) rounds
      (multiply_row full_len i (get_or a (length a - 1 - i) 0) b 0 (length b) accum)

-- `for (i = full_len - 1; i > 0; i--)`: the carries.
unfoldable pub carry : (i : ℕ) → List ℕ → List ℕ
unfolding add_at
carry zero accum = accum
carry (suc i) accum =
    let accum' = add_at accum i (get_or accum (suc i) 0 / 2 ^ 8) in
    carry i (set accum' (suc i) (bit_and (get_or accum' (suc i) 0) 0xff))

-- `while (first + 1 < full_len && accum[first] == 0) first++;` drops leading zeros, but for the last.
unfoldable pub drop_leading : List ℕ → List ℕ
drop_leading [] = []
drop_leading (x ∷ []) = x ∷ []
drop_leading (x ∷ y ∷ xs) = if x == 0 then drop_leading (y ∷ xs) else x ∷ y ∷ xs

-- The bytes written to `out`, whose size is `out_len`; their number is the new `*out_len`.
unfoldable pub multiply_uint8_arrays : (a b : List ℕ) (out_len : ℕ) → Option (List ℕ)
unfolding multiply_rows carry drop_leading
multiply_uint8_arrays a b out_len =
    let full_len = length a + length b in
    if ltb max_integer_bytes full_len
    then none
    else if full_len == 0
    then (if ltb out_len 1 then none else some (0 ∷ []))
    else let accum = multiply_rows full_len a b 0 (length a) (replicate full_len 0) in
      let kept = drop_leading (carry (full_len - 1) accum) in
      if ltb out_len (length kept) then none else some (map (λ x. x % 256) kept)
