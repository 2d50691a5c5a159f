-- ===== src/Rlp/Length.antt =====
-- The loop that reads the length behind a long prefix, for `parse_rlp_item` and
-- `parse_rlp_list_header` of src/mldsa87/rlp_decode.c.
use ledger_app_qrl_v.Prelude.{
  ℕ, zero, suc, ◌+◌, ◌*◌, ◌%◌, ◌^◌, ◌≤◌, ◌<◌, ◌≡◌, refl, ◌∙◌, sym, ap, arith, bit_or, List, [], ◌∷◌,
  length, take, drop, get_elem?, drop-none, drop-some, Option-cases, inl, inr, All, IsByte, Outcome,
  ok, fault, byte_at, value_from, value_of, shifted-bit_or, ◌≢◌, value_of-lt,
}
use native.Mathlib.Nat.{pow-le-pow_right, mod-mod, mod-eq_of_lt, mod-lt}
use ledger_app_qrl_v.Rlp.{SizeT, bits32, bits64, size_mod, read_length}

-- The same loop over the bytes that are still to be read.
read_bytes : SizeT → List ℕ → (rounds len : ℕ) → Outcome ℕ
read_bytes s xs zero len = ok len
read_bytes s [] (suc n) len = fault
read_bytes s (x ∷ xs) (suc n) len = read_bytes s xs n (bit_or (len * 2 ^ 8 % size_mod s) x)

read_length-read_bytes :
    (s : SizeT) (input : List ℕ) (i n len : ℕ)
    → read_length s input i n len ≡ read_bytes s (drop (suc i) input) n len
unfolding read_length read_bytes
read_length-read_bytes s input i zero len = refl
read_length-read_bytes s input i (suc n) len = elim (Option-cases (get_elem? input (suc i))) [
  | inl e ↦ rw (one i, drop-none input (suc i) e) (rw (e, byte_at))
  | inr (x, e) ↦
      rw (one i, drop-some input (suc i) x e)
        (rw (e, byte_at) (read_length-read_bytes s input (suc i) n _))
]
  where
    one : (i : ℕ) → 1 + i ≡ suc i
    one i = omega arith

size_mod_pos : (s : SizeT) → 0 < size_mod s
size_mod_pos bits32 = omega arith
size_mod_pos bits64 = omega arith

-- One round, in arithmetic.
join_byte :
    (s : SizeT) (len x : ℕ)
    → x < 256
    → bit_or (len * 2 ^ 8 % size_mod s) x ≡ (len * 256 + x) % size_mod s
join_byte bits32 len x hx = rw kept (shifted-bit_or 8 x (len % 2 ^ 24) hx ∙ omega arith)
  where
    kept : len * 2 ^ 8 % 2 ^ 32 ≡ len % 2 ^ 24 * 2 ^ 8
    kept = omega arith
join_byte bits64 len x hx = rw kept (shifted-bit_or 8 x (len % 2 ^ 56) hx ∙ omega arith)
  where
    kept : len * 2 ^ 8 % 2 ^ 64 ≡ len % 2 ^ 56 * 2 ^ 8
    kept = omega arith

mod_step :
    (s : SizeT) (acc b : ℕ)
    → (acc % size_mod s * 256 + b) % size_mod s ≡ (acc * 256 + b) % size_mod s
mod_step bits32 acc b = omega arith
mod_step bits64 acc b = omega arith

value_from-mod :
    (s : SizeT) (acc : ℕ) (bs : List ℕ)
    → value_from (acc % size_mod s) bs % size_mod s ≡ value_from acc bs % size_mod s
unfolding value_from
value_from-mod s acc [] = mod-mod acc (size_mod s)
value_from-mod s acc (b ∷ bs) =
    sym (value_from-mod s (acc % size_mod s * 256 + b) bs)
    ∙ ap (λ t. value_from t bs % size_mod s) (mod_step s acc b)
    ∙ value_from-mod s (acc * 256 + b) bs

read_bytes_mod :
    (s : SizeT) (xs : List ℕ) (n len : ℕ)
    → n ≤ length xs
    → All IsByte (take n xs)
    → len < size_mod s
    → read_bytes s xs n len ≡ ok (value_from len (take n xs) % size_mod s)
unfolding read_bytes value_from
read_bytes_mod s xs zero len hn hb hv = ap ok (sym (mod-eq_of_lt hv))
read_bytes_mod s [] (suc n) len hn hb hv = absurd (omega arith)
read_bytes_mod s (x ∷ xs) (suc n) len hn hb hv = rw (join_byte s len x hb.0) (
    read_bytes_mod s xs n ((len * 256 + x) % size_mod s) (omega arith) hb.1
      (mod-lt (len * 256 + x) (size_mod_pos s))
    ∙ ap ok (value_from-mod s (len * 256 + x) (take n xs)))

-- The loop returns the number that the bytes spell, modulo the width of `size_t`.
pub read_length_mod :
    (s : SizeT) (input : List ℕ) (n : ℕ)
    → n ≤ length (drop 1 input)
    → All IsByte (take n (drop 1 input))
    → read_length s input 0 n 0 ≡ ok (value_of (take n (drop 1 input)) % size_mod s)
unfolding value_of
read_length_mod s input n hn hb =
    read_length-read_bytes s input 0 n 0
    ∙ read_bytes_mod s (drop 1 input) n 0 hn hb (size_mod_pos s)

-- It is that number, where the width of `size_t` holds it.
pub read_length_exact :
    (s : SizeT) (input : List ℕ) (n : ℕ)
    → n ≤ length (drop 1 input)
    → All IsByte (take n (drop 1 input))
    → value_of (take n (drop 1 input)) < size_mod s
    → read_length s input 0 n 0 ≡ ok (value_of (take n (drop 1 input)))
read_length_exact s input n hn hb hv = read_length_mod s input n hn hb ∙ ap ok (mod-eq_of_lt hv)

read_bytes-ne-fault :
    (s : SizeT) (xs : List ℕ) (n len : ℕ) → n ≤ length xs → read_bytes s xs n len ≢ fault
unfolding read_bytes
read_bytes-ne-fault s xs zero len h = λ e. cc
read_bytes-ne-fault s [] (suc n) len h = absurd (omega arith)
read_bytes-ne-fault s (x ∷ xs) (suc n) len h = read_bytes-ne-fault s xs n _ (omega arith)

pub read_length-ne-fault :
    (s : SizeT) (input : List ℕ) (n : ℕ)
    → n ≤ length (drop 1 input)
    → read_length s input 0 n 0 ≢ fault
read_length-ne-fault s input n h =
    rw (read_length-read_bytes s input 0 n 0) (read_bytes-ne-fault s (drop 1 input) n 0 h)

-- Eight bytes fit a `size_t` of 64 bits.
pub eight_bytes_fit : (bs : List ℕ) → All IsByte bs → length bs ≤ 8 → value_of bs < size_mod bits64
eight_bytes_fit bs h l = omega (
  arith,
  value_of-lt bs h,
  let p : 256 ^ length bs ≤ 256 ^ 8 = pow-le-pow_right (omega arith) l in p,
)
