-- ===== src/Signature.antt =====
-- The signature as bytes: pack_sig_volatile and unpack_sig_volatile of src/mldsa87/sign.c.
-- A signature is the hash `c`, the packed polynomials of z, and 83 bytes for the hints: the places
-- that are set in the 8 polynomials of h, one polynomial behind the other, zeros up to OMEGA bytes,
-- and for each polynomial the number of the places up to its end.
pub mod Rows
pub mod Decoding
pub mod Padding
pub mod Encoding
pub mod RoundTrip
pub mod Canonical
pub mod Whole
use ledger_app_qrl_v.Prelude.{
  ℕ, zero, suc, ◌+◌, ◌-◌, ◌*◌, ◌%◌, Bool, ◌&&◌, ◌||◌, not, List, [], ◌∷◌, ◌++◌, length, get_or, set,
  take, drop, replicate, ltb, leb, ◌==◌, if◌then◌else◌,
}
use ledger_app_qrl_v.Poly.{poly_z_pack, poly_z_unpack}

abbrev pub omega_const : ℕ
omega_const = 75

abbrev pub ctilde_bytes : ℕ
ctilde_bytes = 64

abbrev pub poly_z_packed_bytes : ℕ
poly_z_packed_bytes = 640

-- CTILDE_BYTES + L * POLY_Z_PACKED_BYTES + OMEGA + K
abbrev pub crypto_bytes : ℕ
crypto_bytes = 64 + 7 * 640 + (75 + 8)

-- The polynomials of z, packed one behind the other.
unfoldable pub pack_z : List (List ℕ) → List ℕ
pack_z [] = []
pack_z (p ∷ ps) = poly_z_pack p ++ pack_z ps

-- The inner loop on the coefficients of `h->vec[i]`, from `j` on. `temp3` and `k` go along.
unfoldable pub encode_row : (i j : ℕ) → List ℕ → List ℕ × ℕ → List ℕ × ℕ
encode_row i j [] (temp3, k) = (temp3, k)
encode_row i j (c ∷ cs) (temp3, k) =
    let k' = if not (c == 0) then suc k else k in
    let marked = if not (c == 0) then set temp3 k (j % 256) else temp3 in
    encode_row i (suc j) cs (set marked (omega_const + i) (k' % 256), k')

unfoldable pub encode_rows : (i : ℕ) → List (List ℕ) → List ℕ × ℕ → List ℕ × ℕ
encode_rows i [] st = st
encode_rows i (row ∷ rows) st = encode_rows (suc i) rows (encode_row i 0 row st)

unfoldable pub encode_hints : List (List ℕ) → List ℕ
encode_hints h = (encode_rows 0 h (replicate (omega_const + 8) 0, 0)).0

-- The bytes written over `sig`, and the error code: ERR_INVALID_SIGB_LENGTH is 3.
unfoldable pub pack_sig_volatile :
    (sig : List ℕ) → (sigb_len : ℕ) → (c : List ℕ) → (z h : List (List ℕ)) → List ℕ × ℕ
pack_sig_volatile sig sigb_len c z h =
    if not (sigb_len == crypto_bytes)
    then (sig, 3)
    else (take ctilde_bytes c ++ (pack_z z ++ encode_hints h), 0)

-- The loop on `j` from `k` up to the bound, with the rounds that are left. `hint` is the part of the
-- signature that the hints take.
unfoldable pub decode_row : (hint : List ℕ) → (k j rounds : ℕ) → List ℕ → List ℕ × ℕ
decode_row hint k j zero row = (row, 0)
decode_row hint k j (suc rounds) row =
    let place = get_or hint j 0 in
    if ltb k j && leb place (get_or hint (j - 1) 0)
    then (row, 1)
    else decode_row hint k (suc j) rounds (set row place 1)

-- What the loop on `i` leaves: the rows of h written so far with those not reached, `k`, and the code
-- that the function returned, or 0.
pub record Decoded : Type 0 where
  pub rows : List (List ℕ)
  pub upto : ℕ
  pub code : ℕ

abbrev pub put_row : List ℕ → Decoded → Decoded
put_row row d = record d { rows = row ∷ d.rows }

unfoldable pub decode_rows : (hint : List ℕ) → (i k : ℕ) → List (List ℕ) → Decoded
decode_rows hint i k [] = record { rows = []; upto = k; code = 0 }
decode_rows hint i k (old ∷ rows) =
    let zeros = replicate 256 0 in
    let limit = get_or hint (omega_const + i) 0 in
    let (row, code) = decode_row hint k k (limit - k) zeros in
    let rest = decode_rows hint (suc i) limit rows in
    if ltb limit k || ltb omega_const limit
    then record { rows = zeros ∷ rows; upto = k; code = 1 }
    else if not (code == 0)
    then record { rows = row ∷ rows; upto = k; code = 1 }
    else put_row row rest

-- `for (int j = k; j < OMEGA; j++)`: whether a byte is not zero.
unfoldable pub padding_code : (hint : List ℕ) → (j rounds : ℕ) → ℕ
padding_code hint j zero = 0
padding_code hint j (suc rounds) =
    if not (get_or hint j 0 == 0) then 1 else padding_code hint (suc j) rounds

unfoldable pub decode_hints : (hint : List ℕ) → (h : List (List ℕ)) → List (List ℕ) × ℕ
decode_hints hint h =
    let d = decode_rows hint 0 0 h in
    (d.rows, if not (d.code == 0) then 1 else padding_code hint d.upto (omega_const - d.upto))

unfoldable pub unpack_z : (polys : ℕ) → List ℕ → List (List ℕ)
unpack_z zero bs = []
unpack_z (suc polys) bs =
    poly_z_unpack (take poly_z_packed_bytes bs) ∷ unpack_z polys (drop poly_z_packed_bytes bs)

-- `c`, z, h, and the code that the function returns.
unfoldable pub unpack_sig_volatile :
    (h : List (List ℕ)) → (sig : List ℕ) → List ℕ × List (List ℕ) × List (List ℕ) × ℕ
unpack_sig_volatile h sig =
    let (h', code) = decode_hints (drop (ctilde_bytes + 7 * poly_z_packed_bytes) sig) h in
    (take ctilde_bytes sig, unpack_z 7 (drop ctilde_bytes sig), h', code)
