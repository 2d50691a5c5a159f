-- ===== src/Rlp/Safety.antt =====
-- No input makes the parser of src/mldsa87/rlp_decode.c read outside its buffer.
use ledger_app_qrl_v.Prelude.{
  ℕ, ◌+◌, ◌-◌, ◌<◌, ◌≡◌, ◌≢◌, refl, arith, Bool, true, false, ◌&&◌, List, length, length-drop,
  get_elem?-some, Outcome, ok, reject, fault, ◌>>◌, reject_if, byte_at, >>=-ne-fault, ltb, leb,
  ◌==◌, if◌then◌else◌, Bool-cases, inl, inr,
}
use ledger_app_qrl_v.Rlp.{
  SizeT, long_length, short_string, long_item, short_list, item_of_prefix, read_item, short_header,
  long_header, parse_rlp_list_header,
}
use ledger_app_qrl_v.Rlp.Length.{read_length-ne-fault}

pub byte_at-ne-fault : (xs : List ℕ) (i : ℕ) → i < length xs → byte_at xs i ≢ fault
byte_at-ne-fault xs i h = let (x, e) = get_elem?-some xs i h in rw (e, byte_at) (λ p. cc)

-- After a test that may refuse, the rest may rely on its failure.
pub guarded :
    {A : Type 0} (b : Bool) (k : Outcome A) → (b ≡ false → k ≢ fault) → (reject_if b >> k) ≢ fault
guarded true k h = λ e. cc
guarded false k h = h refl

long_length-ne-fault :
    (s : SizeT) (input : List ℕ) (n : ℕ) → 0 < n → 0 < length input → long_length s input n ≢ fault
unfolding long_length
long_length-ne-fault s input n hn hi = guarded (ltb (length input - 1) n) _ λ fits.
    >>=-ne-fault (byte_at input 1) _ (byte_at-ne-fault input 1 (ground arith)) λ first e.
      guarded (first == 0) _
        λ nonzero. read_length-ne-fault s input n (rw (length-drop 1 input) (ground arith))

long_item-ne-fault :
    (s : SizeT) (input : List ℕ) (n : ℕ) → 0 < n → 0 < length input → long_item s input n ≢ fault
unfolding long_item
long_item-ne-fault s input n hn hi =
    >>=-ne-fault (long_length s input n) _ (long_length-ne-fault s input n hn hi) λ len e.
      guarded (ltb (length input - 1 - n) len) _ λ fits. guarded (ltb len 56) _ λ big. λ p. cc

short_string-ne-fault : (input : List ℕ) (n : ℕ) → 0 < length input → short_string input n ≢ fault
unfolding short_string
short_string-ne-fault input n hi = guarded (ltb (length input - 1) n) _ λ fits.
    >>=-ne-fault (if n == 1 then byte_at input 1 else ok 0x80) _ (next fits)
      λ b e. guarded (n == 1 && ltb b 0x80) _ λ canonical. λ p. cc
  where
    next : ltb (length input - 1) n ≡ false → (if n == 1 then byte_at input 1 else ok 0x80) ≢ fault
    next fits = elim (Bool-cases (n == 1)) [
      | inl e ↦ rw e (byte_at-ne-fault input 1 (ground arith))
      | inr e ↦ rw e (λ p. cc)
    ]

short_list-ne-fault : (input : List ℕ) (n : ℕ) → short_list input n ≢ fault
unfolding short_list
short_list-ne-fault input n = guarded (ltb (length input) (1 + n)) _ λ fits. λ p. cc

item_of_prefix-ne-fault :
    (s : SizeT) (input : List ℕ) (prefix : ℕ)
    → 0 < length input
    → item_of_prefix s input prefix ≢ fault
unfolding item_of_prefix
item_of_prefix-ne-fault s input prefix hi = ground (
  arith,
  short_string-ne-fault input (prefix - 0x80) hi,
  long_item-ne-fault s input (prefix - 0xb7),
  short_list-ne-fault input (prefix - 0xc0),
  long_item-ne-fault s input (prefix - 0xf7),
)

pub read_item-ne-fault : (s : SizeT) (input : List ℕ) → read_item s input ≢ fault
unfolding read_item
read_item-ne-fault s input = guarded (length input == 0) _ λ some_byte.
    >>=-ne-fault (byte_at input 0) _ (byte_at-ne-fault input 0 (ground arith))
      λ prefix e. item_of_prefix-ne-fault s input prefix (ground arith)

long_header-ne-fault :
    (s : SizeT) (input : List ℕ) (n : ℕ) → 0 < n → 0 < length input → long_header s input n ≢ fault
unfolding long_header
long_header-ne-fault s input n hn hi =
    >>=-ne-fault (long_length s input n) _ (long_length-ne-fault s input n hn hi) λ len e.
      guarded (ltb (length input - (1 + n)) len) _ λ fits. guarded (ltb len 56) _ λ big. λ p. cc

header_of_prefix-ne-fault :
    (s : SizeT) (input : List ℕ) (prefix : ℕ)
    → 0 < length input
    → (if leb 0xc0 prefix && leb prefix 0xf7
        then short_header input (prefix - 0xc0)
        else if leb 0xf8 prefix
        then long_header s input (prefix - 0xf7)
        else reject)
      ≢ fault
unfolding short_header
header_of_prefix-ne-fault s input prefix hi =
    ground (arith, long_header-ne-fault s input (prefix - 0xf7))

pub parse_rlp_list_header-ne-fault :
    (s : SizeT) (input : List ℕ) → parse_rlp_list_header s input ≢ fault
unfolding parse_rlp_list_header
parse_rlp_list_header-ne-fault s input = guarded (length input == 0) _ λ some_byte.
    >>=-ne-fault (byte_at input 0) _ (byte_at-ne-fault input 0 (ground arith))
      λ prefix e. header_of_prefix-ne-fault s input prefix (ground arith)
