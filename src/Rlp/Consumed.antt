-- ===== src/Rlp/Consumed.antt =====
-- The `int` that parse_rlp_item of src/mldsa87/rlp_decode.c returns.
use ledger_app_qrl_v.Prelude.{
  ℕ, ◌+◌, ◌%◌, ◌^◌, ◌≤◌, ◌<◌, ◌≡◌, ◌≢◌, arith, List, length, ok, fault, >>=-eq-ok, >>=-ne-fault,
  leb,
}
use ledger_app_qrl_v.Rlp.{SizeT, Item, read_item, as_int, parse_rlp_item}
use ledger_app_qrl_v.Rlp.Items.{IsInside, read_item-IsInside}
use ledger_app_qrl_v.Rlp.Safety.{guarded, read_item-ne-fault}

-- A count below 2 ^ 31 is returned as it is.
as_int_small : (it : Item) → it.consumed < 2 ^ 31 → as_int it ≡ ok it
unfolding as_int
as_int_small it h = ground arith

pub parse_rlp_item-read :
    (s : SizeT) (input : List ℕ) (it : Item)
    → read_item s input ≡ ok it
    → it.consumed < 2 ^ 31
    → parse_rlp_item s input ≡ ok it
unfolding parse_rlp_item
parse_rlp_item-read s input it e h = rw e (as_int_small it h)

-- What is returned of the item that was read.
pub record IsReturned (full it : Item) : Type 0 where
  pub same_start : it.start ≡ full.start
  pub same_len : it.len ≡ full.len
  pub low : it.consumed ≡ full.consumed % 2 ^ 32

as_int-IsReturned : (full it : Item) → as_int full ≡ ok it → IsReturned full it
unfolding as_int
as_int-IsReturned full it h = ground arith

pub parse_rlp_item_reads :
    (s : SizeT) (input : List ℕ) (it : Item)
    → parse_rlp_item s input ≡ ok it
    → (full : Item) × (read_item s input ≡ ok full) × IsReturned full it
unfolding parse_rlp_item
parse_rlp_item_reads s input it h =
    let (full, e, r) = >>=-eq-ok (read_item s input) _ h in (full, e, as_int-IsReturned full it r)

pub parse_rlp_item-ne-fault : (s : SizeT) (input : List ℕ) → parse_rlp_item s input ≢ fault
unfolding parse_rlp_item as_int
parse_rlp_item-ne-fault s input =
    >>=-ne-fault (read_item s input) _ (read_item-ne-fault s input)
      λ it e. guarded (leb (2 ^ 31) (it.consumed % 2 ^ 32)) _ λ small. λ p. cc

-- The content of an accepted item lies in the buffer.
pub parse_rlp_item_within :
    (s : SizeT) (input : List ℕ) (it : Item)
    → parse_rlp_item s input ≡ ok it
    → it.start + it.len ≤ length input
parse_rlp_item_within s input it h =
    let (full, e, r) = parse_rlp_item_reads s input it h in
    let inside = read_item-IsInside s input full e in
    omega (arith, r.same_start, r.same_len, inside.ends, inside.within)

-- In a buffer of less than 2 ^ 31 bytes, an accepted item lies inside, parsing goes on where its
-- content ends, and at least one byte is consumed.
pub parse_rlp_item-IsInside :
    (s : SizeT) (input : List ℕ) (it : Item)
    → length input < 2 ^ 31
    → parse_rlp_item s input ≡ ok it
    → IsInside input it
parse_rlp_item-IsInside s input it short h =
    let (full, e, r) = parse_rlp_item_reads s input it h in
    let inside = read_item-IsInside s input full e in
    record {
      ends = omega (arith, r.same_start, r.same_len, r.low, inside.ends, inside.within);
      within = omega (arith, r.low, inside.within);
      advances = omega (arith, r.low, inside.within, inside.advances);
    }
