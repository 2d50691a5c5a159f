-- ===== src/TxFormat/DivMod.antt =====
-- `divide_by_ten` divides: src/ui/tx_format.c, the loop of `uint8_array_to_decimal`.
use native.Mathlib.Nat.{pow-suc, div-add-mod, one-le-pow}
use ledger_app_qrl_v.Prelude.{
  ℕ, suc, ◌+◌, ◌*◌, ◌/◌, ◌%◌, ◌^◌, ◌<◌, ◌≡◌, refl, ap, ◌∙◌, arith, shifted-bit_or, true, false,
  List, [], ◌∷◌, length, ◌==◌, All, IsByte, value_from, value_of, Bool-cases, inl, inr,
}
use ledger_app_qrl_v.TxFormat.{divide_by_ten, all_zero}

-- The place value of what stands in front.
pub value_from-linear :
    (acc : ℕ) (bs : List ℕ) → value_from acc bs ≡ acc * 256 ^ length bs + value_of bs
unfolding value_from value_of
value_from-linear acc [] = omega arith
value_from-linear acc (b ∷ bs) =
    value_from-linear (acc * 256 + b) bs
    ∙ rw (pow-suc 256 (length bs), value_from-linear (0 * 256 + b) bs)
        (regroup acc b (256 ^ length bs) (value_of bs))
  where
    regroup : (acc b p v : ℕ) → (acc * 256 + b) * p + v ≡ acc * (p * 256) + ((0 * 256 + b) * p + v)
    regroup acc b p v = omega arith

-- One pass: the quotient takes the digits' place, and its bytes stay bytes.
pub record IsDivided (r : ℕ) (ts qs : List ℕ) (r' : ℕ) : Type 0 where
  pub divides : value_from r ts ≡ value_of qs * 10 + r'
  pub small : r' < 10
  pub bytes : All IsByte qs
  pub same_length : length qs ≡ length ts

pub value_of-cons : (t : ℕ) (ts : List ℕ) → value_of (t ∷ ts) ≡ t * 256 ^ length ts + value_of ts
value_of-cons t ts = step t ts ∙ value_from-linear t ts
  where
    step : (t : ℕ) (ts : List ℕ) → value_of (t ∷ ts) ≡ value_from t ts
    step t ts = unfold value_of value_from in ap (λ k. value_from k ts) (omega arith)

scaled_division : (v p : ℕ) → v * p ≡ v / 10 * p * 10 + v % 10 * p
scaled_division v p = omega (arith, ap (λ (k : ℕ). k * p) (div-add-mod v 10))

pass_step :
    (r t : ℕ) (ts qs : List ℕ) (r' : ℕ)
    → r < 10
    → t < 256
    → IsDivided ((r * 256 + t) % 10) ts qs r'
    → IsDivided r (t ∷ ts) (((r * 256 + t) / 10 % 256) ∷ qs) r'
pass_step r t ts qs r' h ht d = record {
  divides = divides;
  small = d.small;
  bytes = (omega arith, d.bytes);
  same_length = ap suc d.same_length;
}
  where
    v : ℕ
    v = r * 256 + t

    kept : (r * 256 + t) / 10 % 256 ≡ (r * 256 + t) / 10
    kept = omega arith

    front : value_from r (t ∷ ts) ≡ (r * 256 + t) * 256 ^ length ts + value_of ts
    front = unfold value_from in value_from-linear (r * 256 + t) ts

    divides : value_from r (t ∷ ts) ≡ value_of (((r * 256 + t) / 10 % 256) ∷ qs) * 10 + r'
    divides =
        rw (front, value_of-cons, kept, d.same_length)
          (omega (
            arith,
            scaled_division (r * 256 + t) (256 ^ length ts),
            value_from-linear ((r * 256 + t) % 10) ts,
            d.divides,
          ))

pub divide_by_ten_lem :
    (r : ℕ) (ts : List ℕ)
    → r < 10
    → All IsByte ts
    → IsDivided r ts (divide_by_ten r ts).0 (divide_by_ten r ts).1
unfolding divide_by_ten
divide_by_ten_lem r [] h hb = record {
  divides = unfold value_from value_of in omega arith;
  small = h;
  bytes = tt;
  same_length = refl;
}
divide_by_ten_lem r (t ∷ ts) h hb =
    rw (shifted-bit_or 8 t r hb.0)
      (pass_step r t ts _ _ h hb.0 (divide_by_ten_lem ((r * 256 + t) % 10) ts (omega arith) hb.1))

pub all_zero_value : (ts : List ℕ) → all_zero ts ≡ true → value_of ts ≡ 0
unfolding all_zero
all_zero_value [] e = unfold value_of value_from in refl
all_zero_value (t ∷ ts) e =
    let z : t ≡ 0 = ground arith in
    let zs : all_zero ts ≡ true = ground arith in
    rw (value_of-cons, z) (omega (arith, all_zero_value ts zs))

positive_product : (t p : ℕ) → 0 < t → 0 < p → 0 < t * p
positive_product t p h q = grind arith

pub not-all_zero_value : (ts : List ℕ) → all_zero ts ≡ false → 0 < value_of ts
unfolding all_zero
not-all_zero_value [] e = cc
not-all_zero_value (t ∷ ts) e = rw value_of-cons (elim (Bool-cases (t == 0)) [
  | inl z ↦ omega (arith, not-all_zero_value ts (ground arith))
  | inr n ↦
      let least =
        positive_product t (256 ^ length ts) (ground arith)
          (one-le-pow (length ts) 256 (omega arith)) in
      omega (arith, least)
])
