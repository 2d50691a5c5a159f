-- ===== src/TxFormat/Carries.antt =====
-- `multiply_uint8_arrays` of src/ui/tx_format.c: the carries.
use native.Mathlib.Nat.{pow-suc, div-add-mod}
use ledger_app_qrl_v.Prelude.{
  ℕ, zero, suc, ◌+◌, ◌-◌, ◌*◌, ◌/◌, ◌%◌, ◌^◌, ◌≤◌, ◌<◌, ◌≡◌, ◌≢◌, refl, sym, ap, ◌∙◌, arith, List,
  length, length-set, get_or, set, ◌==◌, ==_iff, Bool-cases, inl, inr, value_of, bit_and,
  bit_and-ones,
}
use ledger_app_qrl_v.TxFormat.Accum.{get_or-set_self, get_or-set_ne, value_of-set}
use ledger_app_qrl_v.TxFormat.{add_at, carry}

-- The sum is kept, every limb but the first is a byte.
pub record IsCarried (i : ℕ) (accum accum' : List ℕ) : Type 0 where
  pub keeps : value_of accum' ≡ value_of accum
  pub same_length : length accum' ≡ length accum
  pub bytes : (p : ℕ) → i < p → get_or accum' p 0 < 256

-- One step of the loop: what is above a byte goes to the limb in front.
carry_one : (i : ℕ) → List ℕ → List ℕ
carry_one i accum =
    let accum' = add_at accum i (get_or accum (suc i) 0 / 2 ^ 8) in
    set accum' (suc i) (bit_and (get_or accum' (suc i) 0) 0xff)

pair_total : (v p : ℕ) → v / 256 * (p * 256) + v % 256 * p ≡ v * p
pair_total v p = omega (arith, ap (λ (k : ℕ). k * p) (div-add-mod v 256))

one_apart : (i : ℕ) → i ≢ suc i
one_apart i e = omega (arith, e)

-- The step without the wrap-around and the mask.
carry_one_plain :
    (i : ℕ) (accum : List ℕ)
    → get_or accum i 0 + get_or accum (suc i) 0 / 256 < 2 ^ 32
    → carry_one i accum
      ≡ set
          (set accum i (get_or accum i 0 + get_or accum (suc i) 0 / 256))
          (suc i)
          (get_or accum (suc i) 0 % 256)
unfolding carry_one add_at
carry_one_plain i accum h =
    rw (kept, get_or-set_ne accum i (suc i) _ (one_apart i), bit_and-ones 8) refl
  where
    kept :
        (get_or accum i 0 + get_or accum (suc i) 0 / 256) % 2 ^ 32
        ≡ get_or accum i 0 + get_or accum (suc i) 0 / 256
    kept = omega (arith, h)

value_of-set_known :
    (xs : List ℕ) (p v n w : ℕ)
    → length xs ≡ n
    → get_or xs p 0 ≡ w
    → p < n
    → value_of (set xs p v) + w * 256 ^ (n - 1 - p) ≡ value_of xs + v * 256 ^ (n - 1 - p)
value_of-set_known xs p v n w len old h =
    rw (sym len, sym old) (value_of-set xs p v (omega (arith, len, h)))

value_of-carry_one :
    (i : ℕ) (accum : List ℕ)
    → suc i < length accum
    → get_or accum i 0 + get_or accum (suc i) 0 / 256 < 2 ^ 32
    → value_of (carry_one i accum) ≡ value_of accum
value_of-carry_one i accum h fits = rw (carry_one_plain i accum fits) (
    omega (
      arith,
      value_of-set accum i front (omega (arith, h)),
      second,
      scaled,
      pair_total v (256 ^ (length accum - 1 - suc i)),
    ))
  where
    v : ℕ
    v = get_or accum (suc i) 0

    front : ℕ
    front = get_or accum i 0 + get_or accum (suc i) 0 / 256

    place : length accum - 1 - i ≡ suc (length accum - 1 - suc i)
    place = omega (arith, h)

    scaled :
        front * 256 ^ (length accum - 1 - i)
        ≡ get_or accum i 0 * 256 ^ (length accum - 1 - i)
          + v / 256 * (256 ^ (length accum - 1 - suc i) * 256)
    scaled = rw (place, pow-suc 256 (length accum - 1 - suc i)) (omega arith)

    second :
        value_of (set (set accum i front) (suc i) (v % 256)) + v * 256 ^ (length accum - 1 - suc i)
        ≡ value_of (set accum i front) + v % 256 * 256 ^ (length accum - 1 - suc i)
    second =
        value_of-set_known (set accum i front) (suc i) (v % 256) (length accum) v
          (length-set accum i front) (get_or-set_ne accum i (suc i) front (one_apart i)) h

get_or-carry_one :
    (i : ℕ) (accum : List ℕ)
    → suc i < length accum
    → get_or accum i 0 + get_or accum (suc i) 0 / 256 < 2 ^ 32
    → (get_or (carry_one i accum) i 0 ≡ get_or accum i 0 + get_or accum (suc i) 0 / 256)
      × (get_or (carry_one i accum) (suc i) 0 ≡ get_or accum (suc i) 0 % 256)
      × ((p : ℕ) → i ≢ p → suc i ≢ p → get_or (carry_one i accum) p 0 ≡ get_or accum p 0)
get_or-carry_one i accum h fits = rw (carry_one_plain i accum fits) (
  get_or-set_ne _ (suc i) i _ (λ e. one_apart i (sym e))
      ∙ get_or-set_self accum i _ (omega (arith, h)),
  get_or-set_self (set accum i front) (suc i) _ (omega (arith, length-set accum i front, h)),
  λ p ne ne'. get_or-set_ne (set accum i front) (suc i) p _ ne' ∙ get_or-set_ne accum i p front ne,
)
  where
    front : ℕ
    front = get_or accum i 0 + get_or accum (suc i) 0 / 256

-- Limbs up to `k`, with the carries run down to place `i`, where the sum does not overflow.
pub record IsRunning (k i : ℕ) (accum : List ℕ) : Type 0 where
  pub inside : i < length accum
  pub top : (p : ℕ) → p ≤ i → get_or accum p 0 < k + 2 ^ 24
  pub low : (p : ℕ) → p < i → get_or accum p 0 ≤ k
  pub bytes : (p : ℕ) → i < p → get_or accum p 0 < 256

module _ (k i : ℕ) (accum : List ℕ) (run : IsRunning k (suc i) accum)
    (fits : k + 2 ^ 24 < 2 ^ 32) where
  room : get_or accum i 0 + get_or accum (suc i) 0 / 256 < 2 ^ 32
  room = omega (arith, run.low i (omega arith), run.top (suc i) (omega arith), fits)

  length-carry_one : length (carry_one i accum) ≡ length accum
  length-carry_one = rw (carry_one_plain i accum room, length-set) (length-set accum i _)

  carry_one-IsRunning : IsRunning k i (carry_one i accum)
  carry_one-IsRunning =
      let (at_i, at_next, elsewhere) = get_or-carry_one i accum run.inside room in
      record {
        inside = omega (arith, length-carry_one, run.inside);
        top = λ p h. elim (Bool-cases (p == i)) [
          | inl e ↦
              rw ((==_iff p i).0 e, at_i)
                (omega (arith, run.low i (omega arith), run.top (suc i) (omega arith), fits))
          | inr n ↦ omega (
            arith,
            run.low p (omega (arith, h)),
            elsewhere p (λ e. ground (arith, n, e)) (λ e. omega (arith, e, h)),
          )
        ];
        low = λ p h. omega (
          arith,
          run.low p (omega (arith, h)),
          elsewhere p (λ e. omega (arith, e, h)) (λ e. omega (arith, e, h)),
        );
        bytes = λ p h. elim (Bool-cases (p == suc i)) [
          | inl e ↦ rw ((==_iff p (suc i)).0 e, at_next) (omega arith)
          | inr n ↦
              let ne : suc i ≢ p = (λ e. ground (arith, n, e)) in
              omega (
                arith,
                run.bytes p (ground (arith, n, h)),
                elsewhere p (λ e. omega (arith, e, h)) ne,
              )
        ];
      }

pub carry_lem :
    (k i : ℕ) (accum : List ℕ)
    → IsRunning k i accum
    → k + 2 ^ 24 < 2 ^ 32
    → IsCarried 0 accum (carry i accum)
unfolding carry carry_one
carry_lem k zero accum run fits = record { keeps = refl; same_length = refl; bytes = run.bytes }
carry_lem k (suc i) accum run fits =
    let rest = carry_lem k i (carry_one i accum) (carry_one-IsRunning k i accum run fits) fits in
    record {
      keeps = rest.keeps ∙ value_of-carry_one i accum run.inside (room k i accum run fits);
      same_length = rest.same_length ∙ length-carry_one k i accum run fits;
      bytes = rest.bytes;
    }
