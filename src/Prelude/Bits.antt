-- ===== src/Prelude/Bits.antt =====
-- `|`, `&` and `^` of C at variables: the law for the lowest digit, and with it what the packing
-- code relies on: a low part joined to a shifted high part is their sum, a mask is a remainder.
use Prim.Native.Nat.{
  ℕ, zero, suc, ◌+◌, ◌-◌, ◌*◌, ◌/◌, ◌%◌, ◌^◌, ◌≤◌, ◌<◌, max, min, bit_or, bit_and, digits, bitwise,
  bit_or-bitwise, bit_and-bitwise,
}
use mathlib.Core.Path.{◌≡◌, refl, sym, ap, ◌∙◌}
use native.Mathlib.Omega.{arith}
use native.Mathlib.Nat.{mul_comm, div-div-eq-div-mul, pow-suc, div-add-mod, mod-lt}

-- The fuel of the digit recursion does not matter once it covers the first number.
digits_enough :
    (z : ℕ → ℕ) (f : ℕ → ℕ → ℕ) (n m a b : ℕ) → a ≤ n → a ≤ m → digits z f n a b ≡ digits z f m a b
digits_enough z f (suc n) zero (suc a) b p q = absurd (omega arith)
digits_enough z f zero (suc m) (suc a) b p q = absurd (omega arith)
digits_enough z f (suc n) (suc m) (suc a) b p q =
    rw (digits_enough z f n m (suc a / 2) (b / 2) (omega arith) (omega arith))
digits_enough z f (suc n) (suc m) zero b p q = refl
digits_enough z f (suc n) zero zero b p q = refl
digits_enough z f zero (suc m) zero b p q = refl
digits_enough z f zero zero a b p q = refl

pub bitwise_lowest :
    (z : ℕ → ℕ) (f : ℕ → ℕ → ℕ) (a b : ℕ)
    → bitwise z f (suc a) b ≡ bitwise z f (suc a / 2) (b / 2) * 2 + f (suc a % 2) (b % 2)
bitwise_lowest z f a b =
    omega (arith, digits_enough z f a (suc a / 2) (suc a / 2) (b / 2) (omega arith) (omega arith))

pub bit_or_lowest : (a b : ℕ) → bit_or a b ≡ bit_or (a / 2) (b / 2) * 2 + max (a % 2) (b % 2)
bit_or_lowest zero b = simp bit_or-bitwise (omega arith)
bit_or_lowest (suc a) b = simp bit_or-bitwise (bitwise_lowest (λ y. y) max a b)

pub bit_and_lowest : (a b : ℕ) → bit_and a b ≡ bit_and (a / 2) (b / 2) * 2 + min (a % 2) (b % 2)
bit_and_lowest zero b = simp bit_and-bitwise (omega arith)
bit_and_lowest (suc a) b = simp bit_and-bitwise (bitwise_lowest (λ y. 0) min a b)

pub zero-bit_or : (b : ℕ) → bit_or 0 b ≡ b
zero-bit_or b = bit_or-bitwise 0 b

half_double : (b p : ℕ) → b * (p * 2) / 2 ≡ b * p
half_double b p = omega arith

even_double : (b p : ℕ) → b * (p * 2) % 2 ≡ 0
even_double b p = omega arith

-- a | (b << k) for a below 2 ^ k.
pub bit_or-shifted : (k a b : ℕ) → a < 2 ^ k → bit_or a (b * 2 ^ k) ≡ a + b * 2 ^ k
bit_or-shifted zero zero b h = rw (zero-bit_or (b * 1)) (omega arith)
bit_or-shifted zero (suc a) b h = absurd (omega arith)
bit_or-shifted (suc k) a b h = rw (pow-suc 2 k) (
    bit_or_lowest a (b * (2 ^ k * 2))
    ∙ rw (half_double b (2 ^ k), even_double b (2 ^ k), bit_or-shifted k (a / 2) b (halved k a h))
        (omega arith))
  where
    halved : (k a : ℕ) → a < 2 ^ suc k → a / 2 < 2 ^ k
    halved k a h = omega (arith, pow-suc 2 k)

bit_or_comm_upto : (n a b : ℕ) → a + b ≤ n → bit_or a b ≡ bit_or b a
bit_or_comm_upto n zero zero h = refl
bit_or_comm_upto zero zero (suc b) h = absurd (omega arith)
bit_or_comm_upto zero (suc a) b h = absurd (omega arith)
bit_or_comm_upto (suc n) zero (suc b) h = omega (
  arith,
  bit_or_lowest 0 (suc b),
  bit_or_lowest (suc b) 0,
  bit_or_comm_upto n 0 (suc b / 2) (omega arith),
)
bit_or_comm_upto (suc n) (suc a) b h = omega (
  arith,
  bit_or_lowest (suc a) b,
  bit_or_lowest b (suc a),
  bit_or_comm_upto n (suc a / 2) (b / 2) (omega arith),
)

pub bit_or_comm : (a b : ℕ) → bit_or a b ≡ bit_or b a
bit_or_comm a b = bit_or_comm_upto (a + b) a b (omega arith)

-- (b << k) | a for a below 2 ^ k.
pub shifted-bit_or : (k a b : ℕ) → a < 2 ^ k → bit_or (b * 2 ^ k) a ≡ b * 2 ^ k + a
shifted-bit_or k a b h = bit_or_comm (b * 2 ^ k) a ∙ omega (arith, bit_or-shifted k a b h)

mod_double : (a p : ℕ) → 0 < p → a % (p * 2) ≡ a / 2 % p * 2 + a % 2
mod_double a p h = grind (arith, div-add-mod (a / 2) p, mod-lt)

pub two_pow_pos : (k : ℕ) → 0 < 2 ^ k
two_pow_pos zero = omega arith
two_pow_pos (suc k) = omega (arith, pow-suc 2 k, two_pow_pos k)

bit_and-zero_upto : (n a : ℕ) → a ≤ n → bit_and a 0 ≡ 0
bit_and-zero_upto n zero h = refl
bit_and-zero_upto zero (suc a) h = absurd (omega arith)
bit_and-zero_upto (suc n) (suc a) h =
    omega (arith, bit_and_lowest (suc a) 0, bit_and-zero_upto n (suc a / 2) (omega arith))

-- a & (2 ^ k - 1) is the remainder.
pub bit_and-ones : (k a : ℕ) → bit_and a (2 ^ k - 1) ≡ a % 2 ^ k
bit_and-ones zero a = omega (arith, bit_and-zero_upto a a (omega arith))
bit_and-ones (suc k) a = rw (pow-suc 2 k) (
    bit_and_lowest a (2 ^ k * 2 - 1)
    ∙ rw (half, odd, bit_and-ones k (a / 2), mod_double a (2 ^ k) (two_pow_pos k)) (omega arith))
  where
    half : (2 ^ k * 2 - 1) / 2 ≡ 2 ^ k - 1
    half = omega (arith, two_pow_pos k)

    odd : (2 ^ k * 2 - 1) % 2 ≡ 1
    odd = omega (arith, two_pow_pos k)

pub zero-bit_and : (b : ℕ) → bit_and 0 b ≡ 0
zero-bit_and b = bit_and-bitwise 0 b

bit_and_comm_upto : (n a b : ℕ) → a + b ≤ n → bit_and a b ≡ bit_and b a
bit_and_comm_upto n zero zero h = refl
bit_and_comm_upto zero zero (suc b) h = absurd (omega arith)
bit_and_comm_upto zero (suc a) b h = absurd (omega arith)
bit_and_comm_upto (suc n) zero (suc b) h =
    omega (arith, zero-bit_and (suc b), bit_and-zero_upto (suc b) (suc b) (omega arith))
bit_and_comm_upto (suc n) (suc a) b h = omega (
  arith,
  bit_and_lowest (suc a) b,
  bit_and_lowest b (suc a),
  bit_and_comm_upto n (suc a / 2) (b / 2) (omega arith),
)

pub bit_and_comm : (a b : ℕ) → bit_and a b ≡ bit_and b a
bit_and_comm a b = bit_and_comm_upto (a + b) a b (omega arith)

div_twice : (k x : ℕ) → x / (2 ^ k * 2) ≡ x / 2 / 2 ^ k
div_twice k x = rw (mul_comm (2 ^ k) 2) (sym (div-div-eq-div-mul x 2 (2 ^ k)))

half_or : (a b : ℕ) → bit_or a b / 2 ≡ bit_or (a / 2) (b / 2)
half_or a b = omega (arith, bit_or_lowest a b)

-- The bits of `a | b` above the k lowest.
pub bit_or-div : (k a b : ℕ) → bit_or a b / 2 ^ k ≡ bit_or (a / 2 ^ k) (b / 2 ^ k)
bit_or-div zero a b = rw (div_zero_bits (bit_or a b), div_zero_bits a, div_zero_bits b)
  where
    div_zero_bits : (x : ℕ) → x / 1 ≡ x
    div_zero_bits x = omega arith
bit_or-div (suc k) a b =
    rw (pow-suc 2 k, div_twice k (bit_or a b), div_twice k a, div_twice k b)
      (ap (λ (t : ℕ). t / 2 ^ k) (half_or a b) ∙ bit_or-div k (a / 2) (b / 2))

pub bit_and-zero : (a : ℕ) → bit_and a 0 ≡ 0
bit_and-zero a = bit_and-zero_upto a a (omega arith)

pub bit_or-zero : (a : ℕ) → bit_or a 0 ≡ a
bit_or-zero a = bit_or_comm a 0 ∙ zero-bit_or a
