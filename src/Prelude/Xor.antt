-- ===== src/Prelude/Xor.antt =====
-- Laws of `^`, exclusive or, from the law for its lowest digit.
use Prim.Native.Nat.{
  ℕ, zero, suc, ◌+◌, ◌*◌, ◌/◌, ◌%◌, ◌^◌, ◌≤◌, ◌<◌, bit_xor, differ, bit_xor-bitwise,
}
use mathlib.Core.Path.{◌≡◌, refl, ap, ◌∙◌}
use native.Mathlib.Omega.{arith}
use native.Mathlib.Nat.{pow-suc}
use ledger_app_qrl_v.Prelude.Bits.{bitwise_lowest}

differ_digits : (x y : ℕ) → x < 2 → y < 2 → differ x y ≡ (x + y) % 2
differ_digits zero y h h' = omega arith
differ_digits (suc zero) zero h h' = refl
differ_digits (suc zero) (suc zero) h h' = refl
differ_digits (suc zero) (suc (suc y)) h h' = absurd (omega arith)
differ_digits (suc (suc x)) y h h' = absurd (omega arith)

pub zero-bit_xor : (b : ℕ) → bit_xor 0 b ≡ b
zero-bit_xor b = bit_xor-bitwise 0 b

pub bit_xor_lowest : (a b : ℕ) → bit_xor a b ≡ bit_xor (a / 2) (b / 2) * 2 + (a + b) % 2
bit_xor_lowest zero b = simp bit_xor-bitwise (omega arith)
bit_xor_lowest (suc a) b = simp bit_xor-bitwise (
    bitwise_lowest (λ y. y) differ a b
    ∙ omega (arith, differ_digits (suc a % 2) (b % 2) (omega arith) (omega arith)))

half_xor : (a b : ℕ) → bit_xor a b / 2 ≡ bit_xor (a / 2) (b / 2)
half_xor a b = omega (arith, bit_xor_lowest a b)

odd_xor : (a b : ℕ) → bit_xor a b % 2 ≡ (a + b) % 2
odd_xor a b = omega (arith, bit_xor_lowest a b)

bit_xor-zero_upto : (n a : ℕ) → a ≤ n → bit_xor a 0 ≡ a
bit_xor-zero_upto n zero h = zero-bit_xor 0
bit_xor-zero_upto zero (suc a) h = absurd (omega arith)
bit_xor-zero_upto (suc n) (suc a) h =
    omega (arith, bit_xor_lowest (suc a) 0, bit_xor-zero_upto n (suc a / 2) (omega arith))

pub bit_xor-zero : (a : ℕ) → bit_xor a 0 ≡ a
bit_xor-zero a = bit_xor-zero_upto a a (omega arith)

assoc_upto : (n a b c : ℕ) → a + b + c ≤ n → bit_xor (bit_xor a b) c ≡ bit_xor a (bit_xor b c)
assoc_upto n zero b c h = rw (zero-bit_xor b, zero-bit_xor (bit_xor b c)) refl
assoc_upto zero (suc a) b c h = absurd (omega arith)
assoc_upto (suc n) (suc a) b c h = omega (
  arith,
  bit_xor_lowest (bit_xor (suc a) b) c,
  bit_xor_lowest (suc a) (bit_xor b c),
  ap (λ (t : ℕ). bit_xor t (c / 2)) (half_xor (suc a) b),
  ap (bit_xor (suc a / 2)) (half_xor b c),
  odd_xor (suc a) b,
  odd_xor b c,
  assoc_upto n (suc a / 2) (b / 2) (c / 2) (omega arith),
)

pub bit_xor_assoc : (a b c : ℕ) → bit_xor (bit_xor a b) c ≡ bit_xor a (bit_xor b c)
bit_xor_assoc a b c = assoc_upto (a + b + c) a b c (omega arith)

doubled : (a b : ℕ) → bit_xor (a * 2) (b * 2) ≡ bit_xor a b * 2
doubled a b = bit_xor_lowest (a * 2) (b * 2) ∙ rw (half a, half b) (omega arith)
  where
    half : (a : ℕ) → a * 2 / 2 ≡ a
    half a = omega arith

-- (a << k) ^ (b << k).
pub bit_xor-shifted : (k a b : ℕ) → bit_xor (a * 2 ^ k) (b * 2 ^ k) ≡ bit_xor a b * 2 ^ k
bit_xor-shifted zero a b = rw (once a, once b) (omega arith)
  where
    once : (a : ℕ) → a * 2 ^ 0 ≡ a
    once a = omega arith
bit_xor-shifted (suc k) a b =
    rw
      (
        pow-suc 2 k,
        regroup a (2 ^ k),
        regroup b (2 ^ k),
        doubled (a * 2 ^ k) (b * 2 ^ k),
        bit_xor-shifted k a b,
      )
      (omega arith)
  where
    regroup : (a p : ℕ) → a * (p * 2) ≡ a * p * 2
    regroup a p = omega arith
