-- ===== src/Ntt/Roots.antt =====
-- The table ZETAS of src/mldsa87/constant.c.
use ledger_app_qrl_v.Prelude.{
  ℕ, zero, suc, ◌+◌, ◌*◌, ◌/◌, ◌%◌, ◌^◌, ◌<◌, ◌≡◌, refl, get_or, Bool, true, ◌==◌, ==_iff,
  all_below, all_below_each,
}
use ledger_app_qrl_v.Reduce.{q_const}
use ledger_app_qrl_v.Reduce.Bounds.{residue}
use ledger_app_qrl_v.Ntt.{zetas}

-- `base ^ e` modulo Q.
pub power_mod : (base e : ℕ) → ℕ
power_mod base zero = 1
power_mod base (suc e) = base * power_mod base e % q_const

-- The lowest `bits` bits of `n` in the reverse order.
pub reversed : (bits n : ℕ) → ℕ
reversed zero n = 0
reversed (suc bits) n = n % 2 * 2 ^ bits + reversed bits (n / 2)

abbrev is_root : ℕ → Bool
is_root i =
    residue (get_or zetas (suc i) 0) == 2 ^ 32 * power_mod 1753 (reversed 8 (suc i)) % q_const

all_roots : all_below 255 is_root ≡ true
unfolding power_mod reversed
all_roots = refl

-- Behind the unused first entry, the table holds at each place the power of the 512th root of unity 1753
-- whose exponent is the place with its eight bits reversed, times 2 ^ 32, modulo Q.
pub zetas_lem :
    (i : ℕ)
    → i < 255
    → residue (get_or zetas (suc i) 0) ≡ 2 ^ 32 * power_mod 1753 (reversed 8 (suc i)) % q_const
zetas_lem i h =
    (==_iff (residue (get_or zetas (suc i) 0)) _).0 (all_below_each 255 is_root all_roots i h)
