-- ===== src/Address/Paths.antt =====
-- What `is_valid_zond_bip32_path` of src/address_format.c accepts.
use native.Mathlib.Nat.{pow-suc, div-div-eq-div-mul}
use ledger_app_qrl_v.Prelude.{
  ℕ, zero, suc, ◌+◌, ◌*◌, ◌/◌, ◌%◌, ◌^◌, ◌≤◌, ◌<◌, ◌≡◌, ◌↔◌, ap, ◌∙◌, arith, bit_and,
  bit_and_lowest, bit_and-ones, ltb, All, not, ◌||◌, if◌then◌else◌, true, false, List, [], ◌∷◌,
  get_or, ◌==◌,
}
use ledger_app_qrl_v.Address.{is_valid_zond_bip32_path}

-- m/44'/238'/account'/change/index, of five 32-bit numbers; a hardened one has its top bit set.
pub IsZondPath : List ℕ → ℕ → Type 0
IsZondPath path len =
    (len ≡ 5)
    × (get_or path 0 0 ≡ 2 ^ 31 + 44)
    × (get_or path 1 0 ≡ 2 ^ 31 + 238)
    × (2 ^ 31 ≤ get_or path 2 0)
    × (get_or path 3 0 < 2 ^ 31)
    × (get_or path 4 0 < 2 ^ 31)

-- A mask of one bit.
bit_and-power : (k a : ℕ) → bit_and a (2 ^ k) ≡ a / 2 ^ k % 2 * 2 ^ k
bit_and-power zero a = bit_and-ones 1 a ∙ omega arith
bit_and-power (suc k) a = rw (pow-suc 2 k) (
    bit_and_lowest a (2 ^ k * 2)
    ∙ omega (
      arith,
      ap (bit_and (a / 2)) (half (2 ^ k)),
      bit_and-power k (a / 2),
      ap (λ (t : ℕ). t % 2 * 2 ^ k)
          (div-div-eq-div-mul a 2 (2 ^ k) ∙ ap (λ (t : ℕ). a / t) (swapped (2 ^ k))),
    ))
  where
    half : (p : ℕ) → p * 2 / 2 ≡ p
    half p = omega arith

    swapped : (p : ℕ) → 2 * p ≡ p * 2
    swapped p = omega arith

is_hardened : (a : ℕ) → a < 2 ^ 32 → (bit_and a 0x80000000 == 0) ≡ ltb a 0x80000000
is_hardened a h = ground (arith, bit_and-power 31 a, h)

word_or_zero : (path : List ℕ) (i : ℕ) → All (λ x. x < 2 ^ 32) path → get_or path i 0 < 2 ^ 32
word_or_zero [] i h = omega arith
word_or_zero (x ∷ xs) zero h = h.0
word_or_zero (x ∷ xs) (suc i) h = word_or_zero xs i h.1

-- Of all paths of 32-bit numbers, exactly those of that form are valid.
pub is_valid_zond_bip32_path_lem :
    (path : List ℕ) (len : ℕ)
    → All (λ x. x < 2 ^ 32) path
    → (is_valid_zond_bip32_path path len ≡ true) ↔ IsZondPath path len
unfolding is_valid_zond_bip32_path IsZondPath
is_valid_zond_bip32_path_lem path len h =
    rw
      (
        is_hardened _ (word_or_zero path 2 h),
        is_hardened _ (word_or_zero path 3 h),
        is_hardened _ (word_or_zero path 4 h),
      )
      (checked len (get_or path 0 0) (get_or path 1 0) (get_or path 2 0) (get_or path 3 0)
        (get_or path 4 0))
  where
    checked :
        (len a b c d e : ℕ)
        → ((if not (len == 5)
              then false
              else if not (a == 0x8000002C)
                  || (not (b == 0x800000EE)
                      || (ltb c 0x80000000 || (not (ltb d 0x80000000) || not (ltb e 0x80000000))))
              then false
              else true)
            ≡ true)
          ↔ ((len ≡ 5)
              × (a ≡ 2 ^ 31 + 44)
              × (b ≡ 2 ^ 31 + 238)
              × (2 ^ 31 ≤ c)
              × (d < 2 ^ 31)
              × (e < 2 ^ 31))
    checked len a b c d e = ground arith
