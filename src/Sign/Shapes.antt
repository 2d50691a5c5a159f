-- ===== src/Sign/Shapes.antt =====
-- Vectors keep their number of polynomials, and polynomials their 256 coefficients: the routines of
-- src/mldsa87/sign.c.
use native.Mathlib.Nat.{suc-mul, div-mul-le_self}
use ledger_app_qrl_v.Prelude.{
  ℕ, zero, suc, ◌+◌, ◌-◌, ◌*◌, ◌/◌, ◌≤◌, ◌≡◌, ◌∙◌, ap, refl, arith, List, [], ◌∷◌, ◌++◌, All,
  length, map, zip_with, take, drop, length-map, length-append, length-take, length-drop, get_or,
}
use ledger_app_qrl_v.Word32.{add32, sub32, neg32, mul64}
use ledger_app_qrl_v.Reduce.{montgomery_reduce}
use ledger_app_qrl_v.Ntt.{
  zetas, ntt, ntt_blocks, ntt_layers, inv_ntt_to_mont, inv_ntt_blocks, inv_ntt_layers,
}

-- `n` polynomials.
abbrev pub IsVec : (n : ℕ) → List (List ℕ) → Type 0
IsVec n v = (length v ≡ n) × All (λ p. length p ≡ 256) v

pub length-zip_with :
    (f : ℕ → ℕ → ℕ) (n : ℕ) (xs ys : List ℕ)
    → length xs ≡ n
    → length ys ≡ n
    → length (zip_with f xs ys) ≡ n
length-zip_with f n [] ys hx hy = hx
length-zip_with f n (x ∷ xs) [] hx hy = absurd (omega arith)
length-zip_with f zero (x ∷ xs) (y ∷ ys) hx hy = absurd (omega arith)
length-zip_with f (suc n) (x ∷ xs) (y ∷ ys) hx hy =
    ap suc (length-zip_with f n xs ys (omega arith) (omega arith))

pub map-IsVec :
    (f : List ℕ → List ℕ) (n : ℕ) (v : List (List ℕ))
    → ((p : List ℕ) → length p ≡ 256 → length (f p) ≡ 256)
    → IsVec n v
    → IsVec n (map f v)
map-IsVec f n [] keep h = h
map-IsVec f zero (p ∷ v) keep h = absurd (omega arith)
map-IsVec f (suc n) (p ∷ v) keep h =
    let (l, rest) = map-IsVec f n v keep (omega (arith, h.0), h.1.1) in
    (ap suc l, (keep p h.1.0, rest))

pub zip_with-IsVec :
    (f : ℕ → ℕ → ℕ) (n : ℕ) (u v : List (List ℕ))
    → IsVec n u
    → IsVec n v
    → IsVec n (zip_with (zip_with f) u v)
zip_with-IsVec f n [] v h g = h
zip_with-IsVec f n (p ∷ u) [] h g = absurd (omega (arith, h.0, g.0))
zip_with-IsVec f zero (p ∷ u) (q ∷ v) h g = absurd (omega (arith, h.0))
zip_with-IsVec f (suc n) (p ∷ u) (q ∷ v) h g =
    let (l, rest) =
      zip_with-IsVec f n u v (omega (arith, h.0), h.1.1) (omega (arith, g.0), g.1.1) in
    (ap suc l, (length-zip_with f 256 p q h.1.0 g.1.0, rest))

-- A block has its two halves again.
length-halves :
    (f g : ℕ → ℕ → ℕ) (n : ℕ) (xs ys rest : List ℕ)
    → length xs ≡ n
    → length ys ≡ n
    → length (zip_with f xs ys ++ (zip_with g xs ys ++ rest)) ≡ n + n + length rest
length-halves f g n xs ys rest hx hy = omega (
  arith,
  length-append (zip_with f xs ys) (zip_with g xs ys ++ rest),
  length-append (zip_with g xs ys) rest,
  length-zip_with f n xs ys hx hy,
  length-zip_with g n xs ys hx hy,
)

length-ntt_blocks :
    (blocks count k : ℕ) (a : List ℕ)
    → blocks * (count + count) ≤ length a
    → length (ntt_blocks blocks count k a) ≡ length a
unfolding ntt_blocks
length-ntt_blocks zero count k a h = refl
length-ntt_blocks (suc blocks) count k a h =
    let room : count + count + blocks * (count + count) ≤ length a =
      omega (arith, h, suc-mul blocks (count + count)) in
    let low : length (take count a) ≡ count = omega (arith, length-take count a) in
    let high : length (take count (drop count a)) ≡ count =
      omega (arith, length-take count (drop count a), length-drop count a) in
    let rest = drop (count + count) a in
    let ih =
      length-ntt_blocks blocks count (suc k) rest (omega (arith, length-drop (count + count) a)) in
    length-halves add32 sub32 count (take count a) _ (ntt_blocks blocks count (suc k) rest) low
      (length-map (take count (drop count a)) _ ∙ high)
    ∙ omega (arith, ih, length-drop (count + count) a)

length-inv_ntt_blocks :
    (blocks count k : ℕ) (a : List ℕ)
    → blocks * (count + count) ≤ length a
    → length (inv_ntt_blocks blocks count k a) ≡ length a
unfolding inv_ntt_blocks
length-inv_ntt_blocks zero count k a h = refl
length-inv_ntt_blocks (suc blocks) count k a h =
    let room : count + count + blocks * (count + count) ≤ length a =
      omega (arith, h, suc-mul blocks (count + count)) in
    let low : length (take count a) ≡ count = omega (arith, length-take count a) in
    let high : length (take count (drop count a)) ≡ count =
      omega (arith, length-take count (drop count a), length-drop count a) in
    let rest = drop (count + count) a in
    let ih =
      length-inv_ntt_blocks blocks count (k - 1) rest
        (omega (arith, length-drop (count + count) a)) in
    length-append (zip_with add32 (take count a) (take count (drop count a))) _
    ∙ omega (
      arith,
      ih,
      length-drop (count + count) a,
      length-append
          (map (λ x. montgomery_reduce (mul64 (neg32 (get_or zetas (k - 1) 0)) x))
            (zip_with sub32 (take count a) (take count (drop count a))))
          (inv_ntt_blocks blocks count (k - 1) rest),
      length-map (zip_with sub32 (take count a) (take count (drop count a)))
          (λ x. montgomery_reduce (mul64 (neg32 (get_or zetas (k - 1) 0)) x)),
      length-zip_with add32 count (take count a) (take count (drop count a)) low high,
      length-zip_with sub32 count (take count a) (take count (drop count a)) low high,
    )

length-ntt_layers :
    (rounds count k : ℕ) (a : List ℕ) → length a ≡ 256 → length (ntt_layers rounds count k a) ≡ 256
unfolding ntt_layers
length-ntt_layers zero count k a h = h
length-ntt_layers (suc rounds) count k a h =
    length-ntt_layers rounds (count / 2) (k + 256 / (count + count)) _ (
      length-ntt_blocks (256 / (count + count)) count k a
        (omega (arith, h, div-mul-le_self 256 (count + count)))
      ∙ h)

length-inv_ntt_layers :
    (rounds count k : ℕ) (a : List ℕ)
    → length a ≡ 256
    → length (inv_ntt_layers rounds count k a) ≡ 256
unfolding inv_ntt_layers
length-inv_ntt_layers zero count k a h = h
length-inv_ntt_layers (suc rounds) count k a h =
    length-inv_ntt_layers rounds (count + count) (k - 256 / (count + count)) _ (
      length-inv_ntt_blocks (256 / (count + count)) count k a
        (omega (arith, h, div-mul-le_self 256 (count + count)))
      ∙ h)

pub length-ntt : (a : List ℕ) → length a ≡ 256 → length (ntt a) ≡ 256
unfolding ntt
length-ntt a h = length-ntt_layers 8 128 0 a h

pub length-inv_ntt_to_mont : (a : List ℕ) → length a ≡ 256 → length (inv_ntt_to_mont a) ≡ 256
unfolding inv_ntt_to_mont
length-inv_ntt_to_mont a h =
    length-map (inv_ntt_layers 8 1 256 a) _ ∙ length-inv_ntt_layers 8 1 256 a h
