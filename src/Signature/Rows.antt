-- ===== src/Signature/Rows.antt =====
-- A row of hints and the places that are set in it.
use ledger_app_qrl_v.Prelude.{
  ℕ, zero, suc, ◌+◌, ◌≤◌, ◌<◌, ◌≡◌, ◌∙◌, ap, sym, refl, arith, List, [], ◌∷◌, ◌++◌, All, length,
  set, drop, replicate,
}

-- The places, counted from `j`, that are not zero.
unfoldable pub positions : (j : ℕ) → List ℕ → List ℕ
positions j [] = []
positions j (zero ∷ cs) = positions (suc j) cs
positions j (suc c ∷ cs) = j ∷ positions (suc j) cs

abbrev pub IsZero : ℕ → Type 0
IsZero c = c ≡ 0

abbrev pub IsBit : ℕ → Type 0
IsBit c = c < 2

-- Places in ascending order, from `bound` on and below 256.
abbrev pub IsAscending : (bound : ℕ) → List ℕ → Type 0
IsAscending bound [] = Unit {0}
IsAscending bound (b ∷ bs) = (bound ≤ b) × (b < 256) × IsAscending (suc b) bs

pub positions-zeros : (j : ℕ) (cs : List ℕ) → All IsZero cs → positions j cs ≡ []
unfolding positions
positions-zeros j [] h = refl
positions-zeros j (zero ∷ cs) h = positions-zeros (suc j) cs h.1
positions-zeros j (suc c ∷ cs) h = absurd (omega arith)

-- A place set behind all others.
pub positions-set :
    (j i : ℕ) (cs : List ℕ)
    → i < length cs
    → All IsZero (drop i cs)
    → positions j (set cs i 1) ≡ positions j cs ++ (j + i) ∷ []
unfolding positions
positions-set j i [] l h = absurd (omega arith)
positions-set j zero (zero ∷ cs) l h =
    rw (positions-zeros (suc j) cs h.1) (ap (λ (t : ℕ). t ∷ []) (omega arith))
positions-set j zero (suc c ∷ cs) l h = absurd (omega arith)
positions-set j (suc i) (zero ∷ cs) l h =
    positions-set (suc j) i cs (omega arith) h
    ∙ ap (λ (t : ℕ). positions (suc j) cs ++ t ∷ []) (omega arith)
positions-set j (suc i) (suc c ∷ cs) l h =
    ap (λ t. j ∷ t)
      (positions-set (suc j) i cs (omega arith) h
        ∙ ap (λ (t : ℕ). positions (suc j) cs ++ t ∷ []) (omega arith))

pub All-replicate-IsZero : (n : ℕ) → All IsZero (replicate n 0)
All-replicate-IsZero zero = tt
All-replicate-IsZero (suc n) = (refl, All-replicate-IsZero n)

pub All-drop_further :
    (i j : ℕ) (cs : List ℕ) → i ≤ j → All IsZero (drop i cs) → All IsZero (drop j cs)
All-drop_further zero zero cs l h = h
All-drop_further zero (suc j) [] l h = tt
All-drop_further zero (suc j) (c ∷ cs) l h = All-drop_further zero j cs (omega arith) h.1
All-drop_further (suc i) zero cs l h = absurd (omega arith)
All-drop_further (suc i) (suc j) [] l h = tt
All-drop_further (suc i) (suc j) (c ∷ cs) l h = All-drop_further i j cs (omega arith) h

pub drop-set : (i : ℕ) (cs : List ℕ) (v : ℕ) → drop (suc i) (set cs i v) ≡ drop (suc i) cs
drop-set i [] v = refl
drop-set zero (c ∷ cs) v = refl
drop-set (suc i) (c ∷ cs) v = drop-set i cs v

pub set-IsBit : (i : ℕ) (cs : List ℕ) → All IsBit cs → All IsBit (set cs i 1)
set-IsBit i [] h = tt
set-IsBit zero (c ∷ cs) h = (omega arith, h.1)
set-IsBit (suc i) (c ∷ cs) h = (h.0, set-IsBit i cs h.1)

-- The places lie from `j` on, in ascending order.
pub positions-IsAscending :
    (j : ℕ) (cs : List ℕ) → j + length cs ≤ 256 → IsAscending j (positions j cs)
unfolding positions
positions-IsAscending j [] h = tt
positions-IsAscending j (zero ∷ cs) h =
    IsAscending-further j (suc j) (positions (suc j) cs) (omega arith)
      (positions-IsAscending (suc j) cs (omega arith))
  where
    IsAscending-further : (a b : ℕ) (ps : List ℕ) → a ≤ b → IsAscending b ps → IsAscending a ps
    IsAscending-further a b [] l h = tt
    IsAscending-further a b (p ∷ ps) l h = (omega arith, h.1, h.2)
positions-IsAscending j (suc c ∷ cs) h =
    (omega arith, omega arith, positions-IsAscending (suc j) cs (omega arith))

-- The first place is not before `j`.
positions_head : (j : ℕ) (cs : List ℕ) (p : ℕ) (ps : List ℕ) → positions j cs ≡ p ∷ ps → j ≤ p
unfolding positions
positions_head j [] p ps e = absurd (nil-ne-cons e)
  where
    nil-ne-cons : {p : ℕ} {ps : List ℕ} → ◌≡◌ {A = List ℕ} [] (p ∷ ps) → ⊥
    nil-ne-cons e = cc
positions_head j (zero ∷ cs) p ps e = omega (arith, positions_head (suc j) cs p ps e)
positions_head j (suc c ∷ cs) p ps e = omega (arith, ap (λ ps. head_or ps j) e)
  where
    head_or : List ℕ → ℕ → ℕ
    head_or [] d = d
    head_or (p ∷ ps) d = p

tail_of : List ℕ → List ℕ
tail_of [] = []
tail_of (p ∷ ps) = ps

-- Rows of bits of one length are equal when their places are.
pub positions_inj :
    (j : ℕ) (xs ys : List ℕ)
    → length xs ≡ length ys
    → All IsBit xs
    → All IsBit ys
    → positions j xs ≡ positions j ys
    → xs ≡ ys
unfolding positions tail_of
positions_inj j [] [] l hx hy e = refl
positions_inj j [] (y ∷ ys) l hx hy e = absurd (omega arith)
positions_inj j (x ∷ xs) [] l hx hy e = absurd (omega arith)
positions_inj j (zero ∷ xs) (zero ∷ ys) l hx hy e =
    ap (λ t. 0 ∷ t) (positions_inj (suc j) xs ys (omega arith) hx.1 hy.1 e)
positions_inj j (suc x ∷ xs) (suc y ∷ ys) l hx hy e =
    let first : suc x ≡ suc y = omega arith in
    rw first
      (ap (λ t. suc y ∷ t) (positions_inj (suc j) xs ys (omega arith) hx.1 hy.1 (ap tail_of e)))
positions_inj j (zero ∷ xs) (suc y ∷ ys) l hx hy e =
    absurd (omega (arith, positions_head (suc j) xs j (positions (suc j) ys) e))
positions_inj j (suc x ∷ xs) (zero ∷ ys) l hx hy e =
    absurd (omega (arith, positions_head (suc j) ys j (positions (suc j) xs) (sym e)))
