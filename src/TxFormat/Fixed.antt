-- ===== src/TxFormat/Fixed.antt =====
-- `format_with_decimals` of src/ui/tx_format.c: the point is set `decimals` digits from the end, and
-- zeros behind it, and the point itself if nothing is left behind it, are dropped.
use mathlib.Core.List.{append_assoc}
use native.Mathlib.Nat.{add-suc, suc-add, add-zero}
use ledger_app_qrl_v.Prelude.{
  ℕ, zero, suc, ◌+◌, ◌≤◌, ◌<◌, ◌≡◌, ◌≢◌, refl, sym, ap, ◌∙◌, arith, List, [], ◌∷◌, ◌++◌, length,
  length-append, length-replicate, get_or, take, take-length_append, replicate, ◌==◌, Bool-cases,
  inl, inr, ==_iff, All,
}
use ledger_app_qrl_v.TxFormat.Digits.{IsDigit}
use ledger_app_qrl_v.TxFormat.{strip_zeros, strip_point}

-- Text that does not end in a zero or a point.
pub data EndsWell : List ℕ → Type 0 where
  nothing : EndsWell []
  digit : (front : List ℕ) (c : ℕ) → c ≢ b'0' → c ≢ b'.' → EndsWell (front ++ (c ∷ []))

-- Every text is one that does not end in a zero, with zeros behind it.
pub record Split (text : List ℕ) : Type 0 where
  pub kept : List ℕ
  pub zeros : ℕ
  pub whole : text ≡ kept ++ replicate zeros b'0'
  pub ends : EndsWell kept

Split-front :
    (x : ℕ) (text kept : List ℕ) (n : ℕ)
    → text ≡ kept ++ replicate n b'0'
    → IsDigit x
    → EndsWell kept
    → Split (x ∷ text)
Split-front x text kept n e hx nothing = elim (Bool-cases (x == b'0')) [
  | inl is ↦ record {
    kept = [];
    zeros = suc n;
    whole = rw ((==_iff x b'0').0 is, e);
    ends = nothing;
  }
  | inr not ↦ record {
    kept = x ∷ [];
    zeros = n;
    whole = rw e;
    ends = digit [] x (λ q. ground arith) (λ q. omega arith);
  }
]
Split-front x text kept n e hx (digit front c h h') = record {
  kept = (x ∷ front) ++ (c ∷ []);
  zeros = n;
  whole = ap (λ t. x ∷ t) e;
  ends = digit (x ∷ front) c h h';
}

pub split : (text : List ℕ) → All IsDigit text → Split text
split [] h = record { kept = []; zeros = 0; whole = refl; ends = nothing }
split (x ∷ text) h = let s = split text h.1 in Split-front x text s.kept s.zeros s.whole h.0 s.ends

get_or-middle :
    (front : List ℕ) (c : ℕ) (back : List ℕ) → get_or (front ++ (c ∷ back)) (length front) 0 ≡ c
get_or-middle [] c back = refl
get_or-middle (x ∷ front) c back = get_or-middle front c back

-- The loop steps back over zeros, and stops at any other character.
strip_zeros_stops :
    (front : List ℕ) (c : ℕ) (back : List ℕ)
    → c ≢ b'0'
    → strip_zeros (suc (length front)) (front ++ (c ∷ back)) ≡ suc (length front)
unfolding strip_zeros
strip_zeros_stops front c back h = ground (arith, get_or-middle front c back)

get_or-append_right :
    (front back : List ℕ) (k : ℕ) → get_or (front ++ back) (length front + k) 0 ≡ get_or back k 0
get_or-append_right [] back k = ap (λ i. get_or back i 0) (omega arith)
get_or-append_right (x ∷ front) back k =
    rw (suc-add (length front) k) (get_or-append_right front back k)

get_or-replicate : (n k c : ℕ) → k < n → get_or (replicate n c) k 0 ≡ c
get_or-replicate zero k c h = absurd (omega arith)
get_or-replicate (suc n) zero c h = refl
get_or-replicate (suc n) (suc k) c h = get_or-replicate n k c (omega arith)

strip_zeros_skips :
    (front : List ℕ) (k n : ℕ)
    → k ≤ n
    → strip_zeros (length front + k) (front ++ replicate n b'0')
      ≡ strip_zeros (length front) (front ++ replicate n b'0')
unfolding strip_zeros
strip_zeros_skips front zero n h = rw add-zero
strip_zeros_skips front (suc k) n h =
    rw (add-suc, get_or-append_right front (replicate n b'0') k, get_or-replicate n k b'0' h)
      (strip_zeros_skips front k n (omega arith))

-- The length that is left of text whose zeros stand behind a character that is no zero.
stripped_length :
    (front : List ℕ) (c n : ℕ)
    → c ≢ b'0'
    → let out = (front ++ (c ∷ [])) ++ replicate n b'0' in
      strip_zeros (length out) out ≡ suc (length front)
stripped_length front c n h =
    rw
      (
        length-append (front ++ (c ∷ [])) (replicate n b'0'),
        length-replicate {A = ℕ} n b'0',
        strip_zeros_skips (front ++ (c ∷ [])) n n (omega arith),
        length-append front (c ∷ []),
        add-suc (length front) 0,
        add-zero (length front),
        append_assoc front (c ∷ []) (replicate n b'0'),
      )
      (strip_zeros_stops front c (replicate n b'0') h)

get_or-stripped :
    (front : List ℕ) (c n : ℕ)
    → get_or ((front ++ (c ∷ [])) ++ replicate n b'0') (length front) 0 ≡ c
get_or-stripped front c n =
    rw (append_assoc front (c ∷ []) (replicate n b'0')) (get_or-middle front c (replicate n b'0'))

take-stripped :
    (front : List ℕ) (c n : ℕ)
    → take (suc (length front)) ((front ++ (c ∷ [])) ++ replicate n b'0') ≡ front ++ (c ∷ [])
take-stripped [] c n = refl
take-stripped (x ∷ front) c n = ap (λ t. x ∷ t) (take-stripped front c n)

-- Both strips, behind a character that is neither a zero nor a point, and behind the point.
strip_to_digit :
    (front : List ℕ) (c n : ℕ)
    → c ≢ b'0'
    → c ≢ b'.'
    → let out = (front ++ (c ∷ [])) ++ replicate n b'0' in
      take (strip_point (strip_zeros (length out) out) out) out ≡ front ++ (c ∷ [])
strip_to_digit front c n h h' = rw (stripped_length front c n h, keeps) (take-stripped front c n)
  where
    keeps :
        strip_point (suc (length front)) ((front ++ (c ∷ [])) ++ replicate n b'0')
        ≡ suc (length front)
    keeps = unfold strip_point in ground (arith, get_or-stripped front c n, h')

strip_to_point :
    (front : List ℕ) (n : ℕ)
    → let out = (front ++ (b'.' ∷ [])) ++ replicate n b'0' in
      take (strip_point (strip_zeros (length out) out) out) out ≡ front
strip_to_point front n =
    rw
      (
        stripped_length front b'.' n (λ q. omega (arith, q)),
        drops,
        append_assoc front (b'.' ∷ []) (replicate n b'0'),
      )
      (take-length_append front _)
  where
    drops :
        strip_point (suc (length front)) ((front ++ (b'.' ∷ [])) ++ replicate n b'0') ≡ length front
    drops = unfold strip_point in rw (get_or-stripped front b'.' n) refl

-- A fixed-point text, of its whole part and what is left of its fraction.
unfoldable pub with_point : (whole frac : List ℕ) → List ℕ
with_point whole [] = whole
with_point whole (c ∷ cs) = whole ++ (b'.' ∷ c ∷ cs)

with_point-snoc :
    (whole front : List ℕ) (c : ℕ)
    → with_point whole (front ++ (c ∷ [])) ≡ whole ++ (b'.' ∷ (front ++ (c ∷ [])))
unfolding with_point
with_point-snoc whole [] c = refl
with_point-snoc whole (x ∷ front) c = refl

pub strip_pointed :
    (whole kept : List ℕ) (n : ℕ)
    → EndsWell kept
    → let out = whole ++ (b'.' ∷ (kept ++ replicate n b'0')) in
      take (strip_point (strip_zeros (length out) out) out) out ≡ with_point whole kept
strip_pointed whole kept n nothing =
    rw (sym (append_assoc whole (b'.' ∷ []) (replicate n b'0')))
      (strip_to_point whole n ∙ unfold with_point in refl)
strip_pointed whole kept n (digit front c h h') =
    rw (regroup, with_point-snoc whole front c)
      (strip_to_digit (whole ++ (b'.' ∷ front)) c n h h'
        ∙ append_assoc whole (b'.' ∷ front) (c ∷ []))
  where
    regroup :
        whole ++ (b'.' ∷ ((front ++ (c ∷ [])) ++ replicate n b'0'))
        ≡ ((whole ++ (b'.' ∷ front)) ++ (c ∷ [])) ++ replicate n b'0'
    regroup =
        rw
          (
            append_assoc whole (b'.' ∷ front) (c ∷ []),
            append_assoc whole (b'.' ∷ (front ++ (c ∷ []))) (replicate n b'0'),
          )
          refl
