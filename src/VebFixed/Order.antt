-- ===== src/VebFixed/Order.antt =====
-- Successor and predecessor, minimum and maximum.
use native.Mathlib.Nat.{zero-add, mod-eq_of_lt, le-div_iff_mul-le, div-lt_iff_lt-mul}
use native.Mathlib.Decide.{dec_lt}
use bienutil.Base.{
  ℕ, suc, ◌+◌, ◌-◌, ◌*◌, ◌/◌, ◌^◌, ◌≤◌, ◌<◌, ◌≡◌, ◌⊎◌, refl, ap, ◌∙◌, arith, Bool, true, false,
  Option, none, some, List, leb, ◌==◌, get_or, get_or_above, length, Bool-cases, inl, inr,
}
use bienutil.Base.Digits.{testbit}
use bienutil.WordArray.Valid.{IsValid}
use bienutil.WordArray.{member, first_word, last_word}
use bienutil.WordArray.Member.{AreWords, member-at}
use bienutil.VebFixed.{
  located, located_or, lowest, highest, impl, k_next_integer_size, previous_word, n_successor,
  n_predecessor, f_has_min, f_has_max,
}
use bienutil.WordArray.Search.{Upwards, Downwards, first_word-Upwards, last_word-Downwards}
use bienutil.WordArray.Scan.{
  IsLeast, IsGreatest, IsScan, IsNext, IsPrevious, next-IsLeast, previous-IsGreatest, empty_word,
  word-lt,
}
use bienutil.WordArray.Next.{next_word-IsNext}
use bienutil.WordArray.Previous.{previous_word-IsPrevious}
use bienutil.WordArray.{next_word, previous_word}

abbrev pub IsMaximum : ℕ → List ℕ → ℕ → Type 0
IsMaximum w rg p = (member w rg p ≡ true) × ((j : ℕ) → p < j → member w rg j ≡ false)

abbrev pub IsEmpty : ℕ → List ℕ → Type 0
IsEmpty w rg = (j : ℕ) → member w rg j ≡ false

-- What an optional minimum or maximum says.
abbrev pub Describes : (ℕ → Type 0) → Type 0 → Option ℕ → Type 0
Describes P E none = E
Describes P E (some p) = P p

pub impl_fits : (u v : ℕ) → u ≤ 2 ^ 64 → v < u → impl u v ≡ v
unfolding impl k_next_integer_size
impl_fits u v h l = mod-eq_of_lt (ground arith)

module _ (w : ℕ) (pos : 0 < w) (rg : List ℕ) (words : AreWords w rg) where
  Upwards-first : (o : Option (ℕ × ℕ)) → Upwards (λ k. get_or rg k 0) 0 o → IsNext w rg 0 o
  Upwards-first none up = λ j l. empty_word w pos rg words j (up (j / w) (omega arith))
  Upwards-first (some (e, v)) (after, word, nz, up) = (
    (
      nz,
      rw word (word-lt w pos rg words e),
      λ k h.
          (let e' : testbit v k ≡ testbit (get_or rg e 0) k = ap (λ y. testbit y k) word in e')
          ∙ ground (arith, member-at w pos rg e k h),
    ),
    λ j l b. empty_word w pos rg words j (up (j / w) (omega arith) ((div-lt_iff_lt-mul pos).1 b)),
  )

  -- A search downwards from word `n`, where all words from there on are zero.
  pub Downwards-last :
      (n : ℕ)
      → ((k : ℕ) → n ≤ k → get_or rg k 0 ≡ 0)
      → (o : Option (ℕ × ℕ)) → Downwards (λ k. get_or rg k 0) n o
      → IsPrevious w rg (n * w) o
  Downwards-last n clear none down = λ j l. elim (dec_lt (j / w) n) [
    | yes h ↦ empty_word w pos rg words j (down (j / w) h)
    | no h ↦ empty_word w pos rg words j (clear (j / w) (omega arith))
  ]
  Downwards-last n clear (some (e, v)) (before, word, nz, down) = (
    (
      nz,
      rw word (word-lt w pos rg words e),
      λ k h. ap (λ y. testbit y k) word ∙ ground (arith, member-at w pos rg e k h, inside),
    ),
    λ j b l. elim (dec_lt (j / w) n) [
      | yes h ↦ empty_word w pos rg words j (down (j / w) (beyond j b) h)
      | no h ↦ empty_word w pos rg words j (clear (j / w) (omega arith))
    ],
  )
    where
      part : suc e * w ≡ e * w + w
      part = omega arith

      inside : e * w + w ≤ n * w
      inside = grind arith

      beyond : (j : ℕ) → e * w + w ≤ j → e < j / w
      beyond j b = (le-div_iff_mul-le pos).1 (omega (arith, part))

module _ (w u : ℕ) (ctz clz : ℕ → ℕ) (pos : 0 < w) (small : u ≤ 2 ^ 64)
    (scan : IsScan w ctz clz) where
  module _ (rg : List ℕ) (valid : IsValid w u rg) where
    abbrev has : ℕ → Bool
    has = member w rg

    inside : (p : ℕ) → has p ≡ true → impl u p ≡ p
    inside p on = elim (dec_lt p u) [
      | yes h ↦ impl_fits u p small h
      | no h ↦ cc (valid.bounded p (omega arith))
    ]

    -- `NSuccessor` returns the least element above `x`, or 0 where there is none.
    pub n_successor-IsLeast :
        (x : ℕ)
        → ((n_successor w u ctz clz rg x ≡ 0) × ((j : ℕ) → x < j → has j ≡ false))
          ⊎ IsLeast w rg (suc x) (n_successor w u ctz clz rg x)
    unfolding n_successor
    n_successor-IsLeast x = elim (Bool-cases (leb (u - 1) x)) [
      | inl last ↦ rw last (inl (refl, λ j l. valid.bounded j (ground arith)))
      | inr more ↦
          rw more (by_word (next_word w rg (suc x)) (next_word-IsNext w pos rg valid.words (suc x)))
    ]
      where
        by_word :
            (o : Option (ℕ × ℕ))
            → IsNext w rg (suc x) o
            → ((located_or u (lowest w u ctz clz) 0 o ≡ 0) × ((j : ℕ) → x < j → has j ≡ false))
              ⊎ IsLeast w rg (suc x) (located_or u (lowest w u ctz clz) 0 o)
        by_word none next = inl (refl, λ j l. next j (omega arith))
        by_word (some (e, v)) next =
            let least = next-IsLeast w pos rg valid.words ctz clz scan (suc x) e v next in
            inr (rw (inside (ctz v + e * w) least.1) least)

    -- `NPredecessor` returns the greatest element below `x`, or the universe's last number where
    -- there is none.
    pub n_predecessor-IsGreatest :
        (x : ℕ)
        → ((n_predecessor w u ctz clz rg x ≡ u - 1) × ((j : ℕ) → j < x → has j ≡ false))
          ⊎ ((0 < x) × IsGreatest w rg (x - 1) (n_predecessor w u ctz clz rg x))
    unfolding n_predecessor
    n_predecessor-IsGreatest x = elim (Bool-cases (x == 0)) [
      | inl first ↦ rw first (inl (refl, λ j l. absurd (ground arith)))
      | inr more ↦ rw more (
          by_word (ground arith) (previous_word w rg (x - 1))
            (previous_word-IsPrevious w pos rg valid.words (x - 1)))
    ]
      where
        by_word :
            0 < x
            → (o : Option (ℕ × ℕ)) → IsPrevious w rg (x - 1) o
            → ((located_or u (highest w u ctz clz) (u - 1) o ≡ u - 1)
                × ((j : ℕ) → j < x → has j ≡ false))
              ⊎ ((0 < x) × IsGreatest w rg (x - 1) (located_or u (highest w u ctz clz) (u - 1) o))
        by_word some_below none before = inl (refl, λ j l. before j (omega arith))
        by_word some_below (some (e, v)) before =
            let greatest =
              previous-IsGreatest w pos rg valid.words ctz clz scan (x - 1) e v before in
            inr (some_below, rw (inside (w - 1 - clz v + e * w) greatest.1) greatest)

    -- A search downwards from word `n`, where all words from there on are zero, finds the greatest.
    pub last_word-IsMaximum :
        (n : ℕ)
        → ((k : ℕ) → n ≤ k → get_or rg k 0 ≡ 0)
        → Describes
            (IsMaximum w rg)
            (IsEmpty w rg)
            (located u (highest w u ctz clz) (last_word n rg))
    last_word-IsMaximum n clear =
        high (last_word n rg)
          (Downwards-last w pos rg valid.words n clear _ (last_word-Downwards rg n))
      where
        beyond : (j : ℕ) → n * w < j → has j ≡ false
        beyond j l =
            empty_word w pos rg valid.words j
              (clear (j / w) ((le-div_iff_mul-le pos).1 (omega arith)))

        high :
            (o : Option (ℕ × ℕ))
            → IsPrevious w rg (n * w) o
            → Describes (IsMaximum w rg) (IsEmpty w rg) (located u (highest w u ctz clz) o)
        high none before =
            λ j. elim (dec_lt (n * w) j) [ yes l ↦ beyond j l | no nl ↦ before j (omega arith) ]
        high (some (e, v)) before =
            let greatest =
              previous-IsGreatest w pos rg valid.words ctz clz scan (n * w) e v before in
            rw (inside (w - 1 - clz v + e * w) greatest.1) (
              greatest.1,
              λ j l. elim (dec_lt (n * w) j) [
                | yes b ↦ beyond j b
                | no nb ↦ greatest.2 j l (omega arith)
              ],
            )

    -- `FHasMin` gives the least element and `FHasMax` the greatest; both give none exactly for the
    -- empty set.
    pub f_has_min_max_lem :
        Describes (IsLeast w rg 0) (IsEmpty w rg) (f_has_min w u ctz clz rg)
        × Describes (IsMaximum w rg) (IsEmpty w rg) (f_has_max w u ctz clz rg)
    unfolding f_has_min f_has_max
    f_has_min_max_lem = (
      low (first_word 0 rg) (
          Upwards-first w pos rg valid.words _
            (first_word-Upwards _ 0 rg (λ k. ap (λ i. get_or rg i 0) (zero-add k)))),
      last_word-IsMaximum (length rg) (λ k h. get_or_above rg k 0 h),
    )
      where
        low :
            (o : Option (ℕ × ℕ))
            → IsNext w rg 0 o
            → Describes (IsLeast w rg 0) (IsEmpty w rg) (located u (lowest w u ctz clz) o)
        low none next = λ j. next j (omega arith)
        low (some (e, v)) next =
            let least = next-IsLeast w pos rg valid.words ctz clz scan 0 e v next in
            rw (inside (ctz v + e * w) least.1) least
