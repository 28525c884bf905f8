-- ===== src/SimpBv/Search.antt =====
-- The searches of `_simple_bitvec`: each finds the least bit of its kind.
use native.Mathlib.Nat.{div-add-mod, div-lt_iff_lt-mul, le-div_iff_mul-le, mul_comm}
use native.Mathlib.Decide.{dec_lt}
use mathlib.Core.Path.{subst}
use bienutil.Base.{
  ℕ, suc, ◌+◌, ◌-◌, ◌*◌, ◌/◌, ◌%◌, ◌≤◌, ◌<◌, ◌≡◌, ◌⊎◌, refl, sym, ◌∙◌, arith, bit_and, Bool, true,
  false, not, ◌&&◌, Option, none, some, List, leb, ◌==◌, get_or, length, Bool-cases, inl, inr,
}
use bienutil.Base.Digits.{◌<<<◌, bit_not, bit_and-lt}
use bienutil.WordArray.{member, next_word, zip_words, not_words}
use bienutil.WordArray.Member.{AreWords, member_above}
use bienutil.WordArray.Each.{
  member-zip_and, member-not_words, not_words-AreWords, length-not_words, zip_words-AreWords,
}
use bienutil.WordArray.Valid.{IsValid}
use bienutil.WordArray.Scan.{IsLeading, IsNext, lowest-IsLeast}
use bienutil.WordArray.Next.{next_word-IsNext, from_word-IsNext}
use bienutil.SimpBv.{
  bv_get_first_set, bit_found, getset, next_from, getfirstset, getnextset, getnextnotset,
  first_intersection, next_intersection,
}
use bienutil.SimpBv.First.{bv_get_first_set-IsTrailing}

-- `r` is the least element of a set from `start` on, or `n` where there is none.
abbrev pub IsFirst : ℕ → (ℕ → Bool) → ℕ → ℕ → Type 0
IsFirst n has start r =
    ((r ≡ n) × ((j : ℕ) → start ≤ j → has j ≡ false))
    ⊎ ((start ≤ r) × (has r ≡ true) × ((j : ℕ) → start ≤ j → j < r → has j ≡ false))

module _ (clz : ℕ → ℕ) (wide n w : ℕ) (pos : 0 < w) (fits : w ≤ wide)
    (leading : IsLeading wide clz) where
  module _ (rg : List ℕ) (words : AreWords w rg) where
    bit_found-IsFirst :
        (start : ℕ) (o : Option (ℕ × ℕ))
        → IsNext w rg start o
        → IsFirst n (member w rg) start (bit_found clz wide n w o)
    bit_found-IsFirst start none next = inl (refl, next)
    bit_found-IsFirst start (some (e, v)) next =
        let swap : e * w + bv_get_first_set clz wide w v ≡ bv_get_first_set clz wide w v + e * w =
          omega arith in
        rw swap (
          inr (
            lowest-IsLeast w pos rg words (bv_get_first_set clz wide w)
              (bv_get_first_set-IsTrailing clz wide w fits leading) start e v next))

    getset-IsFirst : (el : ℕ) → IsFirst n (member w rg) (el * w) (getset clz wide n w rg el)
    unfolding getset
    getset-IsFirst el = bit_found-IsFirst (el * w) _ (from_word-IsNext w pos rg words el)

    getset_start-IsFirst : IsFirst n (member w rg) 0 (getset clz wide n w rg 0)
    getset_start-IsFirst =
        let start : 0 * w ≡ 0 = omega arith in
        subst (λ s. IsFirst n (member w rg) s (getset clz wide n w rg 0)) start (getset-IsFirst 0)

    next_from-IsFirst :
        (last : ℕ) → IsFirst n (member w rg) (suc last) (next_from clz wide n w rg last)
    unfolding next_from getset next_word
    next_from-IsFirst last = elim (Bool-cases (suc last % w == 0)) [
      | inl even ↦
          let at : suc last / w * w ≡ suc last =
            ground (arith, div-add-mod (suc last) w, mul_comm w (suc last / w)) in
          rw even (
            subst (λ s. IsFirst n (member w rg) s (getset clz wide n w rg (suc last / w))) at
              (getset-IsFirst (suc last / w)))
      | inr odd ↦ elim (Bool-cases (masked == 0)) [
        | inl z ↦ rw (odd, z) (rw z at found)
        | inr nz ↦ rw (odd, nz) (rw nz at found)
      ]
    ]
      where
        masked : ℕ
        masked = bit_and (get_or rg (suc last / w) 0) (bit_not w ((1 <<< (suc last % w)) - 1))

        found :
            IsFirst n (member w rg) (suc last) (bit_found clz wide n w (next_word w rg (suc last)))
        found = bit_found-IsFirst (suc last) _ (next_word-IsNext w pos rg words (suc last))

  IsFirst-ext :
      (f g : ℕ → Bool)
      → ((j : ℕ) → f j ≡ g j)
      → (start r : ℕ) → IsFirst n f start r
      → IsFirst n g start r
  IsFirst-ext f g same start r first = elim first [
    | inl (e, none_here) ↦ inl (e, λ j l. sym (same j) ∙ none_here j l)
    | inr (l, on, before) ↦ inr (l, sym (same r) ∙ on, λ j a b. sym (same j) ∙ before j a b)
  ]

  module _ (rg : List ℕ) (valid : IsValid w n rg) where
    -- `getfirstset` and `getnextset` return the least bit that is set, from the first on and after
    -- the given one, or the number of bits where there is none.
    pub getset_lem :
        IsFirst n (member w rg) 0 (getfirstset clz wide n w rg)
        × ((last : ℕ) → IsFirst n (member w rg) (suc last) (getnextset clz wide n w rg last))
    unfolding getfirstset getnextset
    getset_lem = (
      getset_start-IsFirst rg valid.words,
      λ last. elim (Bool-cases (leb n last)) [
        | inl past ↦ rw past (inl (refl, λ j l. valid.bounded j (ground arith)))
        | inr more ↦ rw more (next_from-IsFirst rg valid.words last)
      ],
    )

    -- `FirstIntersection` and `NextIntersection` do the same for the bits set in both vectors.
    pub intersection_lem :
        (other : List ℕ)
        → IsValid w n other
        → length rg ≡ length other
        → IsFirst n
            (λ j. member w rg j && member w other j)
            0
            (first_intersection clz wide n w rg other)
          × ((last : ℕ)
              → IsFirst n
                  (λ j. member w rg j && member w other j)
                  (suc last)
                  (next_intersection clz wide n w rg other last))
    unfolding first_intersection next_intersection
    intersection_lem other v same = (
      IsFirst-ext (member w meet) _ both 0 _ (getset_start-IsFirst meet words),
      λ last. IsFirst-ext (member w meet) _ both (suc last) _ (next_from-IsFirst meet words last),
    )
      where
        meet : List ℕ
        meet = zip_words bit_and rg other

        both : (j : ℕ) → member w meet j ≡ (member w rg j && member w other j)
        both = member-zip_and w rg other same

        words : AreWords w meet
        words =
            zip_words-AreWords w bit_and (λ x y p q. bit_and-lt w x y p) rg other valid.words
              v.words

    -- After a bit of the vector, `getnextnotset` returns the least bit that is not set, which is the
    -- number of bits where all are.
    pub getnextnotset_lem :
        (last : ℕ)
        → last < n
        → (last < getnextnotset clz wide n w rg last)
          × (getnextnotset clz wide n w rg last ≤ n)
          × (getnextnotset clz wide n w rg last < n
              → member w rg (getnextnotset clz wide n w rg last) ≡ false)
          × ((j : ℕ) → last < j → j < getnextnotset clz wide n w rg last → member w rg j ≡ true)
    unfolding getnextnotset
    getnextnotset_lem last h =
        let more : leb n last ≡ false = ground arith in
        rw more (by_first _ (next_from-IsFirst (not_words w rg) (not_words-AreWords w rg) last))
      where
        in_words : (j : ℕ) → j < length rg * w → member w (not_words w rg) j ≡ not (member w rg j)
        in_words j l = member-not_words w rg j pos valid.words ((div-lt_iff_lt-mul pos).1 l)

        ends : (j : ℕ) → member w (not_words w rg) j ≡ true → j < length rg * w
        ends j on = elim (dec_lt j (length rg * w)) [
          | yes l ↦ l
          | no l ↦
              let out : length (not_words w rg) ≤ j / w =
                rw (length-not_words w rg) ((le-div_iff_mul-le pos).1 (omega arith)) in
              cc (on, member_above w pos (not_words w rg) j out)
        ]

        by_first :
            (r : ℕ)
            → IsFirst n (member w (not_words w rg)) (suc last) r
            → (last < r)
              × (r ≤ n)
              × (r < n → member w rg r ≡ false)
              × ((j : ℕ) → last < j → j < r → member w rg j ≡ true)
        by_first r first = elim first [
          | inl (e, none_here) ↦ (
            omega arith,
            omega arith,
            λ l. absurd (omega arith),
            λ j a b.
                ground (arith, none_here j (omega arith), in_words j (omega (arith, valid.sized))),
          )
          | inr (l, on, before) ↦ (
            omega arith,
            elim (dec_lt n r) [
              | no nl ↦ omega arith
              | yes over ↦
                  let at_n = in_words n (omega (arith, ends r on)) in
                  let off = valid.bounded n (omega arith) in
                  let gone = before n (omega arith) over in cc (at_n, off, gone)
            ],
            λ under. ground (arith, on, in_words r (ends r on)),
            λ j a b.
                ground (arith, before j (omega arith) b, in_words j (omega (arith, ends r on))),
          )
        ]
