-- ===== src/SimpBv/Sets.antt =====
-- The operations of `_simple_bitvec` on single bits and on two vectors, as operations on sets.
use native.Mathlib.Nat.{mod-lt}
use bienutil.Base.{
  ℕ, zero, suc, ◌+◌, ◌-◌, ◌*◌, ◌/◌, ◌%◌, ◌^◌, ◌<◌, ◌≡◌, ◌↔◌, refl, sym, ap, ◌∙◌, arith, bit_and,
  bit_or, Bool, true, false, not, ◌&&◌, ◌||◌, List, [], ◌∷◌, get_or, length,
}
use bienutil.Base.Digits.{
  bit_not, testbit, testbit-bit_and, testbit-bit_not, bit_and-lt, bit_or-lt, bit_and_comm,
  bit_and-zero,
}
use bienutil.WordArray.{member, zip_words}
use bienutil.WordArray.Member.{test_bit-member, word_zero}
use bienutil.WordArray.Each.{
  length-zip_words, zip_words-AreWords, get_or-zip_words, member-zip_and, member-zip_or,
}
use bienutil.WordArray.Valid.{IsValid, Writes, or_bit-Writes, clear_bit-Writes}
use bienutil.WordArray.Scan.{empty_word, word-lt}
use bienutil.SimpBv.{
  setbit_to, setbit, clearbit, isbitset, or_equals, and_equals, and_not_equals, and_not,
  f_intersects, intersection, empty,
}

empty-words : (rg : List ℕ) → empty rg ≡ true → (k : ℕ) → get_or rg k 0 ≡ 0
unfolding empty
empty-words [] h k = refl
empty-words (x ∷ xs) h zero = ground arith
empty-words (x ∷ xs) h (suc k) = empty-words xs (ground arith) k

words-empty : (rg : List ℕ) → ((k : ℕ) → get_or rg k 0 ≡ 0) → empty rg ≡ true
unfolding empty
words-empty [] h = refl
words-empty (x ∷ xs) h = ground (arith, h 0, words-empty xs (λ k. h (suc k)))

-- `FIntersects` and `intersection` look at the words of the intersection.
intersects-empty :
    (xs ys : List ℕ)
    → length xs ≡ length ys
    → f_intersects xs ys ≡ not (empty (zip_words bit_and xs ys))
unfolding f_intersects empty zip_words
intersects-empty [] ys e = refl
intersects-empty (x ∷ xs) [] e = absurd (omega arith)
intersects-empty (x ∷ xs) (y ∷ ys) e = ground (arith, intersects-empty xs ys (omega arith))

intersection-zip :
    (xs ys : List ℕ)
    → length xs ≡ length ys
    → intersection xs ys ≡ (zip_words bit_and xs ys, f_intersects xs ys)
unfolding intersection f_intersects zip_words
intersection-zip [] [] e = refl
intersection-zip [] (y ∷ ys) e = absurd (omega arith)
intersection-zip (x ∷ xs) [] e = absurd (omega arith)
intersection-zip (x ∷ xs) (y ∷ ys) e = rw (intersection-zip xs ys (omega arith)) (ground arith)

module _ (n w : ℕ) (pos : 0 < w) (rg : List ℕ) (valid : IsValid w n rg) where
  -- For a bit of the vector, `setbit` in its two forms and `clearbit` write that bit and no other
  -- and keep the vector valid, and `isbitset` reads it.
  pub setbit_lem :
      (i : ℕ)
      → i < n
      → ((on : Bool) → Writes w n rg i on (setbit_to w rg i on))
        × (setbit_to w rg i true ≡ setbit w rg i)
        × (setbit_to w rg i false ≡ clearbit w rg i)
        × (isbitset w rg i ≡ member w rg i)
  unfolding setbit_to setbit clearbit isbitset
  setbit_lem i h = (
    λ on. elim on as (λ on. Writes w n rg i on (setbit_to w rg i on)) [
      | true ↦ or_bit-Writes w n pos rg valid i h
      | false ↦ clear_bit-Writes w n pos rg valid i h
    ],
    refl,
    refl,
    test_bit-member w pos rg i,
  )

  pub IsValid-empty : (empty rg ≡ true) ↔ ((j : ℕ) → member w rg j ≡ false)
  IsValid-empty = (
    λ e j. empty_word w pos rg valid.words j (empty-words rg e (j / w)),
    λ h. words-empty rg (λ k. word_zero w pos rg k valid.words (λ j l. h (k * w + j))),
  )

module _ (n w : ℕ) (pos : 0 < w) (rg : List ℕ) (valid : IsValid w n rg) where
  module _ (other : List ℕ) (v : IsValid w n other) (same : length rg ≡ length other) where
    combined :
        (f : ℕ → ℕ → ℕ) (g : Bool → Bool → Bool)
        → ((x y : ℕ) → x < 2 ^ w → y < 2 ^ w → f x y < 2 ^ w)
        → g false false ≡ false
        → ((j : ℕ) → member w (zip_words f rg other) j ≡ g (member w rg j) (member w other j))
        → IsValid w n (zip_words f rg other)
    combined f g small off m = record {
      words = zip_words-AreWords w f small rg other valid.words v.words;
      sized = rw (length-zip_words f rg other) valid.sized;
      bounded = λ i l. m i ∙ rw (valid.bounded i l, v.bounded i l) off;
    }

    difference :
        (j : ℕ)
        → member w (zip_words (and_not w) rg other) j ≡ (member w rg j && not (member w other j))
    unfolding and_not member
    difference j =
        let x = get_or rg (j / w) 0 in
        let y = get_or other (j / w) 0 in
        let none : bit_and 0 (2 ^ w - 1 - 0) ≡ 0 =
          bit_and_comm 0 (2 ^ w - 1 - 0) ∙ bit_and-zero (2 ^ w - 1 - 0) in
        ap (λ v. testbit v (j % w)) (get_or-zip_words (and_not w) rg other (j / w) same none)
        ∙ testbit-bit_and (j % w) x (bit_not w y)
        ∙ ground
            (arith, testbit-bit_not w (j % w) y (word-lt w pos other v.words (j / w)), mod-lt j pos)

    meet-IsValid : IsValid w n (zip_words bit_and rg other)
    meet-IsValid =
        combined bit_and ◌&&◌ (λ x y p q. bit_and-lt w x y p) refl
          (λ j. member-zip_and w rg other same j)

    -- `|=`, `&=` and `and_not_equals` are union, intersection and difference, and keep the vector
    -- valid.
    pub equals_lem :
        (IsValid w n (or_equals rg other)
          × ((j : ℕ) → member w (or_equals rg other) j ≡ (member w rg j || member w other j)))
        × (IsValid w n (and_equals rg other)
            × ((j : ℕ) → member w (and_equals rg other) j ≡ (member w rg j && member w other j)))
        × (IsValid w n (and_not_equals w rg other)
            × ((j : ℕ)
                → member w (and_not_equals w rg other) j
                  ≡ (member w rg j && not (member w other j))))
    unfolding or_equals and_equals and_not_equals
    equals_lem = (
      (
        combined bit_or ◌||◌ (bit_or-lt w) refl (λ j. member-zip_or w rg other same j),
        λ j. member-zip_or w rg other same j,
      ),
      (meet-IsValid, λ j. member-zip_and w rg other same j),
      (
        combined (and_not w) (λ a b. a && not b)
            (λ x y p q. unfold and_not in bit_and-lt w x (bit_not w y) p) refl difference,
        difference,
      ),
    )

    -- `FIntersects` is false exactly where the two have no bit in common; `intersection` stores the
    -- common bits and returns the same.
    pub intersects_lem :
        ((f_intersects rg other ≡ false) ↔ ((j : ℕ) → (member w rg j && member w other j) ≡ false))
        × ((intersection rg other).1 ≡ f_intersects rg other)
        × IsValid w n (intersection rg other).0
        × ((j : ℕ) → member w (intersection rg other).0 j ≡ (member w rg j && member w other j))
    intersects_lem = rw (intersection-zip rg other same) (
      (
        λ e j.
            sym (member-zip_and w rg other same j)
            ∙ meet_empty.0 (ground (arith, intersects-empty rg other same)) j,
        λ h.
            intersects-empty rg other same
            ∙ ap not (meet_empty.1 (λ j. member-zip_and w rg other same j ∙ h j)),
      ),
      refl,
      meet-IsValid,
      λ j. member-zip_and w rg other same j,
    )
      where
        meet_empty :
            (empty (zip_words bit_and rg other) ≡ true)
            ↔ ((j : ℕ) → member w (zip_words bit_and rg other) j ≡ false)
        meet_empty = IsValid-empty n w pos (zip_words bit_and rg other) meet-IsValid
