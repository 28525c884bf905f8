-- ===== src/FixedBv/Whole.antt =====
-- The operations of `FixedBV` on all bits at once, as operations on a set.
use native.Mathlib.Nat.{mod-lt}
use native.Mathlib.Decide.{dec_lt}
use bienutil.Base.{
  ℕ, zero, suc, ◌+◌, ◌-◌, ◌*◌, ◌/◌, ◌%◌, ◌^◌, ◌≤◌, ◌<◌, ◌≡◌, ◌≢◌, ◌↔◌, refl, sym, ap, ◌∙◌, arith,
  bit_and, bit_or, bit_xor, true, false, not, ◌&&◌, ◌||◌, List, [], ◌∷◌, ◌⊎◌, inl, inr, Bool-cases,
  All-get_or, ltb, get_or, length,
}
use bienutil.Base.Digits.{
  testbit, differs, bit_and-lt, bit_or-lt, bit_xor-lt, two-pow-pos, testbit-low_mask, zero_testbit,
  two-pow_mono,
}
use bienutil.WordArray.{not_words, member, zip_words}
use bienutil.WordArray.Member.{AreWords, member-at, word_zero}
use bienutil.WordArray.Each.{
  length-not_words, not_words-AreWords, get_or-not_words, length-zip_words, zip_words-AreWords,
  member-zip_or, member-zip_and, member-zip_xor,
}
use bienutil.FixedBv.{
  els_array, set_every, invert, fill, and_assign, or_assign, xor_assign, any, all, all_ones,
}
use bienutil.FixedBv.Trim.{IsValid, word_in_range, member-trim, trim-IsValid}

length-fill : (v : ℕ) (rg : List ℕ) → length (fill v rg) ≡ length rg
unfolding fill
length-fill v [] = refl
length-fill v (x ∷ xs) = ap suc (length-fill v xs)

fill-AreWords : (w v : ℕ) (rg : List ℕ) → v < 2 ^ w → AreWords w (fill v rg)
unfolding fill
fill-AreWords w v [] h = tt
fill-AreWords w v (x ∷ xs) h = (h, fill-AreWords w v xs h)

get_or-fill : (v : ℕ) (rg : List ℕ) (k : ℕ) → k < length rg → get_or (fill v rg) k 0 ≡ v
unfolding fill
get_or-fill v [] k h = elim h [ ]
get_or-fill v (x ∷ xs) zero h = refl
get_or-fill v (x ∷ xs) (suc k) h = get_or-fill v xs k (omega arith)

module _ (n w : ℕ) (pos : 0 < w) (some_bit : 0 < n) (rg : List ℕ) (valid : IsValid n w rg) where
  full : (i : ℕ) → i < n → member w (fill (2 ^ w - 1) rg) i ≡ true
  unfolding member
  full i h =
      ap (λ v. testbit v (i % w))
        (get_or-fill (2 ^ w - 1) rg (i / w) (rw valid.sized (word_in_range n w pos i h)))
      ∙ testbit-low_mask w (i % w)
      ∙ ground (arith, mod-lt i pos)

  turned : (i : ℕ) → i < n → member w (not_words w rg) i ≡ not (member w rg i)
  unfolding member
  turned i h =
      get_or-not_words w rg (i / w) (i % w) valid.words (rw valid.sized (word_in_range n w pos i h))
        (mod-lt i pos)

  -- `set()` makes every bit below `n` one and `invert()` (also `flip()` and `~`) turns each of them
  -- over; both keep the invariant.
  pub set_invert_lem :
      IsValid n w (set_every n w rg)
      × IsValid n w (invert n w rg)
      × ((i : ℕ) → member w (set_every n w rg) i ≡ ltb i n)
      × ((i : ℕ) → member w (invert n w rg) i ≡ (ltb i n && not (member w rg i)))
  unfolding set_every invert
  set_invert_lem = (
    trim-IsValid n w pos _ (length-fill _ rg ∙ valid.sized) some_bit
        (fill-AreWords w _ rg (omega (arith, two-pow-pos w))),
    trim-IsValid n w pos _ (length-not_words w rg ∙ valid.sized) some_bit (not_words-AreWords w rg),
    λ i. member-trim n w pos _ (length-fill _ rg ∙ valid.sized) some_bit i ∙ ground (arith, full i),
    λ i.
        member-trim n w pos _ (length-not_words w rg ∙ valid.sized) some_bit i
        ∙ ground (arith, turned i),
  )

  -- `&=`, `|=` and `^=` with another set keep the invariant and are the intersection, the union and
  -- the symmetric difference.
  pub assign_lem :
      (other : List ℕ)
      → IsValid n w other
      → (IsValid n w (and_assign rg other)
          × ((i : ℕ) → member w (and_assign rg other) i ≡ (member w rg i && member w other i)))
        × (IsValid n w (or_assign rg other)
            × ((i : ℕ) → member w (or_assign rg other) i ≡ (member w rg i || member w other i)))
        × (IsValid n w (xor_assign rg other)
            × ((i : ℕ)
                → member w (xor_assign rg other) i ≡ differs (member w rg i) (member w other i)))
  unfolding and_assign or_assign xor_assign
  assign_lem other v = (
    (
      combined bit_and (λ x y p q. bit_and-lt w x y p)
          (λ i h. member-zip_and w rg other same i ∙ ground (arith, valid.trimmed i)),
      member-zip_and w rg other same,
    ),
    (
      combined bit_or (bit_or-lt w)
          (λ i h. member-zip_or w rg other same i ∙ ground (arith, valid.trimmed i, v.trimmed i)),
      member-zip_or w rg other same,
    ),
    (
      combined bit_xor (bit_xor-lt w)
          (λ i h. member-zip_xor w rg other same i ∙ ground (arith, valid.trimmed i, v.trimmed i)),
      member-zip_xor w rg other same,
    ),
  )
    where
      same : length rg ≡ length other
      same = valid.sized ∙ sym v.sized

      combined :
          (f : ℕ → ℕ → ℕ)
          → ((x y : ℕ) → x < 2 ^ w → y < 2 ^ w → f x y < 2 ^ w)
          → ((i : ℕ) → n ≤ i → member w (zip_words f rg other) i ≡ false)
          → IsValid n w (zip_words f rg other)
      combined f small above = record {
        sized = length-zip_words f rg other ∙ valid.sized;
        words = zip_words-AreWords w f small rg other valid.words v.words;
        trimmed = above;
      }

any-words : (rg : List ℕ) → any rg ≡ false → (k : ℕ) → get_or rg k 0 ≡ 0
unfolding any
any-words [] h k = refl
any-words (x ∷ xs) h zero = ground arith
any-words (x ∷ xs) h (suc k) = any-words xs (ground arith) k

words-any : (rg : List ℕ) → ((k : ℕ) → get_or rg k 0 ≡ 0) → any rg ≡ false
unfolding any
words-any [] h = refl
words-any (x ∷ xs) h = ground (arith, h 0, words-any xs (λ k. h (suc k)))

all-words :
    (w : ℕ) (rg : List ℕ) (k : ℕ) → all w rg ≡ true → k < length rg → get_or rg k 0 ≡ all_ones w
unfolding all
all-words w [] k h l = elim l [ ]
all-words w (x ∷ xs) zero h l = ground arith
all-words w (x ∷ xs) (suc k) h l = all-words w xs k (ground arith) (omega arith)

module _ (n w : ℕ) (pos : 0 < w) (some_bit : 0 < n) (rg : List ℕ) (valid : IsValid n w rg) where
  -- `any()` is false, and `none()` and `empty()` true, exactly for the empty set.
  pub any_iff : (any rg ≡ false) ↔ ((i : ℕ) → member w rg i ≡ false)
  any_iff = (
    λ h i.
        unfold member in
        ap (λ v. testbit v (i % w)) (any-words rg h (i / w)) ∙ zero_testbit (i % w),
    λ h. words-any rg (λ k. word_zero w pos rg k valid.words (λ j l. h (k * w + j))),
  )

  words_left : 0 < length rg
  words_left = rw valid.sized (omega (arith, word_in_range n w pos 0 some_bit))

  narrow : w < 32 → all w rg ≢ true
  narrow h e = ground (
    arith,
    all-words w rg 0 e words_left,
    All-get_or (λ x. x < 2 ^ w) rg 0 0 (two-pow-pos w) valid.words,
    two-pow_mono w 31 (omega arith),
  )

  top_bit : 32 ≤ w → all w rg ≡ true → member w rg ((els_array n w - 1) * w + (w - 1)) ≡ true
  top_bit wide e =
      let k = els_array n w - 1 in
      let inside : k < length rg = omega (arith, words_left, valid.sized) in
      let word : get_or rg k 0 ≡ 2 ^ w - 1 = all-words w rg k e inside ∙ ground arith in
      member-at w pos rg k (w - 1) (omega arith)
      ∙ ap (λ v. testbit v (w - 1)) word
      ∙ testbit-low_mask w (w - 1)
      ∙ ground arith

  above : n < els_array n w * w → n ≤ (els_array n w - 1) * w + (w - 1)
  above room =
      let split : els_array n w ≡ suc (els_array n w - 1) =
        omega (arith, words_left, valid.sized) in
      omega (arith, ap (λ (t : ℕ). t * w) split)

  -- `all()` is false for every set where the words are narrower than 32 bits, since the mask is
  -- then no value of the type, and where the words have room for more than `n` bits, since the
  -- bits above stay zero: so also just after `set()`.
  pub all_never : (w < 32) ⊎ (n < els_array n w * w) → all w rg ≡ false
  all_never why = elim (Bool-cases (all w rg)) [
    | inr no_bit ↦ no_bit
    | inl e ↦ elim (dec_lt w 32) [
      | yes h ↦ absurd (narrow h e)
      | no h ↦ elim why [
        | inl h' ↦ absurd (h h')
        | inr room ↦ cc (top_bit (omega arith) e, valid.trimmed _ (above room))
      ]
    ]
  ]
