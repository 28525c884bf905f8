-- ===== src/FixedBv/Bits.antt =====
-- The operations of `FixedBV` on single bits and on all of them, as operations on a set.
use bienutil.Base.{
  ℕ, ◌/◌, ◌^◌, ◌≤◌, ◌<◌, ◌≡◌, ◌∙◌, arith, Bool, true, false, not, List, Option, none, some, ltb,
  ◌==◌, if◌then◌else◌, set, length, length-set, All-set, All-get_or,
}
use bienutil.Base.Digits.{bit_and-lt, bit_or-lt, bit_xor-lt, two-pow-pos}
use bienutil.WordArray.{member, word_of, or_bit, clear_bit, flip_bit}
use bienutil.WordArray.Member.{
  test_bit-member, member-or_bit, member-clear_bit, member-flip_bit, mask-lt,
}
use bienutil.FixedBv.{test, set_value, set_bit, reset_bit, flip_one}
use bienutil.FixedBv.Trim.{IsValid, word_in_range}

-- The result of a single-bit operation: the invariant holds, and the bit at that position is mapped
-- by `f` and no other is changed.
abbrev pub Updates : ℕ → ℕ → List ℕ → ℕ → Option (List ℕ) → (Bool → Bool) → Type 0
Updates n w rg i o f =
    (r : List ℕ) × (o ≡ some r)
    × IsValid n w r
    × ((j : ℕ) → member w r j ≡ (if i == j then f (member w rg j) else member w rg j))

module _ (n w : ℕ) (pos : 0 < w) where
  module _ (rg : List ℕ) (valid : IsValid n w rg) (i : ℕ) where
    replaced :
        (v : ℕ) (f : Bool → Bool)
        → v < 2 ^ w
        → i < n
        → ((j : ℕ)
            → member w (set rg (i / w) v) j ≡ (if i == j then f (member w rg j) else member w rg j))
        → IsValid n w (set rg (i / w) v)
    replaced v f small h m = record {
      sized = length-set rg (i / w) v ∙ valid.sized;
      words = All-set (λ x. x < 2 ^ w) rg (i / w) v small valid.words;
      trimmed = λ j k. ground (arith, m j, valid.trimmed j);
    }

    word-lt : word_of w rg i < 2 ^ w
    word-lt = All-get_or (λ x. x < 2 ^ w) rg (i / w) 0 (two-pow-pos w) valid.words

    in_range : i < n → i / w < length rg
    in_range h = rw valid.sized (word_in_range n w pos i h)

    or-Updates : i < n → IsValid n w (or_bit w rg i)
    unfolding or_bit
    or-Updates h =
        replaced _ (λ _. true) (bit_or-lt w _ _ word-lt (mask-lt w pos i)) h
          (λ j. member-or_bit w pos rg i j (in_range h))

    clear-Updates : i < n → IsValid n w (clear_bit w rg i)
    unfolding clear_bit
    clear-Updates h =
        replaced _ (λ _. false) (bit_and-lt w _ _ word-lt) h
          (λ j. member-clear_bit w pos rg i j (in_range h))

    flip-Updates : i < n → IsValid n w (flip_bit w rg i)
    unfolding flip_bit
    flip-Updates h =
        replaced _ not (bit_xor-lt w _ _ word-lt (mask-lt w pos i)) h
          (λ j. member-flip_bit w pos rg i j (in_range h))

    writes : i < n → (b : Bool) → Updates n w rg i (set_value n w rg i b) (λ _. b)
    unfolding set_value
    writes h true =
        (or_bit w rg i, ground arith, or-Updates h, λ j. member-or_bit w pos rg i j (in_range h))
    writes h false = (
      clear_bit w rg i,
      ground arith,
      clear-Updates h,
      λ j. member-clear_bit w pos rg i j (in_range h),
    )

    -- At a position below `n`, `set( i )`, `set( i, value )`, `reset( i )` and `flip( i )` keep the
    -- invariant, and set, write, clear or turn over that bit and leave the others alone.
    pub single_bit-Updates :
        i < n
        → Updates n w rg i (set_bit n w rg i) (λ _. true)
          × ((b : Bool) → Updates n w rg i (set_value n w rg i b) (λ _. b))
          × Updates n w rg i (reset_bit n w rg i) (λ _. false)
          × Updates n w rg i (flip_one n w rg i) not
    unfolding set_bit reset_bit flip_one
    single_bit-Updates h = (
      (or_bit w rg i, ground arith, or-Updates h, λ j. member-or_bit w pos rg i j (in_range h)),
      writes h,
      (
        clear_bit w rg i,
        ground arith,
        clear-Updates h,
        λ j. member-clear_bit w pos rg i j (in_range h),
      ),
      (
        flip_bit w rg i,
        ground arith,
        flip-Updates h,
        λ j. member-flip_bit w pos rg i j (in_range h),
      ),
    )

    -- At a position from `n` on, each of them throws, and so does `test`.
    pub single_bit-throws :
        n ≤ i
        → (set_bit n w rg i ≡ none)
          × ((b : Bool) → set_value n w rg i b ≡ none)
          × (reset_bit n w rg i ≡ none)
          × (flip_one n w rg i ≡ none)
          × (test n w rg i ≡ none)
    unfolding set_bit set_value reset_bit flip_one test
    single_bit-throws h =
        (ground arith, λ b. ground arith, ground arith, ground arith, ground arith)

    -- `test( i )` throws from `n` on, and below it tells whether the bit is set.
    pub test-member : test n w rg i ≡ (if ltb i n then some (member w rg i) else none)
    unfolding test
    test-member = ground (arith, test_bit-member w pos rg i)
