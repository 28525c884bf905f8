-- ===== src/WordArray/Member.antt =====
-- What reading and writing one bit means for the set.
use native.Mathlib.Nat.{
  div-add-mod, mod-lt, mul-add-div_right, mul-add-mod_self_right, mod-eq_of_lt, div-eq_of_lt,
}
use bienutil.Base.{
  ℕ, ◌+◌, ◌*◌, ◌/◌, ◌%◌, ◌^◌, ◌≤◌, ◌<◌, ◌≡◌, sym, ap, ◌∙◌, arith, Bool, true, false, not, ◌&&◌,
  List, ◌==◌, if◌then◌else◌, get_or, set, length, get_or-set_self, get_or-set_ne, All, All-get_or,
  get_or_above,
}
use native.Mathlib.Decide.{ℕ_discrete}
use bienutil.Base.Digits.{
  bit_not, testbit, testbit-bit_and, testbit-bit_or, testbit-bit_xor, testbit-bit_not,
  testbit-two_pow, two-pow-lt, testbit_ext, test_one_digit, zero_testbit, two-pow-pos,
}
use bienutil.WordArray.{word_of, mask_of, test_bit, or_bit, clear_bit, flip_bit, member}

-- Every word has `w` bits.
abbrev pub AreWords : ℕ → List ℕ → Type 0
AreWords w = All (λ x. x < 2 ^ w)

module _ (w : ℕ) (pos : 0 < w) where
  pub same_position : (i j : ℕ) → (i == j) ≡ ((i / w == j / w) && (i % w == j % w))
  same_position i j = ground (
    arith,
    div-add-mod i w,
    div-add-mod j w,
    rebuild (i / w) (j / w) (i % w) (j % w),
    divides i j,
  )
    where
      rebuild : (a b c d : ℕ) → a ≡ b → c ≡ d → w * a + c ≡ w * b + d
      rebuild a b c d p q = cc

      divides : (a b : ℕ) → a ≡ b → (a / w ≡ b / w) × (a % w ≡ b % w)
      divides a b p = (cc, cc)

  testbit-mask_of : (i k : ℕ) → testbit (mask_of w i) k ≡ (i % w == k)
  testbit-mask_of i k = rw mask (testbit-two_pow (i % w) k)
    where
      mask : mask_of w i ≡ 2 ^ (i % w)
      mask = omega arith

  -- A write to the word of `i` changes the set there only.
  pub member-set :
      (rg : List ℕ) (i v : ℕ) (f : Bool → Bool)
      → i / w < length rg
      → ((k : ℕ)
          → k < w
          → testbit v k ≡ (if i % w == k then f (member w rg i) else testbit (word_of w rg i) k))
      → (j : ℕ)
      → member w (set rg (i / w) v) j ≡ (if i == j then f (member w rg i) else member w rg j)
  unfolding member
  member-set rg i v f fits h j = elim (ℕ_discrete (i / w) (j / w)) [
    | yes e ↦
        let there : get_or (set rg (i / w) v) (j / w) 0 ≡ v =
          rw (sym e) (get_or-set_self rg (i / w) v 0 fits) in
        let same : word_of w rg i ≡ word_of w rg j = ap (λ k. get_or rg k 0) e in
        ground (
          arith,
          ap (λ x. testbit x (j % w)) there,
          ap (λ x. testbit x (j % w)) same,
          h (j % w),
          mod-lt j pos,
          same_position i j,
        )
    | no n ↦ ground (
      arith,
      ap (λ x. testbit x (j % w)) (get_or-set_ne rg (i / w) (j / w) v 0 n),
      same_position i j,
    )
  ]

  pub test_bit-member : (rg : List ℕ) (i : ℕ) → test_bit w rg i ≡ member w rg i
  unfolding test_bit member
  test_bit-member rg i =
      let mask : mask_of w i ≡ 2 ^ (i % w) = omega arith in
      rw mask (test_one_digit (word_of w rg i) (i % w))

  pub mask-lt : (i : ℕ) → mask_of w i < 2 ^ w
  mask-lt i = omega (arith, two-pow-lt (i % w) w (mod-lt i pos))

  pub member-or_bit :
      (rg : List ℕ) (i j : ℕ)
      → i / w < length rg
      → member w (or_bit w rg i) j ≡ (if i == j then true else member w rg j)
  unfolding or_bit
  member-or_bit rg i j fits =
      member-set rg i _ (λ _. true) fits
        (λ k h.
          testbit-bit_or k (word_of w rg i) (mask_of w i) ∙ ground (arith, testbit-mask_of i k))
        j

  pub member-clear_bit :
      (rg : List ℕ) (i j : ℕ)
      → i / w < length rg
      → member w (clear_bit w rg i) j ≡ (if i == j then false else member w rg j)
  unfolding clear_bit
  member-clear_bit rg i j fits =
      member-set rg i _ (λ _. false) fits
        (λ k h.
          testbit-bit_and k (word_of w rg i) (bit_not w (mask_of w i))
          ∙ ground (arith, testbit-mask_of i k, testbit-bit_not w k (mask_of w i) (mask-lt i)))
        j

  pub member-flip_bit :
      (rg : List ℕ) (i j : ℕ)
      → i / w < length rg
      → member w (flip_bit w rg i) j ≡ (if i == j then not (member w rg j) else member w rg j)
  unfolding flip_bit member
  member-flip_bit rg i j fits =
      member-set rg i _ not fits
        (λ k h.
          testbit-bit_xor k (word_of w rg i) (mask_of w i)
          ∙ ground (arith, testbit-mask_of i k, same_digit k))
        j
      ∙ ground (arith, same_bit)
    where
      same_digit :
          (k : ℕ) → i % w ≡ k → testbit (word_of w rg i) (i % w) ≡ testbit (word_of w rg i) k
      same_digit k e = ap (testbit (word_of w rg i)) e

      same_bit : i ≡ j → testbit (word_of w rg i) (i % w) ≡ testbit (word_of w rg j) (j % w)
      same_bit e = ap (λ k. testbit (word_of w rg k) (k % w)) e

module _ (w : ℕ) (pos : 0 < w) where
  -- The set by word and digit.
  pub member-at :
      (rg : List ℕ) (k j : ℕ) → j < w → member w rg (k * w + j) ≡ testbit (get_or rg k 0) j
  unfolding member
  member-at rg k j h = rw (word, digit)
    where
      word : (k * w + j) / w ≡ k
      word = mul-add-div_right pos k j ∙ omega (arith, div-eq_of_lt h)

      digit : (k * w + j) % w ≡ j
      digit = mul-add-mod_self_right k w j ∙ mod-eq_of_lt h

  pub member_above : (rg : List ℕ) (i : ℕ) → length rg ≤ i / w → member w rg i ≡ false
  unfolding member
  member_above rg i h =
      ap (λ v. testbit v (i % w)) (get_or_above rg (i / w) 0 h) ∙ zero_testbit (i % w)

  -- A word is zero where the set has nothing.
  pub word_zero :
      (rg : List ℕ) (k : ℕ)
      → AreWords w rg
      → ((j : ℕ) → j < w → member w rg (k * w + j) ≡ false)
      → get_or rg k 0 ≡ 0
  word_zero rg k a h =
      testbit_ext w _ 0 (All-get_or (λ x. x < 2 ^ w) rg k 0 (two-pow-pos w) a) (two-pow-pos w)
        (λ j l. sym (member-at rg k j l) ∙ h j l ∙ sym (zero_testbit j))
