-- ===== src/WordArray/Scan.antt =====
-- The element that a search has ended at: its word, and its position in it by a count of zeros.
use native.Mathlib.Nat.{div-add-mod, le-div_iff_mul-le, div-lt_iff_lt-mul, mul_comm}
use native.Mathlib.Decide.{dec_lt}
use bienutil.Base.{
  ℕ, ◌+◌, ◌-◌, ◌*◌, ◌/◌, ◌%◌, ◌^◌, ◌≤◌, ◌<◌, ◌≡◌, ◌≢◌, ap, ◌∙◌, arith, Bool, true, false, ◌&&◌,
  Option, none, some, List, leb, get_or, All-get_or,
}
use bienutil.Base.Digits.{testbit, zero_testbit, two-pow-pos}
use bienutil.WordArray.{member}
use bienutil.WordArray.Member.{AreWords}
use bienutil.WordArray.Search.{same_place}

-- `p` is the least element from `x` on.
abbrev pub IsLeast : ℕ → List ℕ → ℕ → ℕ → Type 0
IsLeast w rg x p =
    (x ≤ p) × (member w rg p ≡ true) × ((j : ℕ) → x ≤ j → j < p → member w rg j ≡ false)

-- `p` is the greatest element up to `x`.
abbrev pub IsGreatest : ℕ → List ℕ → ℕ → ℕ → Type 0
IsGreatest w rg x p =
    (p ≤ x) × (member w rg p ≡ true) × ((j : ℕ) → p < j → j ≤ x → member w rg j ≡ false)

-- The position of the lowest, and of the highest, digit of a word that is not zero.
abbrev pub IsTrailing : ℕ → (ℕ → ℕ) → Type 0
IsTrailing w ctz =
    (v : ℕ)
    → v ≢ 0
    → v < 2 ^ w
    → (ctz v < w) × (testbit v (ctz v) ≡ true) × ((k : ℕ) → k < ctz v → testbit v k ≡ false)

abbrev pub IsLeading : ℕ → (ℕ → ℕ) → Type 0
IsLeading w clz =
    (v : ℕ)
    → v ≢ 0
    → v < 2 ^ w
    → (clz v < w)
      × (testbit v (w - 1 - clz v) ≡ true)
      × ((k : ℕ) → w - 1 - clz v < k → testbit v k ≡ false)

-- What is documented of the counts of zeros.
pub record IsScan (w : ℕ) (ctz clz : ℕ → ℕ) : Type 0 where
  pub trailing : IsTrailing w ctz
  pub leading : IsLeading w clz

-- The word holds exactly the elements of its part of the set that `inside` keeps.
abbrev pub Holds : ℕ → List ℕ → (ℕ → Bool) → ℕ → ℕ → Type 0
Holds w rg inside e v =
    (v ≢ 0)
    × (v < 2 ^ w)
    × ((k : ℕ) → k < w → testbit v k ≡ (inside (e * w + k) && member w rg (e * w + k)))

abbrev pub IsNext : ℕ → List ℕ → ℕ → Option (ℕ × ℕ) → Type 0
IsNext w rg x none = (j : ℕ) → x ≤ j → member w rg j ≡ false
IsNext w rg x (some (e, v)) =
    Holds w rg (λ j. leb x j) e v × ((j : ℕ) → x ≤ j → j < e * w → member w rg j ≡ false)

abbrev pub IsPrevious : ℕ → List ℕ → ℕ → Option (ℕ × ℕ) → Type 0
IsPrevious w rg x none = (j : ℕ) → j ≤ x → member w rg j ≡ false
IsPrevious w rg x (some (e, v)) =
    Holds w rg (λ j. leb j x) e v × ((j : ℕ) → e * w + w ≤ j → j ≤ x → member w rg j ≡ false)

module _ (w : ℕ) (pos : 0 < w) where
  pub div_mono : (x j : ℕ) → x ≤ j → x / w ≤ j / w
  div_mono x j h = (le-div_iff_mul-le pos).1 (omega (arith, div-add-mod x w, mul_comm w (x / w)))

  -- Below, at or above a word's part.
  pub below : (e j : ℕ) → j < e * w → j / w < e
  below e j h = (div-lt_iff_lt-mul pos).1 h

  pub above : (e j : ℕ) → j / w < e → j < e * w
  above e j h = (div-lt_iff_lt-mul pos).0 h

  module _ (rg : List ℕ) (words : AreWords w rg) where
    pub word-lt : (k : ℕ) → get_or rg k 0 < 2 ^ w
    word-lt k = All-get_or (λ x. x < 2 ^ w) rg k 0 (two-pow-pos w) words

    pub empty_word : (j : ℕ) → get_or rg (j / w) 0 ≡ 0 → member w rg j ≡ false
    unfolding member
    empty_word j z = ap (λ v. testbit v (j % w)) z ∙ zero_testbit (j % w)

    module _ (ctz : ℕ → ℕ) (trailing : IsTrailing w ctz) where
      pub lowest-IsLeast :
          (x e v : ℕ) → IsNext w rg x (some (e, v)) → IsLeast w rg x (ctz v + e * w)
      lowest-IsLeast x e v ((nz, small, holds), before) =
          let (inside, on, off) = trailing v nz small in
          let swap = same_place (member w rg) (ctz v + e * w) (e * w + ctz v) (omega arith) in
          let found = holds (ctz v) inside in
          (
            ground (arith, found),
            swap ∙ ground (arith, found),
            λ j l h. elim (dec_lt j (e * w)) [
              | yes b ↦ before j l b
              | no nb ↦
                  let here = same_place (member w rg) j (e * w + (j - e * w)) (omega arith) in
                  let gone = off (j - e * w) (omega arith) in
                  let held = holds (j - e * w) (omega arith) in here ∙ ground (arith, gone, held)
            ],
          )

    module _ (ctz clz : ℕ → ℕ) (scan : IsScan w ctz clz) where
      pub next-IsLeast : (x e v : ℕ) → IsNext w rg x (some (e, v)) → IsLeast w rg x (ctz v + e * w)
      next-IsLeast = lowest-IsLeast ctz scan.trailing

      pub previous-IsGreatest :
          (x e v : ℕ) → IsPrevious w rg x (some (e, v)) → IsGreatest w rg x (w - 1 - clz v + e * w)
      previous-IsGreatest x e v ((nz, small, holds), after) =
          let (inside, on, off) = scan.leading v nz small in
          let top = w - 1 - clz v in
          let swap = same_place (member w rg) (top + e * w) (e * w + top) (omega arith) in
          let found = holds top (omega arith) in
          (
            ground (arith, found),
            swap ∙ ground (arith, found),
            λ j l h. elim (dec_lt j (e * w + w)) [
              | no nb ↦ after j (omega arith) h
              | yes b ↦
                  let here = same_place (member w rg) j (e * w + (j - e * w)) (omega arith) in
                  let gone = off (j - e * w) (omega arith) in
                  let held = holds (j - e * w) (omega arith) in here ∙ ground (arith, gone, held)
            ],
          )
