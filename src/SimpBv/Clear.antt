-- ===== src/SimpBv/Clear.antt =====
-- `getclearfirstset`: the least bit, taken out.
use native.Mathlib.Nat.{mul-add-div_right, div-eq_of_lt, mul-add-mod_self_right, mod-eq_of_lt}
use native.Mathlib.Decide.{dec_lt}
use mathlib.Core.Path.{subst}
use bienutil.Base.{
  ℕ, ◌+◌, ◌-◌, ◌*◌, ◌/◌, ◌%◌, ◌^◌, ◌≤◌, ◌<◌, ◌≡◌, refl, sym, ap, ◌∙◌, arith, true, false, Option,
  none, some, List, leb, ◌==◌, if◌then◌else◌, set, length, length-set, All-set, inl, inr,
}
use bienutil.Base.Digits.{testbit}
use bienutil.WordArray.{member, word_of, first_word}
use bienutil.WordArray.Member.{member-at, member_above, member-set}
use bienutil.WordArray.Scan.{IsLeading, IsNext}
use bienutil.WordArray.Next.{from_word-IsNext}
use bienutil.SimpBv.{getclearfirstset, getclearfirstset}
use bienutil.SimpBv.First.{
  IsLowest, IsLowest-digit, testbit-without_first, without_first-lt, bv_get_clear_first_set_lem,
}
use bienutil.SimpBv.{cleared, without_first}
use bienutil.WordArray.Valid.{IsValid}
use bienutil.SimpBv.Search.{IsFirst}
use bienutil.WordArray.Scan.{Holds}

-- The least bit of a vector, or the number of bits, beside what is left without it.
abbrev pub IsTaken : ℕ → ℕ → List ℕ → ℕ × List ℕ → Type 0
IsTaken n w rg (r, left) =
    IsFirst n (member w rg) 0 r
    × IsValid w n left
    × ((j : ℕ) → member w left j ≡ (if r == j then false else member w rg j))

module _ (clz : ℕ → ℕ) (wide n w : ℕ) (pos : 0 < w) (fits : w ≤ wide)
    (leading : IsLeading wide clz) where
  module _ (rg : List ℕ) (valid : IsValid w n rg) where
    module _ (el v k : ℕ) (holds : Holds w rg (λ j. leb 0 j) el v)
        (before : (j : ℕ) → 0 ≤ j → j < el * w → member w rg j ≡ false) (small : v < 2 ^ w)
        (inside : k < w) (low : IsLowest v k) where
      abbrev p : ℕ
      p = el * w + k

      word : p / w ≡ el
      word = mul-add-div_right pos el k ∙ omega (arith, div-eq_of_lt inside)

      digit : p % w ≡ k
      digit = mul-add-mod_self_right el w k ∙ mod-eq_of_lt inside

      on : member w rg p ≡ true
      on = ground (arith, holds.2 k inside, low.on)

      in_array : p / w < length rg
      in_array = elim (dec_lt (p / w) (length rg)) [
        | yes l ↦ l
        | no l ↦ cc (on, member_above w pos rg p (omega arith))
      ]

      left_digit :
          (d : ℕ)
          → d < w
          → testbit (without_first v) d ≡ (if p % w == d then false else testbit (word_of w rg p) d)
      left_digit d l =
          rw (digit, word)
            (testbit-without_first w v k small low d
              ∙ ground (arith, holds.2 d l, member-at w pos rg el d l))

      taken : IsTaken n w rg (p, set rg el (without_first v))
      taken =
          subst (λ e. IsTaken n w rg (p, set rg e (without_first v))) word
            (
              inr (omega arith, on, least),
              record {
                words =
                    All-set (λ x. x < 2 ^ w) rg (p / w) _ (without_first-lt w v k small low)
                      valid.words;
                sized = rw (length-set rg (p / w) (without_first v)) valid.sized;
                bounded = λ i l. ground (arith, left_member i, valid.bounded i);
              },
              left_member,
            )
        where
          left_member :
              (j : ℕ)
              → member w (set rg (p / w) (without_first v)) j
                ≡ (if p == j then false else member w rg j)
          left_member = member-set w pos rg p (without_first v) (λ _. false) in_array left_digit

          least : (j : ℕ) → 0 ≤ j → j < p → member w rg j ≡ false
          least j l h = elim (dec_lt j (el * w)) [
            | yes b ↦ before j l b
            | no nb ↦
                let place : el * w + (j - el * w) ≡ j = omega arith in
                ap (member w rg) (sym place)
                ∙ ground (
                  arith,
                  holds.2 (j - el * w) (omega arith),
                  low.below (j - el * w) (omega arith),
                )
          ]

    -- `getclearfirstset` returns the least bit and clears it and no other, or returns the number of
    -- bits and changes nothing where there is none.
    pub getclearfirstset-IsTaken : IsTaken n w rg (getclearfirstset clz wide n w rg)
    unfolding getclearfirstset
    getclearfirstset-IsTaken = by_word (first_word 0 rg) (from_word-IsNext w pos rg valid.words 0)
      where
        by_word :
            (o : Option (ℕ × ℕ))
            → IsNext w rg (0 * w) o
            → IsTaken n w rg (cleared clz wide n w rg o)
        by_word none next = (
          inl (refl, λ j l. next j (omega arith)),
          valid,
          λ j. ground (arith, next j (omega arith)),
        )
        by_word (some (el, v)) (holds, before) =
            let (k, inside, low) = IsLowest-digit w v holds.0 holds.1 in
            rw (bv_get_clear_first_set_lem clz wide w fits leading v k inside holds.1 low) (
              taken el v k (holds.0, holds.1, λ d l. ground (arith, holds.2 d l))
                (λ j l h. before j (omega arith) h) holds.1 inside low)
