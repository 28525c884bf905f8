-- ===== src/WordArray/Next.antt =====
-- The search for the word of the next element.
use native.Mathlib.Nat.{le-div_iff_mul-le, mod-lt, div-add-mod, mul_comm}
use native.Mathlib.Decide.{ℕ_discrete}
use bienutil.Base.{
  ℕ, suc, ◌+◌, ◌-◌, ◌*◌, ◌/◌, ◌%◌, ◌^◌, ◌≤◌, ◌<◌, ◌≡◌, sym, ap, ◌∙◌, arith, bit_and, true, false,
  ◌&&◌, Option, none, some, List, leb, ◌==◌, get_or, get_or-drop, drop, Bool-cases, inl, inr,
}
use bienutil.Base.Digits.{
  ◌<<<◌, bit_not, testbit, testbit-bit_and, testbit-bit_not, testbit-low_mask, zero_testbit,
  bit_and-lt, two-pow-lt,
}
use bienutil.WordArray.{member, word_of, first_word}
use bienutil.WordArray.Member.{AreWords, member-at}
use bienutil.WordArray.Search.{Upwards, first_word-Upwards, same_place}
use bienutil.WordArray.{next_word}
use bienutil.WordArray.Scan.{IsNext, div_mono, below, above, word-lt, empty_word}

module _ (w : ℕ) (pos : 0 < w) (rg : List ℕ) (words : AreWords w rg) where
  -- The masked word of `x`: the digits from that of `x` on.
  from_digit :
      (x k : ℕ)
      → k < w
      → testbit (bit_and (word_of w rg x) (bit_not w ((1 <<< (x % w)) - 1))) k
        ≡ (leb x (x / w * w + k) && member w rg (x / w * w + k))
  from_digit x k h =
      let r = x % w in
      let mask : (1 <<< r) - 1 ≡ 2 ^ r - 1 = omega arith in
      let small : 2 ^ r - 1 < 2 ^ w = omega (arith, two-pow-lt r w (mod-lt x pos)) in
      rw mask (
        testbit-bit_and k (word_of w rg x) (bit_not w (2 ^ r - 1))
        ∙ ground (
          arith,
          testbit-bit_not w k (2 ^ r - 1) small,
          testbit-low_mask r k,
          member-at w pos rg (x / w) k h,
          div-add-mod x w,
          mul_comm w (x / w),
        ))

  Upwards-IsNext :
      (x : ℕ) (o : Option (ℕ × ℕ))
      → Upwards (λ k. get_or rg k 0) (suc (x / w)) o
      → ((j : ℕ) → x ≤ j → j / w ≡ x / w → member w rg j ≡ false)
      → IsNext w rg x o
  Upwards-IsNext x none up here = λ j l. elim (ℕ_discrete (j / w) (x / w)) [
    | yes e ↦ here j l e
    | no n ↦ empty_word w pos rg words j (up (j / w) (omega (arith, div_mono w pos x j l)))
  ]
  Upwards-IsNext x (some (e, v)) (after, word, nz, up) here = (
    (
      nz,
      rw word (word-lt w pos rg words e),
      λ k h.
          ap (λ y. testbit y k) word
          ∙ ground (arith, member-at w pos rg e k h, above w pos e x (omega arith)),
    ),
    λ j l b. elim (ℕ_discrete (j / w) (x / w)) [
      | yes q ↦ here j l q
      | no n ↦
          empty_word w pos rg words j
            (up (j / w) (omega (arith, div_mono w pos x j l)) (below w pos e j b))
    ],
  )

  -- The search from `x` on ends at the word of the next element, if there is one.
  pub next_word-IsNext : (x : ℕ) → IsNext w rg x (next_word w rg x)
  unfolding next_word
  next_word-IsNext x = elim (Bool-cases (masked == 0)) [
    | inl z ↦ rw z (
        Upwards-IsNext x (first_word (suc (x / w)) (drop (suc (x / w)) rg))
          (first_word-Upwards (λ k. get_or rg k 0) (suc (x / w)) (drop (suc (x / w)) rg)
            (λ k. sym (get_or-drop (suc (x / w)) rg k 0)))
          (none_here z))
    | inr nz ↦ rw nz (
      (ground arith, bit_and-lt w _ _ (word-lt w pos rg words (x / w)), from_digit x),
      λ j l b. absurd (omega (arith, div-add-mod x w, mul_comm w (x / w))),
    )
  ]
    where
      masked : ℕ
      masked = bit_and (word_of w rg x) (bit_not w ((1 <<< (x % w)) - 1))

      none_here : (masked == 0) ≡ true → (j : ℕ) → x ≤ j → j / w ≡ x / w → member w rg j ≡ false
      none_here z j l e =
          let m : masked ≡ 0 = ground arith in
          let place : x / w * w + j % w ≡ j =
            omega (arith, div-add-mod j w, mul_comm w (j / w), ap (λ (t : ℕ). t * w) e) in
          let digit = ap (λ y. testbit y (j % w)) m in
          same_place (member w rg) j (x / w * w + j % w) (sym place)
          ∙ ground (arith, from_digit x (j % w) (mod-lt j pos), digit, zero_testbit (j % w), place)

  -- The search from the start of a word on.
  pub from_word-IsNext : (el : ℕ) → IsNext w rg (el * w) (first_word el (drop el rg))
  from_word-IsNext el =
      start (first_word el (drop el rg))
        (first_word-Upwards (λ k. get_or rg k 0) el (drop el rg) (λ k. sym (get_or-drop el rg k 0)))
    where
      reached : (j : ℕ) → el * w ≤ j → el ≤ j / w
      reached j l = (le-div_iff_mul-le pos).1 l

      later : (e k : ℕ) → el ≤ e → el * w ≤ e * w + k
      later e k l = grind arith

      start : (o : Option (ℕ × ℕ)) → Upwards (λ k. get_or rg k 0) el o → IsNext w rg (el * w) o
      start none up = λ j l. empty_word w pos rg words j (up (j / w) (reached j l))
      start (some (e, v)) (after, word, nz, up) = (
        (
          nz,
          rw word (word-lt w pos rg words e),
          λ k h.
              ap (λ y. testbit y k) word
              ∙ ground (arith, member-at w pos rg e k h, later e k after),
        ),
        λ j l b. empty_word w pos rg words j (up (j / w) (reached j l) (below w pos e j b)),
      )
