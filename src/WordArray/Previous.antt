-- ===== src/WordArray/Previous.antt =====
-- The search for the word of the previous element.
use native.Mathlib.Nat.{mod-lt, mod-eq_of_lt, mod_self, div-add-mod, le-div_iff_mul-le, mul_comm}
use native.Mathlib.Decide.{ℕ_discrete, dec_lt}
use bienutil.Base.{
  ℕ, suc, ◌+◌, ◌-◌, ◌*◌, ◌/◌, ◌%◌, ◌^◌, ◌≤◌, ◌<◌, ◌≡◌, sym, ap, ◌∙◌, arith, bit_and, true, false,
  ◌&&◌, Option, none, some, List, leb, ◌==◌, if◌then◌else◌, get_or, Bool-cases, inl, inr,
}
use bienutil.Base.Digits.{
  ◌<<<◌, testbit, testbit-bit_and, testbit-low_mask, zero_testbit, bit_and-lt,
}
use bienutil.WordArray.{member, word_of, last_word}
use bienutil.WordArray.Member.{AreWords, member-at}
use bienutil.WordArray.Search.{Downwards, last_word-Downwards, same_place}
use bienutil.WordArray.{previous_word}
use bienutil.WordArray.Scan.{IsPrevious, div_mono, word-lt, empty_word}

module _ (w : ℕ) (pos : 0 < w) (rg : List ℕ) (words : AreWords w rg) where
  -- The masked word of `x`: the digits up to that of `x`.
  abbrev up_to : ℕ → ℕ
  up_to x =
      let k = suc (x % w) in
      if k % w == 0 then word_of w rg x else bit_and (word_of w rg x) ((1 <<< k) - 1)

  up_to_digit :
      (x d : ℕ)
      → d < w
      → testbit (up_to x) d ≡ (leb (x / w * w + d) x && member w rg (x / w * w + d))
  up_to_digit x d h = elim (dec_lt (suc (x % w)) w) [
    | yes l ↦
        let mask : (1 <<< suc (x % w)) - 1 ≡ 2 ^ suc (x % w) - 1 = omega arith in
        let uneven : (suc (x % w) % w == 0) ≡ false = ground (arith, mod-eq_of_lt l) in
        rw (uneven, mask)
          (testbit-bit_and d (word_of w rg x) (2 ^ suc (x % w) - 1)
            ∙ ground (
              arith,
              testbit-low_mask (suc (x % w)) d,
              member-at w pos rg (x / w) d h,
              div-add-mod x w,
              mul_comm w (x / w),
            ))
    | no nl ↦
        let whole : suc (x % w) ≡ w = omega (arith, mod-lt x pos) in
        let even : (suc (x % w) % w == 0) ≡ true = rw whole (ground (arith, mod_self w)) in
        rw even
          (ground (arith, member-at w pos rg (x / w) d h, div-add-mod x w, mul_comm w (x / w)))
  ]

  up_to-lt : (x : ℕ) → up_to x < 2 ^ w
  up_to-lt x = elim (Bool-cases (suc (x % w) % w == 0)) [
    | inl e ↦ rw e (word-lt w pos rg words (x / w))
    | inr e ↦ rw e (bit_and-lt w _ _ (word-lt w pos rg words (x / w)))
  ]

  Downwards-IsPrevious :
      (x : ℕ) (o : Option (ℕ × ℕ))
      → Downwards (λ k. get_or rg k 0) (x / w) o
      → ((j : ℕ) → j ≤ x → j / w ≡ x / w → member w rg j ≡ false)
      → IsPrevious w rg x o
  Downwards-IsPrevious x none down here = λ j l. elim (ℕ_discrete (j / w) (x / w)) [
    | yes e ↦ here j l e
    | no n ↦ empty_word w pos rg words j (down (j / w) (omega (arith, div_mono w pos j x l)))
  ]
  Downwards-IsPrevious x (some (e, v)) (before, word, nz, down) here = (
    (
      nz,
      rw word (word-lt w pos rg words e),
      λ k h.
          ap (λ y. testbit y k) word
          ∙ ground (arith, member-at w pos rg e k h, before_part e before),
    ),
    λ j b l. elim (ℕ_discrete (j / w) (x / w)) [
      | yes q ↦ here j l q
      | no n ↦
          empty_word w pos rg words j
            (down (j / w) (beyond e j b) (omega (arith, div_mono w pos j x l)))
    ],
  )
    where
      before_part : (e : ℕ) → e < x / w → e * w + w ≤ x
      before_part e h =
          let s : suc e * w ≡ e * w + w = omega arith in
          omega (arith, s, (le-div_iff_mul-le pos).0 h)

      beyond : (e j : ℕ) → e * w + w ≤ j → e < j / w
      beyond e j b =
          let s : suc e * w ≡ e * w + w = omega arith in
          (le-div_iff_mul-le pos).1 (omega (arith, s))

  -- The search up to `x` ends at the word of the previous element, if there is one.
  pub previous_word-IsPrevious : (x : ℕ) → IsPrevious w rg x (previous_word w rg x)
  unfolding previous_word
  previous_word-IsPrevious x = elim (Bool-cases (up_to x == 0)) [
    | inl z ↦ rw z (
        Downwards-IsPrevious x (last_word (x / w) rg) (last_word-Downwards rg (x / w))
          (none_here z))
    | inr nz ↦ rw nz (
      (ground arith, up_to-lt x, up_to_digit x),
      λ j b l. absurd (omega (arith, div-add-mod x w, mod-lt x pos, mul_comm w (x / w))),
    )
  ]
    where
      none_here : (up_to x == 0) ≡ true → (j : ℕ) → j ≤ x → j / w ≡ x / w → member w rg j ≡ false
      none_here z j l e =
          let m : up_to x ≡ 0 = ground arith in
          let place : x / w * w + j % w ≡ j =
            omega (arith, div-add-mod j w, mul_comm w (j / w), ap (λ (t : ℕ). t * w) e) in
          let digit = ap (λ y. testbit y (j % w)) m in
          same_place (member w rg) j (x / w * w + j % w) (sym place)
          ∙ ground (arith, up_to_digit x (j % w) (mod-lt j pos), digit, zero_testbit (j % w), place)
