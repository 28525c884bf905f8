-- ===== src/VebFixed/Take.antt =====
-- `NSuccessorDelete` and `NPredecessorDelete`.
use native.Mathlib.Nat.{mul-add-div_right, mul-add-mod_self_right, mod-eq_of_lt, div-eq_of_lt}
use bienutil.Base.{
  ℕ, suc, ◌+◌, ◌-◌, ◌*◌, ◌/◌, ◌%◌, ◌^◌, ◌≤◌, ◌<◌, ◌≡◌, ◌⊎◌, inl, inr, refl, ap, ◌∙◌, arith, bit_and,
  true, false, Option, none, some, List, leb, ◌==◌, get_or, set, Bool-cases,
}
use native.Mathlib.Decide.{dec_lt}
use bienutil.Base.Digits.{◌<<<◌, bit_not}
use bienutil.WordArray.{member, clear_bit, next_word, previous_word}
use bienutil.WordArray.Valid.{IsValid, Writes, clear_bit-Writes}
use bienutil.WordArray.Scan.{
  IsScan, IsLeast, IsGreatest, IsNext, IsPrevious, next-IsLeast, previous-IsGreatest,
}
use bienutil.WordArray.Next.{next_word-IsNext}
use bienutil.WordArray.Previous.{previous_word-IsPrevious}
use bienutil.VebFixed.{impl, taking, n_successor_delete, n_predecessor_delete}
use bienutil.VebFixed.Order.{impl_fits}

module _ (w u : ℕ) (ctz clz : ℕ → ℕ) (pos : 0 < w) (small : u ≤ 2 ^ 64) (scan : IsScan w ctz clz)
    (rg : List ℕ) (valid : IsValid w u rg) where
  inside : (p : ℕ) → member w rg p ≡ true → p < u
  inside p on = elim (dec_lt p u) [
    | yes h ↦ h
    | no k ↦ absurd (cc (on, valid.bounded p (omega arith)))
  ]

  -- The write to the word found is that of the element's bit.
  same_write :
      (e d : ℕ)
      → d < w
      → set rg e (bit_and (get_or rg e 0) (bit_not w (1 <<< d))) ≡ clear_bit w rg (d + e * w)
  unfolding clear_bit
  same_write e d h =
      let at : (d + e * w) / w ≡ e =
        ap (λ t. t / w) (omega arith) ∙ mul-add-div_right pos e d ∙ omega (arith, div-eq_of_lt h) in
      let place : (d + e * w) % w ≡ d =
        ap (λ t. t % w) (omega arith) ∙ mul-add-mod_self_right e w d ∙ mod-eq_of_lt h in
      rw (at, place) refl

  taken :
      (e d : ℕ)
      → d < w
      → member w rg (d + e * w) ≡ true
      → Writes w u rg
          (impl u (d + e * w))
          false
          (set rg e (bit_and (get_or rg e 0) (bit_not w (1 <<< impl u d))))
  taken e d h on =
      let under = inside (d + e * w) on in
      rw
        (
          impl_fits u (d + e * w) small under,
          impl_fits u d small (omega (arith, under)),
          same_write e d h,
        )
        (clear_bit-Writes w u pos rg valid (d + e * w) under)

  abbrev pub Took : ℕ → (ℕ → Type 0) → (ℕ → Type 0) → ℕ × List ℕ → Type 0
  Took missing IsNone IsFound (y, r) =
      ((y ≡ missing) × IsNone y × (r ≡ rg)) ⊎ (IsFound y × Writes w u rg y false r)

  -- `NSuccessorDelete` finds what `NSuccessor` does and deletes it.
  pub n_successor_delete_lem :
      (x : ℕ)
      → Took 0
          (λ y. (j : ℕ) → x < j → member w rg j ≡ false)
          (IsLeast w rg (suc x))
          (n_successor_delete w u ctz clz rg x)
  unfolding n_successor_delete
  n_successor_delete_lem x = elim (Bool-cases (leb (u - 1) x)) [
    | inl last ↦ rw last (inl (refl, λ j l. valid.bounded j (ground arith), refl))
    | inr more ↦
        rw more (by_word (next_word w rg (suc x)) (next_word-IsNext w pos rg valid.words (suc x)))
  ]
    where
      by_word :
          (o : Option (ℕ × ℕ))
          → IsNext w rg (suc x) o
          → Took 0
              (λ y. (j : ℕ) → x < j → member w rg j ≡ false)
              (IsLeast w rg (suc x))
              (taking w u ctz clz rg 0 ctz o)
      by_word none next = inl (refl, λ j l. next j (omega arith), refl)
      by_word (some (e, v)) next =
          let least = next-IsLeast w pos rg valid.words ctz clz scan (suc x) e v next in
          inr (
            rw (impl_fits u (ctz v + e * w) small (inside _ least.1)) least,
            taken e (ctz v) (scan.trailing v next.0.0 next.0.1).0 least.1,
          )

  -- `NPredecessorDelete` finds what `NPredecessor` does and deletes it.
  pub n_predecessor_delete_lem :
      (x : ℕ)
      → Took
          (u - 1)
          (λ y. (j : ℕ) → j < x → member w rg j ≡ false)
          (λ y. (0 < x) × IsGreatest w rg (x - 1) y)
          (n_predecessor_delete w u ctz clz rg x)
  unfolding n_predecessor_delete
  n_predecessor_delete_lem x = elim (Bool-cases (x == 0)) [
    | inl first ↦ rw first (inl (refl, λ j l. absurd (ground arith), refl))
    | inr more ↦ rw more (
        by_word (ground arith) (previous_word w rg (x - 1))
          (previous_word-IsPrevious w pos rg valid.words (x - 1)))
  ]
    where
      by_word :
          0 < x
          → (o : Option (ℕ × ℕ)) → IsPrevious w rg (x - 1) o
          → Took
              (u - 1)
              (λ y. (j : ℕ) → j < x → member w rg j ≡ false)
              (λ y. (0 < x) × IsGreatest w rg (x - 1) y)
              (taking w u ctz clz rg (u - 1) (λ v. w - 1 - clz v) o)
      by_word some_below none before = inl (refl, λ j l. before j (omega arith), refl)
      by_word some_below (some (e, v)) before =
          let most = previous-IsGreatest w pos rg valid.words ctz clz scan (x - 1) e v before in
          inr (
            (some_below, rw (impl_fits u (w - 1 - clz v + e * w) small (inside _ most.1)) most),
            taken e (w - 1 - clz v) (omega (arith, pos)) most.1,
          )
