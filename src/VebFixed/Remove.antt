-- ===== src/VebFixed/Remove.antt =====
-- `FDeleteAllAfter`.
use native.Mathlib.Nat.{
  mod-eq_of_lt, mod_self, div-add-mod, div-lt_iff_lt-mul, le-div_iff_mul-le, mul_comm,
}
use native.Mathlib.Decide.{ℕ_discrete, dec_lt}
use bienutil.Base.{
  ℕ, zero, suc, ◌-◌, ◌*◌, ◌/◌, ◌%◌, ◌^◌, ◌≤◌, ◌<◌, ◌≡◌, refl, sym, ap, ◌∙◌, arith, bit_and, Bool,
  true, false, not, ◌&&◌, Option, List, [], ◌∷◌, ltb, leb, ◌==◌, if◌then◌else◌, get_or, set, length,
  length-set, All-set, All-get_or, get_or-set_self, get_or-set_ne, Bool-cases, inl, inr, lt→ltb,
}
use bienutil.Base.Digits.{
  ◌<<<◌, testbit, testbit-bit_and, testbit-low_mask, zero_testbit, bit_and-lt, two-pow-pos,
}
use bienutil.WordArray.{member, word_of}
use bienutil.WordArray.Member.{AreWords}
use bienutil.VebFixed.{impl, k_next_integer_size, f_delete_all_after, zero_from, is_some}
use bienutil.WordArray.Scan.{IsScan}
use bienutil.WordArray.Valid.{IsValid}
use bienutil.VebFixed.Order.{IsMaximum, IsEmpty, Describes, last_word-IsMaximum, f_has_min_max_lem}

length-zero_from : (n : ℕ) (rg : List ℕ) → length (zero_from n rg) ≡ length rg
unfolding zero_from
length-zero_from n [] = refl
length-zero_from zero (x ∷ xs) = ap suc (length-zero_from zero xs)
length-zero_from (suc n) (x ∷ xs) = ap suc (length-zero_from n xs)

zero_from-AreWords : (w n : ℕ) (rg : List ℕ) → AreWords w rg → AreWords w (zero_from n rg)
unfolding zero_from
zero_from-AreWords w n [] a = tt
zero_from-AreWords w zero (x ∷ xs) a = (two-pow-pos w, zero_from-AreWords w zero xs a.1)
zero_from-AreWords w (suc n) (x ∷ xs) a = (a.0, zero_from-AreWords w n xs a.1)

get_or-zero_from :
    (n : ℕ) (rg : List ℕ) (k : ℕ)
    → get_or (zero_from n rg) k 0 ≡ (if ltb k n then get_or rg k 0 else 0)
unfolding zero_from
get_or-zero_from n [] k = ground arith
get_or-zero_from zero (x ∷ xs) zero = refl
get_or-zero_from zero (x ∷ xs) (suc k) = get_or-zero_from zero xs k ∙ ground arith
get_or-zero_from (suc n) (x ∷ xs) zero = ground arith
get_or-zero_from (suc n) (x ∷ xs) (suc k) = get_or-zero_from n xs k ∙ ground arith

module _ (w u : ℕ) (pos : 0 < w) (rg : List ℕ) (valid : IsValid w u rg) (y : ℕ) (h : y < u) where
  abbrev cut : ℕ
  cut = if y % w == 0 then y / w else suc (y / w)

  abbrev masked : List ℕ
  masked = set rg (y / w) (bit_and (word_of w rg y) ((1 <<< (y % w)) - 1))

  abbrev left : List ℕ
  left = zero_from cut (if y % w == 0 then rg else masked)

  left_above : (k : ℕ) → cut ≤ k → get_or left k 0 ≡ 0
  left_above k l = get_or-zero_from cut _ k ∙ ground arith

  fits : y / w < length rg
  fits = (div-lt_iff_lt-mul pos).1 (omega (arith, valid.sized))

  -- Below, in and above the word of `y`.
  by_word :
      (j : ℕ) → ltb j y ≡ (if j / w == y / w then ltb (j % w) (y % w) else ltb (j / w) (y / w))
  by_word j = elim (ℕ_discrete (j / w) (y / w)) [
    | yes e ↦ ground (arith, div-add-mod j w, div-add-mod y w, ap (λ (t : ℕ). w * t) e)
    | no n ↦ ground (arith, smaller, monotone)
  ]
    where
      smaller : j / w < y / w → j < y
      smaller l =
          let under : j < y / w * w = (div-lt_iff_lt-mul pos).0 l in
          omega (arith, div-add-mod y w, mul_comm w (y / w))

      monotone : j < y → j / w ≤ y / w
      monotone l = (le-div_iff_mul-le pos).1 (omega (arith, div-add-mod j w, mul_comm w (j / w)))

  masked_digit :
      (j : ℕ)
      → testbit (get_or masked (j / w) 0) (j % w) ≡ (
          (if j / w == y / w then ltb (j % w) (y % w) else true)
          && testbit (get_or rg (j / w) 0) (j % w))
  masked_digit j = elim (ℕ_discrete (y / w) (j / w)) [
    | yes e ↦
        let mask : (1 <<< (y % w)) - 1 ≡ 2 ^ (y % w) - 1 = omega arith in
        let back : j / w ≡ y / w = sym e in
        rw
          (
            back,
            get_or-set_self rg (y / w) (bit_and (word_of w rg y) ((1 <<< (y % w)) - 1)) 0 fits,
            mask,
          )
          (testbit-bit_and (j % w) (word_of w rg y) (2 ^ (y % w) - 1)
            ∙ ground (arith, testbit-low_mask (y % w) (j % w)))
    | no n ↦
        rw (get_or-set_ne rg (y / w) (j / w) (bit_and (word_of w rg y) ((1 <<< (y % w)) - 1)) 0 n)
          (ground arith)
  ]

  member-left : (j : ℕ) → member w left j ≡ (ltb j y && member w rg j)
  unfolding member
  member-left j =
      ap (λ v. testbit v (j % w)) (get_or-zero_from cut _ (j / w))
      ∙ elim (Bool-cases (y % w == 0)) [
        | inl e ↦ rw e (ground (arith, by_word j, zero_testbit (j % w)))
        | inr e ↦ rw e (ground (arith, by_word j, zero_testbit (j % w), masked_digit j))
      ]

  base-AreWords : AreWords w (if y % w == 0 then rg else masked)
  base-AreWords = elim (Bool-cases (y % w == 0)) [
    | inl e ↦ rw e valid.words
    | inr e ↦ rw e (
        All-set (λ v. v < 2 ^ w) rg (y / w) _
          (bit_and-lt w _ _ (All-get_or (λ v. v < 2 ^ w) rg (y / w) 0 (two-pow-pos w) valid.words))
          valid.words)
  ]

  length-left : length left ≡ length rg
  length-left =
      length-zero_from cut _
      ∙ ground (arith, length-set rg (y / w) (bit_and (word_of w rg y) ((1 <<< (y % w)) - 1)))

  left-IsValid : IsValid w u left
  left-IsValid = record {
    words = zero_from-AreWords w cut _ base-AreWords;
    sized = rw length-left valid.sized;
    bounded = λ i k. ground (arith, member-left i, valid.bounded i);
  }

no_wrap : (u x : ℕ) → x < k_next_integer_size u → impl u (suc x) ≡ suc x
unfolding impl
no_wrap u x h = mod-eq_of_lt (omega arith)

wrapped : (u : ℕ) → 0 < u → u ≡ suc (k_next_integer_size u) → impl u (suc (u - 1)) ≡ 0
unfolding impl
wrapped u h e =
    let number : suc (u - 1) ≡ suc (k_next_integer_size u) = omega arith in
    rw number (mod_self (suc (k_next_integer_size u)))

-- What a deletion left: a valid set of the elements up to `x`, its greatest, and whether it is empty.
abbrev pub KeepsUpTo : ℕ → ℕ → List ℕ → ℕ → Bool × Option ℕ × List ℕ → Type 0
KeepsUpTo w u rg x (none_left, max, r) =
    IsValid w u r
    × ((j : ℕ) → member w r j ≡ (leb j x && member w rg j))
    × Describes (IsMaximum w r) (IsEmpty w r) max
    × (none_left ≡ not (is_some max))

module _ (w u : ℕ) (ctz clz : ℕ → ℕ) (pos : 0 < w) (small : u ≤ 2 ^ 64)
    (scan : IsScan w ctz clz) where
  module _ (rg : List ℕ) (valid : IsValid w u rg) where
    -- With any right counts of zeros, and where `x + 1` does not wrap around, `FDeleteAllAfter` keeps
    -- the elements up to `x` and no other, gives the greatest of them, and tells whether there is
    -- none.
    pub scanned-KeepsUpTo :
        (x : ℕ)
        → x < k_next_integer_size u
        → KeepsUpTo w u rg x (f_delete_all_after w u ctz clz rg x)
    unfolding f_delete_all_after
    scanned-KeepsUpTo x fits = elim (dec_lt (suc x) u) [
      | yes h ↦
          rw (no_wrap u x fits, lt→ltb (suc x) u h)
            (
              left-IsValid w u pos rg valid (suc x) h,
              λ j. member-left w u pos rg valid (suc x) h j ∙ ground arith,
              last_word-IsMaximum w u ctz clz pos small scan _
                  (left-IsValid w u pos rg valid (suc x) h) (cut w u pos rg valid (suc x) h)
                  (left_above w u pos rg valid (suc x) h),
              refl,
            )
      | no n ↦
          let beyond : ltb (suc x) u ≡ false = ground arith in
          rw (no_wrap u x fits, beyond)
            (
              valid,
              λ j. ground (arith, valid.bounded j),
              (f_has_min_max_lem w u ctz clz pos small scan rg valid).1,
              refl,
            )
    ]

module _ (w u : ℕ) (ctz clz : ℕ → ℕ) (pos : 0 < w) (rg : List ℕ) (valid : IsValid w u rg) where
  -- Where the universe is all of its type, `FDeleteAllAfter` of its last number deletes every
  -- element, although none is greater.
  pub f_delete_all_after_wraps :
      0 < u
      → u ≡ suc (k_next_integer_size u)
      → IsEmpty w (f_delete_all_after w u ctz clz rg (u - 1)).2
  unfolding f_delete_all_after
  f_delete_all_after_wraps some_number full =
      rw (wrapped u some_number full, lt→ltb 0 u some_number)
        (λ j. member-left w u pos rg valid 0 some_number j ∙ ground arith)
