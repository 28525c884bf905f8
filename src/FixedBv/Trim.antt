-- ===== src/FixedBv/Trim.antt =====
-- `FixedBV::_Trim` and the class invariant: no bit from `n` on is set.
use native.Mathlib.Nat.{mod-lt, div-add-mod, le-div_iff_mul-le, div-lt_iff_lt-mul, mul_comm}
use native.Mathlib.Decide.{ℕ_discrete}
use bienutil.Base.{
  ℕ, suc, ◌+◌, ◌-◌, ◌*◌, ◌/◌, ◌%◌, ◌^◌, ◌≤◌, ◌<◌, ◌≡◌, ◌≢◌, sym, ap, ◌∙◌, arith, bit_and, false,
  ◌&&◌, List, ltb, get_or, set, length, length-set, get_or-set_self, get_or-set_ne, All-set,
  All-get_or, Bool-cases, inl, inr,
}
use bienutil.Base.Digits.{
  ◌<<<◌, testbit, testbit-bit_and, testbit-low_mask, bit_and-lt, two-pow-pos,
}
use bienutil.WordArray.{member}
use bienutil.WordArray.Member.{AreWords, member_above}
use bienutil.FixedBv.{els_array, trim}

pub record IsValid (n w : ℕ) (rg : List ℕ) : Type 0 where
  pub sized : length rg ≡ els_array n w
  pub words : AreWords w rg
  pub trimmed : (i : ℕ) → n ≤ i → member w rg i ≡ false

module _ (n w : ℕ) (pos : 0 < w) where
  -- The array has room for `n` bits and less than a word more.
  pub els_array_bounds : (n ≤ els_array n w * w) × (els_array n w * w < n + w)
  els_array_bounds =
      omega (arith, div-add-mod (n + w - 1) w, mod-lt (n + w - 1) pos, mul_comm w ((n + w - 1) / w))

  pub word_in_range : (i : ℕ) → i < n → i / w < els_array n w
  word_in_range i h = (div-lt_iff_lt-mul pos).1 (omega (arith, els_array_bounds))

  module _ (rg : List ℕ) (sized : length rg ≡ els_array n w) (some_bit : 0 < n) where
    abbrev last : ℕ
    last = length rg - 1

    last_word_lem : els_array n w ≡ suc last
    last_word_lem = elim (ℕ_discrete (els_array n w) 0) [
      | yes z ↦ absurd (omega (arith, els_array_bounds, ap (λ (t : ℕ). t * w) z))
      | no nz ↦ omega arith
    ]

    in_last :
        (i : ℕ)
        → i / w ≡ last
        → (i < n → i % w < w - (els_array n w * w - n))
          × (n ≤ i → w - (els_array n w * w - n) ≤ i % w)
    in_last i e = omega (
      arith,
      els_array_bounds,
      div-add-mod i w,
      ap (λ (t : ℕ). w * t) e,
      ap (λ (t : ℕ). t * w) last_word_lem,
    )

    past_end : (i : ℕ) → n ≤ i → i / w ≢ last → member w rg i ≡ false
    past_end i h k = member_above w pos rg i (omega (arith, sized, last_word_lem, reaches))
      where
        reaches : last ≤ i / w
        reaches =
            (le-div_iff_mul-le pos).1
              (omega (arith, els_array_bounds, ap (λ (t : ℕ). t * w) last_word_lem))

    no_excess : n ≡ els_array n w * w → (i : ℕ) → n ≤ i → member w rg i ≡ false
    no_excess e i h =
        member_above w pos rg i
          (rw sized ((le-div_iff_mul-le pos).1 (let e' : els_array n w * w ≡ n = sym e in rw e' h)))

    abbrev trimmed_word : ℕ
    trimmed_word = bit_and (get_or rg last 0) ((1 <<< (w - (els_array n w * w - n))) - 1)

    in_set :
        (i : ℕ)
        → i / w ≡ last
        → testbit (get_or (set rg last trimmed_word) (i / w) 0) (i % w)
          ≡ (ltb i n && testbit (get_or rg (i / w) 0) (i % w))
    in_set i e =
        let k = w - (els_array n w * w - n) in
        let mask : (1 <<< k) - 1 ≡ 2 ^ k - 1 = omega arith in
        rw (e, get_or-set_self rg last trimmed_word 0 (omega (arith, last_word_lem)), mask)
          (testbit-bit_and (i % w) (get_or rg last 0) (2 ^ k - 1)
            ∙ ground (arith, testbit-low_mask k (i % w), in_last i))

    -- The bits from `n` on go, and no other.
    pub member-trim : (i : ℕ) → member w (trim n w rg) i ≡ (ltb i n && member w rg i)
    unfolding trim member
    member-trim i = elim (ℕ_discrete (i / w) last) [
      | yes e ↦ ground (arith, in_set i e, els_array_bounds, no_excess_here)
      | no ne ↦ ground (arith, past_end i, els_array_bounds, no_excess_here, moved ne)
    ]
      where
        no_excess_here :
            n ≡ els_array n w * w → n ≤ i → testbit (get_or rg (i / w) 0) (i % w) ≡ false
        no_excess_here e h = no_excess e i h

        moved :
            i / w ≢ last
            → testbit (get_or (set rg last trimmed_word) (i / w) 0) (i % w)
              ≡ testbit (get_or rg (i / w) 0) (i % w)
        moved ne =
            ap (λ v. testbit v (i % w))
              (get_or-set_ne rg last (i / w) trimmed_word 0 (λ q. ne (sym q)))

    -- `_Trim` gives the invariant back.
    pub trim-IsValid : AreWords w rg → IsValid n w (trim n w rg)
    trim-IsValid h = record {
      sized = unfold trim in ground (arith, length-set rg last trimmed_word);
      words =
          unfold trim in
          elim (Bool-cases (ltb 0 (els_array n w * w - n))) [
            | inl e ↦ rw e (
                All-set (λ x. x < 2 ^ w) rg last _
                  (bit_and-lt w _ _ (All-get_or (λ x. x < 2 ^ w) rg last 0 (two-pow-pos w) h)) h)
            | inr e ↦ rw e h
          ];
      trimmed = λ i k. ground (arith, member-trim i);
    }
