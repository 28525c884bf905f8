-- ===== src/SimpBv/First.antt =====
-- The lowest set digit of a word, by `v & ( v - 1 )`.
use native.Mathlib.Decide.{ℕ_discrete}
use bienutil.Base.{
  ℕ, zero, suc, ◌-◌, ◌/◌, ◌%◌, ◌^◌, ◌≤◌, ◌<◌, ◌≡◌, ◌≢◌, sym, ap, ◌∙◌, arith, true, false, not, ◌&&◌,
  ltb, ◌==◌, if◌then◌else◌,
}
use bienutil.Base.Digits.{
  bit_not, testbit, testbit_ext, testbit-bit_and, testbit-bit_not, testbit-two_pow, bit_and-lt,
  two-pow-pos, two-pow-lt,
}
use bienutil.Base.Digits.Places.{two-pow-suc}
use bienutil.WordArray.Scan.{IsTrailing, IsLeading}
use bienutil.SimpBv.{
  ms_bit_set, without_first, bv_first_set, bv_clear_first_set, bv_get_first_set,
  bv_get_clear_first_set,
}

-- `k` is the lowest digit of `v` that is one: subtracting one borrows up to it.
pub record IsLowest (v k : ℕ) : Type 0 where
  pub on : testbit v k ≡ true
  pub below : (i : ℕ) → i < k → testbit v i ≡ false
  pub borrow :
      (i : ℕ)
      → testbit (v - 1) i ≡ (if ltb i k then true else if i == k then false else testbit v i)

-- Subtracting one from an odd and from an even word, one digit further down.
odd_borrow :
    (v i : ℕ)
    → v % 2 ≡ 1
    → testbit (v - 1) i ≡ (if ltb i 0 then true else if i == 0 then false else testbit v i)
unfolding testbit
odd_borrow v zero h = ground arith
odd_borrow v (suc i) h =
    let e : (v - 1) / 2 ≡ v / 2 = omega arith in ap (λ x. testbit x i) e ∙ ground arith

even_borrow :
    (v k i : ℕ)
    → v ≢ 0
    → v % 2 ≡ 0
    → testbit (v / 2 - 1) (i - 1)
      ≡ (if ltb (i - 1) k then true else if i - 1 == k then false else testbit (v / 2) (i - 1))
    → testbit (v - 1) i
      ≡ (if ltb i (suc k) then true else if i == suc k then false else testbit v i)
unfolding testbit
even_borrow v k zero nz h p = ground arith
even_borrow v k (suc i) nz h p =
    let e : (v - 1) / 2 ≡ v / 2 - 1 = omega arith in ap (λ x. testbit x i) e ∙ ground (arith, p)

even_below :
    (v k i : ℕ)
    → v % 2 ≡ 0
    → ((j : ℕ) → j < k → testbit (v / 2) j ≡ false)
    → i < suc k
    → testbit v i ≡ false
unfolding testbit
even_below v k zero h p l = ground arith
even_below v k (suc i) h p l = p i (omega arith)

-- Every word that is not zero has one.
pub IsLowest-digit : (w v : ℕ) → v ≢ 0 → v < 2 ^ w → (k : ℕ) × (k < w) × IsLowest v k
unfolding testbit
IsLowest-digit zero v nz h = absurd (omega arith)
IsLowest-digit (suc w) v nz h = elim (ℕ_discrete (v % 2) 0) [
  | no odd ↦ (
    0,
    omega arith,
    record {
      on = ground arith;
      below = λ i l. absurd (omega arith);
      borrow = λ i. odd_borrow v i (omega arith);
    },
  )
  | yes even ↦
      let (k, l, low) = IsLowest-digit w (v / 2) (omega arith) (omega (arith, two-pow-suc w)) in
      (
        suc k,
        omega arith,
        record {
          on = low.on;
          below = λ i. even_below v k i even low.below;
          borrow = λ i. even_borrow v k i nz even (low.borrow (i - 1));
        },
      )
]

module _ (w v k : ℕ) (small : v < 2 ^ w) (low : IsLowest v k) where
  -- `v & ( v - 1 )` is `v` without that digit, and what the complement leaves is the digit alone.
  pub testbit-without_first : (i : ℕ) → testbit (without_first v) i ≡ (testbit v i && not (i == k))
  unfolding without_first
  testbit-without_first i = testbit-bit_and i v (v - 1) ∙ ground (arith, low.borrow i, low.below i)

  pub without_first-lt : without_first v < 2 ^ w
  unfolding without_first
  without_first-lt = bit_and-lt w v (v - 1) small

  pub bv_first_set_lem : k < w → bv_first_set w v ≡ 2 ^ k
  unfolding bv_first_set
  bv_first_set_lem h = testbit_ext w _ _ (bit_and-lt w v _ small) (two-pow-lt k w h) (λ i l.
      testbit-bit_and i v (bit_not w (without_first v))
      ∙ ground (
        arith,
        testbit-bit_not w i (without_first v) without_first-lt,
        testbit-without_first i,
        testbit-two_pow k i,
        same i,
      ))
    where
      same : (i : ℕ) → k ≡ i → testbit v i ≡ true
      same i e = ap (testbit v) (sym e) ∙ low.on

-- `MSBitSet` of a single digit is its position, so `_bv_get_first_set` counts trailing zeros.
module _ (clz : ℕ → ℕ) (wide w : ℕ) (fits : w ≤ wide) (leading : IsLeading wide clz) where
  ms_bit_set_two_pow : (k : ℕ) → k < w → ms_bit_set clz wide (2 ^ k) ≡ k
  unfolding ms_bit_set
  ms_bit_set_two_pow k h =
      let (a, on, above) =
        leading (2 ^ k) (omega (arith, two-pow-pos k)) (two-pow-lt k wide (omega arith)) in
      let found = testbit-two_pow k (wide - 1 - clz (2 ^ k)) in
      ground (arith, two-pow-pos k, on, found)

  pub bv_get_clear_first_set_lem :
      (v k : ℕ)
      → k < w
      → v < 2 ^ w
      → IsLowest v k
      → bv_get_clear_first_set clz wide w v ≡ (k, without_first v)
  unfolding bv_get_clear_first_set bv_clear_first_set
  bv_get_clear_first_set_lem v k h small low =
      rw (bv_first_set_lem w v k small low h, ms_bit_set_two_pow k h)

  pub bv_get_first_set-IsTrailing : IsTrailing w (bv_get_first_set clz wide w)
  unfolding bv_get_first_set
  bv_get_first_set-IsTrailing v nz small =
      let (k, h, low) = IsLowest-digit w v nz small in
      rw (bv_first_set_lem w v k small low h, ms_bit_set_two_pow k h) (h, low.on, low.below)
