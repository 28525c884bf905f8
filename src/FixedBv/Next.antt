-- ===== src/FixedBv/Next.antt =====
-- `FixedBV::get_next_bit`: the least set bit from a position on.
use native.Mathlib.Nat.{mod-lt}
use native.Mathlib.Decide.{dec_lt}
use bienutil.Base.{
  ℕ, ◌+◌, ◌-◌, ◌*◌, ◌%◌, ◌^◌, ◌≤◌, ◌<◌, ◌≡◌, arith, true, false, List, Option, none, some, ltb, leb,
  Bool-cases, inl, inr, lt→ltb,
}
use bienutil.Base.Digits.{
  ◌<<<◌, bit_not, testbit, testbit_ext, testbit-mod, testbit-shl, testbit-low_mask, testbit-bit_not,
  two-pow-pos, two-pow-lt,
}
use bienutil.WordArray.{member, next_word}
use bienutil.WordArray.Scan.{IsLeast, IsScan, IsNext, next-IsLeast}
use bienutil.WordArray.Next.{next_word-IsNext}
use bienutil.FixedBv.{get_next_bit, bit_at}
use bienutil.FixedBv.Trim.{IsValid}

-- The mask of the digits from `k` on is the complement of the one of the digits below.
mask_lem : (w k : ℕ) → k < w → ((2 ^ w - 1) <<< k) % 2 ^ w ≡ bit_not w ((1 <<< k) - 1)
mask_lem w k h = testbit_ext w _ _ (mod-lt _ (two-pow-pos w)) (omega (arith, two-pow-pos w)) digit
  where
    digit :
        (i : ℕ)
        → i < w
        → testbit (((2 ^ w - 1) <<< k) % 2 ^ w) i ≡ testbit (bit_not w ((1 <<< k) - 1)) i
    digit i l =
        let low : (1 <<< k) - 1 ≡ 2 ^ k - 1 = omega arith in
        rw low (
          ground (
            arith,
            testbit-mod w i ((2 ^ w - 1) <<< k),
            testbit-shl k i (2 ^ w - 1),
            testbit-low_mask w (i - k),
            testbit-low_mask k i,
            testbit-bit_not w i (2 ^ k - 1) (omega (arith, two-pow-lt k w h)),
          ))

-- What `get_next_bit` says of the set: the least bit from `start` on, or that there is none.
abbrev pub NextBit : ℕ → List ℕ → ℕ → Option ℕ → Type 0
NextBit w rg start none = (j : ℕ) → start ≤ j → member w rg j ≡ false
NextBit w rg start (some p) = IsLeast w rg start p

module _ (n w : ℕ) (pos : 0 < w) (ctz clz : ℕ → ℕ) (scan : IsScan w ctz clz) where
  module _ (rg : List ℕ) (valid : IsValid n w rg) where
    found_bit :
        (start : ℕ) (o : Option (ℕ × ℕ))
        → IsNext w rg start o
        → NextBit w rg start (bit_at n w ctz o)
    unfolding bit_at
    found_bit start none next = next
    found_bit start (some (e, v)) next =
        let swap : e * w + ctz v ≡ ctz v + e * w = omega arith in
        let least = next-IsLeast w pos rg valid.words ctz clz scan start e v next in
        let inside = below_n (ctz v + e * w) least.1 in
        rw swap (elim (Bool-cases (ltb w 32)) [
          | inl narrow ↦ rw (narrow, inside) least
          | inr wide ↦ rw wide least
        ])
      where
        below_n : (p : ℕ) → member w rg p ≡ true → ltb p n ≡ true
        below_n p on = elim (dec_lt p n) [
          | yes h ↦ lt→ltb p n h
          | no h ↦ cc (valid.trimmed p (omega arith))
        ]

    -- From the position after `i`, or from 0 after the greatest `size_t`, `get_next_bit` gives the
    -- least bit that is set, or none where none is.
    pub get_next_bit-NextBit : (i : ℕ) → NextBit w rg ((i + 1) % 2 ^ 64) (get_next_bit n w ctz rg i)
    unfolding get_next_bit next_word
    get_next_bit-NextBit i =
        let start = (i + 1) % 2 ^ 64 in
        elim (Bool-cases (leb n start)) [
          | inl past ↦ rw past (λ j l. valid.trimmed j (ground arith))
          | inr more ↦
              rw (more, mask_lem w (start % w) (mod-lt start pos))
                (found_bit start (next_word w rg start)
                  (next_word-IsNext w pos rg valid.words start))
        ]
