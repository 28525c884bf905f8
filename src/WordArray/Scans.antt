-- ===== src/WordArray/Scans.antt =====
-- Counts of zeros for words of 8 and of 64 bits, by the highest set bit of _bitutil.h.
use native.Mathlib.Decide.{dec_lt}
use bienutil.Base.{
  ℕ, ◌-◌, ◌^◌, ◌<◌, ◌≡◌, refl, arith, bit_and, Bool, true, not, ◌&&◌, ◌||◌, ltb, ◌==◌, all_below,
  all_below_sound, zero, suc, ◌/◌,
}
use bienutil.Base.Digits.{testbit, testbit_above, two-pow_mono}
use bienutil.Base.Digits.Places.{two-pow-suc}
use bienutil.BitUtil.{k_ms_bit_set8, k_ms_bit_set64}
use bienutil.BitUtil.Msb.{IsMsb, k_ms_bit_set64-IsMsb}
use bienutil.WordArray.Scan.{IsLeading, IsScan}
use bienutil.SimpBv.{bv_get_first_set}
use bienutil.SimpBv.First.{bv_get_first_set-IsTrailing}

abbrev pub leading8 : ℕ → ℕ
leading8 v = 7 - k_ms_bit_set8 v

abbrev pub trailing8 : ℕ → ℕ
trailing8 v = k_ms_bit_set8 (v - bit_and v (v - 1))

abbrev scans : ℕ → Bool
scans v =
    v == 0
    || (ltb (trailing8 v) 8
        && testbit v (trailing8 v)
        && all_below (trailing8 v) (λ k. not (testbit v k))
        && ltb (leading8 v) 8
        && testbit v (7 - leading8 v)
        && all_below 8 (λ k. not (ltb (7 - leading8 v) k) || not (testbit v k)))

scans_checked : all_below 256 scans ≡ true
unfolding all_below testbit k_ms_bit_set8
scans_checked = refl

pub scan8 : IsScan 8 trailing8 leading8
scan8 = record {
  trailing = λ v nz h. (
    ground (arith, checked v h),
    ground (arith, checked v h),
    λ k l. ground (arith, checked v h, all_below_sound (trailing8 v) (λ k. not (testbit v k)) k),
  );
  leading = λ v nz h. (
    ground (arith, checked v h),
    ground (arith, checked v h),
    λ k l. elim (dec_lt k 8) [
      | yes b ↦ ground (arith, checked v h, zero_above v k b)
      | no nb ↦ testbit_above 8 k v h (omega arith)
    ],
  );
}
  where
    checked : (v : ℕ) → v < 2 ^ 8 → scans v ≡ true
    checked v h = all_below_sound 256 scans v scans_checked h

    zero_above :
        (v k : ℕ)
        → k < 8
        → all_below 8 (λ i. not (ltb (7 - leading8 v) i) || not (testbit v i)) ≡ true
        → (not (ltb (7 - leading8 v) k) || not (testbit v k)) ≡ true
    zero_above v k b all =
        all_below_sound 8 (λ i. not (ltb (7 - leading8 v) i) || not (testbit v i)) k all b

abbrev pub leading64 : ℕ → ℕ
leading64 v = 63 - k_ms_bit_set64 v

abbrev pub trailing64 : ℕ → ℕ
trailing64 = bv_get_first_set leading64 64 64

-- The highest digit of a number between two powers of two.
testbit-IsMsb : (k v : ℕ) → IsMsb v k → testbit v k ≡ true
unfolding testbit
testbit-IsMsb zero v h = ground arith
testbit-IsMsb (suc k) v h = testbit-IsMsb k (v / 2) (omega (arith, two-pow-suc k))

leading64-IsLeading : IsLeading 64 leading64
leading64-IsLeading v nz h =
    let msb = k_ms_bit_set64-IsMsb v (omega arith) h in
    let k = k_ms_bit_set64 v in
    let low : k < 64 = elim (dec_lt k 64) [
      | yes l ↦ l
      | no n ↦ absurd (omega (arith, msb, two-pow_mono 64 k (omega arith)))
    ] in
    let e : 64 - 1 - leading64 v ≡ k = omega arith in
    (
      omega arith,
      rw e (testbit-IsMsb k v msb),
      λ i l. testbit_above (suc k) i v (omega (arith, msb, two-pow-suc k)) (omega arith),
    )

pub scan64 : IsScan 64 trailing64 leading64
scan64 = record {
  trailing = bv_get_first_set-IsTrailing leading64 64 64 (omega arith) leading64-IsLeading;
  leading = leading64-IsLeading;
}
