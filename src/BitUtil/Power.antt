-- ===== src/BitUtil/Power.antt =====
-- What `KMultiplyTestOverflow` detects, and what `KUPow` returns.
use bienutil.Base.{ℕ, zero, suc, ◌+◌, ◌*◌, ◌^◌, ◌≤◌, ◌<◌, ◌≡◌, refl, arith, true, false, some, none}
use native.Mathlib.Decide.{dec_lt}
use bienutil.BitUtil.{u64, k_multiply_test_overflow, k_u_pow}

-- A reported overflow of two nonzero factors is one: their product does not fit 64 bits.
pub k_multiply_test_overflow_sound :
    (l r : ℕ) → 0 < l → 0 < r → (k_multiply_test_overflow l r).1 ≡ true → 2 ^ 64 ≤ l * r
unfolding k_multiply_test_overflow
k_multiply_test_overflow_sound l r lp rp h = elim (dec_lt (l * r) (2 ^ 64)) [
  | yes small ↦
      let exact : u64 (l * r) ≡ l * r = omega arith in
      let big : l ≤ l * r = grind arith in
      let big' : r ≤ l * r = grind arith in absurd (ground (arith, exact))
  | no wide ↦ omega arith
]

-- Overflows are missed: at the factor 2 ^ 62 every factor 4 k + 1 up to 2 ^ 62 overflows once it exceeds 3, and none is reported.
pub k_multiply_test_overflow_misses :
    (k : ℕ)
    → 0 < k
    → 4 * k < 2 ^ 62
    → (2 ^ 64 ≤ (4 * k + 1) * 2 ^ 62)
      × (k_multiply_test_overflow (4 * k + 1) (2 ^ 62) ≡ (2 ^ 62, false))
unfolding k_multiply_test_overflow
k_multiply_test_overflow_misses k p q = ground arith

-- For every base, `KUPow` throws at the exponents 0 and 1, and returns 1 at each power of two from
-- 2 to 64: the top digit of the exponent is never multiplied in, and a zero digit skips the
-- squaring too.
pub k_u_pow_wrong :
    (base k : ℕ)
    → 1 ≤ k
    → k ≤ 6
    → (k_u_pow base 0 ≡ none) × (k_u_pow base 1 ≡ none) × (k_u_pow base (2 ^ k) ≡ some 1)
unfolding k_u_pow
k_u_pow_wrong base zero p q = elim p [ ]
k_u_pow_wrong base (suc zero) p q = (refl, refl, refl)
k_u_pow_wrong base (suc (suc zero)) p q = (refl, refl, refl)
k_u_pow_wrong base (suc (suc (suc zero))) p q = (refl, refl, refl)
k_u_pow_wrong base (suc (suc (suc (suc zero)))) p q = (refl, refl, refl)
k_u_pow_wrong base (suc (suc (suc (suc (suc zero))))) p q = (refl, refl, refl)
k_u_pow_wrong base (suc (suc (suc (suc (suc (suc zero)))))) p q = (refl, refl, refl)
k_u_pow_wrong base (suc (suc (suc (suc (suc (suc (suc k))))))) p q = absurd (omega arith)
