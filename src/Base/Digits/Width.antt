-- ===== src/Base/Digits/Width.antt =====
-- Bounds on the results, and the test of one digit.
use Prim.Native.Nat.{ℕ, zero, suc, ◌+◌, ◌/◌, ◌^◌, ◌≤◌, ◌<◌, bit_and, bit_or, bit_xor}
use mathlib.Core.Path.{◌≡◌, ap, ◌∙◌}
use mathlib.Core.Logic.{◌≢◌, inl, inr}
use mathlib.Core.Bool.{true, false, not}
use native.Mathlib.Nat.{pow-le-pow_right}
use native.Mathlib.Omega.{arith}
use bienutil.Base.Tests.{◌==◌, Bool-cases}
use bienutil.Base.Digits.Steps.{bit_or_step, bit_and_step, bit_xor_step}
use bienutil.Base.Digits.Places.{
  testbit, zero_testbit, two-pow-pos, two-pow-suc, testbit_ext, testbit-bit_and, testbit-two_pow,
}
use Prim.Native.Nat.{bit_and-bitwise}

below_one : (a : ℕ) → a < 2 ^ 0 → a ≡ 0
below_one a h = omega arith

-- The operations stay within a width.
pub bit_and-lt : (w a b : ℕ) → a < 2 ^ w → bit_and a b < 2 ^ w
bit_and-lt zero a b h = rw (below_one a h, bit_and-bitwise) (omega arith)
bit_and-lt (suc w) a b h = omega (
  arith,
  bit_and_step a b,
  two-pow-suc w,
  bit_and-lt w (a / 2) (b / 2) (omega (arith, two-pow-suc w)),
)

pub bit_or-lt : (w a b : ℕ) → a < 2 ^ w → b < 2 ^ w → bit_or a b < 2 ^ w
bit_or-lt zero a b h k = rw (below_one a h, below_one b k) (omega arith)
bit_or-lt (suc w) a b h k = omega (
  arith,
  bit_or_step a b,
  two-pow-suc w,
  bit_or-lt w (a / 2) (b / 2) (omega (arith, two-pow-suc w)) (omega (arith, two-pow-suc w)),
)

pub bit_xor-lt : (w a b : ℕ) → a < 2 ^ w → b < 2 ^ w → bit_xor a b < 2 ^ w
bit_xor-lt zero a b h k = rw (below_one a h, below_one b k) (omega arith)
bit_xor-lt (suc w) a b h k = omega (
  arith,
  bit_xor_step a b,
  two-pow-suc w,
  bit_xor-lt w (a / 2) (b / 2) (omega (arith, two-pow-suc w)) (omega (arith, two-pow-suc w)),
)

bit_and-lt_step : (w a b : ℕ) → a < 2 ^ w → b < 2 ^ w → bit_and a b ≡ bit_and b a
bit_and-lt_step w a b h k =
    testbit_ext w _ _ (bit_and-lt w a b h) (bit_and-lt w b a k)
      λ i l. testbit-bit_and i a b ∙ ground (arith, testbit-bit_and i b a)

pub two-pow_mono : (m n : ℕ) → m ≤ n → 2 ^ m ≤ 2 ^ n
two-pow_mono m n h = pow-le-pow_right (omega arith) h

pub two-pow-lt : (k w : ℕ) → k < w → 2 ^ k < 2 ^ w
two-pow-lt k w h = omega (arith, two-pow-suc k, two-pow_mono (suc k) w h, two-pow-pos k)

pub lt-two_pow : (n : ℕ) → n < 2 ^ n
lt-two_pow zero = omega arith
lt-two_pow (suc n) = omega (arith, lt-two_pow n, two-pow-suc n)

pub bit_and_comm : (a b : ℕ) → bit_and a b ≡ bit_and b a
bit_and_comm a b =
    bit_and-lt_step (a + b) a b (wide a b) (let e : a + b ≡ b + a = omega arith in rw e (wide b a))
  where
    wide : (x y : ℕ) → x < 2 ^ (x + y)
    wide x y = omega (arith, lt-two_pow x, two-pow_mono x (x + y) (omega arith))

-- `( x & ( 1 << k ) ) != 0`
pub test_one_digit : (x k : ℕ) → not (bit_and x (2 ^ k) == 0) ≡ testbit x k
test_one_digit x k = elim (Bool-cases (testbit x k)) [
  | inl on ↦ ground (arith, on, here, nonzero)
  | inr off ↦ ground (arith, off, vanishes off)
]
  where
    here : testbit (bit_and x (2 ^ k)) k ≡ testbit x k
    here = testbit-bit_and k x (2 ^ k) ∙ ground (arith, testbit-two_pow k k)

    nonzero : testbit x k ≡ true → bit_and x (2 ^ k) ≢ 0
    nonzero on z =
        let zeroed : testbit (bit_and x (2 ^ k)) k ≡ false =
          ap (λ y. testbit y k) z ∙ zero_testbit k in
        cc here

    digit : testbit x k ≡ false → (i : ℕ) → testbit (bit_and x (2 ^ k)) i ≡ testbit 0 i
    digit off i =
        testbit-bit_and i x (2 ^ k) ∙ ground (arith, testbit-two_pow k i, zero_testbit i, same i)
      where
        same : (i : ℕ) → k ≡ i → testbit x k ≡ testbit x i
        same i e = ap (testbit x) e

    vanishes : testbit x k ≡ false → bit_and x (2 ^ k) ≡ 0
    vanishes off =
        testbit_ext (suc k) _ 0
          (rw (bit_and_comm x (2 ^ k))
            (bit_and-lt (suc k) (2 ^ k) x (two-pow-lt k (suc k) (omega arith))))
          (two-pow-pos (suc k)) (λ i h. digit off i)
