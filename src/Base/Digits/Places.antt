-- ===== src/Base/Digits/Places.antt =====
-- The digit at any position, and what `|`, `&`, `^`, `~`, `<<` and `>>` do to it.
use Prim.Native.Nat.{ℕ, zero, suc, ◌+◌, ◌-◌, ◌*◌, ◌/◌, ◌%◌, ◌^◌, ◌≤◌, ◌<◌, bit_and, bit_or, bit_xor}
use mathlib.Core.Path.{◌≡◌, refl, sym, ap, ap₂, ◌∙◌}
use mathlib.Core.Bool.{Bool, true, false, not, ◌&&◌, ◌||◌}
use native.Mathlib.Nat.{
  pow-suc, pow-succ', one-le-pow, mul-add-mod_self_right, mod-eq_of_lt, div-add-mod, mod-lt,
  div-one, mul-one, div-div-eq-div-mul,
}
use mathlib.Core.WellFounded
use native.Mathlib.Omega.{arith}
use bienutil.Base.Tests.{◌==◌, ltb, leb, lt_wf}
use bienutil.Base.Digits.Steps.{bit_or_step, bit_and_step, bit_xor_step}

-- Whether the digit of weight `2 ^ i` is one.
unfoldable pub testbit : ℕ → ℕ → Bool
testbit x zero = x % 2 == 1
testbit x (suc i) = testbit (x / 2) i

infixl 75 ◌<<<◌ ◌>>>◌
abbrev pub ◌<<<◌ : ℕ → ℕ → ℕ
x <<< k = x * 2 ^ k

abbrev pub ◌>>>◌ : ℕ → ℕ → ℕ
x >>> k = x / 2 ^ k

abbrev pub differs : Bool → Bool → Bool
differs true b = not b
differs false b = b

-- `~x` on `w` bits.
abbrev pub bit_not : ℕ → ℕ → ℕ
bit_not w x = 2 ^ w - 1 - x

pub zero_testbit : (i : ℕ) → testbit 0 i ≡ false
unfolding testbit
zero_testbit zero = refl
zero_testbit (suc i) = zero_testbit i

pub testbit-bit_or : (i a b : ℕ) → testbit (bit_or a b) i ≡ (testbit a i || testbit b i)
unfolding testbit
testbit-bit_or zero a b = ground (arith, bit_or_step a b)
testbit-bit_or (suc i) a b =
    ap (λ x. testbit x i) (omega (arith, bit_or_step a b)) ∙ testbit-bit_or i (a / 2) (b / 2)

pub testbit-bit_and : (i a b : ℕ) → testbit (bit_and a b) i ≡ (testbit a i && testbit b i)
unfolding testbit
testbit-bit_and zero a b = ground (arith, bit_and_step a b)
testbit-bit_and (suc i) a b =
    ap (λ x. testbit x i) (omega (arith, bit_and_step a b)) ∙ testbit-bit_and i (a / 2) (b / 2)

pub testbit-bit_xor : (i a b : ℕ) → testbit (bit_xor a b) i ≡ differs (testbit a i) (testbit b i)
unfolding testbit
testbit-bit_xor zero a b = ground (arith, bit_xor_step a b)
testbit-bit_xor (suc i) a b =
    ap (λ x. testbit x i) (omega (arith, bit_xor_step a b)) ∙ testbit-bit_xor i (a / 2) (b / 2)

pub two-pow-suc : (k : ℕ) → 2 ^ suc k ≡ 2 * 2 ^ k
two-pow-suc k = omega (arith, pow-suc 2 k)

pub two-pow-pos : (k : ℕ) → 1 ≤ 2 ^ k
two-pow-pos k = one-le-pow k 2 (omega arith)

pub testbit-two_pow : (k i : ℕ) → testbit (2 ^ k) i ≡ (k == i)
unfolding testbit
testbit-two_pow zero zero = refl
testbit-two_pow zero (suc i) = zero_testbit i ∙ ground arith
testbit-two_pow (suc k) zero = ground (arith, two-pow-suc k)
testbit-two_pow (suc k) (suc i) =
    ap (λ x. testbit x i) (omega (arith, two-pow-suc k)) ∙ testbit-two_pow k i ∙ ground arith

pub testbit_above : (w i x : ℕ) → x < 2 ^ w → w ≤ i → testbit x i ≡ false
unfolding testbit
testbit_above zero i x h p = ap (λ y. testbit y i) (omega arith) ∙ zero_testbit i
testbit_above (suc w) zero x h p = elim p [ ]
testbit_above (suc w) (suc i) x h p =
    testbit_above w i (x / 2) (omega (arith, two-pow-suc w)) (omega arith)

pub testbit-bit_not :
    (w i x : ℕ) → x < 2 ^ w → testbit (bit_not w x) i ≡ (ltb i w && not (testbit x i))
unfolding testbit
testbit-bit_not zero i x h = ap (λ y. testbit y i) (omega arith) ∙ zero_testbit i ∙ ground arith
testbit-bit_not (suc w) zero x h = ground (arith, two-pow-suc w, two-pow-pos w)
testbit-bit_not (suc w) (suc i) x h =
    ap (λ y. testbit y i) (omega (arith, two-pow-suc w, two-pow-pos w))
    ∙ testbit-bit_not w i (x / 2) (omega (arith, two-pow-suc w))
    ∙ ground arith

-- A word is known by its digits.
pub testbit_ext :
    (w x y : ℕ) → x < 2 ^ w → y < 2 ^ w → ((i : ℕ) → i < w → testbit x i ≡ testbit y i) → x ≡ y
unfolding testbit
testbit_ext zero x y p q h = omega arith
testbit_ext (suc w) x y p q h = ground (
  arith,
  h 0,
  testbit_ext w (x / 2) (y / 2) (omega (arith, two-pow-suc w)) (omega (arith, two-pow-suc w))
      (λ i l. h (suc i) (omega arith)),
)

mod-two_pow-suc : (k x : ℕ) → x % 2 ^ suc k ≡ x / 2 % 2 ^ k * 2 + x % 2
mod-two_pow-suc k x =
    ap (λ y. y % 2 ^ suc k) split ∙ mul-add-mod_self_right q (2 ^ suc k) r ∙ mod-eq_of_lt small
  where
    q : ℕ
    q = x / 2 / 2 ^ k

    r : ℕ
    r = x / 2 % 2 ^ k * 2 + x % 2

    half : 2 ^ k * q + x / 2 % 2 ^ k ≡ x / 2
    half = div-add-mod (x / 2) (2 ^ k)

    split : x ≡ q * 2 ^ suc k + r
    split = omega (arith, half, ap (λ (t : ℕ). q * t) (two-pow-suc k))

    small : r < 2 ^ suc k
    small = omega (arith, mod-lt (x / 2) (two-pow-pos k), two-pow-suc k)

pub testbit-mod : (k i x : ℕ) → testbit (x % 2 ^ k) i ≡ (ltb i k && testbit x i)
unfolding testbit
testbit-mod zero i x = ap (λ y. testbit y i) (omega arith) ∙ zero_testbit i ∙ ground arith
testbit-mod (suc k) zero x = ground (arith, mod-two_pow-suc k x)
testbit-mod (suc k) (suc i) x =
    ap (λ y. testbit y i) (omega (arith, mod-two_pow-suc k x))
    ∙ testbit-mod k i (x / 2)
    ∙ ground arith

pub testbit-low_mask : (k i : ℕ) → testbit (2 ^ k - 1) i ≡ ltb i k
testbit-low_mask k i =
    ap (λ y. testbit y i) (omega arith)
    ∙ testbit-bit_not k i 0 (two-pow-pos k)
    ∙ ground (arith, zero_testbit i)

zero-bit_and : (k : ℕ) → k ≡ 0 → bit_and k 0 ≡ 0
zero-bit_and zero e = refl
zero-bit_and (suc k) e = absurd (omega arith)

pub bit_and-zero : (x : ℕ) → bit_and x 0 ≡ 0
bit_and-zero x =
    WellFounded.induction lt_wf {C = λ k. bit_and k 0 ≡ 0} x
      λ k ih. ground (arith, bit_and_step k 0, ih (k / 2), zero-bit_and k)

-- `x & ((1 << k) - 1)` is the remainder by `2 ^ k`.
pub bit_and_mask : (k x : ℕ) → bit_and x (2 ^ k - 1) ≡ x % 2 ^ k
bit_and_mask zero x = bit_and-zero x ∙ omega arith
bit_and_mask (suc k) x = ground (
  arith,
  bit_and_step x (2 ^ suc k - 1),
  mod-two_pow-suc k x,
  two-pow-suc k,
  two-pow-pos k,
  bit_and_mask k (x / 2),
)

pub testbit-shr : (k i x : ℕ) → testbit (x >>> k) i ≡ testbit x (i + k)
unfolding testbit
testbit-shr zero i x = let e : i ≡ i + 0 = omega arith in ap₂ testbit (div-one x) e
testbit-shr (suc k) i x =
    let e : suc (i + k) ≡ i + suc k = omega arith in
    ap (λ y. testbit y i) (ap (λ y. x / y) (pow-succ' 2 k) ∙ sym (div-div-eq-div-mul x 2 (2 ^ k)))
    ∙ testbit-shr k i (x / 2)
    ∙ ap (testbit x) e

pub testbit-shl : (k i x : ℕ) → testbit (x <<< k) i ≡ (leb k i && testbit x (i - k))
unfolding testbit
testbit-shl zero i x = ap (λ y. testbit y i) (mul-one x) ∙ ground arith
testbit-shl (suc k) zero x = ground (arith, ap (λ (t : ℕ). x * t) (two-pow-suc k))
testbit-shl (suc k) (suc i) x =
    ap (λ y. testbit y i) (omega (arith, ap (λ (t : ℕ). x * t) (two-pow-suc k)))
    ∙ testbit-shl k i x
    ∙ ground (arith)
