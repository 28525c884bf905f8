-- ===== src/Base/Digits/Steps.antt =====
-- The lowest digit of `|`, `&` and `^`. The native operations mean `bitwise`, which looks at one
-- digit a round as long as fuel lasts.
use Prim.Native.Nat.{digits, bitwise, differ, bit_and-bitwise, bit_or-bitwise, bit_xor-bitwise}
use Prim.Native.Nat.{ℕ, zero, suc, ◌+◌, ◌*◌, ◌/◌, ◌%◌, ◌≤◌, ◌<◌, min, max, bit_and, bit_or, bit_xor}
use mathlib.Core.Path.{◌≡◌, refl}
use native.Mathlib.Omega.{arith}

module _ (rest : ℕ → ℕ) (op : ℕ → ℕ → ℕ) where
  -- Fuel for the first operand's digits is enough; `bound` is what the proof descends on.
  settled :
      (bound fuel x y : ℕ) → x ≤ bound → x ≤ fuel → digits rest op fuel x y ≡ bitwise rest op x y
  settled bound zero zero y h k = refl
  settled bound (suc fuel) zero y h k = refl
  settled bound zero (suc x) y h k = elim k [ ]
  settled zero (suc fuel) (suc x) y h k = elim h [ ]
  settled (suc bound) (suc fuel) (suc x) y h k =
      let here = settled bound fuel (suc x / 2) (y / 2) (omega arith) (omega arith) in
      let there = settled bound x (suc x / 2) (y / 2) (omega arith) (omega arith) in
      omega (arith, here, there)

  one_round :
      (x y : ℕ)
      → bitwise rest op (suc x) y ≡ op (suc x % 2) (y % 2) + bitwise rest op (suc x / 2) (y / 2) * 2
  one_round x y = omega (arith, settled x x (suc x / 2) (y / 2) (omega arith) (omega arith))

pub bit_or_step : (x y : ℕ) → bit_or x y ≡ max (x % 2) (y % 2) + bit_or (x / 2) (y / 2) * 2
bit_or_step zero y = simp bit_or-bitwise (omega arith)
bit_or_step (suc x) y = simp bit_or-bitwise (one_round _ max x y)

pub bit_and_step : (x y : ℕ) → bit_and x y ≡ min (x % 2) (y % 2) + bit_and (x / 2) (y / 2) * 2
bit_and_step zero y = simp bit_and-bitwise (omega arith)
bit_and_step (suc x) y = simp bit_and-bitwise (one_round _ min x y)

differ-digits : (a b : ℕ) → differ (a % 2) (b % 2) ≡ (a % 2 + b % 2) % 2
differ-digits a b = grind (arith, differ_lem (a % 2) (b % 2))
  where
    differ_lem : (x y : ℕ) → x < 2 → y < 2 → differ x y ≡ (x + y) % 2
    differ_lem zero zero p q = refl
    differ_lem zero (suc zero) p q = refl
    differ_lem (suc zero) zero p q = refl
    differ_lem (suc zero) (suc zero) p q = refl
    differ_lem (suc (suc x)) y p q = absurd (omega arith)
    differ_lem zero (suc (suc y)) p q = absurd (omega arith)
    differ_lem (suc zero) (suc (suc y)) p q = absurd (omega arith)

pub bit_xor_step : (x y : ℕ) → bit_xor x y ≡ (x % 2 + y % 2) % 2 + bit_xor (x / 2) (y / 2) * 2
bit_xor_step zero y = simp bit_xor-bitwise (omega arith)
bit_xor_step (suc x) y =
    simp bit_xor-bitwise (omega (arith, one_round _ differ x y, differ-digits (suc x) y))
