-- ===== src/BitUtil.antt =====
-- _bitutil.h: the position of the highest set bit by a nibble table, and the (unused) 64-bit power.
-- A value of an unsigned type of `w` bits is a number below `2 ^ w`; what the source computes in
-- 64 bits wraps by `u64`. `none` is a throw.
pub mod Msb
pub mod Power
mod Tests
use bienutil.Base.{
  ℕ, zero, suc, ◌+◌, ◌-◌, ◌*◌, ◌/◌, ◌%◌, ◌^◌, bit_and, Bool, true, false, ◌&&◌, ◌||◌, Option, none,
  some, List, [], ◌∷◌, ltb, ◌==◌, if◌then◌else◌, get_or,
}
use bienutil.Base.Digits.{◌>>>◌}

-- `v_rgiBit`
abbrev pub rgi_bit : List ℕ
rgi_bit = 0 ∷ 0 ∷ 1 ∷ 1 ∷ 2 ∷ 2 ∷ 2 ∷ 2 ∷ 3 ∷ 3 ∷ 3 ∷ 3 ∷ 3 ∷ 3 ∷ 3 ∷ 3 ∷ []

-- The last two lines of each width: the index is masked to the table's sixteen entries.
pub nibble_bit : ℕ → ℕ → ℕ
nibble_bit test shift = get_or rgi_bit (bit_and (test >>> shift) 0x0f) 0 + shift

unfoldable pub k_ms_bit_set8 : ℕ → ℕ
unfolding nibble_bit
k_ms_bit_set8 test = let shift = if ltb 0x0f test then 4 else 0 in nibble_bit test shift

pub k_ms_bit_set16 : ℕ → ℕ
k_ms_bit_set16 test =
    let shift =
      if ltb 0x00ff test
      then (if ltb 0x0fff test then 12 else 8)
      else (if ltb 0x000f test then 4 else 0) in
    nibble_bit test shift

pub k_ms_bit_set32 : ℕ → ℕ
k_ms_bit_set32 test =
    let shift =
      if ltb 0x0000_ffff test
      then (if ltb 0x00ff_ffff test
          then (if ltb 0x0fff_ffff test then 28 else 24)
          else (if ltb 0x000f_ffff test then 20 else 16))
      else (if ltb 0x0000_00ff test
          then (if ltb 0x0000_0fff test then 12 else 8)
          else (if ltb 0x0000_000f test then 4 else 0)) in
    nibble_bit test shift

pub k_ms_bit_set64 : ℕ → ℕ
k_ms_bit_set64 test =
    let shift =
      if ltb 0x0000_0000_ffff_ffff test
      then (if ltb 0x0000_ffff_ffff_ffff test
          then (if ltb 0x00ff_ffff_ffff_ffff test
              then (if ltb 0x0fff_ffff_ffff_ffff test then 60 else 56)
              else (if ltb 0x000f_ffff_ffff_ffff test then 52 else 48))
          else (if ltb 0x0000_00ff_ffff_ffff test
              then (if ltb 0x0000_0fff_ffff_ffff test then 44 else 40)
              else (if ltb 0x0000_000f_ffff_ffff test then 36 else 32)))
      else (if ltb 0x0000_0000_0000_ffff test
          then (if ltb 0x0000_0000_00ff_ffff test
              then (if ltb 0x0000_0000_0fff_ffff test then 28 else 24)
              else (if ltb 0x0000_0000_000f_ffff test then 20 else 16))
          else (if ltb 0x0000_0000_0000_00ff test
              then (if ltb 0x0000_0000_0000_0fff test then 12 else 8)
              else (if ltb 0x0000_0000_0000_000f test then 4 else 0))) in
    nibble_bit test shift

abbrev pub u64 : ℕ → ℕ
u64 n = n % 2 ^ 64

-- The product as it is stored, and what the function returns.
unfoldable pub k_multiply_test_overflow : ℕ → ℕ → ℕ × Bool
k_multiply_test_overflow l r = let result = u64 (l * r) in (result, ltb result l || ltb result r)

pub record PowerState : Type 0 where
  pub result : ℕ
  pub base : ℕ
  pub exp : ℕ

-- The body that cases 6 down to 2 share: `&&` and `||` skip the second product, and its effect on
-- `base`, when the first operand decides.
pub k_u_pow_round : PowerState → Option PowerState
unfolding k_multiply_test_overflow
k_u_pow_round s =
    if bit_and 1 s.exp == 1
    then (let (result, over) = k_multiply_test_overflow s.result s.base in
        let (base, over') = k_multiply_test_overflow s.base s.base in
        if over || over'
        then none
        else some (record { result = result; base = base; exp = s.exp >>> 1 }))
    else some (record s { exp = s.exp >>> 1 })

-- Case 1.
pub k_u_pow_last : PowerState → Option ℕ
unfolding k_multiply_test_overflow
k_u_pow_last s =
    if bit_and 1 s.exp == 1
    then (let (result, over) = k_multiply_test_overflow s.result s.base in
        if over then none else some result)
    else some s.result

-- The cases from the given one down, each falling through to the next.
pub k_u_pow_from : ℕ → PowerState → Option ℕ
unfolding k_u_pow_round k_u_pow_last
k_u_pow_from zero s = none
k_u_pow_from (suc zero) s = k_u_pow_last s
k_u_pow_from (suc (suc k)) s = elim (k_u_pow_round s) [
  | none ↦ none
  | some s' ↦ k_u_pow_from (suc k) s'
]

-- The switch has cases 1 to 6; its default throws.
pub k_u_pow : ℕ → ℕ → Option ℕ
unfolding k_u_pow_from k_ms_bit_set8
k_u_pow base exp =
    let msb = k_ms_bit_set8 exp in
    if ltb 6 msb then none else k_u_pow_from msb (record { result = 1; base = base; exp = exp })
