-- ===== src/BitUtil/Msb.antt =====
-- The highest set bit, for each width.
use native.Mathlib.Nat.{
  div-add-mod, mod-lt, mod-eq_of_lt, le-div_iff_mul-le, div-lt_iff_lt-mul, pow-suc,
}
use bienutil.Base.{
  ℕ, zero, suc, ◌+◌, ◌*◌, ◌/◌, ◌^◌, ◌≤◌, ◌<◌, ◌≡◌, refl, arith, get_or, ltb, leb, ◌==◌, all_below,
  all_below_sound, Bool, true, ◌&&◌, ◌||◌,
}
use bienutil.Base.Digits.{bit_and_mask, two-pow-pos}
use bienutil.BitUtil.{
  rgi_bit, nibble_bit, k_ms_bit_set8, k_ms_bit_set16, k_ms_bit_set32, k_ms_bit_set64,
}

-- `k` is the position of the highest digit of `x` that is one.
abbrev pub IsMsb : ℕ → ℕ → Type 0
IsMsb x k = (2 ^ k ≤ x) × (x < 2 * 2 ^ k)

two-pow-add : (a b : ℕ) → 2 ^ (a + b) ≡ 2 ^ a * 2 ^ b
two-pow-add zero b = ground arith
two-pow-add (suc a) b =
    let e : suc a + b ≡ suc (a + b) = omega arith in
    rw (e, pow-suc 2 (a + b), pow-suc 2 a, two-pow-add a b) (grind arith)

in_table : ℕ → Bool
in_table q = let b = 2 ^ get_or rgi_bit q 0 in q == 0 || (leb b q && ltb q (2 * b))

table_checked : all_below 16 in_table ≡ true
unfolding in_table all_below
table_checked = refl

table_lem :
    (q : ℕ) → 1 ≤ q → q < 16 → (2 ^ get_or rgi_bit q 0 ≤ q) × (q < 2 * 2 ^ get_or rgi_bit q 0)
unfolding in_table
table_lem q lo hi = ground (arith, all_below_sound 16 in_table q table_checked)

nibble_bit-IsMsb : (x n : ℕ) → 2 ^ n ≤ x → x < 16 * 2 ^ n → IsMsb x (nibble_bit x n)
unfolding nibble_bit
nibble_bit-IsMsb x n lo hi =
    let q = x / 2 ^ n in
    let q_lo : 1 ≤ q = (le-div_iff_mul-le (two-pow-pos n)).1 (omega arith) in
    let q_hi : q < 16 = (div-lt_iff_lt-mul (two-pow-pos n)).1 hi in
    rw (bit_and_mask 4 q, mod-eq_of_lt q_hi, two-pow-add (get_or rgi_bit q 0) n)
      (grind (arith, table_lem q q_lo q_hi, div-add-mod x (2 ^ n), mod-lt x (two-pow-pos n)))

-- For each of the three narrower widths, the result for a nonzero value of that width is the
-- position of its highest set bit.
pub k_ms_bit_set_narrow-IsMsb :
    (a b c : ℕ)
    → 0 < a
    → a < 2 ^ 8
    → 0 < b
    → b < 2 ^ 16
    → 0 < c
    → c < 2 ^ 32
    → IsMsb a (k_ms_bit_set8 a) × IsMsb b (k_ms_bit_set16 b) × IsMsb c (k_ms_bit_set32 c)
unfolding k_ms_bit_set8 k_ms_bit_set16 k_ms_bit_set32
k_ms_bit_set_narrow-IsMsb a b c la ha lb hb lc hc = (
  ground (arith, nibble_bit-IsMsb a 0, nibble_bit-IsMsb a 4),
  ground (
    arith,
    nibble_bit-IsMsb b 0,
    nibble_bit-IsMsb b 4,
    nibble_bit-IsMsb b 8,
    nibble_bit-IsMsb b 12,
  ),
  ground (
    arith,
    nibble_bit-IsMsb c 0,
    nibble_bit-IsMsb c 4,
    nibble_bit-IsMsb c 8,
    nibble_bit-IsMsb c 12,
    nibble_bit-IsMsb c 16,
    nibble_bit-IsMsb c 20,
    nibble_bit-IsMsb c 24,
    nibble_bit-IsMsb c 28,
  ),
)

-- For a nonzero 64-bit value the result is the position of its highest set bit.
pub k_ms_bit_set64-IsMsb : (x : ℕ) → 0 < x → x < 2 ^ 64 → IsMsb x (k_ms_bit_set64 x)
unfolding k_ms_bit_set64
k_ms_bit_set64-IsMsb x lo hi = ground (
  arith,
  nibble_bit-IsMsb x 0,
  nibble_bit-IsMsb x 4,
  nibble_bit-IsMsb x 8,
  nibble_bit-IsMsb x 12,
  nibble_bit-IsMsb x 16,
  nibble_bit-IsMsb x 20,
  nibble_bit-IsMsb x 24,
  nibble_bit-IsMsb x 28,
  nibble_bit-IsMsb x 32,
  nibble_bit-IsMsb x 36,
  nibble_bit-IsMsb x 40,
  nibble_bit-IsMsb x 44,
  nibble_bit-IsMsb x 48,
  nibble_bit-IsMsb x 52,
  nibble_bit-IsMsb x 56,
  nibble_bit-IsMsb x 60,
)
