-- ===== src/BitUtil/Tests.antt =====
-- The theorems on _bitutil.h at concrete values, and runs of the functions.
use bienutil.Base.{◌^◌, ◌≡◌, refl, arith, some, true}
use bienutil.BitUtil.{k_ms_bit_set16, k_ms_bit_set64, k_multiply_test_overflow, k_u_pow, nibble_bit}
use bienutil.BitUtil.Msb.{IsMsb, k_ms_bit_set64-IsMsb}

widths_run : (k_ms_bit_set16 0x1234 ≡ 12) × (k_ms_bit_set64 0x8000_0000_0000_0000 ≡ 63)
unfolding k_ms_bit_set16 k_ms_bit_set64 nibble_bit
widths_run = (refl, refl)

cube_of_two : k_u_pow 2 3 ≡ some 2
unfolding k_u_pow
cube_of_two = refl

k_ms_bit_set64-IsMsb_example : IsMsb 0x1_0000_0001 (k_ms_bit_set64 0x1_0000_0001)
k_ms_bit_set64-IsMsb_example = k_ms_bit_set64-IsMsb 0x1_0000_0001 (omega arith) (omega arith)

reported : (k_multiply_test_overflow (2 ^ 33) (2 ^ 33)).1 ≡ true
unfolding k_multiply_test_overflow
reported = refl
