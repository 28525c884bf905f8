-- ===== src/Base/Digits.antt =====
-- The binary digits of a machine word.
pub mod Steps
pub mod Places
pub mod Width
unfoldable pub use bienutil.Base.Digits.Places.{testbit}
pub use bienutil.Base.Digits.Places.{
  ◌<<<◌, ◌>>>◌, differs, bit_not, zero_testbit, testbit-bit_or, testbit-bit_and, testbit-bit_xor,
  two-pow-pos, testbit-two_pow, testbit_above, testbit-bit_not, testbit_ext, testbit-mod,
  testbit-low_mask, bit_and-zero, bit_and_mask, testbit-shr, testbit-shl,
}
pub use bienutil.Base.Digits.Width.{
  bit_and-lt, bit_or-lt, bit_xor-lt, two-pow_mono, two-pow-lt, lt-two_pow, bit_and_comm,
  test_one_digit,
}
