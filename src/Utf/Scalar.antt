-- ===== src/Utf/Scalar.antt =====
-- utfconvert.h, the constants and the tests on code points, and what a conversion returns.
use bienutil.Base.{ℕ, ◌^◌, ◌%◌, Bool, not, ◌&&◌, ◌||◌, List, ltb, leb, ◌≡◌, ◌⊎◌, inl, inr, refl}

abbrev pub utf32_max : ℕ
utf32_max = 0x10ffff

abbrev pub utf32_max_utf16 : ℕ
utf32_max_utf16 = 0xffff

abbrev pub surrogate_high_start : ℕ
surrogate_high_start = 0xd800

abbrev pub surrogate_high_end : ℕ
surrogate_high_end = 0xdbff

abbrev pub surrogate_low_start : ℕ
surrogate_low_start = 0xdc00

abbrev pub surrogate_low_end : ℕ
surrogate_low_end = 0xdfff

abbrev pub half_base : ℕ
half_base = 0x10000

abbrev pub half_mask : ℕ
half_mask = 0x3ff

unfoldable pub f_is_surrogate : ℕ → Bool
f_is_surrogate c = leb surrogate_high_start c && leb c surrogate_low_end

unfoldable pub f_is_high_surrogate : ℕ → Bool
f_is_high_surrogate c = leb surrogate_high_start c && leb c surrogate_high_end

unfoldable pub f_is_low_surrogate : ℕ → Bool
f_is_low_surrogate c = leb surrogate_low_start c && leb c surrogate_low_end

unfoldable pub f_invalid_utf32 : ℕ → Bool
unfolding f_is_surrogate
f_invalid_utf32 c = ltb utf32_max c || f_is_surrogate c

unfoldable pub f_is_valid_utf32 : ℕ → Bool
unfolding f_invalid_utf32
f_is_valid_utf32 c = not (f_invalid_utf32 c)

-- The casts to the unsigned character types.
abbrev pub u8 : ℕ → ℕ
u8 n = n % 2 ^ 8

abbrev pub u16 : ℕ → ℕ
u16 n = n % 2 ^ 16

abbrev pub u32 : ℕ → ℕ
u32 n = n % 2 ^ 32

-- `vkutf16ReplacementCharError`: asks for an error in place of a replacement.
abbrev pub replacement_char_error : ℕ
replacement_char_error = 0

-- The values that `SetLastErrNo` is given.
pub data ErrNo : Type 0 where
  invalid_argument overflow : ErrNo

-- What a `PCConvertUTF` did: the units it wrote, or the error number beside a null pointer; and
-- where it left the source pointer.
pub data Converted : Type 0 where
  ok : List ℕ → List ℕ → Converted
  err : ErrNo → List ℕ → Converted

pub Converted-cases :
    (x : Converted)
    → ((o : List ℕ) × (rest : List ℕ) × (x ≡ ok o rest))
      ⊎ ((e : ErrNo) × (rest : List ℕ) × (x ≡ err e rest))
Converted-cases (ok o rest) = inl (o, rest, refl)
Converted-cases (err e rest) = inr (e, rest, refl)
