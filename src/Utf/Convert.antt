-- ===== src/Utf/Convert.antt =====
-- utfconvert.h, the overloads of `PCConvertUTF`: each converts one code point from the start of a
-- source. `r` is the replacement character. The assertions at their start are the early returns
-- below them.
pub mod Progress
pub mod RoundTrip
pub mod Lone
use bienutil.Base.{ℕ, ◌+◌, ◌-◌, Bool, not, ◌||◌, List, [], ◌∷◌, leb, ◌==◌, if◌then◌else◌}
use bienutil.Base.Digits.{◌<<<◌}
use bienutil.Utf.Scalar.{
  f_is_surrogate, f_is_high_surrogate, f_is_low_surrogate, f_invalid_utf32, replacement_char_error,
  surrogate_high_start, surrogate_low_start, half_base, Converted, ok, err, invalid_argument,
}
use bienutil.Utf.Encode.{pc_convert_utf32_to_utf8, utf16_units}
use bienutil.Utf.Decode.{utf32_convert_utf8, code_point, failed}

unfoldable pub utf32_utf8 : ℕ → List ℕ → Converted
utf32_utf8 r [] = err invalid_argument []
utf32_utf8 r (c ∷ rest) =
    if f_invalid_utf32 c
    then (if r == replacement_char_error
        then err invalid_argument (c ∷ rest)
        else ok (pc_convert_utf32_to_utf8 r) rest)
    else ok (pc_convert_utf32_to_utf8 c) rest

pub utf32_utf16 : ℕ → List ℕ → Converted
utf32_utf16 r [] = err invalid_argument []
utf32_utf16 r (c ∷ rest) =
    if f_invalid_utf32 c
    then (if r == replacement_char_error
        then err invalid_argument (c ∷ rest)
        else ok (utf16_units r) rest)
    else ok (utf16_units c) rest

-- A high and a low surrogate to a code point.
abbrev pub combine : ℕ → ℕ → ℕ
combine h l = ((h - surrogate_high_start) <<< 10) + (l - surrogate_low_start) + half_base

-- Whether a low surrogate follows: the test that short-circuits at the source's end.
abbrev pub low_follows : List ℕ → Bool
low_follows [] = Bool.false
low_follows (l ∷ rest) = f_is_low_surrogate l

abbrev pub take_low : ℕ → List ℕ → (ℕ → List ℕ → Converted) → Converted
take_low h [] k = k h []
take_low h (l ∷ rest) k = k (combine h l) rest

pub utf16_utf8 : ℕ → List ℕ → Converted
utf16_utf8 r [] = err invalid_argument []
utf16_utf8 r (c ∷ rest) =
    if f_is_surrogate c
    then (if not (f_is_high_surrogate c) || not (low_follows rest)
        then (if r == replacement_char_error
            then err invalid_argument (c ∷ rest)
            else ok (pc_convert_utf32_to_utf8 r) rest)
        else take_low c rest (λ c' rest'. ok (pc_convert_utf32_to_utf8 c') rest'))
    else ok (pc_convert_utf32_to_utf8 c) rest

pub utf16_utf32 : ℕ → List ℕ → Converted
utf16_utf32 r [] = err invalid_argument []
utf16_utf32 r (c ∷ rest) =
    if f_is_high_surrogate c
    then (if not (low_follows rest)
        then (if r == replacement_char_error
            then err invalid_argument (c ∷ rest)
            else ok (r ∷ []) rest)
        else take_low c rest (λ c' rest'. ok (c' ∷ []) rest'))
    else ok (c ∷ []) rest

-- The two conversions from UTF-8, in terms of how a code point that is no surrogate is written.
-- A surrogate is refused with the source pointer already moved on.
pub from_utf8 : (ℕ → List ℕ) → ℕ → List ℕ → Converted
from_utf8 write r src = elim (utf32_convert_utf8 r src) [
  | failed e rest ↦ err e rest
  | code_point c rest ↦
      if f_is_surrogate c
      then (if r == replacement_char_error then err invalid_argument rest else ok (r ∷ []) rest)
      else ok (write c) rest
]

pub utf8_utf16 : ℕ → List ℕ → Converted
unfolding from_utf8
utf8_utf16 = from_utf8 utf16_units

pub utf8_utf32 : ℕ → List ℕ → Converted
unfolding from_utf8
utf8_utf32 = from_utf8 (λ c. c ∷ [])
