-- ===== src/Utf/Convert/RoundTrip.antt =====
-- Between the three encodings of a valid code point, in every direction.
use bienutil.Base.{ℕ, ◌≡◌, arith, true, List, [], ◌∷◌, ◌++◌}
use bienutil.Utf.Scalar.{f_is_valid_utf32, f_is_high_surrogate, f_is_low_surrogate, ok}
use bienutil.Utf.Encode.{pc_convert_utf32_to_utf8, utf16_units}
use bienutil.Utf.Encode.Bytes.{utf16_units-utf16_form}
use bienutil.Utf.Decode.RoundTrip.{utf32_convert_utf8-pc_convert}
use bienutil.Utf.Convert.{utf32_utf8, utf32_utf16, utf16_utf8, utf16_utf32, utf8_utf16, utf8_utf32}

module _ (r c : ℕ) (rest : List ℕ) (valid : f_is_valid_utf32 c ≡ true) where
  -- From the UTF-32 form of a valid code point, with any replacement character and anything behind
  -- it, exactly its UTF-8 form or its UTF-16 form is written, and the pointer moves past it.
  pub utf32_lem :
      (utf32_utf8 r (c ∷ rest) ≡ ok (pc_convert_utf32_to_utf8 c) rest)
      × (utf32_utf16 r (c ∷ rest) ≡ ok (utf16_units c) rest)
  unfolding utf32_utf8 utf32_utf16 f_is_valid_utf32
  utf32_lem = ground arith

  -- From the UTF-8 form of a valid code point, with anything behind it, exactly its UTF-32 form or
  -- its UTF-16 form is written, and the pointer moves past it.
  pub utf8_lem :
      (utf8_utf32 r (pc_convert_utf32_to_utf8 c ++ rest) ≡ ok (c ∷ []) rest)
      × (utf8_utf16 r (pc_convert_utf32_to_utf8 c ++ rest) ≡ ok (utf16_units c) rest)
  unfolding utf8_utf32 utf8_utf16 f_is_valid_utf32
  utf8_lem = ground (arith, utf32_convert_utf8-pc_convert r c rest valid)

  -- From the UTF-16 form of a valid code point, with anything behind it, exactly its UTF-32 form or
  -- its UTF-8 form is written, and the pointer moves past it.
  pub utf16_lem :
      (utf16_utf32 r (utf16_units c ++ rest) ≡ ok (c ∷ []) rest)
      × (utf16_utf8 r (utf16_units c ++ rest) ≡ ok (pc_convert_utf32_to_utf8 c) rest)
  unfolding utf16_utf32 utf16_utf8 f_is_valid_utf32 f_is_high_surrogate f_is_low_surrogate
  utf16_lem = ground (arith, utf16_units-utf16_form c)
