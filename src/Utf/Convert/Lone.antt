-- ===== src/Utf/Convert/Lone.antt =====
-- A low surrogate with no high surrogate before it: the two conversions from UTF-16 disagree.
use bienutil.Base.{ℕ, ◌≡◌, ◌≢◌, arith, true, false, List, [], ◌∷◌}
use bienutil.Utf.Scalar.{
  f_is_valid_utf32, f_is_high_surrogate, f_is_low_surrogate, ok, err, invalid_argument,
}
use bienutil.Utf.Encode.{pc_convert_utf32_to_utf8}
use bienutil.Utf.Convert.{utf16_utf8, utf16_utf32}

-- For a low surrogate at the start of a source, UTF-16 to UTF-8 fails without a replacement
-- character and writes any other replacement character that it is given; UTF-16 to UTF-32 copies
-- the surrogate in both cases, although it is no valid code point.
pub lone_low_surrogate :
    (r c : ℕ) (rest : List ℕ)
    → r ≢ 0
    → f_is_low_surrogate c ≡ true
    → (utf16_utf8 0 (c ∷ rest) ≡ err invalid_argument (c ∷ rest))
      × (utf16_utf8 r (c ∷ rest) ≡ ok (pc_convert_utf32_to_utf8 r) rest)
      × (utf16_utf32 r (c ∷ rest) ≡ ok (c ∷ []) rest)
      × (utf16_utf32 0 (c ∷ rest) ≡ ok (c ∷ []) rest)
      × (f_is_valid_utf32 c ≡ false)
unfolding utf16_utf8 utf16_utf32 f_is_valid_utf32 f_is_high_surrogate f_is_low_surrogate
lone_low_surrogate r c rest nz h = ground arith
