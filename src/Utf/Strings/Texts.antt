-- ===== src/Utf/Strings/Texts.antt =====
-- Whole texts of valid code points, converted between the three encodings by `ConvertString`.
use bienutil.Base.{ℕ, ◌≡◌, ◌≢◌, arith, true, List, [], ◌∷◌, ◌++◌, some, All, length}
use bienutil.Utf.Scalar.{f_is_valid_utf32, Converted, ok, err, ErrNo}
use bienutil.Utf.Encode.{pc_convert_utf32_to_utf8, utf16_units}
use bienutil.Utf.Convert.{utf32_utf8, utf32_utf16, utf16_utf8, utf16_utf32, utf8_utf16, utf8_utf32}
use bienutil.Utf.Convert.RoundTrip.{utf32_lem, utf8_lem, utf16_lem}
use bienutil.Utf.Convert.Progress.{
  IsConverter, utf32_utf8-IsConverter, utf32_utf16-IsConverter, utf16_utf8-IsConverter,
  utf16_utf32-IsConverter, utf8_utf16-IsConverter, utf8_utf32-IsConverter, never_fails,
}
use bienutil.Utf.Strings.{convert_string}
use bienutil.Utf.Strings.Copies.{Runs, done, round_any, convert_string-Runs, Runs-total}

-- The text of a list of code points in an encoding form.
abbrev pub text : (ℕ → List ℕ) → List ℕ → List ℕ
text form [] = []
text form (c ∷ cs) = form c ++ text form cs

abbrev pub AllValid : List ℕ → Type 0
AllValid = All (λ c. f_is_valid_utf32 c ≡ true)

module _ (convert : List ℕ → Converted) (max : ℕ) (good : IsConverter convert max)
    (from to : ℕ → List ℕ)
    (one : (c : ℕ) (rest : List ℕ)
      → f_is_valid_utf32 c ≡ true
      → convert (from c ++ rest) ≡ ok (to c) rest) where
  text-Runs : (cs : List ℕ) → AllValid cs → Runs convert [] (text from cs) (text to cs)
  text-Runs [] v = done
  text-Runs (c ∷ cs) v = round_any convert max good (one c (text from cs) v.0) (text-Runs cs v.1)

  convert_text :
      (cs : List ℕ) → AllValid cs → convert_string convert max (text from cs) ≡ some (text to cs)
  convert_text cs v = convert_string-Runs convert max good _ _ (text-Runs cs v)

-- A code point as its own UTF-32 form.
abbrev pub utf32_unit : ℕ → List ℕ
utf32_unit c = c ∷ []

-- With any replacement character, `ConvertString` takes a text of valid code points in each of the
-- three encodings to the same text in each of the two others.
pub convert_string_texts :
    (r : ℕ) (cs : List ℕ)
    → AllValid cs
    → let u8 = text pc_convert_utf32_to_utf8 cs in
      let u16 = text utf16_units cs in
      let u32 = text utf32_unit cs in
      (convert_string (utf32_utf8 r) 4 u32 ≡ some u8)
      × (convert_string (utf32_utf16 r) 2 u32 ≡ some u16)
      × (convert_string (utf16_utf8 r) 4 u16 ≡ some u8)
      × (convert_string (utf16_utf32 r) 1 u16 ≡ some u32)
      × (convert_string (utf8_utf16 r) 2 u8 ≡ some u16)
      × (convert_string (utf8_utf32 r) 1 u8 ≡ some u32)
convert_string_texts r cs v = (
  convert_text _ 4 (utf32_utf8-IsConverter r) utf32_unit _ (λ c l h. (utf32_lem r c l h).0) cs v,
  convert_text _ 2 (utf32_utf16-IsConverter r) utf32_unit _ (λ c l h. (utf32_lem r c l h).1) cs v,
  convert_text _ 4 (utf16_utf8-IsConverter r) _ _ (λ c l h. (utf16_lem r c l h).1) cs v,
  convert_text _ 1 (utf16_utf32-IsConverter r) _ _ (λ c l h. (utf16_lem r c l h).0) cs v,
  convert_text _ 2 (utf8_utf16-IsConverter r) _ _ (λ c l h. (utf8_lem r c l h).1) cs v,
  convert_text _ 1 (utf8_utf32-IsConverter r) _ _ (λ c l h. (utf8_lem r c l h).0) cs v,
)

-- A result of `ConvertString` for some string, and that it is what repeated conversion writes.
abbrev pub Converts : (List ℕ → Converted) → ℕ → List ℕ → Type 0
Converts convert max src =
    (out : List ℕ) × (convert_string convert max src ≡ some out) × Runs convert [] src out

module _ (convert : List ℕ → Converted) (max : ℕ) (good : IsConverter convert max) where
  converts :
      ((c : ℕ) (l : List ℕ) (e : ErrNo) (rest : List ℕ) → convert (c ∷ l) ≢ err e rest)
      → (src : List ℕ) → Converts convert max src
  converts never src =
      let (out, r) = Runs-total convert max good never (length src) src (omega arith) in
      (out, convert_string-Runs convert max good src out r, r)

-- With a replacement character `ConvertString` throws for no string in any direction, however
-- malformed, and its result is what converting unit by unit to the string's end writes.
pub convert_string_total :
    (r : ℕ) (src : List ℕ)
    → r ≢ 0
    → Converts (utf32_utf8 r) 4 src
      × Converts (utf32_utf16 r) 2 src
      × Converts (utf16_utf8 r) 4 src
      × Converts (utf16_utf32 r) 1 src
      × Converts (utf8_utf16 r) 2 src
      × Converts (utf8_utf32 r) 1 src
convert_string_total r src h = (
  converts _ 4 (utf32_utf8-IsConverter r) (λ c l e s. (never_fails r c l e s h).0) src,
  converts _ 2 (utf32_utf16-IsConverter r) (λ c l e s. (never_fails r c l e s h).1) src,
  converts _ 4 (utf16_utf8-IsConverter r) (λ c l e s. (never_fails r c l e s h).2) src,
  converts _ 1 (utf16_utf32-IsConverter r) (λ c l e s. (never_fails r c l e s h).3) src,
  converts _ 2 (utf8_utf16-IsConverter r) (λ c l e s. (never_fails r c l e s h).4) src,
  converts _ 1 (utf8_utf32-IsConverter r) (λ c l e s. (never_fails r c l e s h).5) src,
)
