-- ===== src/Utf/Tests.antt =====
-- The theorems on utfconvert.h at concrete texts, and runs of the conversions.
use bienutil.Base.{
  ℕ, ◌+◌, ◌≤◌, ◌<◌, ◌≡◌, ◌≢◌, ◌↔◌, ◌⊎◌, refl, arith, Bool, true, false, List, [], ◌∷◌, ◌++◌, some,
  length,
}
use bienutil.Utf.Scalar.{f_is_valid_utf32, f_is_low_surrogate, ok, err, invalid_argument}
use bienutil.Utf.Encode.{pc_convert_utf32_to_utf8, utf16_units}
use bienutil.Utf.Decode.{
  utf32_convert_utf8, code_point, trail_bytes, f_is_trail_byte_utf8, pc_valid_utf8_sequence,
  sequence_case_1, sequence_case_2, sequence_case_3, second_byte_refused,
}
use bienutil.Utf.Decode.Sound.{utf32_convert_utf8_sound}
use bienutil.Utf.Convert.{utf32_utf8, utf32_utf16, utf16_utf8, utf16_utf32, utf8_utf16, utf8_utf32}
use bienutil.Utf.Convert.Progress.{utf32_utf8-IsConverter, utf8_utf32-IsConverter}
use bienutil.Utf.Convert.Lone.{lone_low_surrogate}
use bienutil.Utf.Strings.{
  convert_string, pc_convert_string, convert_loop, f_write_utf, copied, spent,
}
use bienutil.Utf.Strings.Copies.{Runs, pc_convert_string-not_spent, pc_convert_string-copied}
use bienutil.Utf.Strings.Texts.{
  text, utf32_unit, Converts, convert_string_texts, convert_string_total,
}
use bienutil.Utf.Strings.Writes.{Written, f_write_utf-Written_iff}

-- The euro sign, and a face outside the basic plane.
abbrev euro : ℕ
euro = 0x20ac

abbrev face : ℕ
face = 0x1f600

abbrev face_bytes : List ℕ
face_bytes = 0xf0 ∷ 0x9f ∷ 0x98 ∷ 0x80 ∷ []

euro_bytes : pc_convert_utf32_to_utf8 euro ≡ 0xe2 ∷ 0x82 ∷ 0xac ∷ []
unfolding pc_convert_utf32_to_utf8
euro_bytes = refl

face_units : utf16_units face ≡ 0xd83d ∷ 0xde00 ∷ []
unfolding utf16_units
face_units = refl

abbrev euro_source : List ℕ
euro_source = 0xe2 ∷ 0x82 ∷ 0xac ∷ 0x21 ∷ []

euro_decoded : utf32_convert_utf8 0 euro_source ≡ code_point euro (0x21 ∷ [])
unfolding utf32_convert_utf8 trail_bytes f_is_trail_byte_utf8 pc_valid_utf8_sequence sequence_case_1
    sequence_case_2 sequence_case_3 second_byte_refused
euro_decoded = refl

-- A surrogate in UTF-8 form, replaced: the first byte is taken alone.
surrogate_replaced :
    utf32_convert_utf8 0xfffd (0xed ∷ 0xa0 ∷ 0x80 ∷ []) ≡ code_point 0xfffd (0xa0 ∷ 0x80 ∷ [])
unfolding utf32_convert_utf8 trail_bytes f_is_trail_byte_utf8 pc_valid_utf8_sequence sequence_case_1
    sequence_case_2 sequence_case_3 second_byte_refused
surrogate_replaced = refl

valid : (f_is_valid_utf32 euro ≡ true) × (f_is_valid_utf32 face ≡ true)
unfolding f_is_valid_utf32
valid = (refl, refl)

utf32_convert_utf8_sound_example :
    (f_is_valid_utf32 euro ≡ true) × (euro_source ≡ pc_convert_utf32_to_utf8 euro ++ 0x21 ∷ [])
utf32_convert_utf8_sound_example =
    utf32_convert_utf8_sound euro_source euro (0x21 ∷ []) (omega arith) euro_decoded

low : f_is_low_surrogate 0xdc00 ≡ true
unfolding f_is_low_surrogate
low = refl

lone_low_surrogate_example :
    (utf16_utf8 0 (0xdc00 ∷ []) ≡ err invalid_argument (0xdc00 ∷ []))
    × (utf16_utf8 0xfffd (0xdc00 ∷ []) ≡ ok (pc_convert_utf32_to_utf8 0xfffd) [])
    × (utf16_utf32 0xfffd (0xdc00 ∷ []) ≡ ok (0xdc00 ∷ []) [])
    × (utf16_utf32 0 (0xdc00 ∷ []) ≡ ok (0xdc00 ∷ []) [])
    × (f_is_valid_utf32 0xdc00 ≡ false)
lone_low_surrogate_example = lone_low_surrogate 0xfffd 0xdc00 [] (omega arith) low

abbrev message : List ℕ
message = 0x21 ∷ euro ∷ face ∷ []

convert_string_texts_example :
    let u8 = text pc_convert_utf32_to_utf8 message in
    let u16 = text utf16_units message in
    let u32 = text utf32_unit message in
    (convert_string (utf32_utf8 0) 4 u32 ≡ some u8)
    × (convert_string (utf32_utf16 0) 2 u32 ≡ some u16)
    × (convert_string (utf16_utf8 0) 4 u16 ≡ some u8)
    × (convert_string (utf16_utf32 0) 1 u16 ≡ some u32)
    × (convert_string (utf8_utf16 0) 2 u8 ≡ some u16)
    × (convert_string (utf8_utf32 0) 1 u8 ≡ some u32)
unfolding f_is_valid_utf32
convert_string_texts_example = convert_string_texts 0 message (refl, (refl, (refl, tt)))

convert_string_total_example :
    Converts (utf32_utf8 0xfffd) 4 (0xed ∷ 0xa0 ∷ [])
    × Converts (utf32_utf16 0xfffd) 2 (0xed ∷ 0xa0 ∷ [])
    × Converts (utf16_utf8 0xfffd) 4 (0xed ∷ 0xa0 ∷ [])
    × Converts (utf16_utf32 0xfffd) 1 (0xed ∷ 0xa0 ∷ [])
    × Converts (utf8_utf16 0xfffd) 2 (0xed ∷ 0xa0 ∷ [])
    × Converts (utf8_utf32 0xfffd) 1 (0xed ∷ 0xa0 ∷ [])
convert_string_total_example = convert_string_total 0xfffd (0xed ∷ 0xa0 ∷ []) (omega arith)

-- Room for one code point only.
short_copy : pc_convert_string (utf32_utf8 0) 4 (face ∷ euro ∷ []) 4 ≡ copied (euro ∷ []) face_bytes
unfolding pc_convert_string convert_loop utf32_utf8 f_is_valid_utf32 pc_convert_utf32_to_utf8
short_copy = refl

pc_convert_string-copied_example :
    Runs (utf32_utf8 0) (euro ∷ []) (face ∷ euro ∷ []) face_bytes
    × (length face_bytes ≤ 4)
    × ((◌≡◌ {A = List ℕ} (euro ∷ []) []) ⊎ (4 < length face_bytes + 4))
pc_convert_string-copied_example =
    pc_convert_string-copied (utf32_utf8 0) 4 (utf32_utf8-IsConverter 0) (face ∷ euro ∷ []) 4
      (euro ∷ []) face_bytes short_copy

pc_convert_string-not_spent_example : pc_convert_string (utf8_utf32 0) 1 euro_source 10 ≢ spent
pc_convert_string-not_spent_example =
    pc_convert_string-not_spent (utf8_utf32 0) 1 (utf8_utf32-IsConverter 0) euro_source 10

-- A stream that takes everything.
abbrev append_all : List ℕ → List ℕ → Bool × List ℕ
append_all s o = (true, s ++ o)

f_write_utf-Written_iff_example :
    (f_write_utf (utf32_utf8 0) append_all (euro ∷ []) [] ≡ (true, 0xe2 ∷ 0x82 ∷ 0xac ∷ []))
    ↔ Written (utf32_utf8 0) append_all (0xe2 ∷ 0x82 ∷ 0xac ∷ []) (euro ∷ []) []
f_write_utf-Written_iff_example =
    f_write_utf-Written_iff (utf32_utf8 0) append_all 4 (utf32_utf8-IsConverter 0) (euro ∷ []) []
      (0xe2 ∷ 0x82 ∷ 0xac ∷ [])
