-- ===== src/Utf/Encode.antt =====
-- utfconvert.h, from one code point to UTF-8 (`_PCConvertUTF32ToUTF8`) and to UTF-16.
pub mod Bytes
use bienutil.Base.{
  ℕ, ◌+◌, ◌-◌, bit_and, bit_or, List, [], ◌∷◌, ltb, leb, if◌then◌else◌, get_or, ◌==◌, length, ◌≤◌,
  ◌≡◌, arith,
}
use bienutil.Base.Digits.{◌>>>◌}
use bienutil.Utf.Scalar.{
  u8, u16, utf32_max_utf16, half_base, half_mask, surrogate_high_start, surrogate_low_start,
}

-- `vrgFirstByteMark`
abbrev pub first_byte_mark : List ℕ
first_byte_mark = 0x00 ∷ 0x00 ∷ 0xc0 ∷ 0xe0 ∷ 0xf0 ∷ 0xf8 ∷ 0xfc ∷ []

abbrev pub bytes_to_write : ℕ → ℕ
bytes_to_write c =
    if ltb c 0x80 then 1 else if ltb c 0x800 then 2 else if ltb c 0x10000 then 3 else 4

-- The switch, from the last byte to the first: cases 4, 3 and 2 each put one trail byte before what
-- is written, and fall through; case 1 puts the marked first byte.
pub trail_byte : ℕ → ℕ
trail_byte c = u8 (bit_and (bit_or c 0x80) 0xbf)

pub lead_byte : ℕ → ℕ → ℕ
lead_byte n c = u8 (bit_or c (get_or first_byte_mark n 0))

abbrev pub case_1 : ℕ → ℕ → List ℕ → List ℕ
case_1 n c out = lead_byte n c ∷ out

abbrev pub case_2 : ℕ → ℕ → List ℕ → List ℕ
case_2 n c out = case_1 n (c >>> 6) (trail_byte c ∷ out)

abbrev pub case_3 : ℕ → ℕ → List ℕ → List ℕ
case_3 n c out = case_2 n (c >>> 6) (trail_byte c ∷ out)

abbrev pub case_4 : ℕ → ℕ → List ℕ → List ℕ
case_4 n c out = case_3 n (c >>> 6) (trail_byte c ∷ out)

unfoldable pub pc_convert_utf32_to_utf8 : ℕ → List ℕ
unfolding trail_byte lead_byte
pc_convert_utf32_to_utf8 c =
    let n = bytes_to_write c in
    if n == 4
    then case_4 n c []
    else if n == 3
    then case_3 n c []
    else if n == 2
    then case_2 n c []
    else case_1 n c []

-- The end of the conversions to UTF-16: one unit, or a high and a low surrogate.
unfoldable pub utf16_units : ℕ → List ℕ
utf16_units c =
    if leb c utf32_max_utf16
    then u16 c ∷ []
    else (let v = c - half_base in
        u16 ((v >>> 10) + surrogate_high_start)
        ∷ u16 (bit_and v half_mask + surrogate_low_start)
        ∷ [])

pub length-pc_convert :
    (c : ℕ) → (1 ≤ length (pc_convert_utf32_to_utf8 c)) × (length (pc_convert_utf32_to_utf8 c) ≤ 4)
unfolding pc_convert_utf32_to_utf8
length-pc_convert c = ground arith

pub length-utf16_units : (c : ℕ) → (1 ≤ length (utf16_units c)) × (length (utf16_units c) ≤ 2)
unfolding utf16_units
length-utf16_units c = ground arith
