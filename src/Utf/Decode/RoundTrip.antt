-- ===== src/Utf/Decode/RoundTrip.antt =====
-- `UTF32ConvertUTF8` against `_PCConvertUTF32ToUTF8`, both ways.
use bienutil.Base.{ℕ, ◌+◌, ◌/◌, ◌%◌, ◌≡◌, arith, true, List, ◌++◌}
use bienutil.Utf.Scalar.{f_is_valid_utf32}
use bienutil.Utf.Encode.{pc_convert_utf32_to_utf8}
use bienutil.Utf.Encode.Bytes.{pc_convert_utf32_to_utf8-utf8_form}
use bienutil.Utf.Decode.{utf32_convert_utf8, code_point}
use bienutil.Utf.Decode.Forms.{one_byte, two_bytes, three_bytes, four_bytes}

-- Decoding the UTF-8 bytes of a valid code point, with anything behind them, gives that code point
-- back and leaves the source pointer right behind them.
pub utf32_convert_utf8-pc_convert :
    (r c : ℕ) (rest : List ℕ)
    → f_is_valid_utf32 c ≡ true
    → utf32_convert_utf8 r (pc_convert_utf32_to_utf8 c ++ rest) ≡ code_point c rest
unfolding f_is_valid_utf32
utf32_convert_utf8-pc_convert r c rest h = ground (
  arith,
  pc_convert_utf32_to_utf8-utf8_form c,
  one_byte r rest c,
  two_bytes r rest (0xc0 + c / 64) (0x80 + c % 64),
  three_bytes r rest (0xe0 + c / 4096) (0x80 + c / 64 % 64) (0x80 + c % 64),
  four_bytes r rest (0xf0 + c / 262144) (0x80 + c / 4096 % 64) (0x80 + c / 64 % 64) (0x80 + c % 64),
)
