-- ===== src/Utf/Decode.antt =====
-- utfconvert.h, from UTF-8 to one code point: the tests of a byte sequence and `UTF32ConvertUTF8`.
pub mod Sequence
pub mod Forms
pub mod Accepted
pub mod Sound
pub mod Moves
pub mod RoundTrip
use bienutil.Base.{
  ℕ, zero, suc, ◌+◌, ◌-◌, ◌*◌, ◌^◌, bit_and, Bool, true, false, not, ◌&&◌, Option, none, some, List,
  [], ◌∷◌, ◌++◌, ltb, leb, ◌==◌, if◌then◌else◌, get_or, length, drop, replicate,
}
use bienutil.Base.Digits.{◌<<<◌}
use bienutil.Utf.Scalar.{u32, replacement_char_error, ErrNo, invalid_argument, overflow}

-- `vkrgu8TrailBytesUTF8`
abbrev pub trail_bytes_utf8 : List ℕ
trail_bytes_utf8 =
    replicate 192 0
    ++ replicate 32 1
    ++ replicate 16 2
    ++ replicate 8 3
    ++ replicate 4 4
    ++ replicate 4 5

unfoldable pub trail_bytes : ℕ → ℕ
trail_bytes b = get_or trail_bytes_utf8 b 0

unfoldable pub f_is_trail_byte_utf8 : ℕ → Bool
unfolding trail_bytes
f_is_trail_byte_utf8 b = (trail_bytes b == 0) && (bit_and 0x80 b == 0x80)

-- The loop of `PcLastTrailByte`, over the bytes that are left before `pu8End`.
pub skip_trail_bytes : ℕ → List ℕ → List ℕ
skip_trail_bytes zero src = src
skip_trail_bytes (suc n) [] = []
skip_trail_bytes (suc n) (b ∷ src) =
    if f_is_trail_byte_utf8 b then skip_trail_bytes n src else b ∷ src

pub pc_last_trail_byte : List ℕ → ℕ → List ℕ
unfolding skip_trail_bytes
pc_last_trail_byte src n = skip_trail_bytes (n - 1) (drop 1 src)

-- `*(_pu8 + i)`
abbrev byte_at : List ℕ → ℕ → ℕ
byte_at src i = get_or src i 0

-- The inner switch: whether the second byte is refused after the first. It returns `_pu8 + 1`.
unfoldable pub second_byte_refused : ℕ → ℕ → Bool
second_byte_refused first second =
    if first == 0xe0
    then ltb second 0xa0
    else if first == 0xed
    then ltb 0x9f second
    else if first == 0xf0
    then ltb second 0x90
    else if first == 0xf4
    then ltb 0x8f second
    else ltb second 0x80

-- The cases of the outer switch, each falling through to the next; `none` is the null pointer of a
-- valid sequence. `n` is `_nchLen`.
unfoldable pub sequence_case_1 : List ℕ → Option (List ℕ)
sequence_case_1 src =
    let first = byte_at src 0 in
    if leb 0x80 first && ltb first 0xc2
    then some (drop 1 src)
    else if leb first 0xf4
    then none
    else some (drop 1 src)

unfoldable pub sequence_case_2 : List ℕ → ℕ → Option (List ℕ)
sequence_case_2 src n =
    if not (f_is_trail_byte_utf8 (byte_at src 1))
    then some (pc_last_trail_byte src n)
    else if second_byte_refused (byte_at src 0) (byte_at src 1)
    then some (drop 1 src)
    else sequence_case_1 src

unfoldable pub sequence_case_3 : List ℕ → ℕ → Option (List ℕ)
sequence_case_3 src n =
    if not (f_is_trail_byte_utf8 (byte_at src 2))
    then some (pc_last_trail_byte src n)
    else sequence_case_2 src n

pub sequence_case_4 : List ℕ → ℕ → Option (List ℕ)
sequence_case_4 src n =
    if not (f_is_trail_byte_utf8 (byte_at src 3))
    then some (pc_last_trail_byte src n)
    else sequence_case_3 src n

unfoldable pub pc_valid_utf8_sequence : List ℕ → ℕ → Option (List ℕ)
unfolding sequence_case_4
pc_valid_utf8_sequence src n =
    if n == 4
    then sequence_case_4 src n
    else if n == 3
    then sequence_case_3 src n
    else if n == 2
    then sequence_case_2 src n
    else if n == 1
    then sequence_case_1 src
    else some (pc_last_trail_byte src n)

-- `vkrgutf32OffsetsFromUTF8`
abbrev pub offsets_from_utf8 : List ℕ
offsets_from_utf8 =
    0x0000_0000 ∷ 0x0000_3080 ∷ 0x000e_2080 ∷ 0x03c8_2080 ∷ 0xfa08_2080 ∷ 0x8208_2080 ∷ []

-- The switch that adds up a sequence with `n` trail bytes: each case but the last adds a byte and
-- shifts by six, and falls through.
pub sum_bytes : ℕ → ℕ → List ℕ → ℕ
sum_bytes zero acc src = u32 (acc + byte_at src 0)
sum_bytes (suc n) acc src = sum_bytes n (u32 (u32 (acc + byte_at src 0) <<< 6)) (drop 1 src)

-- A code point with the source after it, or `vkutf32Error` with the error number.
pub data Decoded : Type 0 where
  code_point : ℕ → List ℕ → Decoded
  failed : ErrNo → List ℕ → Decoded

-- `r` is the replacement character. The subtraction wraps.
unfoldable pub utf32_convert_utf8 : ℕ → List ℕ → Decoded
unfolding sum_bytes
utf32_convert_utf8 r [] = failed invalid_argument []
utf32_convert_utf8 r (b ∷ rest) =
    let src = b ∷ rest in
    let n = trail_bytes b in
    let replace =
      λ (p : List ℕ). if r == replacement_char_error then failed overflow src else code_point r p in
    if leb (length src) n then replace [] else (elim (pc_valid_utf8_sequence src (n + 1)) [
      | some p ↦ replace p
      | none ↦
          code_point (u32 (sum_bytes n 0 src + 2 ^ 32 - get_or offsets_from_utf8 n 0))
            (drop (n + 1) src)
    ])
