-- ===== src/Utf/Decode/Moves.antt =====
-- How far `UTF32ConvertUTF8` moves the source pointer.
use bienutil.Base.{
  ℕ, zero, suc, ◌+◌, ◌-◌, ◌≤◌, ◌<◌, ◌≡◌, ◌≢◌, arith, List, [], ◌∷◌, length, length-drop, Option,
  some,
}
use bienutil.Utf.Scalar.{ErrNo}
use bienutil.Utf.Decode.{
  skip_trail_bytes, pc_last_trail_byte, sequence_case_1, sequence_case_2, sequence_case_3,
  sequence_case_4, pc_valid_utf8_sequence, utf32_convert_utf8, code_point, failed, trail_bytes,
}

length-skip_trail_bytes : (n : ℕ) (src : List ℕ) → length (skip_trail_bytes n src) ≤ length src
unfolding skip_trail_bytes
length-skip_trail_bytes zero src = omega arith
length-skip_trail_bytes (suc n) [] = omega arith
length-skip_trail_bytes (suc n) (b ∷ src) = ground (arith, length-skip_trail_bytes n src)

module _ (b : ℕ) (l : List ℕ) where
  abbrev Within : Option (List ℕ) → Type 0
  Within o = (p : List ℕ) → o ≡ some p → length p ≤ length l

  last-Within : (n : ℕ) → length (pc_last_trail_byte (b ∷ l) n) ≤ length l
  unfolding pc_last_trail_byte
  last-Within n = length-skip_trail_bytes (n - 1) l

  case_1-Within : Within (sequence_case_1 (b ∷ l))
  unfolding sequence_case_1
  case_1-Within p h = ground arith

  case_2-Within : (n : ℕ) → Within (sequence_case_2 (b ∷ l) n)
  unfolding sequence_case_2
  case_2-Within n p h = ground (arith, last-Within n, case_1-Within p)

  case_3-Within : (n : ℕ) → Within (sequence_case_3 (b ∷ l) n)
  unfolding sequence_case_3
  case_3-Within n p h = ground (arith, last-Within n, case_2-Within n p)

  case_4-Within : (n : ℕ) → Within (sequence_case_4 (b ∷ l) n)
  unfolding sequence_case_4
  case_4-Within n p h = ground (arith, last-Within n, case_3-Within n p)

  -- An invalid sequence ends behind its first byte at the earliest.
  pub pc_valid_utf8_sequence-Within : (n : ℕ) → Within (pc_valid_utf8_sequence (b ∷ l) n)
  unfolding pc_valid_utf8_sequence
  pc_valid_utf8_sequence-Within n p h = ground (
    arith,
    last-Within n,
    case_1-Within p,
    case_2-Within n p,
    case_3-Within n p,
    case_4-Within n p,
  )

-- A code point comes with a pointer that has moved.
pub utf32_convert_utf8_moves :
    (r : ℕ) (src : List ℕ) (c : ℕ) (rest : List ℕ)
    → utf32_convert_utf8 r src ≡ code_point c rest
    → length rest < length src
unfolding utf32_convert_utf8
utf32_convert_utf8_moves r [] c rest h = cc
utf32_convert_utf8_moves r (b ∷ l) c rest h = ground (
  arith,
  pc_valid_utf8_sequence-Within b l (trail_bytes b + 1) rest,
  length-drop (trail_bytes b + 1) (b ∷ l),
)

-- With a replacement character every source that is not empty gives a code point.
pub utf32_convert_utf8_total :
    (r b : ℕ) (l : List ℕ) (e : ErrNo) (rest : List ℕ)
    → r ≢ 0
    → utf32_convert_utf8 r (b ∷ l) ≢ failed e rest
unfolding utf32_convert_utf8
utf32_convert_utf8_total r b l e rest h = ground arith
