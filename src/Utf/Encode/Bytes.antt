-- ===== src/Utf/Encode/Bytes.antt =====
-- The encodings of a code point as arithmetic on it.
use bienutil.Base.{
  ℕ, ◌+◌, ◌-◌, ◌/◌, ◌%◌, ◌^◌, ◌≤◌, ◌<◌, bit_and, bit_or, ◌≡◌, refl, arith, Bool, true, false, not,
  ◌&&◌, ◌||◌, List, [], ◌∷◌, ltb, ◌==◌, ==_iff, if◌then◌else◌, all_below, all_below_sound,
}
use bienutil.Base.Digits.{
  testbit, testbit-bit_and, testbit-bit_or, testbit_ext, testbit-mod, bit_and_mask, bit_and-lt,
  bit_or-lt, bit_and_comm, differs,
}
use bienutil.Utf.Encode.{trail_byte, lead_byte, pc_convert_utf32_to_utf8, utf16_units}

or_table : ℕ → ℕ → Bool
or_table mark x = bit_or x mark == x + mark

module _ (n mark : ℕ) (table : all_below n (or_table mark) ≡ true) where
  or_sum : (x : ℕ) → x < n → bit_or x mark ≡ x + mark
  unfolding or_table
  or_sum x h = (==_iff _ _).0 (all_below_sound n (or_table mark) x table h)

or_80 : (x : ℕ) → x < 64 → bit_or x 0x80 ≡ x + 0x80
unfolding or_table all_below
or_80 = or_sum 64 0x80 refl

pub lead_byte_lem :
    (x : ℕ)
    → (x < 128 → lead_byte 1 x ≡ x)
      × (x < 32 → lead_byte 2 x ≡ 0xc0 + x)
      × (x < 16 → lead_byte 3 x ≡ 0xe0 + x)
      × (x < 8 → lead_byte 4 x ≡ 0xf0 + x)
unfolding lead_byte or_table all_below
lead_byte_lem x = (
  λ h. omega (arith, or_sum 128 0 refl x h),
  λ h. omega (arith, or_sum 32 0xc0 refl x h),
  λ h. omega (arith, or_sum 16 0xe0 refl x h),
  λ h. omega (arith, or_sum 8 0xf0 refl x h),
)

-- One digit of `(c | 0x80) & 0xbf`, for each position and each value of the digit of `c`.
abbrev digit_kept : Bool → ℕ → Bool
digit_kept b i =
    not (differs (testbit 0xbf i && (b || testbit 0x80 i)) ((ltb i 6 && b) || testbit 0x80 i))

digit_kept_table : (b : Bool) → all_below 8 (digit_kept b) ≡ true
unfolding all_below testbit
digit_kept_table true = refl
digit_kept_table false = refl

not-differs : (a b : Bool) → not (differs a b) ≡ true → a ≡ b
not-differs true true h = refl
not-differs true false h = cc
not-differs false true h = cc
not-differs false false h = refl

masked_digits :
    (c i : ℕ)
    → i < 8
    → testbit (bit_and 0xbf (bit_or c 0x80)) i ≡ testbit (bit_or (c % 2 ^ 6) 0x80) i
masked_digits c i h =
    rw
      (
        testbit-bit_and i 0xbf (bit_or c 0x80),
        testbit-bit_or i c 0x80,
        testbit-bit_or i (c % 2 ^ 6) 0x80,
        testbit-mod 6 i c,
      )
      (not-differs _ _
        (all_below_sound 8 (digit_kept (testbit c i)) i (digit_kept_table (testbit c i)) h))

pub trail_byte_lem : (c : ℕ) → trail_byte c ≡ 0x80 + c % 64
unfolding trail_byte
trail_byte_lem c =
    omega (arith, bit_and_comm (bit_or c 0x80) 0xbf, or_80 (c % 2 ^ 6) (omega arith), masked)
  where
    masked : bit_and 0xbf (bit_or c 0x80) ≡ bit_or (c % 2 ^ 6) 0x80
    masked =
        testbit_ext 8 _ _ (bit_and-lt 8 0xbf _ (omega arith))
          (bit_or-lt 8 (c % 2 ^ 6) 0x80 (omega arith) (omega arith)) (masked_digits c)

-- The encoding forms as the Unicode standard tabulates them.
abbrev pub utf8_form : ℕ → List ℕ
utf8_form c =
    if ltb c 0x80
    then c ∷ []
    else if ltb c 0x800
    then (0xc0 + c / 64) ∷ (0x80 + c % 64) ∷ []
    else if ltb c 0x10000
    then (0xe0 + c / 4096) ∷ (0x80 + c / 64 % 64) ∷ (0x80 + c % 64) ∷ []
    else (0xf0 + c / 262144) ∷ (0x80 + c / 4096 % 64) ∷ (0x80 + c / 64 % 64) ∷ (0x80 + c % 64) ∷ []

abbrev pub utf16_form : ℕ → List ℕ
utf16_form c =
    if ltb c 0x10000 then c ∷ [] else (0xd800 + (c - 0x10000) / 1024) ∷ (0xdc00 + c % 1024) ∷ []

-- `_PCConvertUTF32ToUTF8` writes the UTF-8 form of each code point up to 0x10ffff.
pub pc_convert_utf32_to_utf8-utf8_form :
    (c : ℕ) → c ≤ 0x10ffff → pc_convert_utf32_to_utf8 c ≡ utf8_form c
unfolding pc_convert_utf32_to_utf8
pc_convert_utf32_to_utf8-utf8_form c h = ground (
  arith,
  trail_byte_lem c,
  trail_byte_lem (c / 2 ^ 6),
  trail_byte_lem (c / 2 ^ 6 / 2 ^ 6),
  lead_byte_lem c,
  lead_byte_lem (c / 2 ^ 6),
  lead_byte_lem (c / 2 ^ 6 / 2 ^ 6),
  lead_byte_lem (c / 2 ^ 6 / 2 ^ 6 / 2 ^ 6),
)

-- The conversions to UTF-16 write the UTF-16 form of each code point up to 0x10ffff.
pub utf16_units-utf16_form : (c : ℕ) → c ≤ 0x10ffff → utf16_units c ≡ utf16_form c
unfolding utf16_units
utf16_units-utf16_form c h = ground (arith, bit_and_mask 10 (c - 0x10000))
