-- ===== src/Utf/Decode/Forms.antt =====
-- `UTF32ConvertUTF8` on each of the four well-formed shapes.
use bienutil.Base.{ℕ, ◌+◌, ◌-◌, ◌*◌, ◌≤◌, ◌<◌, ◌≡◌, arith, List, ◌∷◌}
use bienutil.Utf.Decode.{
  utf32_convert_utf8, code_point, pc_valid_utf8_sequence, sequence_case_4, sequence_case_3,
  sequence_case_2, sequence_case_1, second_byte_refused,
}
use bienutil.Utf.Decode.Sequence.{trail_bytes-trail_count, f_is_trail_byte_utf8_lem}

module _ (r : ℕ) (rest : List ℕ) where
  pub one_byte : (b : ℕ) → b < 0x80 → utf32_convert_utf8 r (b ∷ rest) ≡ code_point b rest
  unfolding utf32_convert_utf8 pc_valid_utf8_sequence sequence_case_4 sequence_case_3
      sequence_case_2 sequence_case_1 second_byte_refused
  one_byte b h = ground (arith, trail_bytes-trail_count b)

  pub two_bytes :
      (b c : ℕ)
      → 0xc2 ≤ b
      → b < 0xe0
      → 0x80 ≤ c
      → c < 0xc0
      → utf32_convert_utf8 r (b ∷ c ∷ rest) ≡ code_point ((b - 0xc0) * 64 + (c - 0x80)) rest
  unfolding utf32_convert_utf8 pc_valid_utf8_sequence sequence_case_4 sequence_case_3
      sequence_case_2 sequence_case_1 second_byte_refused
  two_bytes b c h k p q = ground (arith, trail_bytes-trail_count b, f_is_trail_byte_utf8_lem c)

  pub three_bytes :
      (b c d : ℕ)
      → 0xe0 ≤ b
      → b < 0xf0
      → 0x80 ≤ c
      → c < 0xc0
      → 0x80 ≤ d
      → d < 0xc0
      → (b ≡ 0xe0 → 0xa0 ≤ c)
      → (b ≡ 0xed → c < 0xa0)
      → utf32_convert_utf8 r (b ∷ c ∷ d ∷ rest)
        ≡ code_point ((b - 0xe0) * 4096 + (c - 0x80) * 64 + (d - 0x80)) rest
  unfolding utf32_convert_utf8 pc_valid_utf8_sequence sequence_case_4 sequence_case_3
      sequence_case_2 sequence_case_1 second_byte_refused
  three_bytes b c d h k p q p' q' u v =
      ground
        (arith, trail_bytes-trail_count b, f_is_trail_byte_utf8_lem c, f_is_trail_byte_utf8_lem d)

  pub four_bytes :
      (b c d e : ℕ)
      → 0xf0 ≤ b
      → b < 0xf5
      → 0x80 ≤ c
      → c < 0xc0
      → 0x80 ≤ d
      → d < 0xc0
      → 0x80 ≤ e
      → e < 0xc0
      → (b ≡ 0xf0 → 0x90 ≤ c)
      → (b ≡ 0xf4 → c < 0x90)
      → utf32_convert_utf8 r (b ∷ c ∷ d ∷ e ∷ rest)
        ≡ code_point ((b - 0xf0) * 262144 + (c - 0x80) * 4096 + (d - 0x80) * 64 + (e - 0x80)) rest
  unfolding utf32_convert_utf8 pc_valid_utf8_sequence sequence_case_4 sequence_case_3
      sequence_case_2 sequence_case_1 second_byte_refused
  four_bytes b c d e h k p q p' q' p'' q'' u v = ground (
    arith,
    trail_bytes-trail_count b,
    f_is_trail_byte_utf8_lem c,
    f_is_trail_byte_utf8_lem d,
    f_is_trail_byte_utf8_lem e,
  )
