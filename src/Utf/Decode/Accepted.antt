-- ===== src/Utf/Decode/Accepted.antt =====
-- What `UTF32ConvertUTF8` accepts without a replacement character.
use bienutil.Base.{
  ℕ, ◌+◌, ◌-◌, ◌*◌, ◌^◌, ◌≤◌, ◌<◌, ◌≡◌, arith, false, List, ◌∷◌, length, ◌⊎◌, ◌≢◌, none, drop,
  get_or,
}
use bienutil.Utf.Scalar.{u32}
use bienutil.Utf.Decode.{
  utf32_convert_utf8, code_point, pc_valid_utf8_sequence, sequence_case_4, sequence_case_3,
  sequence_case_2, sequence_case_1, second_byte_refused, sum_bytes, trail_bytes, offsets_from_utf8,
}
use bienutil.Utf.Decode.Sequence.{trail_bytes-trail_count, f_is_trail_byte_utf8_lem}

-- The sequence fits the source and is valid, and the code point is the sum of its bytes.
pub accepted :
    (b : ℕ) (l rest : List ℕ) (c n : ℕ)
    → trail_bytes b ≡ n
    → utf32_convert_utf8 0 (b ∷ l) ≡ code_point c rest
    → (n < length (b ∷ l))
      × (pc_valid_utf8_sequence (b ∷ l) (n + 1) ≡ none)
      × (rest ≡ drop (n + 1) (b ∷ l))
      × (c ≡ u32 (sum_bytes n 0 (b ∷ l) + 2 ^ 32 - get_or offsets_from_utf8 n 0))
unfolding utf32_convert_utf8
accepted b l rest c n t h = ground arith

valid_1 :
    (b : ℕ) (l : List ℕ) → sequence_case_1 (b ∷ l) ≡ none → (b < 0x80) ⊎ ((0xc2 ≤ b) × (b ≤ 0xf4))
unfolding sequence_case_1
valid_1 b l h = ground arith

valid_2 :
    (b d n : ℕ) (l : List ℕ)
    → d < 256
    → sequence_case_2 (b ∷ d ∷ l) n ≡ none
    → (0x80 ≤ d)
      × (d < 0xc0)
      × (second_byte_refused b d ≡ false)
      × (sequence_case_1 (b ∷ d ∷ l) ≡ none)
unfolding sequence_case_2
valid_2 b d n l h k = ground (arith, f_is_trail_byte_utf8_lem d)

valid_3 :
    (b d e n : ℕ) (l : List ℕ)
    → e < 256
    → sequence_case_3 (b ∷ d ∷ e ∷ l) n ≡ none
    → (0x80 ≤ e) × (e < 0xc0) × (sequence_case_2 (b ∷ d ∷ e ∷ l) n ≡ none)
unfolding sequence_case_3
valid_3 b d e n l h k = ground (arith, f_is_trail_byte_utf8_lem e)

valid_4 :
    (b d e f n : ℕ) (l : List ℕ)
    → f < 256
    → sequence_case_4 (b ∷ d ∷ e ∷ f ∷ l) n ≡ none
    → (0x80 ≤ f) × (f < 0xc0) × (sequence_case_3 (b ∷ d ∷ e ∷ f ∷ l) n ≡ none)
unfolding sequence_case_4
valid_4 b d e f n l h k = ground (arith, f_is_trail_byte_utf8_lem f)

-- No more than three trail bytes.
pub too_long : (src : List ℕ) (n : ℕ) → 4 ≤ n → pc_valid_utf8_sequence src (n + 1) ≢ none
unfolding pc_valid_utf8_sequence
too_long src n h = ground arith

module _ (b : ℕ) (l rest : List ℕ) (c : ℕ)
    (ok : utf32_convert_utf8 0 (b ∷ l) ≡ code_point c rest) where
  pub accepted_1 : b < 0xc0 → (b < 0x80) × (c ≡ b) × (rest ≡ l)
  unfolding pc_valid_utf8_sequence sum_bytes
  accepted_1 h = ground (arith, accepted b l rest c 0, trail_bytes-trail_count b, valid_1 b l)

  pub not_long : 0xf8 ≤ b → b < 256 → ⊥
  not_long h k = ground (
    arith,
    accepted b l rest c (trail_bytes b),
    trail_bytes-trail_count b,
    too_long (b ∷ l) (trail_bytes b),
  )

module _ (b d : ℕ) (l rest : List ℕ) (c : ℕ)
    (ok : utf32_convert_utf8 0 (b ∷ d ∷ l) ≡ code_point c rest) (small : d < 256) where
  pub accepted_2 :
      0xc0 ≤ b
      → b < 0xe0
      → (0xc2 ≤ b) × (0x80 ≤ d) × (d < 0xc0) × (c ≡ (b - 0xc0) * 64 + (d - 0x80)) × (rest ≡ l)
  unfolding pc_valid_utf8_sequence sum_bytes
  accepted_2 h k = ground (
    arith,
    accepted b (d ∷ l) rest c 1,
    trail_bytes-trail_count b,
    valid_2 b d 2 l,
    valid_1 b (d ∷ l),
  )

module _ (b d e : ℕ) (l rest : List ℕ) (c : ℕ)
    (ok : utf32_convert_utf8 0 (b ∷ d ∷ e ∷ l) ≡ code_point c rest)
    (small : (d < 256) × (e < 256)) where
  pub accepted_3 :
      0xe0 ≤ b
      → b < 0xf0
      → (second_byte_refused b d ≡ false)
        × (0x80 ≤ d)
        × (d < 0xc0)
        × (0x80 ≤ e)
        × (e < 0xc0)
        × (c ≡ (b - 0xe0) * 4096 + (d - 0x80) * 64 + (e - 0x80))
        × (rest ≡ l)
  unfolding pc_valid_utf8_sequence sum_bytes
  accepted_3 h k = ground (
    arith,
    accepted b (d ∷ e ∷ l) rest c 2,
    trail_bytes-trail_count b,
    valid_3 b d e 3 l,
    valid_2 b d 3 (e ∷ l),
    valid_1 b (d ∷ e ∷ l),
  )

module _ (b d e f : ℕ) (l rest : List ℕ) (c : ℕ)
    (ok : utf32_convert_utf8 0 (b ∷ d ∷ e ∷ f ∷ l) ≡ code_point c rest)
    (small : (d < 256) × (e < 256) × (f < 256)) where
  pub accepted_4 :
      0xf0 ≤ b
      → b < 0xf8
      → (b ≤ 0xf4)
        × (second_byte_refused b d ≡ false)
        × (0x80 ≤ d)
        × (d < 0xc0)
        × (0x80 ≤ e)
        × (e < 0xc0)
        × (0x80 ≤ f)
        × (f < 0xc0)
        × (c ≡ (b - 0xf0) * 262144 + (d - 0x80) * 4096 + (e - 0x80) * 64 + (f - 0x80))
        × (rest ≡ l)
  unfolding pc_valid_utf8_sequence sum_bytes
  accepted_4 h k = ground (
    arith,
    accepted b (d ∷ e ∷ f ∷ l) rest c 3,
    trail_bytes-trail_count b,
    valid_4 b d e f 4 l,
    valid_3 b d e 4 (f ∷ l),
    valid_2 b d 4 (e ∷ f ∷ l),
    valid_1 b (d ∷ e ∷ f ∷ l),
  )

-- The source holds the trail bytes that the first byte asks for.
module _ (b : ℕ) (l rest : List ℕ) (c : ℕ) (ok : utf32_convert_utf8 0 (b ∷ l) ≡ code_point c rest)
    (small : b < 256) where
  pub enough_bytes :
      (0xc0 ≤ b → 1 ≤ length l) × (0xe0 ≤ b → 2 ≤ length l) × (0xf0 ≤ b → 3 ≤ length l)
  enough_bytes = (
    λ h. ground (arith, accepted b l rest c (trail_bytes b), trail_bytes-trail_count b),
    λ h. ground (arith, accepted b l rest c (trail_bytes b), trail_bytes-trail_count b),
    λ h. ground (arith, accepted b l rest c (trail_bytes b), trail_bytes-trail_count b),
  )
