-- ===== src/Utf/Decode/Sound.antt =====
-- What `UTF32ConvertUTF8` accepts is the encoding of what it returns.
use bienutil.Base.{
  ℕ, ◌+◌, ◌-◌, ◌*◌, ◌≤◌, ◌<◌, ◌≡◌, ap, sym, ◌∙◌, arith, true, false, List, [], ◌∷◌, ◌++◌, length,
  All,
}
use native.Mathlib.Decide.{dec_lt}
use bienutil.Utf.Scalar.{f_is_valid_utf32}
use bienutil.Utf.Encode.{pc_convert_utf32_to_utf8}
use bienutil.Utf.Encode.Bytes.{pc_convert_utf32_to_utf8-utf8_form}
use bienutil.Utf.Decode.{utf32_convert_utf8, code_point, second_byte_refused}
use bienutil.Utf.Decode.Accepted.{
  accepted_1, accepted_2, accepted_3, accepted_4, enough_bytes, not_long,
}

-- `c` is a valid code point whose UTF-8 form is `bytes`.
abbrev Encodes : ℕ → List ℕ → Type 0
Encodes c bytes = (f_is_valid_utf32 c ≡ true) × (pc_convert_utf32_to_utf8 c ≡ bytes)

shortest_1 : (b : ℕ) → b < 0x80 → Encodes b (b ∷ [])
unfolding f_is_valid_utf32
shortest_1 b h = ground (arith, pc_convert_utf32_to_utf8-utf8_form b)

shortest_2 :
    (b d c : ℕ)
    → 0xc2 ≤ b
    → b < 0xe0
    → 0x80 ≤ d
    → d < 0xc0
    → c ≡ (b - 0xc0) * 64 + (d - 0x80)
    → Encodes c (b ∷ d ∷ [])
unfolding f_is_valid_utf32
shortest_2 b d c h k p q e = ground (arith, pc_convert_utf32_to_utf8-utf8_form c)

shortest_3 :
    (b d e c : ℕ)
    → 0xe0 ≤ b
    → b < 0xf0
    → second_byte_refused b d ≡ false
    → 0x80 ≤ d
    → d < 0xc0
    → 0x80 ≤ e
    → e < 0xc0
    → c ≡ (b - 0xe0) * 4096 + (d - 0x80) * 64 + (e - 0x80)
    → Encodes c (b ∷ d ∷ e ∷ [])
unfolding f_is_valid_utf32 second_byte_refused
shortest_3 b d e c h k r p q p' q' m = ground (arith, pc_convert_utf32_to_utf8-utf8_form c)

shortest_4 :
    (b d e f c : ℕ)
    → 0xf0 ≤ b
    → b ≤ 0xf4
    → second_byte_refused b d ≡ false
    → 0x80 ≤ d
    → d < 0xc0
    → 0x80 ≤ e
    → e < 0xc0
    → 0x80 ≤ f
    → f < 0xc0
    → c ≡ (b - 0xf0) * 262144 + (d - 0x80) * 4096 + (e - 0x80) * 64 + (f - 0x80)
    → Encodes c (b ∷ d ∷ e ∷ f ∷ [])
unfolding f_is_valid_utf32 second_byte_refused
shortest_4 b d e f c h k r p q p' q' p'' q'' m =
    ground (arith, pc_convert_utf32_to_utf8-utf8_form c)

abbrev Splits : List ℕ → ℕ → List ℕ → Type 0
Splits src c rest = (f_is_valid_utf32 c ≡ true) × (src ≡ pc_convert_utf32_to_utf8 c ++ rest)

splits :
    (bytes tl rest : List ℕ) (c : ℕ) → Encodes c bytes → rest ≡ tl → Splits (bytes ++ tl) c rest
splits bytes tl rest c e h =
    (e.0, ap (λ x. x ++ tl) (sym e.1) ∙ ap (λ x. pc_convert_utf32_to_utf8 c ++ x) (sym h))

module _ (b : ℕ) (rest : List ℕ) (c : ℕ) (small : b < 256) where
  sound_2 :
      (l : List ℕ)
      → 0xc0 ≤ b
      → b < 0xe0
      → 1 ≤ length l
      → All (λ x. x < 256) l
      → utf32_convert_utf8 0 (b ∷ l) ≡ code_point c rest
      → Splits (b ∷ l) c rest
  sound_2 [] h k n a ok = elim n [ ]
  sound_2 (d ∷ l) h k n a ok =
      let (lo, p, q, m, e) = accepted_2 b d l rest c ok a.0 h k in
      splits (b ∷ d ∷ []) l rest c (shortest_2 b d c lo k p q m) e

  sound_3 :
      (l : List ℕ)
      → 0xe0 ≤ b
      → b < 0xf0
      → 2 ≤ length l
      → All (λ x. x < 256) l
      → utf32_convert_utf8 0 (b ∷ l) ≡ code_point c rest
      → Splits (b ∷ l) c rest
  sound_3 [] h k n a ok = elim n [ ]
  sound_3 (d ∷ []) h k n a ok = absurd (omega arith)
  sound_3 (d ∷ e ∷ l) h k n a ok =
      let (t, p, q, p', q', m, x) = accepted_3 b d e l rest c ok (a.0, a.1.0) h k in
      splits (b ∷ d ∷ e ∷ []) l rest c (shortest_3 b d e c h k t p q p' q' m) x

  sound_4 :
      (l : List ℕ)
      → 0xf0 ≤ b
      → b < 0xf8
      → 3 ≤ length l
      → All (λ x. x < 256) l
      → utf32_convert_utf8 0 (b ∷ l) ≡ code_point c rest
      → Splits (b ∷ l) c rest
  sound_4 [] h k n a ok = elim n [ ]
  sound_4 (d ∷ []) h k n a ok = absurd (omega arith)
  sound_4 (d ∷ e ∷ []) h k n a ok = absurd (omega arith)
  sound_4 (d ∷ e ∷ f ∷ l) h k n a ok =
      let (u, t, p, q, p', q', p'', q'', m, x) =
        accepted_4 b d e f l rest c ok (a.0, a.1.0, a.1.1.0) h k in
      splits (b ∷ d ∷ e ∷ f ∷ []) l rest c (shortest_4 b d e f c h u t p q p' q' p'' q'' m) x

  sound_1 :
      (l : List ℕ)
      → b < 0xc0
      → utf32_convert_utf8 0 (b ∷ l) ≡ code_point c rest
      → Splits (b ∷ l) c rest
  sound_1 l h ok =
      let (k, m, x) = accepted_1 b l rest c ok h in
      splits (b ∷ []) l rest c (rw m (shortest_1 b k)) x

-- Without a replacement character, whatever `UTF32ConvertUTF8` accepts at the start of a source of
-- bytes is the UTF-8 encoding of the code point that it returns, that code point is valid, and
-- the source pointer is left right behind the encoding.
pub utf32_convert_utf8_sound :
    (src : List ℕ) (c : ℕ) (rest : List ℕ)
    → All (λ b. b < 256) src
    → utf32_convert_utf8 0 src ≡ code_point c rest
    → (f_is_valid_utf32 c ≡ true) × (src ≡ pc_convert_utf32_to_utf8 c ++ rest)
utf32_convert_utf8_sound [] c rest a ok = unfold utf32_convert_utf8 in cc
utf32_convert_utf8_sound (b ∷ l) c rest a ok =
    let small : b < 256 = a.0 in
    let (one, two, three) = enough_bytes b l rest c ok small in
    elim (dec_lt b 0xc0) [
      | yes p ↦ sound_1 b rest c small l p ok
      | no p ↦ elim (dec_lt b 0xe0) [
        | yes q ↦ sound_2 b rest c small l (omega arith) q (one (omega arith)) a.1 ok
        | no q ↦ elim (dec_lt b 0xf0) [
          | yes r ↦ sound_3 b rest c small l (omega arith) r (two (omega arith)) a.1 ok
          | no r ↦ elim (dec_lt b 0xf8) [
            | yes s ↦ sound_4 b rest c small l (omega arith) s (three (omega arith)) a.1 ok
            | no s ↦ absurd (not_long b l rest c ok (omega arith) small)
          ]
        ]
      ]
    ]
