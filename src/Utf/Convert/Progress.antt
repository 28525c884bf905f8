-- ===== src/Utf/Convert/Progress.antt =====
-- Each conversion moves its source pointer and writes at most as many units as its destination's
-- `utf_traits` allow; with a replacement character none of them fails.
use bienutil.Base.{ℕ, ◌≤◌, ◌<◌, ◌≡◌, ◌≢◌, arith, List, [], ◌∷◌, length}
use bienutil.Utf.Scalar.{Converted, ok, err, ErrNo}
use bienutil.Utf.Encode.{utf16_units, length-pc_convert, length-utf16_units}
use bienutil.Utf.Decode.Moves.{utf32_convert_utf8_moves, utf32_convert_utf8_total}
use bienutil.Utf.Convert.{
  utf32_utf8, utf32_utf16, utf16_utf8, utf16_utf32, utf8_utf16, utf8_utf32, from_utf8, combine,
}

-- What the loops over whole strings need of a conversion: every success consumes source units, and
-- writes at least one unit and at most `max`.
pub record IsConverter (convert : List ℕ → Converted) (max : ℕ) : Type 0 where
  pub shrinks : (src out rest : List ℕ) → convert src ≡ ok out rest → length rest < length src
  pub fits :
      (src out rest : List ℕ) → convert src ≡ ok out rest → (1 ≤ length out) × (length out ≤ max)

pub utf32_utf8-IsConverter : (r : ℕ) → IsConverter (utf32_utf8 r) 4
unfolding utf32_utf8
utf32_utf8-IsConverter r = record {
  shrinks = elim [ [] ↦ λ out rest h. cc | c ∷ l ↦ λ out rest h. ground arith ];
  fits = elim [
    | [] ↦ λ out rest h. cc
    | c ∷ l ↦ λ out rest h. ground (arith, length-pc_convert c, length-pc_convert r)
  ];
}

pub utf32_utf16-IsConverter : (r : ℕ) → IsConverter (utf32_utf16 r) 2
unfolding utf32_utf16
utf32_utf16-IsConverter r = record {
  shrinks = elim [ [] ↦ λ out rest h. cc | c ∷ l ↦ λ out rest h. ground arith ];
  fits = elim [
    | [] ↦ λ out rest h. cc
    | c ∷ l ↦ λ out rest h. ground (arith, length-utf16_units c, length-utf16_units r)
  ];
}

module _ (r : ℕ) (out rest : List ℕ) where
  utf16_utf8_moves :
      (src : List ℕ)
      → utf16_utf8 r src ≡ ok out rest
      → (length rest < length src) × (1 ≤ length out) × (length out ≤ 4)
  unfolding utf16_utf8
  utf16_utf8_moves [] h = cc
  utf16_utf8_moves (c ∷ []) h = ground (arith, length-pc_convert c, length-pc_convert r)
  utf16_utf8_moves (c ∷ l ∷ src) h =
      ground (arith, length-pc_convert c, length-pc_convert r, length-pc_convert (combine c l))

pub utf16_utf8-IsConverter : (r : ℕ) → IsConverter (utf16_utf8 r) 4
utf16_utf8-IsConverter r = record {
  shrinks = λ src out rest h. (utf16_utf8_moves r out rest src h).0;
  fits = λ src out rest h. let (_, lo, hi) = utf16_utf8_moves r out rest src h in (lo, hi);
}

module _ (r : ℕ) (out rest : List ℕ) where
  utf16_utf32_moves :
      (src : List ℕ)
      → utf16_utf32 r src ≡ ok out rest
      → (length rest < length src) × (1 ≤ length out) × (length out ≤ 1)
  unfolding utf16_utf32
  utf16_utf32_moves [] h = cc
  utf16_utf32_moves (c ∷ []) h = ground arith
  utf16_utf32_moves (c ∷ l ∷ src) h = ground arith

pub utf16_utf32-IsConverter : (r : ℕ) → IsConverter (utf16_utf32 r) 1
utf16_utf32-IsConverter r = record {
  shrinks = λ src out rest h. (utf16_utf32_moves r out rest src h).0;
  fits = λ src out rest h. let (_, lo, hi) = utf16_utf32_moves r out rest src h in (lo, hi);
}

module _ (write : ℕ → List ℕ) (r max : ℕ)
    (sized : (c : ℕ) → (1 ≤ length (write c)) × (length (write c) ≤ max)) where
  from_utf8-IsConverter : IsConverter (from_utf8 write r) max
  unfolding from_utf8
  from_utf8-IsConverter = record {
    shrinks = λ src out rest h. grind (arith, utf32_convert_utf8_moves r src);
    fits = λ src out rest h. grind (arith, sized);
  }

pub utf8_utf16-IsConverter : (r : ℕ) → IsConverter (utf8_utf16 r) 2
unfolding utf8_utf16
utf8_utf16-IsConverter r = from_utf8-IsConverter utf16_units r 2 length-utf16_units

pub utf8_utf32-IsConverter : (r : ℕ) → IsConverter (utf8_utf32 r) 1
unfolding utf8_utf32
utf8_utf32-IsConverter r = from_utf8-IsConverter _ r 1 (λ c. omega arith)

-- With a replacement character, no conversion of a source that is not empty fails.
pub never_fails :
    (r c : ℕ) (l : List ℕ) (e : ErrNo) (rest : List ℕ)
    → r ≢ 0
    → (utf32_utf8 r (c ∷ l) ≢ err e rest)
      × (utf32_utf16 r (c ∷ l) ≢ err e rest)
      × (utf16_utf8 r (c ∷ l) ≢ err e rest)
      × (utf16_utf32 r (c ∷ l) ≢ err e rest)
      × (utf8_utf16 r (c ∷ l) ≢ err e rest)
      × (utf8_utf32 r (c ∷ l) ≢ err e rest)
never_fails r c l e rest h = (
  unfold utf32_utf8 in ground arith,
  unfold utf32_utf16 in ground arith,
  from_utf16 l,
  from_utf16' l,
  unfold utf8_utf16 in ground (arith, utf32_convert_utf8_total r c l e rest),
  unfold utf8_utf32 in ground (arith, utf32_convert_utf8_total r c l e rest),
)
  where
    from_utf16 : (l : List ℕ) → utf16_utf8 r (c ∷ l) ≢ err e rest
    from_utf16 [] = unfold utf16_utf8 in ground arith
    from_utf16 (x ∷ l) = unfold utf16_utf8 in ground arith

    from_utf16' : (l : List ℕ) → utf16_utf32 r (c ∷ l) ≢ err e rest
    from_utf16' [] = unfold utf16_utf32 in ground arith
    from_utf16' (x ∷ l) = unfold utf16_utf32 in ground arith
