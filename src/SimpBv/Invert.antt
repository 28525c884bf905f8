-- ===== src/SimpBv/Invert.antt =====
-- `invert`: the complement within the size.
use native.Mathlib.Nat.{
  div-lt_iff_lt-mul, mod-lt, div-add-mod, mul_comm, mul-add-div_right, div-eq_of_lt,
}
use native.Mathlib.Decide.{ℕ_discrete}
use bienutil.Base.{
  ℕ, suc, ◌+◌, ◌-◌, ◌*◌, ◌/◌, ◌%◌, ◌<◌, ◌≡◌, ◌≢◌, refl, ◌∙◌, arith, true, false, not, ◌&&◌, List,
  ltb, ◌==◌, length,
}
use bienutil.WordArray.{member, not_words}
use bienutil.FixedBv.{els_array, trim}
use bienutil.FixedBv.Trim
use bienutil.FixedBv.Trim.{member-trim, els_array_bounds}
use bienutil.WordArray.Each.{length-not_words, not_words-AreWords, member-not_words}
use bienutil.WordArray.Valid.{IsValid}
use bienutil.SimpBv.{invert, fill_last, kst_size}

-- The room in the last word, by the remainder of the size.
rounded :
    (n w : ℕ)
    → 0 < w
    → (n % w ≡ 0 → els_array n w * w ≡ n)
      × (n % w ≢ 0 → (n < els_array n w * w) × (w - (els_array n w * w - n) ≡ n % w))
rounded n w pos = (
  λ z.
      let e : n + w - 1 ≡ n / w * w + (w - 1) =
        omega (arith, div-add-mod n w, mul_comm w (n / w)) in
      let q : (n / w * w + (w - 1)) / w ≡ n / w =
        mul-add-div_right pos (n / w) (w - 1) ∙ omega (arith, div-eq_of_lt last) in
      rw (e, q) (omega (arith, div-add-mod n w, mul_comm w (n / w))),
  λ nz.
      let e : n + w - 1 ≡ suc (n / w) * w + (n % w - 1) =
        omega (arith, div-add-mod n w, mul_comm w (n / w)) in
      let q : (suc (n / w) * w + (n % w - 1)) / w ≡ suc (n / w) =
        mul-add-div_right pos (suc (n / w)) (n % w - 1) ∙ omega (arith, div-eq_of_lt (short nz)) in
      rw (e, q) (omega (arith, div-add-mod n w, mul_comm w (n / w), mod-lt n pos)),
)
  where
    last : w - 1 < w
    last = omega arith

    short : n % w ≢ 0 → n % w - 1 < w
    short nz = omega (arith, mod-lt n pos)

-- The end of `invert` is `FixedBV::_Trim`.
fill_last-trim : (n w : ℕ) (rg : List ℕ) → 0 < w → fill_last n w rg ≡ trim n w rg
unfolding fill_last trim
fill_last-trim n w rg pos = elim (ℕ_discrete (n % w) 0) [
  | yes z ↦
      let even : (n % w == 0) ≡ true = ground arith in
      let full : ltb 0 (els_array n w * w - n) ≡ false = ground (arith, (rounded n w pos).0 z) in
      rw (even, full) refl
  | no nz ↦
      let odd : (n % w == 0) ≡ false = ground arith in
      let (room, bits) = (rounded n w pos).1 nz in
      let more : ltb 0 (els_array n w * w - n) ≡ true = ground arith in rw (odd, more, bits) refl
]

kst_size-els_array : (n w : ℕ) → 0 < w → 0 < n → kst_size w n ≡ els_array n w
unfolding kst_size
kst_size-els_array n w pos some_bit =
    let nz : (n == 0) ≡ false = ground arith in
    let e : n + w - 1 ≡ 1 * w + (n - 1) = omega arith in
    rw (nz, e) (omega (arith, mul-add-div_right pos 1 (n - 1)))

-- `invert` turns every bit of the vector over and leaves those beyond it clear.
pub invert_lem :
    (n w : ℕ) (rg : List ℕ)
    → 0 < w
    → 0 < n
    → length rg ≡ kst_size w n
    → IsValid w n rg
    → IsValid w n (invert n w rg)
      × ((i : ℕ) → member w (invert n w rg) i ≡ (ltb i n && not (member w rg i)))
unfolding invert
invert_lem n w rg pos some_bit sized valid = rw (fill_last-trim n w (not_words w rg) pos) (
  record {
    words = trimmed.words;
    sized = rw trimmed.sized (els_array_bounds n w pos).0;
    bounded = trimmed.trimmed;
  },
  λ i. member-trim n w pos (not_words w rg) exact some_bit i ∙ ground (arith, here i),
)
  where
    exact : length (not_words w rg) ≡ els_array n w
    exact = length-not_words w rg ∙ sized ∙ kst_size-els_array n w pos some_bit

    trimmed : Trim.IsValid n w (trim n w (not_words w rg))
    trimmed = Trim.trim-IsValid n w pos (not_words w rg) exact some_bit (not_words-AreWords w rg)

    here : (i : ℕ) → i < n → member w (not_words w rg) i ≡ not (member w rg i)
    here i l =
        member-not_words w rg i pos valid.words
          ((div-lt_iff_lt-mul pos).1 (omega (arith, valid.sized)))
