-- ===== src/WordArray/Valid.antt =====
-- The bit mask of a set of numbers below `u`, and the writes of one bit.
use native.Mathlib.Nat.{div-lt_iff_lt-mul}
use bienutil.Base.{
  ℕ, ◌*◌, ◌/◌, ◌^◌, ◌≤◌, ◌<◌, ◌≡◌, arith, Bool, true, false, List, ◌==◌, if◌then◌else◌, set, length,
  length-set, All-set, All-get_or, ap,
}
use bienutil.Base.Digits.{bit_and-lt, bit_or-lt, two-pow-pos}
use bienutil.WordArray.{member, word_of, or_bit, clear_bit}
use bienutil.WordArray.Member.{AreWords, member-or_bit, member-clear_bit, mask-lt}

-- The bit mask of a set of numbers below `u`.
pub record IsValid (w u : ℕ) (rg : List ℕ) : Type 0 where
  pub words : AreWords w rg
  pub sized : u ≤ length rg * w
  pub bounded : (i : ℕ) → u ≤ i → member w rg i ≡ false

-- A valid set in which the element `x` is present or not as `b` says, and every other one as before.
abbrev pub Writes : ℕ → ℕ → List ℕ → ℕ → Bool → List ℕ → Type 0
Writes w u rg x b r =
    IsValid w u r × ((j : ℕ) → member w r j ≡ (if x == j then b else member w rg j))

module _ (w u : ℕ) (pos : 0 < w) (rg : List ℕ) (valid : IsValid w u rg) where
  module _ (x : ℕ) (h : x < u) where
    fits : x / w < length rg
    fits = (div-lt_iff_lt-mul pos).1 (omega (arith, valid.sized))

    word-lt : word_of w rg x < 2 ^ w
    word-lt = All-get_or (λ y. y < 2 ^ w) rg (x / w) 0 (two-pow-pos w) valid.words

    written :
        (v : ℕ) (b : Bool)
        → v < 2 ^ w
        → ((j : ℕ) → member w (set rg (x / w) v) j ≡ (if x == j then b else member w rg j))
        → Writes w u rg x b (set rg (x / w) v)
    written v b small m = (
      record {
        words = All-set (λ y. y < 2 ^ w) rg (x / w) v small valid.words;
        sized = rw (length-set rg (x / w) v) valid.sized;
        bounded = λ i k. ground (arith, m i, valid.bounded i);
      },
      m,
    )

    pub or_bit-Writes : Writes w u rg x true (or_bit w rg x)
    unfolding or_bit
    or_bit-Writes =
        written _ true (bit_or-lt w _ _ word-lt (mask-lt w pos x))
          (λ j. member-or_bit w pos rg x j fits)

    pub clear_bit-Writes : Writes w u rg x false (clear_bit w rg x)
    unfolding clear_bit
    clear_bit-Writes =
        written _ false (bit_and-lt w _ _ word-lt) (λ j. member-clear_bit w pos rg x j fits)

    pub unchanged : (b : Bool) → member w rg x ≡ b → Writes w u rg x b rg
    unchanged b e = (valid, λ j. ground (arith, same j))
      where
        same : (j : ℕ) → x ≡ j → member w rg x ≡ member w rg j
        same j q = ap (member w rg) q
