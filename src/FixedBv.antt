-- ===== src/FixedBv.antt =====
-- fixedbv.h: `FixedBV< t_kN, t_TyT >`, a set of bits below `n` kept in words of `w` bits. An
-- operation that changes the object returns its words; `none` is the exception of `VerifyThrowSz`,
-- or, in `get_next_bit`, the greatest `size_t`, which stands for no bit.
pub mod Trim
pub mod Bits
pub mod Whole
pub mod Next
mod Tests
use bienutil.Base.{
  ℕ, zero, suc, ◌+◌, ◌-◌, ◌*◌, ◌/◌, ◌%◌, ◌^◌, bit_and, bit_or, bit_xor, Bool, true, false, not,
  ◌&&◌, Option, none, some, List, [], ◌∷◌, ltb, leb, ◌==◌, if◌then◌else◌, get_or, get_elem?, set,
  length, drop, replicate,
}
use bienutil.Base.Digits.{◌<<<◌, ◌>>>◌, bit_not}
use bienutil.WordArray.{
  test_bit, or_bit, clear_bit, flip_bit, zip_words, first_word, word_of, not_words,
}

-- `VerifyThrowSz( _kindex < t_kN, … )` before the rest.
abbrev pub verify {ℓ} : {A : Type ℓ} → Bool → A → Option A
verify true a = some a
verify false a = none

pub fill : ℕ → List ℕ → List ℕ
fill v [] = []
fill v (x ∷ xs) = v ∷ fill v xs

module _ (n w : ℕ) where
  -- `s_kNElsArray`
  abbrev pub els_array : ℕ
  els_array = (n + w - 1) / w

  -- `_Trim`
  unfoldable pub trim : List ℕ → List ℕ
  trim rg =
      let excess = els_array * w - n in
      let last = length rg - 1 in
      if ltb 0 excess
      then set rg last (bit_and (get_or rg last 0) ((1 <<< (w - excess)) - 1))
      else rg

  -- The default constructor.
  pub zeroed : List ℕ
  zeroed = replicate els_array 0

  pub test : List ℕ → ℕ → Option Bool
  test rg i = verify (ltb i n) (test_bit w rg i)

  pub set_value : List ℕ → ℕ → Bool → Option (List ℕ)
  set_value rg i value = verify (ltb i n) (if value then or_bit w rg i else clear_bit w rg i)

  unfoldable pub set_bit : List ℕ → ℕ → Option (List ℕ)
  set_bit rg i = verify (ltb i n) (or_bit w rg i)

  pub reset_bit : List ℕ → ℕ → Option (List ℕ)
  reset_bit rg i = verify (ltb i n) (clear_bit w rg i)

  pub flip_one : List ℕ → ℕ → Option (List ℕ)
  flip_one rg i = verify (ltb i n) (flip_bit w rg i)

  -- The constructor from a list of positions, from the words so far.
  pub set_all_of : List ℕ → List ℕ → Option (List ℕ)
  set_all_of rg [] = some rg
  set_all_of rg (i ∷ is) = if ltb i n then set_all_of (or_bit w rg i) is else none

  pub set_every : List ℕ → List ℕ
  unfolding fill trim
  set_every rg = trim (fill (2 ^ w - 1) rg)

  pub invert : List ℕ → List ℕ
  unfolding not_words trim
  invert rg = trim (not_words w rg)

  -- What is returned for the word that the loop of `get_next_bit` has ended at: for narrow words the
  -- position is tested against `n` once more.
  pub bit_at : (ℕ → ℕ) → Option (ℕ × ℕ) → Option ℕ
  bit_at ctz none = none
  bit_at ctz (some (el, mask)) =
      let position = el * w + ctz mask in
      if ltb w 32 then (if ltb position n then some position else none) else some position

  -- The first set bit after `i`; from the greatest `size_t` on it starts at bit 0. `ctz` is the
  -- compiler's count of trailing zeros.
  pub get_next_bit : (ℕ → ℕ) → List ℕ → ℕ → Option ℕ
  unfolding bit_at
  get_next_bit ctz rg i =
      let start = (i + 1) % 2 ^ 64 in
      let el = start / w in
      let mask = bit_and (word_of w rg start) (((2 ^ w - 1) <<< (start % w)) % 2 ^ w) in
      if leb n start
      then none
      else bit_at ctz
          (if mask == 0 then first_word (suc el) (drop (suc el) rg) else some (el, mask))

abbrev pub reset_every : List ℕ → List ℕ
reset_every = fill 0

pub and_assign : List ℕ → List ℕ → List ℕ
and_assign = zip_words bit_and

pub or_assign : List ℕ → List ℕ → List ℕ
or_assign = zip_words bit_or

pub xor_assign : List ℕ → List ℕ → List ℕ
xor_assign = zip_words bit_xor

pub any : List ℕ → Bool
any [] = false
any (x ∷ xs) = if x == 0 then any xs else true

-- `~t_TyT( 0 )` is computed in 32 bits where the type has fewer, so that as a number it then is no
-- value of the type.
abbrev pub all_ones : ℕ → ℕ
all_ones w = if ltb w 32 then 2 ^ 32 - 1 else 2 ^ w - 1

pub all : ℕ → List ℕ → Bool
all w [] = true
all w (x ∷ xs) = if x == all_ones w then all w xs else false
