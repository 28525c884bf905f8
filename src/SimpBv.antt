-- ===== src/SimpBv.antt =====
-- _simpbv.h: `_simple_bitvec`, a set of bits below `n` in allocated words of `w` bits. An operation
-- that changes the object returns its words. `clz` is the compiler's count of leading zeros in the
-- `wide` bits to which a word is promoted, behind `MSBitSet` of _bitutil.h.
pub mod First
pub mod Search
pub mod Sets
pub mod Count
pub mod Invert
pub mod Decrement
pub mod Clear
mod Tests
use bienutil.Base.{
  ℕ, zero, suc, ◌+◌, ◌-◌, ◌*◌, ◌/◌, ◌%◌, ◌^◌, bit_and, bit_or, Bool, true, false, not, ◌||◌, Option,
  none, some, List, [], ◌∷◌, ltb, leb, ◌==◌, if◌then◌else◌, get_or, set, length, drop, replicate,
}
use bienutil.Base.Digits.{◌<<<◌, bit_not}
use bienutil.WordArray.{word_of, test_bit, or_bit, clear_bit, first_word, zip_words, not_words}

-- `MSBitSet`
pub ms_bit_set : (ℕ → ℕ) → ℕ → ℕ → ℕ
ms_bit_set clz wide v = if v == 0 then 2 ^ 64 - 1 else wide - 1 - clz v

-- `_rt &= _rt - 1`, and `_bv_first_set`, which `_bv_clear_first_set` returns beside it.
unfoldable pub without_first : ℕ → ℕ
without_first v = bit_and v (v - 1)

unfoldable pub bv_first_set : ℕ → ℕ → ℕ
unfolding without_first
bv_first_set w v = bit_and v (bit_not w (without_first v))

unfoldable pub bv_clear_first_set : ℕ → ℕ → ℕ × ℕ
unfolding bv_first_set without_first
bv_clear_first_set w v = (bv_first_set w v, without_first v)

module _ (clz : ℕ → ℕ) (wide w : ℕ) where
  unfoldable pub bv_get_first_set : ℕ → ℕ
  unfolding bv_first_set ms_bit_set
  bv_get_first_set v = ms_bit_set clz wide (bv_first_set w v)

  unfoldable pub bv_get_clear_first_set : ℕ → ℕ × ℕ
  unfolding bv_clear_first_set ms_bit_set
  bv_get_clear_first_set v =
      let (bit, left) = bv_clear_first_set w v in (ms_bit_set clz wide bit, left)

-- The array's length, and the array of the constructor from a number of bits.
pub kst_size : ℕ → ℕ → ℕ
kst_size w n = if n == 0 then 0 else suc ((n - 1) / w)

pub created : ℕ → ℕ → List ℕ
unfolding kst_size
created w n = replicate (kst_size w n) 0

pub clear : List ℕ → List ℕ
clear [] = []
clear (x ∷ xs) = 0 ∷ clear xs

pub empty : List ℕ → Bool
empty [] = true
empty (x ∷ xs) = if x == 0 then empty xs else false

pub and_not : ℕ → ℕ → ℕ → ℕ
and_not w x y = bit_and x (bit_not w y)

pub or_equals : List ℕ → List ℕ → List ℕ
or_equals = zip_words bit_or

pub and_equals : List ℕ → List ℕ → List ℕ
and_equals = zip_words bit_and

pub and_not_equals : ℕ → List ℕ → List ℕ → List ℕ
unfolding and_not
and_not_equals w = zip_words (and_not w)

pub f_intersects : List ℕ → List ℕ → Bool
f_intersects [] ys = false
f_intersects (x ∷ xs) [] = false
f_intersects (x ∷ xs) (y ∷ ys) = if bit_and x y == 0 then f_intersects xs ys else true

-- What `intersection` stores, and whether it is not empty.
pub intersection : List ℕ → List ℕ → List ℕ × Bool
intersection [] ys = ([], false)
intersection (x ∷ xs) [] = ([], false)
intersection (x ∷ xs) (y ∷ ys) =
    let (rest, any) = intersection xs ys in (bit_and x y ∷ rest, not (bit_and x y == 0) || any)

-- The loop of `countsetbits` over one word: `while ( el &= ( el - 1 ) )`, on fuel.
unfoldable pub count_word : ℕ → ℕ → Option ℕ
unfolding without_first
count_word zero el = none
count_word (suc fuel) el =
    let rest = count_word fuel (without_first el) in
    if without_first el == 0 then some 1 else elim rest [ none ↦ none | some k ↦ some (suc k) ]

unfoldable pub countsetbits : ℕ → List ℕ → Option ℕ
unfolding count_word
countsetbits w [] = some 0
countsetbits w (x ∷ xs) = if x == 0 then countsetbits w xs else (elim (count_word w x) [
  | none ↦ none
  | some k ↦ elim (countsetbits w xs) [ none ↦ none | some m ↦ some (k + m) ]
])

pub hash : List ℕ → ℕ
hash [] = 0
hash (x ∷ xs) = (x + hash xs) % 2 ^ 64

module _ (w : ℕ) where
  pub setbit : List ℕ → ℕ → List ℕ
  setbit rg i = or_bit w rg i

  pub clearbit : List ℕ → ℕ → List ℕ
  clearbit rg i = clear_bit w rg i

  pub setbit_to : List ℕ → ℕ → Bool → List ℕ
  unfolding setbit clearbit
  setbit_to rg i on = if on then setbit rg i else clearbit rg i

  pub isbitset : List ℕ → ℕ → Bool
  isbitset rg i = test_bit w rg i

module _ (n w : ℕ) where
  -- The last word keeps only its bits below `n`.
  pub fill_last : List ℕ → List ℕ
  fill_last rg =
      let last = length rg - 1 in
      if n % w == 0 then rg else set rg last (bit_and (get_or rg last 0) ((1 <<< (n % w)) - 1))

  pub invert : List ℕ → List ℕ
  unfolding not_words fill_last
  invert rg = fill_last (not_words w rg)

-- `decrement`, whose test is `!!*pEl--`: it reads the word and moves the pointer, not the value,
-- back, and the loop moves it forward again. On fuel; `none` where it has not ended.
pub decrement : ℕ → List ℕ → Option (List ℕ)
decrement fuel [] = some []
decrement zero (x ∷ xs) = none
decrement (suc fuel) (x ∷ xs) =
    let again = decrement fuel (x ∷ xs) in if x == 0 then again else some (x ∷ xs)

-- The searches: `words` are the words as their loop sees them, those of the object, their
-- complements, or their intersection with another's. The number of bits stands for none found.
module _ (clz : ℕ → ℕ) (wide n w : ℕ) where
  abbrev pub bit_found : Option (ℕ × ℕ) → ℕ
  bit_found none = n
  bit_found (some (el, v)) = el * w + bv_get_first_set clz wide w v

  -- `_getset`, `_getnotset` and `_NIntersection`
  pub getset : List ℕ → ℕ → ℕ
  getset words el = bit_found (first_word el (drop el words))

  -- What `getnextset`, `getnextnotset` and `NextIntersection` do after their first test.
  pub next_from : List ℕ → ℕ → ℕ
  unfolding getset
  next_from words last =
      let start = suc last in
      let el = start / w in
      let masked = bit_and (get_or words el 0) (bit_not w ((1 <<< (start % w)) - 1)) in
      if start % w == 0
      then getset words el
      else if masked == 0
      then getset words (suc el)
      else bit_found (some (el, masked))

  pub getfirstset : List ℕ → ℕ
  unfolding getset
  getfirstset rg = getset rg 0

  pub getnextset : List ℕ → ℕ → ℕ
  unfolding next_from
  getnextset rg last = if leb n last then n else next_from rg last

  pub getnextnotset : List ℕ → ℕ → ℕ
  unfolding next_from not_words
  getnextnotset rg last = if leb n last then n else next_from (not_words w rg) last

  pub first_intersection : List ℕ → List ℕ → ℕ
  unfolding getset
  first_intersection rg other = getset (zip_words bit_and rg other) 0

  pub next_intersection : List ℕ → List ℕ → ℕ → ℕ
  unfolding next_from
  next_intersection rg other last = next_from (zip_words bit_and rg other) last

  -- `_getclearfirstset`: the bit, and the words without it.
  abbrev pub cleared : List ℕ → Option (ℕ × ℕ) → ℕ × List ℕ
  cleared rg none = (n, rg)
  cleared rg (some (el, v)) =
      let (bit, left) = bv_get_clear_first_set clz wide w v in (el * w + bit, set rg el left)

  pub getclearfirstset : List ℕ → ℕ × List ℕ
  getclearfirstset rg = cleared rg (first_word 0 rg)

  pub getclearfirstset_from : List ℕ → ℕ → ℕ × List ℕ
  getclearfirstset_from rg last = let el = suc last / w in cleared rg (first_word el (drop el rg))
