-- ===== src/WordArray.antt =====
-- Arrays of unsigned words of `w` bits read as sets of bit numbers: the representation that
-- fixedbv.h (`FixedBV`) and _vebtree.h (`_VebFixedBase`) share, and the expressions by which both
-- reach one bit.
pub mod Member
pub mod Each
pub mod Valid
pub mod Search
pub mod Scan
pub mod Scans
pub mod Next
pub mod Previous
use bienutil.Base.{
  drop, ◌+◌, ℕ, zero, suc, ◌-◌, ◌*◌, ◌/◌, ◌%◌, ◌^◌, bit_and, bit_or, bit_xor, Bool, not, List, [],
  ◌∷◌, ◌==◌, get_or, set, if◌then◌else◌, Option, none, some,
}
use bienutil.Base.Digits.{◌<<<◌, bit_not, testbit}

module _ (w : ℕ) where
  -- `rg[ i / w ]`
  abbrev pub word_of : List ℕ → ℕ → ℕ
  word_of rg i = get_or rg (i / w) 0

  -- `1 << ( i % w )`
  abbrev pub mask_of : ℕ → ℕ
  mask_of i = 1 <<< (i % w)

  -- `rg[ i / w ] & ( 1 << ( i % w ) )`, as a truth value.
  unfoldable pub test_bit : List ℕ → ℕ → Bool
  test_bit rg i = not (bit_and (word_of rg i) (mask_of i) == 0)

  -- `rg[ i / w ] |= 1 << ( i % w )`
  unfoldable pub or_bit : List ℕ → ℕ → List ℕ
  or_bit rg i = set rg (i / w) (bit_or (word_of rg i) (mask_of i))

  -- `rg[ i / w ] &= ~( 1 << ( i % w ) )`
  unfoldable pub clear_bit : List ℕ → ℕ → List ℕ
  clear_bit rg i = set rg (i / w) (bit_and (word_of rg i) (bit_not w (mask_of i)))

  -- `rg[ i / w ] ^= 1 << ( i % w )`
  unfoldable pub flip_bit : List ℕ → ℕ → List ℕ
  flip_bit rg i = set rg (i / w) (bit_xor (word_of rg i) (mask_of i))

  -- The set that an array stands for.
  unfoldable pub member : List ℕ → ℕ → Bool
  member rg i = testbit (word_of rg i) (i % w)

-- The loops that combine two arrays word by word.
unfoldable pub zip_words : (ℕ → ℕ → ℕ) → List ℕ → List ℕ → List ℕ
zip_words f [] ys = []
zip_words f (x ∷ xs) [] = x ∷ xs
zip_words f (x ∷ xs) (y ∷ ys) = f x y ∷ zip_words f xs ys

-- The loops that complement every word.
unfoldable pub not_words : ℕ → List ℕ → List ℕ
not_words w [] = []
not_words w (x ∷ xs) = bit_not w x ∷ not_words w xs

-- The loops that look for a word that is not zero: upwards, from a first index over the words from
-- there on; and downwards, over the first `n` words. The word comes with its index.
unfoldable pub first_word : ℕ → List ℕ → Option (ℕ × ℕ)
first_word el [] = none
first_word el (x ∷ xs) = if x == 0 then first_word (suc el) xs else some (el, x)

unfoldable pub last_word : ℕ → List ℕ → Option (ℕ × ℕ)
last_word zero rg = none
last_word (suc n) rg = if get_or rg n 0 == 0 then last_word n rg else some (n, get_or rg n 0)

module _ (w : ℕ) where
  -- The word with the next element from `x` on, what lies below `x` masked out; and the word with
  -- the last element up to `x`.
  unfoldable pub next_word : List ℕ → ℕ → Option (ℕ × ℕ)
  next_word rg x =
      let el = x / w in
      let masked = bit_and (word_of w rg x) (bit_not w ((1 <<< (x % w)) - 1)) in
      if masked == 0 then first_word (suc el) (drop (suc el) rg) else some (el, masked)

  unfoldable pub previous_word : List ℕ → ℕ → Option (ℕ × ℕ)
  previous_word rg x =
      let el = x / w in
      let k = suc (x % w) in
      let masked =
        if k % w == 0 then word_of w rg x else bit_and (word_of w rg x) ((1 <<< k) - 1) in
      if masked == 0 then last_word el rg else some (el, masked)
