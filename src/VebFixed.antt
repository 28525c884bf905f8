-- ===== src/VebFixed.antt =====
-- _vebtree.h: `_VebFixedBase`, the van Emde Boas tree of a small universe as a bit mask: a set of
-- numbers below `u` in words of `w` bits. `ctz` and `clz` are `Ctz` and `Clz` of the type of the words,
-- which VebFixed/Zeros has and VebFixed/Words fills in. Numbers are returned in the smallest type that
-- holds the universe's last one. `none` is a missing element, a throw, or a shift by the word's
-- width or more.
pub mod Order
pub mod Update
pub mod Take
pub mod Sets
pub mod Tree
pub mod Remove
pub mod Zeros
pub mod Words
mod Tests
use bienutil.Base.{
  ℕ, zero, suc, ◌+◌, ◌-◌, ◌*◌, ◌/◌, ◌%◌, ◌^◌, bit_and, Bool, true, false, not, Option, none, some,
  List, [], ◌∷◌, ltb, leb, ◌==◌, if◌then◌else◌, get_or, set, length, drop,
}
use bienutil.Base.Digits.{◌<<<◌, bit_not}
use bienutil.WordArray.{
  word_of, test_bit, or_bit, clear_bit, first_word, last_word, next_word, previous_word,
}

-- `KNextIntegerSize`: the greatest value of the smallest type for numbers below `st`.
unfoldable pub k_next_integer_size : ℕ → ℕ
k_next_integer_size st =
    if ltb (2 ^ 32 - 1) (st - 1)
    then 2 ^ 64 - 1
    else if ltb (2 ^ 16 - 1) (st - 1)
    then 2 ^ 32 - 1
    else if ltb (2 ^ 8 - 1) (st - 1)
    then 2 ^ 16 - 1
    else 2 ^ 8 - 1

pub f_is_pow2 : ℕ → Bool
f_is_pow2 st = bit_and st (st - 1) == 0

-- The conversion to `_tyImplType`.
unfoldable pub impl : ℕ → ℕ → ℕ
unfolding k_next_integer_size
impl u v = v % suc (k_next_integer_size u)

-- The element that a search has ended at, `f` being where it stands in its word; and what is returned
-- for it, `missing` if there is none.
abbrev pub located : ℕ → (ℕ × ℕ → ℕ) → Option (ℕ × ℕ) → Option ℕ
located u f none = none
located u f (some found) = some (impl u (f found))

abbrev pub located_or : ℕ → (ℕ × ℕ → ℕ) → ℕ → Option (ℕ × ℕ) → ℕ
located_or u f missing none = missing
located_or u f missing (some found) = impl u (f found)

-- The loop that clears the words from the given one on.
pub zero_from : ℕ → List ℕ → List ℕ
zero_from n [] = []
zero_from zero (x ∷ xs) = 0 ∷ zero_from zero xs
zero_from (suc n) (x ∷ xs) = x ∷ zero_from n xs

-- The loop of `FHasOneElement`, with the word that it found.
pub one_element : Option ℕ → List ℕ → Bool
unfolding f_is_pow2
one_element none [] = false
one_element (some x) [] = f_is_pow2 x
one_element none (x ∷ xs) = if x == 0 then one_element none xs else one_element (some x) xs
one_element (some y) (x ∷ xs) = if x == 0 then one_element (some y) xs else false

unfoldable pub is_some {ℓ} : {A : Type ℓ} → Option A → Bool
is_some none = false
is_some (some a) = true

pub f_has_any_elements : List ℕ → Bool
unfolding is_some
f_has_any_elements rg = is_some (first_word 0 rg)

pub f_has_one_element : List ℕ → Bool
unfolding one_element
f_has_one_element = one_element none

module _ (w : ℕ) where
  unfoldable pub f_has_element : List ℕ → ℕ → Bool
  f_has_element rg x = test_bit w rg x

  unfoldable pub insert : List ℕ → ℕ → List ℕ
  insert rg x = or_bit w rg x

  pub delete : List ℕ → ℕ → List ℕ
  delete rg x = clear_bit w rg x

  unfoldable pub f_check_insert : List ℕ → ℕ → Bool × List ℕ
  unfolding f_has_element insert
  f_check_insert rg x = if f_has_element rg x then (false, rg) else (true, insert rg x)

  pub f_check_delete : List ℕ → ℕ → Bool × List ℕ
  unfolding f_has_element delete
  f_check_delete rg x = if f_has_element rg x then (true, delete rg x) else (false, rg)

module _ (w u : ℕ) (ctz clz : ℕ → ℕ) where
  -- Where the lowest and the highest element of a word stand.
  abbrev pub lowest : ℕ × ℕ → ℕ
  lowest (el, x) = ctz x + el * w

  abbrev pub highest : ℕ × ℕ → ℕ
  highest (el, x) = w - 1 - clz x + el * w

  pub f_has_min : List ℕ → Option ℕ
  f_has_min rg = located u lowest (first_word 0 rg)

  pub f_has_max : List ℕ → Option ℕ
  f_has_max rg = located u highest (last_word (length rg) rg)

  -- What is left, whether that is empty, and otherwise the new maximum.
  pub f_delete_all_after : List ℕ → ℕ → Bool × Option ℕ × List ℕ
  unfolding f_has_max zero_from is_some
  f_delete_all_after rg x =
      let y = impl u (suc x) in
      let el = y / w in
      if ltb y u
      then (let masked = set rg el (bit_and (word_of w rg y) ((1 <<< (y % w)) - 1)) in
          let n = if y % w == 0 then el else suc el in
          let left = zero_from n (if y % w == 0 then rg else masked) in
          let max = located u highest (last_word n left) in (not (is_some max), max, left))
      else (not (is_some (f_has_max rg)), f_has_max rg, rg)

  -- `Resize`, which drops what lies beyond the new universe.
  pub resize : List ℕ → ℕ → List ℕ
  unfolding f_delete_all_after
  resize rg universe = (f_delete_all_after rg (impl u (universe - 1))).2

  -- 0 stands for no successor.
  pub n_successor : List ℕ → ℕ → ℕ
  unfolding next_word
  n_successor rg x = if leb (u - 1) x then 0 else located_or u lowest 0 (next_word w rg (suc x))

  -- The element that a search has ended at, which is deleted, `digit` being where it stands in its
  -- word.
  abbrev pub taking : List ℕ → ℕ → (ℕ → ℕ) → Option (ℕ × ℕ) → ℕ × List ℕ
  taking rg missing digit none = (missing, rg)
  taking rg missing digit (some (el, v)) = (
    impl u (digit v + el * w),
    set rg el (bit_and (get_or rg el 0) (bit_not w (1 <<< impl u (digit v)))),
  )

  pub n_successor_delete : List ℕ → ℕ → ℕ × List ℕ
  unfolding next_word
  n_successor_delete rg x =
      if leb (u - 1) x then (0, rg) else taking rg 0 ctz (next_word w rg (suc x))

  -- The universe's last number stands for no predecessor.
  pub n_predecessor : List ℕ → ℕ → ℕ
  unfolding previous_word
  n_predecessor rg x =
      if x == 0 then u - 1 else located_or u highest (u - 1) (previous_word w rg (x - 1))

  pub n_predecessor_delete : List ℕ → ℕ → ℕ × List ℕ
  unfolding previous_word
  n_predecessor_delete rg x =
      if x == 0
      then (u - 1, rg)
      else taking rg (u - 1) (λ v. w - 1 - clz v) (previous_word w rg (x - 1))
