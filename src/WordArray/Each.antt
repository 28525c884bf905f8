-- ===== src/WordArray/Each.antt =====
-- The loops over all words: what they make of the set.
use native.Mathlib.Nat.{mod-lt}
use bienutil.Base.{
  ◌∙◌, not, ℕ, zero, suc, ◌/◌, ◌%◌, ◌^◌, ◌<◌, ◌≡◌, refl, ap, ◌∙◌, arith, bit_and, bit_or, bit_xor,
  ◌&&◌, ◌||◌, List, [], ◌∷◌, get_or, length,
}
use bienutil.Base.Digits.{
  testbit-bit_not, two-pow-pos, testbit, differs, testbit-bit_and, testbit-bit_or, testbit-bit_xor,
}
use bienutil.WordArray.{not_words, zip_words, member}
use bienutil.WordArray.Member.{AreWords}

pub length-zip_words : (f : ℕ → ℕ → ℕ) (xs ys : List ℕ) → length (zip_words f xs ys) ≡ length xs
unfolding zip_words
length-zip_words f [] ys = refl
length-zip_words f (x ∷ xs) [] = refl
length-zip_words f (x ∷ xs) (y ∷ ys) = ap suc (length-zip_words f xs ys)

pub get_or-zip_words :
    (f : ℕ → ℕ → ℕ) (xs ys : List ℕ) (k : ℕ)
    → length xs ≡ length ys
    → f 0 0 ≡ 0
    → get_or (zip_words f xs ys) k 0 ≡ f (get_or xs k 0) (get_or ys k 0)
unfolding zip_words
get_or-zip_words f [] [] k e z = cc
get_or-zip_words f [] (y ∷ ys) k e z = absurd (omega arith)
get_or-zip_words f (x ∷ xs) [] k e z = absurd (omega arith)
get_or-zip_words f (x ∷ xs) (y ∷ ys) zero e z = refl
get_or-zip_words f (x ∷ xs) (y ∷ ys) (suc k) e z = get_or-zip_words f xs ys k (omega arith) z

pub zip_words-AreWords :
    (w : ℕ) (f : ℕ → ℕ → ℕ)
    → ((x y : ℕ) → x < 2 ^ w → y < 2 ^ w → f x y < 2 ^ w)
    → (xs ys : List ℕ) → AreWords w xs
    → AreWords w ys
    → AreWords w (zip_words f xs ys)
unfolding zip_words
zip_words-AreWords w f h [] ys a b = tt
zip_words-AreWords w f h (x ∷ xs) [] a b = a
zip_words-AreWords w f h (x ∷ xs) (y ∷ ys) a b =
    (h x y a.0 b.0, zip_words-AreWords w f h xs ys a.1 b.1)

pub length-not_words : (w : ℕ) (rg : List ℕ) → length (not_words w rg) ≡ length rg
unfolding not_words
length-not_words w [] = refl
length-not_words w (x ∷ xs) = ap suc (length-not_words w xs)

pub not_words-AreWords : (w : ℕ) (rg : List ℕ) → AreWords w (not_words w rg)
unfolding not_words
not_words-AreWords w [] = tt
not_words-AreWords w (x ∷ xs) = (omega (arith, two-pow-pos w), not_words-AreWords w xs)

pub get_or-not_words :
    (w : ℕ) (rg : List ℕ) (k i : ℕ)
    → AreWords w rg
    → k < length rg
    → i < w
    → testbit (get_or (not_words w rg) k 0) i ≡ not (testbit (get_or rg k 0) i)
unfolding not_words
get_or-not_words w [] k i a h l = elim h [ ]
get_or-not_words w (x ∷ xs) zero i a h l = testbit-bit_not w i x a.0 ∙ ground arith
get_or-not_words w (x ∷ xs) (suc k) i a h l = get_or-not_words w xs k i a.1 (omega arith) l

-- The complement, as far as there are words.
pub member-not_words :
    (w : ℕ) (rg : List ℕ) (i : ℕ)
    → 0 < w
    → AreWords w rg
    → i / w < length rg
    → member w (not_words w rg) i ≡ not (member w rg i)
unfolding member
member-not_words w rg i pos a h = get_or-not_words w rg (i / w) (i % w) a h (mod-lt i pos)

-- Union, intersection and symmetric difference.
module _ (w : ℕ) (xs ys : List ℕ) (e : length xs ≡ length ys) (i : ℕ) where
  pub member-zip_or : member w (zip_words bit_or xs ys) i ≡ (member w xs i || member w ys i)
  unfolding member
  member-zip_or =
      ap (λ v. testbit v (i % w)) (get_or-zip_words bit_or xs ys (i / w) e refl)
      ∙ testbit-bit_or (i % w) _ _

  pub member-zip_and : member w (zip_words bit_and xs ys) i ≡ (member w xs i && member w ys i)
  unfolding member
  member-zip_and =
      ap (λ v. testbit v (i % w)) (get_or-zip_words bit_and xs ys (i / w) e refl)
      ∙ testbit-bit_and (i % w) _ _

  pub member-zip_xor :
      member w (zip_words bit_xor xs ys) i ≡ differs (member w xs i) (member w ys i)
  unfolding member
  member-zip_xor =
      ap (λ v. testbit v (i % w)) (get_or-zip_words bit_xor xs ys (i / w) e refl)
      ∙ testbit-bit_xor (i % w) _ _
