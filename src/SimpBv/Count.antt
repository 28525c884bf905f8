-- ===== src/SimpBv/Count.antt =====
-- `countsetbits` counts the members.
use native.Mathlib.Nat.{mod-lt, div-add-mod, mul_comm}
use native.Mathlib.Decide.{ℕ_discrete}
use bienutil.Base.{
  ℕ, zero, suc, ◌+◌, ◌-◌, ◌*◌, ◌/◌, ◌%◌, ◌^◌, ◌≤◌, ◌<◌, ◌≡◌, ◌≢◌, refl, sym, ap, ◌∙◌, arith, Bool,
  true, false, not, ◌&&◌, some, List, [], ◌∷◌, ◌==◌, if◌then◌else◌, length, Bool-cases, inl, inr,
}
use bienutil.Base.Digits.{testbit, zero_testbit}
use bienutil.WordArray.{member}
use bienutil.WordArray.Member.{AreWords, member-at}
use bienutil.WordArray.Search.{same_place}
use bienutil.WordArray.Valid.{IsValid}
use bienutil.SimpBv.{without_first, count_word, countsetbits}
use bienutil.SimpBv.First.{IsLowest-digit, testbit-without_first, without_first-lt}

-- How many numbers below `n` are in a set.
pub count_below : (ℕ → Bool) → ℕ → ℕ
count_below has zero = 0
count_below has (suc n) = (if has n then 1 else 0) + count_below has n

count-ext :
    (f g : ℕ → Bool) (n : ℕ) → ((j : ℕ) → j < n → f j ≡ g j) → count_below f n ≡ count_below g n
unfolding count_below
count-ext f g zero h = refl
count-ext f g (suc n) h = rw (h n (omega arith), count-ext f g n (λ j l. h j (omega arith)))

count-le : (f : ℕ → Bool) (n : ℕ) → count_below f n ≤ n
unfolding count_below
count-le f zero = omega arith
count-le f (suc n) = ground (arith, count-le f n)

count_none : (f : ℕ → Bool) (n : ℕ) → ((j : ℕ) → f j ≡ false) → count_below f n ≡ 0
unfolding count_below
count_none f zero h = refl
count_none f (suc n) h = ground (arith, h n, count_none f n h)

-- One element less.
count_remove :
    (f g : ℕ → Bool) (k n : ℕ)
    → k < n
    → f k ≡ true
    → ((j : ℕ) → g j ≡ (f j && not (j == k)))
    → count_below f n ≡ suc (count_below g n)
unfolding count_below
count_remove f g k zero l on h = absurd (omega arith)
count_remove f g k (suc n) l on h = elim (ℕ_discrete n k) [
  | yes e ↦
      let at : f n ≡ true = ap f e ∙ on in
      let rest = count-ext f g n (λ j m. ground (arith, h j)) in ground (arith, h n, rest)
  | no ne ↦ ground (arith, h n, count_remove f g k n (omega arith) on h)
]

count-add :
    (f : ℕ → Bool) (a b : ℕ)
    → count_below f (a + b) ≡ count_below f a + count_below (λ j. f (a + j)) b
unfolding count_below
count-add f a zero = let e : a + 0 ≡ a = omega arith in ap (count_below f) e ∙ omega arith
count-add f a (suc b) =
    let e : a + suc b ≡ suc (a + b) = omega arith in rw (e, count-add f a b) (omega arith)

count_beyond :
    (f : ℕ → Bool) (n k : ℕ)
    → ((j : ℕ) → n ≤ j → f j ≡ false)
    → count_below f (n + k) ≡ count_below f n
count_beyond f n k h =
    count-add f n k ∙ ground (arith, count_none (λ j. f (n + j)) k (λ j. h (n + j) (omega arith)))

-- Fuel for the digits of a word that are one is enough for `count_word`.
count_word_lem :
    (w fuel v : ℕ)
    → v ≢ 0
    → v < 2 ^ w
    → count_below (testbit v) w ≤ fuel
    → count_word fuel v ≡ some (count_below (testbit v) w)
unfolding count_word
count_word_lem w zero v nz small enough =
    let (k, l, low) = IsLowest-digit w v nz small in
    let fewer =
      count_remove (testbit v) (testbit (without_first v)) k w l low.on
        (testbit-without_first w v k small low) in
    absurd (omega (arith, fewer))
count_word_lem w (suc fuel) v nz small enough =
    let (k, l, low) = IsLowest-digit w v nz small in
    let left = without_first v in
    let fewer =
      count_remove (testbit v) (testbit left) k w l low.on
        (testbit-without_first w v k small low) in
    elim (Bool-cases (left == 0)) [
      | inl e ↦
          let gone : left ≡ 0 = ground arith in
          let clear =
            count_none (testbit left) w (λ j. ap (λ x. testbit x j) gone ∙ zero_testbit j) in
          rw (e, fewer, clear) refl
      | inr e ↦
          let ih =
            count_word_lem w fuel left (ground arith) (without_first-lt w v k small low)
              (omega (arith, fewer)) in
          rw (e, ih, fewer) refl
    ]

-- The members of an array are those of its first word and those of the rest.
first_part : (w x : ℕ) (xs : List ℕ) → 0 < w → (j : ℕ) → j < w → member w (x ∷ xs) j ≡ testbit x j
first_part w x xs pos j l =
    same_place (member w (x ∷ xs)) j (0 * w + j) (omega arith) ∙ member-at w pos (x ∷ xs) 0 j l

later_part : (w x : ℕ) (xs : List ℕ) → 0 < w → (j : ℕ) → member w (x ∷ xs) (w + j) ≡ member w xs j
later_part w x xs pos j =
    let r : j % w < w = mod-lt j pos in
    same_place (member w (x ∷ xs)) (w + j) (suc (j / w) * w + j % w)
      (omega (arith, div-add-mod j w, mul_comm w (j / w)))
    ∙ member-at w pos (x ∷ xs) (suc (j / w)) (j % w) r
    ∙ sym (
        same_place (member w xs) j (j / w * w + j % w)
          (omega (arith, div-add-mod j w, mul_comm w (j / w)))
        ∙ member-at w pos xs (j / w) (j % w) r)

count_words :
    (w : ℕ) (rg : List ℕ)
    → 0 < w
    → AreWords w rg
    → countsetbits w rg ≡ some (count_below (member w rg) (length rg * w))
unfolding countsetbits
count_words w [] pos a = let z : 0 * w ≡ 0 = omega arith in rw z (unfold count_below in refl)
count_words w (x ∷ xs) pos a =
    let whole : count_below (member w (x ∷ xs)) (w + length xs * w)
        ≡ count_below (testbit x) w + count_below (member w xs) (length xs * w) =
      count-add (member w (x ∷ xs)) w (length xs * w)
      ∙ omega (
        arith,
        count-ext (member w (x ∷ xs)) (testbit x) w (first_part w x xs pos),
        count-ext (λ j. member w (x ∷ xs) (w + j)) (member w xs) (length xs * w)
            (λ j l. later_part w x xs pos j),
      ) in
    let total : suc (length xs) * w ≡ w + length xs * w = omega arith in
    elim (Bool-cases (x == 0)) [
      | inl e ↦
          let gone : x ≡ 0 = ground arith in
          let clear = count_none (testbit x) w (λ j. ap (λ y. testbit y j) gone ∙ zero_testbit j) in
          rw (e, count_words w xs pos a.1, total, whole, clear) (ap some (omega arith))
      | inr e ↦
          rw
            (
              e,
              count_word_lem w w x (ground arith) a.0 (count-le (testbit x) w),
              count_words w xs pos a.1,
              total,
              whole,
            )
            refl
    ]

-- `countsetbits` ends, and returns the number of bits below `n` that are set.
pub countsetbits-count_below :
    (n w : ℕ) (rg : List ℕ)
    → 0 < w
    → IsValid w n rg
    → countsetbits w rg ≡ some (count_below (member w rg) n)
countsetbits-count_below n w rg pos valid =
    let room : length rg * w ≡ n + (length rg * w - n) = omega (arith, valid.sized) in
    count_words w rg pos valid.words
    ∙ ap some (
        ap (count_below (member w rg)) room
        ∙ count_beyond (member w rg) n (length rg * w - n) valid.bounded)
