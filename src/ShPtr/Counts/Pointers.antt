-- ===== src/ShPtr/Counts/Pointers.antt =====
-- How many of the pointer variables of src/_shwkptr.h refer to a block.
use bienutil.Base.{ℕ, zero, suc, ◌<◌, ◌≤◌, ◌≡◌, ap, Option, none, some, ◌==◌, if◌then◌else◌, arith}
use bienutil.ShPtr.Container.{update}
use bienutil.ShPtr.Family.{Exchange, sum_below, sum_below-update, sum_below-zero}

abbrev pub points : Option ℕ → ℕ → ℕ
points none a = 0
points (some b) a = if b == a then 1 else 0

-- Of the variables below `n`, those that point to `a`.
unfoldable pub count : ℕ → (ℕ → Option ℕ) → ℕ → ℕ
unfolding sum_below
count n p a = sum_below (λ v. points v a) n p

pub count-update :
    (n : ℕ) (p : ℕ → Option ℕ) (i : ℕ) (v : Option ℕ) (a : ℕ)
    → i < n
    → Exchange (points (p i) a) (points v a) (count n p a) (count n (update p i v) a)
unfolding count
count-update n p i v a h = sum_below-update (λ v. points v a) n p i v h

pub count-le : (n : ℕ) (p : ℕ → Option ℕ) (a : ℕ) → count n p a ≤ n
unfolding count sum_below
count-le zero p a = omega arith
count-le (suc n) p a = ground (arith, count-le n p a)

pub points-le-count : (n : ℕ) (p : ℕ → Option ℕ) (i a : ℕ) → i < n → points (p i) a ≤ count n p a
points-le-count n p i a h = omega (arith, count-update n p i none a h)

pub count-none :
    (n : ℕ) (p : ℕ → Option ℕ) (a : ℕ) → ((l : ℕ) → l < n → p l ≡ none) → count n p a ≡ 0
unfolding count
count-none n p a h =
    sum_below-zero (λ v. points v a) n p (λ l below. ap (λ v. points v a) (h l below))
