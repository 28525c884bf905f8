-- ===== src/ShPtr/Sound/Inv.antt =====
-- The invariant of the pointers of src/_shwkptr.h: each count is the number of pointers to its block.
use mathlib.Core.Path.{subst}
use bienutil.Base.{ℕ, ◌+◌, ◌<◌, ◌≡◌, refl, sym, Option, none, some, arith}
use bienutil.ShPtr.Outcome.{Outcome, done, Ends, returns}
use bienutil.ShPtr.Container.{Block, Memory, update, set_block, ref_limit}
use bienutil.ShPtr.Strong.{if_some}
use bienutil.ShPtr.Family.{Exchange}
use bienutil.ShPtr.Counts.Pointers.{points, count, count-update, count-le, points-le-count}
use bienutil.ShPtr.Counts.Balance.{IsBalanced-at, AllBalanced}
use bienutil.ShPtr.Counts.Moves.{IsShift, Settles}

pub count-IsShift :
    (n : ℕ) (p : ℕ → Option ℕ) (i : ℕ) (old new : Option ℕ)
    → i < n
    → p i ≡ old
    → IsShift (count n p) (count n (update p i new)) old new
count-IsShift n p i old new h e a =
    subst (λ q. Exchange (points q a) (points new a) (count n p a) (count n (update p i new) a)) e
      (count-update n p i new a h)

module _ {ℓ} {T : Type ℓ} where
  -- `n` strong and `k` weak pointer variables, fewer than a count can hold.
  pub record Inv (n k : ℕ) (m : Memory T) : Type 0 where
    pub few : n + k + 1 < ref_limit
    pub balanced : AllBalanced m.block (count n m.strong) (count k m.weak)

  module _ {n k : ℕ} {m : Memory T} (inv : Inv n k m) where
    open inv use {few}

    pub room : (a : ℕ) → count n m.strong a + count k m.weak a + 1 < ref_limit
    room a = omega (arith, few, count-le n m.strong a, count-le k m.weak a)

    pub held_strong : (j a : ℕ) → j < n → m.strong j ≡ some a → 0 < count n m.strong a
    held_strong j a h e = ground (arith, points-le-count n m.strong j a h)

    pub held_weak : (j a : ℕ) → j < k → m.weak j ≡ some a → 0 < count k m.weak a
    held_weak j a h e = ground (arith, points-le-count k m.weak j a h)

  pub AllBalanced-shift_none :
      (m : Memory T) (s w s' w' : ℕ → ℕ)
      → IsShift s s' none none
      → IsShift w w' none none
      → AllBalanced m.block s w
      → AllBalanced m.block s' w'
  AllBalanced-shift_none m s w s' w' hs hw all a =
      IsBalanced-at (s a) (w a) _ _ refl (omega (arith, hs a)) (omega (arith, hw a)) (all a)

  module _ {P E : Memory T → Type 0} where
    pub if_some-Ends :
        (p : Option ℕ) (f : ℕ → Memory T → Outcome (Memory T)) (m : Memory T)
        → (p ≡ none → P m)
        → ((a : ℕ) → p ≡ some a → Ends P E (f a m))
        → Ends P E (if_some p f m)
    if_some-Ends none f m h k = returns (h refl)
    if_some-Ends (some a) f m h k = k a refl

    pub Settles-Ends :
        (a : ℕ) (m : Memory T) (o : Outcome (Memory T)) (s w : ℕ → ℕ)
        → Settles a m o s w
        → ((b : Block T) → AllBalanced (update m.block a b) s w → P (set_block a b m))
        → Ends P E o
    Settles-Ends a m o s w (b, ends, all) use_it =
        subst (Ends P E) (sym ends) (returns (use_it b all))

  pub if_some-done :
      (p : Option ℕ) (f : ℕ → Memory T → Outcome (Memory T)) (m : Memory T)
      → ((a : ℕ) → p ≡ some a → f a m ≡ done m)
      → if_some p f m ≡ done m
  if_some-done none f m k = refl
  if_some-done (some a) f m k = k a refl
