-- ===== src/ShPtr/Sound/Adopts.antt =====
-- A null pointer of src/_shwkptr.h takes a reference to a container that is held.
use mathlib.Core.Path.{subst}
use bienutil.Base.{ℕ, ◌+◌, ◌<◌, ◌≡◌, Option, none, some}
use bienutil.ShPtr.Outcome.{Ends}
use bienutil.ShPtr.Container.{
  Memory, set_strong, set_weak, update, add_ref_weak_no_throw, add_ref_strong_no_throw,
}
use bienutil.ShPtr.Counts.Pointers.{count}
use bienutil.ShPtr.Counts.Moves.{unshifted, IsShift, add_ref_strong-Settles, add_ref_weak-Settles}
use bienutil.ShPtr.Sound.Inv.{Inv, room, count-IsShift, AllBalanced-shift_none, Settles-Ends}

-- Variable `i` goes from null to `v`.
pub set-IsShift :
    (n : ℕ) (p : ℕ → Option ℕ) (i : ℕ) (v new : Option ℕ)
    → i < n
    → p i ≡ none
    → v ≡ new
    → IsShift (count n p) (count n (update p i v)) none new
set-IsShift n p i v new h e ev =
    subst (λ x. IsShift (count n p) (count n (update p i v)) none x) ev
      (count-IsShift n p i none v h e)

module _ {ℓ} {T : Type ℓ} {n k : ℕ} {m : Memory T} (inv : Inv n k m) (i : ℕ) (v : Option ℕ) where
  open inv use {few, balanced}

  pub Inv-set_strong : i < n → m.strong i ≡ none → v ≡ none → Inv n k (set_strong i v m)
  Inv-set_strong h e ev = record {
    few = few;
    balanced =
        AllBalanced-shift_none m (count n m.strong) (count k m.weak) _ _
          (set-IsShift n m.strong i v none h e ev) (unshifted (count k m.weak)) balanced;
  }

  pub Inv-set_weak : i < k → m.weak i ≡ none → v ≡ none → Inv n k (set_weak i v m)
  Inv-set_weak h e ev = record {
    few = few;
    balanced =
        AllBalanced-shift_none m (count n m.strong) (count k m.weak) _ _
          (unshifted (count n m.strong)) (set-IsShift k m.weak i v none h e ev) balanced;
  }

  module _ {E : Memory T → Type 0} (a : ℕ) (ev : v ≡ some a) where
    pub adopt_strong :
        i < n
        → m.strong i ≡ none
        → 0 < count n m.strong a
        → Ends (Inv n k) E (add_ref_strong_no_throw a (set_strong i v m))
    adopt_strong h e held =
        Settles-Ends a (set_strong i v m) _ _ _
          (add_ref_strong-Settles (count n m.strong) (count k m.weak) _ a (set_strong i v m)
            balanced (set-IsShift n m.strong i v (some a) h e ev) held (room inv a))
          (λ b all. record { few = few; balanced = all })

    pub adopt_weak :
        i < k
        → m.weak i ≡ none
        → 0 < count n m.strong a + count k m.weak a
        → Ends (Inv n k) E (add_ref_weak_no_throw a (set_weak i v m))
    adopt_weak h e held =
        Settles-Ends a (set_weak i v m) _ _ _
          (add_ref_weak-Settles (count n m.strong) (count k m.weak) _ a (set_weak i v m) balanced
            (set-IsShift k m.weak i v (some a) h e ev) held (room inv a))
          (λ b all. record { few = few; balanced = all })
