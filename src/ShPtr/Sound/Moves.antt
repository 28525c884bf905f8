-- ===== src/ShPtr/Sound/Moves.antt =====
-- Moving and swapping the pointers of src/_shwkptr.h: no count changes.
use bienutil.Base.{ℕ, ◌<◌, ◌≡◌, Option, none, arith}
use bienutil.ShPtr.Outcome.{Ends, returns, Ends-bind}
use bienutil.ShPtr.Container.{Memory, update}
use bienutil.ShPtr.Strong
use bienutil.ShPtr.Weak
use bienutil.ShPtr.Counts.Pointers.{count, count-update}
use bienutil.ShPtr.Counts.Moves.{unshifted}
use bienutil.ShPtr.Sound.Inv.{Inv, AllBalanced-shift_none}
use bienutil.ShPtr.Sound.Resets.{
  assert_strong-done, assert_weak-done, Strong-reset-Ends, Weak-reset-Ends,
}

-- The variables after a move from `j` to the null `i`, and after a swap.
module _ (n : ℕ) (p : ℕ → Option ℕ) (i j : ℕ) (hi : i < n) (hj : j < n) where
  count-move : p i ≡ none → (a : ℕ) → count n (update (update p i (p j)) j none) a ≡ count n p a
  count-move fresh a =
      ground (arith, count-update n p i (p j) a hi, count-update n (update p i (p j)) j none a hj)

  count-swap : (a : ℕ) → count n (update (update p i (p j)) j (p i)) a ≡ count n p a
  count-swap a =
      ground (arith, count-update n p i (p j) a hi, count-update n (update p i (p j)) j (p i) a hj)

module _ {ℓ} {T : Type ℓ} {n k : ℕ} {E : Memory T → Type 0} (m : Memory T) (inv : Inv n k m) where
  open inv use {few, balanced}

  pub Strong-move-Ends :
      (i j : ℕ) → i < n → j < n → m.strong i ≡ none → Ends (Inv n k) E (Strong.move i j m)
  unfolding Strong.move
  Strong-move-Ends i j hi hj fresh = returns (record {
    few = few;
    balanced =
        AllBalanced-shift_none m (count n m.strong) (count k m.weak) _ _
          (λ a. omega (arith, count-move n m.strong i j hi hj fresh a)) (unshifted (count k m.weak))
          balanced;
  })

  pub Strong-swap-Ends : (i j : ℕ) → i < n → j < n → Ends (Inv n k) E (Strong.swap i j m)
  unfolding Strong.swap
  Strong-swap-Ends i j hi hj = returns (record {
    few = few;
    balanced =
        AllBalanced-shift_none m (count n m.strong) (count k m.weak) _ _
          (λ a. omega (arith, count-swap n m.strong i j hi hj a)) (unshifted (count k m.weak))
          balanced;
  })

  pub Weak-move-Ends :
      (i j : ℕ) → i < k → j < k → m.weak i ≡ none → Ends (Inv n k) E (Weak.move i j m)
  unfolding Weak.move
  Weak-move-Ends i j hi hj fresh = returns (record {
    few = few;
    balanced =
        AllBalanced-shift_none m (count n m.strong) (count k m.weak) _ _
          (unshifted (count n m.strong)) (λ a. omega (arith, count-move k m.weak i j hi hj fresh a))
          balanced;
  })

  pub Weak-swap-Ends : (i j : ℕ) → i < k → j < k → Ends (Inv n k) E (Weak.swap i j m)
  unfolding Weak.swap
  Weak-swap-Ends i j hi hj = returns (record {
    few = few;
    balanced =
        AllBalanced-shift_none m (count n m.strong) (count k m.weak) _ _
          (unshifted (count n m.strong)) (λ a. omega (arith, count-swap k m.weak i j hi hj a))
          balanced;
  })

module _ {ℓ} {T : Type ℓ} {n k : ℕ} {E : Memory T → Type 0} (m : Memory T) (inv : Inv n k m) where
  pub Strong-assign_move-Ends :
      (i j : ℕ) → i < n → j < n → Ends (Inv n k) E (Strong.assign_move i j m)
  unfolding Strong.assign_move
  Strong-assign_move-Ends i j hi hj =
      rw (assert_strong-done m inv i hi, assert_strong-done m inv j hj)
        (Ends-bind (Strong-reset-Ends m inv i hi)
          (λ m' (inv', fresh). Strong-move-Ends m' inv' i j hi hj fresh))

  pub Weak-assign_move-Ends : (i j : ℕ) → i < k → j < k → Ends (Inv n k) E (Weak.assign_move i j m)
  unfolding Weak.assign_move
  Weak-assign_move-Ends i j hi hj =
      rw (assert_weak-done m inv i hi, assert_weak-done m inv j hj)
        (Ends-bind (Weak-reset-Ends m inv i hi)
          (λ m' (inv', (fresh, _)). Weak-move-Ends m' inv' i j hi hj fresh))
