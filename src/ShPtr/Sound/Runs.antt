-- ===== src/ShPtr/Sound/Runs.antt =====
-- Every run of the pointers of src/_shwkptr.h keeps the invariant.
use mathlib.Core.Path.{subst}
use bienutil.Base.{ℕ, ◌+◌, ◌<◌, ◌≡◌, refl, ap, ◌∙◌, Option, none, arith}
use bienutil.ShPtr.Outcome.{Outcome, Ends, returns, throws, Ends-bind, Ends-done, Ends-threw}
use bienutil.ShPtr.Container.{Block, Memory, ref_limit, set_strong, set_weak}
use bienutil.ShPtr.Weak
use bienutil.ShPtr.Program.{
  Op, strong_copy, strong_move, strong_lock, strong_lock_move, strong_lock_leave_empty,
  strong_create, strong_destroy, strong_assign, strong_assign_move, strong_assign_lock,
  strong_assign_lock_move, strong_swap, strong_reset, strong_emplace, weak_copy, weak_move,
  weak_observe, weak_destroy, weak_assign, weak_assign_move, weak_assign_observe,
  weak_assign_observe_move, weak_swap, weak_reset, weak_emplace, exec, IsEnabled, IsCareful, Step,
  returned, thrown, Reach, start, later,
}
use bienutil.ShPtr.Counts.Pointers.{count-none}
use bienutil.ShPtr.Sound.Inv.{Inv}
use bienutil.ShPtr.Sound.Resets.{
  Strong-reset-Ends, Strong-destroy-Ends, Weak-reset-Ends, Weak-destroy-Ends, assert_strong-done,
  assert_weak-done,
}
use bienutil.ShPtr.Sound.Copies.{
  Strong-copy-Ends, Weak-copy-Ends, Weak-observe-Ends, Strong-assign-Ends, Weak-assign-Ends,
  Weak-assign_observe-Ends,
}
use bienutil.ShPtr.Sound.Moves.{
  Strong-move-Ends, Weak-move-Ends, Strong-swap-Ends, Weak-swap-Ends, Strong-assign_move-Ends,
  Weak-assign_move-Ends,
}
use bienutil.ShPtr.Sound.Locks.{
  lock-Ends, lock_leave_empty-Ends, lock_move-Ends, assign_lock-Ends, assign_lock_move-Ends,
}
use bienutil.ShPtr.Sound.Adopts.{Inv-set_strong, Inv-set_weak}
use bienutil.ShPtr.Sound.Creates.{IsAllocator, create-Ends, Strong-emplace-Ends, Weak-emplace-Ends}

module _ {ℓ} {T : Type ℓ} {n k : ℕ} where
  -- With a null argument nothing is taken over.
  assign_observe_move-Ends :
      (m : Memory T)
      → Inv n k m
      → (i j : ℕ) → i < k
      → j < n
      → m.strong j ≡ none
      → Ends (Inv n k) (Inv n k) (Weak.assign_observe_move i j m)
  unfolding Weak.assign_observe_move
  assign_observe_move-Ends m inv i j hi hj e =
      rw (assert_weak-done m inv i hi, assert_strong-done m inv j hj)
        (Ends-bind (Weak-reset-Ends m inv i hi)
          (λ m' (inv', (fresh, same)). returns (untouched m' inv' fresh (ap (λ p. p j) same ∙ e))))
    where
      untouched :
          (m : Memory T)
          → Inv n k m
          → m.weak i ≡ none
          → m.strong j ≡ none
          → Inv n k (set_strong j none (set_weak i (m.strong j) m))
      untouched m inv fresh e =
          Inv-set_strong (Inv-set_weak inv i (m.strong j) hi fresh e) j none hj e refl

  forget :
      {P : Memory T → Type 0} {o : Outcome (Memory T)}
      → Ends (λ m. Inv n k m × P m) (Inv n k) o
      → Ends (Inv n k) (Inv n k) o
  forget (returns h) = returns h.0
  forget (throws h) = throws h

module _ {ℓ} {T : Type ℓ} {n k : ℕ} (alloc : (ℕ → Block T) → Option ℕ)
    (sound : IsAllocator alloc) where
  pub exec-Ends :
      (op : Op T) (m : Memory T)
      → Inv n k m
      → IsEnabled n k op m
      → IsCareful n op m
      → Ends (Inv n k) (Inv n k) (exec alloc op m)
  exec-Ends (strong_copy i j) m inv h _ = Strong-copy-Ends m inv i j h.0 h.1 h.2
  exec-Ends (strong_move i j) m inv h _ = Strong-move-Ends m inv i j h.0 h.1 h.2
  exec-Ends (strong_lock i j) m inv h _ = lock-Ends m inv i j h.0 h.1 h.2
  exec-Ends (strong_lock_move i j) m inv h kept = lock_move-Ends m inv i j h.0 h.1 h.2 kept
  exec-Ends (strong_lock_leave_empty i j) m inv h _ = lock_leave_empty-Ends m inv i j h.0 h.1 h.2
  exec-Ends (strong_create i value) m inv h _ = create-Ends alloc sound m inv i value h.0 h.1
  exec-Ends (strong_destroy i) m inv h _ = forget (Strong-destroy-Ends m inv i h)
  exec-Ends (strong_assign i j) m inv h _ = Strong-assign-Ends m inv i j h.0 h.1
  exec-Ends (strong_assign_move i j) m inv h _ = Strong-assign_move-Ends m inv i j h.0 h.1
  exec-Ends (strong_assign_lock i j) m inv h _ = assign_lock-Ends m inv i j h.0 h.1
  exec-Ends (strong_assign_lock_move i j) m inv h _ = assign_lock_move-Ends m inv i j h.0 h.1
  exec-Ends (strong_swap i j) m inv h _ = Strong-swap-Ends m inv i j h.0 h.1
  exec-Ends (strong_reset i) m inv h _ = forget (Strong-reset-Ends m inv i h)
  exec-Ends (strong_emplace i value) m inv h _ = Strong-emplace-Ends alloc sound m inv i value h
  exec-Ends (weak_copy i j) m inv h _ = Weak-copy-Ends m inv i j h.0 h.1 h.2
  exec-Ends (weak_move i j) m inv h _ = Weak-move-Ends m inv i j h.0 h.1 h.2
  exec-Ends (weak_observe i j) m inv h _ = Weak-observe-Ends m inv i j h.0 h.1 h.2
  exec-Ends (weak_destroy i) m inv h _ = forget (Weak-destroy-Ends m inv i h)
  exec-Ends (weak_assign i j) m inv h _ = Weak-assign-Ends m inv i j h.0 h.1
  exec-Ends (weak_assign_move i j) m inv h _ = Weak-assign_move-Ends m inv i j h.0 h.1
  exec-Ends (weak_assign_observe i j) m inv h _ = Weak-assign_observe-Ends m inv i j h.0 h.1
  exec-Ends (weak_assign_observe_move i j) m inv h null =
      assign_observe_move-Ends m inv i j h.0 h.1 null
  exec-Ends (weak_swap i j) m inv h _ = Weak-swap-Ends m inv i j h.0 h.1
  exec-Ends (weak_reset i) m inv h _ = forget (Weak-reset-Ends m inv i h)
  exec-Ends (weak_emplace i moves) m inv h _ = Weak-emplace-Ends alloc sound m inv i moves h

  pub Step-Inv : {m m' : Memory T} → Step alloc n k m m' → Inv n k m → Inv n k m'
  Step-Inv {m} (returned op h care e) inv =
      Ends-done (subst (Ends (Inv n k) (Inv n k)) e (exec-Ends op m inv h care))
  Step-Inv {m} (thrown op h care e) inv =
      Ends-threw (subst (Ends (Inv n k) (Inv n k)) e (exec-Ends op m inv h care))

  pub Reach-Inv : {m : Memory T} → n + k + 1 < ref_limit → Reach alloc n k m → Inv n k m
  Reach-Inv few start = record {
    few = few;
    balanced = λ a.
        omega (
          arith,
          count-none n (λ _. none) a (λ _ _. refl),
          count-none k (λ _. none) a (λ _ _. refl),
        );
  }
  Reach-Inv few (later r st) = Step-Inv st (Reach-Inv few r)
