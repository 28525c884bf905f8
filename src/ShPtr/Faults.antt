-- ===== src/ShPtr/Faults.antt =====
-- Where the pointers of src/_shwkptr.h do not do what they are meant to.
use bienutil.Base.{ℕ, ◌+◌, ◌<◌, ◌≡◌, refl, ◌∙◌, Option, none, some, arith}
use bienutil.ShPtr.Outcome.{done, Ends, returns, Ends-bind}
use bienutil.ShPtr.Container.{
  Block, unallocated, allocated, Memory, set_strong, set_weak, ref_limit,
}
use bienutil.ShPtr.Strong
use bienutil.ShPtr.Weak
use bienutil.ShPtr.Program.{Reach}
use bienutil.ShPtr.Counts.Pointers.{count, count-update}
use bienutil.ShPtr.Counts.Balance.{IsBalanced}
use bienutil.ShPtr.Family.{update-same}
use bienutil.ShPtr.Sound.Inv.{Inv}
use bienutil.ShPtr.Sound.Resets.{assert_strong-done, assert_weak-done, Strong-reset-Ends}
use bienutil.ShPtr.Sound.Creates.{IsAllocator}
use bienutil.ShPtr.Sound.Runs.{Reach-Inv}

module _ {ℓ} {T : Type ℓ} where
  -- `m_nRefObj` of a block
  abbrev pub ref_obj_of : Block T → ℕ
  ref_obj_of unallocated = 0
  ref_obj_of (allocated c) = c.ref_obj

  ref_obj_of-IsBalanced : (b : Block T) (s w : ℕ) → IsBalanced b s w → ref_obj_of b ≡ s
  ref_obj_of-IsBalanced unallocated s w h = omega arith
  ref_obj_of-IsBalanced (allocated c) s w h = h.0

  module _ {n k : ℕ} (alloc : (ℕ → Block T) → Option ℕ) (sound : IsAllocator alloc)
      (few : n + k + 1 < ref_limit) {m : Memory T} (reached : Reach alloc n k m) where
    inv : Inv n k m
    inv = Reach-Inv alloc sound few reached

    -- In every state that a careful run reaches, the assignment of a strong pointer to itself leaves it
    -- null.
    pub self_assign_resets :
        (i : ℕ)
        → i < n
        → Ends (λ m'. Inv n k m' × (m'.strong i ≡ none)) (λ _. ⊥) (Strong.assign i i m)
    unfolding Strong.assign
    self_assign_resets i h =
        rw (assert_strong-done m inv i h, assert_strong-done m inv i h)
          (Ends-bind (Strong-reset-Ends m inv i h)
            (λ m' (inv', gone). rw gone (returns (inv', gone))))

    reset_null : (i : ℕ) → m.weak i ≡ none → Weak.reset i m ≡ done m
    unfolding Weak.reset
    reset_null i e = rw e refl

    -- In every state that a careful run reaches, the assignment of a strong pointer as an rvalue to a null
    -- weak pointer returns with the strong count one above the number of strong pointers; the weak
    -- pointer has the block and the strong one is null.
    pub observe_move_leaks :
        (i j a : ℕ)
        → i < k
        → j < n
        → m.weak i ≡ none
        → m.strong j ≡ some a
        → (m' : Memory T) × (Weak.assign_observe_move i j m ≡ done m')
          × (ref_obj_of (m'.block a) ≡ count n m'.strong a + 1)
          × (m'.strong j ≡ none)
          × (m'.weak i ≡ some a)
    unfolding Weak.assign_observe_move
    observe_move_leaks i j a hi hj ei ej = (
      set_strong j none (set_weak i (m.strong j) m),
      rw (assert_weak-done m inv i hi, assert_strong-done m inv j hj, reset_null i ei) refl,
      ground (
        arith,
        ref_obj_of-IsBalanced _ _ _ (inv.balanced a),
        count-update n m.strong j none a hj,
      ),
      update-same m.strong j none,
      update-same m.weak i (m.strong j) ∙ ej,
    )
