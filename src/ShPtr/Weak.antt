-- ===== src/ShPtr/Weak.antt =====
-- `SharedWeakPtr` of src/_shwkptr.h. Variables are numbers: `i` is the pointer operated on, `j` the
-- argument. The flavours for less qualified types do the same.
use bienutil.Base.{ℕ, Bool, true, false, false, Option, none, some, ◌==◌}
use bienutil.ShPtr.Outcome.{Outcome, done, threw, undefined, ◌>>=◌}
use bienutil.ShPtr.Container.{
  absent, Block, unallocated, allocated, Memory, set_block, set_strong, set_weak,
  add_ref_weak_no_throw, do_release_weak,
}
use bienutil.ShPtr.Strong.{if_some, assert_strong, assert_weak}

module _ {ℓ} {T : Type ℓ} where
  unfoldable pub reset : ℕ → Memory T → Outcome (Memory T)
  reset i m = if_some (m.weak i) (λ a m. do_release_weak a (set_weak i none m)) m

  -- `~SharedWeakPtr`
  unfoldable pub destroy : ℕ → Memory T → Outcome (Memory T)
  destroy i m = if_some (m.weak i) do_release_weak m >>= λ m. done (set_weak i none m)

  -- `SharedWeakPtr( SharedWeakPtr const & )`
  unfoldable pub copy : ℕ → ℕ → Memory T → Outcome (Memory T)
  copy i j m = if_some (m.weak j) add_ref_weak_no_throw (set_weak i (m.weak j) m)

  -- `SharedWeakPtr( SharedWeakPtr && )`
  unfoldable pub move : ℕ → ℕ → Memory T → Outcome (Memory T)
  move i j m = done (set_weak j none (set_weak i (m.weak j) m))

  -- `SharedWeakPtr( SharedStrongPtr const & )`
  unfoldable pub observe : ℕ → ℕ → Memory T → Outcome (Memory T)
  observe i j m = if_some (m.strong j) add_ref_weak_no_throw (set_weak i (m.strong j) m)

  -- `operator = ( SharedWeakPtr const & )`
  unfoldable pub assign : ℕ → ℕ → Memory T → Outcome (Memory T)
  unfolding reset
  assign i j m = assert_weak i m >>= assert_weak j >>= reset i >>= λ m.
      if_some (m.weak j) (λ a m. add_ref_weak_no_throw a (set_weak i (some a) m)) m

  -- `operator = ( SharedWeakPtr && )`
  unfoldable pub assign_move : ℕ → ℕ → Memory T → Outcome (Memory T)
  unfolding reset
  assign_move i j m = assert_weak i m >>= assert_weak j >>= reset i >>= move i j

  -- `operator = ( SharedStrongPtr const & )`
  unfoldable pub assign_observe : ℕ → ℕ → Memory T → Outcome (Memory T)
  unfolding reset
  assign_observe i j m = assert_weak i m >>= assert_strong j >>= reset i >>= λ m.
      if_some (m.strong j) (λ a m. add_ref_weak_no_throw a (set_weak i (some a) m)) m

  -- `operator = ( SharedStrongPtr && )`
  unfoldable pub assign_observe_move : ℕ → ℕ → Memory T → Outcome (Memory T)
  unfolding reset
  assign_observe_move i j m = assert_weak i m >>= assert_strong j >>= reset i >>= λ m.
      done (set_strong j none (set_weak i (m.strong j) m))

  unfoldable pub swap : ℕ → ℕ → Memory T → Outcome (Memory T)
  swap i j m = done (set_weak j (m.weak i) (set_weak i (m.weak j) m))

  unfoldable pub expired : ℕ → Memory T → Outcome Bool
  expired i m = elim (m.weak i) [
    | none ↦ done true
    | some a ↦ elim (m.block a) [ unallocated ↦ undefined | allocated c ↦ done (c.ref_weak == 0) ]
  ]

  -- `PCreate( _TyAllocatorThis && )`: the allocator returns the block `answer`, or `none` where it
  -- throws; `moves` is false where its move into the container throws.
  abbrev pub p_create :
      (answer : Option ℕ)
      → (moves : Bool) → (ℕ → Memory T → Outcome (Memory T))
      → Memory T
      → Outcome (Memory T)
  p_create none moves use_it m = threw m
  p_create (some a) false use_it m = threw (set_block a unallocated m)
  p_create (some a) true use_it m =
      use_it a (set_block a (allocated (record { object = absent; ref_obj = 0; ref_weak = 1 })) m)

  unfoldable pub emplace :
      ((ℕ → Block T) → Option ℕ) → ℕ → (moves : Bool) → Memory T → Outcome (Memory T)
  unfolding reset
  emplace alloc i moves m =
      reset i m >>= λ m. p_create (alloc m.block) moves (λ a m. done (set_weak i (some a) m)) m
