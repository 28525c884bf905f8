-- ===== src/ShPtr/Strong.antt =====
-- `SharedStrongPtr` of src/_shwkptr.h. Variables are numbers: `i` is the pointer operated on, `j`
-- the argument, which may be the same variable. The flavours for less qualified types do the same.
use bienutil.Base.{ℕ, true, false, Option, none, some}
use bienutil.ShPtr.Outcome.{Outcome, done, threw, ◌>>=◌, no_throw}
use bienutil.ShPtr.Container.{
  alive, Block, unallocated, allocated, Memory, set_block, set_strong, set_weak, assert_valid,
  add_ref_weak_no_throw, add_ref_strong_no_throw, add_ref_strong_only,
  f_add_ref_strong_only_no_throw, do_release_strong,
}

module _ {ℓ} {T : Type ℓ} where
  -- What is done with a pointer, when it is not null.
  abbrev pub if_some :
      Option ℕ → (ℕ → Memory T → Outcome (Memory T)) → Memory T → Outcome (Memory T)
  if_some none f m = done m
  if_some (some a) f m = f a m

  abbrev pub assert_strong : ℕ → Memory T → Outcome (Memory T)
  assert_strong i m = if_some (m.strong i) (assert_valid true) m

  abbrev pub assert_weak : ℕ → Memory T → Outcome (Memory T)
  assert_weak i m = if_some (m.weak i) (assert_valid false) m

  unfoldable pub reset : ℕ → Memory T → Outcome (Memory T)
  reset i m = if_some (m.strong i) (λ a m. do_release_strong a (set_strong i none m)) m

  -- `~SharedStrongPtr`
  unfoldable pub destroy : ℕ → Memory T → Outcome (Memory T)
  destroy i m = if_some (m.strong i) do_release_strong m >>= λ m. done (set_strong i none m)

  -- `SharedStrongPtr( SharedStrongPtr const & )`
  unfoldable pub copy : ℕ → ℕ → Memory T → Outcome (Memory T)
  copy i j m = if_some (m.strong j) add_ref_strong_no_throw (set_strong i (m.strong j) m)

  -- `SharedStrongPtr( SharedStrongPtr && )`
  unfoldable pub move : ℕ → ℕ → Memory T → Outcome (Memory T)
  move i j m = done (set_strong j none (set_strong i (m.strong j) m))

  -- `SharedStrongPtr( SharedWeakPtr const & )`
  unfoldable pub lock : ℕ → ℕ → Memory T → Outcome (Memory T)
  lock i j m =
      if_some (m.weak j)
        (λ a m. add_ref_strong_only a m >>= add_ref_weak_no_throw a >>= λ m.
          done (set_strong i (some a) m))
        m

  -- `SharedStrongPtr( SharedWeakPtr && )`, which is `noexcept`
  unfoldable pub lock_move : ℕ → ℕ → Memory T → Outcome (Memory T)
  lock_move i j m = no_throw (
      if_some (m.weak j)
        (λ a m. add_ref_strong_only a m >>= λ m. done (set_weak j none (set_strong i (some a) m)))
        m)

  -- `SharedStrongPtr( _SharedWeakPtr_weak_leave_empty, SharedWeakPtr const & )`
  unfoldable pub lock_leave_empty : ℕ → ℕ → Memory T → Outcome (Memory T)
  lock_leave_empty i j m =
      if_some (m.weak j)
        (λ a m.
          f_add_ref_strong_only_no_throw a
            (λ m. add_ref_weak_no_throw a m >>= λ m. done (set_strong i (some a) m)) done m)
        m

  -- `operator = ( SharedStrongPtr const & )`
  unfoldable pub assign : ℕ → ℕ → Memory T → Outcome (Memory T)
  unfolding reset
  assign i j m = assert_strong i m >>= assert_strong j >>= reset i >>= λ m.
      if_some (m.strong j) (λ a m. add_ref_strong_no_throw a (set_strong i (some a) m)) m

  -- `operator = ( SharedStrongPtr && )`
  unfoldable pub assign_move : ℕ → ℕ → Memory T → Outcome (Memory T)
  unfolding reset
  assign_move i j m = assert_strong i m >>= assert_strong j >>= reset i >>= move i j

  -- `operator = ( SharedWeakPtr const & )`
  unfoldable pub assign_lock : ℕ → ℕ → Memory T → Outcome (Memory T)
  unfolding reset lock
  assign_lock i j m = assert_strong i m >>= assert_weak j >>= reset i >>= lock i j

  -- `operator = ( SharedWeakPtr & )`, which empties its argument
  unfoldable pub assign_lock_move : ℕ → ℕ → Memory T → Outcome (Memory T)
  unfolding reset
  assign_lock_move i j m = assert_strong i m >>= assert_weak j >>= reset i >>= λ m.
      if_some (m.weak j)
        (λ a m. add_ref_strong_only a m >>= λ m. done (set_weak j none (set_strong i (some a) m))) m

  unfoldable pub swap : ℕ → ℕ → Memory T → Outcome (Memory T)
  swap i j m = done (set_strong j (m.strong i) (set_strong i (m.strong j) m))

  -- `m_tyT` of the container in a block
  abbrev pub object_at : Block T → Option T
  object_at unallocated = none
  object_at (allocated c) = elim c.object [ alive v ↦ some v | _ ↦ none ]

  -- `operator *` and `operator ->`
  unfoldable pub get : ℕ → Memory T → Option T
  get i m = elim (m.strong i) [ none ↦ none | some a ↦ object_at (m.block a) ]

  -- `PCreate( _TyAllocatorThis &&, std::in_place_t, ... )`, with what the caller does with the
  -- container. The allocator returns the block `answer`, or `none` where it throws; `value` is the
  -- object that the constructor of `T` makes, or `none` where it throws.
  abbrev pub p_create :
      (answer : Option ℕ) (value : Option T)
      → (ℕ → Memory T → Outcome (Memory T))
      → Memory T
      → Outcome (Memory T)
  p_create none value use_it m = threw m
  p_create (some a) none use_it m = threw (set_block a unallocated m)
  p_create (some a) (some v) use_it m =
      use_it a (set_block a (allocated (record { object = alive v; ref_obj = 1; ref_weak = 1 })) m)

  module _ (alloc : (ℕ → Block T) → Option ℕ) where
    -- `SharedStrongPtr( std::in_place_t, ... )`
    unfoldable pub create : ℕ → Option T → Memory T → Outcome (Memory T)
    create i value m = p_create (alloc m.block) value (λ a m. done (set_strong i (some a) m)) m

    unfoldable pub emplace : ℕ → Option T → Memory T → Outcome (Memory T)
    unfolding reset create
    emplace i value m = reset i m >>= create i value
