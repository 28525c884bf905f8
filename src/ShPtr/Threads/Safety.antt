-- ===== src/ShPtr/Threads/Safety.antt =====
-- What threads that share a container of src/_shwkptr.h can rely on.
use bienutil.Base.{ℕ, ◌+◌, ◌<◌, ◌≡◌, ◌≢◌, ◌⊎◌, arith}
use bienutil.ShPtr.Container.{ref_limit}
use bienutil.ShPtr.Family.{le-sum_below, sum_below-zero, sum_below_same}
use bienutil.ShPtr.Threads.System.{Pc, Thread, System, Reach, leaked}
use bienutil.ShPtr.Threads.Invariant.{
  Inv, KeepsSource, holds_obj, holds_weak, in_destruction, in_deallocation, is_zero,
}
use bienutil.ShPtr.Threads.Hands.{Reach-Inv}

-- The thread holds a pointer, or is in a member function of the container.
abbrev pub UsesMemory : Thread → Type 0
UsesMemory t = (0 < t.strongs + t.weaks) ⊎ (t.pc ≢ Pc.idle)

-- The thread holds a strong pointer, or is about to run the destructor of the object.
abbrev pub UsesObject : Thread → Type 0
UsesObject t = (0 < t.strongs) ⊎ (t.pc ≡ Pc.destroying)

-- The thread holds nothing and is in no member function.
abbrev pub IsQuiet : Thread → Type 0
IsQuiet t = (t.strongs ≡ 0) × (t.weaks ≡ 0) × (t.pc ≡ Pc.idle)

UsesMemory-weight :
    (t : Thread)
    → KeepsSource t.pc t.strongs t.weaks
    → UsesMemory t
    → 0 < holds_weak t + in_deallocation t
UsesMemory-weight t h u = ground arith

module _ {n : ℕ} {s : System} (some_thread : 0 < n) (few : n + 1 < ref_limit)
    (reached : Reach n s) where
  inv : Inv n s.mem s.thread
  inv = Reach-Inv some_thread few reached

  -- Under any interleaving, with fewer pointers, leaked references, calls and threads than a count
  -- can hold, the memory has not been given back while a thread holds a pointer or is in a member
  -- function.
  pub memory_outlives_uses : (i : ℕ) → i < n → UsesMemory (s.thread i) → s.mem.deallocations ≡ 0
  memory_outlives_uses i h uses = ground (
    arith,
    UsesMemory-weight (s.thread i) (inv.source i h) uses,
    le-sum_below holds_weak n s.thread i h,
    le-sum_below in_deallocation n s.thread i h,
    inv.weak,
    inv.deallocated_once,
  )

  -- Under any interleaving, with fewer pointers, leaked references, calls and threads than a count
  -- can hold, the object has not been destroyed while a thread holds a strong pointer or is about to
  -- run the destructor.
  pub object_outlives_uses : (i : ℕ) → i < n → UsesObject (s.thread i) → s.mem.destructions ≡ 0
  object_outlives_uses i h uses = ground (
    arith,
    le-sum_below holds_obj n s.thread i h,
    le-sum_below in_destruction n s.thread i h,
    inv.obj,
    inv.destroyed_once,
  )

  -- Under any interleaving, with fewer pointers, leaked references, calls and threads than a count
  -- can hold, when no thread holds a pointer or is in a member function, the memory
  -- has been given back exactly once; the object has been destroyed exactly once if no strong
  -- pointer was assigned as an rvalue to a weak one, which leaks its reference, and never otherwise.
  pub released_once :
      ((i : ℕ) → i < n → IsQuiet (s.thread i))
      → (s.mem.deallocations ≡ 1) × (s.mem.destructions ≡ is_zero (leaked n s))
  released_once quiet =
      let only_leaks =
        sum_below_same holds_obj (λ t. t.leaks) n s.thread (λ i h. ground (arith, quiet i h)) in
      let no_weak = sum_below-zero holds_weak n s.thread (λ i h. ground (arith, quiet i h)) in
      let no_dying = sum_below-zero in_destruction n s.thread (λ i h. ground (arith, quiet i h)) in
      let no_freeing =
        sum_below-zero in_deallocation n s.thread (λ i h. ground (arith, quiet i h)) in
      (
        ground (arith, no_weak, no_freeing, inv.weak, inv.deallocated_once),
        ground (arith, only_leaks, no_dying, inv.obj, inv.destroyed_once),
      )
