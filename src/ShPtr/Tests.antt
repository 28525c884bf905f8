-- ===== src/ShPtr/Tests.antt =====
-- Runs of the pointers of src/_shwkptr.h, and each result at one of them.
use bienutil.Base.{ℕ, ◌+◌, ◌<◌, ◌≡◌, refl, ◌⊎◌, true, false, not, ◌&&◌, Option, none, some, arith}
use native.Mathlib.Decide.{ℕ_discrete}
use bienutil.ShPtr.Outcome.{Outcome, done, threw, terminated, ◌>>=◌, Ends}
use bienutil.ShPtr.Container.{
  Block, unallocated, allocated, Memory, do_release_strong, do_release_weak, add_ref_weak_no_throw,
  assert_valid,
}
use bienutil.ShPtr.Strong
use bienutil.ShPtr.Weak
use bienutil.ShPtr.Program.{
  strong_create, strong_assign, strong_reset, weak_observe, exec, returned, initial, Reach, start,
  later, destroy_strong, destroy_weak,
}
use bienutil.ShPtr.Counts.Pointers.{count}
use bienutil.ShPtr.Sound.Inv.{Inv}
use bienutil.ShPtr.Sound.Creates.{IsAllocator}
use bienutil.ShPtr.Sound.Scope.{IsDead, IsFree, objects_die, nothing_left}
use bienutil.ShPtr.Safety.{operations_safe, object_lives}
use bienutil.ShPtr.Locking.{lock_outcomes}
use bienutil.ShPtr.Faults.{ref_obj_of, self_assign_resets, observe_move_leaks}
use bienutil.ShPtr.MayThrow.{
  do_release_strong_may_throw, do_release_weak_may_throw, throw_after, last_strong,
  release_may_throw_lem,
}

-- An allocator with a single block.
abbrev one_block : (ℕ → Block ℕ) → Option ℕ
one_block h = elim (h 3) [ unallocated ↦ some 3 | allocated c ↦ none ]

one_block-IsAllocator : IsAllocator one_block
one_block-IsAllocator h a e = at (h 3) refl e
  where
    at :
        (b : Block ℕ)
        → h 3 ≡ b
        → elim b [ unallocated ↦ some 3 | allocated c ↦ none ] ≡ some a
        → h a ≡ unallocated
    at unallocated eb e = ground arith
    at (allocated c) eb e = absurd (ground arith)

-- Two strong and two weak variables: an object is created, and a weak pointer taken to it.
abbrev state : Outcome (Memory ℕ) → Memory ℕ
state (done m) = m
state (threw m) = m
state _ = initial

abbrev created : Memory ℕ
created = state (exec one_block (strong_create 0 (some 42)) initial)

abbrev observed : Memory ℕ
observed = state (exec one_block (weak_observe 0 0) created)

abbrev lost : Memory ℕ
lost = state (exec one_block (strong_reset 0) observed)

Reach-created : Reach one_block 2 2 created
unfolding Strong.create ℕ_discrete
Reach-created = later start (returned (strong_create 0 (some 42)) (omega arith, refl) tt refl)

Reach-observed : Reach one_block 2 2 observed
unfolding Strong.create Weak.observe add_ref_weak_no_throw ℕ_discrete
Reach-observed =
    later Reach-created (returned (weak_observe 0 0) (omega arith, omega arith, refl) tt refl)

Reach-lost : Reach one_block 2 2 lost
unfolding Strong.create Weak.observe Strong.reset add_ref_weak_no_throw do_release_strong ℕ_discrete
Reach-lost = later Reach-observed (returned (strong_reset 0) (omega arith) tt refl)

operations_safe_example : Ends (Inv 2 2) (Inv 2 2) (exec one_block (strong_assign 1 0) observed)
operations_safe_example =
    operations_safe one_block one_block-IsAllocator (omega arith) Reach-observed (strong_assign 1 0)
      (omega arith, omega arith) tt

object_lives_example : (v : ℕ) × (Strong.get 0 observed ≡ some v)
unfolding Strong.create Weak.observe add_ref_weak_no_throw ℕ_discrete
object_lives_example =
    object_lives one_block one_block-IsAllocator (omega arith) Reach-observed 0 3 (omega arith) refl

objects_die_example :
    Ends (λ m'. Inv 2 2 m' × ((a : ℕ) → IsDead (m'.block a))) (λ _. ⊥) (destroy_strong 2 observed)
objects_die_example = objects_die one_block one_block-IsAllocator (omega arith) Reach-observed

nothing_left_example :
    Ends
      (λ m'. (a : ℕ) → IsFree (m'.block a))
      (λ _. ⊥)
      (destroy_strong 2 observed >>= destroy_weak 2)
nothing_left_example = nothing_left one_block one_block-IsAllocator (omega arith) Reach-observed

lock_outcomes_example :
    ((count 2 lost.strong 3 ≡ 0)
      × (Strong.lock 1 0 lost ≡ threw lost)
      × (Strong.lock_leave_empty 1 0 lost ≡ done lost)
      × (Strong.lock_move 1 0 lost ≡ terminated)
      × (Weak.expired 0 lost ≡ done false))
    ⊎ ((0 < count 2 lost.strong 3)
        × Ends (λ m'. Inv 2 2 m' × (m'.strong 1 ≡ some 3)) (λ _. ⊥) (Strong.lock 1 0 lost)
        × Ends
            (λ m'. Inv 2 2 m' × (m'.strong 1 ≡ some 3))
            (λ _. ⊥)
            (Strong.lock_leave_empty 1 0 lost)
        × Ends (λ m'. Inv 2 2 m' × (m'.strong 1 ≡ some 3)) (λ _. ⊥) (Strong.lock_move 1 0 lost))
unfolding Strong.create Weak.observe Strong.reset add_ref_weak_no_throw do_release_strong ℕ_discrete
lock_outcomes_example =
    lock_outcomes one_block one_block-IsAllocator (omega arith) Reach-lost 1 0 3 (omega arith)
      (omega arith) refl refl

self_assign_resets_example :
    Ends (λ m'. Inv 2 2 m' × (m'.strong 0 ≡ none)) (λ _. ⊥) (Strong.assign 0 0 created)
self_assign_resets_example =
    self_assign_resets one_block one_block-IsAllocator (omega arith) Reach-created 0 (omega arith)

observe_move_leaks_example :
    (m' : Memory ℕ) × (Weak.assign_observe_move 1 0 created ≡ done m')
    × (ref_obj_of (m'.block 3) ≡ count 2 m'.strong 3 + 1)
    × (m'.strong 0 ≡ none)
    × (m'.weak 1 ≡ some 3)
unfolding Strong.create ℕ_discrete
observe_move_leaks_example =
    observe_move_leaks one_block one_block-IsAllocator (omega arith) Reach-created 1 0 3
      (omega arith) (omega arith) refl refl

release_may_throw_lem_example :
    (do_release_strong_may_throw true false true false 3 created
      ≡ throw_after
          (last_strong 3 created && true && true && not false)
          (do_release_strong 3 created))
    × (do_release_weak_may_throw false true false 3 created ≡ do_release_weak 3 created)
release_may_throw_lem_example = release_may_throw_lem true true false 3 created

-- After the self-assignment of the last pointer the object is gone, and so is its memory.
self_assign_frees :
    (m : Memory ℕ) × (Strong.assign 0 0 created ≡ done m) × (m.block 3 ≡ unallocated)
unfolding Strong.create Strong.assign Strong.reset assert_valid do_release_strong ℕ_discrete
self_assign_frees = (_, refl, refl)

-- With a leaked reference the object is still alive when no strong pointer is left, and its memory
-- is given back without a run of its destructor.
leaked :
    (m m' : Memory ℕ) × ((Weak.assign_observe_move 1 0 created >>= destroy_strong 2) ≡ done m)
    × (Strong.object_at (m.block 3) ≡ some 42)
    × (destroy_weak 2 m ≡ done m')
    × (m'.block 3 ≡ unallocated)
unfolding Strong.create Weak.assign_observe_move Weak.reset assert_valid destroy_strong destroy_weak
    Strong.destroy Weak.destroy do_release_weak ℕ_discrete
leaked = (_, _, refl, refl, refl, refl)
