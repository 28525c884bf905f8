-- ===== src/ShPtr/MayThrow.antt =====
-- `_DoReleaseStrong` and `_DoReleaseWeak` of src/_shwkptr.h where the destructor of the object or
-- the allocator may throw. The flavours differ in which of the two can.
use bienutil.Base.{
  ℕ, Bool, true, false, not, ◌&&◌, ◌||◌, none, some, ◌==◌, if◌then◌else◌, ◌≡◌, refl, arith,
}
use bienutil.ShPtr.Outcome.{Outcome, done, threw, asserted, undefined}
use bienutil.ShPtr.Container.{
  Container, Block, unallocated, allocated, Memory, set_block, decrement, is_valid, destroy_last,
  on_container, drop_weak, do_release_strong, do_release_weak,
}

module _ {ℓ} {T : Type ℓ} where
  -- `std::rethrow_exception`, when there is one
  abbrev rethrow : Bool → Memory T → Outcome (Memory T)
  rethrow eptr m = if eptr then threw m else done m

  -- `dealloc_throws`: the move of the allocator throws, and the memory is not given back.
  -- `eptr`: an exception is to be rethrown.
  abbrev drop_weak_may_throw :
      (dealloc_throws may_rethrow eptr : Bool) → ℕ → Memory T → Container T → Outcome (Memory T)
  drop_weak_may_throw dealloc_throws may_rethrow eptr a m c =
      let d = record c { ref_weak = decrement c.ref_weak } in
      if d.ref_weak == 0
      then if dealloc_throws
        then rethrow (eptr || may_rethrow) (set_block a (allocated d) m)
        else rethrow eptr (set_block a unallocated m)
      else rethrow eptr (set_block a (allocated d) m)

  -- `s_kfReleaseAllowThrow`, and `fInUnwinding`: whether an exception is already under way
  unfoldable pub do_release_strong_may_throw :
      (dtor_throws dealloc_throws allow_throw in_unwinding : Bool)
      → ℕ
      → Memory T
      → Outcome (Memory T)
  do_release_strong_may_throw dtor_throws dealloc_throws allow_throw in_unwinding a m =
      on_container a
        (λ c.
          if is_valid true c
          then elim (destroy_last (record c { ref_obj = decrement c.ref_obj })) [
            | none ↦ undefined
            | some d ↦
                drop_weak_may_throw dealloc_throws (allow_throw && not in_unwinding)
                  (d.ref_obj == 0 && dtor_throws && allow_throw && not in_unwinding) a m d
          ]
          else asserted)
        m

  unfoldable pub do_release_weak_may_throw :
      (dealloc_throws allow_throw in_unwinding : Bool) → ℕ → Memory T → Outcome (Memory T)
  do_release_weak_may_throw dealloc_throws allow_throw in_unwinding a m =
      on_container a
        (λ c.
          if is_valid false c
          then drop_weak_may_throw dealloc_throws (allow_throw && not in_unwinding) false a m c
          else asserted)
        m

  -- The operation, with an exception at its end.
  abbrev pub throw_after : Bool → Outcome (Memory T) → Outcome (Memory T)
  throw_after true (done m) = threw m
  throw_after b o = o

  abbrev pub last_strong : ℕ → Memory T → Bool
  last_strong a m = elim (m.block a) [
    | unallocated ↦ false
    | allocated c ↦ decrement c.ref_obj == 0
  ]

  drop_weak_lem :
      (may_rethrow eptr : Bool) (a : ℕ) (m : Memory T) (c : Container T)
      → drop_weak_may_throw false may_rethrow eptr a m c ≡ throw_after eptr (drop_weak a m c)
  drop_weak_lem may_rethrow eptr a m c = ground arith

  release_may_throw_at :
      (dtor_throws allow_throw in_unwinding : Bool) (a : ℕ) (m : Memory T) (b : Block T)
      → m.block a ≡ b
      → do_release_strong_may_throw dtor_throws false allow_throw in_unwinding a m
        ≡ throw_after
            (last_strong a m && dtor_throws && allow_throw && not in_unwinding)
            (do_release_strong a m)
  unfolding do_release_strong_may_throw do_release_strong
  release_may_throw_at dtor_throws allow_throw in_unwinding a m unallocated e = ground arith
  release_may_throw_at dtor_throws allow_throw in_unwinding a m (allocated c) e = ground arith

  release_weak_may_throw_at :
      (allow_throw in_unwinding : Bool) (a : ℕ) (m : Memory T) (b : Block T)
      → m.block a ≡ b
      → do_release_weak_may_throw false allow_throw in_unwinding a m ≡ do_release_weak a m
  unfolding do_release_weak_may_throw do_release_weak
  release_weak_may_throw_at allow_throw in_unwinding a m unallocated e = ground arith
  release_weak_may_throw_at allow_throw in_unwinding a m (allocated c) e = ground arith

  -- Where only the destructor of the object may throw, both releases do to the counts and to memory
  -- what the flavours do where nothing throws; the exception is rethrown at the end exactly when
  -- the last strong pointer is released, throwing is allowed and no other exception is under way.
  pub release_may_throw_lem :
      (dtor_throws allow_throw in_unwinding : Bool) (a : ℕ) (m : Memory T)
      → (do_release_strong_may_throw dtor_throws false allow_throw in_unwinding a m
          ≡ throw_after
              (last_strong a m && dtor_throws && allow_throw && not in_unwinding)
              (do_release_strong a m))
        × (do_release_weak_may_throw false allow_throw in_unwinding a m ≡ do_release_weak a m)
  release_may_throw_lem dtor_throws allow_throw in_unwinding a m = (
    release_may_throw_at dtor_throws allow_throw in_unwinding a m (m.block a) refl,
    release_weak_may_throw_at allow_throw in_unwinding a m (m.block a) refl,
  )
