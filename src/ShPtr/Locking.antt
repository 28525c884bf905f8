-- ===== src/ShPtr/Locking.antt =====
-- A strong pointer from a weak one (src/_shwkptr.h): what each of the ways does.
use bienutil.Base.{ℕ, ◌+◌, ◌<◌, ◌≡◌, refl, ◌⊎◌, inl, inr, Option, none, some, false, ◌==◌, arith}
use bienutil.ShPtr.Outcome.{
  Outcome, done, undefined, threw, terminated, ◌>>=◌, no_throw, Ends, returns,
}
use bienutil.ShPtr.Container.{
  Block, unallocated, allocated, Memory, set_strong, set_weak, ref_limit, add_ref_weak_no_throw,
  f_add_ref_strong_only_no_throw,
}
use bienutil.ShPtr.Strong.{if_some}
use bienutil.ShPtr.Strong
use bienutil.ShPtr.Weak
use bienutil.ShPtr.Program.{Reach}
use bienutil.ShPtr.Counts.Pointers.{count}
use bienutil.ShPtr.Counts.Balance.{IsBalanced}
use bienutil.ShPtr.Family.{update-same}
use bienutil.ShPtr.Sound.Inv.{Inv, held_weak}
use bienutil.ShPtr.Sound.Locks.{take-Settles, raise-Ends, taken-Inv}
use bienutil.ShPtr.Sound.Creates.{IsAllocator}
use bienutil.ShPtr.Sound.Runs.{Reach-Inv}

positive_weak {ℓ} :
    {T : Type ℓ} (b : Block T) (s w : ℕ)
    → IsBalanced b s w
    → 0 < w
    → elim b [ unallocated ↦ undefined | allocated c ↦ done (c.ref_weak == 0) ] ≡ done false
positive_weak unallocated s w h held = absurd (omega arith)
positive_weak (allocated c) s w h held = ground arith

module _ {ℓ} {T : Type ℓ} {n k : ℕ} (alloc : (ℕ → Block T) → Option ℕ) (sound : IsAllocator alloc)
    (few : n + k + 1 < ref_limit) {m : Memory T} (reached : Reach alloc n k m) where
  inv : Inv n k m
  inv = Reach-Inv alloc sound few reached

  module _ (i j a : ℕ) (hi : i < n) (hj : j < k) (fresh : m.strong i ≡ none)
      (e : m.weak j ≡ some a) where
    -- The operation returns, and variable `i` refers to the block.
    abbrev pub Locks : Outcome (Memory T) → Type ℓ
    Locks o = Ends (λ m'. Inv n k m' × (m'.strong i ≡ some a)) (λ _. ⊥) o

    abbrev pub locked_and_raised : Memory T → Outcome (Memory T)
    locked_and_raised m = add_ref_weak_no_throw a m >>= λ m. done (set_strong i (some a) m)

    abbrev pub locked_and_moved : Memory T → Outcome (Memory T)
    locked_and_moved m = done (set_weak j none (set_strong i (some a) m))

    lock_eq : Strong.lock i j m ≡ (
        f_add_ref_strong_only_no_throw a done threw m >>= add_ref_weak_no_throw a >>= λ m.
        done (set_strong i (some a) m))
    unfolding Strong.lock
    lock_eq = rw e refl

    lock_leave_empty_eq :
        Strong.lock_leave_empty i j m ≡ f_add_ref_strong_only_no_throw a locked_and_raised done m
    unfolding Strong.lock_leave_empty
    lock_leave_empty_eq = rw e refl

    lock_move_eq :
        Strong.lock_move i j m
        ≡ no_throw (f_add_ref_strong_only_no_throw a done threw m >>= locked_and_moved)
    unfolding Strong.lock_move
    lock_move_eq = rw e refl

    left_empty : count n m.strong a ≡ 0 → Strong.lock_leave_empty i j m ≡ done m
    left_empty none_left = elim (take-Settles m inv i j a hi hj fresh e locked_and_raised done) [
      | inl (gone, ends) ↦ rw (lock_leave_empty_eq, ends) refl
      | inr (held, b, ends, all) ↦ absurd (omega arith)
    ]

    lock_leave_empty-Locks : 0 < count n m.strong a → Locks (Strong.lock_leave_empty i j m)
    lock_leave_empty-Locks kept =
        elim (take-Settles m inv i j a hi hj fresh e locked_and_raised done) [
          | inl (gone, ends) ↦ absurd (omega arith)
          | inr (held, b, ends, all) ↦
              rw (lock_leave_empty_eq, ends) (raise-Ends m inv i j a hi hj fresh e b all)
        ]

    not_expired : Weak.expired j m ≡ done false
    unfolding Weak.expired
    not_expired =
        rw (e, Weak.expired)
          (positive_weak (m.block a) (count n m.strong a) (count k m.weak a) (inv.balanced a)
            (held_weak inv j a hj e))

    -- A strong pointer from a weak one that is not null, in a state that a careful run reaches. Where no
    -- strong pointer is left, the constructor throws and changes nothing, that with
    -- `_SharedWeakPtr_weak_leave_empty` changes nothing, the one from an rvalue ends the program,
    -- and `expired` is nevertheless false. Otherwise all three return, keep the invariant and make
    -- the new pointer refer to the block.
    pub lock_outcomes :
        ((count n m.strong a ≡ 0)
          × (Strong.lock i j m ≡ threw m)
          × (Strong.lock_leave_empty i j m ≡ done m)
          × (Strong.lock_move i j m ≡ terminated)
          × (Weak.expired j m ≡ done false))
        ⊎ ((0 < count n m.strong a)
            × Locks (Strong.lock i j m)
            × Locks (Strong.lock_leave_empty i j m)
            × Locks (Strong.lock_move i j m))
    lock_outcomes = elim (take-Settles m inv i j a hi hj fresh e done threw) [
      | inl (gone, ends) ↦ inl (
        gone,
        rw (lock_eq, ends) refl,
        left_empty gone,
        rw (lock_move_eq, ends) refl,
        not_expired,
      )
      | inr (held, b, ends, all) ↦ inr (
        held,
        rw (lock_eq, ends) (raise-Ends m inv i j a hi hj fresh e b all),
        lock_leave_empty-Locks held,
        rw (lock_move_eq, ends)
            (returns (taken-Inv m inv i j a hi hj fresh e b all, update-same m.strong i (some a))),
      )
    ]
