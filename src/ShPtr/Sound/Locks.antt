-- ===== src/ShPtr/Sound/Locks.antt =====
-- Strong pointers from weak ones (src/_shwkptr.h), where the object may be gone.
use bienutil.Base.{ℕ, ◌+◌, ◌<◌, ◌≡◌, refl, ◌⊎◌, inl, inr, none, some, arith}
use bienutil.ShPtr.Outcome.{
  Outcome, done, threw, ◌>>=◌, Ends, returns, throws, Ends-bind, Ends-map, no_throw-Ends,
}
use bienutil.ShPtr.Container.{
  Block, Memory, set_block, set_strong, set_weak, update, add_ref_weak_no_throw, ref_limit,
  add_ref_strong_only, f_add_ref_strong_only_no_throw,
}
use bienutil.ShPtr.Strong.{if_some}
use bienutil.ShPtr.Strong
use bienutil.ShPtr.Program.{IsKept}
use bienutil.ShPtr.Counts.Pointers.{count}
use bienutil.ShPtr.Counts.Balance.{AllBalanced}
use bienutil.ShPtr.Family.{update-same}
use bienutil.ShPtr.Counts.Moves.{IsShift, f_add_ref_strong_only-Settles, add_ref_weak-Settles}
use bienutil.ShPtr.Sound.Inv.{Inv, room, held_strong, count-IsShift, if_some-Ends, Settles-Ends}
use bienutil.ShPtr.Sound.Resets.{assert_strong-done, assert_weak-done, Strong-reset-Ends}
use bienutil.ShPtr.Sound.Adopts.{set-IsShift}

module _ {ℓ} {T : Type ℓ} {n k : ℕ} (m : Memory T) (inv : Inv n k m) where
  open inv use {few, balanced}

  module _ (i j a : ℕ) (hi : i < n) (hj : j < k) (fresh : m.strong i ≡ none)
      (e : m.weak j ≡ some a) where
    -- The strong reference that is taken stands for the weak pointer `j`.
    abbrev pub strong' : ℕ → ℕ
    strong' = count n (update m.strong i (some a))

    abbrev pub weak' : ℕ → ℕ
    weak' = count k (update m.weak j none)

    gained : IsShift (count n m.strong) strong' none (some a)
    gained = set-IsShift n m.strong i (some a) (some a) hi fresh refl

    given : IsShift (count k m.weak) weak' (some a) none
    given = count-IsShift k m.weak j (some a) none hj e

    pub take-Settles :
        (success failure : Memory T → Outcome (Memory T))
        → ((count n m.strong a ≡ 0)
            × (f_add_ref_strong_only_no_throw a success failure m ≡ failure m))
          ⊎ ((0 < count n m.strong a)
              × (b : Block T) × (f_add_ref_strong_only_no_throw a success failure m
                  ≡ success (set_block a b m))
              × AllBalanced (update m.block a b) strong' weak')
    take-Settles success failure =
        f_add_ref_strong_only-Settles (count n m.strong) (count k m.weak) strong' weak' a m success
          failure balanced gained given (room inv a)

    -- ... until the weak count is raised too.
    pub raise-Ends :
        {E : Memory T → Type 0} (b : Block T)
        → AllBalanced (update m.block a b) strong' weak'
        → Ends
            (λ m'. Inv n k m' × (m'.strong i ≡ some a))
            E
            (add_ref_weak_no_throw a (set_block a b m) >>= λ m. done (set_strong i (some a) m))
    raise-Ends b all =
        Ends-bind
          {P = λ m'.
            (n + k + 1 < ref_limit)
            × AllBalanced m'.block (count n (update m'.strong i (some a))) (count k m'.weak)}
          (Settles-Ends a (set_block a b m) _ _ _
            (add_ref_weak-Settles strong' weak' (count k m.weak) a (set_block a b m) all
              (λ c. omega (arith, given c)) (ground (arith, gained a))
              (ground (arith, gained a, given a, room inv a)))
            (λ c more. (few, more)))
          (λ m' h. returns (record { few = h.0; balanced = h.1 }, update-same m'.strong i (some a)))

    pub taken-Inv :
        (b : Block T)
        → AllBalanced (update m.block a b) strong' weak'
        → Inv n k (set_weak j none (set_strong i (some a) (set_block a b m)))
    taken-Inv b all = record { few = few; balanced = all }

  module _ (i j : ℕ) (hi : i < n) (hj : j < k) (fresh : m.strong i ≡ none) where
    pub lock-Ends : Ends (Inv n k) (Inv n k) (Strong.lock i j m)
    unfolding Strong.lock
    lock-Ends =
        if_some-Ends (m.weak j) _ m (λ _. inv)
          (λ a e. elim (take-Settles i j a hi hj fresh e done threw) [
            | inl (gone, ends) ↦ rw ends (throws inv)
            | inr (held, b, ends, all) ↦
                rw ends (Ends-map (raise-Ends i j a hi hj fresh e b all) (λ m' h. h.0))
          ])

    pub lock_leave_empty-Ends : Ends (Inv n k) (Inv n k) (Strong.lock_leave_empty i j m)
    unfolding Strong.lock_leave_empty
    lock_leave_empty-Ends =
        if_some-Ends (m.weak j) _ m (λ _. inv)
          (λ a e.
            elim (take-Settles i j a hi hj fresh e
              (λ m. add_ref_weak_no_throw a m >>= λ m. done (set_strong i (some a) m)) done) [
                | inl (gone, ends) ↦ rw ends (returns inv)
                | inr (held, b, ends, all) ↦
                    rw ends (Ends-map (raise-Ends i j a hi hj fresh e b all) (λ m' h. h.0))
              ])

    -- What `assign_lock_move` does after its reset, and `lock_move` under `noexcept`.
    pub take-Ends : Ends (Inv n k) (Inv n k) (
        if_some
          (m.weak j)
          (λ a m. add_ref_strong_only a m >>= λ m. done (set_weak j none (set_strong i (some a) m)))
          m)
    take-Ends =
        if_some-Ends (m.weak j) _ m (λ _. inv)
          (λ a e. elim (take-Settles i j a hi hj fresh e done threw) [
            | inl (gone, ends) ↦ rw ends (throws inv)
            | inr (held, b, ends, all) ↦ rw ends (returns (taken-Inv i j a hi hj fresh e b all))
          ])

  -- No exception reaches the `noexcept` of `lock_move` while another pointer keeps the object.
  pub lock_move-Ends :
      (i j : ℕ) (hi : i < n) (hj : j < k) (fresh : m.strong i ≡ none)
      → IsKept n j m
      → Ends (Inv n k) (Inv n k) (Strong.lock_move i j m)
  unfolding Strong.lock_move
  lock_move-Ends i j hi hj fresh kept = no_throw-Ends (
      if_some-Ends (m.weak j) _ m (λ _. inv)
        (λ a e. elim (take-Settles i j a hi hj fresh e done threw) [
          | inl (gone, ends) ↦
              let (l, hl, el) = kept a e in absurd (omega (arith, held_strong inv l a hl el))
          | inr (held, b, ends, all) ↦ rw ends (returns (taken-Inv i j a hi hj fresh e b all))
        ]))

module _ {ℓ} {T : Type ℓ} {n k : ℕ} (m : Memory T) (inv : Inv n k m) (i j : ℕ) (hi : i < n)
    (hj : j < k) where
  pub assign_lock-Ends : Ends (Inv n k) (Inv n k) (Strong.assign_lock i j m)
  unfolding Strong.assign_lock
  assign_lock-Ends =
      rw (assert_strong-done m inv i hi, assert_weak-done m inv j hj)
        (Ends-bind (Strong-reset-Ends m inv i hi)
          (λ m' (inv', fresh). lock-Ends m' inv' i j hi hj fresh))

  pub assign_lock_move-Ends : Ends (Inv n k) (Inv n k) (Strong.assign_lock_move i j m)
  unfolding Strong.assign_lock_move
  assign_lock_move-Ends =
      rw (assert_strong-done m inv i hi, assert_weak-done m inv j hj)
        (Ends-bind (Strong-reset-Ends m inv i hi)
          (λ m' (inv', fresh). take-Ends m' inv' i j hi hj fresh))
