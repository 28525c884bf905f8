-- ===== src/ShPtr/Counts/Moves.antt =====
-- The member functions of `_SharedWeakPtrContainer` (src/_shwkptr.h) in a balanced heap: a pointer
-- to the block is counted that was not, or the other way round.
use bienutil.Base.{ℕ, ◌+◌, ◌-◌, ◌<◌, ◌≡◌, ◌≢◌, refl, ◌⊎◌, inl, inr, Option, none, some, arith}
use mathlib.Core.Path.{subst}
use bienutil.ShPtr.Outcome.{Outcome, done}
use bienutil.ShPtr.Container.{
  Block, Memory, set_block, update, ref_limit, add_ref_weak_no_throw, add_ref_strong_no_throw,
  f_add_ref_strong_only_no_throw, do_release_weak, do_release_strong,
}
use bienutil.ShPtr.Family.{Exchange}
use bienutil.ShPtr.Counts.Pointers.{points}
use bienutil.ShPtr.Counts.Balance.{IsBalanced-at, AllBalanced, AllBalanced-update}
use bienutil.ShPtr.Counts.Local.{
  Leaves, do_release_strong-Leaves, do_release_weak-Leaves, add_ref_strong-Leaves,
  add_ref_weak-Leaves, f_add_ref_strong_only-cases,
}

-- The count `f'` has the pointer `new` where `f` has `old`.
abbrev pub IsShift : (f f' : ℕ → ℕ) → (old new : Option ℕ) → Type 0
IsShift f f' old new = (a : ℕ) → Exchange (points old a) (points new a) (f a) (f' a)

pub unshifted : (f : ℕ → ℕ) → IsShift f f none none
unshifted f a = omega arith

module _ {ℓ} {T : Type ℓ} where
  -- The function returns with one block written, and the counts are then `s` and `w`.
  abbrev pub Settles : ℕ → Memory T → Outcome (Memory T) → (ℕ → ℕ) → (ℕ → ℕ) → Type ℓ
  Settles a m o s w =
      (b : Block T) × (o ≡ done (set_block a b m)) × AllBalanced (update m.block a b) s w

  module _ (s w s' w' : ℕ → ℕ) (a : ℕ) (m : Memory T) (all : AllBalanced m.block s w) where
    Settles-Leaves :
        (o : Outcome (Memory T))
        → Leaves a m o (s' a) (w' a)
        → ((c : ℕ) → a ≢ c → (s' c ≡ s c) × (w' c ≡ w c))
        → Settles a m o s' w'
    Settles-Leaves o (b, ends, here) others =
        (b, ends, AllBalanced-update m.block s w s' w' a b all here others)

  module _ (s w s' : ℕ → ℕ) (a : ℕ) (m : Memory T) (all : AllBalanced m.block s w) where
    pub do_release_strong-Settles :
        IsShift s s' (some a) none → Settles a m (do_release_strong a m) s' w
    do_release_strong-Settles shift =
        Settles-Leaves s w s' w a m all _
          (do_release_strong-Leaves a m (s' a) (w a)
            (IsBalanced-at (s a) (w a) _ _ refl (ground (arith, shift a)) refl (all a)))
          (λ c ne. (ground (arith, shift c), refl))

    pub add_ref_strong-Settles :
        IsShift s s' none (some a)
        → 0 < s a
        → s a + w a + 1 < ref_limit
        → Settles a m (add_ref_strong_no_throw a m) s' w
    add_ref_strong-Settles shift held room =
        Settles-Leaves s w s' w a m all _
          (subst (λ n. Leaves a m (add_ref_strong_no_throw a m) n (w a)) (ground (arith, shift a))
            (add_ref_strong-Leaves a m (s a - 1) (w a)
              (IsBalanced-at (s a) (w a) _ _ refl (omega arith) refl (all a)) (omega arith)))
          (λ c ne. (ground (arith, shift c), refl))

  module _ (s w w' : ℕ → ℕ) (a : ℕ) (m : Memory T) (all : AllBalanced m.block s w) where
    pub do_release_weak-Settles :
        IsShift w w' (some a) none → Settles a m (do_release_weak a m) s w'
    do_release_weak-Settles shift =
        Settles-Leaves s w s w' a m all _
          (do_release_weak-Leaves a m (s a) (w' a)
            (IsBalanced-at (s a) (w a) _ _ refl refl (ground (arith, shift a)) (all a)))
          (λ c ne. (refl, ground (arith, shift c)))

    pub add_ref_weak-Settles :
        IsShift w w' none (some a)
        → 0 < s a + w a
        → s a + w a + 1 < ref_limit
        → Settles a m (add_ref_weak_no_throw a m) s w'
    add_ref_weak-Settles shift held room =
        Settles-Leaves s w s w' a m all _
          (subst (λ n. Leaves a m (add_ref_weak_no_throw a m) (s a) n) (ground (arith, shift a))
            (add_ref_weak-Leaves a m (s a) (w a) (all a) held room))
          (λ c ne. (refl, ground (arith, shift c)))

  -- From a weak pointer to a strong one.
  pub f_add_ref_strong_only-Settles :
      (s w s' w' : ℕ → ℕ) (a : ℕ) (m : Memory T) (success failure : Memory T → Outcome (Memory T))
      → AllBalanced m.block s w
      → IsShift s s' none (some a)
      → IsShift w w' (some a) none
      → s a + w a + 1 < ref_limit
      → ((s a ≡ 0) × (f_add_ref_strong_only_no_throw a success failure m ≡ failure m))
        ⊎ ((0 < s a)
            × (b : Block T) × (f_add_ref_strong_only_no_throw a success failure m
                ≡ success (set_block a b m))
            × AllBalanced (update m.block a b) s' w')
  f_add_ref_strong_only-Settles s w s' w' a m success failure all more less room =
      elim (f_add_ref_strong_only-cases a m success failure (s a) (w' a)
        (IsBalanced-at (s a) (w a) _ _ refl refl (ground (arith, less a)) (all a))
        (ground (arith, less a))) [
          | inl gone ↦ inl gone
          | inr (held, b, ends, here) ↦ inr (
            held,
            b,
            ends,
            AllBalanced-update m.block s w s' w' a b all
                (IsBalanced-at (s a + 1) (w' a) _ _ refl (ground (arith, more a)) refl here)
                (λ c ne. (ground (arith, more c), ground (arith, less c))),
          )
        ]
