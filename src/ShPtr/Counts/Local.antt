-- ===== src/ShPtr/Counts/Local.antt =====
-- Each member function of `_SharedWeakPtrContainer` (src/_shwkptr.h) on a balanced block.
use bienutil.Base.{ℕ, zero, suc, ◌+◌, ◌<◌, ◌≡◌, refl, ◌⊎◌, inl, inr, Bool, true, arith}
use bienutil.ShPtr.Outcome.{Outcome, done}
use bienutil.ShPtr.Container.{
  destroyed, Container, Block, unallocated, allocated, Memory, set_block, ref_limit, assert_valid,
  add_ref_weak_no_throw, add_ref_strong_no_throw, f_add_ref_strong_only_no_throw, do_release_weak,
  do_release_strong,
}
use bienutil.ShPtr.Counts.Balance.{IsBalanced, IsBalanced-at}

module _ {ℓ} {T : Type ℓ} where
  Block-cases : (b : Block T) → (b ≡ unallocated) ⊎ ((c : Container T) × (b ≡ allocated c))
  Block-cases unallocated = inl refl
  Block-cases (allocated c) = inr (c, refl)

  abbrev lower : Container T → ℕ → ℕ → Block T
  lower c zero zero = unallocated
  lower c zero (suc w) = allocated (record { object = destroyed; ref_obj = 0; ref_weak = suc w })
  lower c (suc s) w =
      allocated (record { object = c.object; ref_obj = suc s; ref_weak = suc s + w })

  lower-IsBalanced :
      (c : Container T) (s w : ℕ)
      → IsBalanced (allocated c) (suc s) w
      → IsBalanced (lower c s w) s w
  lower-IsBalanced c zero zero h = omega arith
  lower-IsBalanced c zero (suc w) h = (refl, omega arith, omega arith, refl)
  lower-IsBalanced c (suc s) w h = (refl, refl, omega arith, ground arith)

module _ {ℓ} {T : Type ℓ} (a : ℕ) (m : Memory T) where
  -- The function returns, and leaves a block with `s` strong and `w` weak pointers.
  abbrev pub Leaves : Outcome (Memory T) → ℕ → ℕ → Type ℓ
  Leaves o s w = (b : Block T) × (o ≡ done (set_block a b m)) × IsBalanced b s w

  release_strong-lower :
      (c : Container T) (s w : ℕ)
      → m.block a ≡ allocated c
      → IsBalanced (allocated c) (suc s) w
      → do_release_strong a m ≡ done (set_block a (lower c s w) m)
  unfolding do_release_strong
  release_strong-lower c zero zero e h = ground arith
  release_strong-lower c zero (suc w) e h = ground arith
  release_strong-lower c (suc s) w e h = ground arith

  pub do_release_strong-Leaves :
      (s w : ℕ) → IsBalanced (m.block a) (suc s) w → Leaves (do_release_strong a m) s w
  do_release_strong-Leaves s w h = elim (Block-cases (m.block a)) [
    | inl e ↦ absurd (ground arith)
    | inr (c, e) ↦ (
      lower c s w,
      release_strong-lower c s w e (IsBalanced-at (suc s) w _ _ e refl refl h),
      lower-IsBalanced c s w (IsBalanced-at (suc s) w _ _ e refl refl h),
    )
  ]

  -- The container with other counts.
  abbrev recount : Container T → (strong weak : ℕ) → Block T
  recount c s w = allocated (record { object = c.object; ref_obj = s; ref_weak = s + w })

  abbrev lower_weak : Container T → ℕ → ℕ → Block T
  lower_weak c zero zero = unallocated
  lower_weak c s w = recount c s w

  release_weak-lower_weak :
      (c : Container T) (s w : ℕ)
      → m.block a ≡ allocated c
      → IsBalanced (allocated c) s (suc w)
      → (do_release_weak a m ≡ done (set_block a (lower_weak c s w) m))
        × IsBalanced (lower_weak c s w) s w
  unfolding do_release_weak
  release_weak-lower_weak c zero zero e h = (ground arith, omega arith)
  release_weak-lower_weak c zero (suc w) e h =
      (ground arith, (refl, refl, omega arith, ground arith))
  release_weak-lower_weak c (suc s) w e h = (ground arith, (refl, refl, omega arith, ground arith))

  pub do_release_weak-Leaves :
      (s w : ℕ) → IsBalanced (m.block a) s (suc w) → Leaves (do_release_weak a m) s w
  do_release_weak-Leaves s w h = elim (Block-cases (m.block a)) [
    | inl e ↦ absurd (ground arith)
    | inr (c, e) ↦
        let (ends, good) =
          release_weak-lower_weak c s w e (IsBalanced-at s (suc w) _ _ e refl refl h) in
        (lower_weak c s w, ends, good)
  ]

  pub add_ref_strong-Leaves :
      (s w : ℕ)
      → IsBalanced (m.block a) (suc s) w
      → suc s + w + 1 < ref_limit
      → Leaves (add_ref_strong_no_throw a m) (suc s + 1) w
  unfolding add_ref_strong_no_throw
  add_ref_strong-Leaves s w h room = elim (Block-cases (m.block a)) [
    | inl e ↦ absurd (ground arith)
    | inr (c, e) ↦ (recount c (suc s + 1) w, ground arith, ground arith)
  ]

  pub add_ref_weak-Leaves :
      (s w : ℕ)
      → IsBalanced (m.block a) s w
      → 0 < s + w
      → s + w + 1 < ref_limit
      → Leaves (add_ref_weak_no_throw a m) s (w + 1)
  unfolding add_ref_weak_no_throw
  add_ref_weak-Leaves s w h held room = elim (Block-cases (m.block a)) [
    | inl e ↦ absurd (ground arith)
    | inr (c, e) ↦ (recount c s (w + 1), ground arith, ground arith)
  ]

  pub assert_valid-done :
      (strong : Bool) (s w : ℕ)
      → IsBalanced (m.block a) s w
      → 0 < s + w
      → (strong ≡ true → 0 < s)
      → assert_valid strong a m ≡ done m
  unfolding assert_valid
  assert_valid-done strong s w h held kept = elim (Block-cases (m.block a)) [
    | inl e ↦ absurd (ground arith)
    | inr (c, e) ↦ ground (arith, kept)
  ]

  -- A reference is taken over from a weak pointer to a strong one, unless the object is gone.
  pub f_add_ref_strong_only-cases :
      (success failure : Memory T → Outcome (Memory T)) (s w : ℕ)
      → IsBalanced (m.block a) s (suc w)
      → s + w + 1 < ref_limit
      → ((s ≡ 0) × (f_add_ref_strong_only_no_throw a success failure m ≡ failure m))
        ⊎ ((0 < s)
            × (b : Block T) × (f_add_ref_strong_only_no_throw a success failure m
                ≡ success (set_block a b m))
            × IsBalanced b (s + 1) w)
  unfolding f_add_ref_strong_only_no_throw
  f_add_ref_strong_only-cases success failure zero w h room = elim (Block-cases (m.block a)) [
    | inl e ↦ absurd (ground arith)
    | inr (c, e) ↦ inl (refl, ground arith)
  ]
  f_add_ref_strong_only-cases success failure (suc s) w h room = elim (Block-cases (m.block a)) [
    | inl e ↦ absurd (ground arith)
    | inr (c, e) ↦ inr (omega arith, recount c (suc s + 1) w, ground arith, ground arith)
  ]
