-- ===== src/ShPtr/Counts/Balance.antt =====
-- The counts of a container of src/_shwkptr.h agree with the pointers that refer to it.
use native.Mathlib.Decide.{ℕ_discrete}
use mathlib.Core.Path.{subst}
use bienutil.Base.{ℕ, ◌+◌, ◌<◌, ◌≡◌, ◌≢◌, refl, sym}
use bienutil.ShPtr.Family.{update-same, update-other}
use bienutil.ShPtr.Container.{
  Object, absent, alive, destroyed, Block, unallocated, allocated, update,
}

module _ {ℓ} {T : Type ℓ} where
  -- An object stands in a container as long as a strong pointer refers to it.
  abbrev pub IsHeld : Object T → ℕ → Type 0
  IsHeld (alive v) s = 0 < s
  IsHeld absent s = s ≡ 0
  IsHeld destroyed s = s ≡ 0

  -- With `s` strong and `w` weak pointers to a block.
  abbrev pub IsBalanced : Block T → ℕ → ℕ → Type 0
  IsBalanced unallocated s w = s + w ≡ 0
  IsBalanced (allocated c) s w =
      (c.ref_obj ≡ s) × (c.ref_weak ≡ s + w) × (0 < s + w) × IsHeld c.object s

  abbrev pub AllBalanced : (ℕ → Block T) → (ℕ → ℕ) → (ℕ → ℕ) → Type 0
  AllBalanced h s w = (a : ℕ) → IsBalanced (h a) (s a) (w a)

  pub IsBalanced-at :
      {b b' : Block T} (s w s' w' : ℕ)
      → b ≡ b'
      → s ≡ s'
      → w ≡ w'
      → IsBalanced b s w
      → IsBalanced b' s' w'
  IsBalanced-at {b'} s w s' w' e es ew h =
      subst (λ s. IsBalanced b' s w') es
        (subst (λ w. IsBalanced b' s w) ew (subst (λ b. IsBalanced b s w) e h))

module _ {ℓ} {T : Type ℓ} where
  -- Writing the block at `a` changes the counts at `a` only.
  pub AllBalanced-update :
      (h : ℕ → Block T) (s w s' w' : ℕ → ℕ) (a : ℕ) (b : Block T)
      → AllBalanced h s w
      → IsBalanced b (s' a) (w' a)
      → ((c : ℕ) → a ≢ c → (s' c ≡ s c) × (w' c ≡ w c))
      → AllBalanced (update h a b) s' w'
  AllBalanced-update h s w s' w' a b all here others c = elim (ℕ_discrete a c) [
    | yes e ↦
        subst (λ c. IsBalanced (update h a b c) (s' c) (w' c)) e
          (IsBalanced-at (s' a) (w' a) _ _ (sym (update-same h a b)) refl refl here)
    | no ne ↦
        let (es, ew) = others c ne in
        IsBalanced-at (s c) (w c) _ _ (sym (update-other h a b c ne)) (sym es) (sym ew) (all c)
  ]
