-- ===== src/ShPtr/Sound/Copies.antt =====
-- Copying, moving and assigning the pointers of src/_shwkptr.h.
use bienutil.Base.{ℕ, ◌<◌, ◌≡◌, refl, none, some, arith}
use bienutil.ShPtr.Outcome.{Ends, Ends-bind}
use bienutil.ShPtr.Container.{Memory, add_ref_weak_no_throw, add_ref_strong_no_throw}
use bienutil.ShPtr.Strong
use bienutil.ShPtr.Weak
use bienutil.ShPtr.Sound.Inv.{Inv, held_strong, held_weak, if_some-Ends}
use bienutil.ShPtr.Sound.Resets.{
  assert_strong-done, assert_weak-done, Strong-reset-Ends, Weak-reset-Ends,
}
use bienutil.ShPtr.Sound.Adopts.{Inv-set_strong, Inv-set_weak, adopt_strong, adopt_weak}

module _ {ℓ} {T : Type ℓ} {n k : ℕ} {E : Memory T → Type 0} (m : Memory T) (inv : Inv n k m) where
  pub Strong-copy-Ends :
      (i j : ℕ) → i < n → j < n → m.strong i ≡ none → Ends (Inv n k) E (Strong.copy i j m)
  unfolding Strong.copy
  Strong-copy-Ends i j hi hj fresh =
      if_some-Ends (m.strong j) add_ref_strong_no_throw _
        (λ e. Inv-set_strong inv i (m.strong j) hi fresh e)
        (λ a e. adopt_strong inv i (m.strong j) a e hi fresh (held_strong inv j a hj e))

  pub Weak-copy-Ends :
      (i j : ℕ) → i < k → j < k → m.weak i ≡ none → Ends (Inv n k) E (Weak.copy i j m)
  unfolding Weak.copy
  Weak-copy-Ends i j hi hj fresh =
      if_some-Ends (m.weak j) add_ref_weak_no_throw _
        (λ e. Inv-set_weak inv i (m.weak j) hi fresh e)
        (λ a e. adopt_weak inv i (m.weak j) a e hi fresh (omega (arith, held_weak inv j a hj e)))

  pub Weak-observe-Ends :
      (i j : ℕ) → i < k → j < n → m.weak i ≡ none → Ends (Inv n k) E (Weak.observe i j m)
  unfolding Weak.observe
  Weak-observe-Ends i j hi hj fresh =
      if_some-Ends (m.strong j) add_ref_weak_no_throw _
        (λ e. Inv-set_weak inv i (m.strong j) hi fresh e)
        (λ a e.
          adopt_weak inv i (m.strong j) a e hi fresh (omega (arith, held_strong inv j a hj e)))

module _ {ℓ} {T : Type ℓ} {n k : ℕ} {E : Memory T → Type 0} (m : Memory T) (inv : Inv n k m) where
  pub Strong-assign-Ends : (i j : ℕ) → i < n → j < n → Ends (Inv n k) E (Strong.assign i j m)
  unfolding Strong.assign
  Strong-assign-Ends i j hi hj =
      rw (assert_strong-done m inv i hi, assert_strong-done m inv j hj)
        (Ends-bind (Strong-reset-Ends m inv i hi) (λ m' (inv', fresh).
          if_some-Ends (m'.strong j) _ m' (λ _. inv')
            (λ a e. adopt_strong inv' i (some a) a refl hi fresh (held_strong inv' j a hj e))))

  pub Weak-assign-Ends : (i j : ℕ) → i < k → j < k → Ends (Inv n k) E (Weak.assign i j m)
  unfolding Weak.assign
  Weak-assign-Ends i j hi hj =
      rw (assert_weak-done m inv i hi, assert_weak-done m inv j hj)
        (Ends-bind (Weak-reset-Ends m inv i hi) (λ m' (inv', (fresh, _)).
          if_some-Ends (m'.weak j) _ m' (λ _. inv')
            (λ a e.
              adopt_weak inv' i (some a) a refl hi fresh (omega (arith, held_weak inv' j a hj e)))))

  pub Weak-assign_observe-Ends :
      (i j : ℕ) → i < k → j < n → Ends (Inv n k) E (Weak.assign_observe i j m)
  unfolding Weak.assign_observe
  Weak-assign_observe-Ends i j hi hj =
      rw (assert_weak-done m inv i hi, assert_strong-done m inv j hj)
        (Ends-bind (Weak-reset-Ends m inv i hi) (λ m' (inv', (fresh, _)).
          if_some-Ends (m'.strong j) _ m' (λ _. inv')
            (λ a e.
              adopt_weak inv' i (some a) a refl hi fresh
                (omega (arith, held_strong inv' j a hj e)))))
