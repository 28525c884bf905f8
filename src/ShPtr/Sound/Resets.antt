-- ===== src/ShPtr/Sound/Resets.antt =====
-- `reset` and the destructors of src/_shwkptr.h, and the checks of `AssertValid`.
use bienutil.Base.{ℕ, ◌+◌, ◌<◌, ◌≡◌, refl, ap, none, some, true, false, arith}
use bienutil.ShPtr.Outcome.{done, Ends, returns, Ends-bind}
use bienutil.ShPtr.Container.{
  Memory, set_strong, set_weak, update, ref_limit, assert_valid, do_release_strong, do_release_weak,
}
use bienutil.ShPtr.Strong.{if_some, assert_strong, assert_weak}
use bienutil.ShPtr.Strong
use bienutil.ShPtr.Weak
use bienutil.ShPtr.Counts.Pointers.{count}
use bienutil.ShPtr.Counts.Balance.{AllBalanced}
use bienutil.ShPtr.Family.{update-same}
use bienutil.ShPtr.Counts.Local.{assert_valid-done}
use bienutil.ShPtr.Counts.Moves.{unshifted, do_release_strong-Settles, do_release_weak-Settles}
use bienutil.ShPtr.Sound.Inv.{
  Inv, held_strong, held_weak, count-IsShift, AllBalanced-shift_none, if_some-Ends, Settles-Ends,
  if_some-done,
}

module _ {ℓ} {T : Type ℓ} {n k : ℕ} where
  module _ (m : Memory T) (inv : Inv n k m) (i : ℕ) where
    pub assert_strong-done : i < n → assert_strong i m ≡ done m
    assert_strong-done h = if_some-done (m.strong i) (assert_valid true) m (λ a e.
        assert_valid-done a m true _ _ (inv.balanced a) (omega (arith, held_strong inv i a h e))
          (λ _. held_strong inv i a h e))

    pub assert_weak-done : i < k → assert_weak i m ≡ done m
    assert_weak-done h = if_some-done (m.weak i) (assert_valid false) m (λ a e.
        assert_valid-done a m false _ _ (inv.balanced a) (omega (arith, held_weak inv i a h e))
          (λ e. absurd (ground arith)))

  module _ {E : Memory T → Type 0} (m : Memory T) (inv : Inv n k m) (i : ℕ) where
    pub Strong-reset-Ends :
        i < n → Ends (λ m'. Inv n k m' × (m'.strong i ≡ none)) E (Strong.reset i m)
    unfolding Strong.reset
    Strong-reset-Ends h =
        if_some-Ends (m.strong i) _ m (λ e. (inv, e))
          (λ a e.
            Settles-Ends a (set_strong i none m) _ _ _
              (do_release_strong-Settles (count n m.strong) (count k m.weak) _ a
                (set_strong i none m) inv.balanced (count-IsShift n m.strong i (some a) none h e))
              (λ b all. (record { few = inv.few; balanced = all }, update-same m.strong i none)))

    pub Strong-destroy-Ends :
        i < n
        → Ends
            (λ m'. Inv n k m' × ((m'.strong ≡ update m.strong i none) × (m'.weak ≡ m.weak)))
            E
            (Strong.destroy i m)
    unfolding Strong.destroy
    Strong-destroy-Ends h =
        Ends-bind
          {P = λ m'.
            (n + k + 1 < ref_limit)
            × (m'.strong ≡ m.strong)
            × (m'.weak ≡ m.weak)
            × AllBalanced m'.block (count n (update m'.strong i none)) (count k m'.weak)}
          (if_some-Ends (m.strong i) do_release_strong m
            (λ e. (
              inv.few,
              refl,
              refl,
              AllBalanced-shift_none m (count n m.strong) (count k m.weak) _ _
                  (count-IsShift n m.strong i none none h e) (unshifted (count k m.weak))
                  inv.balanced,
            ))
            (λ a e.
              Settles-Ends a m _ _ _
                (do_release_strong-Settles (count n m.strong) (count k m.weak) _ a m inv.balanced
                  (count-IsShift n m.strong i (some a) none h e))
                (λ b all. (inv.few, refl, refl, all))))
          (λ m' h.
            returns (record { few = h.0; balanced = h.3 }, (ap (λ p. update p i none) h.1, h.2)))

  module _ {E : Memory T → Type 0} (m : Memory T) (inv : Inv n k m) (i : ℕ) where
    pub Weak-reset-Ends :
        i < k
        → Ends (λ m'. Inv n k m' × ((m'.weak i ≡ none) × (m'.strong ≡ m.strong))) E (Weak.reset i m)
    unfolding Weak.reset
    Weak-reset-Ends h =
        if_some-Ends (m.weak i) _ m (λ e. (inv, (e, refl)))
          (λ a e.
            Settles-Ends a (set_weak i none m) _ _ _
              (do_release_weak-Settles (count n m.strong) (count k m.weak) _ a (set_weak i none m)
                inv.balanced (count-IsShift k m.weak i (some a) none h e))
              (λ b all.
                (record { few = inv.few; balanced = all }, (update-same m.weak i none, refl))))

    pub Weak-destroy-Ends :
        i < k
        → Ends
            (λ m'. Inv n k m' × ((m'.weak ≡ update m.weak i none) × (m'.strong ≡ m.strong)))
            E
            (Weak.destroy i m)
    unfolding Weak.destroy
    Weak-destroy-Ends h =
        Ends-bind
          {P = λ m'.
            (n + k + 1 < ref_limit)
            × (m'.weak ≡ m.weak)
            × (m'.strong ≡ m.strong)
            × AllBalanced m'.block (count n m'.strong) (count k (update m'.weak i none))}
          (if_some-Ends (m.weak i) do_release_weak m
            (λ e. (
              inv.few,
              refl,
              refl,
              AllBalanced-shift_none m (count n m.strong) (count k m.weak) _ _
                  (unshifted (count n m.strong)) (count-IsShift k m.weak i none none h e)
                  inv.balanced,
            ))
            (λ a e.
              Settles-Ends a m _ _ _
                (do_release_weak-Settles (count n m.strong) (count k m.weak) _ a m inv.balanced
                  (count-IsShift k m.weak i (some a) none h e))
                (λ b all. (inv.few, refl, refl, all))))
          (λ m' h.
            returns (record { few = h.0; balanced = h.3 }, (ap (λ p. update p i none) h.1, h.2)))
