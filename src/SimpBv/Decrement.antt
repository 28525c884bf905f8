-- ===== src/SimpBv/Decrement.antt =====
-- `decrement` does not decrement.
use bienutil.Base.{ℕ, zero, suc, ◌≡◌, refl, arith, none, some, List, ◌∷◌}
use bienutil.SimpBv.{decrement}

-- On a vector that has words, `decrement` changes nothing where it ends, and never ends where the
-- first word is zero.
pub decrement_wrong :
    (fuel : ℕ) (x : ℕ) (xs r : List ℕ)
    → (decrement fuel (x ∷ xs) ≡ some r → r ≡ x ∷ xs) × (x ≡ 0 → decrement fuel (x ∷ xs) ≡ none)
unfolding decrement
decrement_wrong zero x xs r = (λ e. cc, λ e. refl)
decrement_wrong (suc fuel) x xs r =
    let ih = decrement_wrong fuel x xs r in
    (λ e. ground (arith, e, ih.0), λ e. ground (arith, e, ih.1 e))
