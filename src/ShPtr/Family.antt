-- ===== src/ShPtr/Family.antt =====
-- Families indexed by a number: the pointer variables and the threads of src/_shwkptr.h.
use native.Mathlib.Decide.{dec_lt, ℕ_discrete}
use mathlib.Core.Path.{subst}
use bienutil.Base.{
  ℕ, zero, suc, ◌+◌, ◌<◌, ◌≤◌, ◌≡◌, ◌≢◌, refl, ◌⊎◌, inl, inr, ltb, if◌then◌else◌, arith,
}
use bienutil.ShPtr.Container.{update}

pub update-same {ℓ} : {A : Type ℓ} (f : ℕ → A) (i : ℕ) (v : A) → update f i v i ≡ v
update-same f i v = ground arith

pub update-other {ℓ} :
    {A : Type ℓ} (f : ℕ → A) (i : ℕ) (v : A) (j : ℕ) → i ≢ j → update f i v j ≡ f j
update-other f i v j h = ground arith

-- A sum in which one term goes from `old` to `new`.
abbrev pub Exchange : (old new before after : ℕ) → Type 0
Exchange old new before after = after + old ≡ new + before

module _ {ℓ} {A : Type ℓ} (w : A → ℕ) where
  -- Of the members below `n`.
  unfoldable pub sum_below : ℕ → (ℕ → A) → ℕ
  sum_below zero f = 0
  sum_below (suc n) f = w (f n) + sum_below n f

  -- Families that differ in one place differ in that term, where it is among the first `n`.
  sum_below-except :
      (f g : ℕ → A) (i : ℕ)
      → ((j : ℕ) → i ≢ j → g j ≡ f j)
      → (n : ℕ)
      → Exchange
          (if ltb i n then w (f i) else 0)
          (if ltb i n then w (g i) else 0)
          (sum_below n f)
          (sum_below n g)
  unfolding sum_below
  sum_below-except f g i same zero = ground arith
  sum_below-except f g i same (suc n) = elim (ℕ_discrete i n) [
    | yes e ↦ ground (arith, sum_below-except f g i same n)
    | no ne ↦ ground (arith, same n ne, sum_below-except f g i same n)
  ]

  pub sum_below-update :
      (n : ℕ) (f : ℕ → A) (i : ℕ) (a : A)
      → i < n
      → Exchange (w (f i)) (w a) (sum_below n f) (sum_below n (update f i a))
  sum_below-update n f i a h =
      ground (arith, update-same f i a, sum_below-except f (update f i a) i (update-other f i a) n)

  pub le-sum_below : (n : ℕ) (f : ℕ → A) (i : ℕ) → i < n → w (f i) ≤ sum_below n f
  unfolding sum_below
  le-sum_below zero f i h = absurd (omega arith)
  le-sum_below (suc n) f i h = elim (dec_lt i n) [
    | yes below ↦ omega (arith, le-sum_below n f i below)
    | no last ↦ ground arith
  ]

  pub sum_below-zero : (n : ℕ) (f : ℕ → A) → ((i : ℕ) → i < n → w (f i) ≡ 0) → sum_below n f ≡ 0
  unfolding sum_below
  sum_below-zero zero f h = refl
  sum_below-zero (suc n) f h =
      omega (arith, h n (omega arith), sum_below-zero n f (λ i b. h i (omega arith)))

  pub sum_below-zero_or_positive :
      (n : ℕ) (f : ℕ → A) → ((i : ℕ) → i < n → w (f i) ≡ 0) ⊎ ((i : ℕ) × (i < n) × (0 < w (f i)))
  sum_below-zero_or_positive zero f = inl (λ i h. absurd (omega arith))
  sum_below-zero_or_positive (suc n) f = elim (dec_lt 0 (w (f n))) [
    | yes positive ↦ inr (n, omega arith, positive)
    | no zero_here ↦
        let none_here : w (f n) ≡ 0 = omega arith in
        elim (sum_below-zero_or_positive n f) [
          | inl all ↦ inl (λ i h. elim (dec_lt i n) [
            | yes below ↦ all i below
            | no last ↦ subst (λ x. w (f x) ≡ 0) (omega arith) none_here
          ])
          | inr (i, h, positive) ↦ inr (i, omega arith, positive)
        ]
  ]

pub sum_below_mono {ℓ} :
    {A : Type ℓ} (v w : A → ℕ)
    → ((a : A) → v a ≤ w a)
    → (n : ℕ) (f : ℕ → A) → sum_below v n f ≤ sum_below w n f
unfolding sum_below
sum_below_mono v w h zero f = omega arith
sum_below_mono v w h (suc n) f = omega (arith, h (f n), sum_below_mono v w h n f)

pub sum_below_same {ℓ} :
    {A : Type ℓ} (v w : A → ℕ) (n : ℕ) (f : ℕ → A)
    → ((i : ℕ) → i < n → v (f i) ≡ w (f i))
    → sum_below v n f ≡ sum_below w n f
unfolding sum_below
sum_below_same v w zero f h = refl
sum_below_same v w (suc n) f h =
    omega (arith, h n (omega arith), sum_below_same v w n f (λ i b. h i (omega arith)))
