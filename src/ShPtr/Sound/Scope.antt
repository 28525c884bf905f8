-- ===== src/ShPtr/Sound/Scope.antt =====
-- When every pointer variable of src/_shwkptr.h goes out of scope, nothing is left.
use bienutil.Base.{ℕ, zero, suc, ◌+◌, ◌<◌, ◌≤◌, ◌≡◌, refl, ap, ◌∙◌, Option, none, arith}
use native.Mathlib.Decide.{ℕ_discrete}
use mathlib.Core.Path.{subst}
use bienutil.ShPtr.Outcome.{◌>>=◌, Ends, returns, Ends-bind, Ends-map}
use bienutil.ShPtr.Container.{
  Object, absent, alive, destroyed, Block, unallocated, allocated, Memory, update, ref_limit,
}
use bienutil.ShPtr.Program.{Reach, destroy_strong, destroy_weak}
use bienutil.ShPtr.Counts.Pointers.{count, count-none}
use bienutil.ShPtr.Counts.Balance.{IsHeld, IsBalanced, IsBalanced-at}
use bienutil.ShPtr.Family.{update-same, update-other}
use bienutil.ShPtr.Sound.Inv.{Inv}
use bienutil.ShPtr.Sound.Resets.{Strong-destroy-Ends, Weak-destroy-Ends}
use bienutil.ShPtr.Sound.Runs.{Reach-Inv}
use bienutil.ShPtr.Sound.Creates.{IsAllocator}

-- The null variables from `i` on, below `n`.
abbrev NoneFrom : (n i : ℕ) → (ℕ → Option ℕ) → Type 0
NoneFrom n i p = (l : ℕ) → i ≤ l → l < n → p l ≡ none

NoneFrom-update :
    (n i : ℕ) (p p' : ℕ → Option ℕ) → NoneFrom n (suc i) p → p' ≡ update p i none → NoneFrom n i p'
NoneFrom-update n i p p' gone e l low high = ap (λ q. q l) e ∙ elim (ℕ_discrete i l) [
  | yes same ↦ subst (λ x. update p i none x ≡ none) same (update-same p i none)
  | no other ↦ update-other p i none l other ∙ gone l (omega arith) high
]

module _ {ℓ} {T : Type ℓ} {n k : ℕ} {E : Memory T → Type 0} where
  destroy_strong-Ends :
      (i : ℕ) (q : ℕ → Option ℕ) (m : Memory T)
      → Inv n k m
      → i ≤ n
      → NoneFrom n i m.strong
      → m.weak ≡ q
      → Ends (λ m'. Inv n k m' × (NoneFrom n 0 m'.strong × (m'.weak ≡ q))) E (destroy_strong i m)
  unfolding destroy_strong
  destroy_strong-Ends zero q m inv h gone eq = returns (inv, (gone, eq))
  destroy_strong-Ends (suc i) q m inv h gone eq =
      Ends-bind (Strong-destroy-Ends m inv i (omega arith)) (λ m' (inv', (es, ew)).
        destroy_strong-Ends i q m' inv' (omega arith)
          (NoneFrom-update n i m.strong m'.strong gone es) (ew ∙ eq))

  destroy_weak-Ends :
      (i : ℕ) (q : ℕ → Option ℕ) (m : Memory T)
      → Inv n k m
      → i ≤ k
      → NoneFrom k i m.weak
      → m.strong ≡ q
      → Ends (λ m'. Inv n k m' × (NoneFrom k 0 m'.weak × (m'.strong ≡ q))) E (destroy_weak i m)
  unfolding destroy_weak
  destroy_weak-Ends zero q m inv h gone eq = returns (inv, (gone, eq))
  destroy_weak-Ends (suc i) q m inv h gone eq =
      Ends-bind (Weak-destroy-Ends m inv i (omega arith)) (λ m' (inv', (ew, es)).
        destroy_weak-Ends i q m' inv' (omega arith) (NoneFrom-update k i m.weak m'.weak gone ew)
          (es ∙ eq))

abbrev pub IsFree {ℓ} : {T : Type ℓ} → Block T → Type 0
IsFree unallocated = Unit
IsFree (allocated c) = ⊥

abbrev IsGone {ℓ} : {T : Type ℓ} → Object T → Type 0
IsGone (alive v) = ⊥
IsGone _ = Unit

-- No object is alive in the block.
abbrev pub IsDead {ℓ} : {T : Type ℓ} → Block T → Type 0
IsDead unallocated = Unit
IsDead (allocated c) = IsGone c.object

module _ {ℓ} {T : Type ℓ} where
  IsGone-IsHeld : (o : Object T) → IsHeld o 0 → IsGone o
  IsGone-IsHeld (alive v) h = omega arith
  IsGone-IsHeld absent h = tt
  IsGone-IsHeld destroyed h = tt

  IsDead-IsBalanced : (b : Block T) (w : ℕ) → IsBalanced b 0 w → IsDead b
  IsDead-IsBalanced unallocated w h = tt
  IsDead-IsBalanced (allocated c) w h = IsGone-IsHeld c.object h.3

  IsFree-IsBalanced : (b : Block T) → IsBalanced b 0 0 → IsFree b
  IsFree-IsBalanced unallocated h = tt
  IsFree-IsBalanced (allocated c) h = absurd (omega arith)

  module _ {n k : ℕ} (alloc : (ℕ → Block T) → Option ℕ) (sound : IsAllocator alloc)
      (few : n + k + 1 < ref_limit) {m : Memory T} (reached : Reach alloc n k m) where
    strong_gone :
        Ends
          (λ m'. Inv n k m' × (NoneFrom n 0 m'.strong × (m'.weak ≡ m.weak)))
          (λ _. ⊥)
          (destroy_strong n m)
    strong_gone =
        destroy_strong-Ends n m.weak m (Reach-Inv alloc sound few reached) (omega arith)
          (λ l low high. absurd (omega arith)) refl

    -- From every state that a careful run reaches, one that in particular has assigned no strong
    -- pointer as an rvalue to a weak one unless it was null, the destructors of all strong pointers
    -- return, keep the invariant, and leave no object alive.
    pub objects_die :
        Ends (λ m'. Inv n k m' × ((a : ℕ) → IsDead (m'.block a))) (λ _. ⊥) (destroy_strong n m)
    objects_die = Ends-map strong_gone (λ m' (inv', (gone, _)). (
      inv',
      λ a. IsDead-IsBalanced (m'.block a) (count k m'.weak a) (
          IsBalanced-at _ _ 0 _ refl (count-none n m'.strong a (λ l. gone l (omega arith))) refl
            (inv'.balanced a)),
    ))

    -- From every state that a careful run reaches, one that in particular has assigned no strong
    -- pointer as an rvalue to a weak one unless it was null, the destructors of all strong and then
    -- of all weak pointers return, and leave no block of memory allocated.
    pub nothing_left :
        Ends (λ m'. (a : ℕ) → IsFree (m'.block a)) (λ _. ⊥) (destroy_strong n m >>= destroy_weak k)
    nothing_left = Ends-bind strong_gone (λ m' (inv', (gone, _)).
        Ends-map
          (destroy_weak-Ends k m'.strong m' inv' (omega arith) (λ l low high. absurd (omega arith))
            refl)
          (λ e (inv, (none_weak, same)) a. IsFree-IsBalanced (e.block a) (
            IsBalanced-at _ _ 0 0 refl
              (count-none n e.strong a (λ l below. ap (λ p. p l) same ∙ gone l (omega arith) below))
              (count-none k e.weak a (λ l. none_weak l (omega arith))) (inv.balanced a))))
