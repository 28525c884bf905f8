-- ===== src/ShPtr/Sound/Creates.antt =====
-- New containers (src/_shwkptr.h): the allocator may fail, and so may the constructor of the object.
use bienutil.Base.{Bool, true, false, ℕ, ◌+◌, ◌<◌, ◌≡◌, refl, Option, none, some, arith}
use bienutil.ShPtr.Outcome.{done, Ends, returns, throws, Ends-bind}
use bienutil.ShPtr.Container.{
  absent, alive, Block, unallocated, allocated, Memory, set_block, set_strong, set_weak, update,
}
use bienutil.ShPtr.Strong
use bienutil.ShPtr.Weak
use bienutil.ShPtr.Counts.Pointers.{count}
use bienutil.ShPtr.Counts.Balance.{IsBalanced-at, AllBalanced-update}
use bienutil.ShPtr.Counts.Moves.{IsShift}
use bienutil.ShPtr.Sound.Inv.{Inv}
use bienutil.ShPtr.Sound.Resets.{Strong-reset-Ends, Weak-reset-Ends}
use bienutil.ShPtr.Sound.Adopts.{set-IsShift}

-- An allocator returns only blocks that are not in use.
abbrev pub IsAllocator {ℓ} : {T : Type ℓ} → ((ℕ → Block T) → Option ℕ) → Type ℓ
IsAllocator {T} alloc = (h : ℕ → Block T) (a : ℕ) → alloc h ≡ some a → h a ≡ unallocated

module _ {ℓ} {T : Type ℓ} {n k : ℕ} (m : Memory T) (inv : Inv n k m) (i a : ℕ)
    (free : m.block a ≡ unallocated) where
  open inv use {few, balanced}

  unused : count n m.strong a + count k m.weak a ≡ 0
  unused = IsBalanced-at (count n m.strong a) (count k m.weak a) _ _ free refl refl (balanced a)

  Inv-free : Inv n k (set_block a unallocated m)
  Inv-free = record {
    few = few;
    balanced =
        AllBalanced-update m.block _ _ _ _ a unallocated balanced unused (λ c _. (refl, refl));
  }

  Inv-create :
      (v : T)
      → i < n
      → m.strong i ≡ none
      → Inv n k (
          set_strong i
            (some a)
            (set_block a (allocated (record { object = alive v; ref_obj = 1; ref_weak = 1 })) m))
  Inv-create v hi fresh = record {
    few = few;
    balanced =
        AllBalanced-update m.block (count n m.strong) (count k m.weak) _ _ a _ balanced
          (ground (arith, gained a, unused)) (λ c ne. (ground (arith, gained c), refl));
  }
    where
      gained : IsShift (count n m.strong) (count n (update m.strong i (some a))) none (some a)
      gained = set-IsShift n m.strong i (some a) (some a) hi fresh refl

  Inv-create_weak :
      i < k
      → m.weak i ≡ none
      → Inv n k (
          set_weak i
            (some a)
            (set_block a (allocated (record { object = absent; ref_obj = 0; ref_weak = 1 })) m))
  Inv-create_weak hi fresh = record {
    few = few;
    balanced =
        AllBalanced-update m.block (count n m.strong) (count k m.weak) _ _ a _ balanced
          (ground (arith, gained a, unused)) (λ c ne. (refl, ground (arith, gained c)));
  }
    where
      gained : IsShift (count k m.weak) (count k (update m.weak i (some a))) none (some a)
      gained = set-IsShift k m.weak i (some a) (some a) hi fresh refl

module _ {ℓ} {T : Type ℓ} {n k : ℕ} (m : Memory T) (inv : Inv n k m) (i : ℕ) where
  p_create-Ends :
      (answer : Option ℕ) (value : Option T)
      → ((a : ℕ) → answer ≡ some a → m.block a ≡ unallocated)
      → i < n
      → m.strong i ≡ none
      → Ends
          (Inv n k)
          (Inv n k)
          (Strong.p_create answer value (λ a m. done (set_strong i (some a) m)) m)
  p_create-Ends none value free hi fresh = throws inv
  p_create-Ends (some a) none free hi fresh = throws (Inv-free m inv i a (free a refl))
  p_create-Ends (some a) (some v) free hi fresh =
      returns (Inv-create m inv i a (free a refl) v hi fresh)

  p_create_weak-Ends :
      (answer : Option ℕ) (moves : Bool)
      → ((a : ℕ) → answer ≡ some a → m.block a ≡ unallocated)
      → i < k
      → m.weak i ≡ none
      → Ends
          (Inv n k)
          (Inv n k)
          (Weak.p_create answer moves (λ a m. done (set_weak i (some a) m)) m)
  p_create_weak-Ends none moves free hi fresh = throws inv
  p_create_weak-Ends (some a) false free hi fresh = throws (Inv-free m inv i a (free a refl))
  p_create_weak-Ends (some a) true free hi fresh =
      returns (Inv-create_weak m inv i a (free a refl) hi fresh)

module _ {ℓ} {T : Type ℓ} {n k : ℕ} (alloc : (ℕ → Block T) → Option ℕ)
    (sound : IsAllocator alloc) where
  module _ (m : Memory T) (inv : Inv n k m) (i : ℕ) where
    pub create-Ends :
        (value : Option T)
        → i < n
        → m.strong i ≡ none
        → Ends (Inv n k) (Inv n k) (Strong.create alloc i value m)
    unfolding Strong.create
    create-Ends value hi fresh = p_create-Ends m inv i _ value (sound m.block) hi fresh

  module _ (m : Memory T) (inv : Inv n k m) (i : ℕ) where
    pub Strong-emplace-Ends :
        (value : Option T) → i < n → Ends (Inv n k) (Inv n k) (Strong.emplace alloc i value m)
    unfolding Strong.emplace
    Strong-emplace-Ends value hi =
        Ends-bind (Strong-reset-Ends m inv i hi)
          (λ m' (inv', fresh). create-Ends m' inv' i value hi fresh)

    pub Weak-emplace-Ends :
        (moves : Bool) → i < k → Ends (Inv n k) (Inv n k) (Weak.emplace alloc i moves m)
    unfolding Weak.emplace
    Weak-emplace-Ends moves hi =
        Ends-bind (Weak-reset-Ends m inv i hi)
          (λ m' (inv', (fresh, _)). p_create_weak-Ends m' inv' i _ moves (sound m'.block) hi fresh)
