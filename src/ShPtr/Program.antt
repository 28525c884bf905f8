-- ===== src/ShPtr/Program.antt =====
-- A program over the pointers of src/_shwkptr.h: any sequence of their operations.
use bienutil.Base.{Bool, ℕ, zero, suc, ◌<◌, ◌≡◌, Option, none, some}
use bienutil.ShPtr.Outcome.{Outcome, done, threw, ◌>>=◌}
use bienutil.ShPtr.Container.{Block, unallocated, Memory}
use bienutil.ShPtr.Strong
use bienutil.ShPtr.Weak

-- `strong` and `weak` constructors and destructors, then the assignments and the rest.
pub data Op {ℓ} (T : Type ℓ) : Type ℓ where
  strong_copy : (i j : ℕ) → Op T
  strong_move : (i j : ℕ) → Op T
  strong_lock : (i j : ℕ) → Op T
  strong_lock_move : (i j : ℕ) → Op T
  strong_lock_leave_empty : (i j : ℕ) → Op T
  strong_create : (i : ℕ) → (value : Option T) → Op T
  strong_destroy : (i : ℕ) → Op T
  strong_assign : (i j : ℕ) → Op T
  strong_assign_move : (i j : ℕ) → Op T
  strong_assign_lock : (i j : ℕ) → Op T
  strong_assign_lock_move : (i j : ℕ) → Op T
  strong_swap : (i j : ℕ) → Op T
  strong_reset : (i : ℕ) → Op T
  strong_emplace : (i : ℕ) → (value : Option T) → Op T
  weak_copy : (i j : ℕ) → Op T
  weak_move : (i j : ℕ) → Op T
  weak_observe : (i j : ℕ) → Op T
  weak_destroy : (i : ℕ) → Op T
  weak_assign : (i j : ℕ) → Op T
  weak_assign_move : (i j : ℕ) → Op T
  weak_assign_observe : (i j : ℕ) → Op T
  weak_assign_observe_move : (i j : ℕ) → Op T
  weak_swap : (i j : ℕ) → Op T
  weak_reset : (i : ℕ) → Op T
  weak_emplace : (i : ℕ) → (moves : Bool) → Op T

module _ {ℓ} {T : Type ℓ} where
  abbrev pub exec : ((ℕ → Block T) → Option ℕ) → Op T → Memory T → Outcome (Memory T)
  exec alloc (strong_copy i j) m = Strong.copy i j m
  exec alloc (strong_move i j) m = Strong.move i j m
  exec alloc (strong_lock i j) m = Strong.lock i j m
  exec alloc (strong_lock_move i j) m = Strong.lock_move i j m
  exec alloc (strong_lock_leave_empty i j) m = Strong.lock_leave_empty i j m
  exec alloc (strong_create i value) m = Strong.create alloc i value m
  exec alloc (strong_destroy i) m = Strong.destroy i m
  exec alloc (strong_assign i j) m = Strong.assign i j m
  exec alloc (strong_assign_move i j) m = Strong.assign_move i j m
  exec alloc (strong_assign_lock i j) m = Strong.assign_lock i j m
  exec alloc (strong_assign_lock_move i j) m = Strong.assign_lock_move i j m
  exec alloc (strong_swap i j) m = Strong.swap i j m
  exec alloc (strong_reset i) m = Strong.reset i m
  exec alloc (strong_emplace i value) m = Strong.emplace alloc i value m
  exec alloc (weak_copy i j) m = Weak.copy i j m
  exec alloc (weak_move i j) m = Weak.move i j m
  exec alloc (weak_observe i j) m = Weak.observe i j m
  exec alloc (weak_destroy i) m = Weak.destroy i m
  exec alloc (weak_assign i j) m = Weak.assign i j m
  exec alloc (weak_assign_move i j) m = Weak.assign_move i j m
  exec alloc (weak_assign_observe i j) m = Weak.assign_observe i j m
  exec alloc (weak_assign_observe_move i j) m = Weak.assign_observe_move i j m
  exec alloc (weak_swap i j) m = Weak.swap i j m
  exec alloc (weak_reset i) m = Weak.reset i m
  exec alloc (weak_emplace i moves) m = Weak.emplace alloc i moves m

  abbrev pub IsKept : ℕ → ℕ → Memory T → Type 0
  IsKept n j m = (a : ℕ) → m.weak j ≡ some a → (l : ℕ) × (l < n) × (m.strong l ≡ some a)

  -- The two uses that a careful program keeps to. `lock_move`, a strong pointer constructed from a
  -- weak rvalue, has another strong pointer that keeps the object: its `noexcept` ends the program
  -- where the object is gone. `assign_observe_move`, the assignment of a strong rvalue to a weak
  -- pointer, has a null argument: it leaks the strong reference of any other.
  abbrev pub IsCareful : (n : ℕ) → Op T → Memory T → Type 0
  IsCareful n (strong_lock_move i j) m = IsKept n j m
  IsCareful n (weak_assign_observe_move i j) m = m.strong j ≡ none
  IsCareful n _ m = Unit

  -- The variables are among `n` strong and `k` weak ones, and a constructor finds its variable not
  -- yet constructed.
  abbrev pub IsEnabled : (n k : ℕ) → Op T → Memory T → Type 0
  IsEnabled n k (strong_copy i j) m = (i < n) × (j < n) × (m.strong i ≡ none)
  IsEnabled n k (strong_move i j) m = (i < n) × (j < n) × (m.strong i ≡ none)
  IsEnabled n k (strong_lock i j) m = (i < n) × (j < k) × (m.strong i ≡ none)
  IsEnabled n k (strong_lock_move i j) m = (i < n) × (j < k) × (m.strong i ≡ none)
  IsEnabled n k (strong_lock_leave_empty i j) m = (i < n) × (j < k) × (m.strong i ≡ none)
  IsEnabled n k (strong_create i value) m = (i < n) × (m.strong i ≡ none)
  IsEnabled n k (strong_destroy i) m = i < n
  IsEnabled n k (strong_assign i j) m = (i < n) × (j < n)
  IsEnabled n k (strong_assign_move i j) m = (i < n) × (j < n)
  IsEnabled n k (strong_assign_lock i j) m = (i < n) × (j < k)
  IsEnabled n k (strong_assign_lock_move i j) m = (i < n) × (j < k)
  IsEnabled n k (strong_swap i j) m = (i < n) × (j < n)
  IsEnabled n k (strong_reset i) m = i < n
  IsEnabled n k (strong_emplace i value) m = i < n
  IsEnabled n k (weak_copy i j) m = (i < k) × (j < k) × (m.weak i ≡ none)
  IsEnabled n k (weak_move i j) m = (i < k) × (j < k) × (m.weak i ≡ none)
  IsEnabled n k (weak_observe i j) m = (i < k) × (j < n) × (m.weak i ≡ none)
  IsEnabled n k (weak_destroy i) m = i < k
  IsEnabled n k (weak_assign i j) m = (i < k) × (j < k)
  IsEnabled n k (weak_assign_move i j) m = (i < k) × (j < k)
  IsEnabled n k (weak_assign_observe i j) m = (i < k) × (j < n)
  IsEnabled n k (weak_assign_observe_move i j) m = (i < k) × (j < n)
  IsEnabled n k (weak_swap i j) m = (i < k) × (j < k)
  IsEnabled n k (weak_reset i) m = i < k
  IsEnabled n k (weak_emplace i moves) m = i < k

  -- Nothing is allocated, and every variable is null or not constructed.
  abbrev pub initial : Memory T
  initial = record { block = λ _. unallocated; strong = λ _. none; weak = λ _. none }

  module _ (alloc : (ℕ → Block T) → Option ℕ) (n k : ℕ) where
    -- One operation, used carefully, whether it returns or throws.
    pub data Step (m : Memory T) : Memory T → Type ℓ where
      returned :
          {m' : Memory T} (op : Op T)
          → IsEnabled n k op m
          → IsCareful n op m
          → exec alloc op m ≡ done m'
          → Step m m'
      thrown :
          {m' : Memory T} (op : Op T)
          → IsEnabled n k op m
          → IsCareful n op m
          → exec alloc op m ≡ threw m'
          → Step m m'

    -- The states that careful runs reach.
    pub data Reach : Memory T → Type ℓ where
      start : Reach initial
      later : {m m' : Memory T} → Reach m → Step m m' → Reach m'

  -- The variables go out of scope.
  unfoldable pub destroy_strong : ℕ → Memory T → Outcome (Memory T)
  unfolding Strong.destroy
  destroy_strong zero m = done m
  destroy_strong (suc n) m = Strong.destroy n m >>= destroy_strong n

  unfoldable pub destroy_weak : ℕ → Memory T → Outcome (Memory T)
  unfolding Weak.destroy
  destroy_weak zero m = done m
  destroy_weak (suc k) m = Weak.destroy k m >>= destroy_weak k
