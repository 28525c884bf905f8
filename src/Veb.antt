-- ===== src/Veb.antt =====
-- _vebtree.h: what the trees of `VebTreeFixed` require of their subtrees and of their summary, and
-- offer to the tree they are part of. `none` is a throw.
pub mod Index
pub mod Node
use bienutil.Base.{
  ℕ, zero, suc, ◌-◌, ◌≤◌, ◌<◌, ◌≡◌, ◌⊎◌, Bool, true, false, not, Option, none, some, ◌==◌,
  if◌then◌else◌,
}
use bienutil.VebFixed.{is_some}

-- The operations of a tree for the numbers below `universe`.
pub record VebTree : Type 1 where
  pub State : Type 0
  pub universe : ℕ
  pub empty : State
  pub f_has_any_elements : State → Bool
  pub n_min : State → Option ℕ
  pub n_max : State → Option ℕ
  pub f_has_element : State → ℕ → Bool
  pub insert : State → ℕ → Option State
  pub f_check_insert : State → ℕ → Option (Bool × State)
  pub delete : State → ℕ → Option State
  pub f_check_delete : State → ℕ → Option (Bool × State)
  pub n_successor : State → ℕ → Option ℕ
  pub n_predecessor : State → ℕ → Option ℕ
  pub n_successor_delete : State → ℕ → Option (ℕ × State)
  pub n_predecessor_delete : State → ℕ → Option (ℕ × State)

-- The least and the greatest number below `u` of a set.
abbrev pub MinOf : ℕ → (ℕ → Bool) → Option ℕ → Type 0
MinOf u has none = (j : ℕ) → j < u → has j ≡ false
MinOf u has (some m) = (m < u) × (has m ≡ true) × ((j : ℕ) → j < u → has j ≡ true → m ≤ j)

abbrev pub MaxOf : ℕ → (ℕ → Bool) → Option ℕ → Type 0
MaxOf u has none = (j : ℕ) → j < u → has j ≡ false
MaxOf u has (some m) = (m < u) × (has m ≡ true) × ((j : ℕ) → j < u → has j ≡ true → j ≤ m)

-- `y` is the least number of a set above `x`; or there is none, and it is 0.
abbrev pub NoNext : ℕ → (ℕ → Bool) → ℕ → ℕ → Type 0
NoNext u has x y = (y ≡ 0) × ((j : ℕ) → j < u → x < j → has j ≡ false)

abbrev pub SomeNext : ℕ → (ℕ → Bool) → ℕ → ℕ → Type 0
SomeNext u has x y = (x < y) × (y < u) × (has y ≡ true) × ((j : ℕ) → x < j → j < y → has j ≡ false)

abbrev pub NextOf : ℕ → (ℕ → Bool) → ℕ → ℕ → Type 0
NextOf u has x y = NoNext u has x y ⊎ SomeNext u has x y

-- `y` is the greatest number of a set below `x`; or there is none, and it is the universe's last.
abbrev pub NoPrevious : ℕ → (ℕ → Bool) → ℕ → ℕ → Type 0
NoPrevious u has x y = (y ≡ u - 1) × ((j : ℕ) → j < x → has j ≡ false)

abbrev pub SomePrevious : (ℕ → Bool) → ℕ → ℕ → Type 0
SomePrevious has x y = (y < x) × (has y ≡ true) × ((j : ℕ) → y < j → j < x → has j ≡ false)

abbrev pub PreviousOf : ℕ → (ℕ → Bool) → ℕ → ℕ → Type 0
PreviousOf u has x y = NoPrevious u has x y ⊎ SomePrevious has x y

-- A valid tree with `x` present or not as `b` says, and every other number as before.
abbrev pub Writes : (V : VebTree) → (V.State → Type 0) → V.State → ℕ → Bool → V.State → Type 0
Writes V IsValid t x b r =
    IsValid r
    × ((j : ℕ) → j < V.universe → V.f_has_element r j ≡ (if x == j then b else V.f_has_element t j))

-- The result of an operation that also tells whether it changed the tree.
abbrev pub Reports :
    (V : VebTree) → (V.State → Type 0) → V.State → ℕ → Bool → Option (Bool × V.State) → Type 0
Reports V IsValid t x b o =
    (r : V.State) × (o ≡ some (if b then not (V.f_has_element t x) else V.f_has_element t x, r))
    × Writes V IsValid t x b r

-- The result of a search that deletes what it finds.
abbrev pub Takes :
    (V : VebTree)
    → (V.State → Type 0)
    → V.State
    → (ℕ → Type 0)
    → (ℕ → Type 0)
    → Option (ℕ × V.State)
    → Type 0
Takes V IsValid t IsNone IsFound o =
    (y : ℕ) × (r : V.State) × (o ≡ some (y, r))
    × ((IsNone y × (r ≡ t)) ⊎ (IsFound y × Writes V IsValid t y false r))

-- What the operations do to a valid tree, as a set.
pub record IsLawful (V : VebTree) (IsValid : V.State → Type 0) : Type 0 where
  pub inhabited : 0 < V.universe
  pub empty-IsValid : IsValid V.empty
  pub element-empty : (j : ℕ) → j < V.universe → V.f_has_element V.empty j ≡ false
  pub any-min : (t : V.State) → IsValid t → V.f_has_any_elements t ≡ is_some (V.n_min t)
  pub any-max : (t : V.State) → IsValid t → V.f_has_any_elements t ≡ is_some (V.n_max t)
  pub n_min-MinOf : (t : V.State) → IsValid t → MinOf V.universe (V.f_has_element t) (V.n_min t)
  pub n_max-MaxOf : (t : V.State) → IsValid t → MaxOf V.universe (V.f_has_element t) (V.n_max t)
  pub insert-Writes :
      (t : V.State) (x : ℕ)
      → IsValid t
      → x < V.universe
      → V.f_has_element t x ≡ false
      → (r : V.State) × (V.insert t x ≡ some r) × Writes V IsValid t x true r
  pub f_check_insert-Reports :
      (t : V.State) (x : ℕ)
      → IsValid t
      → x < V.universe
      → Reports V IsValid t x true (V.f_check_insert t x)
  pub delete-Writes :
      (t : V.State) (x : ℕ)
      → IsValid t
      → x < V.universe
      → V.f_has_element t x ≡ true
      → (r : V.State) × (V.delete t x ≡ some r) × Writes V IsValid t x false r
  pub f_check_delete-Reports :
      (t : V.State) (x : ℕ)
      → IsValid t
      → x < V.universe
      → V.f_has_element t x ≡ true
      → Reports V IsValid t x false (V.f_check_delete t x)
  pub n_successor-NextOf :
      (t : V.State) (x : ℕ)
      → IsValid t
      → x < V.universe
      → (y : ℕ) × (V.n_successor t x ≡ some y) × NextOf V.universe (V.f_has_element t) x y
  pub n_predecessor-PreviousOf :
      (t : V.State) (x : ℕ)
      → IsValid t
      → x < V.universe
      → (y : ℕ) × (V.n_predecessor t x ≡ some y) × PreviousOf V.universe (V.f_has_element t) x y
  pub n_successor_delete-Takes :
      (t : V.State) (x : ℕ)
      → IsValid t
      → x < V.universe
      → Takes V IsValid t
          (NoNext V.universe (V.f_has_element t) x)
          (SomeNext V.universe (V.f_has_element t) x)
          (V.n_successor_delete t x)
  pub n_predecessor_delete-Takes :
      (t : V.State) (x : ℕ)
      → IsValid t
      → x < V.universe
      → Takes V IsValid t
          (NoPrevious V.universe (V.f_has_element t) x)
          (SomePrevious (V.f_has_element t) x)
          (V.n_predecessor_delete t x)

-- `FCheckDelete` does not throw on a number that is not in the tree.
abbrev pub IsTotal : (V : VebTree) → (V.State → Type 0) → Type 0
IsTotal V IsValid =
    (t : V.State) (x : ℕ)
    → IsValid t
    → x < V.universe
    → Reports V IsValid t x false (V.f_check_delete t x)
