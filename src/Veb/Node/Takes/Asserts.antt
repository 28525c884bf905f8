-- ===== src/Veb/Node/Takes/Asserts.antt =====
-- The assertions of `NSuccessorDelete`.
use bienutil.Base.{ℕ, ◌/◌, ◌%◌, ◌^◌, ◌≤◌, ◌<◌, ◌≡◌, ◌⊎◌, true, Option, none, some}
use bienutil.Veb.{VebTree, IsLawful}
use bienutil.Veb.Node.{Node, universe, least, subtree, f_has_any_elements}
use bienutil.Veb.Node.Valid.{IsValid}

module _ (S C : VebTree) (VS : S.State → Type 0) (VC : C.State → Type 0) (ls : IsLawful S VS)
    (lc : IsLawful C VC) (small : universe S C ≤ 2 ^ 64) (nd : Node S C) (x : ℕ)
    (valid : IsValid S C VS VC nd) (h : x < universe S C) where
  abbrev tree : C.State
  tree = subtree S C nd.subtrees (x / C.universe)

  abbrev e : ℕ
  e = x % C.universe

  -- The cluster of `x` has a single element, which is above `x`, and `x` is not below the least
  -- element of the tree.
  abbrev pub IsAlone : Type 0
  IsAlone =
      (f_has_any_elements S C nd ≡ true)
      × (least S C nd ≤ x)
      × ((m : ℕ) × (C.n_min tree ≡ some m) × (C.n_max tree ≡ some m) × (e < m))

  -- The two ways in which a run with assertions compares with one without.
  abbrev pub Compares : Option (ℕ × Node S C) → Option (ℕ × Node S C) → Type 0
  Compares tested untested = (IsAlone × (tested ≡ none)) ⊎ ((¬ IsAlone) × (tested ≡ untested))
