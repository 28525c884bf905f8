-- ===== src/Veb/Node/Extremes.antt =====
-- The least and the greatest element of the clusters.
use bienutil.Base.{
  Bool-cases, inl, inr, ℕ, ◌+◌, ◌*◌, ◌/◌, ◌%◌, ◌<◌, ◌≡◌, refl, sym, ap, ◌∙◌, arith, Bool, true,
  Option, none, some,
}
use native.Mathlib.Decide.{dec_lt}
use bienutil.VebFixed.{is_some}
use bienutil.Veb.{VebTree, IsLawful, MinOf, MaxOf}
use bienutil.Veb.Index.{
  index_above, index_below, index_same, cluster-lt, element-lt, cluster-index, element-index,
  index-lt,
}
use bienutil.Veb.Node.{Node, universe, subtree, first_in_clusters, last_in_clusters}
use bienutil.Veb.Node.Clusters.{any-true, IsClusters, in_clusters, some-lt}

module _ (V : VebTree) (P : V.State → Type 0) (law : IsLawful V P) (t : V.State) (valid : P t)
    (any : V.f_has_any_elements t ≡ true) where
  pub n_min_some : (m : ℕ) × (V.n_min t ≡ some m) × MinOf V.universe (V.f_has_element t) (some m)
  unfolding is_some
  n_min_some = by_min (V.n_min t) refl (law.n_min-MinOf t valid)
    where
      by_min :
          (o : Option ℕ)
          → V.n_min t ≡ o
          → MinOf V.universe (V.f_has_element t) o
          → (m : ℕ) × (V.n_min t ≡ some m) × MinOf V.universe (V.f_has_element t) (some m)
      by_min none e at = absurd (cc (law.any-min t valid, any, ap is_some e))
      by_min (some m) e at = (m, e, at)

  pub n_max_some : (m : ℕ) × (V.n_max t ≡ some m) × MaxOf V.universe (V.f_has_element t) (some m)
  unfolding is_some
  n_max_some = by_max (V.n_max t) refl (law.n_max-MaxOf t valid)
    where
      by_max :
          (o : Option ℕ)
          → V.n_max t ≡ o
          → MaxOf V.universe (V.f_has_element t) o
          → (m : ℕ) × (V.n_max t ≡ some m) × MaxOf V.universe (V.f_has_element t) (some m)
      by_max none e at = absurd (cc (law.any-max t valid, any, ap is_some e))
      by_max (some m) e at = (m, e, at)

-- Whether a tree has elements is decided by its elements.
module _ (V : VebTree) (P : V.State → Type 0) (law : IsLawful V P) where
  any_same :
      (t r : V.State)
      → P t
      → P r
      → ((j : ℕ) → j < V.universe → V.f_has_element t j ≡ V.f_has_element r j)
      → V.f_has_any_elements t ≡ true
      → V.f_has_any_elements r ≡ true
  any_same t r vt vr same any =
      let (m, e, (h, on, low)) = n_min_some V P law t vt any in
      any-true V P law r vr m h (sym (same m h) ∙ on)

  pub any_ext :
      (t r : V.State)
      → P t
      → P r
      → ((j : ℕ) → j < V.universe → V.f_has_element t j ≡ V.f_has_element r j)
      → V.f_has_any_elements t ≡ V.f_has_any_elements r
  any_ext t r vt vr same = elim (Bool-cases (V.f_has_any_elements t)) [
    | inl any ↦ any ∙ sym (any_same t r vt vr same any)
    | inr bare ↦ elim (Bool-cases (V.f_has_any_elements r)) [
      | inl any ↦ absurd (cc (bare, any_same r t vr vt (λ j h. sym (same j h)) any))
      | inr none_there ↦ bare ∙ sym none_there
    ]
  ]

module _ (S C : VebTree) (VS : S.State → Type 0) (VC : C.State → Type 0) (ls : IsLawful S VS)
    (lc : IsLawful C VC) (nd : Node S C) (k : IsClusters S C VS VC nd.subtrees nd.summary) where
  abbrev inside : ℕ → Bool
  inside = in_clusters S C nd.subtrees

  pub member-index :
      (c e : ℕ)
      → e < C.universe
      → inside (c * C.universe + e) ≡ C.f_has_element (subtree S C nd.subtrees c) e
  member-index c e h =
      ap (λ d. C.f_has_element (subtree S C nd.subtrees d) ((c * C.universe + e) % C.universe))
        (cluster-index S.universe C.universe lc.inhabited c e h)
      ∙ ap (C.f_has_element (subtree S C nd.subtrees c))
          (element-index S.universe C.universe lc.inhabited c e h)

  pub held_at :
      (c j : ℕ)
      → j / C.universe ≡ c
      → inside j ≡ C.f_has_element (subtree S C nd.subtrees c) (j % C.universe)
  held_at c j e = ap (λ d. C.f_has_element (subtree S C nd.subtrees d) (j % C.universe)) e

  in_cluster :
      (c j : ℕ)
      → j / C.universe ≡ c
      → inside j ≡ true
      → C.f_has_element (subtree S C nd.subtrees c) (j % C.universe) ≡ true
  in_cluster c j e on = sym (held_at c j e) ∙ on

  module _ (any : S.f_has_any_elements nd.summary ≡ true) where
    pub first_in_clusters-MinOf :
        (m : ℕ) × (first_in_clusters S C nd ≡ some m) × MinOf (universe S C) inside (some m)
    unfolding first_in_clusters
    first_in_clusters-MinOf =
        let (c, ec, (cl, on, least)) = n_min_some S VS ls nd.summary k.whole any in
        let (e, ee, (el, at, low)) =
          n_min_some C VC lc (subtree S C nd.subtrees c) (k.each c cl)
            (sym (k.summarised c cl) ∙ on) in
        (
          c * C.universe + e,
          rw (ec, ee) refl,
          (
            index-lt S.universe C.universe lc.inhabited c e cl el,
            member-index c e el ∙ at,
            λ j h i. elim (dec_lt c (j / C.universe)) [
              | yes l ↦ omega (arith, index_above S.universe C.universe lc.inhabited c e j el l)
              | no n ↦
                  let same : j / C.universe ≡ c = omega (
                    arith,
                    least (j / C.universe) (cluster-lt S.universe C.universe lc.inhabited j h)
                        (some-lt S C VS VC ls lc nd.subtrees nd.summary k j h i),
                  ) in
                  omega (
                    arith,
                    index_same S.universe C.universe lc.inhabited c j same,
                    low (j % C.universe) (element-lt S.universe C.universe lc.inhabited j)
                        (in_cluster c j same i),
                  )
            ],
          ),
        )

    pub last_in_clusters-MaxOf :
        (m : ℕ) × (last_in_clusters S C nd ≡ some m) × MaxOf (universe S C) inside (some m)
    unfolding last_in_clusters
    last_in_clusters-MaxOf =
        let (c, ec, (cl, on, greatest)) = n_max_some S VS ls nd.summary k.whole any in
        let (e, ee, (el, at, high)) =
          n_max_some C VC lc (subtree S C nd.subtrees c) (k.each c cl)
            (sym (k.summarised c cl) ∙ on) in
        (
          c * C.universe + e,
          rw (ec, ee) refl,
          (
            index-lt S.universe C.universe lc.inhabited c e cl el,
            member-index c e el ∙ at,
            λ j h i. elim (dec_lt (j / C.universe) c) [
              | yes l ↦ omega (arith, index_below S.universe C.universe lc.inhabited c e j l)
              | no n ↦
                  let same : j / C.universe ≡ c = omega (
                    arith,
                    greatest (j / C.universe) (cluster-lt S.universe C.universe lc.inhabited j h)
                        (some-lt S C VS VC ls lc nd.subtrees nd.summary k j h i),
                  ) in
                  omega (
                    arith,
                    index_same S.universe C.universe lc.inhabited c j same,
                    high (j % C.universe) (element-lt S.universe C.universe lc.inhabited j)
                        (in_cluster c j same i),
                  )
            ],
          ),
        )
