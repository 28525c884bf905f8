-- ===== src/Veb/Node/Searches/Previous.antt =====
-- The previous element in the clusters.
use native.Mathlib.Decide.{dec_lt}
use bienutil.Base.{
  ℕ, ◌+◌, ◌-◌, ◌*◌, ◌/◌, ◌%◌, ◌≤◌, ◌<◌, ◌≡◌, ◌⊎◌, inl, inr, refl, sym, ◌∙◌, arith, Bool, true,
  false, Option, none, some, ◌==◌, if◌then◌else◌, ltb, Bool-cases, ◌>>=◌,
}
use bienutil.Veb.{VebTree, IsLawful, MinOf, MaxOf, SomePrevious}
use bienutil.Veb.Index.{
  cluster-lt, element-lt, cluster-index, cluster_mono, index_above, index_same, index_split,
}
use bienutil.Veb.Node.{Node, universe, least, subtree}
use bienutil.Veb.Node.Clusters.{IsClusters, in_clusters, none-lt}
use bienutil.Veb.Node.Extremes.{held_at, member-index, n_max_some}
use bienutil.Veb.Node.Searches.{holds, predecessor_before}

module _ (S C : VebTree) (VS : S.State → Type 0) (VC : C.State → Type 0) (ls : IsLawful S VS)
    (lc : IsLawful C VC) where
  module _ (nd : Node S C) (k : IsClusters S C VS VC nd.subtrees nd.summary) where
    abbrev held : ℕ → Bool
    held = in_clusters S C nd.subtrees

    abbrev tree : ℕ → C.State
    tree = subtree S C nd.subtrees

    -- What is returned where no cluster has an element below `x`.
    abbrev pub otherwise : ℕ → ℕ
    otherwise x = if ltb (least S C nd) x then least S C nd else universe S C - 1

    abbrev pub Precedes : ℕ → ℕ → Type 0
    Precedes x y =
        ((y ≡ otherwise x) × ((j : ℕ) → j < x → held j ≡ false))
        ⊎ ((y < x) × (held y ≡ true) × ((j : ℕ) → y < j → j < x → held j ≡ false))

    module _ (x : ℕ) (h : x < universe S C) where
      abbrev c : ℕ
      c = x / C.universe

      abbrev e : ℕ
      e = x % C.universe

      up : 0 < C.universe
      up = lc.inhabited

      c-lt : c < S.universe
      c-lt = cluster-lt S.universe C.universe up x h

      -- A number before `x` stands in its cluster, before it, or in an earlier one.
      before_x :
          (j : ℕ) → j < x → (j / C.universe < c) ⊎ ((j / C.universe ≡ c) × (j % C.universe < e))
      before_x j l = elim (dec_lt (j / C.universe) c) [
        | yes less ↦ inl less
        | no n ↦
            let same : j / C.universe ≡ c =
              omega (arith, cluster_mono S.universe C.universe up j x (omega arith)) in
            inr (
              same,
              omega (
                arith,
                index_same S.universe C.universe up c j same,
                index_split S.universe C.universe up x,
              ),
            )
      ]

      -- A number after another does not stand in an earlier cluster.
      cluster-ge : (d m j : ℕ) → m < C.universe → d * C.universe + m < j → d ≤ j / C.universe
      cluster-ge d m j ml l = omega (
        arith,
        cluster_mono S.universe C.universe up (d * C.universe + m) j (omega arith),
        cluster-index S.universe C.universe up d m ml,
      )

      -- The previous element in the cluster of `x`.
      pub here-SomePrevious :
          (y : ℕ)
          → SomePrevious (C.f_has_element (tree c)) e y
          → SomePrevious held x (c * C.universe + y)
      here-SomePrevious y (l, at, between) =
          let yl : y < C.universe = omega (arith, element-lt S.universe C.universe up x) in
          (
            omega (arith, index_same S.universe C.universe up c x refl),
            member-index S C VS VC ls lc nd k c y yl ∙ at,
            λ j a b. elim (before_x j b) [
              | inl less ↦ absurd (omega (arith, cluster-ge c y j yl a))
              | inr (same, left) ↦
                  held_at S C VS VC ls lc nd k c j same
                  ∙ between (j % C.universe)
                      (omega (arith, index_same S.universe C.universe up c j same)) left
            ],
          )

      -- Where the cluster of `x` has no element before it.
      abbrev pub IsDone : Type 0
      IsDone = (j : ℕ) → j < C.universe → j < e → C.f_has_element (tree c) j ≡ false

      -- There is none in the clusters where no earlier one has an element.
      pub none_earlier :
          IsDone
          → ((d : ℕ) → d < c → S.f_has_element nd.summary d ≡ false)
          → (j : ℕ) → j < x
          → held j ≡ false
      none_earlier done off j b = elim (before_x j b) [
        | inl less ↦
            none-lt S C VS VC ls lc nd.subtrees nd.summary k j (omega arith)
              (off (j / C.universe) less)
        | inr (same, left) ↦
            held_at S C VS VC ls lc nd k c j same
            ∙ done (j % C.universe) (element-lt S.universe C.universe up j) left
      ]

      -- The greatest element of the previous cluster.
      pub earlier-SomePrevious :
          IsDone
          → (d m : ℕ) → SomePrevious (S.f_has_element nd.summary) c d
          → MaxOf C.universe (C.f_has_element (tree d)) (some m)
          → SomePrevious held x (d * C.universe + m)
      earlier-SomePrevious done d m (l, at, between) (ml, on, high) = (
        index_above S.universe C.universe up d m x ml l,
        member-index S C VS VC ls lc nd k d m ml ∙ on,
        λ j a b. elim (before_x j b) [
          | inr (same, left) ↦
              held_at S C VS VC ls lc nd k c j same
              ∙ done (j % C.universe) (element-lt S.universe C.universe up j) left
          | inl less ↦ elim (dec_lt d (j / C.universe)) [
            | yes more ↦
                none-lt S C VS VC ls lc nd.subtrees nd.summary k j (omega arith)
                  (between (j / C.universe) more less)
            | no n ↦
                let same : j / C.universe ≡ d = omega (arith, cluster-ge d m j ml a) in
                held_at S C VS VC ls lc nd k d j same
                ∙ ground (
                  arith,
                  high (j % C.universe) (element-lt S.universe C.universe up j),
                  index_same S.universe C.universe up d j same,
                )
          ]
        ],
      )

      in_same :
          (m : ℕ)
          → MinOf C.universe (C.f_has_element (tree c)) (some m)
          → m < e
          → (y : ℕ) × (C.n_predecessor (tree c) e ≡ some y) × Precedes x (c * C.universe + y)
      in_same m (ml, on, low) above =
          let (y, q, prev) =
            lc.n_predecessor-PreviousOf (tree c) e (k.each c c-lt)
              (element-lt S.universe C.universe up x) in
          (
            y,
            q,
            elim prev [
              | inl (z, off) ↦ absurd (cc (on, off m above))
              | inr found ↦ inr (here-SomePrevious y found)
            ],
          )

      in_previous : IsDone → (y : ℕ) × (predecessor_before S C nd x ≡ some y) × Precedes x y
      unfolding predecessor_before
      in_previous done =
          let (d, q, prev) = ls.n_predecessor-PreviousOf nd.summary c k.whole c-lt in
          elim prev [
            | inl (z, off) ↦
                let last_d : (d == S.universe - 1) ≡ true = ground arith in
                (otherwise x, rw (q, last_d) refl, inl (refl, none_earlier done off))
            | inr found ↦
                let dl : d < S.universe = omega (arith, c-lt, found.0) in
                let (m, r, max) =
                  n_max_some C VC lc (tree d) (k.each d dl) (sym (k.summarised d dl) ∙ found.1) in
                let inner_d : (d == S.universe - 1) ≡ false = ground (arith, c-lt, found.0) in
                (
                  d * C.universe + m,
                  rw (q, inner_d, r) refl,
                  inr (earlier-SomePrevious done d m found max),
                )
          ]

      abbrev here : Option ℕ → Bool
      here = holds (λ m. ltb m e)

      pub in_clusters-Precedes :
          (y : ℕ) × ((if here (C.n_min (tree c))
              then C.n_predecessor (tree c) e >>= (λ z. some (c * C.universe + z))
              else predecessor_before S C nd x)
            ≡ some y)
          × Precedes x y
      in_clusters-Precedes =
          by_min (C.n_min (tree c)) refl (lc.n_min-MinOf (tree c) (k.each c c-lt))
        where
          by_min :
              (o : Option ℕ)
              → C.n_min (tree c) ≡ o
              → MinOf C.universe (C.f_has_element (tree c)) o
              → (y : ℕ) × ((if here o
                    then C.n_predecessor (tree c) e >>= (λ z. some (c * C.universe + z))
                    else predecessor_before S C nd x)
                  ≡ some y)
                × Precedes x y
          by_min none q off = in_previous (λ j l a. off j l)
          by_min (some m) q min = elim (Bool-cases (ltb m e)) [
            | inl above ↦
                let (y, r, prev) = in_same m min (ground arith) in
                (c * C.universe + y, rw (above, r) refl, prev)
            | inr past ↦ rw past (in_previous (λ j l a. ground (arith, min.2 j l)))
          ]
