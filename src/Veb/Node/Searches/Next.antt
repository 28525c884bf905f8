-- ===== src/Veb/Node/Searches/Next.antt =====
-- The next element in the clusters.
use native.Mathlib.Decide.{dec_lt}
use bienutil.Base.{
  ℕ, ◌+◌, ◌*◌, ◌/◌, ◌%◌, ◌<◌, ◌≡◌, ◌⊎◌, inl, inr, refl, sym, ◌∙◌, arith, Bool, true, false, Option,
  none, some, ◌==◌, if◌then◌else◌, ltb, Bool-cases, ◌>>=◌,
}
use bienutil.Veb.{VebTree, IsLawful, NextOf, SomeNext, MinOf, MaxOf}
use bienutil.Veb.Index.{
  cluster-le_index, cluster-lt, element-lt, cluster_mono, index_below, index_same, index-lt,
  index_split,
}
use bienutil.Veb.Node.{Node, universe, subtree}
use bienutil.Veb.Node.Clusters.{IsClusters, in_clusters, none-lt}
use bienutil.Veb.Node.Extremes.{held_at, member-index, n_min_some}
use bienutil.Veb.Node.Searches.{holds, successor_after}

module _ (S C : VebTree) (VS : S.State → Type 0) (VC : C.State → Type 0) (ls : IsLawful S VS)
    (lc : IsLawful C VC) where
  module _ (nd : Node S C) (k : IsClusters S C VS VC nd.subtrees nd.summary) where
    abbrev held : ℕ → Bool
    held = in_clusters S C nd.subtrees

    abbrev tree : ℕ → C.State
    tree = subtree S C nd.subtrees

    module _ (x : ℕ) (h : x < universe S C) where
      abbrev c : ℕ
      c = x / C.universe

      abbrev e : ℕ
      e = x % C.universe

      up : 0 < C.universe
      up = lc.inhabited

      c-lt : c < S.universe
      c-lt = cluster-lt S.universe C.universe up x h

      -- A number after `x` stands in its cluster, after it, or in a later one.
      after_x :
          (j : ℕ) → x < j → (c < j / C.universe) ⊎ ((j / C.universe ≡ c) × (e < j % C.universe))
      after_x j l = elim (dec_lt c (j / C.universe)) [
        | yes more ↦ inl more
        | no n ↦
            let same : j / C.universe ≡ c =
              omega (arith, cluster_mono S.universe C.universe up x j (omega arith)) in
            inr (
              same,
              omega (
                arith,
                index_same S.universe C.universe up c j same,
                index_split S.universe C.universe up x,
              ),
            )
      ]

      -- The next element in the cluster of `x`.
      pub here-SomeNext :
          (y : ℕ)
          → SomeNext C.universe (C.f_has_element (tree c)) e y
          → SomeNext (universe S C) held x (c * C.universe + y)
      here-SomeNext y (l, yl, at, between) = (
        omega (arith, index_same S.universe C.universe up c x refl),
        index-lt S.universe C.universe up c y c-lt yl,
        member-index S C VS VC ls lc nd k c y yl ∙ at,
        λ j a b.
            let under = cluster-le_index S.universe C.universe up c y j yl b in
            elim (after_x j a) [
              | inl more ↦ absurd (omega (arith, under))
              | inr (same, right) ↦
                  held_at S C VS VC ls lc nd k c j same
                  ∙ between (j % C.universe) right
                      (omega (arith, index_same S.universe C.universe up c j same))
            ],
      )

      -- Where the cluster of `x` has no element after it.
      abbrev pub IsDone : Type 0
      IsDone = (j : ℕ) → j < C.universe → e < j → C.f_has_element (tree c) j ≡ false

      -- There is none in the clusters where no later one has an element.
      pub none_later :
          IsDone
          → ((d : ℕ) → d < S.universe → c < d → S.f_has_element nd.summary d ≡ false)
          → (j : ℕ) → j < universe S C
          → x < j
          → held j ≡ false
      none_later done off j b a = elim (after_x j a) [
        | inl more ↦
            none-lt S C VS VC ls lc nd.subtrees nd.summary k j b
              (off (j / C.universe) (cluster-lt S.universe C.universe up j b) more)
        | inr (same, right) ↦
            held_at S C VS VC ls lc nd k c j same
            ∙ done (j % C.universe) (element-lt S.universe C.universe up j) right
      ]

      -- The least element of the next cluster.
      pub later-SomeNext :
          IsDone
          → (d m : ℕ) → SomeNext S.universe (S.f_has_element nd.summary) c d
          → MinOf C.universe (C.f_has_element (tree d)) (some m)
          → SomeNext (universe S C) held x (d * C.universe + m)
      later-SomeNext done d m (l, dl, at, between) (ml, on, low) =
          let inside = index-lt S.universe C.universe up d m dl ml in
          (
            index_below S.universe C.universe up d m x l,
            inside,
            member-index S C VS VC ls lc nd k d m ml ∙ on,
            λ j a b. elim (after_x j a) [
              | inr (same, right) ↦
                  held_at S C VS VC ls lc nd k c j same
                  ∙ done (j % C.universe) (element-lt S.universe C.universe up j) right
              | inl more ↦ elim (dec_lt (j / C.universe) d) [
                | yes less ↦
                    none-lt S C VS VC ls lc nd.subtrees nd.summary k j (omega (arith, inside))
                      (between (j / C.universe) more less)
                | no n ↦
                    let same : j / C.universe ≡ d =
                      omega (arith, cluster-le_index S.universe C.universe up d m j ml b) in
                    held_at S C VS VC ls lc nd k d j same
                    ∙ ground (
                      arith,
                      low (j % C.universe) (element-lt S.universe C.universe up j),
                      index_same S.universe C.universe up d j same,
                    )
              ]
            ],
          )

      in_same :
          (m : ℕ)
          → MaxOf C.universe (C.f_has_element (tree c)) (some m)
          → e < m
          → (y : ℕ) × (C.n_successor (tree c) e ≡ some y)
            × NextOf (universe S C) held x (c * C.universe + y)
      in_same m (ml, on, high) below =
          let (y, q, next) =
            lc.n_successor-NextOf (tree c) e (k.each c c-lt)
              (element-lt S.universe C.universe up x) in
          (
            y,
            q,
            elim next [
              | inl (z, off) ↦ absurd (cc (on, off m ml below))
              | inr found ↦ inr (here-SomeNext y found)
            ],
          )

      in_next :
          IsDone → (y : ℕ) × (successor_after S C nd c ≡ some y) × NextOf (universe S C) held x y
      unfolding successor_after
      in_next done =
          let (d, q, next) = ls.n_successor-NextOf nd.summary c k.whole c-lt in
          elim next [
            | inl (z, off) ↦
                let zero_d : (d == 0) ≡ true = ground arith in
                (0, rw (q, zero_d) refl, inl (refl, none_later done off))
            | inr found ↦
                let (m, r, min) =
                  n_min_some C VC lc (tree d) (k.each d found.1)
                    (sym (k.summarised d found.1) ∙ found.2) in
                let some_d : (d == 0) ≡ false = ground (arith, found.0) in
                (
                  d * C.universe + m,
                  rw (q, some_d, r) refl,
                  inr (later-SomeNext done d m found min),
                )
          ]

      abbrev here : Option ℕ → Bool
      here = holds (ltb e)

      pub in_clusters-NextOf :
          (y : ℕ) × ((if here (C.n_max (tree c))
              then C.n_successor (tree c) e >>= (λ z. some (c * C.universe + z))
              else successor_after S C nd c)
            ≡ some y)
          × NextOf (universe S C) held x y
      in_clusters-NextOf = by_max (C.n_max (tree c)) refl (lc.n_max-MaxOf (tree c) (k.each c c-lt))
        where
          by_max :
              (o : Option ℕ)
              → C.n_max (tree c) ≡ o
              → MaxOf C.universe (C.f_has_element (tree c)) o
              → (y : ℕ) × ((if here o
                    then C.n_successor (tree c) e >>= (λ z. some (c * C.universe + z))
                    else successor_after S C nd c)
                  ≡ some y)
                × NextOf (universe S C) held x y
          by_max none q off = in_next (λ j l a. off j l)
          by_max (some m) q max = elim (Bool-cases (ltb e m)) [
            | inl below ↦
                let (y, r, next) = in_same m max (ground arith) in
                (c * C.universe + y, rw (below, r) refl, next)
            | inr past ↦ rw past (in_next (λ j l a. ground (arith, max.2 j l)))
          ]
