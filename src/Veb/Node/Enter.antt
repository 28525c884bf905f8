-- ===== src/Veb/Node/Enter.antt =====
-- The end of an insertion: the summary, the cluster and the greatest element.
use bienutil.Base.{
  ℕ, ◌/◌, ◌%◌, ◌^◌, ◌≤◌, ◌<◌, ◌≡◌, ◌⊎◌, inl, inr, refl, sym, ap, ◌∙◌, arith, Bool, true, false, not,
  ◌||◌, some, ◌==◌, if◌then◌else◌, ltb,
}
use bienutil.Veb.{VebTree, IsLawful, Writes}
use bienutil.Veb.Index.{cluster-lt, element-lt}
use bienutil.Veb.Node.{
  Node, minus_one, universe, least, set_min, set_max, subtree, put, insert_in_cluster,
  check_insert_in_cluster,
}
use bienutil.Veb.Node.Clusters.{IsClusters, in_clusters, in_clusters-set, set-IsClusters, any-true}
use bienutil.Veb.Node.Valid.{
  Spans, Ends, Rewrites, IsFull, IsBare, minus_one-plus_one, element-bare, element-full,
}

-- A new element above the least one.
grown :
    (u : ℕ) (f g : ℕ → Bool) (low high x : ℕ)
    → Spans u f low high
    → (high ≤ x) ⊎ (f high ≡ true)
    → low < x
    → x < u
    → ((j : ℕ) → j < u → g j ≡ (if x == j then true else f j))
    → Ends u g low (if ltb high x then x else high)
grown u f g low high x (le, lt, within) last l h ins =
    let top : ℕ = if ltb high x then x else high in
    (
      (ground arith, ground arith, λ j k i. ground (arith, within j k, ins j k)),
      inr (ins top (ground arith) ∙ ground (arith, last)),
    )

module _ (S C : VebTree) (VS : S.State → Type 0) (VC : C.State → Type 0) (ls : IsLawful S VS)
    (lc : IsLawful C VC) (small : universe S C ≤ 2 ^ 64) where
  -- A node in which `x` is being put into its cluster.
  abbrev pub IsReady : Node S C → ℕ → Type 0
  IsReady nd x =
      IsClusters S C VS VC nd.subtrees nd.summary
      × Spans (universe S C) (in_clusters S C nd.subtrees) (least S C nd) nd.max
      × ((nd.max ≤ x) ⊎ (in_clusters S C nd.subtrees nd.max ≡ true))

  abbrev pub Enters : Node S C → ℕ → Node S C → Type 0
  Enters nd x r =
      IsClusters S C VS VC r.subtrees r.summary
      × IsFull S C r
      × (r.min_plus_one ≡ nd.min_plus_one)
      × ((j : ℕ)
          → j < universe S C
          → in_clusters S C r.subtrees j ≡ (if x == j then true else in_clusters S C nd.subtrees j))

  module _ (nd : Node S C) (x : ℕ) (h : x < universe S C) (above : least S C nd < x)
      (ready : IsReady nd x) where
    c-lt : x / C.universe < S.universe
    c-lt = cluster-lt S.universe C.universe lc.inhabited x h

    e-lt : x % C.universe < C.universe
    e-lt = element-lt S.universe C.universe lc.inhabited x

    put-Enters :
        (s : S.State) (t : C.State)
        → Writes S VS nd.summary (x / C.universe) true s
        → Writes C VC (subtree S C nd.subtrees (x / C.universe)) (x % C.universe) true t
        → Enters nd x (put S C nd x s t)
    put-Enters s t ws wt =
        let on : C.f_has_element t (x % C.universe) ≡ true =
          wt.1 (x % C.universe) e-lt ∙ ground arith in
        let any = any-true C VC lc t wt.0 (x % C.universe) e-lt on in
        let ins = in_clusters-set S C VS VC ls lc nd.subtrees nd.summary ready.0 x h true t wt in
        (
          set-IsClusters S C VS VC ls lc nd.subtrees nd.summary ready.0 x h true t wt s ws.0
              (λ d l. ws.1 d l ∙ ground (arith, any)),
          grown (universe S C) (in_clusters S C nd.subtrees) _ (least S C nd) nd.max x ready.1
              ready.2 above h ins,
          refl,
          ins,
        )

    pub insert_in_cluster-Enters :
        in_clusters S C nd.subtrees x ≡ false
        → (r : Node S C) × (insert_in_cluster S C nd x ≡ some r) × Enters nd x r
    unfolding insert_in_cluster
    insert_in_cluster-Enters off =
        let (s, es, ws) =
          ls.f_check_insert-Reports nd.summary (x / C.universe) ready.0.whole c-lt in
        let (t, et, wt) =
          lc.insert-Writes (subtree S C nd.subtrees (x / C.universe)) (x % C.universe)
            (ready.0.each _ c-lt) e-lt off in
        (put S C nd x s t, rw (es, et) refl, put-Enters s t ws wt)

    pub check_insert_in_cluster-Enters :
        (r : Node S C) × (check_insert_in_cluster S C nd x
          ≡ some (not (in_clusters S C nd.subtrees x), r))
        × Enters nd x r
    unfolding check_insert_in_cluster
    check_insert_in_cluster-Enters =
        let (s, es, ws) =
          ls.f_check_insert-Reports nd.summary (x / C.universe) ready.0.whole c-lt in
        let (t, et, wt) =
          lc.f_check_insert-Reports (subtree S C nd.subtrees (x / C.universe)) (x % C.universe)
            (ready.0.each _ c-lt) e-lt in
        (put S C nd x s t, rw (es, et) refl, put-Enters s t ws wt)

  pub entered-Rewrites :
      (nd md r : Node S C) (x y : ℕ)
      → IsFull S C nd
      → Enters md y r
      → md.subtrees ≡ nd.subtrees
      → ((j : ℕ)
          → j < universe S C
          → (least S C md == j || (y == j || in_clusters S C nd.subtrees j))
            ≡ (x == j || (least S C nd == j || in_clusters S C nd.subtrees j)))
      → Rewrites S C VS VC nd x true r
  entered-Rewrites nd md r x y full (k, f, m, ins) same swap = (
    record { clusters = k; bounds = inr f },
    λ j h.
        element-full S C small r f j h
        ∙ ground (
          arith,
          ins j h,
          swap j h,
          element-full S C small nd full j h,
          ap (λ ts. in_clusters S C ts j) same,
          ap (minus_one (universe S C)) m,
        ),
  )

  -- The first element of a tree.
  pub alone-Rewrites :
      (nd : Node S C) (x : ℕ)
      → IsClusters S C VS VC nd.subtrees nd.summary
      → IsBare S C nd
      → x < universe S C
      → Rewrites S C VS VC nd x true (set_max S C (set_min S C nd x) x)
  alone-Rewrites nd x k bare h = (
    record { clusters = k; bounds = inr full },
    λ j l.
        element-full S C small r full j l
        ∙ ground (arith, at, bare.2 j l, element-bare S C small nd bare j),
  )
    where
      r : Node S C
      r = set_max S C (set_min S C nd x) x

      at : least S C r ≡ x
      at = minus_one-plus_one (universe S C) x small h

      full : IsFull S C r
      full = ((ground (arith, at), h, λ j l i. ground (arith, bare.2 j l)), inl (sym at))
