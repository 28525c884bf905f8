-- ===== src/Veb/Node/Takes/Successor.antt =====
-- `NSuccessorDelete`.
use bienutil.Base.{
  ℕ, ◌+◌, ◌*◌, ◌/◌, ◌%◌, ◌^◌, ◌≤◌, ◌<◌, ◌≡◌, ◌⊎◌, inl, inr, refl, sym, ◌∙◌, arith, Bool, true,
  false, Option, none, some, ◌==◌, if◌then◌else◌, ltb, Bool-cases,
}
use bienutil.Veb.{VebTree, IsLawful, MaxOf, NoNext, SomeNext}
use bienutil.Veb.Index.{cluster-lt, element-lt}
use bienutil.Veb.Node.{Node, universe, least, subtree, f_has_element}
use bienutil.Veb.Node.Clusters.{in_clusters}
use bienutil.Veb.Node.Extremes.{n_min_some, n_max_some}
use bienutil.Veb.Node.Valid.{
  IsFull, IsValid, Rewrites, any-bare, any-full, element-bare, element-full,
}
use bienutil.Veb.Node.Delete.{delete-Rewrites}
use bienutil.Veb.Node.Searches.{holds}
use bienutil.Veb.Node.Searches.Next.{IsDone, here-SomeNext, none_later, later-SomeNext}
use bienutil.Veb.Node.Takes.{take_successor_here, take_successor_after, n_successor_delete}
use bienutil.Veb.Node.Takes.Cluster.{lost_here-Rewrites, lost_after-Rewrites}
use bienutil.Veb.Node.Clusters.{any-true}

module _ (S C : VebTree) (VS : S.State → Type 0) (VC : C.State → Type 0) (ls : IsLawful S VS)
    (lc : IsLawful C VC) (small : universe S C ≤ 2 ^ 64) (nd : Node S C) (x : ℕ)
    (valid : IsValid S C VS VC nd) (h : x < universe S C) where
  abbrev has : ℕ → Bool
  has = f_has_element S C nd

  abbrev pub Taken : Option (ℕ × Node S C) → Type 0
  Taken o =
      (y : ℕ) × (r : Node S C) × (o ≡ some (y, r))
      × ((NoNext (universe S C) has x y × (r ≡ nd))
          ⊎ (SomeNext (universe S C) has x y × Rewrites S C VS VC nd y false r))

  abbrev c : ℕ
  c = x / C.universe

  abbrev e : ℕ
  e = x % C.universe

  c-lt : c < S.universe
  c-lt = cluster-lt S.universe C.universe lc.inhabited x h

  e-lt : e < C.universe
  e-lt = element-lt S.universe C.universe lc.inhabited x

  abbrev tree : ℕ → C.State
  tree = subtree S C nd.subtrees

  module _ (full : IsFull S C nd) (above_least : least S C nd ≤ x) where
    lifted :
        (y : ℕ)
        → SomeNext (universe S C) (in_clusters S C nd.subtrees) x y
        → SomeNext (universe S C) has x y
    lifted y (l, yl, on, between) = (
      l,
      yl,
      element-full S C small nd full y yl ∙ ground (arith, on),
      λ j a b. element-full S C small nd full j (omega (arith, yl)) ∙ ground (arith, between j a b),
    )

    here_Taken :
        (m : ℕ)
        → MaxOf C.universe (C.f_has_element (tree c)) (some m)
        → e < m
        → Taken (take_successor_here S C false nd c e)
    unfolding take_successor_here
    here_Taken m (ml, on, highest) below =
        let k = valid.clusters in
        let any = any-true C VC lc (tree c) (k.each c c-lt) m ml on in
        let (low, ql, min) = n_min_some C VC lc (tree c) (k.each c c-lt) any in
        let (high, qh, max) = n_max_some C VC lc (tree c) (k.each c c-lt) any in
        let (y, t, q, found) = lc.n_successor_delete-Takes (tree c) e (k.each c c-lt) e-lt in
        elim found [
          | inl ((z, off), same) ↦ absurd (cc (on, off m ml below))
          | inr (next, w) ↦
              let p = here-SomeNext S C VS VC ls lc nd k x h y next in
              let (r, e2, s) =
                lost_here-Rewrites S C VS VC ls lc small nd valid full c y c-lt next.1 low high min
                  max next.2 t w in
              (
                c * C.universe + y,
                r,
                rw (ql, qh, q, e2) refl,
                inr (lifted (c * C.universe + y) p, s),
              )
        ]

    after_Taken :
        IsDone S C VS VC ls lc nd valid.clusters x h → Taken (take_successor_after S C nd c)
    unfolding take_successor_after
    after_Taken done =
        let k = valid.clusters in
        let (d, q, next) = ls.n_successor-NextOf nd.summary c k.whole c-lt in
        elim next [
          | inl (z, off) ↦
              let zero_d : (d == 0) ≡ true = ground arith in
              let empty_after = none_later S C VS VC ls lc nd k x h done off in
              (
                0,
                nd,
                rw (q, zero_d) refl,
                inl (
                  (
                    refl,
                    λ j l a. element-full S C small nd full j l ∙ ground (arith, empty_after j l a),
                  ),
                  refl,
                ),
              )
          | inr found ↦
              let dl = found.1 in
              let some_d : (d == 0) ≡ false = ground (arith, found.0) in
              let any = sym (k.summarised d dl) ∙ found.2 in
              let (low, ql, min) = n_min_some C VC lc (tree d) (k.each d dl) any in
              let (high, qh, max) = n_max_some C VC lc (tree d) (k.each d dl) any in
              let (t, qt, w) = lc.delete-Writes (tree d) low (k.each d dl) min.0 min.1 in
              let p = later-SomeNext S C VS VC ls lc nd k x h done d low found min in
              let (r, e2, s) =
                lost_after-Rewrites S C VS VC ls lc small nd valid full d low dl min.0 low high min
                  max min.1 t w refl in
              (
                d * C.universe + low,
                r,
                rw (q, some_d, ql, qh, qt, e2) refl,
                inr (lifted (d * C.universe + low) p, s),
              )
        ]

    clusters_Taken : Taken (
        if holds (ltb e) (C.n_max (tree c))
        then take_successor_here S C false nd c e
        else take_successor_after S C nd c)
    clusters_Taken =
        by_max (C.n_max (tree c)) (lc.n_max-MaxOf (tree c) (valid.clusters.each c c-lt))
      where
        by_max :
            (o : Option ℕ)
            → MaxOf C.universe (C.f_has_element (tree c)) o
            → Taken (
                if holds (ltb e) o
                then take_successor_here S C false nd c e
                else take_successor_after S C nd c)
        by_max none off = after_Taken (λ j l a. off j l)
        by_max (some m) max = elim (Bool-cases (ltb e m)) [
          | inl below ↦ rw below (here_Taken m max (ground arith))
          | inr past ↦ rw past (after_Taken (λ j l a. ground (arith, max.2 j l)))
        ]

  -- With assertions not tested, `NSuccessorDelete` finds what `NSuccessor` does, deletes it and nothing else, and keeps the
  -- invariant; it changes nothing where there is none.
  pub n_successor_delete-Taken : Taken (n_successor_delete S C false nd x)
  unfolding n_successor_delete
  n_successor_delete-Taken = elim valid.bounds [
    | inl bare ↦ (
      0,
      nd,
      rw (any-bare S C small nd bare) refl,
      inl ((refl, λ j l a. element-bare S C small nd bare j), refl),
    )
    | inr full ↦
        let all = any-full S C small nd full in
        elim (Bool-cases (ltb x (least S C nd))) [
          | inl below ↦
              let inside : least S C nd < universe S C = omega (arith, full.0.0, full.0.1) in
              let on = element-full S C small nd full (least S C nd) inside ∙ ground arith in
              let (r, q, s) =
                delete-Rewrites S C VS VC ls lc small nd (least S C nd) valid inside on in
              (
                least S C nd,
                r,
                rw (all, below, q) refl,
                inr (
                  (
                    ground arith,
                    inside,
                    on,
                    λ j a b.
                        element-full S C small nd full j (omega (arith, inside))
                        ∙ ground (arith, full.0.2 j (omega (arith, inside))),
                  ),
                  s,
                ),
              )
          | inr above ↦ rw (all, above) (clusters_Taken full (ground arith))
        ]
  ]
