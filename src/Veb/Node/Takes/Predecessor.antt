-- ===== src/Veb/Node/Takes/Predecessor.antt =====
-- `NPredecessorDelete`.
use bienutil.Base.{
  ℕ, ◌+◌, ◌-◌, ◌*◌, ◌/◌, ◌%◌, ◌^◌, ◌≤◌, ◌<◌, ◌≡◌, ◌⊎◌, inl, inr, refl, sym, ◌∙◌, arith, Bool, true,
  false, Option, none, some, ◌==◌, if◌then◌else◌, ltb, Bool-cases,
}
use bienutil.Veb.{VebTree, IsLawful, MinOf, NoPrevious, SomePrevious}
use bienutil.Veb.Index.{cluster-lt, element-lt}
use bienutil.Veb.Node.{Node, universe, least, subtree, f_has_element}
use bienutil.Veb.Node.Clusters.{in_clusters}
use bienutil.Veb.Node.Extremes.{n_min_some, n_max_some}
use bienutil.Veb.Node.Valid.{
  IsFull, IsValid, Rewrites, any-bare, any-full, element-bare, element-full,
}
use bienutil.Veb.Node.Delete.{delete-Rewrites}
use bienutil.Veb.Node.Searches.{holds}
use bienutil.Veb.Node.Searches.Previous.{
  IsDone, here-SomePrevious, none_earlier, earlier-SomePrevious,
}
use bienutil.Veb.Node.Takes.{take_predecessor_here, take_predecessor_before, n_predecessor_delete}
use bienutil.Veb.Node.Takes.Cluster.{left_without-Rewrites}
use bienutil.Veb.Node.Clusters.{any-true}

module _ (S C : VebTree) (VS : S.State → Type 0) (VC : C.State → Type 0) (ls : IsLawful S VS)
    (lc : IsLawful C VC) (small : universe S C ≤ 2 ^ 64) (nd : Node S C) (x : ℕ)
    (valid : IsValid S C VS VC nd) (h : x < universe S C) where
  abbrev has : ℕ → Bool
  has = f_has_element S C nd

  abbrev pub Taken : Option (ℕ × Node S C) → Type 0
  Taken o =
      (y : ℕ) × (r : Node S C) × (o ≡ some (y, r))
      × ((NoPrevious (universe S C) has x y × (r ≡ nd))
          ⊎ (SomePrevious has x y × Rewrites S C VS VC nd y false r))

  abbrev c : ℕ
  c = x / C.universe

  abbrev e : ℕ
  e = x % C.universe

  c-lt : c < S.universe
  c-lt = cluster-lt S.universe C.universe lc.inhabited x h

  e-lt : e < C.universe
  e-lt = element-lt S.universe C.universe lc.inhabited x

  abbrev tree : ℕ → C.State
  tree = subtree S C nd.subtrees

  module _ (full : IsFull S C nd) (under : x ≤ nd.max) where
    lifted : (y : ℕ) → SomePrevious (in_clusters S C nd.subtrees) x y → SomePrevious has x y
    lifted y (l, on, between) = (
      l,
      element-full S C small nd full y (omega (arith, h)) ∙ ground (arith, on),
      λ j a b.
          element-full S C small nd full j (omega (arith, h))
          ∙ ground (arith, between j a b, full.0.2 y (omega (arith, h)) on),
    )

    taken_least :
        least S C nd < x
        → ((j : ℕ) → j < x → in_clusters S C nd.subtrees j ≡ false)
        → SomePrevious has x (least S C nd)
    taken_least l off = (
      l,
      element-full S C small nd full (least S C nd) (omega (arith, h)) ∙ ground arith,
      λ j a b. element-full S C small nd full j (omega (arith, h)) ∙ ground (arith, off j b),
    )

    here_Taken :
        (m : ℕ)
        → MinOf C.universe (C.f_has_element (tree c)) (some m)
        → m < e
        → Taken (take_predecessor_here S C nd c e)
    unfolding take_predecessor_here
    here_Taken m (ml, on, lowest) above =
        let k = valid.clusters in
        let any = any-true C VC lc (tree c) (k.each c c-lt) m ml on in
        let (low, ql, min) = n_min_some C VC lc (tree c) (k.each c c-lt) any in
        let (high, qh, max) = n_max_some C VC lc (tree c) (k.each c c-lt) any in
        let (y, t, q, found) = lc.n_predecessor_delete-Takes (tree c) e (k.each c c-lt) e-lt in
        elim found [
          | inl ((z, off), same) ↦ absurd (cc (on, off m above))
          | inr (prev, w) ↦
              let yl : y < C.universe = omega (arith, e-lt, prev.0) in
              let p = here-SomePrevious S C VS VC ls lc nd k x h y prev in
              let other : (c * C.universe + y == nd.max) ≡ false = ground (arith, p.0) in
              let (r, e2, s) =
                left_without-Rewrites S C VS VC ls lc small nd valid full c y c-lt yl low high min
                  max prev.1 t w other in
              (
                c * C.universe + y,
                r,
                rw (ql, qh, q, e2) refl,
                inr (lifted (c * C.universe + y) p, s),
              )
        ]

    before_Taken :
        IsDone S C VS VC ls lc nd valid.clusters x h → Taken (take_predecessor_before S C nd x)
    unfolding take_predecessor_before
    before_Taken done =
        let k = valid.clusters in
        let (d, q, prev) = ls.n_predecessor-PreviousOf nd.summary c k.whole c-lt in
        elim prev [
          | inl (z, off) ↦
              let last_d : (d == S.universe - 1) ≡ true = ground arith in
              let empty_before = none_earlier S C VS VC ls lc nd k x h done off in
              elim (Bool-cases (ltb (least S C nd) x)) [
                | inl over ↦
                    let p = taken_least (ground arith) empty_before in
                    let (r, e2, s) =
                      delete-Rewrites S C VS VC ls lc small nd (least S C nd) valid
                        (omega (arith, p.0, h)) p.1 in
                    (least S C nd, r, rw (q, last_d, over, e2) refl, inr (p, s))
                | inr not_over ↦ (
                  universe S C - 1,
                  nd,
                  rw (q, last_d, not_over) refl,
                  inl (
                    (
                      refl,
                      λ j l.
                          element-full S C small nd full j (omega (arith, h))
                          ∙ ground (arith, empty_before j l),
                    ),
                    refl,
                  ),
                )
              ]
          | inr found ↦
              let dl : d < S.universe = omega (arith, c-lt, found.0) in
              let inner_d : (d == S.universe - 1) ≡ false = ground (arith, c-lt, found.0) in
              let any = sym (k.summarised d dl) ∙ found.1 in
              let (low, ql, min) = n_min_some C VC lc (tree d) (k.each d dl) any in
              let (high, qh, max) = n_max_some C VC lc (tree d) (k.each d dl) any in
              let (t, qt, w) = lc.delete-Writes (tree d) high (k.each d dl) max.0 max.1 in
              let p = earlier-SomePrevious S C VS VC ls lc nd k x h done d high found max in
              let other : (d * C.universe + high == nd.max) ≡ false = ground (arith, p.0) in
              let (r, e2, s) =
                left_without-Rewrites S C VS VC ls lc small nd valid full d high dl max.0 low high
                  min max max.1 t w other in
              (
                d * C.universe + high,
                r,
                rw (q, inner_d, ql, qh, qt, e2) refl,
                inr (lifted (d * C.universe + high) p, s),
              )
        ]

    clusters_Taken : Taken (
        if holds (λ m. ltb m e) (C.n_min (tree c))
        then take_predecessor_here S C nd c e
        else take_predecessor_before S C nd x)
    clusters_Taken =
        by_min (C.n_min (tree c)) (lc.n_min-MinOf (tree c) (valid.clusters.each c c-lt))
      where
        by_min :
            (o : Option ℕ)
            → MinOf C.universe (C.f_has_element (tree c)) o
            → Taken (
                if holds (λ m. ltb m e) o
                then take_predecessor_here S C nd c e
                else take_predecessor_before S C nd x)
        by_min none off = before_Taken (λ j l a. off j l)
        by_min (some m) min = elim (Bool-cases (ltb m e)) [
          | inl above ↦ rw above (here_Taken m min (ground arith))
          | inr past ↦ rw past (before_Taken (λ j l a. ground (arith, min.2 j l)))
        ]

  -- `NPredecessorDelete` finds what `NPredecessor` does, deletes it and nothing else, and keeps the
  -- invariant; it changes nothing where there is none.
  pub n_predecessor_delete-Taken : Taken (n_predecessor_delete S C nd x)
  unfolding n_predecessor_delete
  n_predecessor_delete-Taken = elim valid.bounds [
    | inl bare ↦ (
      universe S C - 1,
      nd,
      rw (any-bare S C small nd bare) refl,
      inl ((refl, λ j l. element-bare S C small nd bare j), refl),
    )
    | inr full ↦
        let all = any-full S C small nd full in
        elim (Bool-cases (ltb nd.max x)) [
          | inl above ↦
              let on = element-full S C small nd full nd.max full.0.1 ∙ ground (arith, full.1) in
              let (r, q, s) = delete-Rewrites S C VS VC ls lc small nd nd.max valid full.0.1 on in
              (
                nd.max,
                r,
                rw (all, above, q) refl,
                inr (
                  (
                    ground arith,
                    on,
                    λ j a b.
                        element-full S C small nd full j (omega (arith, h))
                        ∙ ground (arith, full.0.0, full.0.2 j (omega (arith, h))),
                  ),
                  s,
                ),
              )
          | inr under ↦ rw (all, under) (clusters_Taken full (ground arith))
        ]
  ]
