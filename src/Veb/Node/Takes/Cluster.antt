-- ===== src/Veb/Node/Takes/Cluster.antt =====
-- The deletion of an element that a search has found in a cluster.
use mathlib.Core.Path.{subst}
use native.Mathlib.Decide.{ℕ_discrete}
use bienutil.Base.{
  ℕ, ◌+◌, ◌*◌, ◌/◌, ◌%◌, ◌^◌, ◌≤◌, ◌<◌, ◌≡◌, inl, inr, refl, sym, ap, ◌∙◌, arith, true, false, not,
  some, ◌==◌, set, Bool-cases, ◌≢◌,
}
use bienutil.Veb.{VebTree, IsLawful, Writes, MinOf, MaxOf}
use bienutil.Veb.Index.{cluster-index, element-index, index-lt}
use bienutil.Veb.Node.{Node, universe, least, subtree}
use bienutil.Veb.Node.Clusters.{in_clusters}
use bienutil.Veb.Node.Extremes.{member-index}
use bienutil.Veb.Node.Settle.{IsLosing, Settled, ends, still, cluster-IsTop, kept, same_summary}
use bienutil.Veb.Node.Valid.{IsFull, IsValid, Rewrites}
use bienutil.Veb.Node.Delete.{IsLosing-held, left-Rewrites}
use bienutil.Veb.Node.Takes.{drop_cluster, left_without, lost_here, lost_after}
use bienutil.Veb.Node.Takes.Lost.{single_lem, drop_cluster-Settled, left_without-Settled}

module _ (S C : VebTree) (VS : S.State → Type 0) (VC : C.State → Type 0) (ls : IsLawful S VS)
    (lc : IsLawful C VC) (small : universe S C ≤ 2 ^ 64) (nd : Node S C)
    (valid : IsValid S C VS VC nd) (full : IsFull S C nd) (c e : ℕ) (cl : c < S.universe)
    (el : e < C.universe) (low high : ℕ)
    (min : MinOf C.universe (C.f_has_element (subtree S C nd.subtrees c)) (some low))
    (max : MaxOf C.universe (C.f_has_element (subtree S C nd.subtrees c)) (some high))
    (on : C.f_has_element (subtree S C nd.subtrees c) e ≡ true) (t : C.State)
    (w : Writes C VC (subtree S C nd.subtrees c) e false t) where
  abbrev z : ℕ
  z = c * C.universe + e

  at : z / C.universe ≡ c
  at = cluster-index S.universe C.universe lc.inhabited c e el

  z-lt : z < universe S C
  z-lt = index-lt S.universe C.universe lc.inhabited c e cl el

  held_z : in_clusters S C nd.subtrees z ≡ true
  held_z = member-index S C VS VC ls lc nd valid.clusters c e el ∙ on

  losing : IsLosing (universe S C) (in_clusters S C nd.subtrees) (least S C nd) nd.max z
  losing = IsLosing-held S C VS VC ls lc small nd valid full z z-lt held_z

  w_at : Writes C VC (subtree S C nd.subtrees (z / C.universe)) (z % C.universe) false t
  w_at = rw (at, element-index S.universe C.universe lc.inhabited c e el) w

  single : (low == high) ≡ not (C.f_has_any_elements t)
  single =
      single_lem S C VS VC ls lc nd valid.clusters z losing t w_at low high (rw at min) (rw at max)

  rewrites :
      (r : Node S C)
      → Settled S C VS VC ls lc nd valid.clusters z losing t w_at r
      → Rewrites S C VS VC nd z false r
  rewrites = left-Rewrites S C VS VC ls lc small nd valid full z z-lt held_z

  pub left_without-Rewrites :
      (z == nd.max) ≡ false
      → (r : Node S C) × (left_without S C nd c t (low == high) ≡ some r)
        × Rewrites S C VS VC nd z false r
  left_without-Rewrites other =
      let (r, q, s) =
        left_without-Settled S C VS VC ls lc nd valid.clusters z losing t w_at (low == high) single
          other in
      (r, ap (λ d. left_without S C nd d t (low == high)) (sym at) ∙ q, rewrites r s)

  -- A cluster with one element.
  dropped :
      low ≡ high
      → (r : Node S C) × (drop_cluster S C (record nd { subtrees = set nd.subtrees c t }) c high
          ≡ some r)
        × Rewrites S C VS VC nd z false r
  dropped same =
      let bare : C.f_has_any_elements t ≡ false = ground (arith, single, same) in
      let only : high ≡ e = omega (arith, min.2 e el on, max.2 e el on, same) in
      let is_z : z / C.universe * C.universe + high ≡ z =
        omega (arith, ap (λ (d : ℕ). d * C.universe) at, only) in
      let (r, q, s) =
        drop_cluster-Settled S C VS VC ls lc nd valid.clusters z losing t w_at bare high is_z in
      (
        r,
        ap (λ d. drop_cluster S C (record nd { subtrees = set nd.subtrees d t }) d high) (sym at)
            ∙ q,
        rewrites r s,
      )

  several : low ≢ high → C.f_has_any_elements t ≡ true
  several n = ground (arith, single, n)

  stays :
      low ≢ high
      → (z == nd.max) ≡ false
      → Rewrites S C VS VC nd z false (record nd { subtrees = set nd.subtrees c t })
  stays n other =
      let d = record nd { subtrees = set nd.subtrees (z / C.universe) t } in
      let there : Rewrites S C VS VC nd z false d = rewrites d (
        same_summary S C VS VC ls lc nd valid.clusters z losing t w_at (several n),
        ends S C VS VC ls lc nd valid.clusters z losing t w_at nd.max
            (still S C VS VC ls lc nd valid.clusters z losing t w_at other),
        refl,
        kept S C VS VC ls lc nd valid.clusters z losing t w_at,
      ) in
      subst (λ i. Rewrites S C VS VC nd z false (record nd { subtrees = set nd.subtrees i t })) at
        there

  pub lost_after-Rewrites :
      e ≡ low
      → (r : Node S C) × (lost_after S C nd c t (low, high) ≡ some r)
        × Rewrites S C VS VC nd z false r
  unfolding lost_after
  lost_after-Rewrites first = elim (ℕ_discrete low high) [
    | yes same ↦
        let (r, q, s) = dropped same in
        let one : (low == high) ≡ true = ground arith in (r, rw one q, s)
    | no n ↦
        let more : (low == high) ≡ false = ground arith in
        let top =
          full.0.2 (c * C.universe + high)
            (index-lt S.universe C.universe lc.inhabited c high cl max.0)
            (member-index S C VS VC ls lc nd valid.clusters c high max.0 ∙ max.1) in
        let other : (z == nd.max) ≡ false = ground (arith, top, max.2 e el on, first, n) in
        (record nd { subtrees = set nd.subtrees c t }, rw more refl, stays n other)
  ]

  pub lost_here-Rewrites :
      (r : Node S C) × (lost_here S C nd c t (low, high) z ≡ some r)
      × Rewrites S C VS VC nd z false r
  unfolding lost_here
  lost_here-Rewrites = elim (ℕ_discrete low high) [
    | yes same ↦
        let (r, q, s) = dropped same in
        let one : (low == high) ≡ true = ground arith in (r, rw one q, s)
    | no n ↦
        let more : (low == high) ≡ false = ground arith in
        elim (Bool-cases (z == nd.max)) [
          | inr other ↦
              (record nd { subtrees = set nd.subtrees c t }, rw (more, other) refl, stays n other)
          | inl last ↦
              let k = valid.clusters in
              let (m, q, top) =
                cluster-IsTop S C VS VC ls lc nd k z losing t w_at (several n) last in
              let there =
                rewrites
                  (record nd {
                    max = z / C.universe * C.universe + m;
                    subtrees = set nd.subtrees (z / C.universe) t;
                  })
                  (
                    same_summary S C VS VC ls lc nd k z losing t w_at (several n),
                    ends S C VS VC ls lc nd k z losing t w_at (z / C.universe * C.universe + m) top,
                    refl,
                    kept S C VS VC ls lc nd k z losing t w_at,
                  ) in
              (
                record nd { max = c * C.universe + m; subtrees = set nd.subtrees c t },
                rw (more, last, q) refl,
                subst
                    (λ i.
                      Rewrites S C VS VC nd z false
                        (record nd { max = i * C.universe + m; subtrees = set nd.subtrees i t }))
                    at there,
              )
        ]
  ]
