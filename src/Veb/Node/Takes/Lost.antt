-- ===== src/Veb/Node/Takes/Lost.antt =====
-- A cluster that has lost an element which a search has found in it.
use native.Mathlib.Decide.{dec_lt, ℕ_discrete}
use bienutil.Base.{
  ℕ, ◌+◌, ◌-◌, ◌*◌, ◌/◌, ◌%◌, ◌≤◌, ◌<◌, ◌≡◌, inl, inr, refl, sym, ap, ◌∙◌, arith, Bool, true, false,
  not, some, List, ◌==◌, set, Bool-cases,
}
use bienutil.Veb.{VebTree, IsLawful, Writes, MinOf, MaxOf}
use bienutil.Veb.Index.{element-lt, cluster_mono, index_below, index_same, index-lt}
use bienutil.Veb.Node.{Node, universe, least, subtree}
use bienutil.Veb.Node.Clusters.{IsClusters, in_clusters, any-true, any-none, none-lt}
use bienutil.Veb.Node.Extremes.{n_max_some, n_min_some, member-index, held_at}
use bienutil.Veb.Node.Settle.{
  IsLosing, Settled, c-lt, same_summary, emptied, ends, still, kept, in_left,
}
use bienutil.Veb.Node.Takes.{drop_cluster, left_without}

module _ (S C : VebTree) (VS : S.State → Type 0) (VC : C.State → Type 0) (ls : IsLawful S VS)
    (lc : IsLawful C VC) (nd : Node S C) (k : IsClusters S C VS VC nd.subtrees nd.summary) (x : ℕ)
    (losing : IsLosing (universe S C) (in_clusters S C nd.subtrees) (least S C nd) nd.max x)
    (t : C.State)
    (w : Writes C VC (subtree S C nd.subtrees (x / C.universe)) (x % C.universe) false t) where
  abbrev cl : ℕ
  cl = x / C.universe

  abbrev el : ℕ
  el = x % C.universe

  abbrev old : C.State
  old = subtree S C nd.subtrees cl

  abbrev rest : List C.State
  rest = set nd.subtrees cl t

  abbrev IsSettled : Node S C → Type 0
  IsSettled = Settled S C VS VC ls lc nd k x losing t w

  el-lt : el < C.universe
  el-lt = element-lt S.universe C.universe lc.inhabited x

  -- The cluster is left empty exactly where its least and greatest elements were the same.
  module _ (low high : ℕ) (min : MinOf C.universe (C.f_has_element old) (some low))
      (max : MaxOf C.universe (C.f_has_element old) (some high)) where
    pub single_lem : (low == high) ≡ not (C.f_has_any_elements t)
    single_lem = elim (ℕ_discrete low high) [
      | yes e ↦ elim (Bool-cases (C.f_has_any_elements t)) [
        | inr bare ↦ ground (arith, bare)
        | inl any ↦
            let (m, q, (ml, on, lowest)) = n_min_some C VC lc t w.0 any in
            absurd (
              ground (
                arith,
                w.1 m ml,
                on,
                min.2 m ml,
                max.2 m ml,
                min.2 el el-lt,
                max.2 el el-lt,
                losing.3,
              ))
      ]
      | no n ↦
          let any : C.f_has_any_elements t ≡ true = elim (ℕ_discrete low el) [
            | yes a ↦ any-true C VC lc t w.0 high max.0 (w.1 high max.0 ∙ ground (arith, max.1))
            | no b ↦ any-true C VC lc t w.0 low min.0 (w.1 low min.0 ∙ ground (arith, min.1))
          ] in
          ground (arith, any)
    ]

  -- The element's cluster is the last that has elements, where the element was the greatest.
  in_earlier :
      (bare : C.f_has_any_elements t ≡ false)
      → (x == nd.max) ≡ true
      → (j : ℕ) → j < universe S C
      → in_clusters S C rest j ≡ true
      → j / C.universe < cl
  in_earlier bare last j l on =
      let up = lc.inhabited in
      let was : j ≤ x = ground (arith, kept S C VS VC ls lc nd k x losing t w j l, losing.5 j l) in
      elim (ℕ_discrete (j / C.universe) cl) [
        | yes e ↦ absurd (
            cc (
              on,
              in_left S C VS VC ls lc nd k x losing t w j e,
              any-none C VC lc t w.0 bare (j % C.universe) (element-lt S.universe C.universe up j),
            ))
        | no n ↦ omega (arith, cluster_mono S.universe C.universe up j x was)
      ]

  pub drop_cluster-Settled :
      C.f_has_any_elements t ≡ false
      → (e : ℕ) → cl * C.universe + e ≡ x
      → (r : Node S C) × (drop_cluster S C (record nd { subtrees = rest }) cl e ≡ some r)
        × IsSettled r
  unfolding drop_cluster
  drop_cluster-Settled bare e is_x =
      let up = lc.inhabited in
      let (s, q, good) = emptied S C VS VC ls lc nd k x losing t w bare in
      let without : Node S C = record nd { subtrees = rest; summary = s } in
      let keeps = kept S C VS VC ls lc nd k x losing t w in
      let done = ends S C VS VC ls lc nd k x losing t w in
      let clt = c-lt S C VS VC ls lc nd k x losing t w in
      elim (Bool-cases (x == nd.max)) [
        | inr other ↦
            let apart : (cl * C.universe + e == nd.max) ≡ false = ground (arith, is_x) in
            (
              without,
              rw (q, apart) refl,
              (good, done nd.max (still S C VS VC ls lc nd k x losing t w other), refl, keeps),
            )
        | inl last ↦
            let same : (cl * C.universe + e == nd.max) ≡ true = ground (arith, is_x) in
            let (p, z, prev) = ls.n_predecessor-PreviousOf s cl good.whole clt in
            elim prev [
              | inl (last_p, off) ↦
                  let is_last : (p == S.universe - 1) ≡ true = ground arith in
                  (
                    record without { max = least S C nd },
                    rw (q, same, z, is_last) refl,
                    (
                      good,
                      done (least S C nd) (
                          inr (
                            refl,
                            λ j l. elim (Bool-cases (in_clusters S C rest j)) [
                              | inl on ↦ cc (
                                  none-lt S C VS VC ls lc rest s good j l
                                    (off (j / C.universe) (in_earlier bare last j l on)))
                              | inr out ↦ out
                            ],
                          )),
                      refl,
                      keeps,
                    ),
                  )
              | inr (before, has, between) ↦
                  let pl : p < S.universe = omega (arith, clt) in
                  let is_inner : (p == S.universe - 1) ≡ false = ground (arith, clt) in
                  let (m, y, (ml, on, most)) =
                    n_max_some C VC lc (subtree S C rest p) (good.each p pl)
                      (sym (good.summarised p pl) ∙ has) in
                  (
                    record without { max = p * C.universe + m },
                    rw (q, same, z, is_inner, y) refl,
                    (
                      good,
                      done (p * C.universe + m) (
                          inl (
                            index-lt S.universe C.universe up p m pl ml,
                            member-index S C VS VC ls lc without good p m ml ∙ on,
                            λ j l i.
                                let less = in_earlier bare last j l i in
                                elim (dec_lt p (j / C.universe)) [
                                  | yes over ↦ absurd (
                                      cc (
                                        i,
                                        none-lt S C VS VC ls lc rest s good j l
                                            (between (j / C.universe) over less),
                                      ))
                                  | no a ↦ elim (dec_lt (j / C.universe) p) [
                                    | yes under ↦
                                        omega
                                          (arith, index_below S.universe C.universe up p m j under)
                                    | no b ↦
                                        let there : j / C.universe ≡ p = omega arith in
                                        omega (
                                          arith,
                                          index_same S.universe C.universe up p j there,
                                          most (j % C.universe)
                                              (element-lt S.universe C.universe up j)
                                              (sym (held_at S C VS VC ls lc without good p j there)
                                                ∙ i),
                                        )
                                  ]
                                ],
                          )),
                      refl,
                      keeps,
                    ),
                  )
            ]
      ]

  -- The end of `NPredecessorDelete`: the element was not the greatest.
  pub left_without-Settled :
      (single : Bool)
      → single ≡ not (C.f_has_any_elements t)
      → (x == nd.max) ≡ false
      → (r : Node S C) × (left_without S C nd cl t single ≡ some r) × IsSettled r
  unfolding left_without
  left_without-Settled single e other =
      let keeps = kept S C VS VC ls lc nd k x losing t w in
      let full =
        ends S C VS VC ls lc nd k x losing t w nd.max
          (still S C VS VC ls lc nd k x losing t w other) in
      elim (Bool-cases (C.f_has_any_elements t)) [
        | inl any ↦
            let several : single ≡ false = e ∙ ap not any in
            (
              record nd { subtrees = rest },
              rw several refl,
              (same_summary S C VS VC ls lc nd k x losing t w any, full, refl, keeps),
            )
        | inr bare ↦
            let only : single ≡ true = e ∙ ap not bare in
            let (s, q, good) = emptied S C VS VC ls lc nd k x losing t w bare in
            (
              record nd { subtrees = rest; summary = s },
              rw (only, q) refl,
              (good, full, refl, keeps),
            )
      ]
