-- ===== src/Veb/Node/CheckDelete.antt =====
-- `FCheckDelete`.
use mathlib.Core.Path.{subst}
use native.Mathlib.Decide.{ℕ_discrete}
use bienutil.Base.{
  ℕ, ◌/◌, ◌%◌, ◌^◌, ◌≤◌, ◌<◌, ◌≡◌, inl, inr, refl, sym, ap, ◌∙◌, arith, true, false, some, ◌==◌,
  set, Bool-cases, ◌≢◌,
}
use bienutil.Veb.{VebTree, IsLawful, Reports, IsTotal}
use bienutil.Veb.Index.{cluster-lt, element-lt}
use bienutil.Veb.Node.{
  Node, universe, least, subtree, set_empty_min_max, f_has_any_elements, f_has_one_element,
  f_has_element, check_delete_in_cluster, f_check_delete,
}
use bienutil.Veb.Node.Clusters.{in_clusters, in_clusters-set, set-IsClusters}
use bienutil.Veb.Node.Extremes.{any_ext}
use bienutil.Veb.Node.Valid.{IsFull, IsValid, Rewrites, any-bare, any-full, element-full}
use bienutil.Veb.Node.Settle.{settle-Settled}
use bienutil.Veb.Node.Delete.{
  IsLosing-held, left-Rewrites, delete_min-Rewrites, one_left, emptied-Rewrites, present-IsFull,
}

module _ (S C : VebTree) (VS : S.State → Type 0) (VC : C.State → Type 0) (ls : IsLawful S VS)
    (lc : IsLawful C VC) (small : universe S C ≤ 2 ^ 64) where
  module _ (nd : Node S C) (x : ℕ) (valid : IsValid S C VS VC nd) (h : x < universe S C) where
    -- The call on the cluster of `x`.
    abbrev Answers : Type 0
    Answers =
        Reports C VC (subtree S C nd.subtrees (x / C.universe)) (x % C.universe) false
          (C.f_check_delete (subtree S C nd.subtrees (x / C.universe)) (x % C.universe))

    c-lt : x / C.universe < S.universe
    c-lt = cluster-lt S.universe C.universe lc.inhabited x h

    check_held :
        (full : IsFull S C nd)
        → Answers
        → in_clusters S C nd.subtrees x ≡ true
        → (r : Node S C) × (check_delete_in_cluster S C nd x ≡ some (true, r))
          × Rewrites S C VS VC nd x false r
    unfolding check_delete_in_cluster
    check_held full (t, e, w) on =
        let (r, q, left) =
          settle-Settled S C VS VC ls lc nd valid.clusters x
            (IsLosing-held S C VS VC ls lc small nd valid full x h on) t w in
        (r, rw (e, on, q) refl, left-Rewrites S C VS VC ls lc small nd valid full x h on r left)

    check_not_held :
        (full : IsFull S C nd)
        → Answers
        → in_clusters S C nd.subtrees x ≡ false
        → x ≢ least S C nd
        → (r : Node S C) × (check_delete_in_cluster S C nd x ≡ some (false, r))
          × Rewrites S C VS VC nd x false r
    unfolding check_delete_in_cluster
    check_not_held full (t, e, w) off n =
        let old = subtree S C nd.subtrees (x / C.universe) in
        let k = valid.clusters in
        let ins = in_clusters-set S C VS VC ls lc nd.subtrees nd.summary k x h false t w in
        let keeps : (j : ℕ)
            → j < universe S C
            → in_clusters S C (set nd.subtrees (x / C.universe) t) j
              ≡ in_clusters S C nd.subtrees j =
          λ j l. ground (arith, ins j l, off, same_number j) in
        let any =
          any_ext C VC lc t old w.0 (k.each _ c-lt)
            (λ j l. w.1 j l ∙ ground (arith, same_element j)) in
        let good =
          set-IsClusters S C VS VC ls lc nd.subtrees nd.summary k x h false t w nd.summary k.whole
            (λ d l. k.summarised d l ∙ ground (arith, any, same_cluster d, k.summarised d l)) in
        let f : IsFull S C (record nd { subtrees = set nd.subtrees (x / C.universe) t }) = (
          (full.0.0, full.0.1, λ j l i. full.0.2 j l (sym (keeps j l) ∙ i)),
          elim full.1 [ inl low ↦ inl low | inr on ↦ inr (keeps nd.max full.0.1 ∙ on) ],
        ) in
        (
          record nd { subtrees = set nd.subtrees (x / C.universe) t },
          rw (e, off) refl,
          (
            record { clusters = good; bounds = inr f },
            λ j l.
                element-full S C small (record nd { subtrees = set nd.subtrees (x / C.universe) t })
                  f j l
                ∙ ground
                    (arith, keeps j l, element-full S C small nd full j l, same_number j, off, n),
          ),
        )
      where
        same_number :
            (j : ℕ) → x ≡ j → in_clusters S C nd.subtrees x ≡ in_clusters S C nd.subtrees j
        same_number j q = ap (in_clusters S C nd.subtrees) q

        same_element :
            (j : ℕ)
            → x % C.universe ≡ j
            → C.f_has_element (subtree S C nd.subtrees (x / C.universe)) j ≡ false
        same_element j q =
            ap (C.f_has_element (subtree S C nd.subtrees (x / C.universe))) (sym q) ∙ off

        same_cluster :
            (d : ℕ)
            → x / C.universe ≡ d
            → C.f_has_any_elements (subtree S C nd.subtrees (x / C.universe))
              ≡ C.f_has_any_elements (subtree S C nd.subtrees d)
        same_cluster d q = ap (λ i. C.f_has_any_elements (subtree S C nd.subtrees i)) q

    -- `FCheckDelete` of a tree that has elements does the same for any number, and tells whether that
    -- was an element, if the subtree's does.
    pub f_check_delete-Rewrites :
        f_has_any_elements S C nd ≡ true
        → (x ≢ least S C nd → Answers)
        → (r : Node S C) × (f_check_delete S C nd x ≡ some (f_has_element S C nd x, r))
          × Rewrites S C VS VC nd x false r
    unfolding f_check_delete
    f_check_delete-Rewrites any answers = elim valid.bounds [
      | inl bare ↦ absurd (cc (any, any-bare S C small nd bare))
      | inr full ↦
          let has = element-full S C small nd full x h in
          elim (Bool-cases (f_has_one_element S C nd)) [
            | inl one ↦
                let only = (one_left S C VS VC ls lc small nd full one x h).1 in
                elim (ℕ_discrete nd.max x) [
                  | yes e ↦
                      let same : (x == nd.max) ≡ true = ground arith in
                      let on : f_has_element S C nd x ≡ true = only ∙ ground arith in
                      (
                        set_empty_min_max S C nd,
                        rw (one, same, on) refl,
                        emptied-Rewrites S C VS VC ls lc small nd x valid full one e,
                      )
                  | no n ↦
                      let apart : (x == nd.max) ≡ false = ground arith in
                      let off : f_has_element S C nd x ≡ false = only ∙ ground arith in
                      (
                        nd,
                        rw (one, apart, off) refl,
                        (
                          valid,
                          λ j l.
                              ground
                                (arith, off, (one_left S C VS VC ls lc small nd full one j l).1),
                        ),
                      )
                ]
            | inr several ↦ elim (ℕ_discrete x (least S C nd)) [
              | yes first ↦
                  let (r, e, w) = delete_min-Rewrites S C VS VC ls lc small nd valid full several in
                  let same : (x == least S C nd) ≡ true = ground arith in
                  let on : f_has_element S C nd x ≡ true = has ∙ ground arith in
                  (
                    r,
                    rw (several, same, e, on) refl,
                    subst (λ i. Rewrites S C VS VC nd i false r) (sym first) w,
                  )
              | no n ↦
                  let apart : (x == least S C nd) ≡ false = ground arith in
                  elim (Bool-cases (in_clusters S C nd.subtrees x)) [
                    | inl held ↦
                        let (r, e, w) = check_held full (answers n) held in
                        let on : f_has_element S C nd x ≡ true = has ∙ ground (arith, held) in
                        (r, rw (several, apart, e, on) refl, w)
                    | inr out ↦
                        let (r, e, w) = check_not_held full (answers n) out n in
                        let off : f_has_element S C nd x ≡ false = has ∙ ground (arith, out) in
                        (r, rw (several, apart, e, off) refl, w)
                  ]
            ]
          ]
    ]

    pub f_check_delete_element :
        f_has_element S C nd x ≡ true
        → (r : Node S C) × (f_check_delete S C nd x ≡ some (f_has_element S C nd x, r))
          × Rewrites S C VS VC nd x false r
    f_check_delete_element on =
        let full = present-IsFull S C VS VC ls lc small nd x valid on in
        f_check_delete-Rewrites (any-full S C small nd full) (λ n.
          lc.f_check_delete-Reports (subtree S C nd.subtrees (x / C.universe)) (x % C.universe)
            (valid.clusters.each _ c-lt) (element-lt S.universe C.universe lc.inhabited x)
            (ground (arith, on, n, element-full S C small nd full x h)))

    -- Over subtrees whose `FCheckDelete` never throws, `FCheckDelete` of a tree that has elements takes
    -- out any number of the universe, changes nothing else, and tells whether it was an element.
    pub f_check_delete_total :
        IsTotal C VC
        → f_has_any_elements S C nd ≡ true
        → (r : Node S C) × (f_check_delete S C nd x ≡ some (f_has_element S C nd x, r))
          × Rewrites S C VS VC nd x false r
    f_check_delete_total total any = f_check_delete-Rewrites any (λ n.
        total (subtree S C nd.subtrees (x / C.universe)) (x % C.universe)
          (valid.clusters.each _ c-lt) (element-lt S.universe C.universe lc.inhabited x))
