-- ===== src/Veb/Node/Insert.antt =====
-- `Insert` and `FCheckInsert`.
use native.Mathlib.Decide.{dec_lt}
use bienutil.Base.{
  lt→ltb, ℕ, ◌^◌, ◌≤◌, ◌<◌, ◌≡◌, inl, inr, refl, sym, ◌∙◌, arith, true, false, not, some, ◌==◌, ltb,
}
use bienutil.Veb.{VebTree, IsLawful}
use bienutil.Veb.Node.{
  Node, universe, least, set_min, set_max, f_has_element, insert_in_cluster, insert, f_check_insert,
}
use bienutil.Veb.Node.Clusters.{in_clusters}
use bienutil.Veb.Node.Valid.{
  low_not_held, Rewrites, IsFull, IsValid, minus_one-plus_one, any-bare, any-full, element-bare,
  element-full,
}
use bienutil.Veb.Node.Enter.{
  Enters, insert_in_cluster-Enters, check_insert_in_cluster-Enters, entered-Rewrites,
  alone-Rewrites,
}

module _ (S C : VebTree) (VS : S.State → Type 0) (VC : C.State → Type 0) (ls : IsLawful S VS)
    (lc : IsLawful C VC) (small : universe S C ≤ 2 ^ 64) where
  module _ (nd : Node S C) (x : ℕ) (valid : IsValid S C VS VC nd) (h : x < universe S C) where
    -- The new least element: the old one enters its cluster.
    below-Rewrites :
        (full : IsFull S C nd)
        → x < least S C nd
        → (r : Node S C) × (insert_in_cluster S C (set_min S C nd x) (least S C nd) ≡ some r)
          × Rewrites S C VS VC nd x true r
    below-Rewrites full below =
        let at : least S C (set_min S C nd x) ≡ x = minus_one-plus_one (universe S C) x small h in
        let (r, e, enters) =
          insert_in_cluster-Enters S C VS VC ls lc small (set_min S C nd x) (least S C nd)
            (omega (arith, full.0.0, full.0.1)) (rw at below)
            (
              valid.clusters,
              (ground (arith, at, full.0.0), full.0.1, λ j l i. ground (arith, at, full.0.2 j l)),
              ground (arith, full.1),
            )
            (low_not_held (universe S C) (in_clusters S C nd.subtrees) (least S C nd) nd.max
              full.0) in
        (
          r,
          e,
          entered-Rewrites S C VS VC ls lc small nd (set_min S C nd x) r x (least S C nd) full
              enters refl (λ j l. ground (arith, at)),
        )

    above-Rewrites :
        (full : IsFull S C nd)
        → least S C nd < x
        → (r : Node S C) → Enters S C VS VC ls lc small nd x r
        → Rewrites S C VS VC nd x true r
    above-Rewrites full above r enters =
        entered-Rewrites S C VS VC ls lc small nd nd r x x full enters refl (λ j l. ground arith)

    -- `Insert` puts a number that is not in the tree into it, and changes nothing else.
    pub insert-Rewrites :
        f_has_element S C nd x ≡ false
        → (r : Node S C) × (insert S C nd x ≡ some r) × Rewrites S C VS VC nd x true r
    unfolding insert
    insert-Rewrites off = elim valid.bounds [
      | inl bare ↦ (
        set_max S C (set_min S C nd x) x,
        rw (any-bare S C small nd bare) refl,
        alone-Rewrites S C VS VC ls lc small nd x valid.clusters bare h,
      )
      | inr full ↦ elim (dec_lt x (least S C nd)) [
        | yes below ↦
            let (r, e, w) = below-Rewrites full below in
            (r, rw (any-full S C small nd full, lt→ltb x (least S C nd) below) e, w)
        | no n ↦
            let out = sym (element-full S C small nd full x h) ∙ off in
            let above : least S C nd < x = ground (arith, out) in
            let (r, e, enters) =
              insert_in_cluster-Enters S C VS VC ls lc small nd x h above
                (valid.clusters, full.0, ground (arith, full.1)) (ground (arith, out)) in
            (
              r,
              rw (any-full S C small nd full) (ground (arith, e)),
              above-Rewrites full above r enters,
            )
      ]
    ]

    -- `FCheckInsert` does the same for any number, and tells whether it was new.
    pub f_check_insert-Rewrites :
        (r : Node S C) × (f_check_insert S C nd x ≡ some (not (f_has_element S C nd x), r))
        × Rewrites S C VS VC nd x true r
    unfolding f_check_insert
    f_check_insert-Rewrites = elim valid.bounds [
      | inl bare ↦ (
        set_max S C (set_min S C nd x) x,
        rw (any-bare S C small nd bare, element-bare S C small nd bare x) refl,
        alone-Rewrites S C VS VC ls lc small nd x valid.clusters bare h,
      )
      | inr full ↦
          let has = element-full S C small nd full x h in
          let all = any-full S C small nd full in
          elim (dec_lt x (least S C nd)) [
            | yes below ↦
                let (r, e, w) = below-Rewrites full below in
                let out : f_has_element S C nd x ≡ false = has ∙ ground (arith, full.0.2 x h) in
                let apart : (least S C nd == x) ≡ false = ground arith in
                (r, rw (all, apart, lt→ltb x (least S C nd) below, e, out) refl, w)
            | no n ↦ elim (dec_lt (least S C nd) x) [
              | yes above ↦
                  let (r, e, enters) =
                    check_insert_in_cluster-Enters S C VS VC ls lc small nd x h above
                      (valid.clusters, full.0, ground (arith, full.1)) in
                  let apart : (least S C nd == x) ≡ false = ground arith in
                  let over : ltb x (least S C nd) ≡ false = ground arith in
                  (r, rw (all, apart, over, e, has, apart) refl, above-Rewrites full above r enters)
              | no m ↦
                  let same : (least S C nd == x) ≡ true = ground arith in
                  (
                    nd,
                    rw (all, same, has, same) refl,
                    (valid, λ j l. ground (arith, same, element-full S C small nd full j l)),
                  )
            ]
          ]
    ]
