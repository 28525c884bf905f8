-- ===== src/Veb/Node/Throws.antt =====
-- `FCheckDelete` of an empty tree.
use native.Mathlib.Nat.{mod-eq_of_lt}
use bienutil.Base.{
  ℕ, ◌-◌, ◌*◌, ◌+◌, ◌^◌, ◌≤◌, ◌≡◌, inl, inr, refl, sym, ap, ◌∙◌, arith, true, false, Option, none,
  some, ◌==◌, Bool-cases,
}
use bienutil.VebFixed.{is_some}
use bienutil.Veb.{VebTree, IsLawful}
use bienutil.Veb.Index.{index-lt}
use bienutil.Veb.Node.{
  Node, universe, least, range, minus_one, subtree, first_in_clusters, delete_min,
  f_has_any_elements, f_has_one_element, f_check_delete,
}
use bienutil.Veb.Node.Extremes.{member-index, n_min_some}
use bienutil.Veb.Node.Valid.{IsBare, IsValid, range_bounds, any-full}

module _ (S C : VebTree) (VS : S.State → Type 0) (VC : C.State → Type 0) (ls : IsLawful S VS)
    (lc : IsLawful C VC) (small : universe S C ≤ 2 ^ 64) where
  module _ (nd : Node S C) (valid : IsValid S C VS VC nd) (bare : IsBare S C nd) where
    no_summary : S.f_has_any_elements nd.summary ≡ false
    no_summary = elim (Bool-cases (S.f_has_any_elements nd.summary)) [
      | inr off ↦ off
      | inl any ↦
          let k = valid.clusters in
          let (c, q, (cl, at, low)) = n_min_some S VS ls nd.summary k.whole any in
          let (e, r, (el, on, least_e)) =
            n_min_some C VC lc (subtree S C nd.subtrees c) (k.each c cl)
              (sym (k.summarised c cl) ∙ at) in
          cc (
            bare.2 (c * C.universe + e) (index-lt S.universe C.universe lc.inhabited c e cl el),
            member-index S C VS VC ls lc nd k c e el,
            on,
          )
    ]

    delete_min-none : delete_min S C nd ≡ none
    unfolding delete_min first_in_clusters is_some
    delete_min-none = by_min (S.n_min nd.summary) refl
      where
        by_min : (o : Option ℕ) → S.n_min nd.summary ≡ o → delete_min S C nd ≡ none
        by_min none q = rw q refl
        by_min (some c) q =
            cc (ls.any-min nd.summary valid.clusters.whole, no_summary, ap is_some q)

  -- In a universe that fills its type, `FCheckDelete` of the last number throws on a tree that has no
  -- elements, where the number kept for the least element, 0, reads as that number.
  pub f_check_delete_throws :
      (nd : Node S C)
      → IsValid S C VS VC nd
      → f_has_any_elements S C nd ≡ false
      → universe S C ≡ range (universe S C)
      → f_check_delete S C nd (universe S C - 1) ≡ none
  unfolding f_check_delete f_has_one_element minus_one
  f_check_delete_throws nd valid empty filled = elim valid.bounds [
    | inr full ↦ cc (empty, any-full S C small nd full)
    | inl bare ↦
        let bounds = range_bounds (universe S C) small in
        let last : least S C nd ≡ universe S C - 1 = rw bare.0 (
          omega (
            arith,
            filled,
            bounds.1,
            mod-eq_of_lt {n = 0 + range (universe S C) - 1} {m = range (universe S C)}
                (omega (arith, bounds.1)),
          )) in
        let several : f_has_one_element S C nd ≡ false =
          ground (arith, bare.1, last, filled, bounds.1) in
        let same : (universe S C - 1 == least S C nd) ≡ true = ground (arith, last) in
        rw (several, same, delete_min-none nd valid bare) refl
  ]
