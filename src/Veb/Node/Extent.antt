-- ===== src/Veb/Node/Extent.antt =====
-- The empty node, `NMin` and `NMax`.
use bienutil.Base.{
  ℕ, ◌/◌, ◌%◌, ◌^◌, ◌≤◌, ◌<◌, ◌≡◌, inl, inr, refl, sym, ap, ◌∙◌, arith, false, length-replicate,
  get_or-replicate, Bool-cases,
}
use bienutil.VebFixed.{is_some}
use bienutil.Veb.{VebTree, IsLawful, MinOf, MaxOf}
use bienutil.Veb.Index.{element-lt}
use bienutil.Veb.Node.{
  Node, universe, least, subtree, empty, f_has_any_elements, f_has_element, n_min, n_max,
}
use bienutil.Veb.Node.Extremes.{n_min_some}
use bienutil.Veb.Node.Valid.{IsBare, IsValid, any-bare, any-full, element-bare, element-full}

module _ (V : VebTree) (P : V.State → Type 0) (law : IsLawful V P) where
  -- The empty tree has no elements.
  pub any-empty : V.f_has_any_elements V.empty ≡ false
  any-empty = elim (Bool-cases (V.f_has_any_elements V.empty)) [
    | inl any ↦
        let (m, e, (h, on, low)) = n_min_some V P law V.empty law.empty-IsValid any in
        cc (on, law.element-empty m h)
    | inr bare ↦ bare
  ]

module _ (S C : VebTree) (VS : S.State → Type 0) (VC : C.State → Type 0) (ls : IsLawful S VS)
    (lc : IsLawful C VC) (small : universe S C ≤ 2 ^ 64) where
  empty_subtree : (c : ℕ) → subtree S C (empty S C).subtrees c ≡ C.empty
  unfolding empty
  empty_subtree c = get_or-replicate S.universe c C.empty

  empty-IsBare : IsBare S C (empty S C)
  unfolding empty
  empty-IsBare = (
    refl,
    refl,
    λ j h.
        ap (λ t. C.f_has_element t (j % C.universe)) (empty_subtree (j / C.universe))
        ∙ lc.element-empty (j % C.universe) (element-lt S.universe C.universe lc.inhabited j),
  )

  -- The empty node is a valid empty set.
  pub empty_lem :
      IsValid S C VS VC (empty S C) × ((j : ℕ) → f_has_element S C (empty S C) j ≡ false)
  unfolding empty
  empty_lem = (
    record {
      clusters = record {
        sized = length-replicate S.universe C.empty;
        each = λ c h. rw (empty_subtree c) lc.empty-IsValid;
        whole = ls.empty-IsValid;
        summarised = λ c h.
            ls.element-empty c h
            ∙ sym (ap C.f_has_any_elements (empty_subtree c) ∙ any-empty C VC lc);
      };
      bounds = inl empty-IsBare;
    },
    element-bare S C small (empty S C) empty-IsBare,
  )

  module _ (nd : Node S C) (valid : IsValid S C VS VC nd) where
    -- `NMin` and `NMax` are the extreme elements, and throw for the empty set only.
    pub n_min_max_lem :
        MinOf (universe S C) (f_has_element S C nd) (n_min S C nd)
        × MaxOf (universe S C) (f_has_element S C nd) (n_max S C nd)
        × (f_has_any_elements S C nd ≡ is_some (n_min S C nd))
        × (f_has_any_elements S C nd ≡ is_some (n_max S C nd))
    unfolding n_min n_max is_some
    n_min_max_lem = elim valid.bounds [
      | inl bare ↦
          let off = element-bare S C small nd bare in
          rw (any-bare S C small nd bare) (λ j h. off j, λ j h. off j, refl, refl)
      | inr full ↦
          let has = element-full S C small nd full in
          let low = least S C nd in
          let inside : low < universe S C = omega (arith, full.0.0, full.0.1) in
          rw (any-full S C small nd full) (
            (
              inside,
              has low inside ∙ ground arith,
              λ j h on. ground (arith, sym (has j h) ∙ on, full.0.2 j h),
            ),
            (
              full.0.1,
              has nd.max full.0.1 ∙ ground (arith, full.1),
              λ j h on. ground (arith, full.0.0, sym (has j h) ∙ on, full.0.2 j h),
            ),
            refl,
            refl,
          )
    ]
