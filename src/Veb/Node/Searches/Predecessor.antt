-- ===== src/Veb/Node/Searches/Predecessor.antt =====
-- `NPredecessor`.
use bienutil.Base.{ℕ, ◌-◌, ◌^◌, ◌≤◌, ◌<◌, ◌≡◌, inl, inr, refl, ◌∙◌, arith, some, ltb, Bool-cases}
use bienutil.Veb.{VebTree, IsLawful, PreviousOf}
use bienutil.Veb.Node.{Node, universe, least, f_has_element}
use bienutil.Veb.Node.Valid.{IsValid, any-bare, any-full, element-bare, element-full}
use bienutil.Veb.Node.Searches.{n_predecessor}
use bienutil.Veb.Node.Searches.Previous.{in_clusters-Precedes}

module _ (S C : VebTree) (VS : S.State → Type 0) (VC : C.State → Type 0) (ls : IsLawful S VS)
    (lc : IsLawful C VC) where
  -- `NPredecessor` gives the greatest element before a number of the universe, or the universe's
  -- last number where there is none.
  pub n_predecessor_lem :
      universe S C ≤ 2 ^ 64
      → (nd : Node S C) (x : ℕ) → IsValid S C VS VC nd
      → x < universe S C
      → (y : ℕ) × (n_predecessor S C nd x ≡ some y)
        × PreviousOf (universe S C) (f_has_element S C nd) x y
  unfolding n_predecessor
  n_predecessor_lem small nd x valid h = elim valid.bounds [
    | inl bare ↦ (
      universe S C - 1,
      rw (any-bare S C small nd bare) refl,
      inl (refl, λ j l. element-bare S C small nd bare j),
    )
    | inr full ↦
        let has = element-full S C small nd full in
        elim (Bool-cases (ltb nd.max x)) [
          | inl above ↦ (
            nd.max,
            rw (any-full S C small nd full, above) refl,
            inr (
              ground arith,
              has nd.max full.0.1 ∙ ground (arith, full.1),
              λ j a b. has j (omega arith) ∙ ground (arith, full.0.0, full.0.2 j (omega arith)),
            ),
          )
          | inr under ↦
              let (y, e, prev) = in_clusters-Precedes S C VS VC ls lc nd valid.clusters x h in
              (
                y,
                rw (any-full S C small nd full, under) e,
                elim prev [
                  | inl (z, off) ↦ elim (Bool-cases (ltb (least S C nd) x)) [
                    | inl over ↦ inr (
                      ground (arith, z),
                      has y (ground (arith, z)) ∙ ground (arith, z),
                      λ j a b. has j (omega arith) ∙ ground (arith, off j b, z),
                    )
                    | inr n ↦
                        inl
                          (ground (arith, z), λ j l. has j (omega arith) ∙ ground (arith, off j l))
                  ]
                  | inr (l, on, between) ↦ inr (
                    l,
                    has y (omega arith) ∙ ground (arith, on),
                    λ j a b.
                        has j (omega arith)
                        ∙ ground (arith, between j a b, full.0.2 y (omega arith) on),
                  )
                ],
              )
        ]
  ]
