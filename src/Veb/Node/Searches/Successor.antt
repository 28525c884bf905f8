-- ===== src/Veb/Node/Searches/Successor.antt =====
-- `NSuccessor`.
use bienutil.Base.{ℕ, ◌^◌, ◌≤◌, ◌<◌, ◌≡◌, inl, inr, refl, ◌∙◌, arith, some, ltb, Bool-cases}
use bienutil.Veb.{VebTree, IsLawful, NextOf}
use bienutil.Veb.Node.{Node, universe, least, f_has_element}
use bienutil.Veb.Node.Valid.{IsValid, any-bare, any-full, element-bare, element-full}
use bienutil.Veb.Node.Searches.{n_successor}
use bienutil.Veb.Node.Searches.Next.{in_clusters-NextOf}

module _ (S C : VebTree) (VS : S.State → Type 0) (VC : C.State → Type 0) (ls : IsLawful S VS)
    (lc : IsLawful C VC) where
  -- `NSuccessor` gives the least element after a number of the universe, or 0 where there is none.
  pub n_successor_lem :
      universe S C ≤ 2 ^ 64
      → (nd : Node S C) (x : ℕ) → IsValid S C VS VC nd
      → x < universe S C
      → (y : ℕ) × (n_successor S C nd x ≡ some y) × NextOf (universe S C) (f_has_element S C nd) x y
  unfolding n_successor
  n_successor_lem small nd x valid h = elim valid.bounds [
    | inl bare ↦ (
      0,
      rw (any-bare S C small nd bare) refl,
      inl (refl, λ j l a. element-bare S C small nd bare j),
    )
    | inr full ↦
        let has = element-full S C small nd full in
        elim (Bool-cases (ltb x (least S C nd))) [
          | inl below ↦ (
            least S C nd,
            rw (any-full S C small nd full, below) refl,
            inr (
              ground arith,
              omega (arith, full.0.0, full.0.1),
              has (least S C nd) (omega (arith, full.0.0, full.0.1)) ∙ ground arith,
              λ j a b.
                  has j (omega (arith, full.0.0, full.0.1))
                  ∙ ground (arith, full.0.2 j (omega (arith, full.0.0, full.0.1))),
            ),
          )
          | inr above ↦
              let (y, e, next) = in_clusters-NextOf S C VS VC ls lc nd valid.clusters x h in
              (
                y,
                rw (any-full S C small nd full, above) e,
                elim next [
                  | inl (z, off) ↦ inl (z, λ j l a. has j l ∙ ground (arith, off j l a))
                  | inr (l, yl, on, between) ↦ inr (
                    l,
                    yl,
                    has y yl ∙ ground (arith, on),
                    λ j a b. has j (omega arith) ∙ ground (arith, between j a b),
                  )
                ],
              )
        ]
  ]
