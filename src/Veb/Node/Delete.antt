-- ===== src/Veb/Node/Delete.antt =====
-- `Delete`.
use mathlib.Core.Path.{subst}
use native.Mathlib.Decide.{ℕ_discrete}
use bienutil.Base.{
  ℕ, ◌/◌, ◌%◌, ◌^◌, ◌≤◌, ◌<◌, ◌≡◌, inl, inr, refl, sym, ap, ◌∙◌, arith, Bool, true, false, ◌||◌,
  some, ◌==◌, if◌then◌else◌, Bool-cases,
}
use bienutil.Veb.{VebTree, IsLawful}
use bienutil.Veb.Index.{cluster-lt, element-lt}
use bienutil.Veb.Node.{
  Node, universe, least, minus_one, subtree, set_min, set_empty_min_max, f_has_one_element,
  f_has_element, delete_in_cluster, delete_min, delete,
}
use bienutil.Veb.Node.Clusters.{IsClusters, in_clusters, some-lt, any-true}
use bienutil.Veb.Node.Extremes.{first_in_clusters-MinOf}
use bienutil.Veb.Node.Valid.{
  IsFull, IsBare, IsValid, Rewrites, low_not_held, minus_one-plus_one, element-bare, element-full,
}
use bienutil.Veb.Node.Settle.{IsLosing, settle-Settled}

-- The next element in the place of the least one.
moved :
    (low y j next : ℕ) (h g has : Bool)
    → next ≡ y
    → low < y
    → (y ≡ j → h ≡ true)
    → (low ≡ j → h ≡ false)
    → g ≡ (if y == j then false else h)
    → has ≡ (low == j || h)
    → (next == j || g) ≡ (if low == j then false else has)
moved low y j next h g has e l on off p q = ground (arith, e, l, on, off, p, q)

module _ (S C : VebTree) (VS : S.State → Type 0) (VC : C.State → Type 0) (ls : IsLawful S VS)
    (lc : IsLawful C VC) (small : universe S C ≤ 2 ^ 64) where
  abbrev Leaves : Node S C → ℕ → Node S C → Type 0
  Leaves nd x r =
      IsClusters S C VS VC r.subtrees r.summary
      × IsFull S C r
      × (r.min_plus_one ≡ nd.min_plus_one)
      × ((j : ℕ)
          → j < universe S C
          → in_clusters S C r.subtrees j
            ≡ (if x == j then false else in_clusters S C nd.subtrees j))

  delete_in_cluster-Leaves :
      (nd : Node S C) (x : ℕ)
      → IsClusters S C VS VC nd.subtrees nd.summary
      → IsLosing (universe S C) (in_clusters S C nd.subtrees) (least S C nd) nd.max x
      → (r : Node S C) × (delete_in_cluster S C nd x ≡ some r) × Leaves nd x r
  unfolding delete_in_cluster
  delete_in_cluster-Leaves nd x k losing =
      let up = lc.inhabited in
      let (t, e, w) =
        lc.delete-Writes (subtree S C nd.subtrees (x / C.universe)) (x % C.universe)
          (k.each _ (cluster-lt S.universe C.universe up x losing.1))
          (element-lt S.universe C.universe up x) losing.3 in
      let (r, q, left) = settle-Settled S C VS VC ls lc nd k x losing t w in (r, rw e q, left)

  module _ (nd : Node S C) (valid : IsValid S C VS VC nd) (full : IsFull S C nd) where
    abbrev held : ℕ → Bool
    held = in_clusters S C nd.subtrees

    pub IsLosing-held :
        (x : ℕ)
        → x < universe S C
        → held x ≡ true
        → IsLosing (universe S C) held (least S C nd) nd.max x
    IsLosing-held x h on = (
      ground (arith, full.0.2 x h on),
      h,
      full.0.1,
      on,
      ground (arith, full.0.2 x h on, full.1),
      λ j l i. (ground (arith, full.0.2 j l i), λ n. ground (arith, full.0.2 j l i)),
    )

    pub left-Rewrites :
        (x : ℕ)
        → x < universe S C
        → held x ≡ true
        → (r : Node S C) → Leaves nd x r
        → Rewrites S C VS VC nd x false r
    left-Rewrites x h on r (k, f, m, ins) = (
      record { clusters = k; bounds = inr f },
      λ j l.
          element-full S C small r f j l
          ∙ ground (
            arith,
            ins j l,
            full.0.2 x h on,
            element-full S C small nd full j l,
            ap (minus_one (universe S C)) m,
          ),
    )

    pub delete_min-Rewrites :
        f_has_one_element S C nd ≡ false
        → (r : Node S C) × (delete_min S C nd ≡ some r)
          × Rewrites S C VS VC nd (least S C nd) false r
    unfolding delete_min f_has_one_element
    delete_min-Rewrites several =
        let last : held nd.max ≡ true = ground (arith, several, full.1) in
        let any =
          any-true S VS ls nd.summary valid.clusters.whole (nd.max / C.universe)
            (cluster-lt S.universe C.universe lc.inhabited nd.max full.0.1)
            (some-lt S C VS VC ls lc nd.subtrees nd.summary valid.clusters nd.max full.0.1 last) in
        let (y, e, (h, on, first)) =
          first_in_clusters-MinOf S C VS VC ls lc nd valid.clusters any in
        let at : least S C (set_min S C nd y) ≡ y = minus_one-plus_one (universe S C) y small h in
        let losing : IsLosing (universe S C) held (least S C (set_min S C nd y)) nd.max y = (
          ground (arith, at),
          h,
          full.0.1,
          on,
          last,
          λ j l i. (ground (arith, full.0.2 j l i), λ n. ground (arith, at, first j l i, n)),
        ) in
        let (r, q, (k, f, m, ins)) =
          delete_in_cluster-Leaves (set_min S C nd y) y valid.clusters losing in
        (
          r,
          rw e q,
          (
            record { clusters = k; bounds = inr f },
            λ j l.
                element-full S C small r f j l
                ∙ moved (least S C nd) y j (least S C r) (held j) (in_clusters S C r.subtrees j)
                    (f_has_element S C nd j) (ap (minus_one (universe S C)) m ∙ at)
                    (full.0.2 y h on).0 (λ same. sym (ap held same) ∙ on)
                    (λ same.
                      sym (ap held same)
                      ∙ low_not_held (universe S C) held (least S C nd) nd.max full.0)
                    (ins j l) (element-full S C small nd full j l),
          ),
        )

  pub one_left :
      (nd : Node S C)
      → IsFull S C nd
      → f_has_one_element S C nd ≡ true
      → (j : ℕ) → j < universe S C
      → (in_clusters S C nd.subtrees j ≡ false) × (f_has_element S C nd j ≡ (nd.max == j))
  unfolding f_has_one_element
  one_left nd full one j h =
      let out : in_clusters S C nd.subtrees j ≡ false = ground (arith, full.0.2 j h, one) in
      (out, element-full S C small nd full j h ∙ ground (arith, out, one))

  pub emptied-Rewrites :
      (nd : Node S C) (x : ℕ)
      → IsValid S C VS VC nd
      → IsFull S C nd
      → f_has_one_element S C nd ≡ true
      → nd.max ≡ x
      → Rewrites S C VS VC nd x false (set_empty_min_max S C nd)
  emptied-Rewrites nd x valid full one e =
      let bare : IsBare S C (set_empty_min_max S C nd) =
        (refl, refl, λ j l. (one_left nd full one j l).0) in
      (
        record { clusters = valid.clusters; bounds = inl bare },
        λ j l.
            element-bare S C small (set_empty_min_max S C nd) bare j
            ∙ ground (arith, (one_left nd full one j l).1, e),
      )

  pub present-IsFull :
      (nd : Node S C) (x : ℕ) → IsValid S C VS VC nd → f_has_element S C nd x ≡ true → IsFull S C nd
  present-IsFull nd x valid on = elim valid.bounds [
    | inl bare ↦ absurd (cc (on, element-bare S C small nd bare x))
    | inr full ↦ full
  ]

  module _ (nd : Node S C) (x : ℕ) (valid : IsValid S C VS VC nd) (h : x < universe S C) where
    -- `Delete` of an element takes it out, and changes nothing else.
    pub delete-Rewrites :
        f_has_element S C nd x ≡ true
        → (r : Node S C) × (delete S C nd x ≡ some r) × Rewrites S C VS VC nd x false r
    unfolding delete
    delete-Rewrites on =
        let full = present-IsFull nd x valid on in
        elim (Bool-cases (f_has_one_element S C nd)) [
          | inl one ↦ (
            set_empty_min_max S C nd,
            rw one refl,
            emptied-Rewrites nd x valid full one (ground (arith, (one_left nd full one x h).1, on)),
          )
          | inr several ↦ elim (ℕ_discrete x (least S C nd)) [
            | yes first ↦
                let (r, e, w) = delete_min-Rewrites nd valid full several in
                let same : (x == least S C nd) ≡ true = ground arith in
                (
                  r,
                  rw (several, same) e,
                  subst (λ i. Rewrites S C VS VC nd i false r) (sym first) w,
                )
            | no n ↦
                let held : in_clusters S C nd.subtrees x ≡ true =
                  ground (arith, on, element-full S C small nd full x h) in
                let (r, e, left) =
                  delete_in_cluster-Leaves nd x valid.clusters
                    (IsLosing-held nd valid full x h held) in
                let apart : (x == least S C nd) ≡ false = ground arith in
                (r, rw (several, apart) e, left-Rewrites nd valid full x h held r left)
          ]
        ]
