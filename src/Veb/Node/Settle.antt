-- ===== src/Veb/Node/Settle.antt =====
-- The end of a deletion: the summary and the greatest element after a cluster has lost an element.
use native.Mathlib.Decide.{dec_lt}
use bienutil.Base.{
  ℕ, ◌+◌, ◌*◌, ◌/◌, ◌%◌, ◌≤◌, ◌<◌, ◌≡◌, ◌⊎◌, inl, inr, refl, sym, ap, ◌∙◌, arith, Bool, true, false,
  some, List, ◌==◌, if◌then◌else◌, set, Bool-cases, ◌≢◌,
}
use bienutil.Veb.{VebTree, IsLawful, Writes, MaxOf}
use bienutil.Veb.Index.{
  cluster-lt, element-lt, cluster-index, element-index, cluster_mono, index_below, index_same,
  index-lt,
}
use bienutil.Veb.Node.{Node, universe, least, subtree, settle}
use bienutil.Veb.Node.Clusters.{
  IsClusters, in_clusters, in_clusters-set, set-IsClusters, in_clusters-none, some-lt, there,
}
use bienutil.Veb.Node.Extremes.{n_max_some, last_in_clusters-MaxOf}
use bienutil.Veb.Node.Valid.{IsFull, Ends}

-- `held` are the elements in the clusters before `x`, which is one of them, is deleted; `low` is the
-- least element afterwards.
abbrev pub IsLosing : ℕ → (ℕ → Bool) → ℕ → ℕ → ℕ → Type 0
IsLosing u held low high x =
    (low ≤ x)
    × (x < u)
    × (high < u)
    × (held x ≡ true)
    × (held high ≡ true)
    × ((j : ℕ) → j < u → held j ≡ true → (j ≤ high) × (x ≢ j → low < j))

abbrev pub IsTop : ℕ → (ℕ → Bool) → ℕ → ℕ → Type 0
IsTop u kept low m = MaxOf u kept (some m) ⊎ ((m ≡ low) × ((j : ℕ) → j < u → kept j ≡ false))

shrunk :
    (u : ℕ) (held kept : ℕ → Bool) (low high x m : ℕ)
    → IsLosing u held low high x
    → ((j : ℕ) → j < u → kept j ≡ (if x == j then false else held j))
    → IsTop u kept low m
    → Ends u kept low m
shrunk u held kept low high x m (at, xu, hu, hx, hh, all) del (inl (mu, on, top)) = (
  (ground (arith, all m mu, del m mu), mu, λ j l i. (ground (arith, all j l, del j l), top j l i)),
  inr on,
)
shrunk u held kept low high x m (at, xu, hu, hx, hh, all) del (inr (e, off)) =
    ((omega arith, omega arith, λ j l i. absurd (cc (i, off j l))), inl e)

module _ (S C : VebTree) (VS : S.State → Type 0) (VC : C.State → Type 0) (ls : IsLawful S VS)
    (lc : IsLawful C VC) (nd : Node S C) (k : IsClusters S C VS VC nd.subtrees nd.summary) (x : ℕ)
    (losing : IsLosing (universe S C) (in_clusters S C nd.subtrees) (least S C nd) nd.max x)
    (t : C.State)
    (w : Writes C VC (subtree S C nd.subtrees (x / C.universe)) (x % C.universe) false t) where
  abbrev pub c : ℕ
  c = x / C.universe

  abbrev pub left : List C.State
  left = set nd.subtrees c t

  abbrev pub Settled : Node S C → Type 0
  Settled r =
      IsClusters S C VS VC r.subtrees r.summary
      × IsFull S C r
      × (r.min_plus_one ≡ nd.min_plus_one)
      × ((j : ℕ)
          → j < universe S C
          → in_clusters S C r.subtrees j
            ≡ (if x == j then false else in_clusters S C nd.subtrees j))

  pub c-lt : c < S.universe
  c-lt = cluster-lt S.universe C.universe lc.inhabited x losing.1

  pub kept :
      (j : ℕ)
      → j < universe S C
      → in_clusters S C left j ≡ (if x == j then false else in_clusters S C nd.subtrees j)
  kept = in_clusters-set S C VS VC ls lc nd.subtrees nd.summary k x losing.1 false t w

  pub ends :
      (m : ℕ)
      → IsTop (universe S C) (in_clusters S C left) (least S C nd) m
      → Ends (universe S C) (in_clusters S C left) (least S C nd) m
  ends m top =
      shrunk (universe S C) (in_clusters S C nd.subtrees) (in_clusters S C left) (least S C nd)
        nd.max x m losing kept top

  -- The greatest element stays when another one is deleted.
  pub still :
      (x == nd.max) ≡ false → IsTop (universe S C) (in_clusters S C left) (least S C nd) nd.max
  still e = inl (
    losing.2,
    kept nd.max losing.2 ∙ ground (arith, losing.4),
    λ j l i. ground (arith, kept j l, losing.5 j l),
  )

  summary_holds : S.f_has_element nd.summary c ≡ true
  summary_holds = some-lt S C VS VC ls lc nd.subtrees nd.summary k x losing.1 losing.3

  same_place : (a b : ℕ) → a ≡ b → S.f_has_element nd.summary a ≡ S.f_has_element nd.summary b
  same_place a b e = ap (S.f_has_element nd.summary) e

  pub same_summary : C.f_has_any_elements t ≡ true → IsClusters S C VS VC left nd.summary
  same_summary any =
      set-IsClusters S C VS VC ls lc nd.subtrees nd.summary k x losing.1 false t w nd.summary
        k.whole (λ d l. ground (arith, any, summary_holds, same_place c d))

  pub in_left :
      (j : ℕ) → j / C.universe ≡ c → in_clusters S C left j ≡ C.f_has_element t (j % C.universe)
  in_left j e =
      ap (λ d. C.f_has_element (subtree S C left d) (j % C.universe)) e
      ∙ ap (λ i. C.f_has_element i (j % C.universe))
          (there S C VS VC ls lc nd.subtrees nd.summary k x losing.1 false t w)

  -- The greatest element of the cluster is the greatest of all when the deleted one was.
  pub cluster-IsTop :
      C.f_has_any_elements t ≡ true
      → (x == nd.max) ≡ true
      → (e : ℕ) × (C.n_max t ≡ some e)
        × IsTop (universe S C) (in_clusters S C left) (least S C nd) (c * C.universe + e)
  cluster-IsTop any last =
      let (e, q, (el, on, high)) = n_max_some C VC lc t w.0 any in
      let up = lc.inhabited in
      let p = c * C.universe + e in
      let at : in_clusters S C left p ≡ true =
        in_left p (cluster-index S.universe C.universe up c e el)
        ∙ ap (C.f_has_element t) (element-index S.universe C.universe up c e el)
        ∙ on in
      (
        e,
        q,
        inl (
          index-lt S.universe C.universe up c e c-lt el,
          at,
          λ j l i. elim (dec_lt (j / C.universe) c) [
            | yes b ↦ omega (arith, index_below S.universe C.universe up c e j b)
            | no n ↦
                let under : j ≤ x = ground (arith, losing.5 j l, kept j l) in
                let same : j / C.universe ≡ c =
                  omega (arith, cluster_mono S.universe C.universe up j x under) in
                omega (
                  arith,
                  index_same S.universe C.universe up c j same,
                  high (j % C.universe) (element-lt S.universe C.universe up j)
                      (sym (in_left j same) ∙ i),
                )
          ],
        ),
      )

  pub emptied :
      C.f_has_any_elements t ≡ false
      → (s : S.State) × (S.delete nd.summary c ≡ some s) × IsClusters S C VS VC left s
  emptied bare =
      let (s, e, ws) = ls.delete-Writes nd.summary c k.whole c-lt summary_holds in
      (
        s,
        e,
        set-IsClusters S C VS VC ls lc nd.subtrees nd.summary k x losing.1 false t w s ws.0
            (λ d l. ws.1 d l ∙ ground (arith, bare)),
      )

  -- `settle` leaves the clusters without `x`, and everything else in order.
  pub settle-Settled : (r : Node S C) × (settle S C nd x t ≡ some r) × Settled r
  unfolding settle
  settle-Settled = elim (Bool-cases (C.f_has_any_elements t)) [
    | inl any ↦ elim (Bool-cases (x == nd.max)) [
      | inl last ↦
          let (e, q, top) = cluster-IsTop any last in
          let m = c * C.universe + e in
          (
            record nd { max = m; subtrees = left },
            rw (any, last, q) refl,
            (same_summary any, ends m top, refl, kept),
          )
      | inr other ↦ (
        record nd { subtrees = left },
        rw (any, other) refl,
        (same_summary any, ends nd.max (still other), refl, kept),
      )
    ]
    | inr bare ↦
        let (s, e, good) = emptied bare in
        let without : Node S C = record nd { subtrees = left; summary = s } in
        elim (Bool-cases (x == nd.max)) [
          | inl last ↦ elim (Bool-cases (S.f_has_any_elements s)) [
            | inl more ↦
                let (m, q, top) = last_in_clusters-MaxOf S C VS VC ls lc without good more in
                (
                  record without { max = m },
                  rw (bare, e, last, more, q) refl,
                  (good, ends m (inl top), refl, kept),
                )
            | inr over ↦ (
              record without { max = least S C nd },
              rw (bare, e, last, over) refl,
              (
                good,
                ends (least S C nd) (inr (refl, in_clusters-none S C VS VC ls lc left s good over)),
                refl,
                kept,
              ),
            )
          ]
          | inr other ↦
              (without, rw (bare, e, other) refl, (good, ends nd.max (still other), refl, kept))
        ]
  ]
