-- ===== src/Veb/Node/Clusters.antt =====
-- The subtrees and the summary of a node: the set of what the clusters hold.
use native.Mathlib.Decide.{ℕ_discrete}
use bienutil.Base.{
  ℕ, ◌/◌, ◌%◌, ◌<◌, ◌≡◌, refl, sym, ap, ◌∙◌, arith, Bool, true, false, Option, none, some, List,
  ◌==◌, if◌then◌else◌, set, length, length-set, get_or-set_self, get_or-set_ne, Bool-cases, inl,
  inr,
}
use mathlib.Core.Path.{subst}
use bienutil.Base.{◌≢◌}
use bienutil.WordArray.Member.{same_position}
use bienutil.VebFixed.{is_some}
use bienutil.Veb.{VebTree, IsLawful, MinOf, Writes}
use bienutil.Veb.Index.{cluster-lt, element-lt}
use bienutil.Veb.Node.{universe, subtree}

module _ (S C : VebTree) where
  -- Membership in the clusters.
  abbrev pub in_clusters : List C.State → ℕ → Bool
  in_clusters ts j = C.f_has_element (subtree S C ts (j / C.universe)) (j % C.universe)

  -- Every subtree is valid, and the summary holds the numbers of those that are not empty.
  pub record IsClusters (VS : S.State → Type 0) (VC : C.State → Type 0) (ts : List C.State)
      (s : S.State) : Type 0 where
    pub sized : length ts ≡ S.universe
    pub each : (c : ℕ) → c < S.universe → VC (subtree S C ts c)
    pub whole : VS s
    pub summarised :
        (c : ℕ) → c < S.universe → S.f_has_element s c ≡ C.f_has_any_elements (subtree S C ts c)

module _ (V : VebTree) (P : V.State → Type 0) (law : IsLawful V P) (t : V.State) (valid : P t) where
  pub any-true :
      (x : ℕ) → x < V.universe → V.f_has_element t x ≡ true → V.f_has_any_elements t ≡ true
  unfolding is_some
  any-true x h on = law.any-min t valid ∙ by_min (V.n_min t) (law.n_min-MinOf t valid)
    where
      by_min : (o : Option ℕ) → MinOf V.universe (V.f_has_element t) o → is_some o ≡ true
      by_min none off = cc (off x h)
      by_min (some m) at = refl

  pub any-none :
      V.f_has_any_elements t ≡ false → (x : ℕ) → x < V.universe → V.f_has_element t x ≡ false
  any-none bare x h = elim (Bool-cases (V.f_has_element t x)) [
    | inl on ↦ cc (any-true x h on)
    | inr off ↦ off
  ]

module _ (S C : VebTree) (VS : S.State → Type 0) (VC : C.State → Type 0) (ls : IsLawful S VS)
    (lc : IsLawful C VC) where
  pub some-lt :
      (ts : List C.State) (s : S.State)
      → IsClusters S C VS VC ts s
      → (j : ℕ) → j < universe S C
      → in_clusters S C ts j ≡ true
      → S.f_has_element s (j / C.universe) ≡ true
  some-lt ts s k j h on =
      let c = cluster-lt S.universe C.universe lc.inhabited j h in
      k.summarised (j / C.universe) c
      ∙ any-true C VC lc (subtree S C ts (j / C.universe)) (k.each (j / C.universe) c)
          (j % C.universe) (element-lt S.universe C.universe lc.inhabited j) on

  pub in_clusters-none :
      (ts : List C.State) (s : S.State)
      → IsClusters S C VS VC ts s
      → S.f_has_any_elements s ≡ false
      → (j : ℕ) → j < universe S C
      → in_clusters S C ts j ≡ false
  in_clusters-none ts s k bare j h = elim (Bool-cases (in_clusters S C ts j)) [
    | inl on ↦ cc (
      some-lt ts s k j h on,
      any-none S VS ls s k.whole bare (j / C.universe)
          (cluster-lt S.universe C.universe lc.inhabited j h),
    )
    | inr off ↦ off
  ]

  pub none-lt :
      (ts : List C.State) (s : S.State)
      → IsClusters S C VS VC ts s
      → (j : ℕ) → j < universe S C
      → S.f_has_element s (j / C.universe) ≡ false
      → in_clusters S C ts j ≡ false
  none-lt ts s k j h off = elim (Bool-cases (in_clusters S C ts j)) [
    | inl on ↦ cc (some-lt ts s k j h on, off)
    | inr out ↦ out
  ]

  -- One cluster is replaced by one that differs in one place.
  module _ (ts : List C.State) (s : S.State) (k : IsClusters S C VS VC ts s) (x : ℕ)
      (h : x < universe S C) (b : Bool) (t : C.State)
      (w : Writes C VC (subtree S C ts (x / C.universe)) (x % C.universe) b t) where
    abbrev c : ℕ
    c = x / C.universe

    fits : c < length ts
    fits = rw k.sized (cluster-lt S.universe C.universe lc.inhabited x h)

    pub there : subtree S C (set ts c t) c ≡ t
    there = get_or-set_self ts c t C.empty fits

    elsewhere : (d : ℕ) → c ≢ d → subtree S C (set ts c t) d ≡ subtree S C ts d
    elsewhere d n = get_or-set_ne ts c d t C.empty n

    pub in_clusters-set :
        (j : ℕ)
        → j < universe S C
        → in_clusters S C (set ts c t) j ≡ (if x == j then b else in_clusters S C ts j)
    in_clusters-set j l = elim (ℕ_discrete c (j / C.universe)) [
      | yes e ↦
          let here : subtree S C (set ts c t) (j / C.universe) ≡ t = rw (sym e) there in
          ap (λ i. C.f_has_element i (j % C.universe)) here
          ∙ (w.1 (j % C.universe) (element-lt S.universe C.universe lc.inhabited j)
              ∙ ground (
                arith,
                same_position C.universe lc.inhabited x j,
                ap (λ d. C.f_has_element (subtree S C ts d) (j % C.universe)) e,
              ))
      | no n ↦
          ap (λ i. C.f_has_element i (j % C.universe)) (elsewhere (j / C.universe) n)
          ∙ ground (arith, same_position C.universe lc.inhabited x j)
    ]

    set_each : (d : ℕ) → d < S.universe → VC (subtree S C (set ts c t) d)
    set_each d l = elim (ℕ_discrete c d) [
      | yes e ↦ subst (λ i. VC (subtree S C (set ts c t) i)) e (rw there w.0)
      | no n ↦ rw (elsewhere d n) (k.each d l)
    ]

    -- The summary stays right when it holds the changed cluster exactly if that has elements.
    pub set-IsClusters :
        (r : S.State)
        → VS r
        → ((d : ℕ)
            → d < S.universe
            → S.f_has_element r d
              ≡ (if c == d then C.f_has_any_elements t else S.f_has_element s d))
        → IsClusters S C VS VC (set ts c t) r
    set-IsClusters r v m = record {
      sized = length-set ts c t ∙ k.sized;
      each = set_each;
      whole = v;
      summarised = λ d l. elim (ℕ_discrete c d) [
        | yes e ↦ m d l ∙ rw (sym e, there) (ground arith)
        | no n ↦ m d l ∙ rw (elsewhere d n) (ground (arith, k.summarised d l))
      ];
    }
