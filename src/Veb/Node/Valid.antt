-- ===== src/Veb/Node/Valid.antt =====
-- The invariant of a node, and what it says of its elements.
use native.Mathlib.Nat.{mod-eq_of_lt, mod_self, mul-add-mod_self_right}
use native.Mathlib.Decide.{dec_lt}
use bienutil.Base.{
  ℕ, suc, ◌+◌, ◌-◌, ◌*◌, ◌%◌, ◌^◌, ◌≤◌, ◌<◌, ◌≡◌, ◌⊎◌, inl, inr, refl, ap, ◌∙◌, arith, Bool, true,
  false, ◌||◌, ◌==◌, if◌then◌else◌, Bool-cases,
}
use bienutil.VebFixed.{k_next_integer_size}
use bienutil.Veb.{VebTree}
use bienutil.Veb.Node.{
  Node, range, plus_one, minus_one, universe, least, f_has_any_elements, f_has_element,
}
use bienutil.Veb.Node.Clusters.{IsClusters, in_clusters}

pub range_bounds : (u : ℕ) → u ≤ 2 ^ 64 → (u ≤ range u) × (1 < range u)
unfolding range k_next_integer_size
range_bounds u h = ground arith

around : (r x : ℕ) → x < r → (suc x % r + r - 1) % r ≡ x
around r x h = elim (dec_lt (suc x) r) [
  | yes l ↦
      let up : suc x % r + r - 1 ≡ 1 * r + x = omega (arith, mod-eq_of_lt l) in
      ap (λ t. t % r) up ∙ mul-add-mod_self_right 1 r x ∙ mod-eq_of_lt h
  | no n ↦
      let last : suc x ≡ r = omega arith in
      let down : suc x % r + r - 1 ≡ x = omega (arith, ap (λ t. t % r) last ∙ mod_self r) in
      ap (λ t. t % r) down ∙ mod-eq_of_lt h
]

-- The number after an element wraps to 0 where the universe fills its type, and the element is
-- found again.
pub minus_one-plus_one : (u x : ℕ) → u ≤ 2 ^ 64 → x < u → minus_one u (plus_one u x) ≡ x
unfolding minus_one plus_one
minus_one-plus_one u x small h = around (range u) x (omega (arith, (range_bounds u small).0))

pub minus_one-zero : (u : ℕ) → u ≤ 2 ^ 64 → 0 < minus_one u 0
unfolding minus_one
minus_one-zero u small =
    let bounds = range_bounds u small in
    omega
      (arith, bounds.1, mod-eq_of_lt {n = 0 + range u - 1} {m = range u} (omega (arith, bounds.1)))

-- `low` is the least element of a tree and `high` the greatest, where it has one; `held` are the
-- elements that the clusters hold: all but the least.
abbrev pub Spans : ℕ → (ℕ → Bool) → ℕ → ℕ → Type 0
Spans u held low high =
    (low ≤ high) × (high < u) × ((j : ℕ) → j < u → held j ≡ true → (low < j) × (j ≤ high))

abbrev pub Ends : ℕ → (ℕ → Bool) → ℕ → ℕ → Type 0
Ends u held low high = Spans u held low high × ((high ≡ low) ⊎ (held high ≡ true))

pub low_not_held :
    (u : ℕ) (held : ℕ → Bool) (low high : ℕ) → Spans u held low high → held low ≡ false
low_not_held u held low high (le, lt, within) = elim (Bool-cases (held low)) [
  | inl on ↦ let self : low < low = (within low (omega arith) on).0 in absurd (omega (arith, self))
  | inr off ↦ off
]

module _ (S C : VebTree) where
  abbrev pub IsFull : Node S C → Type 0
  IsFull nd = Ends (universe S C) (in_clusters S C nd.subtrees) (least S C nd) nd.max

  abbrev pub IsBare : Node S C → Type 0
  IsBare nd =
      (nd.min_plus_one ≡ 0)
      × (nd.max ≡ 0)
      × ((j : ℕ) → j < universe S C → in_clusters S C nd.subtrees j ≡ false)

  pub record IsValid (VS : S.State → Type 0) (VC : C.State → Type 0) (nd : Node S C) : Type 0 where
    pub clusters : IsClusters S C VS VC nd.subtrees nd.summary
    pub bounds : IsBare nd ⊎ IsFull nd

  module _ (small : universe S C ≤ 2 ^ 64) (nd : Node S C) where
    pub any-bare : IsBare nd → f_has_any_elements S C nd ≡ false
    unfolding f_has_any_elements
    any-bare (zero_min, zero_max, off) =
        let past : 0 < minus_one (universe S C) nd.min_plus_one =
          rw zero_min (minus_one-zero (universe S C) small) in
        ground (arith, past)

    pub any-full : IsFull nd → f_has_any_elements S C nd ≡ true
    unfolding f_has_any_elements
    any-full full = ground (arith, full.0.0)

    pub element-bare : IsBare nd → (x : ℕ) → f_has_element S C nd x ≡ false
    unfolding f_has_element
    element-bare bare x = rw (any-bare bare) refl

    pub element-full :
        IsFull nd
        → (x : ℕ) → x < universe S C
        → f_has_element S C nd x ≡ (least S C nd == x || in_clusters S C nd.subtrees x)
    unfolding f_has_element
    element-full full x h =
        rw (any-full full) (ground (arith, full.0.2 x h, full.1, ap (in_clusters S C nd.subtrees)))

  -- The tree with `x` present or not as `b` says, and every other number as before.
  abbrev pub Rewrites :
      (S.State → Type 0) → (C.State → Type 0) → Node S C → ℕ → Bool → Node S C → Type 0
  Rewrites VS VC nd x b r =
      IsValid VS VC r
      × ((j : ℕ)
          → j < universe S C
          → f_has_element S C r j ≡ (if x == j then b else f_has_element S C nd j))
