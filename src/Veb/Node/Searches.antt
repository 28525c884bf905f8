-- ===== src/Veb/Node/Searches.antt =====
-- `NSuccessor` and `NPredecessor` of `VebTreeFixed`.
pub mod Next
pub mod Successor
pub mod Previous
pub mod Predecessor
use bienutil.Base.{ℕ, ◌-◌, Bool, false, Option, none, some, ltb, ◌==◌, if◌then◌else◌, ◌>>=◌}
use bienutil.Veb.{VebTree}
use bienutil.Veb.Node.{
  Node, universe, n_cluster, n_el_in_cluster, n_index, subtree, least, f_has_any_elements,
}

-- Whether an optional number satisfies a test.
abbrev pub holds : (ℕ → Bool) → Option ℕ → Bool
holds f none = false
holds f (some m) = f m

module _ (S C : VebTree) where
  -- What `NSuccessor` and `NPredecessor` do outside of the cluster of `x`.
  pub successor_after : Node S C → ℕ → Option ℕ
  successor_after nd c = do
    k ← S.n_successor nd.summary c
    if k == 0 then some 0 else C.n_min (subtree S C nd.subtrees k) >>= (λ e. some (n_index S C k e))

  pub predecessor_before : Node S C → ℕ → Option ℕ
  predecessor_before nd x = do
    k ← S.n_predecessor nd.summary (n_cluster S C x)
    if k == S.universe - 1
        then some (if ltb (least S C nd) x then least S C nd else universe S C - 1)
        else C.n_max (subtree S C nd.subtrees k) >>= (λ e. some (n_index S C k e))

  pub n_successor : Node S C → ℕ → Option ℕ
  unfolding f_has_any_elements successor_after
  n_successor nd x =
      let c = n_cluster S C x in
      let t = subtree S C nd.subtrees c in
      let e = n_el_in_cluster S C x in
      if f_has_any_elements S C nd
      then (if ltb x (least S C nd)
          then some (least S C nd)
          else if holds (ltb e) (C.n_max t)
          then C.n_successor t e >>= (λ y. some (n_index S C c y))
          else successor_after nd c)
      else some 0

  pub n_predecessor : Node S C → ℕ → Option ℕ
  unfolding f_has_any_elements predecessor_before
  n_predecessor nd x =
      let c = n_cluster S C x in
      let t = subtree S C nd.subtrees c in
      let e = n_el_in_cluster S C x in
      if f_has_any_elements S C nd
      then (if ltb nd.max x
          then some nd.max
          else if holds (λ m. ltb m e) (C.n_min t)
          then C.n_predecessor t e >>= (λ y. some (n_index S C c y))
          else predecessor_before nd x)
      else some (universe S C - 1)
