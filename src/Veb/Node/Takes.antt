-- ===== src/Veb/Node/Takes.antt =====
-- `NSuccessorDelete` and `NPredecessorDelete` of `VebTreeFixed`.
pub mod Lost
pub mod Cluster
pub mod Predecessor
pub mod Successor
pub mod Asserts
use bienutil.Base.{
  ℕ, ◌+◌, ◌*◌, ◌-◌, Bool, true, false, Option, none, some, List, ltb, not, ◌&&◌, ◌||◌, ◌==◌,
  if◌then◌else◌, set, ◌>>=◌,
}
use bienutil.Veb.{VebTree}
use bienutil.Veb.Node.{
  Node, universe, n_cluster, n_el_in_cluster, n_index, subtree, least, set_max, f_has_any_elements,
  delete,
}
use bienutil.Veb.Node.Searches.{holds}

module _ (S C : VebTree) where
  -- `FHasMinMax` of a subtree that has elements.
  abbrev pub min_max : C.State → Option (ℕ × ℕ)
  min_max t = do low ← C.n_min t; high ← C.n_max t; some (low, high)

  -- The end of `NSuccessorDelete` where a cluster has lost its only element, `e`.
  pub drop_cluster : Node S C → ℕ → ℕ → Option (Node S C)
  drop_cluster nd c e = do
    s ← S.delete nd.summary c
    let without = record nd { summary = s }
    if n_index S C c e == nd.max
        then (do
          k ← S.n_predecessor s c
          if k == S.universe - 1
              then some (set_max S C without (least S C nd))
              else C.n_max (subtree S C nd.subtrees k)
                >>= (λ m. some (set_max S C without (n_index S C k m))))
        else some without

  -- What `NSuccessorDelete` does when a cluster, now `t`, has lost `y`; `ends` are its least and its
  -- greatest element before.
  pub lost_here : Node S C → ℕ → C.State → ℕ × ℕ → ℕ → Option (Node S C)
  unfolding drop_cluster
  lost_here nd c t ends y =
      let left = record nd { subtrees = set nd.subtrees c t } in
      if ends.0 == ends.1
      then drop_cluster left c ends.1
      else if y == nd.max
      then C.n_max t >>= (λ m. some (set_max S C left (n_index S C c m)))
      else some left

  pub lost_after : Node S C → ℕ → C.State → ℕ × ℕ → Option (Node S C)
  unfolding drop_cluster
  lost_after nd c t ends =
      let left = record nd { subtrees = set nd.subtrees c t } in
      if ends.0 == ends.1 then drop_cluster left c ends.1 else some left

  -- The two assertions where the successor is in the cluster of the number, whose place in it is `e`:
  -- that the cluster's search has found an element, and that `e` is its only one if it has only one.
  abbrev pub assertions_hold : ℕ → ℕ × ℕ → ℕ → Bool
  assertions_hold e ends y = not (y == 0) && (not (ends.0 == ends.1) || e == ends.0)

  -- `asserts` says whether assertions are tested; `none` is also one that does not hold.
  pub take_successor_here : (asserts : Bool) → Node S C → ℕ → ℕ → Option (ℕ × Node S C)
  unfolding lost_here
  take_successor_here asserts nd c e = do
    ends ← min_max (subtree S C nd.subtrees c)
    found ← C.n_successor_delete (subtree S C nd.subtrees c) e
    if asserts && not (assertions_hold e ends found.0) then none else (do
      r ← lost_here nd c found.1 ends (n_index S C c found.0)
      some (n_index S C c found.0, r))

  pub take_successor_after : Node S C → ℕ → Option (ℕ × Node S C)
  unfolding lost_after
  take_successor_after nd c = do
    k ← S.n_successor nd.summary c
    if k == 0 then some (0, nd) else (do
      ends ← min_max (subtree S C nd.subtrees k)
      t ← C.delete (subtree S C nd.subtrees k) ends.0
      r ← lost_after nd k t ends
      some (n_index S C k ends.0, r))

  pub n_successor_delete : (asserts : Bool) → Node S C → ℕ → Option (ℕ × Node S C)
  unfolding f_has_any_elements delete take_successor_here take_successor_after
  n_successor_delete asserts nd x =
      let c = n_cluster S C x in
      let e = n_el_in_cluster S C x in
      if f_has_any_elements S C nd
      then (if ltb x (least S C nd)
          then delete S C nd (least S C nd) >>= (λ r. some (least S C nd, r))
          else if holds (ltb e) (C.n_max (subtree S C nd.subtrees c))
          then take_successor_here asserts nd c e
          else take_successor_after nd c)
      else some (0, nd)

  -- A cluster that has lost an element; `single` if it was its only one.
  pub left_without : Node S C → ℕ → C.State → Bool → Option (Node S C)
  left_without nd c t single =
      let left = record nd { subtrees = set nd.subtrees c t } in
      if single
      then S.delete nd.summary c >>= (λ s. some (record left { summary = s }))
      else some left

  pub take_predecessor_here : Node S C → ℕ → ℕ → Option (ℕ × Node S C)
  unfolding left_without
  take_predecessor_here nd c e = do
    ends ← min_max (subtree S C nd.subtrees c)
    found ← C.n_predecessor_delete (subtree S C nd.subtrees c) e
    r ← left_without nd c found.1 (ends.0 == ends.1)
    some (n_index S C c found.0, r)

  pub take_predecessor_before : Node S C → ℕ → Option (ℕ × Node S C)
  unfolding left_without delete
  take_predecessor_before nd x = do
    k ← S.n_predecessor nd.summary (n_cluster S C x)
    if k == S.universe - 1
        then (if ltb (least S C nd) x
            then delete S C nd (least S C nd) >>= (λ r. some (least S C nd, r))
            else some (universe S C - 1, nd))
        else (do
          ends ← min_max (subtree S C nd.subtrees k)
          t ← C.delete (subtree S C nd.subtrees k) ends.1
          r ← left_without nd k t (ends.0 == ends.1)
          some (n_index S C k ends.1, r))

  pub n_predecessor_delete : Node S C → ℕ → Option (ℕ × Node S C)
  unfolding f_has_any_elements delete take_predecessor_here take_predecessor_before
  n_predecessor_delete nd x =
      let c = n_cluster S C x in
      let e = n_el_in_cluster S C x in
      if f_has_any_elements S C nd
      then (if ltb nd.max x
          then delete S C nd nd.max >>= (λ r. some (nd.max, r))
          else if holds (λ m. ltb m e) (C.n_min (subtree S C nd.subtrees c))
          then take_predecessor_here nd c e
          else take_predecessor_before nd x)
      else some (universe S C - 1, nd)
