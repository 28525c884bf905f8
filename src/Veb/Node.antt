-- ===== src/Veb/Node.antt =====
-- _vebtree.h: `VebTreeFixed` of a universe of `S.universe * C.universe` numbers, over its summary `S`
-- and its subtrees `C`. The least element is kept in the node only, as the number after it, so that
-- 0 stands for none; the greatest is kept in the node and in its cluster.
pub mod Clusters
pub mod Extremes
pub mod Valid
pub mod Enter
pub mod Insert
pub mod Settle
pub mod Delete
pub mod CheckDelete
pub mod Throws
pub mod Searches
pub mod Takes
pub mod Extent
pub mod Refines
mod Tests
use bienutil.Base.{
  ℕ, suc, ◌+◌, ◌-◌, ◌*◌, ◌/◌, ◌%◌, Bool, true, false, ◌||◌, Option, none, some, List, ltb, leb,
  ◌==◌, if◌then◌else◌, get_or, set, replicate, ◌>>=◌,
}
use bienutil.VebFixed.{k_next_integer_size}
use bienutil.Veb.{VebTree}

pub record Node (S C : VebTree) : Type 0 where
  pub min_plus_one : ℕ
  pub max : ℕ
  pub subtrees : List C.State
  pub summary : S.State

-- The number of values of `_tyImplType`, and the conversions in `_SetMin` and `_NMin`.
pub range : ℕ → ℕ
unfolding k_next_integer_size
range u = suc (k_next_integer_size u)

pub plus_one : ℕ → ℕ → ℕ
plus_one u x = suc x % range u

pub minus_one : ℕ → ℕ → ℕ
minus_one u x = (x + range u - 1) % range u

module _ (S C : VebTree) where
  abbrev pub universe : ℕ
  universe = S.universe * C.universe

  -- `NCluster`, `NElInCluster` and `NIndex`
  abbrev pub n_cluster : ℕ → ℕ
  n_cluster x = x / C.universe

  abbrev pub n_el_in_cluster : ℕ → ℕ
  n_el_in_cluster x = x % C.universe

  abbrev pub n_index : ℕ → ℕ → ℕ
  n_index x y = x * C.universe + y

  abbrev pub subtree : List C.State → ℕ → C.State
  subtree ts c = get_or ts c C.empty

  -- `_NMin`
  abbrev pub least : Node S C → ℕ
  least nd = minus_one universe nd.min_plus_one

  abbrev pub set_min : Node S C → ℕ → Node S C
  set_min nd x = record nd { min_plus_one = plus_one universe x }

  abbrev pub set_max : Node S C → ℕ → Node S C
  set_max nd x = record nd { max = x }

  abbrev pub set_empty_min_max : Node S C → Node S C
  set_empty_min_max nd = record nd { min_plus_one = 0; max = 0 }

  pub empty : Node S C
  empty = record {
    min_plus_one = 0;
    max = 0;
    subtrees = replicate S.universe C.empty;
    summary = S.empty;
  }

  pub f_has_any_elements : Node S C → Bool
  f_has_any_elements nd = leb (least nd) nd.max

  pub f_has_one_element : Node S C → Bool
  f_has_one_element nd = least nd == nd.max

  pub n_min : Node S C → Option ℕ
  unfolding f_has_any_elements
  n_min nd = if f_has_any_elements nd then some (least nd) else none

  pub n_max : Node S C → Option ℕ
  unfolding f_has_any_elements
  n_max nd = if f_has_any_elements nd then some nd.max else none

  pub f_has_element : Node S C → ℕ → Bool
  unfolding f_has_any_elements
  f_has_element nd x =
      if f_has_any_elements nd
      then (if least nd == x || nd.max == x
          then true
          else if least nd == nd.max
          then false
          else C.f_has_element (subtree nd.subtrees (n_cluster x)) (n_el_in_cluster x))
      else false

  -- The end of `Insert` and of `FCheckInsert`, with the changed cluster.
  abbrev pub put : Node S C → ℕ → S.State → C.State → Node S C
  put nd x s t = record nd {
    max = if ltb nd.max x then x else nd.max;
    subtrees = set nd.subtrees (n_cluster x) t;
    summary = s;
  }

  pub insert_in_cluster : Node S C → ℕ → Option (Node S C)
  insert_in_cluster nd x = do
    s ← S.f_check_insert nd.summary (n_cluster x)
    t ← C.insert (subtree nd.subtrees (n_cluster x)) (n_el_in_cluster x)
    some (put nd x s.1 t)

  pub insert : Node S C → ℕ → Option (Node S C)
  unfolding f_has_any_elements insert_in_cluster
  insert nd x =
      if f_has_any_elements nd
      then (if ltb x (least nd)
          then insert_in_cluster (set_min nd x) (least nd)
          else insert_in_cluster nd x)
      else some (set_max (set_min nd x) x)

  pub check_insert_in_cluster : Node S C → ℕ → Option (Bool × Node S C)
  check_insert_in_cluster nd x = do
    s ← S.f_check_insert nd.summary (n_cluster x)
    t ← C.f_check_insert (subtree nd.subtrees (n_cluster x)) (n_el_in_cluster x)
    some (t.0, put nd x s.1 t.1)

  pub f_check_insert : Node S C → ℕ → Option (Bool × Node S C)
  unfolding f_has_any_elements insert_in_cluster check_insert_in_cluster
  f_check_insert nd x =
      if f_has_any_elements nd
      then (if least nd == x
          then some (false, nd)
          else if ltb x (least nd)
          then insert_in_cluster (set_min nd x) (least nd) >>= (λ r. some (true, r))
          else check_insert_in_cluster nd x)
      else some (true, set_max (set_min nd x) x)

  -- The least element of the clusters, and the greatest.
  pub first_in_clusters : Node S C → Option ℕ
  first_in_clusters nd = do
    c ← S.n_min nd.summary
    e ← C.n_min (subtree nd.subtrees c)
    some (n_index c e)

  pub last_in_clusters : Node S C → Option ℕ
  last_in_clusters nd = do
    c ← S.n_max nd.summary
    e ← C.n_max (subtree nd.subtrees c)
    some (n_index c e)

  -- The end of `Delete` and of `FCheckDelete`, when `x` has been deleted from its cluster, now `t`.
  pub settle : Node S C → ℕ → C.State → Option (Node S C)
  unfolding last_in_clusters
  settle nd x t =
      let left = record nd { subtrees = set nd.subtrees (n_cluster x) t } in
      if C.f_has_any_elements t
      then (if x == nd.max
          then C.n_max t >>= (λ e. some (set_max left (n_index (n_cluster x) e)))
          else some left)
      else (do
        s ← S.delete nd.summary (n_cluster x)
        let without = record left { summary = s }
        if x == nd.max
            then (if S.f_has_any_elements s
                then last_in_clusters without >>= (λ m. some (set_max without m))
                else some (set_max without (least nd)))
            else some without)

  pub delete_in_cluster : Node S C → ℕ → Option (Node S C)
  unfolding settle
  delete_in_cluster nd x =
      C.delete (subtree nd.subtrees (n_cluster x)) (n_el_in_cluster x) >>= settle nd x

  -- The deletion of the least element: the next one, which is in the clusters, takes its place.
  pub delete_min : Node S C → Option (Node S C)
  unfolding first_in_clusters delete_in_cluster
  delete_min nd = first_in_clusters nd >>= (λ y. delete_in_cluster (set_min nd y) y)

  pub delete : Node S C → ℕ → Option (Node S C)
  unfolding f_has_one_element delete_min delete_in_cluster
  delete nd x =
      if f_has_one_element nd
      then some (set_empty_min_max nd)
      else if x == least nd
      then delete_min nd
      else delete_in_cluster nd x

  pub check_delete_in_cluster : Node S C → ℕ → Option (Bool × Node S C)
  unfolding settle
  check_delete_in_cluster nd x = do
    t ← C.f_check_delete (subtree nd.subtrees (n_cluster x)) (n_el_in_cluster x)
    if t.0
        then settle nd x t.1 >>= (λ r. some (true, r))
        else some (false, record nd { subtrees = set nd.subtrees (n_cluster x) t.1 })

  pub f_check_delete : Node S C → ℕ → Option (Bool × Node S C)
  unfolding f_has_one_element delete_min check_delete_in_cluster
  f_check_delete nd x =
      if f_has_one_element nd
      then (if x == nd.max then some (true, set_empty_min_max nd) else some (false, nd))
      else if x == least nd
      then delete_min nd >>= (λ r. some (true, r))
      else check_delete_in_cluster nd x
