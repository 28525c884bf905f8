-- ===== src/Veb/Node/Refines.antt =====
-- `VebTreeFixed` is itself such a tree.
use bienutil.Base.{false, ◌^◌, ◌≤◌, arith}
use bienutil.Veb.{VebTree, IsLawful}
use bienutil.Veb.Index.{index-lt}
use bienutil.Veb.Node.{
  Node, universe, empty, f_has_any_elements, f_has_element, n_min, n_max, insert, f_check_insert,
  delete, f_check_delete,
}
use bienutil.Veb.Node.Valid.{IsValid}
use bienutil.Veb.Node.Extent.{empty_lem, n_min_max_lem}
use bienutil.Veb.Node.Insert.{insert-Rewrites, f_check_insert-Rewrites}
use bienutil.Veb.Node.Delete.{delete-Rewrites}
use bienutil.Veb.Node.CheckDelete.{f_check_delete_element}
use bienutil.Veb.Node.Takes.{n_successor_delete, n_predecessor_delete}
use bienutil.Veb.Node.Takes.Successor.{n_successor_delete-Taken}
use bienutil.Veb.Node.Takes.Predecessor.{n_predecessor_delete-Taken}
use bienutil.Veb.Node.Searches.{n_successor, n_predecessor}
use bienutil.Veb.Node.Searches.Successor.{n_successor_lem}
use bienutil.Veb.Node.Searches.Predecessor.{n_predecessor_lem}

abbrev pub veb_tree_fixed : VebTree → VebTree → VebTree
veb_tree_fixed S C = record {
  State = Node S C;
  universe = universe S C;
  empty = empty S C;
  f_has_any_elements = f_has_any_elements S C;
  n_min = n_min S C;
  n_max = n_max S C;
  f_has_element = f_has_element S C;
  insert = insert S C;
  f_check_insert = f_check_insert S C;
  delete = delete S C;
  f_check_delete = f_check_delete S C;
  n_successor = n_successor S C;
  n_predecessor = n_predecessor S C;
  n_successor_delete = n_successor_delete S C false;
  n_predecessor_delete = n_predecessor_delete S C;
}

module _ (S C : VebTree) (VS : S.State → Type 0) (VC : C.State → Type 0) (ls : IsLawful S VS)
    (lc : IsLawful C VC) (small : universe S C ≤ 2 ^ 64) where
  -- Over a summary and subtrees that act as sets, `VebTreeFixed` acts as a set, where the assertions
  -- of `NSuccessorDelete` are not tested.
  pub veb_tree_fixed-IsLawful : IsLawful (veb_tree_fixed S C) (IsValid S C VS VC)
  veb_tree_fixed-IsLawful = record {
    inhabited =
        omega (arith, index-lt S.universe C.universe lc.inhabited 0 0 ls.inhabited lc.inhabited);
    empty-IsValid = (empty_lem S C VS VC ls lc small).0;
    element-empty = λ j h. (empty_lem S C VS VC ls lc small).1 j;
    any-min = λ t v. (n_min_max_lem S C VS VC ls lc small t v).2;
    any-max = λ t v. (n_min_max_lem S C VS VC ls lc small t v).3;
    n_min-MinOf = λ t v. (n_min_max_lem S C VS VC ls lc small t v).0;
    n_max-MaxOf = λ t v. (n_min_max_lem S C VS VC ls lc small t v).1;
    insert-Writes = λ t x v h. insert-Rewrites S C VS VC ls lc small t x v h;
    f_check_insert-Reports = λ t x v h. f_check_insert-Rewrites S C VS VC ls lc small t x v h;
    delete-Writes = λ t x v h. delete-Rewrites S C VS VC ls lc small t x v h;
    f_check_delete-Reports = λ t x v h on. f_check_delete_element S C VS VC ls lc small t x v h on;
    n_successor-NextOf = λ t x v h. n_successor_lem S C VS VC ls lc small t x v h;
    n_predecessor-PreviousOf = λ t x v h. n_predecessor_lem S C VS VC ls lc small t x v h;
    n_successor_delete-Takes = λ t x v h. n_successor_delete-Taken S C VS VC ls lc small t x v h;
    n_predecessor_delete-Takes =
        λ t x v h. n_predecessor_delete-Taken S C VS VC ls lc small t x v h;
  }
