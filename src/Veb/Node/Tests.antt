-- ===== src/Veb/Node/Tests.antt =====
-- The theorems on `VebTreeFixed` at a universe of 256 numbers, over bit masks of sixteen, and runs.
use bienutil.Base.{
  ℕ, ◌-◌, ◌^◌, ◌≤◌, ◌<◌, ◌≡◌, refl, arith, true, false, not, none, some, [], ◌∷◌, replicate, set,
}
use mathlib.Core.Path.{subst}
use bienutil.WordArray.Valid.{IsValid as IsMask}
use bienutil.WordArray.Scans.{trailing64, leading64, scan64}
use bienutil.WordArray.{or_bit, test_bit}
use bienutil.VebFixed.{
  k_next_integer_size, insert as mask_insert, f_check_insert as mask_check_insert,
}
use bienutil.VebFixed.Sets.{fixed_base}
use bienutil.VebFixed.Tree.{scanned-IsLawful, fixed_base-IsTotal}
use bienutil.Veb.Node.Takes.{n_predecessor_delete}
use bienutil.Veb.Node.Takes.Predecessor.{n_predecessor_delete-Taken}
use bienutil.Veb.{Takes, NoPrevious, SomePrevious, VebTree, IsLawful}
use bienutil.Veb.Node.{
  Node, universe, range, plus_one, minus_one, empty, insert, f_has_any_elements, f_has_element,
  f_check_insert, delete, f_check_delete,
}
use bienutil.Veb.Node.Valid.{IsValid, Rewrites}
use bienutil.Veb.Node.Extent.{empty_lem}
use bienutil.Veb.Node.Insert.{insert-Rewrites, f_check_insert-Rewrites}
use bienutil.Veb.Node.Delete.{delete-Rewrites}
use bienutil.Veb.Node.CheckDelete.{f_check_delete_total}
use bienutil.Veb.Node.Throws.{f_check_delete_throws}
use bienutil.Veb.Node.Refines.{veb_tree_fixed, veb_tree_fixed-IsLawful}

abbrev sixteen : VebTree
sixteen = fixed_base 1 64 16 trailing64 leading64

sixteen-IsLawful : IsLawful sixteen (IsMask 64 16)
sixteen-IsLawful =
    scanned-IsLawful 1 64 16 trailing64 leading64 (omega arith) (omega arith) scan64 (omega arith)
      (omega arith)

abbrev IsTree : Node sixteen sixteen → Type 0
IsTree = IsValid sixteen sixteen (IsMask 64 16) (IsMask 64 16)

small : universe sixteen sixteen ≤ 2 ^ 64
small = omega arith

inserted :
    (nd r : Node sixteen sixteen) (x : ℕ)
    → IsTree nd
    → x < 256
    → f_has_element sixteen sixteen nd x ≡ false
    → insert sixteen sixteen nd x ≡ some r
    → IsTree r
inserted nd r x valid h off e =
    let (q, f, w) =
      insert-Rewrites sixteen sixteen (IsMask 64 16) (IsMask 64 16) sixteen-IsLawful
        sixteen-IsLawful small nd x valid h off in
    let same : q ≡ r = cc in subst IsTree same w.0

-- The number 200, and the numbers 3 and 200.
abbrev one : Node sixteen sixteen
one = record { min_plus_one = 201; max = 200; subtrees = replicate 16 (0 ∷ []); summary = 0 ∷ [] }

abbrev two : Node sixteen sixteen
two = record {
  min_plus_one = 4;
  max = 200;
  subtrees = set (replicate 16 (0 ∷ [])) 12 (256 ∷ []);
  summary = 4096 ∷ [];
}

insert_first_run : insert sixteen sixteen (empty sixteen sixteen) 200 ≡ some one
unfolding insert empty k_next_integer_size minus_one range plus_one
insert_first_run = refl

insert_run : insert sixteen sixteen one 3 ≡ some two
unfolding insert k_next_integer_size mask_insert mask_check_insert minus_one range plus_one or_bit
    test_bit
insert_run = refl

start :
    IsTree (empty sixteen sixteen)
    × ((j : ℕ) → f_has_element sixteen sixteen (empty sixteen sixteen) j ≡ false)
start =
    empty_lem sixteen sixteen (IsMask 64 16) (IsMask 64 16) sixteen-IsLawful sixteen-IsLawful small

one-IsTree : IsTree one
one-IsTree =
    inserted (empty sixteen sixteen) one 200 start.0 (omega arith) (start.1 200) insert_first_run

two-IsTree : IsTree two
unfolding f_has_element minus_one range
two-IsTree = inserted one two 3 one-IsTree (omega arith) absent insert_run
  where
    absent : f_has_element sixteen sixteen one 3 ≡ false
    absent = refl

has_three : f_has_element sixteen sixteen two 3 ≡ true
unfolding f_has_element minus_one range
has_three = refl

has_any : f_has_any_elements sixteen sixteen two ≡ true
unfolding f_has_any_elements minus_one range
has_any = refl

fills : universe sixteen sixteen ≡ range (universe sixteen sixteen)
unfolding range k_next_integer_size
fills = refl

no_elements : f_has_any_elements sixteen sixteen (empty sixteen sixteen) ≡ false
unfolding empty f_has_any_elements k_next_integer_size minus_one range
no_elements = refl

veb_tree_fixed-IsLawful_example : IsLawful (veb_tree_fixed sixteen sixteen) IsTree
veb_tree_fixed-IsLawful_example =
    veb_tree_fixed-IsLawful sixteen sixteen (IsMask 64 16) (IsMask 64 16) sixteen-IsLawful
      sixteen-IsLawful small

f_check_insert-Rewrites_example :
    (r : Node sixteen sixteen) × (f_check_insert sixteen sixteen two 77
      ≡ some (not (f_has_element sixteen sixteen two 77), r))
    × Rewrites sixteen sixteen (IsMask 64 16) (IsMask 64 16) two 77 true r
f_check_insert-Rewrites_example =
    f_check_insert-Rewrites sixteen sixteen (IsMask 64 16) (IsMask 64 16) sixteen-IsLawful
      sixteen-IsLawful small two 77 two-IsTree (omega arith)

delete-Rewrites_example :
    (r : Node sixteen sixteen) × (delete sixteen sixteen two 3 ≡ some r)
    × Rewrites sixteen sixteen (IsMask 64 16) (IsMask 64 16) two 3 false r
delete-Rewrites_example =
    delete-Rewrites sixteen sixteen (IsMask 64 16) (IsMask 64 16) sixteen-IsLawful sixteen-IsLawful
      small two 3 two-IsTree (omega arith) has_three

f_check_delete_total_example :
    (r : Node sixteen sixteen) × (f_check_delete sixteen sixteen two 200
      ≡ some (f_has_element sixteen sixteen two 200, r))
    × Rewrites sixteen sixteen (IsMask 64 16) (IsMask 64 16) two 200 false r
f_check_delete_total_example =
    f_check_delete_total sixteen sixteen (IsMask 64 16) (IsMask 64 16) sixteen-IsLawful
      sixteen-IsLawful small two 200 two-IsTree (omega arith)
      (fixed_base-IsTotal 1 64 16 trailing64 leading64 (omega arith) (omega arith) scan64) has_any

f_check_delete_throws_example :
    f_check_delete sixteen sixteen (empty sixteen sixteen) (256 - 1) ≡ none
f_check_delete_throws_example =
    f_check_delete_throws sixteen sixteen (IsMask 64 16) (IsMask 64 16) sixteen-IsLawful
      sixteen-IsLawful small (empty sixteen sixteen) start.0 no_elements fills

n_predecessor_delete-Taken_example :
    Takes
      (veb_tree_fixed sixteen sixteen)
      IsTree
      two
      (NoPrevious 256 (f_has_element sixteen sixteen two) 201)
      (SomePrevious (f_has_element sixteen sixteen two) 201)
      (n_predecessor_delete sixteen sixteen two 201)
n_predecessor_delete-Taken_example =
    n_predecessor_delete-Taken sixteen sixteen (IsMask 64 16) (IsMask 64 16) sixteen-IsLawful
      sixteen-IsLawful small two 201 two-IsTree (omega arith)
