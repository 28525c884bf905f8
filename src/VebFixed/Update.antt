-- ===== src/VebFixed/Update.antt =====
-- Insertion and deletion of one element.
use bienutil.Base.{ℕ, ◌<◌, ◌≡◌, refl, true, false, not, List, Bool-cases, inl, inr}
use bienutil.WordArray.{member}
use bienutil.WordArray.Member.{test_bit-member}
use bienutil.WordArray.Valid.{IsValid, Writes, or_bit-Writes, clear_bit-Writes, unchanged}
use bienutil.VebFixed.{f_has_element, insert, delete, f_check_insert, f_check_delete}

module _ (w u : ℕ) (pos : 0 < w) (rg : List ℕ) (valid : IsValid w u rg) where
  module _ (x : ℕ) (h : x < u) where
    -- For an element of the universe, `FCheckInsert` and `FCheckDelete` leave a valid set with and
    -- without it, all others as they were, and tell whether that changed anything.
    pub f_check_lem :
        ((f_check_insert w rg x).0 ≡ not (member w rg x))
        × Writes w u rg x true (f_check_insert w rg x).1
        × ((f_check_delete w rg x).0 ≡ member w rg x)
        × Writes w u rg x false (f_check_delete w rg x).1
    unfolding f_check_insert f_check_delete f_has_element insert delete
    f_check_lem = elim (Bool-cases (member w rg x)) [
      | inl on ↦
          rw (test_bit-member w pos rg x, on)
            (
              refl,
              unchanged w u pos rg valid x h true on,
              refl,
              clear_bit-Writes w u pos rg valid x h,
            )
      | inr off ↦
          rw (test_bit-member w pos rg x, off)
            (
              refl,
              or_bit-Writes w u pos rg valid x h,
              refl,
              unchanged w u pos rg valid x h false off,
            )
    ]
