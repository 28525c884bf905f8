-- ===== src/SimpBv/Tests.antt =====
-- The theorems on _simpbv.h at a vector of twelve bits in words of eight, and runs.
use bienutil.Base.{ℕ, suc, ◌≡◌, refl, arith, some, List, [], ◌∷◌}
use bienutil.BitUtil.{k_ms_bit_set8}
use bienutil.FixedBv.Trim
use bienutil.FixedBv.{trim}
use bienutil.WordArray.{member, first_word}
use bienutil.WordArray.Scans.{leading8, scan8}
use bienutil.WordArray.Valid.{IsValid}
use bienutil.SimpBv.{
  getfirstset, getnextset, getclearfirstset, bv_get_first_set, countsetbits, without_first,
}
use bienutil.SimpBv.Search.{IsFirst, getset_lem}
use bienutil.SimpBv.Clear.{IsTaken, getclearfirstset-IsTaken}
use bienutil.SimpBv.Count.{count_below, countsetbits-count_below}

-- Bits 0, 2 and 9; and bits 2 and 11.
abbrev three : List ℕ
three = 5 ∷ 2 ∷ []

abbrev two : List ℕ
two = 4 ∷ 8 ∷ []

from_trim : (rg : List ℕ) → Trim.IsValid 12 8 rg → IsValid 8 12 rg
from_trim rg t = record { words = t.words; sized = rw t.sized (omega arith); bounded = t.trimmed }

three-IsValid : IsValid 8 12 three
unfolding trim
three-IsValid =
    from_trim three (Trim.trim-IsValid 12 8 (omega arith) three refl (omega arith) (omega arith))

two-IsValid : IsValid 8 12 two
unfolding trim
two-IsValid =
    from_trim two (Trim.trim-IsValid 12 8 (omega arith) two refl (omega arith) (omega arith))

next_run : getnextset leading8 8 12 8 three 2 ≡ 9
unfolding getnextset bv_get_first_set first_word without_first k_ms_bit_set8
next_run = refl

count_run : countsetbits 8 (7 ∷ 8 ∷ []) ≡ some 4
unfolding countsetbits
count_run = refl

getset_lem_example :
    IsFirst 12 (member 8 three) 0 (getfirstset leading8 8 12 8 three)
    × ((last : ℕ) → IsFirst 12 (member 8 three) (suc last) (getnextset leading8 8 12 8 three last))
getset_lem_example =
    getset_lem leading8 8 12 8 (omega arith) (omega arith) scan8.leading three three-IsValid

getclearfirstset-IsTaken_example : IsTaken 12 8 three (getclearfirstset leading8 8 12 8 three)
getclearfirstset-IsTaken_example =
    getclearfirstset-IsTaken leading8 8 12 8 (omega arith) (omega arith) scan8.leading three
      three-IsValid

countsetbits-count_below_example : countsetbits 8 three ≡ some (count_below (member 8 three) 12)
countsetbits-count_below_example = countsetbits-count_below 12 8 three (omega arith) three-IsValid
