-- ===== src/FixedBv/Tests.antt =====
-- The theorems on fixedbv.h at a set of twelve bits in words of eight, and runs.
use bienutil.Base.{
  ◌+◌, ◌-◌, ◌%◌, ◌^◌, ℕ, ◌≡◌, refl, arith, Bool, true, false, not, List, [], ◌∷◌, some,
}
use bienutil.WordArray.{or_bit}
use bienutil.FixedBv.{trim, set_bit, set_value, reset_bit, flip_one}
use bienutil.BitUtil.{k_ms_bit_set8}
use bienutil.WordArray.Scans.{trailing8, leading8, scan8}
use bienutil.FixedBv.{get_next_bit}
use bienutil.FixedBv.Next.{NextBit, get_next_bit-NextBit}
use bienutil.FixedBv.Trim.{IsValid, trim-IsValid}
use bienutil.FixedBv.Bits.{Updates, single_bit-Updates}

-- Bits 0, 2 and 9.
abbrev three : List ℕ
three = 5 ∷ 2 ∷ []

three-IsValid : IsValid 12 8 three
unfolding trim
three-IsValid = trim-IsValid 12 8 (omega arith) three refl (omega arith) (omega arith)

set_run : set_bit 12 8 three 11 ≡ some (5 ∷ 10 ∷ [])
unfolding set_bit or_bit
set_run = refl

single_bit-Updates_example :
    Updates 12 8 three 11 (set_bit 12 8 three 11) (λ _. true)
    × ((b : Bool) → Updates 12 8 three 11 (set_value 12 8 three 11 b) (λ _. b))
    × Updates 12 8 three 11 (reset_bit 12 8 three 11) (λ _. false)
    × Updates 12 8 three 11 (flip_one 12 8 three 11) not
single_bit-Updates_example =
    single_bit-Updates 12 8 (omega arith) three three-IsValid 11 (omega arith)

get_next_bit-NextBit_example :
    NextBit 8 three ((2 + 1) % 2 ^ 64) (get_next_bit 12 8 trailing8 three 2)
get_next_bit-NextBit_example =
    get_next_bit-NextBit 12 8 (omega arith) trailing8 leading8 scan8 three three-IsValid 2

first_bit_run : get_next_bit 12 8 trailing8 three (2 ^ 64 - 1) ≡ some 0
unfolding get_next_bit k_ms_bit_set8
first_bit_run = refl
