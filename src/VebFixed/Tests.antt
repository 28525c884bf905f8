-- ===== src/VebFixed/Tests.antt =====
-- The theorems on `_VebFixedBase` at universes of 128 and of 256 numbers in words of 64 bits, with
-- counts of zeros by the highest set bit.
use native.Mathlib.Nat.{le-div_iff_mul-le}
use bienutil.Base.{ℕ, ◌-◌, ◌^◌, refl, arith, List, [], ◌∷◌}
use bienutil.WordArray.Member.{member_above}
use bienutil.VebFixed.{k_next_integer_size, f_delete_all_after}
use bienutil.WordArray.Scans.{trailing64, leading64, scan64}
use bienutil.Veb.{IsLawful}
use bienutil.VebFixed.Sets.{fixed_base}
use bienutil.VebFixed.Remove.{KeepsUpTo, f_delete_all_after_wraps}
use bienutil.VebFixed.Zeros.{word64, Builtins, ctz, clz}
use bienutil.VebFixed.Words.{fixed_base-IsLawful, f_delete_all_after-KeepsUpTo}
use bienutil.WordArray.Valid.{IsValid}
use bienutil.VebFixed.Order.{IsEmpty}

-- Builtins by the highest set bit of a 64-bit value.
abbrev builtins : Builtins
builtins = record {
  builtin_ctz = trailing64;
  builtin_ctzll = trailing64;
  builtin_clz = leading64;
  builtin_clzll = leading64;
}

-- 0, 2 and 73.
abbrev three : List ℕ
three = 5 ∷ 512 ∷ []

three-IsValid : IsValid 64 128 three
three-IsValid = record {
  words = (omega arith, (omega arith, tt));
  sized = omega arith;
  bounded = λ i h. member_above 64 (omega arith) three i ((le-div_iff_mul-le (omega arith)).1 h);
}

f_delete_all_after-KeepsUpTo_example :
    KeepsUpTo 64 128 three 4
      (f_delete_all_after 64 128 (ctz builtins word64) (clz builtins word64) three 4)
f_delete_all_after-KeepsUpTo_example =
    f_delete_all_after-KeepsUpTo word64 128 builtins scan64 (omega arith) three three-IsValid 4
      (unfold k_next_integer_size in omega arith)

-- The numbers 0 and 255 in the universe of all bytes.
abbrev ends : List ℕ
ends = 1 ∷ 0 ∷ 0 ∷ 2 ^ 63 ∷ []

ends-IsValid : IsValid 64 256 ends
ends-IsValid = record {
  words = (omega arith, (omega arith, (omega arith, (omega arith, tt))));
  sized = omega arith;
  bounded = λ i h. member_above 64 (omega arith) ends i ((le-div_iff_mul-le (omega arith)).1 h);
}

f_delete_all_after_wraps_example :
    IsEmpty 64 (f_delete_all_after 64 256 (λ v. 0) (λ v. 0) ends (256 - 1)).2
f_delete_all_after_wraps_example =
    f_delete_all_after_wraps 64 256 (λ v. 0) (λ v. 0) (omega arith) ends ends-IsValid (omega arith)
      (unfold k_next_integer_size in refl)

fixed_base-IsLawful_example :
    IsLawful (fixed_base 2 64 128 (ctz builtins word64) (clz builtins word64)) (IsValid 64 128)
fixed_base-IsLawful_example =
    fixed_base-IsLawful word64 128 builtins scan64 (omega arith) 2 (omega arith) (omega arith)
