-- ===== src/VebFixed/Words.antt =====
-- `_VebFixedBase` over the words of _vebtree.h that `Ctz` and `Clz` are defined for.
use bienutil.Base.{ℕ, ◌*◌, ◌^◌, ◌≤◌, ◌<◌, List}
use bienutil.WordArray.Valid.{IsValid}
use bienutil.Veb.{IsLawful}
use bienutil.VebFixed.{k_next_integer_size, f_delete_all_after}
use bienutil.VebFixed.Sets.{fixed_base}
use bienutil.VebFixed.Tree.{scanned-IsLawful}
use bienutil.VebFixed.Remove.{KeepsUpTo, scanned-KeepsUpTo}
use bienutil.VebFixed.Zeros.{Word, bits, bits-pos, Builtins, ctz, clz, IsDocumented, zeros-IsScan}

module _ (word : Word) (u : ℕ) (b : Builtins) (documented : IsDocumented b word)
    (small : u ≤ 2 ^ 64) where
  -- In words of 32 or of 64 bits, whose zeros `Ctz` and `Clz` count by the compiler's builtins,
  -- `_VebFixedBase` with room for its universe acts as a set.
  pub fixed_base-IsLawful :
      (n : ℕ)
      → 0 < u
      → u ≤ n * bits word
      → IsLawful (fixed_base n (bits word) u (ctz b word) (clz b word)) (IsValid (bits word) u)
  fixed_base-IsLawful n some_number room =
      scanned-IsLawful n (bits word) u (ctz b word) (clz b word) (bits-pos word) small
        (zeros-IsScan b word documented) some_number room

  -- In words of 32 or of 64 bits, whose zeros `Clz` counts by the compiler's builtins, and where
  -- `x + 1` does not wrap around, `FDeleteAllAfter` keeps the elements up to `x` and no other, gives
  -- the greatest of them, and tells whether there is none.
  pub f_delete_all_after-KeepsUpTo :
      (rg : List ℕ) (valid : IsValid (bits word) u rg) (x : ℕ)
      → x < k_next_integer_size u
      → KeepsUpTo
          (bits word)
          u
          rg
          x
          (f_delete_all_after (bits word) u (ctz b word) (clz b word) rg x)
  f_delete_all_after-KeepsUpTo rg valid x fits =
      scanned-KeepsUpTo (bits word) u (ctz b word) (clz b word) (bits-pos word) small
        (zeros-IsScan b word documented) rg valid x fits
