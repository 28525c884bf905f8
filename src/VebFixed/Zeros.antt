-- ===== src/VebFixed/Zeros.antt =====
-- `Clz` and `Ctz` of _vebtree.h, in the words for which both count the zeros. `Ctz` is declared for
-- every type and defined for two; the generic `Clz`, for narrower words, is not right.
use bienutil.Base.{ℕ, ◌<◌, ◌≡◌, false, ◌==◌, if◌then◌else◌, arith}
use bienutil.WordArray.Scan.{IsScan}

-- `uint32_t` and `uint64_t`
pub data Word : Type 0 where
  word32 : Word
  word64 : Word

abbrev pub bits : Word → ℕ
bits word32 = 32
bits word64 = 64

-- The compiler's counts of zeros, each defined for words that are not zero.
pub record Builtins : Type 0 where
  pub builtin_ctz : ℕ → ℕ
  pub builtin_ctzll : ℕ → ℕ
  pub builtin_clz : ℕ → ℕ
  pub builtin_clzll : ℕ → ℕ

module _ (b : Builtins) where
  unfoldable pub ctz : Word → ℕ → ℕ
  ctz word32 n = if n == 0 then 32 else b.builtin_ctz n
  ctz word64 n = if n == 0 then 64 else b.builtin_ctzll n

  unfoldable pub clz : Word → ℕ → ℕ
  clz word32 n = if n == 0 then 32 else b.builtin_clz n
  clz word64 n = if n == 0 then 64 else b.builtin_clzll n

  -- What is documented of them: the positions of the lowest and of the highest digit of a word that
  -- is not zero.
  abbrev pub IsDocumented : Word → Type 0
  IsDocumented word32 = IsScan 32 b.builtin_ctz b.builtin_clz
  IsDocumented word64 = IsScan 64 b.builtin_ctzll b.builtin_clzll

  pub zeros-IsScan : (word : Word) → IsDocumented word → IsScan (bits word) (ctz word) (clz word)
  unfolding ctz clz
  zeros-IsScan word32 d = record {
    trailing = λ v nz h. let e : (v == 0) ≡ false = ground arith in rw e (d.trailing v nz h);
    leading = λ v nz h. let e : (v == 0) ≡ false = ground arith in rw e (d.leading v nz h);
  }
  zeros-IsScan word64 d = record {
    trailing = λ v nz h. let e : (v == 0) ≡ false = ground arith in rw e (d.trailing v nz h);
    leading = λ v nz h. let e : (v == 0) ≡ false = ground arith in rw e (d.leading v nz h);
  }

pub bits-pos : (word : Word) → 0 < bits word
bits-pos word32 = omega arith
bits-pos word64 = omega arith
