-- ===== src/VebFixed/Sets.antt =====
-- `_VebFixedBase` as a tree: what its searches say of the set.
use native.Mathlib.Decide.{dec_lt}
use bienutil.Base.{
  ℕ, suc, ◌*◌, ◌/◌, ◌^◌, ◌≤◌, ◌<◌, ◌≡◌, inl, inr, refl, ◌∙◌, arith, Bool, true, false, Option, none,
  some, List, replicate, length-replicate, get_or-replicate, zero,
}
use bienutil.Base.Digits.{two-pow-pos}
use bienutil.WordArray.{member, first_word}
use bienutil.WordArray.Member.{test_bit-member, AreWords}
use bienutil.WordArray.Valid.{IsValid, Writes as Wrote}
use bienutil.WordArray.Scan.{empty_word, IsScan, IsLeast}
use bienutil.VebFixed.{
  is_some, located, lowest, f_has_any_elements, f_has_element, f_has_min, f_has_max, insert, delete,
  f_check_insert, f_check_delete, n_successor, n_predecessor,
}
use bienutil.VebFixed.Order.{
  IsMaximum, IsEmpty, Describes, n_successor-IsLeast, n_predecessor-IsGreatest, f_has_min_max_lem,
}
use bienutil.VebFixed.{n_successor_delete, n_predecessor_delete}
use bienutil.Veb.{VebTree, Writes, MinOf, MaxOf, NextOf, PreviousOf}

-- The tree of the numbers below `u` in `n` words of `w` bits.
abbrev pub fixed_base : (n w u : ℕ) → (ℕ → ℕ) → (ℕ → ℕ) → VebTree
fixed_base n w u ctz clz = record {
  State = List ℕ;
  universe = u;
  empty = replicate n 0;
  f_has_any_elements = f_has_any_elements;
  n_min = f_has_min w u ctz clz;
  n_max = f_has_max w u ctz clz;
  f_has_element = f_has_element w;
  insert = λ rg x. some (insert w rg x);
  f_check_insert = λ rg x. some (f_check_insert w rg x);
  delete = λ rg x. some (delete w rg x);
  f_check_delete = λ rg x. some (f_check_delete w rg x);
  n_successor = λ rg x. some (n_successor w u ctz clz rg x);
  n_predecessor = λ rg x. some (n_predecessor w u ctz clz rg x);
  n_successor_delete = λ rg x. some (n_successor_delete w u ctz clz rg x);
  n_predecessor_delete = λ rg x. some (n_predecessor_delete w u ctz clz rg x);
}

module _ (n w u : ℕ) (ctz clz : ℕ → ℕ) (pos : 0 < w) (small : u ≤ 2 ^ 64)
    (scan : IsScan w ctz clz) where
  abbrev V : VebTree
  V = fixed_base n w u ctz clz

  pub has_lem : (rg : List ℕ) (x : ℕ) → f_has_element w rg x ≡ member w rg x
  unfolding f_has_element
  has_lem rg x = test_bit-member w pos rg x

  pub written :
      (rg r : List ℕ) (x : ℕ) (b : Bool) → Wrote w u rg x b r → Writes V (IsValid w u) rg x b r
  written rg r x b (valid, m) = (valid, λ j h. has_lem r j ∙ m j ∙ ground (arith, has_lem rg j))

  zeros-AreWords : (k : ℕ) → AreWords w (replicate k 0)
  zeros-AreWords zero = tt
  zeros-AreWords (suc k) = (two-pow-pos w, zeros-AreWords k)

  pub zeros_off : (i : ℕ) → member w (replicate n 0) i ≡ false
  zeros_off i =
      empty_word w pos (replicate n 0) (zeros-AreWords n) i (get_or-replicate {A = ℕ} n (i / w) 0)

  pub none-IsValid : u ≤ n * w → IsValid w u (replicate n 0)
  none-IsValid room = record {
    words = zeros-AreWords n;
    sized = rw (length-replicate {A = ℕ} n 0) room;
    bounded = λ i h. zeros_off i;
  }

  module _ (rg : List ℕ) (valid : IsValid w u rg) where
    pub extremes :
        Describes (IsLeast w rg 0) (IsEmpty w rg) (f_has_min w u ctz clz rg)
        × Describes (IsMaximum w rg) (IsEmpty w rg) (f_has_max w u ctz clz rg)
    extremes = f_has_min_max_lem w u ctz clz pos small scan rg valid

    pub inside : (p : ℕ) → member w rg p ≡ true → p < u
    inside p on = elim (dec_lt p u) [
      | yes h ↦ h
      | no k ↦ absurd (cc (on, valid.bounded p (omega arith)))
    ]

    pub min_lem :
        (o : Option ℕ)
        → Describes (IsLeast w rg 0) (IsEmpty w rg) o
        → MinOf u (f_has_element w rg) o
    min_lem none off = λ j h. has_lem rg j ∙ off j
    min_lem (some p) least = (
      inside p least.1,
      has_lem rg p ∙ least.1,
      λ j h on. elim (dec_lt j p) [
        | yes l ↦ absurd (cc (least.2 j (omega arith) l, has_lem rg j, on))
        | no n ↦ omega arith
      ],
    )

    pub max_lem :
        (o : Option ℕ)
        → Describes (IsMaximum w rg) (IsEmpty w rg) o
        → MaxOf u (f_has_element w rg) o
    max_lem none off = λ j h. has_lem rg j ∙ off j
    max_lem (some p) most = (
      inside p most.0,
      has_lem rg p ∙ most.0,
      λ j h on. elim (dec_lt p j) [
        | yes l ↦ absurd (cc (most.1 j l, has_lem rg j, on))
        | no n ↦ omega arith
      ],
    )

    pub same_extremes :
        (o r : Option ℕ)
        → Describes (IsLeast w rg 0) (IsEmpty w rg) o
        → Describes (IsMaximum w rg) (IsEmpty w rg) r
        → is_some o ≡ is_some r
    unfolding is_some
    same_extremes none none off _ = refl
    same_extremes none (some p) off most = cc (off p, most.0)
    same_extremes (some p) none least off = cc (off p, least.1)
    same_extremes (some p) (some q) least most = refl

    pub any_min : f_has_any_elements rg ≡ is_some (f_has_min w u ctz clz rg)
    unfolding f_has_any_elements f_has_min is_some
    any_min = by_word (first_word 0 rg)
      where
        by_word : (o : Option (ℕ × ℕ)) → is_some o ≡ is_some (located u (lowest w u ctz clz) o)
        by_word none = refl
        by_word (some found) = refl

    pub next_lem : (x : ℕ) → NextOf u (f_has_element w rg) x (n_successor w u ctz clz rg x)
    next_lem x = elim (n_successor-IsLeast w u ctz clz pos small scan rg valid x) [
      | inl (z, off) ↦ inl (z, λ j l a. has_lem rg j ∙ off j a)
      | inr least ↦ inr (
        omega (arith, least.0),
        inside _ least.1,
        has_lem rg _ ∙ least.1,
        λ j a b. has_lem rg j ∙ least.2 j a b,
      )
    ]

    pub previous_lem :
        (x : ℕ) → PreviousOf u (f_has_element w rg) x (n_predecessor w u ctz clz rg x)
    previous_lem x = elim (n_predecessor-IsGreatest w u ctz clz pos small scan rg valid x) [
      | inl (z, off) ↦ inl (z, λ j a. has_lem rg j ∙ off j a)
      | inr (more, most) ↦ inr (
        omega (arith, more, most.0),
        has_lem rg _ ∙ most.1,
        λ j a b. has_lem rg j ∙ most.2 j a (omega (arith, more)),
      )
    ]
