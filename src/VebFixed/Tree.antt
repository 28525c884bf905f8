-- ===== src/VebFixed/Tree.antt =====
-- `_VebFixedBase` as a tree: what `VebTreeFixed` of a small universe inherits.
use bienutil.Base.{
  ℕ, ◌*◌, ◌^◌, ◌≤◌, ◌<◌, inl, inr, refl, sym, ap, ◌∙◌, arith, true, false, not, some, List,
  replicate,
}
use bienutil.WordArray.Valid.{IsValid, or_bit-Writes, clear_bit-Writes}
use bienutil.WordArray.Scan.{IsScan}
use bienutil.VebFixed.{
  f_has_element, f_has_min, f_has_max, insert, delete, f_check_insert, f_check_delete, n_successor,
  n_predecessor,
}
use bienutil.VebFixed.{n_successor_delete, n_predecessor_delete}
use bienutil.Veb.{Takes, NoNext, SomeNext, NoPrevious, SomePrevious}
use bienutil.VebFixed.Take.{n_successor_delete_lem, n_predecessor_delete_lem}
use bienutil.VebFixed.Update.{f_check_lem}
use bienutil.Veb.{VebTree, IsLawful, IsTotal, Reports, Writes}
use bienutil.VebFixed.Sets.{
  fixed_base, has_lem, written, zeros_off, none-IsValid, extremes, inside, min_lem, max_lem,
  same_extremes, any_min, next_lem, previous_lem,
}

module _ (n w u : ℕ) (ctz clz : ℕ → ℕ) (pos : 0 < w) (small : u ≤ 2 ^ 64)
    (scan : IsScan w ctz clz) where
  abbrev V : VebTree
  V = fixed_base n w u ctz clz

  module _ (rg : List ℕ) (valid : IsValid w u rg) where
    module _ (x : ℕ) (h : x < u) where
      insert_lem : Writes V (IsValid w u) rg x true (insert w rg x)
      unfolding insert
      insert_lem =
          written n w u ctz clz pos small scan rg _ x true (or_bit-Writes w u pos rg valid x h)

      delete_lem : Writes V (IsValid w u) rg x false (delete w rg x)
      unfolding delete
      delete_lem =
          written n w u ctz clz pos small scan rg _ x false (clear_bit-Writes w u pos rg valid x h)

      check_insert_lem : Reports V (IsValid w u) rg x true (V.f_check_insert rg x)
      check_insert_lem =
          let (told, w1, told2, w2) = f_check_lem w u pos rg valid x h in
          (
            (f_check_insert w rg x).1,
            ap (λ b. some (b, (f_check_insert w rg x).1))
                (told ∙ ap not (sym (has_lem n w u ctz clz pos small scan rg x))),
            written n w u ctz clz pos small scan rg _ x true w1,
          )

      check_delete_lem : Reports V (IsValid w u) rg x false (V.f_check_delete rg x)
      check_delete_lem =
          let (told, w1, told2, w2) = f_check_lem w u pos rg valid x h in
          (
            (f_check_delete w rg x).1,
            ap (λ b. some (b, (f_check_delete w rg x).1))
                (told2 ∙ sym (has_lem n w u ctz clz pos small scan rg x)),
            written n w u ctz clz pos small scan rg _ x false w2,
          )

  module _ (rg : List ℕ) (valid : IsValid w u rg) (x : ℕ) where
    next_take_lem :
        Takes V
          (IsValid w u)
          rg
          (NoNext u (f_has_element w rg) x)
          (SomeNext u (f_has_element w rg) x)
          (V.n_successor_delete rg x)
    next_take_lem =
        let (y, r) = n_successor_delete w u ctz clz rg x in
        (
          y,
          r,
          refl,
          elim (n_successor_delete_lem w u ctz clz pos small scan rg valid x) [
            | inl (z, off, same) ↦
                inl ((z, λ j l a. has_lem n w u ctz clz pos small scan rg j ∙ off j a), same)
            | inr (least, w1) ↦ inr (
              (
                omega (arith, least.0),
                inside n w u ctz clz pos small scan rg valid _ least.1,
                has_lem n w u ctz clz pos small scan rg _ ∙ least.1,
                λ j a b. has_lem n w u ctz clz pos small scan rg j ∙ least.2 j a b,
              ),
              written n w u ctz clz pos small scan rg r y false w1,
            )
          ],
        )

    previous_take_lem :
        Takes V
          (IsValid w u)
          rg
          (NoPrevious u (f_has_element w rg) x)
          (SomePrevious (f_has_element w rg) x)
          (V.n_predecessor_delete rg x)
    previous_take_lem =
        let (y, r) = n_predecessor_delete w u ctz clz rg x in
        (
          y,
          r,
          refl,
          elim (n_predecessor_delete_lem w u ctz clz pos small scan rg valid x) [
            | inl (z, off, same) ↦
                inl ((z, λ j a. has_lem n w u ctz clz pos small scan rg j ∙ off j a), same)
            | inr ((more, most), w1) ↦ inr (
              (
                omega (arith, more, most.0),
                has_lem n w u ctz clz pos small scan rg _ ∙ most.1,
                λ j a b.
                    has_lem n w u ctz clz pos small scan rg j ∙ most.2 j a (omega (arith, more)),
              ),
              written n w u ctz clz pos small scan rg r y false w1,
            )
          ],
        )

  -- With any right counts of zeros, `_VebFixedBase` with room for its universe acts as a set.
  pub scanned-IsLawful : 0 < u → u ≤ n * w → IsLawful V (IsValid w u)
  scanned-IsLawful some_number room = record {
    inhabited = some_number;
    empty-IsValid = none-IsValid n w u ctz clz pos small scan room;
    element-empty = λ j h.
        has_lem n w u ctz clz pos small scan (replicate n 0) j
        ∙ zeros_off n w u ctz clz pos small scan j;
    any-min = λ t v. any_min n w u ctz clz pos small scan t v;
    any-max = λ t v.
        any_min n w u ctz clz pos small scan t v
        ∙ same_extremes n w u ctz clz pos small scan t v (f_has_min w u ctz clz t)
            (f_has_max w u ctz clz t) (extremes n w u ctz clz pos small scan t v).0
            (extremes n w u ctz clz pos small scan t v).1;
    n_min-MinOf = λ t v.
        min_lem n w u ctz clz pos small scan t v (f_has_min w u ctz clz t)
          (extremes n w u ctz clz pos small scan t v).0;
    n_max-MaxOf = λ t v.
        max_lem n w u ctz clz pos small scan t v (f_has_max w u ctz clz t)
          (extremes n w u ctz clz pos small scan t v).1;
    insert-Writes = λ t x v h off. (insert w t x, refl, insert_lem t v x h);
    f_check_insert-Reports = λ t x v h. check_insert_lem t v x h;
    delete-Writes = λ t x v h on. (delete w t x, refl, delete_lem t v x h);
    f_check_delete-Reports = λ t x v h on. check_delete_lem t v x h;
    n_successor-NextOf =
        λ t x v h. (n_successor w u ctz clz t x, refl, next_lem n w u ctz clz pos small scan t v x);
    n_predecessor-PreviousOf = λ t x v h.
        (n_predecessor w u ctz clz t x, refl, previous_lem n w u ctz clz pos small scan t v x);
    n_successor_delete-Takes = λ t x v h. next_take_lem t v x;
    n_predecessor_delete-Takes = λ t x v h. previous_take_lem t v x;
  }

  -- Its `FCheckDelete` does not throw.
  pub fixed_base-IsTotal : IsTotal V (IsValid w u)
  fixed_base-IsTotal t x v h = check_delete_lem t v x h
