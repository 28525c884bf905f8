-- ===== src/SegArray/Contiguous.antt =====
-- `ApplyContiguous` of src/segarray.h applies to a range in pieces that lie in one segment each.
use native.Mathlib.Nat.{div-add-mod, mod-lt, add-mod_right, mul-mod_right}
use native.Mathlib.Decide.{dec_lt}
use mathlib.Core.Path.{subst}
use bienutil.Base.{
  ℕ, zero, suc, ◌+◌, ◌-◌, ◌*◌, ◌/◌, ◌%◌, ◌<◌, ◌≤◌, ◌≡◌, refl, sym, ap, ◌∙◌, inl, inr, min, List, [],
  ◌∷◌, Bool-cases, leb, arith,
}
use bienutil.SegArray.{contiguous, apply_contiguous}

left_none : (l : ℕ) → 0 ≡ l - l
left_none l = omega arith

module _ (n : ℕ) where
  segment_end : (p : ℕ) → 0 < n → (p + (n - p % n)) % n ≡ 0
  segment_end p positive =
      let whole : p + (n - p % n) ≡ n * (p / n) + n =
        omega (arith, div-add-mod p n, mod-lt p positive) in
      ap (λ x. x % n) whole ∙ add-mod_right (n * (p / n)) n ∙ mul-mod_right n (p / n)

  -- The pieces follow each other from `from` to `to`, none is empty, and none crosses a segment.
  abbrev pub Covers : List (ℕ × ℕ) → ℕ → ℕ → Type 0
  Covers [] from to = from ≡ to
  Covers ((cur, m) ∷ pieces) from to =
      (cur ≡ from) × (0 < m) × (cur % n + m ≤ n) × Covers pieces (from + m) to

  contiguous_done : (fuel cur remain : ℕ) → contiguous n fuel 0 cur remain ≡ []
  unfolding contiguous
  contiguous_done zero cur remain = refl
  contiguous_done (suc fuel) cur remain = refl

  contiguous-Covers :
      (fuel left cur remain : ℕ)
      → 0 < n
      → left ≤ fuel
      → 0 < remain
      → cur % n + remain ≤ n
      → (cur + remain) % n ≡ 0
      → Covers (contiguous n fuel left cur remain) cur (cur + left)
  unfolding contiguous
  contiguous-Covers zero left cur remain positive h r fits whole = omega arith
  contiguous-Covers (suc fuel) zero cur remain positive h r fits whole = omega arith
  contiguous-Covers (suc fuel) (suc left) cur remain positive h r fits whole =
      elim (dec_lt remain (suc left)) [
        | yes more ↦
            let m_eq : remain ≡ min (suc left) remain = omega arith in
            let rest =
              contiguous-Covers fuel (suc left - remain) (cur + remain) n positive (omega arith)
                positive (omega (arith, whole)) (add-mod_right (cur + remain) n ∙ whole) in
            subst
              (λ m.
                Covers ((cur, m) ∷ contiguous n fuel (suc left - m) (cur + m) n) cur
                  (cur + suc left))
              m_eq
              (
                refl,
                r,
                fits,
                subst
                    (Covers (contiguous n fuel (suc left - remain) (cur + remain) n) (cur + remain))
                    (omega arith) rest,
              )
        | no last ↦
            let m_eq : suc left ≡ min (suc left) remain = omega arith in
            subst
              (λ m.
                Covers ((cur, m) ∷ contiguous n fuel (suc left - m) (cur + m) n) cur
                  (cur + suc left))
              m_eq
              (
                refl,
                omega arith,
                omega arith,
                subst
                    (λ l.
                      Covers (contiguous n fuel l (cur + suc left) n) (cur + suc left)
                        (cur + suc left))
                    (left_none (suc left))
                    (subst (λ ps. Covers ps (cur + suc left) (cur + suc left))
                      (sym (contiguous_done fuel (cur + suc left) n)) refl),
              )
      ]

  -- The ranges to which `ApplyContiguous` applies follow each other from the first position to the
  -- last, none is empty and none crosses the end of a segment.
  pub apply_contiguous-Covers :
      (pos_begin pos_end : ℕ)
      → 0 < n
      → pos_begin ≤ pos_end
      → Covers (apply_contiguous n pos_begin pos_end) pos_begin pos_end
  unfolding apply_contiguous
  apply_contiguous-Covers pos_begin pos_end positive h = elim (Bool-cases (leb pos_end pos_begin)) [
    | inl none_left ↦ rw none_left (ground arith)
    | inr some_left ↦ rw some_left (
        subst
          (Covers
            (contiguous n (pos_end - pos_begin) (pos_end - pos_begin) pos_begin (n - pos_begin % n))
            pos_begin)
          (omega arith)
          (contiguous-Covers (pos_end - pos_begin) (pos_end - pos_begin) pos_begin
            (n - pos_begin % n) positive (omega arith) (omega (arith, mod-lt pos_begin positive))
            (omega (arith, mod-lt pos_begin positive)) (segment_end pos_begin positive)))
  ]
