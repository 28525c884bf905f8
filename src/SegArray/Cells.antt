-- ===== src/SegArray/Cells.antt =====
-- Writing an element of a segmented array (src/segarray.h) changes that element only.
use mathlib.Core.Path.{subst}
use native.Mathlib.Decide.{ℕ_discrete, dec_lt}
use native.Mathlib.Nat.{div-add-mod}
use bienutil.Base.{
  ℕ, ◌+◌, ◌*◌, ◌/◌, ◌%◌, ◌<◌, ◌≡◌, ◌≢◌, refl, sym, ap, ◌∙◌, inl, inr, Option, none, some,
  Option-cases, length, get_or-set_self, get_or-set_ne, get_or_above, length-set, arith,
}
use bienutil.SegArray.{
  SegArray, Segment, segment_at, set_segment, at_offset, put_offset, el_get, el_put,
}

same_place : (n i j : ℕ) → i / n ≡ j / n → i % n ≡ j % n → i ≡ j
same_place n i j ed em =
    sym (div-add-mod i n)
    ∙ ap (λ d. n * d + i % n) ed
    ∙ ap (λ r. n * (j / n) + r) em
    ∙ div-add-mod j n

module _ {ℓ} {A : Type ℓ} (n : ℕ) where
  -- The segment of element `i` is allocated.
  abbrev pub IsAllocated : ℕ → SegArray A → Type ℓ
  IsAllocated i s = (g : Segment A) × (segment_at (i / n) s ≡ some g)

  pub segment_below :
      (k : ℕ) (s : SegArray A) (g : Segment A) → segment_at k s ≡ some g → k < length s.segments
  segment_below k s g e = elim (dec_lt k (length s.segments)) [
    | yes h ↦ h
    | no h ↦ absurd (ground (arith, get_or_above s.segments k none (omega arith)))
  ]

  put_offset_self : (g : Segment A) (j : ℕ) (v : Option A) → put_offset g j v j ≡ v
  put_offset_self g j v = ground arith

  put_offset_ne : (g : Segment A) (j l : ℕ) (v : Option A) → j ≢ l → put_offset g j v l ≡ g l
  put_offset_ne g j l v h = ground arith

  pub segment_at-set :
      (k : ℕ) (g g' : Segment A) (s : SegArray A)
      → segment_at k s ≡ some g
      → segment_at k (set_segment k g' s) ≡ some g'
  segment_at-set k g g' s e = get_or-set_self s.segments k (some g') none (segment_below k s g e)

  el_put_eq :
      (i : ℕ) (v : Option A) (s : SegArray A) (g : Segment A)
      → segment_at (i / n) s ≡ some g
      → el_put n i v s ≡ set_segment (i / n) (put_offset g (i % n) v) s
  unfolding el_put
  el_put_eq i v s g e = rw (e, el_put) refl

  pub el_get-el_put_self :
      (i : ℕ) (v : Option A) (s : SegArray A) → IsAllocated i s → el_get n i (el_put n i v s) ≡ v
  unfolding el_get
  el_get-el_put_self i v s (g, e) =
      ap (el_get n i) (el_put_eq i v s g e)
      ∙ ap (λ x. at_offset x (i % n)) (segment_at-set (i / n) g _ s e)
      ∙ put_offset_self g (i % n) v

  pub el_get-el_put_ne :
      (i j : ℕ) (v : Option A) (s : SegArray A) → i ≢ j → el_get n j (el_put n i v s) ≡ el_get n j s
  unfolding el_get el_put
  el_get-el_put_ne i j v s ne = elim (Option-cases (segment_at (i / n) s)) [
    | inl e ↦ rw (e, el_put) refl
    | inr (g, e) ↦ ap (el_get n j) (el_put_eq i v s g e) ∙ elim (ℕ_discrete (i / n) (j / n)) [
      | yes q ↦
          ap (λ x. at_offset x (j % n))
            (ap (λ k. segment_at k (set_segment (i / n) (put_offset g (i % n) v) s)) (sym q)
              ∙ segment_at-set (i / n) g _ s e)
          ∙ put_offset_ne g (i % n) (j % n) v (λ r. ne (same_place n i j q r))
          ∙ ap (λ x. at_offset x (j % n)) (sym (ap (λ k. segment_at k s) (sym q) ∙ e))
      | no h ↦ ap (λ x. at_offset x (j % n)) (get_or-set_ne s.segments (i / n) (j / n) _ none h)
    ]
  ]

  -- An element is only in a segment that is allocated.
  pub IsAllocated-el_get :
      (i : ℕ) (v : A) (s : SegArray A) → el_get n i s ≡ some v → IsAllocated i s
  unfolding el_get
  IsAllocated-el_get i v s e = elim (Option-cases (segment_at (i / n) s)) [
    | inl gone ↦ absurd (ground (arith, ap (λ x. at_offset x (i % n)) gone))
    | inr there ↦ there
  ]

  pub el_put-segments :
      (i : ℕ) (v : Option A) (s : SegArray A)
      → (length (el_put n i v s).segments ≡ length s.segments)
        × ((el_put n i v s).n_elements ≡ s.n_elements)
  unfolding el_put
  el_put-segments i v s = elim (Option-cases (segment_at (i / n) s)) [
    | inl e ↦ rw (e, el_put) (refl, refl)
    | inr (g, e) ↦ rw (e, el_put) (length-set s.segments (i / n) _, refl)
  ]

  pub IsAllocated-el_put :
      (i j : ℕ) (v : Option A) (s : SegArray A) → IsAllocated j s → IsAllocated j (el_put n i v s)
  unfolding el_put
  IsAllocated-el_put i j v s (gj, ej) = elim (Option-cases (segment_at (i / n) s)) [
    | inl e ↦ rw (e, el_put) (gj, ej)
    | inr (g, e) ↦
        rw (e, el_put)
          (elim (ℕ_discrete (i / n) (j / n)) [
            | yes q ↦ (
              put_offset g (i % n) v,
              subst
                  (λ l.
                    segment_at l (set_segment (i / n) (put_offset g (i % n) v) s)
                    ≡ some (put_offset g (i % n) v))
                  q (segment_at-set (i / n) g (put_offset g (i % n) v) s e),
            )
            | no h ↦ (gj, get_or-set_ne s.segments (i / n) (j / n) _ none h ∙ ej)
          ])
  ]
