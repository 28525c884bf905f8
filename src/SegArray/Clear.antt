-- ===== src/SegArray/Clear.antt =====
-- `Clear` of src/segarray.h.
use bienutil.Base.{
  ℕ, suc, ◌/◌, ◌<◌, ◌≡◌, refl, ap, ◌∙◌, List, [], ◌∷◌, Option, none, true, false, Bool,
  if◌then◌else◌, sym, length, arith,
}
use bienutil.SegArray.{SegArray, Segment, el_get, clear}
use mathlib.Core.Path.{subst}
use native.Mathlib.Nat.{zero-div}
use bienutil.SegArray.Cells.{IsAllocated-el_get, segment_below}
use bienutil.SegArray.Sequence.{Represents}

module _ {ℓ} {A : Type ℓ} where
  nonempty : (l : List A) → 0 < length l → (x : A) × (xs : List A) × (l ≡ x ∷ xs)
  nonempty [] h = absurd (omega arith)
  nonempty (x ∷ xs) h = (x, xs, refl)

module _ {ℓ} {A : Type ℓ} (n : ℕ) where
  clear_eq :
      (own : Bool) (s : SegArray A) (g : Option (Segment A)) (gs : List (Option (Segment A)))
      → s.segments ≡ g ∷ gs
      → clear own s ≡ record { segments = []; n_elements = if own then 0 else s.n_elements }
  unfolding clear
  clear_eq own s g gs e = rw (e, clear) refl

  -- `Clear` of an array that is not empty leaves the empty sequence where the array owns its
  -- elements. Where it does not, the array keeps its number of elements and none of them can be
  -- read.
  pub clear_wrong :
      (s : SegArray A) (x : A) (xs : List A)
      → Represents n s (x ∷ xs)
      → Represents n (clear true s) []
        × ((clear false s).n_elements ≡ suc (length xs))
        × ((i : ℕ) → el_get n i (clear false s) ≡ none)
  unfolding el_get
  clear_wrong s x xs r =
      let (g, there) = IsAllocated-el_get n 0 x s (r.cells 0 (omega arith)) in
      let (first, rest, e) =
        nonempty s.segments (omega (arith, segment_below n (0 / n) s g there)) in
      (
        subst (λ t. Represents n t []) (sym (clear_eq true s first rest e))
            (record {
              size = refl;
              room = omega (arith, zero-div n);
              cells = λ i h. absurd (omega arith);
            }),
        ap (λ t. t.n_elements) (clear_eq false s first rest e) ∙ r.size,
        λ i. ap (el_get n i) (clear_eq false s first rest e),
      )
