-- ===== src/SegArray/Remove.antt =====
-- `Remove` of src/segarray.h takes a range out of the sequence.
use mathlib.Core.Path.{subst}
use native.Mathlib.Decide.{dec_lt, ℕ_discrete}
use bienutil.Base.{
  ℕ, zero, suc, ◌+◌, ◌-◌, ◌/◌, ◌<◌, ◌≤◌, ◌≡◌, refl, sym, ap, ◌∙◌, Bool, true, false, List, [], ◌∷◌,
  ◌++◌, some, length, get_elem?, length-append, ◌==◌, leb, arith,
}
use bienutil.SegArray.{SegArray, el_get, el_put, set_size_smaller, move_down, remove}
use bienutil.SegArray.Cells.{
  IsAllocated, IsAllocated-el_get, IsAllocated-el_put, el_get-el_put_self, el_get-el_put_ne,
  el_put-segments,
}
use bienutil.SegArray.Sequence.{
  Represents, StartsWith, set_size_smaller-StartsWith, get_elem?-append_left,
}

module _ {ℓ} {A : Type ℓ} where
  get_elem?-some : (xs : List A) (i : ℕ) → i < length xs → (v : A) × (get_elem? xs i ≡ some v)
  get_elem?-some [] i h = elim h [ ]
  get_elem?-some (x ∷ xs) zero h = (x, refl)
  get_elem?-some (x ∷ xs) (suc i) h = get_elem?-some xs i (omega arith)

  get_elem?-after : (ys zs : List A) (i : ℕ) → get_elem? (ys ++ zs) (i + length ys) ≡ get_elem? zs i
  get_elem?-after [] zs i = ap (get_elem? zs) (omega arith)
  get_elem?-after (y ∷ ys) zs i =
      ap (get_elem? (y ∷ ys ++ zs)) (suc_out i (length ys)) ∙ get_elem?-after ys zs i
    where
      suc_out : (i m : ℕ) → i + suc m ≡ suc (i + m)
      suc_out i m = omega arith

  get_elem?-skip :
      (xs ys zs : List A) (i : ℕ)
      → length xs ≤ i
      → get_elem? (xs ++ (ys ++ zs)) (i + length ys) ≡ get_elem? (xs ++ zs) i
  get_elem?-skip [] ys zs i h = get_elem?-after ys zs i
  get_elem?-skip (x ∷ xs) ys zs zero h = elim h [ ]
  get_elem?-skip (x ∷ xs) ys zs (suc i) h =
      ap (get_elem? (x ∷ xs ++ (ys ++ zs))) (suc_in i (length ys))
      ∙ get_elem?-skip xs ys zs i (omega arith)
    where
      suc_in : (i m : ℕ) → suc i + m ≡ suc (i + m)
      suc_in i m = omega arith

module _ {ℓ} {A : Type ℓ} (n : ℕ) where
  -- What the loop has done: `k` elements from `i` on are `m` places further down.
  record Moved (k i m : ℕ) (s s' : SegArray A) : Type ℓ where
    count : s'.n_elements ≡ s.n_elements
    long : length s'.segments ≡ length s.segments
    before : (j : ℕ) → j < i - m → el_get n j s' ≡ el_get n j s
    moved : (j : ℕ) → i - m ≤ j → j < i - m + k → el_get n j s' ≡ el_get n (j + m) s

  move_down-Moved :
      (k i m : ℕ) (s : SegArray A)
      → 0 < m
      → m ≤ i
      → ((j : ℕ) → j < i + k → IsAllocated n j s)
      → Moved k i m s (move_down n k i m s)
  unfolding move_down
  move_down-Moved zero i m s positive h there = record {
    count = refl;
    long = refl;
    before = λ j b. refl;
    moved = λ j low high. absurd (omega arith);
  }
  move_down-Moved (suc k) i m s positive h there =
      let t = el_put n (i - m) (el_get n i s) s in
      let sizes = el_put-segments n (i - m) (el_get n i s) s in
      let rest =
        move_down-Moved k (i + 1) m t positive (omega arith)
          (λ j b. IsAllocated-el_put n (i - m) j (el_get n i s) s (there j (omega arith))) in
      record {
        count = rest.count ∙ sizes.1;
        long = rest.long ∙ sizes.0;
        before = λ j b.
            rest.before j (omega arith)
            ∙ el_get-el_put_ne n (i - m) j (el_get n i s) s (λ e. omega arith);
        moved = λ j low high. elim (ℕ_discrete (i - m) j) [
          | yes e ↦
              rest.before j (omega arith)
              ∙ ap (λ l. el_get n l t) (sym e)
              ∙ el_get-el_put_self n (i - m) (el_get n i s) s (there (i - m) (omega arith))
              ∙ ap (λ l. el_get n l s) (omega arith)
          | no ne ↦
              rest.moved j (omega arith) (omega arith)
              ∙ el_get-el_put_ne n (i - m) (j + m) (el_get n i s) s (λ e. omega arith)
        ];
      }

  allocated :
      (s : SegArray A) (xs : List A)
      → Represents n s xs
      → (j : ℕ) → j < length xs
      → IsAllocated n j s
  allocated s xs r j h =
      let (v, e) = get_elem?-some xs j h in IsAllocated-el_get n j v s (r.cells j h ∙ e)

  removed-StartsWith :
      (s : SegArray A) (xs ys zs : List A)
      → 0 < length ys
      → Represents n s (xs ++ (ys ++ zs))
      → StartsWith n
          (move_down n
            (s.n_elements - (length xs + length ys))
            (length xs + length ys)
            (length ys)
            s)
          (xs ++ zs)
  removed-StartsWith s xs ys zs positive r =
      let k = s.n_elements - (length xs + length ys) in
      let total : s.n_elements ≡ length xs + (length ys + length zs) =
        r.size ∙ length-append xs (ys ++ zs) ∙ ap (λ l. length xs + l) (length-append ys zs) in
      let t = move_down n k (length xs + length ys) (length ys) s in
      let mv =
        move_down-Moved k (length xs + length ys) (length ys) s positive (omega arith)
          (λ j b. allocated s (xs ++ (ys ++ zs)) r j (omega (arith, r.size))) in
      record {
        size = omega (arith, mv.count, length-append xs zs);
        room =
            subst (λ c. c / n ≤ length t.segments) (sym mv.count)
              (subst (λ l. s.n_elements / n ≤ l) (sym mv.long) r.room);
        cells = λ i h. elim (dec_lt i (length xs)) [
          | yes old ↦
              mv.before i (omega arith)
              ∙ r.cells i (omega (arith, r.size))
              ∙ get_elem?-append_left xs (ys ++ zs) i old
              ∙ sym (get_elem?-append_left xs zs i old)
          | no new ↦
              mv.moved i (omega arith) (omega (arith, length-append xs zs))
              ∙ r.cells (i + length ys) (omega (arith, r.size, length-append xs zs))
              ∙ get_elem?-skip xs ys zs i (omega arith)
        ];
      }

  -- On an array that holds three sequences one after the other, `Remove` of the range of the middle
  -- one returns, and the array then holds the first and the third.
  pub remove-Represents :
      (own_lifetime : Bool) (s : SegArray A) (xs ys zs : List A)
      → 0 < n
      → Represents n s (xs ++ (ys ++ zs))
      → ((remove n own_lifetime (length xs) (length ys) s).returned ≡ true)
        × Represents n (remove n own_lifetime (length xs) (length ys) s).left (xs ++ zs)
  unfolding remove
  remove-Represents own_lifetime s xs [] zs some_room r = (refl, r)
  remove-Represents own_lifetime s xs (y ∷ ys) zs some_room r =
      let m = length (y ∷ ys) in
      let t = move_down n (s.n_elements - (length xs + m)) (length xs + m) m s in
      let inside : leb (length xs + m) s.n_elements ≡ true =
        ground (arith, r.size, length-append xs (y ∷ ys ++ zs), length-append (y ∷ ys) zs) in
      let fewer : length (xs ++ zs) ≡ s.n_elements - m = omega (
        arith,
        r.size,
        length-append xs zs,
        length-append xs (y ∷ ys ++ zs),
        length-append ys zs,
      ) in
      let not_none : (m == 0) ≡ false = ground arith in
      rw (not_none, inside)
        (
          refl,
          subst (λ l. Represents n (set_size_smaller n own_lifetime l t) (xs ++ zs)) fewer
              (set_size_smaller-StartsWith n own_lifetime t (xs ++ zs) some_room
                (removed-StartsWith s xs (y ∷ ys) zs (omega arith) r)),
        )
