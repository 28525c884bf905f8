-- ===== src/SegArray/Ends.antt =====
-- Room for one more element at the end of a segmented array (src/segarray.h).
use mathlib.Core.Path.{subst}
use native.Mathlib.Decide.{ℕ_discrete, dec_lt}
use bienutil.Base.{
  ℕ, zero, suc, ◌/◌, ◌%◌, ◌<◌, ◌≤◌, ◌≡◌, refl, sym, ap, ◌∙◌, inl, inr, Bool, true, false, List, [],
  ◌∷◌, ◌++◌, Option, none, some, Option-cases, Bool-cases, length, get_or, replicate, length-append,
  length-replicate, get_or-set_self, get_or-set_ne, get_or-replicate, get_or_above, length-set,
  ◌==◌, if◌then◌else◌, arith,
}
use bienutil.SegArray.{
  SegArray, Segment, Attempt, segment_at, set_segment, at_offset, el_get,
  alloc_new_segment_pointer_block, alloc_segment, alloc_end,
}
use bienutil.SegArray.Cells.{IsAllocated}

get_or-append_none {ℓ} :
    {A : Type ℓ} (xs : List (Option A)) (m k : ℕ)
    → get_or (xs ++ replicate m none) k none ≡ get_or xs k none
get_or-append_none [] m k = get_or-replicate m k none
get_or-append_none (x ∷ xs) m zero = refl
get_or-append_none (x ∷ xs) m (suc k) = get_or-append_none xs m k

module _ {ℓ} {A : Type ℓ} (n : ℕ) where
  -- Every element reads as before, and the block of segment pointers is no shorter.
  pub record Same (s s' : SegArray A) : Type ℓ where
    pub count : s'.n_elements ≡ s.n_elements
    pub longer : length s.segments ≤ length s'.segments
    pub reads : (i : ℕ) → el_get n i s' ≡ el_get n i s

  alloc_block-Same : (m : ℕ) (s : SegArray A) → Same s (alloc_new_segment_pointer_block m s)
  unfolding el_get
  alloc_block-Same m s = record {
    count = refl;
    longer = omega (arith, length-append s.segments (replicate m none));
    reads = λ i. ap (λ x. at_offset x (i % n)) (get_or-append_none s.segments m (i / n));
  }

  blank_reads :
      (k : ℕ) (s : SegArray A) (j : ℕ)
      → segment_at k s ≡ none
      → at_offset (segment_at k (set_segment k (λ _. none) s)) j ≡ at_offset (segment_at k s) j
  blank_reads k s j e = elim (dec_lt k (length s.segments)) [
    | yes h ↦
        ap (λ x. at_offset x j) (get_or-set_self s.segments k (some (λ _. none)) none h)
        ∙ sym (ap (λ x. at_offset x j) e)
    | no h ↦
        ap (λ x. at_offset x j)
          (get_or_above _ k none (omega (arith, length-set s.segments k (some (λ _. none)))))
        ∙ sym (ap (λ x. at_offset x j) e)
  ]

  set_blank-Same :
      (k : ℕ) (s : SegArray A) → segment_at k s ≡ none → Same s (set_segment k (λ _. none) s)
  unfolding el_get
  set_blank-Same k s e = record {
    count = refl;
    longer = omega (arith, length-set s.segments k (some (λ _. none)));
    reads = λ i. elim (ℕ_discrete k (i / n)) [
      | yes q ↦
          subst
            (λ l.
              at_offset (segment_at l (set_segment k (λ _. none) s)) (i % n)
              ≡ at_offset (segment_at l s) (i % n))
            q (blank_reads k s (i % n) e)
      | no h ↦ ap (λ x. at_offset x (i % n)) (get_or-set_ne s.segments k (i / n) _ none h)
    ];
  }

  -- Nothing but memory changes, and where the call returns there is room for element `n_elements`.
  pub record IsReady (s : SegArray A) (r : Attempt A) : Type ℓ where
    pub same : Same s r.left
    pub ready : r.returned ≡ true → IsAllocated n s.n_elements r.left

  Same-refl : (s : SegArray A) → Same s s
  Same-refl s = record { count = refl; longer = omega arith; reads = λ i. refl }

  Same-trans : {s s' s'' : SegArray A} → Same s s' → Same s' s'' → Same s s''
  Same-trans a b = record {
    count = b.count ∙ a.count;
    longer = omega (arith, a.longer, b.longer);
    reads = λ i. b.reads i ∙ a.reads i;
  }

  alloc_segment-IsReady :
      (malloc_ok : Bool) (s : SegArray A)
      → s.n_elements / n < length s.segments
      → IsReady s (alloc_segment malloc_ok (s.n_elements / n) s)
  alloc_segment-IsReady malloc_ok s h = elim (Option-cases (segment_at (s.n_elements / n) s)) [
    | inl e ↦ rw (e, alloc_segment) (blank malloc_ok e)
    | inr (g, e) ↦ rw (e, alloc_segment) (record { same = Same-refl s; ready = λ _. (g, e) })
  ]
    where
      blank :
          (ok : Bool)
          → segment_at (s.n_elements / n) s ≡ none
          → IsReady s (
              if ok
              then record { returned = true; left = set_segment (s.n_elements / n) (λ _. none) s }
              else record { returned = false; left = s })
      blank true e = record {
        same = set_blank-Same (s.n_elements / n) s e;
        ready = λ _. (_, get_or-set_self s.segments (s.n_elements / n) _ none h);
      }
      blank false e = record { same = Same-refl s; ready = λ q. absurd (ground arith) }

  pub alloc_end-IsReady :
      (realloc_ok malloc_ok : Bool) (s : SegArray A)
      → s.n_elements / n ≤ length s.segments
      → IsReady s (alloc_end n realloc_ok malloc_ok s)
  unfolding alloc_end
  alloc_end-IsReady realloc_ok malloc_ok s h =
      elim (Bool-cases (s.n_elements / n == length s.segments)) [
        | inl full ↦ rw full (grown realloc_ok)
        | inr free ↦ rw free (alloc_segment-IsReady malloc_ok s (ground arith))
      ]
    where
      grown :
          (ok : Bool)
          → IsReady s (
              if ok
              then alloc_segment malloc_ok (s.n_elements / n) (alloc_new_segment_pointer_block 16 s)
              else record { returned = false; left = s })
      grown true =
          let t = alloc_new_segment_pointer_block 16 s in
          let r = alloc_segment-IsReady malloc_ok t (
            omega (
              arith,
              length-append s.segments (replicate 16 none),
              length-replicate {A = Option (Segment A)} 16 none,
            )) in
          record { same = Same-trans (alloc_block-Same 16 s) r.same; ready = r.ready }
      grown false = record { same = Same-refl s; ready = λ q. absurd (ground arith) }
