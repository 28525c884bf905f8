-- ===== src/SegArray.antt =====
-- `SegArray` of src/segarray.h: an array in segments of equal size. The number of elements has no
-- upper bound here: `_tySizeType` is wide enough for all that fit in memory, as the default size_t is.
mod Cells
mod Ends
mod Sequence
mod Remove
mod Contiguous
mod Clear
mod Tests
use mathlib.Core.Logic.{ite}
use native.Mathlib.Decide.{ℕ_discrete}
use bienutil.Base.{
  ℕ, zero, suc, ◌+◌, ◌-◌, ◌/◌, ◌%◌, min, Bool, true, false, List, [], ◌∷◌, ◌++◌, Option, none, some,
  length, get_or, set, replicate, ◌==◌, ltb, leb, if◌then◌else◌,
}

-- A segment is memory for `n_els_per_segment` elements, each constructed or not; a null pointer in
-- the block of segment pointers is `none`.
abbrev pub Segment {ℓ} : Type ℓ → Type ℓ
Segment A = ℕ → Option A

pub record SegArray {ℓ} (A : Type ℓ) : Type ℓ where
  pub segments : List (Option (Segment A))
  pub n_elements : ℕ

-- What an operation that may throw leaves, and whether it returned.
pub record Attempt {ℓ} (A : Type ℓ) : Type ℓ where
  pub returned : Bool
  pub left : SegArray A

module _ {ℓ} {A : Type ℓ} where
  abbrev pub segment_at : ℕ → SegArray A → Option (Segment A)
  segment_at k s = get_or s.segments k none

  abbrev pub set_segment : ℕ → Segment A → SegArray A → SegArray A
  set_segment k g s = record s { segments = set s.segments k (some g) }

  abbrev pub at_offset : Option (Segment A) → ℕ → Option A
  at_offset none j = none
  at_offset (some g) j = g j

  abbrev pub put_offset : Segment A → ℕ → Option A → Segment A
  put_offset g j v l = ite (ℕ_discrete j l) v (g l)

  -- `AllocNewSegmentPointerBlock`
  abbrev pub alloc_new_segment_pointer_block : ℕ → SegArray A → SegArray A
  alloc_new_segment_pointer_block n s = record s { segments = s.segments ++ replicate n none }

  -- The segment of the next element is null: `malloc`.
  abbrev pub alloc_segment : (malloc_ok : Bool) → ℕ → SegArray A → Attempt A
  alloc_segment malloc_ok k s = elim (segment_at k s) [
    | none ↦
        if malloc_ok
        then record { returned = true; left = set_segment k (λ _. none) s }
        else record { returned = false; left = s }
    | some g ↦ record { returned = true; left = s }
  ]

  -- `Clear`
  unfoldable pub clear : (own_lifetime : Bool) → SegArray A → SegArray A
  clear own_lifetime s = elim s.segments [
    | [] ↦ s
    | g ∷ gs ↦ record { segments = []; n_elements = if own_lifetime then 0 else s.n_elements }
  ]

module _ {ℓ} {A : Type ℓ} (n_els_per_segment : ℕ) where
  -- `ElGet`, to read: nothing where the segment or the element is not there.
  unfoldable pub el_get : ℕ → SegArray A → Option A
  el_get i s = at_offset (segment_at (i / n_els_per_segment) s) (i % n_els_per_segment)

  -- `ElGet`, to construct, assign or destroy
  unfoldable pub el_put : ℕ → Option A → SegArray A → SegArray A
  el_put i v s = elim (segment_at (i / n_els_per_segment) s) [
    | none ↦ s
    | some g ↦ set_segment (i / n_els_per_segment) (put_offset g (i % n_els_per_segment) v) s
  ]

  -- `_PbyAllocEnd`. `realloc_ok` and `malloc_ok`: whether there is memory.
  unfoldable pub alloc_end : (realloc_ok malloc_ok : Bool) → SegArray A → Attempt A
  alloc_end realloc_ok malloc_ok s =
      let k = s.n_elements / n_els_per_segment in
      if k == length s.segments
      then if realloc_ok
        then alloc_segment malloc_ok k (alloc_new_segment_pointer_block 16 s)
        else record { returned = false; left = s }
      else alloc_segment malloc_ok k s

  -- `push_back` and `emplaceAtEnd`
  unfoldable pub push_back : (realloc_ok malloc_ok : Bool) → A → SegArray A → Attempt A
  unfolding alloc_end el_put
  push_back realloc_ok malloc_ok v s =
      let r = alloc_end realloc_ok malloc_ok s in
      if r.returned
      then record {
        returned = true;
        left = record (el_put r.left.n_elements (some v) r.left) {
          n_elements = r.left.n_elements + 1;
        };
      }
      else r

  -- The loop of `SetSizeSmaller` where the array owns its elements: `k` elements are destroyed.
  unfoldable pub destroy_last : ℕ → SegArray A → SegArray A
  unfolding el_put
  destroy_last zero s = s
  destroy_last (suc k) s =
      destroy_last k (record (el_put (s.n_elements - 1) none s) { n_elements = s.n_elements - 1 })

  -- `SetSizeSmaller`, without compaction
  unfoldable pub set_size_smaller : (own_lifetime : Bool) → ℕ → SegArray A → SegArray A
  unfolding destroy_last
  set_size_smaller own_lifetime n s =
      if ltb n s.n_elements
      then if own_lifetime then destroy_last (s.n_elements - n) s else record s { n_elements = n }
      else s

  -- `pop_back`, without compaction
  unfoldable pub pop_back : (own_lifetime : Bool) → SegArray A → Option A × SegArray A
  unfolding el_get set_size_smaller
  pop_back own_lifetime s =
      (el_get (s.n_elements - 1) s, set_size_smaller own_lifetime (s.n_elements - 1) s)

  -- The loop of `Remove`, from element `i` on, `k` times
  unfoldable pub move_down : (k i n : ℕ) → SegArray A → SegArray A
  unfolding el_get el_put
  move_down zero i n s = s
  move_down (suc k) i n s = move_down k (i + 1) n (el_put (i - n) (el_get i s) s)

  -- `Remove`; it throws where the range goes beyond the elements.
  unfoldable pub remove : (own_lifetime : Bool) → (pos n : ℕ) → SegArray A → Attempt A
  unfolding move_down set_size_smaller
  remove own_lifetime pos n s =
      if n == 0
      then record { returned = true; left = s }
      else if leb (pos + n) s.n_elements
      then record {
        returned = true;
        left =
            set_size_smaller own_lifetime (s.n_elements - n)
              (move_down (s.n_elements - (pos + n)) (pos + n) n s);
      }
      else record { returned = false; left = s }

module _ (n_els_per_segment : ℕ) where
  -- The loop of `ApplyContiguous`: the ranges that it applies to, as first element and number of
  -- elements. `fuel` is at least the number of elements left.
  unfoldable pub contiguous : (fuel n_left cur remain : ℕ) → List (ℕ × ℕ)
  contiguous zero n_left cur remain = []
  contiguous (suc fuel) zero cur remain = []
  contiguous (suc fuel) (suc n) cur remain =
      let m = min (suc n) remain in
      (cur, m) ∷ contiguous fuel (suc n - m) (cur + m) n_els_per_segment

  -- `ApplyContiguous`
  unfoldable pub apply_contiguous : (pos_begin pos_end : ℕ) → List (ℕ × ℕ)
  unfolding contiguous
  apply_contiguous pos_begin pos_end =
      if leb pos_end pos_begin
      then []
      else contiguous (pos_end - pos_begin) (pos_end - pos_begin) pos_begin
          (n_els_per_segment - pos_begin % n_els_per_segment)
