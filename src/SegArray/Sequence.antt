-- ===== src/SegArray/Sequence.antt =====
-- A segmented array (src/segarray.h) holds a sequence, and its operations do to it what they do to
-- a list.
use mathlib.Core.Path.{subst}
use native.Mathlib.Nat.{div-lt_iff_lt-mul, div-le_of_le-mul, mul_comm}
use native.Mathlib.Decide.{dec_lt}
use bienutil.Base.{
  ℕ, zero, suc, ◌+◌, ◌-◌, ◌*◌, ◌/◌, ◌<◌, ◌≤◌, ◌≡◌, refl, sym, ap, ◌∙◌, inl, inr, Bool, true, false,
  List, [], ◌∷◌, ◌++◌, none, some, Bool-cases, length, get_elem?, length-append, ltb, if◌then◌else◌,
  arith,
}
use bienutil.SegArray.{
  SegArray, el_get, el_put, alloc_end, push_back, destroy_last, set_size_smaller, pop_back,
}
use bienutil.SegArray.Cells.{
  IsAllocated, segment_below, el_get-el_put_self, el_get-el_put_ne, el_put-segments,
}
use bienutil.SegArray.Ends.{Same, alloc_end-IsReady}

module _ {ℓ} {A : Type ℓ} where
  pub get_elem?-append_left :
      (xs ys : List A) (i : ℕ) → i < length xs → get_elem? (xs ++ ys) i ≡ get_elem? xs i
  get_elem?-append_left [] ys i h = elim h [ ]
  get_elem?-append_left (x ∷ xs) ys zero h = refl
  get_elem?-append_left (x ∷ xs) ys (suc i) h = get_elem?-append_left xs ys i (omega arith)

  get_elem?-append_last : (xs : List A) (v : A) → get_elem? (xs ++ v ∷ []) (length xs) ≡ some v
  get_elem?-append_last [] v = refl
  get_elem?-append_last (x ∷ xs) v = get_elem?-append_last xs v

room_smaller : (n a b k : ℕ) → 0 < n → a ≤ b → b / n ≤ k → a / n ≤ k
room_smaller n a b k some_room h hb =
    let below : b < suc k * n = (div-lt_iff_lt-mul some_room).0 (omega arith) in
    let fine : a / n < suc k = (div-lt_iff_lt-mul some_room).1 (omega arith) in omega arith

room_next : (n m k : ℕ) → 0 < n → m / n < k → (m + 1) / n ≤ k
room_next n m k some_room h =
    let below : m < k * n = (div-lt_iff_lt-mul some_room).0 h in
    div-le_of_le-mul n (omega (arith, mul_comm n k))

module _ {ℓ} {A : Type ℓ} (n : ℕ) where
  pub record Represents (s : SegArray A) (xs : List A) : Type ℓ where
    pub size : s.n_elements ≡ length xs
    pub room : s.n_elements / n ≤ length s.segments
    pub cells : (i : ℕ) → i < length xs → el_get n i s ≡ get_elem? xs i

  -- Where nothing that can be read changes, the same sequence is held.
  Represents-Same :
      {s s' : SegArray A} {xs : List A} → Same n s s' → Represents s xs → Represents s' xs
  Represents-Same {s} {s'} same r = record {
    size = same.count ∙ r.size;
    room =
        subst (λ m. m / n ≤ length s'.segments) (sym same.count)
          (omega (arith, r.room, same.longer));
    cells = λ i h. same.reads i ∙ r.cells i h;
  }

  pushed-Represents :
      (v : A) (s : SegArray A) (xs : List A)
      → 0 < n
      → Represents s xs
      → IsAllocated n s.n_elements s
      → Represents
          (record (el_put n s.n_elements (some v) s) { n_elements = s.n_elements + 1 })
          (xs ++ v ∷ [])
  unfolding el_get el_put
  pushed-Represents v s xs some_room r there = record {
    size = omega (arith, r.size, length-append xs (v ∷ []));
    room =
        subst (λ m. (s.n_elements + 1) / n ≤ m) (sym (el_put-segments n s.n_elements (some v) s).0)
          (room_next n s.n_elements (length s.segments) some_room
            (segment_below n (s.n_elements / n) s there.0 there.1));
    cells = λ i h. elim (dec_lt i (length xs)) [
      | yes old ↦
          el_get-el_put_ne n s.n_elements i (some v) s (λ e. omega (arith, r.size))
          ∙ r.cells i old
          ∙ sym (get_elem?-append_left xs (v ∷ []) i old)
      | no last ↦
          let at_end : i ≡ s.n_elements = omega (arith, r.size, length-append xs (v ∷ [])) in
          ap (λ j. el_get n j (el_put n s.n_elements (some v) s)) at_end
          ∙ el_get-el_put_self n s.n_elements (some v) s there
          ∙ sym (get_elem?-append_last xs v)
          ∙ ap (get_elem? (xs ++ v ∷ [])) (sym (at_end ∙ r.size))
    ];
  }

  pub push_back-Represents :
      (realloc_ok malloc_ok : Bool) (v : A) (s : SegArray A) (xs : List A)
      → 0 < n
      → Represents s xs
      → let r = push_back n realloc_ok malloc_ok v s in
        Represents r.left (if r.returned then xs ++ v ∷ [] else xs)
  unfolding push_back
  push_back-Represents realloc_ok malloc_ok v s xs some_room r =
      let r' = alloc_end n realloc_ok malloc_ok s in
      let ready = alloc_end-IsReady n realloc_ok malloc_ok s r.room in
      elim (Bool-cases r'.returned) [
        | inl ok ↦ rw ok (
            pushed-Represents v r'.left xs some_room (Represents-Same ready.same r)
              (subst (λ m. IsAllocated n m r'.left) (sym ready.same.count) (ready.ready ok)))
        | inr failed ↦ rw failed (rw failed (Represents-Same ready.same r))
      ]

  el_get_count :
      (i m : ℕ) (s : SegArray A) → el_get n i (record s { n_elements = m }) ≡ el_get n i s
  unfolding el_get
  el_get_count i m s = refl

  -- The array begins with `xs`.
  pub record StartsWith (s : SegArray A) (xs : List A) : Type ℓ where
    pub size : length xs ≤ s.n_elements
    pub room : s.n_elements / n ≤ length s.segments
    pub cells : (i : ℕ) → i < length xs → el_get n i s ≡ get_elem? xs i

  StartsWith-append : (s : SegArray A) (xs ys : List A) → Represents s (xs ++ ys) → StartsWith s xs
  StartsWith-append s xs ys r = record {
    size = omega (arith, r.size, length-append xs ys);
    room = r.room;
    cells = λ i h. r.cells i (omega (arith, length-append xs ys)) ∙ get_elem?-append_left xs ys i h;
  }

  -- The array is cut down to its beginning.
  cut-Represents :
      (s s' : SegArray A) (xs : List A)
      → 0 < n
      → StartsWith s xs
      → s'.n_elements ≡ length xs
      → length s'.segments ≡ length s.segments
      → ((i : ℕ) → i < length xs → el_get n i s' ≡ el_get n i s)
      → Represents s' xs
  cut-Represents s s' xs some_room r size same reads = record {
    size = size;
    room =
        subst (λ l. s'.n_elements / n ≤ l) (sym same)
          (room_smaller n s'.n_elements s.n_elements (length s.segments) some_room
            (omega (arith, r.size)) r.room);
    cells = λ i h. reads i h ∙ r.cells i h;
  }

  destroy_last-keeps :
      (k : ℕ) (s : SegArray A)
      → k ≤ s.n_elements
      → ((destroy_last n k s).n_elements ≡ s.n_elements - k)
        × (length (destroy_last n k s).segments ≡ length s.segments)
        × ((i : ℕ) → i < s.n_elements - k → el_get n i (destroy_last n k s) ≡ el_get n i s)
  unfolding destroy_last
  destroy_last-keeps zero s h = (omega arith, refl, λ i b. refl)
  destroy_last-keeps (suc k) s h =
      let t = record (el_put n (s.n_elements - 1) none s) { n_elements = s.n_elements - 1 } in
      let (count, long, reads) = destroy_last-keeps k t (omega arith) in
      (
        omega arith,
        long ∙ (el_put-segments n (s.n_elements - 1) none s).0,
        λ i b.
            reads i (omega arith)
            ∙ el_get_count i _ (el_put n (s.n_elements - 1) none s)
            ∙ el_get-el_put_ne n (s.n_elements - 1) i none s (λ e. omega arith),
      )

  pub set_size_smaller-StartsWith :
      (own_lifetime : Bool) (s : SegArray A) (xs : List A)
      → 0 < n
      → StartsWith s xs
      → Represents (set_size_smaller n own_lifetime (length xs) s) xs
  unfolding set_size_smaller
  set_size_smaller-StartsWith own_lifetime s xs some_room r =
      elim (Bool-cases (ltb (length xs) s.n_elements)) [
        | inl fewer ↦ rw fewer (shrunk own_lifetime (ground arith))
        | inr all ↦
            rw all (cut-Represents s s xs some_room r (ground (arith, r.size)) refl (λ i h. refl))
      ]
    where
      shrunk :
          (own : Bool)
          → length xs < s.n_elements
          → Represents
              (if own
                then destroy_last n (s.n_elements - length xs) s
                else record s { n_elements = length xs })
              xs
      shrunk true fewer =
          let (count, long, reads) =
            destroy_last-keeps (s.n_elements - length xs) s (omega arith) in
          cut-Represents s _ xs some_room r (omega arith) long (λ i h. reads i (omega arith))
      shrunk false fewer =
          cut-Represents s _ xs some_room r refl refl (λ i h. el_get_count i (length xs) s)

  -- On an array that holds a sequence with a last element, `pop_back` gives that element, and the
  -- array then holds the rest, whether it owns its elements or not.
  pub pop_back_lem :
      (own_lifetime : Bool) (s : SegArray A) (xs : List A) (v : A)
      → 0 < n
      → Represents s (xs ++ v ∷ [])
      → ((pop_back n own_lifetime s).0 ≡ some v) × Represents (pop_back n own_lifetime s).1 xs
  unfolding pop_back
  pop_back_lem own_lifetime s xs v some_room r =
      let last : s.n_elements - 1 ≡ length xs = omega (arith, r.size, length-append xs (v ∷ [])) in
      (
        ap (λ i. el_get n i s) last
            ∙ r.cells (length xs) (omega (arith, length-append xs (v ∷ [])))
            ∙ get_elem?-append_last xs v,
        subst (λ m. Represents (set_size_smaller n own_lifetime m s) xs) (sym last)
            (set_size_smaller-StartsWith own_lifetime s xs some_room
              (StartsWith-append s xs (v ∷ []) r)),
      )
