-- ===== src/ShPtr/Threads/Progress.antt =====
-- The threads of src/_shwkptr.h can always let go of the container.
use bienutil.Base.{ℕ, zero, suc, ◌+◌, ◌<◌, ◌≤◌, ◌≡◌, refl, sym, ap, ◌∙◌, inl, inr, arith}
use bienutil.ShPtr.Container.{update, ref_limit}
use mathlib.Core.Path.{subst}
use bienutil.ShPtr.Family.{update-same}
use bienutil.ShPtr.Family.{sum_below, sum_below-update, le-sum_below, sum_below-zero_or_positive}
use bienutil.ShPtr.Threads.System.{
  Shared, Thread, Move, System, pick, refs, IsSmall, leaked, Steps, here, next, Reach,
}
use bienutil.ShPtr.Threads.Advance.{cost, advance}
use bienutil.ShPtr.Threads.Hands.{Reach-Inv}
use bienutil.ShPtr.Threads.Invariant.{is_zero}
use bienutil.ShPtr.Threads.Safety.{IsQuiet, released_once}

-- The system after the thread has advanced.
abbrev Closer : ℕ → System → Type 0
Closer n s =
    (s' : System) × Steps n s s'
    × (sum_below cost n s'.thread < sum_below cost n s.thread)
    × IsSmall n s'
    × (leaked n s' ≡ leaked n s)

sum_below-rewrite :
    (w : Thread → ℕ) (n : ℕ) (f : ℕ → Thread) (i : ℕ) (u t : Thread)
    → i < n
    → sum_below w n (update (update f i u) i t) + w (f i) ≡ w t + sum_below w n f
sum_below-rewrite w n f i u t h = omega (
  arith,
  sum_below-update w n f i u h,
  subst (λ x. sum_below w n (update (update f i u) i t) + w x ≡ w t + sum_below w n (update f i u))
      (update-same f i u) (sum_below-update w n (update f i u) i t h),
)

module _ (n : ℕ) (s : System) (i : ℕ) (h : i < n) (small : IsSmall n s) where
  advance_once :
      (g : Shared) (t : Thread)
      → cost t < cost (s.thread i)
      → refs t ≤ refs (s.thread i)
      → t.leaks ≡ (s.thread i).leaks
      → Move s.mem (s.thread i) g t
      → Closer n s
  advance_once g t cheaper fewer kept move =
      let room : sum_below refs n (update s.thread i t) < ref_limit =
        omega (arith, sum_below-update refs n s.thread i t h) in
      (
        _,
        next here (pick i h move) room,
        omega (arith, sum_below-update cost n s.thread i t h),
        room,
        omega (arith, sum_below-update (λ t. t.leaks) n s.thread i t h),
      )

  advance_twice :
      (g : Shared) (t u : Thread)
      → cost t < cost (s.thread i)
      → refs t ≤ refs (s.thread i)
      → refs u ≤ refs (s.thread i)
      → t.leaks ≡ (s.thread i).leaks
      → Move s.mem (s.thread i) s.mem u
      → Move s.mem u g t
      → Closer n s
  advance_twice g t u cheaper fewer fewer' kept first second =
      let first_room : sum_below refs n (update s.thread i u) < ref_limit =
        omega (arith, sum_below-update refs n s.thread i u h) in
      let room : sum_below refs n (update (update s.thread i u) i t) < ref_limit =
        omega (arith, sum_below-rewrite refs n s.thread i u t h) in
      (
        _,
        next (next here (pick i h first) first_room)
            (pick i h (subst (λ x. Move s.mem x g t) (sym (update-same s.thread i u)) second)) room,
        omega (arith, sum_below-rewrite cost n s.thread i u t h),
        room,
        omega (arith, sum_below-rewrite (λ t. t.leaks) n s.thread i u t h),
      )

progress : {n : ℕ} {s : System} → IsSmall n s → (i : ℕ) → i < n → 0 < cost (s.thread i) → Closer n s
progress {n} {s} small i h busy_thread =
    let (g, t, cheaper, fewer, kept, moves) = advance s.mem (s.thread i) _ refl busy_thread in
    elim moves [
      | inl move ↦ advance_once n s i h small g t cheaper fewer kept move
      | inr (u, first, second, fewer') ↦
          advance_twice n s i h small g t u cheaper fewer fewer' kept first second
    ]

pub Steps-trans : {n : ℕ} {s s' s'' : System} → Steps n s s' → Steps n s' s'' → Steps n s s''
Steps-trans r here = r
Steps-trans r (next r' st room) = next (Steps-trans r r') st room

IsQuiet-of_cost : (t : Thread) → cost t ≡ 0 → IsQuiet t
IsQuiet-of_cost t e = ground arith

-- Fuel is the sum of the costs.
finish :
    (fuel n : ℕ) (s : System)
    → sum_below cost n s.thread ≤ fuel
    → IsSmall n s
    → (s' : System) × Steps n s s'
      × ((i : ℕ) → i < n → IsQuiet (s'.thread i))
      × (leaked n s' ≡ leaked n s)
finish zero n s bound small = (
  s,
  here,
  λ i h. IsQuiet-of_cost (s.thread i) (omega (arith, le-sum_below cost n s.thread i h)),
  refl,
)
finish (suc fuel) n s bound small = elim (sum_below-zero_or_positive cost n s.thread) [
  | inl all_quiet ↦ (s, here, λ i h. IsQuiet-of_cost (s.thread i) (all_quiet i h), refl)
  | inr (i, h, positive) ↦
      let (s', steps, closer, room, kept) = progress small i h positive in
      let (s'', more, quiet, kept') = finish fuel n s' (omega arith) room in
      (s'', Steps-trans steps more, quiet, kept' ∙ kept)
]

-- From every state that threads reach, with fewer pointers, leaked references, calls and threads than
-- a count can hold, some run goes on to one where the memory has been given back exactly once, and the object destroyed exactly once if no strong pointer has been assigned as an
-- rvalue to a weak one, which leaks its reference; if one has, the object is not destroyed.
pub can_release :
    {n : ℕ} {s : System}
    → 0 < n
    → n + 1 < ref_limit
    → Reach n s
    → (s' : System) × Steps n s s'
      × (s'.mem.deallocations ≡ 1)
      × (s'.mem.destructions ≡ is_zero (leaked n s))
can_release {n} {s} some_thread few reached =
    let inv = Reach-Inv some_thread few reached in
    let (s', steps, quiet, kept) = finish (sum_below cost n s.thread) n s (omega arith) inv.small in
    let (freed, dead) = released_once some_thread few (Steps-trans reached steps) quiet in
    (s', steps, freed, dead ∙ ap is_zero kept)
