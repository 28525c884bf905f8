-- ===== src/ShPtr/Threads/Invariant.antt =====
-- The counts of src/_shwkptr.h under any interleaving: what the threads hold, and who destroys.
use bienutil.Base.{ℕ, ◌+◌, ◌<◌, ◌≤◌, ◌≡◌, sym, ◌==◌, if◌then◌else◌, arith}
use bienutil.ShPtr.Container.{update, ref_limit}
use native.Mathlib.Decide.{ℕ_discrete}
use mathlib.Core.Path.{subst}
use bienutil.ShPtr.Family.{update-same, update-other}
use bienutil.ShPtr.Family.{sum_below, sum_below-update, le-sum_below, sum_below_mono}
use bienutil.ShPtr.Threads.System.{
  Shared, Pc, counted_weak, adding, added, destroying, releasing, deallocating, Thread, Move, copy,
  copied, copy_weak, observe_moved, load, exhausted, retry, exchange_kept, exchange_moved, locked,
  release_last, release, destroy, drop_last, drop, release_weak_last, release_weak, deallocate,
  refs,
}

-- What a thread that stands at `pc` has in `m_nRefObj` and in `m_nRefWeak` besides its pointers.
abbrev obj_of : Pc → ℕ
obj_of added = 1
obj_of _ = 0

abbrev weak_of : Pc → ℕ
weak_of counted_weak = 1
weak_of destroying = 1
weak_of releasing = 1
weak_of _ = 0

abbrev destroys : Pc → ℕ
destroys destroying = 1
destroys _ = 0

abbrev deallocates : Pc → ℕ
deallocates deallocating = 1
deallocates _ = 0

-- The pointer that a thread is reading from stays.
abbrev pub KeepsSource : Pc → (strongs weaks : ℕ) → Type 0
KeepsSource counted_weak s w = 0 < s
KeepsSource (adding _ _) s w = 0 < w
KeepsSource added s w = 0 < w
KeepsSource _ s w = Unit

abbrev pub holds_obj : Thread → ℕ
holds_obj t = t.strongs + t.leaks + obj_of t.pc

abbrev pub holds_weak : Thread → ℕ
holds_weak t = t.strongs + t.weaks + weak_of t.pc

abbrev pub in_destruction : Thread → ℕ
in_destruction t = destroys t.pc

abbrev pub in_deallocation : Thread → ℕ
in_deallocation t = deallocates t.pc

abbrev pub is_zero : ℕ → ℕ
is_zero n = if n == 0 then 1 else 0

abbrev pub Sources : ℕ → (ℕ → Thread) → Type 0
Sources n f = (i : ℕ) → i < n → KeepsSource (f i).pc (f i).strongs (f i).weaks

-- The other threads keep what they are reading from.
pub Sources-update :
    (n : ℕ) (f : ℕ → Thread) (i : ℕ) (t : Thread)
    → Sources n f
    → KeepsSource t.pc t.strongs t.weaks
    → Sources n (update f i t)
Sources-update n f i t source own j hj = elim (ℕ_discrete i j) [
  | yes e ↦
      subst (λ x. KeepsSource x.pc x.strongs x.weaks)
        (subst (λ x. t ≡ update f i t x) e (sym (update-same f i t))) own
  | no ne ↦
      subst (λ x. KeepsSource x.pc x.strongs x.weaks) (sym (update-other f i t j ne)) (source j hj)
]

pub record Inv (n : ℕ) (g : Shared) (f : ℕ → Thread) : Type 0 where
  pub small : sum_below refs n f < ref_limit
  pub obj : g.ref_obj ≡ sum_below holds_obj n f
  pub weak : g.ref_weak ≡ sum_below holds_weak n f
  pub destroyed_once : g.destructions + sum_below in_destruction n f ≡ is_zero g.ref_obj
  pub deallocated_once : g.deallocations + sum_below in_deallocation n f ≡ is_zero g.ref_weak
  pub source : Sources n f

holds_obj-le : (t : Thread) → holds_obj t ≤ refs t
holds_obj-le t = ground arith

holds_weak-le : (t : Thread) → holds_weak t ≤ refs t
holds_weak-le t = ground arith

module _ {n : ℕ} {g : Shared} {f : ℕ → Thread} (inv : Inv n g f) (i : ℕ) (h : i < n) where
  open inv use {small, obj, weak, destroyed_once, deallocated_once, source}

  -- What a move of thread `i` to `t` does to the sums.
  record Mover (t : Thread) : Type 0 where
    objs :
        sum_below holds_obj n (update f i t) + holds_obj (f i)
        ≡ holds_obj t + sum_below holds_obj n f
    weaks :
        sum_below holds_weak n (update f i t) + holds_weak (f i)
        ≡ holds_weak t + sum_below holds_weak n f
    dying :
        sum_below in_destruction n (update f i t) + in_destruction (f i)
        ≡ in_destruction t + sum_below in_destruction n f
    freeing :
        sum_below in_deallocation n (update f i t) + in_deallocation (f i)
        ≡ in_deallocation t + sum_below in_deallocation n f
    obj_room : sum_below holds_obj n (update f i t) < ref_limit
    weak_room : sum_below holds_weak n (update f i t) < ref_limit
    own_obj : holds_obj (f i) ≤ g.ref_obj
    own_weak : holds_weak (f i) ≤ g.ref_weak
    own : KeepsSource (f i).pc (f i).strongs (f i).weaks

  mover : (t : Thread) → sum_below refs n (update f i t) < ref_limit → Mover t
  mover t room = record {
    objs = sum_below-update holds_obj n f i t h;
    weaks = sum_below-update holds_weak n f i t h;
    dying = sum_below-update in_destruction n f i t h;
    freeing = sum_below-update in_deallocation n f i t h;
    obj_room = omega (arith, sum_below_mono holds_obj refs holds_obj-le n (update f i t));
    weak_room = omega (arith, sum_below_mono holds_weak refs holds_weak-le n (update f i t));
    own_obj = omega (arith, le-sum_below holds_obj n f i h);
    own_weak = omega (arith, le-sum_below holds_weak n f i h);
    own = source i h;
  }

  Move-counts : {g' : Shared} {t : Thread} → Move g (f i) g' t → Mover t → record {
    obj : g'.ref_obj ≡ sum_below holds_obj n (update f i t);
    weak : g'.ref_weak ≡ sum_below holds_weak n (update f i t);
    destroyed_once :
        g'.destructions + sum_below in_destruction n (update f i t) ≡ is_zero g'.ref_obj;
    deallocated_once :
        g'.deallocations + sum_below in_deallocation n (update f i t) ≡ is_zero g'.ref_weak;
    own : KeepsSource t.pc t.strongs t.weaks;
  }
  Move-counts (copy e held) mv = ground arith
  Move-counts (copied e) mv = ground arith
  Move-counts (copy_weak e held) mv = ground arith
  Move-counts (observe_moved e held) mv = ground arith
  Move-counts (load keep e held) mv = ground arith
  Move-counts (exhausted e) mv = ground arith
  Move-counts (retry e) mv = ground arith
  Move-counts (exchange_kept e now) mv = ground arith
  Move-counts (exchange_moved e now) mv = ground arith
  Move-counts (locked e) mv = ground arith
  Move-counts (release_last e held z) mv = ground arith
  Move-counts (release e held z) mv = ground arith
  Move-counts (destroy e) mv = ground arith
  Move-counts (drop_last e z) mv = ground arith
  Move-counts (drop e z) mv = ground arith
  Move-counts (release_weak_last e held z) mv = ground arith
  Move-counts (release_weak e held z) mv = ground arith
  Move-counts (deallocate e) mv = ground arith

  pub Move-Inv :
      {g' : Shared} {t : Thread}
      → Move g (f i) g' t
      → sum_below refs n (update f i t) < ref_limit
      → Inv n g' (update f i t)
  Move-Inv {t} move room =
      let counts = Move-counts move (mover t room) in
      record {
        small = room;
        obj = counts.obj;
        weak = counts.weak;
        destroyed_once = counts.destroyed_once;
        deallocated_once = counts.deallocated_once;
        source = Sources-update n f i t source counts.own;
      }
