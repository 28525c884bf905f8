-- ===== src/ShPtr/Threads/Advance.antt =====
-- A thread of src/_shwkptr.h that is not done with the container can move towards that.
use native.Mathlib.Decide.{dec_lt, ℕ_discrete}
use bienutil.Base.{
  ℕ, zero, suc, ◌+◌, ◌*◌, ◌<◌, ◌≤◌, ◌≡◌, refl, ap, ◌⊎◌, inl, inr, Bool, true, false, arith,
}
use bienutil.ShPtr.Container.{decrement}
use bienutil.ShPtr.Threads.System.{
  Shared, Pc, idle, counted_weak, adding, added, destroying, releasing, deallocating, Thread, Move,
  copied, exhausted, retry, exchange_kept, exchange_moved, locked, release_last, release, destroy,
  drop_last, drop, release_weak_last, release_weak, deallocate, refs,
}

-- How much a thread has left to do before it is quiet.
abbrev pub pc_cost : Pc → ℕ
pc_cost idle = 0
pc_cost counted_weak = 6
pc_cost (adding _ _) = 7
pc_cost added = 6
pc_cost destroying = 4
pc_cost releasing = 3
pc_cost deallocating = 1

abbrev pub cost : Thread → ℕ
cost t = 5 * t.strongs + 3 * t.weaks + pc_cost t.pc

-- One move, or a failed exchange and what follows it, that brings the thread closer.
abbrev pub Advance : Shared → Thread → Type 0
Advance g t =
    (g' : Shared) × (t' : Thread) × (cost t' < cost t)
    × (refs t' ≤ refs t)
    × (t'.leaks ≡ t.leaks)
    × (Move g t g' t' ⊎ ((u : Thread) × Move g t g u × Move g u g' t' × (refs u ≤ refs t)))

advance_exchange :
    (g : Shared) (t : Thread) (keep : Bool) (c : ℕ)
    → t.pc ≡ adding keep (suc c)
    → g.ref_obj ≡ suc c
    → (g' : Shared) × (t' : Thread) × (cost t' < cost t)
      × (refs t' ≤ refs t)
      × (t'.leaks ≡ t.leaks)
      × Move g t g' t'
advance_exchange g t true c e now = (_, _, ground arith, ground arith, refl, exchange_kept e now)
advance_exchange g t false c e now = (_, _, ground arith, ground arith, refl, exchange_moved e now)

-- A failed exchange loads the count again, and the next exchange may succeed.
Advance-adding :
    (g : Shared) (t : Thread) (keep : Bool) (cur r : ℕ)
    → t.pc ≡ adding keep cur
    → g.ref_obj ≡ r
    → Advance g t
Advance-adding g t keep zero r e now =
    (g, record t { pc = idle }, ground arith, ground arith, refl, inl (exhausted e))
Advance-adding g t keep (suc c) zero e now = (
  g,
  record t { pc = idle },
  ground arith,
  ground arith,
  refl,
  inr (
    record t { pc = adding keep g.ref_obj },
    retry e,
    exhausted {keep = keep} (ap (adding keep) now),
    ground arith,
  ),
)
Advance-adding g t keep (suc c) (suc r) e now =
    let u = record t { pc = adding keep g.ref_obj } in
    let (g', t', cheaper, fewer, kept, move) =
      advance_exchange g u keep r (ap (adding keep) now) now in
    (g', t', ground arith, ground arith, kept, inr (u, retry e, move, ground arith))

Advance-strong : (g : Shared) (t : Thread) → t.pc ≡ Pc.idle → 0 < t.strongs → Advance g t
Advance-strong g t e held = elim (ℕ_discrete (decrement g.ref_obj) 0) [
  | yes z ↦ (_, _, ground arith, ground arith, refl, inl (release_last e held z))
  | no nz ↦ (_, _, ground arith, ground arith, refl, inl (release e held nz))
]

Advance-weak : (g : Shared) (t : Thread) → t.pc ≡ Pc.idle → 0 < t.weaks → Advance g t
Advance-weak g t e held = elim (ℕ_discrete (decrement g.ref_weak) 0) [
  | yes z ↦ (_, _, ground arith, ground arith, refl, inl (release_weak_last e held z))
  | no nz ↦ (_, _, ground arith, ground arith, refl, inl (release_weak e held nz))
]

pub advance : (g : Shared) (t : Thread) (p : Pc) → t.pc ≡ p → 0 < cost t → Advance g t
advance g t idle e h = elim (dec_lt 0 t.strongs) [
  | yes held ↦ Advance-strong g t e held
  | no none_left ↦ Advance-weak g t e (ground arith)
]
advance g t counted_weak e h = (_, _, ground arith, ground arith, refl, inl (copied e))
advance g t (adding keep cur) e h = Advance-adding g t keep cur g.ref_obj e refl
advance g t added e h = (_, _, ground arith, ground arith, refl, inl (locked e))
advance g t destroying e h = (_, _, ground arith, ground arith, refl, inl (destroy e))
advance g t releasing e h = elim (ℕ_discrete (decrement g.ref_weak) 0) [
  | yes z ↦ (_, _, ground arith, ground arith, refl, inl (drop_last e z))
  | no nz ↦ (_, _, ground arith, ground arith, refl, inl (drop e nz))
]
advance g t deallocating e h = (_, _, ground arith, ground arith, refl, inl (deallocate e))
