-- ===== src/ShPtr/Threads/System.antt =====
-- Threads that share one container of src/_shwkptr.h, interleaved in any order.
use bienutil.Base.{ℕ, suc, ◌+◌, ◌-◌, ◌<◌, ◌≡◌, ◌≢◌, Bool, true, false}
use bienutil.ShPtr.Container.{update, increment, decrement, ref_limit}
use bienutil.ShPtr.Family.{sum_below}

-- The container: its counts, and how often its object was destroyed and its memory given back.
pub record Shared : Type 0 where
  pub ref_obj : ℕ
  pub ref_weak : ℕ
  pub destructions : ℕ
  pub deallocations : ℕ

-- Where a thread stands in a member function of the container.
pub data Pc : Type 0 where
  idle : Pc
  counted_weak : Pc  -- in `_AddRefStrongNoThrow`, before `++m_nRefObj`
  adding : (keep : Bool) → (cur : ℕ) → Pc  -- in `FAtomicAddNotEqual`, with its `tCur`
  added : Pc  -- after `_AddRefStrongOnly`, before `_AddRefWeakNoThrow`
  destroying : Pc  -- in `_DoReleaseStrong`, before `m_tyT.~_TyT()`
  releasing : Pc  -- in `_DoReleaseStrong`, before `--m_nRefWeak`
  deallocating : Pc  -- before `deallocate`

-- A thread: the pointers to the container that it holds, and, which no variable of the program
-- counts, the strong references that it has leaked.
pub record Thread : Type 0 where
  pub strongs : ℕ
  pub weaks : ℕ
  pub leaks : ℕ
  pub pc : Pc

-- One atomic access of one thread, or a step of it that shares nothing; assertions are not tested.
-- The releases are `_DoReleaseStrong` and `_DoReleaseWeak`, and `FAtomicAddNotEqual` is that of
-- src/_util.h. Constructors and assignments that only move a pointer are no step, but for the one that
-- makes a strong pointer a weak one.
pub data Move (g : Shared) (t : Thread) : Shared → Thread → Type 0 where
  -- `SharedStrongPtr( SharedStrongPtr const & )`
  copy :
      t.pc ≡ Pc.idle
      → 0 < t.strongs
      → Move g t (record g { ref_weak = increment g.ref_weak }) (record t { pc = counted_weak })
  copied :
      t.pc ≡ counted_weak
      → Move g t
          (record g { ref_obj = increment g.ref_obj })
          (record t { strongs = t.strongs + 1; pc = idle })
  -- `SharedWeakPtr( SharedWeakPtr const & )` and `SharedWeakPtr( SharedStrongPtr const & )`
  copy_weak :
      t.pc ≡ Pc.idle
      → 0 < t.strongs + t.weaks
      → Move g t (record g { ref_weak = increment g.ref_weak }) (record t { weaks = t.weaks + 1 })
  -- `SharedWeakPtr::operator=( SharedStrongPtr && )`, into a null pointer: the weak pointer takes over
  -- the weak reference, and the strong reference stays in `m_nRefObj`
  observe_moved :
      t.pc ≡ Pc.idle
      → 0 < t.strongs
      → Move g t g (record t { strongs = t.strongs - 1; weaks = t.weaks + 1; leaks = t.leaks + 1 })
  -- A strong pointer from a weak one, which is kept or emptied: `_rat.load()`
  load :
      (keep : Bool)
      → t.pc ≡ Pc.idle
      → 0 < t.weaks
      → Move g t g (record t { pc = adding keep g.ref_obj })
  -- the loop of `FAtomicAddNotEqual` ends at `_rtNotEqual`, and the caller throws or leaves empty
  exhausted : {keep : Bool} → t.pc ≡ adding keep 0 → Move g t g (record t { pc = idle })
  -- `compare_exchange_weak` fails, which may be spurious
  retry :
      {keep : Bool} {cur : ℕ}
      → t.pc ≡ adding keep (suc cur)
      → Move g t g (record t { pc = adding keep g.ref_obj })
  -- `compare_exchange_weak` succeeds
  exchange_kept :
      {cur : ℕ}
      → t.pc ≡ adding true (suc cur)
      → g.ref_obj ≡ suc cur
      → Move g t (record g { ref_obj = increment (suc cur) }) (record t { pc = added })
  exchange_moved :
      {cur : ℕ}
      → t.pc ≡ adding false (suc cur)
      → g.ref_obj ≡ suc cur
      → Move g t
          (record g { ref_obj = increment (suc cur) })
          (record t { strongs = t.strongs + 1; weaks = t.weaks - 1; pc = idle })
  locked :
      t.pc ≡ added
      → Move g t
          (record g { ref_weak = increment g.ref_weak })
          (record t { strongs = t.strongs + 1; pc = idle })
  -- `_DoReleaseStrong`: `!--m_nRefObj`
  release_last :
      t.pc ≡ Pc.idle
      → 0 < t.strongs
      → decrement g.ref_obj ≡ 0
      → Move g t
          (record g { ref_obj = decrement g.ref_obj })
          (record t { strongs = t.strongs - 1; pc = destroying })
  release :
      t.pc ≡ Pc.idle
      → 0 < t.strongs
      → decrement g.ref_obj ≢ 0
      → Move g t
          (record g { ref_obj = decrement g.ref_obj })
          (record t { strongs = t.strongs - 1; pc = releasing })
  destroy :
      t.pc ≡ destroying
      → Move g t (record g { destructions = g.destructions + 1 }) (record t { pc = releasing })
  -- `!--m_nRefWeak`
  drop_last :
      t.pc ≡ releasing
      → decrement g.ref_weak ≡ 0
      → Move g t (record g { ref_weak = decrement g.ref_weak }) (record t { pc = deallocating })
  drop :
      t.pc ≡ releasing
      → decrement g.ref_weak ≢ 0
      → Move g t (record g { ref_weak = decrement g.ref_weak }) (record t { pc = idle })
  -- `_DoReleaseWeak`
  release_weak_last :
      t.pc ≡ Pc.idle
      → 0 < t.weaks
      → decrement g.ref_weak ≡ 0
      → Move g t
          (record g { ref_weak = decrement g.ref_weak })
          (record t { weaks = t.weaks - 1; pc = deallocating })
  release_weak :
      t.pc ≡ Pc.idle
      → 0 < t.weaks
      → decrement g.ref_weak ≢ 0
      → Move g t (record g { ref_weak = decrement g.ref_weak }) (record t { weaks = t.weaks - 1 })
  deallocate :
      t.pc ≡ deallocating
      → Move g t (record g { deallocations = g.deallocations + 1 }) (record t { pc = idle })

pub record System : Type 0 where
  pub mem : Shared
  pub thread : ℕ → Thread

-- A thread moves, or hands one of its pointers to another thread.
pub data Step (n : ℕ) (s : System) : System → Type 0 where
  pick :
      (i : ℕ) {g : Shared} {t : Thread}
      → i < n
      → Move s.mem (s.thread i) g t
      → Step n s (record { mem = g; thread = update s.thread i t })
  hand_strong :
      (i j : ℕ)
      → i < n
      → j < n
      → i ≢ j
      → (s.thread i).pc ≡ Pc.idle
      → 0 < (s.thread i).strongs
      → Step n s (record {
        mem = s.mem;
        thread =
            update
              (update s.thread i (record (s.thread i) { strongs = (s.thread i).strongs - 1 }))
              j
              (record (s.thread j) { strongs = (s.thread j).strongs + 1 });
      })
  hand_weak :
      (i j : ℕ)
      → i < n
      → j < n
      → i ≢ j
      → (s.thread i).pc ≡ Pc.idle
      → 0 < (s.thread i).weaks
      → Step n s (record {
        mem = s.mem;
        thread =
            update
              (update s.thread i (record (s.thread i) { weaks = (s.thread i).weaks - 1 }))
              j
              (record (s.thread j) { weaks = (s.thread j).weaks + 1 });
      })

-- Thread 0 has just created the container with its object, and holds the one pointer to it.
abbrev pub initial : System
initial = record {
  mem = record { ref_obj = 1; ref_weak = 1; destructions = 0; deallocations = 0 };
  thread =
      update (λ _. record { strongs = 0; weaks = 0; leaks = 0; pc = idle }) 0
        (record { strongs = 1; weaks = 0; leaks = 0; pc = idle });
}

abbrev pub busy : Pc → ℕ
busy Pc.idle = 0
busy _ = 1

-- Pointers, leaks, calls in progress and threads together are fewer than a count can hold.
abbrev pub refs : Thread → ℕ
refs t = t.strongs + t.weaks + t.leaks + busy t.pc + 1

-- The strong references that threads have leaked.
abbrev pub leaked : ℕ → System → ℕ
leaked n s = sum_below (λ t. t.leaks) n s.thread

abbrev pub IsSmall : ℕ → System → Type 0
IsSmall n s = sum_below refs n s.thread < ref_limit

pub data Steps (n : ℕ) (s : System) : System → Type 0 where
  here : Steps n s s
  next : {s' s'' : System} → Steps n s s' → Step n s' s'' → IsSmall n s'' → Steps n s s''

abbrev pub Reach : ℕ → System → Type 0
Reach n s = Steps n initial s
