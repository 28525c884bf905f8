-- ===== src/ShPtr/Threads/Hands.antt =====
-- One thread of src/_shwkptr.h hands a pointer to another.
use mathlib.Core.Path.{subst}
use bienutil.Base.{ℕ, zero, suc, ◌+◌, ◌<◌, ◌≤◌, ◌≡◌, ◌≢◌, refl, sym, arith}
use bienutil.ShPtr.Container.{update, ref_limit}
use bienutil.ShPtr.Family.{update-other}
use bienutil.ShPtr.Family.{sum_below, sum_below-update, sum_below-zero}
use bienutil.ShPtr.Threads.System.{
  Shared, Thread, Pc, idle, refs, Step, System, pick, hand_strong, hand_weak, IsSmall, initial,
  here, next, Reach,
}
use bienutil.ShPtr.Threads.Invariant.{
  Inv, KeepsSource, holds_obj, holds_weak, in_destruction, in_deallocation, Move-Inv,
  Sources-update,
}

sum_below-pair {ℓ} :
    {A : Type ℓ} (w : A → ℕ) (n : ℕ) (f : ℕ → A) (i j : ℕ) (t u : A)
    → i < n
    → j < n
    → i ≢ j
    → sum_below w n (update (update f i t) j u) + (w (f i) + w (f j)) ≡ w t + w u + sum_below w n f
sum_below-pair w n f i j t u hi hj ne = omega (
  arith,
  sum_below-update w n f i t hi,
  subst (λ x. sum_below w n (update (update f i t) j u) + w x ≡ w u + sum_below w n (update f i t))
      (update-other f i t j ne) (sum_below-update w n (update f i t) j u hj),
)

abbrev Same : (Thread → ℕ) → (t u t' u' : Thread) → Type 0
Same w t u t' u' = w t + w u ≡ w t' + w u'

module _ {n : ℕ} {g : Shared} {f : ℕ → Thread} (inv : Inv n g f) (i j : ℕ) (hi : i < n) (hj : j < n)
    (ne : i ≢ j) (t u : Thread) where
  open inv use {small, obj, weak, destroyed_once, deallocated_once, source}

  pair-Inv :
      Same refs t u (f i) (f j)
      → Same holds_obj t u (f i) (f j)
      → Same holds_weak t u (f i) (f j)
      → Same in_destruction t u (f i) (f j)
      → Same in_deallocation t u (f i) (f j)
      → KeepsSource t.pc t.strongs t.weaks
      → KeepsSource u.pc u.strongs u.weaks
      → Inv n g (update (update f i t) j u)
  pair-Inv same_refs same_obj same_weak same_dying same_freeing own_t own_u = record {
    small = omega (arith, sum_below-pair refs n f i j t u hi hj ne);
    obj = omega (arith, sum_below-pair holds_obj n f i j t u hi hj ne);
    weak = omega (arith, sum_below-pair holds_weak n f i j t u hi hj ne);
    destroyed_once = omega (arith, sum_below-pair in_destruction n f i j t u hi hj ne);
    deallocated_once = omega (arith, sum_below-pair in_deallocation n f i j t u hi hj ne);
    source = Sources-update n (update f i t) j u (Sources-update n f i t source own_t) own_u;
  }

KeepsSource-idle : (p : Pc) (s w : ℕ) → p ≡ Pc.idle → KeepsSource p s w
KeepsSource-idle p s w e = subst (λ p. KeepsSource p s w) (sym e) tt

KeepsSource-mono :
    (p : Pc) (s w s' w' : ℕ) → s ≤ s' → w ≤ w' → KeepsSource p s w → KeepsSource p s' w'
KeepsSource-mono p s w s' w' hs hw h = ground arith

pub Step-Inv :
    {n : ℕ} {s s' : System}
    → Step n s s'
    → Inv n s.mem s.thread
    → IsSmall n s'
    → Inv n s'.mem s'.thread
Step-Inv (pick i h move) inv room = Move-Inv inv i h move room
Step-Inv {s} (hand_strong i j hi hj ne e held) inv room =
    pair-Inv inv i j hi hj ne _ _ (ground arith) (omega arith) (omega arith) refl refl
      (KeepsSource-idle (s.thread i).pc _ _ e)
      (KeepsSource-mono (s.thread j).pc _ _ _ _ (omega arith) (omega arith) (inv.source j hj))
Step-Inv {s} (hand_weak i j hi hj ne e held) inv room =
    pair-Inv inv i j hi hj ne _ _ (ground arith) (omega arith) (omega arith) refl refl
      (KeepsSource-idle (s.thread i).pc _ _ e)
      (KeepsSource-mono (s.thread j).pc _ _ _ _ (omega arith) (omega arith) (inv.source j hj))

abbrev empty_thread : Thread
empty_thread = record { strongs = 0; weaks = 0; leaks = 0; pc = idle }

abbrev creator : Thread
creator = record { strongs = 1; weaks = 0; leaks = 0; pc = idle }

initial-sum_below :
    (w : Thread → ℕ) (n : ℕ) → 0 < n → w empty_thread ≡ 0 → sum_below w n initial.thread ≡ w creator
initial-sum_below w n some_thread h = omega (
  arith,
  sum_below-update w n (λ _. empty_thread) 0 creator some_thread,
  sum_below-zero w n (λ _. empty_thread) (λ _ _. h),
)

sum_below-refs : (n : ℕ) → sum_below refs n (λ _. empty_thread) ≡ n
unfolding sum_below
sum_below-refs zero = refl
sum_below-refs (suc n) = omega (arith, sum_below-refs n)

initial-Inv : (n : ℕ) → 0 < n → n + 1 < ref_limit → Inv n initial.mem initial.thread
initial-Inv n some_thread few = record {
  small =
      omega (
        arith,
        sum_below-update refs n (λ _. empty_thread) 0 creator some_thread,
        sum_below-refs n,
      );
  obj = sym (initial-sum_below holds_obj n some_thread refl);
  weak = sym (initial-sum_below holds_weak n some_thread refl);
  destroyed_once = omega (arith, initial-sum_below in_destruction n some_thread refl);
  deallocated_once = omega (arith, initial-sum_below in_deallocation n some_thread refl);
  source = Sources-update n (λ _. empty_thread) 0 creator (λ _ _. tt) tt;
}

pub Reach-Inv : {n : ℕ} {s : System} → 0 < n → n + 1 < ref_limit → Reach n s → Inv n s.mem s.thread
Reach-Inv {n} some_thread few here = initial-Inv n some_thread few
Reach-Inv some_thread few (next r st room) = Step-Inv st (Reach-Inv some_thread few r) room
