-- ===== src/ShPtr/Safety.antt =====
-- What a program over the pointers of src/_shwkptr.h can rely on.
use bienutil.Base.{ℕ, ◌+◌, ◌<◌, ◌≡◌, refl, Option, some, arith}
use bienutil.ShPtr.Outcome.{Ends}
use bienutil.ShPtr.Container.{
  Object, absent, alive, destroyed, Block, unallocated, allocated, Memory, ref_limit,
}
use bienutil.ShPtr.Strong.{object_at}
use bienutil.ShPtr.Strong
use bienutil.ShPtr.Program.{Op, exec, IsEnabled, IsCareful, Reach}
use bienutil.ShPtr.Counts.Balance.{IsHeld, IsBalanced}
use bienutil.ShPtr.Counts.Pointers.{count}
use bienutil.ShPtr.Sound.Inv.{Inv, held_strong}
use bienutil.ShPtr.Sound.Creates.{IsAllocator}
use bienutil.ShPtr.Sound.Runs.{exec-Ends, Reach-Inv}

module _ {ℓ} {T : Type ℓ} where
  alive-IsHeld : (o : Object T) (s : ℕ) → 0 < s → IsHeld o s → (v : T) × (o ≡ alive v)
  alive-IsHeld (alive v) s h held = (v, refl)
  alive-IsHeld absent s h held = absurd (omega arith)
  alive-IsHeld destroyed s h held = absurd (omega arith)

  alive-IsBalanced :
      (b : Block T) (s w : ℕ) → 0 < s → IsBalanced b s w → (v : T) × (object_at b ≡ some v)
  alive-IsBalanced unallocated s w h held = absurd (omega arith)
  alive-IsBalanced (allocated c) s w h held =
      let (v, e) = alive-IsHeld c.object s h held.3 in (v, ground arith)

  module _ {n k : ℕ} (alloc : (ℕ → Block T) → Option ℕ) (sound : IsAllocator alloc)
      (few : n + k + 1 < ref_limit) {m : Memory T} (reached : Reach alloc n k m) where
    -- In every state that a careful run reaches, with fewer pointer variables than a count can hold
    -- and an allocator that gives only unused blocks, each operation that is used carefully returns
    -- or throws: no freed memory is used, no object destroyed twice, no `Assert` fails. Afterwards
    -- both counts of every container are again the numbers of its pointers, and its object is there
    -- as long as a strong one refers to it. A run is careful when it assigns no strong pointer that
    -- is not null as an rvalue to a weak one, and constructs a strong pointer from a weak rvalue only
    -- while another strong pointer keeps the object; all other operations are used carefully in any
    -- state.
    pub operations_safe :
        (op : Op T)
        → IsEnabled n k op m
        → IsCareful n op m
        → Ends (Inv n k) (Inv n k) (exec alloc op m)
    operations_safe op enabled care =
        exec-Ends alloc sound op m (Reach-Inv alloc sound few reached) enabled care

    -- In every state that a careful run reaches, a strong pointer that is not null gives an object.
    pub object_lives : (i a : ℕ) → i < n → m.strong i ≡ some a → (v : T) × (Strong.get i m ≡ some v)
    unfolding Strong.get
    object_lives i a h e =
        let inv = Reach-Inv alloc sound few reached in
        rw (e, Strong.get)
          (alive-IsBalanced (m.block a) (count n m.strong a) (count k m.weak a)
            (held_strong inv i a h e) (inv.balanced a))
