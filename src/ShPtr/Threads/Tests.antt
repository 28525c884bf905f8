-- ===== src/ShPtr/Threads/Tests.antt =====
-- A run of two threads over a container of src/_shwkptr.h, and each result at it.
use native.Mathlib.Decide.{ℕ_discrete}
use bienutil.Base.{ℕ, zero, suc, ◌<◌, ◌≡◌, refl, inr, arith}
use bienutil.ShPtr.Container.{update}
use bienutil.ShPtr.Family.{sum_below}
use bienutil.ShPtr.Threads.System.{
  Shared, idle, destroying, releasing, deallocating, Thread, observe_moved, release_last, destroy,
  drop_last, deallocate, System, pick, Steps, here, next, Reach, initial,
}
use bienutil.ShPtr.Threads.Safety.{
  memory_outlives_uses, object_outlives_uses, released_once, IsQuiet,
}
use bienutil.ShPtr.Threads.Progress.{can_release}

abbrev after : System → ℕ → Shared → Thread → System
after s i g t = record { mem = g; thread = update s.thread i t }

-- Thread 0 hands nothing on and releases its pointer: its count reaches 0, ...
abbrev unheld : System
unheld =
    after initial 0 (record { ref_obj = 0; ref_weak = 1; destructions = 0; deallocations = 0 })
      (record { strongs = 0; weaks = 0; leaks = 0; pc = destroying })

-- ... the object is destroyed, ...
abbrev dead : System
dead =
    after unheld 0 (record { ref_obj = 0; ref_weak = 1; destructions = 1; deallocations = 0 })
      (record { strongs = 0; weaks = 0; leaks = 0; pc = releasing })

abbrev unused : System
unused =
    after dead 0 (record { ref_obj = 0; ref_weak = 0; destructions = 1; deallocations = 0 })
      (record { strongs = 0; weaks = 0; leaks = 0; pc = deallocating })

-- ... and the memory given back.
abbrev freed : System
freed =
    after unused 0 (record { ref_obj = 0; ref_weak = 0; destructions = 1; deallocations = 1 })
      (record { strongs = 0; weaks = 0; leaks = 0; pc = idle })

Reach-unheld : Reach 2 unheld
unfolding sum_below ℕ_discrete
Reach-unheld = next here (pick 0 (omega arith) (release_last refl (omega arith) refl)) (omega arith)

Reach-freed : Reach 2 freed
unfolding sum_below ℕ_discrete
Reach-freed =
    next
      (next (next Reach-unheld (pick 0 (omega arith) (destroy refl)) (omega arith))
        (pick 0 (omega arith) (drop_last refl refl)) (omega arith))
      (pick 0 (omega arith) (deallocate refl)) (omega arith)

memory_outlives_uses_example : unheld.mem.deallocations ≡ 0
unfolding ℕ_discrete
memory_outlives_uses_example =
    memory_outlives_uses (omega arith) (omega arith) Reach-unheld 0 (omega arith) (inr (λ e. cc))

object_outlives_uses_example : unheld.mem.destructions ≡ 0
unfolding ℕ_discrete
object_outlives_uses_example =
    object_outlives_uses (omega arith) (omega arith) Reach-unheld 0 (omega arith) (inr refl)

freed-IsQuiet : (i : ℕ) → i < 2 → IsQuiet (freed.thread i)
unfolding ℕ_discrete
freed-IsQuiet zero h = (refl, refl, refl)
freed-IsQuiet (suc i) h = ground arith

released_once_example : (freed.mem.deallocations ≡ 1) × (freed.mem.destructions ≡ 1)
unfolding sum_below ℕ_discrete
released_once_example = released_once (omega arith) (omega arith) Reach-freed freed-IsQuiet

-- Thread 0 assigns its pointer as an rvalue to a weak one.
abbrev leaky : System
leaky =
    after initial 0 (record { ref_obj = 1; ref_weak = 1; destructions = 0; deallocations = 0 })
      (record { strongs = 0; weaks = 1; leaks = 1; pc = idle })

Reach-leaky : Reach 2 leaky
unfolding sum_below ℕ_discrete
Reach-leaky = next here (pick 0 (omega arith) (observe_moved refl (omega arith))) (omega arith)

can_release_example :
    (s : System) × Steps 2 leaky s × (s.mem.deallocations ≡ 1) × (s.mem.destructions ≡ 0)
unfolding sum_below ℕ_discrete
can_release_example = can_release (omega arith) (omega arith) Reach-leaky
