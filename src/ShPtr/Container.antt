-- ===== src/ShPtr/Container.antt =====
-- `_SharedWeakPtrContainer` of src/_shwkptr.h: the counts, the object and the memory block, and the
-- pointers that refer to it. `t_TyRef` is the default `uint32_t`.
use mathlib.Core.Logic.{ite}
use native.Mathlib.Decide.{ℕ_discrete}
use bienutil.Base.{
  ℕ, zero, suc, ◌+◌, ◌-◌, ◌%◌, ◌^◌, Bool, true, false, not, ◌&&◌, ◌||◌, Option, none, some, ◌==◌,
  leb, ltb, if◌then◌else◌,
}
use bienutil.ShPtr.Outcome.{Outcome, done, threw, asserted, undefined}

-- The union that holds `m_tyT`: never constructed, constructed, or destroyed.
pub data Object {ℓ} (T : Type ℓ) : Type ℓ where
  absent : Object T
  alive : T → Object T
  destroyed : Object T

pub record Container {ℓ} (T : Type ℓ) : Type ℓ where
  pub object : Object T
  pub ref_obj : ℕ
  pub ref_weak : ℕ

-- A block of memory: not allocated, or holding a container.
pub data Block {ℓ} (T : Type ℓ) : Type ℓ where
  unallocated : Block T
  allocated : Container T → Block T

abbrev pub update {ℓ} : {A : Type ℓ} → (ℕ → A) → ℕ → A → ℕ → A
update f i v j = ite (ℕ_discrete i j) v (f j)

-- The heap, and the `m_pc` of every strong and of every weak pointer variable. `none` is a null
-- pointer, and also stands in a variable that is not constructed.
pub record Memory {ℓ} (T : Type ℓ) : Type ℓ where
  pub block : ℕ → Block T
  pub strong : ℕ → Option ℕ
  pub weak : ℕ → Option ℕ

abbrev pub ref_limit : ℕ
ref_limit = 2 ^ 32

-- `++` and `--` on a `uint32_t`
abbrev pub increment : ℕ → ℕ
increment n = (n + 1) % ref_limit

abbrev pub decrement : ℕ → ℕ
decrement zero = 2 ^ 32 - 1
decrement (suc n) = n

module _ {ℓ} {T : Type ℓ} where
  abbrev pub set_block : ℕ → Block T → Memory T → Memory T
  set_block a b m = record m { block = update m.block a b }

  abbrev pub set_strong : ℕ → Option ℕ → Memory T → Memory T
  set_strong i p m = record m { strong = update m.strong i p }

  abbrev pub set_weak : ℕ → Option ℕ → Memory T → Memory T
  set_weak i p m = record m { weak = update m.weak i p }

  -- A member function of the container at `a`.
  abbrev pub on_container : ℕ → (Container T → Outcome (Memory T)) → Memory T → Outcome (Memory T)
  on_container a f m = elim (m.block a) [ unallocated ↦ undefined | allocated c ↦ f c ]

  abbrev pub is_valid : Bool → Container T → Bool
  is_valid strong c =
      (not strong || ltb 0 c.ref_obj) && ltb 0 c.ref_weak && leb c.ref_obj c.ref_weak

  unfoldable pub assert_valid : Bool → ℕ → Memory T → Outcome (Memory T)
  assert_valid strong a m = on_container a (λ c. if is_valid strong c then done m else asserted) m

  unfoldable pub add_ref_weak_no_throw : ℕ → Memory T → Outcome (Memory T)
  add_ref_weak_no_throw a m =
      on_container a
        (λ c. done (set_block a (allocated (record c { ref_weak = increment c.ref_weak })) m)) m

  unfoldable pub add_ref_strong_no_throw : ℕ → Memory T → Outcome (Memory T)
  add_ref_strong_no_throw a m =
      on_container a
        (λ c. done (
          set_block a
            (allocated
              (record c { ref_weak = increment c.ref_weak; ref_obj = increment c.ref_obj }))
            m))
        m

  -- `success` and `failure` are what the caller does on `true` and on `false`.
  unfoldable pub f_add_ref_strong_only_no_throw :
      ℕ → (success failure : Memory T → Outcome (Memory T)) → Memory T → Outcome (Memory T)
  f_add_ref_strong_only_no_throw a success failure m =
      on_container a
        (λ c.
          if c.ref_obj == 0
          then failure m
          else success (set_block a (allocated (record c { ref_obj = increment c.ref_obj })) m))
        m

  abbrev pub add_ref_strong_only : ℕ → Memory T → Outcome (Memory T)
  add_ref_strong_only a m = f_add_ref_strong_only_no_throw a done threw m

  -- `m_tyT.~_TyT()`
  abbrev pub destroy_object : Container T → Option (Container T)
  destroy_object c = elim c.object [ alive v ↦ some (record c { object = destroyed }) | _ ↦ none ]

  abbrev pub destroy_last : Container T → Option (Container T)
  destroy_last c = if c.ref_obj == 0 then destroy_object c else some c

  abbrev pub drop_weak : ℕ → Memory T → Container T → Outcome (Memory T)
  drop_weak a m c =
      if decrement c.ref_weak == 0
      then done (set_block a unallocated m)
      else done (set_block a (allocated (record c { ref_weak = decrement c.ref_weak })) m)

  unfoldable pub do_release_weak : ℕ → Memory T → Outcome (Memory T)
  do_release_weak a m =
      on_container a (λ c. if is_valid false c then drop_weak a m c else asserted) m

  unfoldable pub do_release_strong : ℕ → Memory T → Outcome (Memory T)
  do_release_strong a m =
      on_container a
        (λ c.
          if is_valid true c
          then elim (destroy_last (record c { ref_obj = decrement c.ref_obj })) [
            | none ↦ undefined
            | some d ↦ drop_weak a m d
          ]
          else asserted)
        m
