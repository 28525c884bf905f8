-- ===== src/WordArray/Search.antt =====
-- The loops over the words of a bit mask that look for a word that is not zero, and the masked word
-- that comes before them.
use native.Mathlib.Decide.{ℕ_discrete}
use bienutil.Base.{
  Bool-cases, inl, inr, ℕ, zero, suc, ◌+◌, ◌-◌, ◌≤◌, ◌<◌, ◌≡◌, ◌≢◌, refl, sym, ap, ◌∙◌, arith,
  Option, none, some, List, [], ◌∷◌, ◌==◌, get_or,
}
use bienutil.WordArray.{first_word, last_word}

-- What a search upwards over `at` from `lo` on has found: nothing, since all are zero, or the first
-- that is not; and what a search downwards below `hi` has.
abbrev pub Upwards : (ℕ → ℕ) → ℕ → Option (ℕ × ℕ) → Type 0
Upwards at lo none = (k : ℕ) → lo ≤ k → at k ≡ 0
Upwards at lo (some (e, v)) =
    (lo ≤ e) × (v ≡ at e) × (v ≢ 0) × ((k : ℕ) → lo ≤ k → k < e → at k ≡ 0)

abbrev pub Downwards : (ℕ → ℕ) → ℕ → Option (ℕ × ℕ) → Type 0
Downwards at hi none = (k : ℕ) → k < hi → at k ≡ 0
Downwards at hi (some (e, v)) =
    (e < hi) × (v ≡ at e) × (v ≢ 0) × ((k : ℕ) → e < k → k < hi → at k ≡ 0)

-- The words from `lo` on are those of a list.
abbrev Tail : (ℕ → ℕ) → ℕ → List ℕ → Type 0
Tail at lo rg = (k : ℕ) → at (lo + k) ≡ get_or rg k 0

pub same_place {ℓ} : {A : Type ℓ} (at : ℕ → A) (i j : ℕ) → i ≡ j → at i ≡ at j
same_place at i j e = ap at e

from_next :
    (at : ℕ → ℕ) (lo : ℕ) (o : Option (ℕ × ℕ)) → at lo ≡ 0 → Upwards at (suc lo) o → Upwards at lo o
from_next at lo none z h =
    λ k l. elim (ℕ_discrete lo k) [ yes e ↦ ap at (sym e) ∙ z | no n ↦ h k (omega arith) ]
from_next at lo (some (e, v)) z (a, b, c, h) = (
  omega arith,
  b,
  c,
  λ k l m. elim (ℕ_discrete lo k) [ yes e ↦ ap at (sym e) ∙ z | no n ↦ h k (omega arith) m ],
)

pub first_word-Upwards :
    (at : ℕ → ℕ) (lo : ℕ) (rg : List ℕ) → Tail at lo rg → Upwards at lo (first_word lo rg)
unfolding first_word
first_word-Upwards at lo [] t = λ k l. same_place at k (lo + (k - lo)) (omega arith) ∙ t (k - lo)
first_word-Upwards at lo (x ∷ xs) t =
    let here : at lo ≡ x = same_place at lo (lo + 0) (omega arith) ∙ t 0 in
    elim (Bool-cases (x == 0)) [
      | inl e ↦ rw e (
          from_next at lo _ (ground arith) (
            first_word-Upwards at (suc lo) xs
              (λ k. same_place at (suc lo + k) (lo + suc k) (omega arith) ∙ t (suc k))))
      | inr e ↦ rw e (omega arith, sym here, ground arith, λ k l m. absurd (omega arith))
    ]

from_previous :
    (at : ℕ → ℕ) (hi : ℕ) (o : Option (ℕ × ℕ))
    → at hi ≡ 0
    → Downwards at hi o
    → Downwards at (suc hi) o
from_previous at hi none z h =
    λ k l. elim (ℕ_discrete hi k) [ yes e ↦ ap at (sym e) ∙ z | no n ↦ h k (omega arith) ]
from_previous at hi (some (e, v)) z (a, b, c, h) = (
  omega arith,
  b,
  c,
  λ k l m. elim (ℕ_discrete hi k) [ yes e ↦ ap at (sym e) ∙ z | no n ↦ h k l (omega arith) ],
)

pub last_word-Downwards :
    (rg : List ℕ) (hi : ℕ) → Downwards (λ k. get_or rg k 0) hi (last_word hi rg)
unfolding last_word
last_word-Downwards rg zero = λ k l. absurd (omega arith)
last_word-Downwards rg (suc hi) = elim (Bool-cases (get_or rg hi 0 == 0)) [
  | inl e ↦ rw e (from_previous _ hi _ (ground arith) (last_word-Downwards rg hi))
  | inr e ↦ rw e (omega arith, refl, ground arith, λ k l m. absurd (omega arith))
]
