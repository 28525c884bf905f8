-- ===== src/SegArray/Tests.antt =====
-- A segmented array with two elements in a segment (src/segarray.h), and each result at one.
use bienutil.Base.{ℕ, suc, ◌≡◌, refl, true, false, [], ◌∷◌, none, some, arith}
use bienutil.SegArray.{SegArray, el_get, push_back, pop_back, remove, clear, apply_contiguous}
use bienutil.SegArray.Sequence.{Represents, push_back-Represents, pop_back_lem}
use bienutil.SegArray.Remove.{remove-Represents}
use bienutil.SegArray.Contiguous.{Covers, apply_contiguous-Covers}
use bienutil.SegArray.Clear.{clear_wrong}

abbrev no_elements : SegArray ℕ
no_elements = record { segments = []; n_elements = 0 }

no_elements-Represents : Represents 2 no_elements []
no_elements-Represents = record {
  size = refl;
  room = omega arith;
  cells = λ i h. absurd (omega arith);
}

abbrev add : ℕ → SegArray ℕ → SegArray ℕ
add v s = (push_back 2 true true v s).left

abbrev three_elements : SegArray ℕ
three_elements = add 9 (add 8 (add 7 no_elements))

one-Represents : Represents 2 (add 7 no_elements) (7 ∷ [])
unfolding push_back
one-Represents =
    push_back-Represents 2 true true 7 no_elements [] (omega arith) no_elements-Represents

two-Represents : Represents 2 (add 8 (add 7 no_elements)) (7 ∷ 8 ∷ [])
unfolding push_back
two-Represents =
    push_back-Represents 2 true true 8 (add 7 no_elements) (7 ∷ []) (omega arith) one-Represents

three-Represents : Represents 2 three_elements (7 ∷ 8 ∷ 9 ∷ [])
unfolding push_back
three-Represents =
    push_back-Represents 2 true true 9 (add 8 (add 7 no_elements)) (7 ∷ 8 ∷ []) (omega arith)
      two-Represents

pop_back_lem_example :
    ((pop_back 2 true three_elements).0 ≡ some 9)
    × Represents 2 (pop_back 2 true three_elements).1 (7 ∷ 8 ∷ [])
pop_back_lem_example =
    pop_back_lem 2 true three_elements (7 ∷ 8 ∷ []) 9 (omega arith) three-Represents

remove-Represents_example :
    ((remove 2 true 1 1 three_elements).returned ≡ true)
    × Represents 2 (remove 2 true 1 1 three_elements).left (7 ∷ 9 ∷ [])
remove-Represents_example =
    remove-Represents 2 true three_elements (7 ∷ []) (8 ∷ []) (9 ∷ []) (omega arith)
      three-Represents

apply_contiguous-Covers_example : Covers 4 (apply_contiguous 4 3 9) 3 9
apply_contiguous-Covers_example = apply_contiguous-Covers 4 3 9 (omega arith) (omega arith)

contiguous_pieces : apply_contiguous 4 3 9 ≡ (3, 1) ∷ (4, 4) ∷ (8, 1) ∷ []
unfolding apply_contiguous
contiguous_pieces = refl

clear_wrong_example :
    Represents 2 (clear true three_elements) []
    × ((clear false three_elements).n_elements ≡ suc 2)
    × ((i : ℕ) → el_get 2 i (clear false three_elements) ≡ none)
clear_wrong_example = clear_wrong 2 three_elements 7 (8 ∷ 9 ∷ []) three-Represents
