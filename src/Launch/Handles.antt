-- ===== src/Launch/Handles.antt =====
-- The handles that a child of `launch_common` of src/launch.c inherits: a duplicate for each distinct one.
use kuu.Prelude.{ℕ, List, [], ◌∷◌, ◌++◌, Option, some, none, ◌==◌, if◌then◌else◌}

-- `originals` with their `duplicates`, and `inherit`.
pub record Duplicated : Type 0 where
  pub pairs : List (ℕ × ℕ)
  pub inherit : List ℕ

-- The loop on `prior`.
unfoldable pub prior_duplicate : List (ℕ × ℕ) → ℕ → Option ℕ
prior_duplicate [] h = none
prior_duplicate ((original, copy) ∷ pairs) h =
    if original == h then some copy else prior_duplicate pairs h

-- A round for the handle `h`; `duplicate` is DuplicateHandle.
unfoldable pub add_handle : (ℕ → Option ℕ) → Duplicated → ℕ → Option Duplicated
add_handle duplicate d h = elim (prior_duplicate d.pairs h) [
  | some copy ↦ some (record d { pairs = d.pairs ++ (h, copy) ∷ [] })
  | none ↦ elim (duplicate h) [
    | none ↦ none
    | some copy ↦
        some (record { pairs = d.pairs ++ (h, copy) ∷ []; inherit = d.inherit ++ copy ∷ [] })
  ]
]

unfoldable pub duplicate_all : (ℕ → Option ℕ) → Duplicated → List ℕ → Option Duplicated
duplicate_all duplicate d [] = some d
duplicate_all duplicate d (h ∷ handles) = elim (add_handle duplicate d h) [
  | none ↦ none
  | some e ↦ duplicate_all duplicate e handles
]
