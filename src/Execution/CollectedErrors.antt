-- ===== src/Execution/CollectedErrors.antt =====
-- The errors that are collected while an operation runs, and the positions that they have nulled.
use graphql_core.Prelude.{Bool, false, ◌||◌, List, [], ◌∷◌, ◌++◌, if◌then◌else◌}
use graphql_core.Execution.{FieldPath, Raised, same_path}

-- Both lists are in the order of insertion.
pub record CollectedErrors (E : Type 0) : Type 0 where
  pub error_positions : List FieldPath
  pub errors : List (Raised E)

-- `path in error_positions`
abbrev pub is_position : FieldPath → List FieldPath → Bool
is_position p [] = false
is_position p (q ∷ qs) = same_path p q || is_position p qs

-- The path and each of its ancestors; the root is None.
unfoldable pub has_nulled_position : FieldPath → List FieldPath → Bool
has_nulled_position [] qs = is_position [] qs
has_nulled_position (k ∷ p) qs = is_position (k ∷ p) qs || has_nulled_position p qs

unfoldable pub add : {E : Type 0} → Raised E → FieldPath → CollectedErrors E → CollectedErrors E
add e p c =
    if has_nulled_position p c.error_positions
    then c
    else record { error_positions = c.error_positions ++ p ∷ []; errors = c.errors ++ e ∷ [] }
