-- ===== src/Execution.antt =====
-- Execution of an operation (src/graphql/execution/executor.py), without awaitable values, streams and
-- abort signals: what all its parts share.
--
-- A field of a response is at a path, the root at []: the innermost key stands first, as in `Path.prev`.
pub mod CollectedErrors
pub mod Host
pub mod Executor
pub mod Shape
mod Positions
mod Runs
mod Completion
mod Fields
pub mod Operation
pub mod CollectFields
mod Serial
pub mod Answers
mod Errors
pub mod Requests
mod Tests
use graphql_core.Prelude.{ℕ, Bool, true, false, ◌==◌, ◌&&◌, Option, none, some, List, [], ◌∷◌}
use graphql_core.Errors.{Text}
use graphql_core.Text.{same_text}
use graphql_core.Types.{Reference}

-- A field by its response name and the name of its parent type, or an item of a list.
pub data Key : Type 0 where
  field_key : Text → Text → Key
  index_key : ℕ → Key

abbrev pub FieldPath : Type 0
FieldPath = List Key

abbrev pub same_key : Key → Key → Bool
same_key (field_key n t) (field_key m u) = same_text n m && same_text t u
same_key (index_key i) (index_key j) = i == j
same_key _ _ = false

unfoldable pub same_path : FieldPath → FieldPath → Bool
same_path [] [] = true
same_path (k ∷ p) (l ∷ q) = same_key k l && same_path p q
same_path _ _ = false

-- `isinstance(path.key, int)`
abbrev pub ends_in_index : FieldPath → Bool
ends_in_index (index_key i ∷ p) = true
ends_in_index _ = false

-- Why the executor, or what it calls, raises.
pub data Reason (E : Type 0) : Type 0 where
  -- an exception of a resolver or of other code that the executor calls
  raised_by : E → Reason E
  -- "Cannot return null for non-nullable field …"
  null_for_non_nullable : Reference → Text → Reason E
  -- "Expected Iterable, but did not find one for field …"
  not_iterable : Reference → Text → Reason E
  -- "Expected … to return non-nullable value, returned: …"
  null_leaf : Reference → Reason E
  -- "Abstract type '…' must resolve to an Object type at runtime …"
  unresolved_type not_a_type_name : Reference → Reason E
  -- "… was resolved to a type '…' that does not exist inside the schema."
  unknown_type : Reference → Text → Reason E
  -- "… was resolved to a non-object type '…'."
  non_object_type : Reference → Text → Reason E
  -- "Runtime Object type '…' is not a possible type for '…'."
  not_possible : Reference → Reference → Reason E
  -- "Expected value of type '…' but got: …"
  wrong_object_type : Reference → Reason E
  -- "Cannot complete value of unexpected output type: …"
  unexpected_type : Reference → Reason E
  -- "Schema is not configured to execute … operation."
  no_root_type : Reason E

-- An exception; a GraphQLError that `located_error` has made has a path.
pub record Raised (E : Type 0) : Type 0 where
  pub reason : Reason E
  pub location : Option FieldPath

-- The data of a response; `L` are the serialized leaf values.
mutual
  pub data Value (L : Type 0) : Type 0 where
    null : Value L
    leaf : L → Value L
    items : Values L → Value L
    dict : Entries L → Value L

  pub data Values (L : Type 0) : Type 0 where
    nil : Values L
    cons : Value L → Values L → Values L

  pub data Entries (L : Type 0) : Type 0 where
    end : Entries L
    entry : Text → Value L → Entries L → Entries L

abbrev pub is_null : {L : Type 0} → Value L → Bool
is_null null = true
is_null _ = false
