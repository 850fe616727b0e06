-- ===== src/Execution/Operation.antt =====
-- Executing an operation, and its response.
use graphql_core.Prelude.{ℕ, Bool, Option, none, some, ◌⊎◌, List, [], ◌∷◌, if◌then◌else◌}
use graphql_core.Errors.{Text}
use graphql_core.Types.{Reference}
use graphql_core.Execution.{Raised, no_root_type, Entries}
use graphql_core.Execution.CollectedErrors.{CollectedErrors, add}
use graphql_core.Execution.Host.{Host, Outcome, done, raised, no_fuel, raise, ◌>>=◌, call}
use graphql_core.Execution.Executor.{Run, execute_fields, execute_fields_serially}

-- An ExecutionResult. Its errors are None where none were collected.
pub record ExecutionResult (E L : Type 0) : Type 0 where
  pub result : Option (Entries L)
  pub errors : Option (List (Raised E))

abbrev pub or_none : {A : Type 0} → List A → Option (List A)
or_none [] = none
or_none (x ∷ xs) = some (x ∷ xs)

module _ (host : Host) where
  open host use {V, E, L, D}

  unfoldable pub build_response : Option (Entries L) → CollectedErrors E → ExecutionResult E L
  build_response result c = record { result = result; errors = or_none c.errors }

  unfoldable pub execute_root_grouped_field_set :
      ℕ → Bool → Reference → V → List (Text × D) → Run host (Entries L)
  execute_root_grouped_field_set fuel serially root_type root_value groups =
      if serially
      then execute_fields_serially host fuel root_type root_value [] groups
      else execute_fields host fuel root_type root_value [] groups

  abbrev pub no_errors : CollectedErrors E
  no_errors = record { error_positions = []; errors = [] }

  -- What stands under the `try`: the root type, and the grouped field set that `collect_fields` gives or
  -- the GraphQLError that it raises, are arguments.
  unfoldable pub execute_root :
      ℕ → Bool → Option Reference → (Reference → E ⊎ List (Text × D)) → V → Run host (Entries L)
  execute_root fuel serially none collect_fields root_value = raise no_root_type
  execute_root fuel serially (some root_type) collect_fields root_value =
      call (collect_fields root_type)
      >>= execute_root_grouped_field_set fuel serially root_type root_value

  unfoldable pub respond : Outcome E (Entries L) × CollectedErrors E → Option (ExecutionResult E L)
  respond (done es, c) = some (build_response (some es) c)
  respond (raised e, c) = some (build_response none (add e [] c))
  respond (no_fuel, c) = none

  -- None where the fuel is exhausted. Every exception that comes here is a GraphQLError, since the errors of
  -- fields are located.
  unfoldable pub execute_operation :
      ℕ
      → Bool
      → Option Reference
      → (Reference → E ⊎ List (Text × D))
      → V
      → Option (ExecutionResult E L)
  unfolding respond execute_root
  execute_operation fuel serially root_type collect_fields root_value =
      respond (execute_root fuel serially root_type collect_fields root_value no_errors)
