-- ===== src/Execution/Tests.antt =====
-- The theorems about execution at a small application.
use graphql_core.Prelude.{
  ℕ, zero, suc, ◌<◌, ◌≡◌, refl, subst, true, false, none, some, ◌⊎◌, inr, List, [], ◌∷◌, All, arith,
}
use graphql_core.Errors.{Text}
use graphql_core.Text.{codes}
use graphql_core.Types.{Reference, named, list, non_null, object_type, object, scalar}
use graphql_core.Types.Schema.{Schema}
use graphql_core.Types.Fields.{get_field}
use graphql_core.Text.{same_text}
use graphql_core.Execution.CollectedErrors.{CollectedErrors}
use graphql_core.Execution.Host.{Host, HasDepth, Look, is_none, is_iterable, no_name}
use graphql_core.Execution.Executor.{execute_field, execute_fields, execute_fields_serially}
use graphql_core.Execution.Operation.{ExecutionResult, execute_operation}
use graphql_core.Execution.Shape.{HasFields}
use graphql_core.Execution.Runs.{IsSafe}
use graphql_core.Execution.Answers.{IsAnswer, execute_fields-IsSafe, execute_operation-IsAnswer}
use graphql_core.Execution.Errors.{NotRaised, execute_field-NotRaised}
use graphql_core.Execution.Serial.{execute_fields_serially-eq}

abbrev person : Reference
person = record { kind = object; name = codes "Person" }

-- `type Person { name: String!, friends: [Person] }`
abbrev people : Schema
people = record {
  type_map =
      (
        codes "Person",
        object_type (codes "Person") [] (
            record {
              name = codes "name";
              type = non_null (named (record { kind = scalar; name = codes "String" }));
              args = [];
            }
            ∷ record { name = codes "friends"; type = list (named person); args = [] }
            ∷ []),
      )
      ∷ [];
  implementations_map = [];
}

-- The field details `n` are `friends { friends { … { name } } }`, with `n` times `friends`.
abbrev below : ℕ → List (Text × ℕ)
below zero = []
below (suc n) = (codes "f", n) ∷ []

abbrev name_at : ℕ → Text
name_at zero = codes "name"
name_at (suc n) = codes "friends"

-- The value 0 is None, and `n + 1` is a person with two friends `n`, or their name.
abbrev look_at : ℕ → Look Text ℕ
look_at zero = is_none
look_at (suc n) = is_iterable (n ∷ n ∷ [])

abbrev friends : Host
friends = record {
  V = ℕ;
  E = Text;
  L = ℕ;
  D = ℕ;
  schema = people;
  query_type = some person;
  error_propagation = true;
  field_name = name_at;
  resolve = λ o d p v. inr v;
  look = look_at;
  coerce_output_value = λ r v. inr (some v);
  resolve_type = λ r v. inr no_name;
  is_type_of = λ o. none;
  stream_error = λ d. none;
  collect_subfields = λ o d. inr (below d);
}

shallower : (d : ℕ) → All (λ (g : Text × ℕ). suc g.1 < suc d) (below d)
shallower zero = tt
shallower (suc d) = (omega arith, tt)

inr_injective : {x y : List (Text × ℕ)} → ◌≡◌ {A = Text ⊎ List (Text × ℕ)} (inr x) (inr y) → x ≡ y
inr_injective e = cc

abbrev friends_depth : HasDepth friends
friends_depth = record {
  depth = λ (d : ℕ). suc d;
  positive = λ (d : ℕ). omega arith;
  deeper = λ (o : Reference) (d : ℕ) (groups : List (Text × ℕ)) e.
      subst (λ (gs : List (Text × ℕ)). All (λ (g : Text × ℕ). suc g.1 < suc d) gs) (inr_injective e)
        (shallower d);
}

abbrev no_collected : CollectedErrors Text
no_collected = record { error_positions = []; errors = [] }

abbrev selected : List (Text × ℕ)
selected = (codes "a", 2) ∷ (codes "b", 0) ∷ []

execute_fields_example :
    IsSafe (HasFields friends person selected) (execute_fields friends 4 person 5 [] selected)
execute_fields_example =
    execute_fields-IsSafe friends friends_depth 4 person 5 [] selected refl (omega arith)
      (omega arith)

execute_fields_serially_example :
    execute_fields_serially friends 4 person 5 [] selected
    ≡ execute_fields friends 4 person 5 [] selected
execute_fields_serially_example = execute_fields_serially-eq friends 4 person 5 [] selected

abbrev collect : Reference → Text ⊎ List (Text × ℕ)
collect o = inr selected

execute_operation_example :
    (x : ExecutionResult Text ℕ) × (execute_operation friends 4 false (some person) collect 5
      ≡ some x)
    × IsAnswer friends (some person) collect x
execute_operation_example =
    execute_operation-IsAnswer friends friends_depth 4 false (some person) collect 5 refl
      (omega arith)
      (λ groups e.
        subst (λ (gs : List (Text × ℕ)). All (λ (g : Text × ℕ). suc g.1 < 4) gs) (inr_injective e)
          (omega arith))

-- The person's friends, where the value 0 has none: the list type is nullable.
friends_field : get_field people (some person) person (name_at 3) ≡ some (list (named person))
unfolding get_field same_text
friends_field = refl

execute_field_example :
    NotRaised (execute_field friends (execute_fields friends 3) person 5 3 [] no_collected).0
execute_field_example =
    execute_field-NotRaised friends (execute_fields friends 3) (list (named person)) person 5 3 []
      no_collected friends_field refl
