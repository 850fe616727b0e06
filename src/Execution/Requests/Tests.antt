-- ===== src/Execution/Requests/Tests.antt =====
-- Collecting and executing the fields of a small document.
use graphql_core.Prelude.{
  ℕ, zero, suc, subst, ◌<◌, ◌≤◌, ◌≡◌, refl, true, false, Bool-cases, none, some, inl, inr, [], ◌∷◌,
  arith,
}
use graphql_core.Errors.{Text}
use graphql_core.Text.{codes, same_text}
use graphql_core.Ast.{
  field, fragment_spread, no_selection_set, selection_set, Selections, no_selections, selection,
}
use graphql_core.Types.{Reference, named, list, non_null, object_type, object, scalar}
use graphql_core.Types.Schema.{Schema}
use graphql_core.Execution.Host.{Look, is_none, is_iterable, no_name}
use graphql_core.Execution.Operation.{ExecutionResult}
use graphql_core.Execution.Answers.{IsAnswer}
use graphql_core.Execution.CollectFields.{FragmentDetails, Context, Collection}
use graphql_core.Execution.CollectFields.Collector.{collect_fields}
use graphql_core.Execution.CollectFields.Groups.{IsGrouped}
use graphql_core.Execution.CollectFields.Collects.{Collects}
use graphql_core.Execution.CollectFields.Depth.{
  selections_depth, selection_depth, maybe_depth, IsAcyclic, collect_fields-IsGrouped,
}
use graphql_core.Execution.Requests.{
  Application, host_of, root_groups, execute_request, execute_request-IsAnswer,
}

abbrev person : Reference
person = record { kind = object; name = codes "Person" }

-- `type Person { name: String!, friends: [Person] }`
abbrev people : Schema
people = record {
  type_map =
      (
        codes "Person",
        object_type (codes "Person") [] (
            record {
              name = codes "name";
              type = non_null (named (record { kind = scalar; name = codes "String" }));
              args = [];
            }
            ∷ record { name = codes "friends"; type = list (named person); args = [] }
            ∷ []),
      )
      ∷ [];
  implementations_map = [];
}

-- `name`
abbrev name_only : Selections
name_only = selection (field none (codes "name") none none no_selection_set) no_selections

-- `fragment Named on Person { name }`
abbrev naming : FragmentDetails Text
naming = record {
  definition = record {
    description = none;
    name = codes "Named";
    variable_definitions = none;
    type_condition = codes "Person";
    directives = none;
    selection_set = name_only;
  };
  variable_signatures = none;
}

-- `{ friends { ...Named ...Named } name }`
abbrev document : Selections
document =
    selection
      (field none (codes "friends") none none (
        selection_set (
          selection (fragment_spread (codes "Named") none none)
            (selection (fragment_spread (codes "Named") none none) no_selections))))
      name_only

abbrev people_context : Context
people_context = record {
  W = Text;
  S = Text;
  E = Text;
  schema = people;
  fragments = (codes "Named", naming) ∷ [];
  forbid_skip_and_include = false;
  skip_if = λ d w. inr false;
  include_if = λ d w. inr true;
  defer_arguments = λ d w. inl (codes "no arguments");
  get_fragment_variable_values = λ a s w. inr s;
}

-- The value 0 is None, and `n + 1` is a person with two friends `n`, or their name.
abbrev look_at : ℕ → Look Text ℕ
look_at zero = is_none
look_at (suc n) = is_iterable (n ∷ n ∷ [])

abbrev people_application : Application people_context
people_application = record {
  V = ℕ;
  L = ℕ;
  query_type = some person;
  error_propagation = true;
  resolve = λ o d p v. inr v;
  look = look_at;
  coerce_output_value = λ r v. inr (some v);
  resolve_type = λ r v. inr no_name;
  is_type_of = λ o. none;
  stream_error = λ d. none;
}

collect_fields_example :
    Collects
      (λ (c : Collection Text). IsGrouped (λ node. Unit {0}) c.grouped_field_set)
      (collect_fields people_context 5 person document)
collect_fields_example = collect_fields-IsGrouped people_context 5 person document (omega arith)

abbrev one_deep : Text → ℕ
one_deep n = 1

naming_IsAcyclic : IsAcyclic people_context one_deep
unfolding selections_depth selection_depth maybe_depth
naming_IsAcyclic n f e = elim (Bool-cases (same_text n (codes "Named"))) [
  | inl t ↦
      let same : naming ≡ f = cc (rw t at e) in
      subst (λ (g : FragmentDetails Text). selections_depth one_deep g.definition.selection_set ≤ 1)
        same (omega arith)
  | inr t ↦ cc (rw t at e)
]

document_depth : suc (selections_depth one_deep document) < 9
unfolding selections_depth selection_depth maybe_depth
document_depth = omega arith

execute_request_example :
    (x : ExecutionResult Text ℕ) × (execute_request people_context people_application 9 false
        (some person)
        document
        5
      ≡ some x)
    × IsAnswer
        (host_of people_context people_application)
        (some person)
        (root_groups people_context people_application document)
        x
execute_request_example =
    execute_request-IsAnswer people_context people_application one_deep naming_IsAcyclic 9 false
      (some person) document 5 refl document_depth
