-- ===== src/Parser/Executable.antt =====
-- Selections, operations and fragments of the parser.
use graphql_core.Prelude.{
  ℕ, zero, suc, true, false, ◌&&◌, Option, none, some, List, [], ◌∷◌, if◌then◌else◌,
}
use graphql_core.Errors.{Text, ok, err, out_of_fuel, syntax_error, unexpected_token}
use graphql_core.Text.{codes, same_text}
use graphql_core.TokenKind.{
  brace_l, brace_r, string, block_string, name, colon, spread, paren_l, paren_r, equals,
}
use graphql_core.Ast.{
  Value, Argument, Selection, MaybeSelections, Selections, field, fragment_spread, inline_fragment,
  no_selection_set, selection_set, no_selections, selection, VariableDefinition, OperationType,
  query, mutation, subscription, OperationDefinition, FragmentDefinition,
}
use graphql_core.Parser.State.{
  Options, Parser, ◌>>>◌, pure, start_of, text_of, peek, expect_token, expect_optional_token,
  expect_keyword, expect_optional_keyword, unexpected, parse_name,
}
use graphql_core.Parser.Combinators.{many, optional_many}
use graphql_core.Parser.Values.{
  parse_variable, parse_value_literal, parse_argument, parse_arguments, parse_directives,
  parse_type_reference, take_token,
}

abbrev pub to_selections : List Selection → Selections
to_selections [] = no_selections
to_selections (x ∷ xs) = selection x (to_selections xs)

unfoldable pub operation_type : Text → Option OperationType
operation_type t =
    if same_text t (codes "query")
    then some query
    else if same_text t (codes "mutation")
    then some mutation
    else if same_text t (codes "subscription")
    then some subscription
    else none

module _ (options : Options) where
  -- `nested` parses a selection set, with one unit of fuel less than the field has.
  unfoldable pub optional_selection_set : Parser Selections → Parser MaybeSelections
  optional_selection_set nested s =
      if peek options brace_l s
      then (nested >>> λ xs. pure (selection_set xs)) s
      else ok (no_selection_set, s)

  unfoldable pub field_after_name : ℕ → Parser Selections → Option Text → Text → Parser Selection
  unfolding optional_selection_set
  field_after_name fuel nested alias n = parse_arguments options fuel false >>> λ args.
      parse_directives options fuel false >>> λ directives.
      optional_selection_set nested >>> λ xs. pure (field alias n args directives xs)

  unfoldable pub parse_field : ℕ → Parser Selections → Parser Selection
  unfolding field_after_name
  parse_field fuel nested = parse_name options >>> λ name_or_alias.
      expect_optional_token options colon >>> λ aliased. elim aliased [
        | true ↦ parse_name options >>> λ n. field_after_name fuel nested (some name_or_alias) n
        | false ↦ field_after_name fuel nested none name_or_alias
      ]

  unfoldable pub parse_fragment_name : Parser Text
  parse_fragment_name s =
      if same_text (text_of s.stream) (codes "on")
      then unexpected options s
      else parse_name options s

  -- FragmentArgumentNode has the fields of ArgumentNode.
  unfoldable pub fragment_arguments : ℕ → Parser (Option (List Argument))
  fragment_arguments fuel s =
      if peek options paren_l s && options.experimental_fragment_arguments
      then optional_many options fuel paren_l (parse_argument options fuel false) paren_r s
      else ok (none, s)

  unfoldable pub parse_fragment_spread : ℕ → Parser Selection
  unfolding parse_fragment_name fragment_arguments
  parse_fragment_spread fuel = parse_fragment_name >>> λ n. fragment_arguments fuel >>> λ args.
      parse_directives options fuel false >>> λ directives. pure (fragment_spread n args directives)

  unfoldable pub parse_inline_fragment : ℕ → Parser Selections → Option Text → Parser Selection
  parse_inline_fragment fuel nested condition =
      parse_directives options fuel false >>> λ directives.
      nested >>> λ xs. pure (inline_fragment condition directives xs)

  -- What follows `...`, without the keyword `on`.
  unfoldable pub fragment_without_condition : ℕ → Parser Selections → Parser Selection
  unfolding parse_fragment_spread parse_inline_fragment
  fragment_without_condition fuel nested s =
      if peek options name s
      then parse_fragment_spread fuel s
      else parse_inline_fragment fuel nested none s

  unfoldable pub parse_fragment : ℕ → Parser Selections → Parser Selection
  unfolding fragment_without_condition
  parse_fragment fuel nested = expect_token options spread >>> λ _.
      expect_optional_keyword options (codes "on") >>> λ has_type_condition.
      elim has_type_condition [
        | true ↦ parse_name options >>> λ n. parse_inline_fragment fuel nested (some n)
        | false ↦ fragment_without_condition fuel nested
      ]

  unfoldable pub parse_selection : ℕ → Parser Selections → Parser Selection
  unfolding parse_field parse_fragment
  parse_selection fuel nested s =
      if peek options spread s then parse_fragment fuel nested s else parse_field fuel nested s

  unfoldable pub parse_selection_set : ℕ → Parser Selections
  unfolding parse_selection
  parse_selection_set zero s = err out_of_fuel
  parse_selection_set (suc fuel) s =
      (many options fuel brace_l (parse_selection fuel (parse_selection_set fuel)) brace_r >>> λ xs.
      pure (to_selections xs))
        s

  -- The error is at the token that is no operation type.
  unfoldable pub parse_operation_type : Parser OperationType
  unfolding operation_type
  parse_operation_type s =
      (expect_token options name >>> λ t s'. elim (operation_type t) [
        | some o ↦ ok (o, s')
        | none ↦ err (syntax_error (start_of s.stream) unexpected_token)
      ])
        s

  unfoldable pub parse_description : Parser (Option Value)
  parse_description s =
      if peek options string s
      then (take_token options (λ v. Value.string v false) >>> λ d. pure (some d)) s
      else if peek options block_string s
      then (take_token options (λ v. Value.string v true) >>> λ d. pure (some d)) s
      else ok (none, s)

  unfoldable pub parse_default_value : ℕ → Parser (Option Value)
  parse_default_value fuel = expect_optional_token options equals >>> λ given. elim given [
    | true ↦ parse_value_literal options fuel true >>> λ v. pure (some v)
    | false ↦ pure none
  ]

  unfoldable pub parse_variable_definition : ℕ → Parser VariableDefinition
  unfolding parse_description parse_default_value
  parse_variable_definition fuel = parse_description >>> λ d. parse_variable options >>> λ n.
      expect_token options colon >>> λ _. parse_type_reference options fuel >>> λ t.
      parse_default_value fuel >>> λ v. parse_directives options fuel true >>> λ ds.
      pure (record { description = d; variable = n; type = t; default_value = v; directives = ds })

  unfoldable pub parse_variable_definitions : ℕ → Parser (Option (List VariableDefinition))
  unfolding parse_variable_definition
  parse_variable_definitions fuel =
      optional_many options fuel paren_l (parse_variable_definition fuel) paren_r

  unfoldable pub optional_name : Parser (Option Text)
  optional_name s =
      if peek options name s then (parse_name options >>> λ n. pure (some n)) s else ok (none, s)

  unfoldable pub parse_full_operation : ℕ → Parser OperationDefinition
  unfolding parse_description parse_operation_type optional_name parse_variable_definitions
  parse_full_operation fuel = parse_description >>> λ d. parse_operation_type >>> λ o.
      optional_name >>> λ n. parse_variable_definitions fuel >>> λ vs.
      parse_directives options fuel false >>> λ ds. parse_selection_set fuel >>> λ xs.
      pure (record {
        operation = o;
        description = d;
        name = n;
        variable_definitions = vs;
        directives = ds;
        selection_set = xs;
      })

  unfoldable pub parse_operation_definition : ℕ → Parser OperationDefinition
  unfolding parse_full_operation parse_selection_set
  parse_operation_definition fuel s =
      if peek options brace_l s
      then (parse_selection_set fuel >>> λ xs. pure (record {
        operation = query;
        description = none;
        name = none;
        variable_definitions = none;
        directives = none;
        selection_set = xs;
      }))
          s
      else parse_full_operation fuel s

  -- `()`, and no parentheses, unless the experimental option is set.
  unfoldable pub fragment_variables : ℕ → Parser (Option (List VariableDefinition))
  fragment_variables fuel s =
      if options.experimental_fragment_arguments
      then parse_variable_definitions fuel s
      else ok (some [], s)

  unfoldable pub parse_fragment_definition : ℕ → Parser FragmentDefinition
  unfolding parse_description parse_fragment_name fragment_variables parse_selection_set
  parse_fragment_definition fuel = parse_description >>> λ d.
      expect_keyword options (codes "fragment") >>> λ _. parse_fragment_name >>> λ n.
      fragment_variables fuel >>> λ vs. expect_keyword options (codes "on") >>> λ _.
      parse_name options >>> λ t. parse_directives options fuel false >>> λ ds.
      parse_selection_set fuel >>> λ xs. pure (record {
        description = d;
        name = n;
        variable_definitions = vs;
        type_condition = t;
        directives = ds;
        selection_set = xs;
      })
