-- ===== src/Parser/TypeSystem.antt =====
-- Type system definitions of the parser.
use graphql_core.Prelude.{ℕ, Bool, true, false, Option, none, some, List, [], ◌∷◌, if◌then◌else◌}
use graphql_core.Errors.{Text, ok, err, syntax_error, unexpected_token, reserved_enum_value}
use graphql_core.Text.{is_one_of, codes}
use graphql_core.TokenKind.{
  TokenKind, brace_l, brace_r, paren_l, paren_r, colon, equals, amp, pipe, at,
}
use graphql_core.Ast.{
  Directives, OperationTypeDefinition, InputValueDefinition, FieldDefinition, EnumValueDefinition,
  FieldsType, MembersType, Definition, schema_definition, scalar_type_definition,
  object_type_definition, interface_type_definition, union_type_definition, enum_type_definition,
  input_object_type_definition, directive_definition,
}
use graphql_core.Parser.State.{
  Options, Parser, ◌>>>◌, pure, start_of, text_of, expect_token, expect_optional_token,
  expect_keyword, expect_optional_keyword, parse_name,
}
use graphql_core.Parser.Combinators.{many, optional_many, delimited_many}
use graphql_core.Parser.Values.{parse_directives, parse_type_reference}
use graphql_core.Parser.Executable.{parse_description, parse_default_value, parse_operation_type}

abbrev pub directive_locations : List Text
directive_locations =
    codes "QUERY"
    ∷ codes "MUTATION"
    ∷ codes "SUBSCRIPTION"
    ∷ codes "FIELD"
    ∷ codes "FRAGMENT_DEFINITION"
    ∷ codes "FRAGMENT_SPREAD"
    ∷ codes "INLINE_FRAGMENT"
    ∷ codes "VARIABLE_DEFINITION"
    ∷ codes "FRAGMENT_VARIABLE_DEFINITION"
    ∷ codes "SCHEMA"
    ∷ codes "SCALAR"
    ∷ codes "OBJECT"
    ∷ codes "FIELD_DEFINITION"
    ∷ codes "ARGUMENT_DEFINITION"
    ∷ codes "INTERFACE"
    ∷ codes "UNION"
    ∷ codes "ENUM"
    ∷ codes "ENUM_VALUE"
    ∷ codes "INPUT_OBJECT"
    ∷ codes "INPUT_FIELD_DEFINITION"
    ∷ codes "DIRECTIVE_DEFINITION"
    ∷ []

abbrev pub reserved_values : List Text
reserved_values = codes "true" ∷ codes "false" ∷ codes "null" ∷ []

module _ (options : Options) where
  unfoldable pub parse_operation_type_definition : Parser OperationTypeDefinition
  parse_operation_type_definition = parse_operation_type options >>> λ o.
      expect_token options colon >>> λ _.
      parse_name options >>> λ t. pure (record { operation = o; type = t })

  unfoldable pub parse_schema_definition : ℕ → Parser Definition
  unfolding parse_operation_type_definition
  parse_schema_definition fuel = parse_description options >>> λ d.
      expect_keyword options (codes "schema") >>> λ _. parse_directives options fuel true >>> λ ds.
      many options fuel brace_l parse_operation_type_definition brace_r >>> λ ts.
      pure (schema_definition d ds ts)

  unfoldable pub parse_scalar_type_definition : ℕ → Parser Definition
  parse_scalar_type_definition fuel = parse_description options >>> λ d.
      expect_keyword options (codes "scalar") >>> λ _. parse_name options >>> λ n.
      parse_directives options fuel true >>> λ ds. pure (scalar_type_definition d n ds)

  unfoldable pub parse_input_value_def : ℕ → Parser InputValueDefinition
  parse_input_value_def fuel = parse_description options >>> λ d. parse_name options >>> λ n.
      expect_token options colon >>> λ _. parse_type_reference options fuel >>> λ t.
      parse_default_value options fuel >>> λ v. parse_directives options fuel true >>> λ ds.
      pure (record { description = d; name = n; type = t; default_value = v; directives = ds })

  unfoldable pub parse_argument_defs : ℕ → Parser (Option (List InputValueDefinition))
  unfolding parse_input_value_def
  parse_argument_defs fuel = optional_many options fuel paren_l (parse_input_value_def fuel) paren_r

  unfoldable pub parse_field_definition : ℕ → Parser FieldDefinition
  unfolding parse_argument_defs
  parse_field_definition fuel = parse_description options >>> λ d. parse_name options >>> λ n.
      parse_argument_defs fuel >>> λ args. expect_token options colon >>> λ _.
      parse_type_reference options fuel >>> λ t. parse_directives options fuel true >>> λ ds.
      pure (record { description = d; name = n; arguments = args; type = t; directives = ds })

  unfoldable pub parse_fields_definition : ℕ → Parser (Option (List FieldDefinition))
  unfolding parse_field_definition
  parse_fields_definition fuel =
      optional_many options fuel brace_l (parse_field_definition fuel) brace_r

  -- `delimited_many(delimiter, parse_named_type)`, if what introduces the list was there
  unfoldable pub named_types_if : ℕ → TokenKind → Bool → Parser (Option (List Text))
  named_types_if fuel delimiter false = pure none
  named_types_if fuel delimiter true =
      delimited_many options fuel delimiter (parse_name options) >>> λ ts. pure (some ts)

  unfoldable pub parse_implements_interfaces : ℕ → Parser (Option (List Text))
  unfolding named_types_if
  parse_implements_interfaces fuel =
      expect_optional_keyword options (codes "implements") >>> named_types_if fuel amp

  unfoldable pub parse_union_member_types : ℕ → Parser (Option (List Text))
  unfolding named_types_if
  parse_union_member_types fuel = expect_optional_token options equals >>> named_types_if fuel pipe

  -- What follows the keyword of an object or interface type, or of its extension.
  unfoldable pub fields_type : ℕ → Parser FieldsType
  unfolding parse_implements_interfaces parse_fields_definition
  fields_type fuel = parse_name options >>> λ n. parse_implements_interfaces fuel >>> λ is.
      parse_directives options fuel true >>> λ ds. parse_fields_definition fuel >>> λ fs.
      pure (record { name = n; interfaces = is; directives = ds; fields = fs })

  -- What follows the keyword of a union, enum or input object type, or of its extension.
  unfoldable pub members_type : {A : Type 0} → ℕ → Parser (Option (List A)) → Parser (MembersType A)
  members_type fuel parse_members = parse_name options >>> λ n.
      parse_directives options fuel true >>> λ ds.
      parse_members >>> λ ms. pure (record { name = n; directives = ds; members = ms })

  unfoldable pub parse_object_type_definition : ℕ → Parser Definition
  unfolding fields_type
  parse_object_type_definition fuel = parse_description options >>> λ d.
      expect_keyword options (codes "type") >>> λ _.
      fields_type fuel >>> λ t. pure (object_type_definition d t)

  unfoldable pub parse_interface_type_definition : ℕ → Parser Definition
  unfolding fields_type
  parse_interface_type_definition fuel = parse_description options >>> λ d.
      expect_keyword options (codes "interface") >>> λ _.
      fields_type fuel >>> λ t. pure (interface_type_definition d t)

  unfoldable pub parse_union_type_definition : ℕ → Parser Definition
  unfolding members_type parse_union_member_types
  parse_union_type_definition fuel = parse_description options >>> λ d.
      expect_keyword options (codes "union") >>> λ _.
      members_type fuel (parse_union_member_types fuel) >>> λ t. pure (union_type_definition d t)

  unfoldable pub parse_enum_value_name : Parser Text
  parse_enum_value_name s =
      if is_one_of (text_of s.stream) reserved_values
      then err (syntax_error (start_of s.stream) reserved_enum_value)
      else parse_name options s

  unfoldable pub parse_enum_value_definition : ℕ → Parser EnumValueDefinition
  unfolding parse_enum_value_name
  parse_enum_value_definition fuel = parse_description options >>> λ d.
      parse_enum_value_name >>> λ n. parse_directives options fuel true >>> λ ds.
      pure (record { description = d; name = n; directives = ds })

  unfoldable pub parse_enum_values_definition : ℕ → Parser (Option (List EnumValueDefinition))
  unfolding parse_enum_value_definition
  parse_enum_values_definition fuel =
      optional_many options fuel brace_l (parse_enum_value_definition fuel) brace_r

  unfoldable pub parse_enum_type_definition : ℕ → Parser Definition
  unfolding members_type parse_enum_values_definition
  parse_enum_type_definition fuel = parse_description options >>> λ d.
      expect_keyword options (codes "enum") >>> λ _.
      members_type fuel (parse_enum_values_definition fuel) >>> λ t. pure (enum_type_definition d t)

  unfoldable pub parse_input_fields_definition : ℕ → Parser (Option (List InputValueDefinition))
  unfolding parse_input_value_def
  parse_input_fields_definition fuel =
      optional_many options fuel brace_l (parse_input_value_def fuel) brace_r

  unfoldable pub parse_input_object_type_definition : ℕ → Parser Definition
  unfolding members_type parse_input_fields_definition
  parse_input_object_type_definition fuel = parse_description options >>> λ d.
      expect_keyword options (codes "input") >>> λ _.
      members_type fuel (parse_input_fields_definition fuel) >>> λ t.
      pure (input_object_type_definition d t)

  -- The error is at the name.
  unfoldable pub parse_directive_location : Parser Text
  parse_directive_location s =
      (parse_name options >>> λ n s'.
      if is_one_of n directive_locations
      then ok (n, s')
      else err (syntax_error (start_of s.stream) unexpected_token))
        s

  unfoldable pub parse_directive_locations : ℕ → Parser (List Text)
  unfolding parse_directive_location
  parse_directive_locations fuel = delimited_many options fuel pipe parse_directive_location

  unfoldable pub directives_on_directive : ℕ → Parser Directives
  directives_on_directive fuel s =
      if options.experimental_directives_on_directive_definitions
      then parse_directives options fuel true s
      else ok (none, s)

  unfoldable pub parse_directive_definition : ℕ → Parser Definition
  unfolding parse_argument_defs directives_on_directive parse_directive_locations
  parse_directive_definition fuel = parse_description options >>> λ d.
      expect_keyword options (codes "directive") >>> λ _. expect_token options at >>> λ _.
      parse_name options >>> λ n. parse_argument_defs fuel >>> λ args.
      directives_on_directive fuel >>> λ ds.
      expect_optional_keyword options (codes "repeatable") >>> λ r.
      expect_keyword options (codes "on") >>> λ _. parse_directive_locations fuel >>> λ ls. pure (
        directive_definition (record {
          description = d;
          name = n;
          arguments = args;
          directives = ds;
          repeatable = r;
          locations = ls;
        }))
