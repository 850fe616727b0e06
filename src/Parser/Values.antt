-- ===== src/Parser/Values.antt =====
-- Value literals, arguments, directives and type references of the parser.
use graphql_core.Prelude.{
  ℕ, zero, suc, Bool, true, false, Option, none, some, List, [], ◌∷◌, if◌then◌else◌,
}
use graphql_core.Errors.{
  Text, Result, ok, err, ◌>>=◌, out_of_fuel, syntax_error, variable_in_constant, unexpected_token,
}
use graphql_core.Text.{codes, same_text}
use graphql_core.TokenKind.{
  TokenKind, bracket_l, bracket_r, brace_l, brace_r, int, float, string, block_string, name, dollar,
  colon, at, paren_l, paren_r, bang,
}
use graphql_core.Ast.{
  Value, Values, ObjectFields, no_values, value, no_fields, object_field, TypeNode, named, list_of,
  non_null, Argument, Directive, Directives,
}
use graphql_core.Parser.State.{
  Options, ParserState, Parser, ◌>>>◌, pure, kind_of, start_of, text_of, peek, advance_lexer,
  expect_token, expect_optional_token, unexpected, parse_name,
}
use graphql_core.Parser.Combinators.{any, optional_many}

abbrev pub to_values : List Value → Values
to_values [] = no_values
to_values (v ∷ vs) = value v (to_values vs)

abbrev pub to_fields : List (Text × Value) → ObjectFields
to_fields [] = no_fields
to_fields ((n, v) ∷ fs) = object_field n v (to_fields fs)

-- The value of a NAME token.
unfoldable pub named_value : Text → Value
named_value v =
    if same_text v (codes "true")
    then Value.boolean true
    else if same_text v (codes "false")
    then Value.boolean false
    else if same_text v (codes "null")
    then Value.null
    else Value.enum v

-- `tuple(directives) if directives else None`
abbrev pub or_none {ℓ} : {A : Type ℓ} → List A → Option (List A)
or_none [] = none
or_none (x ∷ xs) = some (x ∷ xs)

module _ (options : Options) where
  -- The token is taken, and the node made from its text.
  unfoldable pub take_token : (Text → Value) → Parser Value
  take_token make s = (advance_lexer options >>> λ _. pure (make (text_of s.stream))) s

  unfoldable pub parse_variable : Parser Text
  parse_variable = expect_token options dollar >>> λ _. parse_name options

  unfoldable pub reject_variable : ℕ → Parser Value
  reject_variable start s = err (
      syntax_error start
        (if peek options name s then variable_in_constant (text_of s.stream) else unexpected_token))

  unfoldable pub parse_variable_value : Bool → Parser Value
  unfolding parse_variable reject_variable
  parse_variable_value is_const s =
      if is_const
      then (expect_token options dollar >>> λ _. reject_variable (start_of s.stream)) s
      else (parse_variable >>> λ n. pure (Value.variable n)) s

  unfoldable pub parse_object_field : Parser Value → Parser (Text × Value)
  parse_object_field parse_value = parse_name options >>> λ n.
      expect_token options colon >>> λ _. parse_value >>> λ v. pure (n, v)

  -- The dispatch of parse_value_literal on the kind of the token. `nested` parses a value inside.
  unfoldable pub value_by_kind : ℕ → Bool → Parser Value → TokenKind → Parser Value
  unfolding take_token parse_variable_value parse_object_field
  value_by_kind fuel is_const nested bracket_l =
      any options fuel bracket_l nested bracket_r >>> λ vs. pure (Value.list (to_values vs))
  value_by_kind fuel is_const nested brace_l =
      any options fuel brace_l (parse_object_field nested) brace_r >>> λ fs.
      pure (Value.object (to_fields fs))
  value_by_kind fuel is_const nested int = take_token Value.int
  value_by_kind fuel is_const nested float = take_token Value.float
  value_by_kind fuel is_const nested string = take_token (λ v. Value.string v false)
  value_by_kind fuel is_const nested block_string = take_token (λ v. Value.string v true)
  value_by_kind fuel is_const nested name = take_token named_value
  value_by_kind fuel is_const nested dollar = parse_variable_value is_const
  value_by_kind fuel is_const nested _ = unexpected options

  unfoldable pub parse_value_literal : ℕ → Bool → Parser Value
  unfolding value_by_kind
  parse_value_literal zero is_const s = err out_of_fuel
  parse_value_literal (suc fuel) is_const s =
      value_by_kind fuel is_const (parse_value_literal fuel is_const) (kind_of s.stream) s

  unfoldable pub parse_argument : ℕ → Bool → Parser Argument
  parse_argument fuel is_const = parse_name options >>> λ n. expect_token options colon >>> λ _.
      parse_value_literal fuel is_const >>> λ v. pure (record { name = n; value = v })

  unfoldable pub parse_arguments : ℕ → Bool → Parser (Option (List Argument))
  unfolding parse_argument
  parse_arguments fuel is_const =
      optional_many options fuel paren_l (parse_argument fuel is_const) paren_r

  unfoldable pub parse_directive : ℕ → Bool → Parser Directive
  unfolding parse_arguments
  parse_directive fuel is_const = expect_token options at >>> λ _. parse_name options >>> λ n.
      parse_arguments fuel is_const >>> λ args. pure (record { name = n; arguments = args })

  -- `while self.peek(TokenKind.AT): append(self.parse_directive(is_const))`
  unfoldable pub directive_loop : ℕ → Parser Directive → Parser (List Directive)
  directive_loop zero parse_fn s = err out_of_fuel
  directive_loop (suc fuel) parse_fn s =
      let more : Result (List Directive × ParserState) =
        (parse_fn >>> λ d. directive_loop fuel parse_fn >>> λ ds. pure (d ∷ ds)) s in
      if peek options at s then more else ok ([], s)

  unfoldable pub parse_directives : ℕ → Bool → Parser Directives
  unfolding directive_loop parse_directive
  parse_directives fuel is_const =
      directive_loop fuel (parse_directive fuel is_const) >>> λ ds. pure (or_none ds)

  -- `NonNullTypeNode`, if a BANG follows.
  unfoldable pub parse_bang : TypeNode → Parser TypeNode
  parse_bang t =
      expect_optional_token options bang >>> λ banged. pure (if banged then non_null t else t)

  unfoldable pub parse_type_reference : ℕ → Parser TypeNode
  unfolding parse_bang
  parse_type_reference zero s = err out_of_fuel
  parse_type_reference (suc fuel) s = expect_optional_token options bracket_l s >>= λ (opened, s').
      elim opened [
        | true ↦
            (parse_type_reference fuel >>> λ inner.
            expect_token options bracket_r >>> λ _. parse_bang (list_of inner))
              s'
        | false ↦ (parse_name options >>> λ n. parse_bang (named n)) s'
      ]
