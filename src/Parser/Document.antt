-- ===== src/Parser/Document.antt =====
-- Type system extensions, the dispatch of parse_definition, and the entry points of the parser.
use graphql_core.Prelude.{
  ℕ, ◌+◌, Bool, true, false, ◌&&◌, ◌||◌, Option, none, some, List, ◌∷◌, length, if◌then◌else◌,
}
use graphql_core.Errors.{
  Text, Result, ok, err, ◌>>=◌, syntax_error, unexpected_token, description_on_shorthand,
  description_not_supported,
}
use graphql_core.Text.{codes, same_text}
use graphql_core.TokenKind.{brace_l, brace_r, at, sof, eof, name, string, block_string}
use graphql_core.Ast.{
  Value, TypeNode, FieldsType, MembersType, Definition, operation_definition, fragment_definition,
  schema_extension, scalar_type_extension, directive_extension, object_type_extension,
  interface_type_extension, union_type_extension, enum_type_extension, input_object_type_extension,
}
use graphql_core.Lexer.Next.{Stream, last, fault, token, lex}
use graphql_core.Parser.State.{
  Options, ParserState, Parser, ◌>>>◌, pure, kind_of, start_of, text_of, peek, same, expect_token,
  expect_keyword, unexpected, parse_name,
}
use graphql_core.Parser.Combinators.{many, optional_many}
use graphql_core.Parser.Values.{parse_directives, parse_value_literal, parse_type_reference}
use graphql_core.Parser.Executable.{parse_operation_definition, parse_fragment_definition}
use graphql_core.Parser.TypeSystem.{
  parse_operation_type_definition, fields_type, members_type, parse_union_member_types,
  parse_enum_values_definition, parse_input_fields_definition, parse_schema_definition,
  parse_scalar_type_definition, parse_object_type_definition, parse_interface_type_definition,
  parse_union_type_definition, parse_enum_type_definition, parse_input_object_type_definition,
  parse_directive_definition,
}

-- The truth value of a tuple or None.
abbrev pub given {ℓ} : {A : Type ℓ} → Option (List A) → Bool
given (some (x ∷ xs)) = true
given _ = false

module _ (options : Options) where
  -- `if not …: raise self.unexpected()`
  unfoldable pub or_unexpected : Bool → Definition → Parser Definition
  or_unexpected true d s = ok (d, s)
  or_unexpected false d s = unexpected options s

  unfoldable pub extend : Text → Parser (Unit {0})
  extend word = expect_keyword options (codes "extend") >>> λ _. expect_keyword options word

  unfoldable pub parse_schema_extension : ℕ → Parser Definition
  unfolding extend or_unexpected
  parse_schema_extension fuel = extend (codes "schema") >>> λ _.
      parse_directives options fuel true >>> λ ds.
      optional_many options fuel brace_l (parse_operation_type_definition options) brace_r >>> λ ts.
      or_unexpected (given ds || given ts) (schema_extension ds ts)

  unfoldable pub parse_scalar_type_extension : ℕ → Parser Definition
  unfolding extend or_unexpected
  parse_scalar_type_extension fuel = extend (codes "scalar") >>> λ _. parse_name options >>> λ n.
      parse_directives options fuel true >>> λ ds.
      or_unexpected (given ds) (scalar_type_extension n ds)

  abbrev fields_given : FieldsType → Bool
  fields_given t = (given t.interfaces || given t.directives) || given t.fields

  abbrev members_given : {A : Type 0} → MembersType A → Bool
  members_given t = given t.directives || given t.members

  unfoldable pub parse_object_type_extension : ℕ → Parser Definition
  unfolding extend or_unexpected
  parse_object_type_extension fuel = extend (codes "type") >>> λ _.
      fields_type options fuel >>> λ t. or_unexpected (fields_given t) (object_type_extension t)

  unfoldable pub parse_interface_type_extension : ℕ → Parser Definition
  unfolding extend or_unexpected
  parse_interface_type_extension fuel = extend (codes "interface") >>> λ _.
      fields_type options fuel >>> λ t. or_unexpected (fields_given t) (interface_type_extension t)

  unfoldable pub parse_union_type_extension : ℕ → Parser Definition
  unfolding extend or_unexpected
  parse_union_type_extension fuel = extend (codes "union") >>> λ _.
      members_type options fuel (parse_union_member_types options fuel) >>> λ t.
      or_unexpected (members_given t) (union_type_extension t)

  unfoldable pub parse_enum_type_extension : ℕ → Parser Definition
  unfolding extend or_unexpected
  parse_enum_type_extension fuel = extend (codes "enum") >>> λ _.
      members_type options fuel (parse_enum_values_definition options fuel) >>> λ t.
      or_unexpected (members_given t) (enum_type_extension t)

  unfoldable pub parse_input_object_type_extension : ℕ → Parser Definition
  unfolding extend or_unexpected
  parse_input_object_type_extension fuel = extend (codes "input") >>> λ _.
      members_type options fuel (parse_input_fields_definition options fuel) >>> λ t.
      or_unexpected (members_given t) (input_object_type_extension t)

  unfoldable pub parse_directive_definition_extension : ℕ → Parser Definition
  unfolding extend or_unexpected
  parse_directive_definition_extension fuel = extend (codes "directive") >>> λ _.
      expect_token options at >>> λ _. parse_name options >>> λ n.
      parse_directives options fuel true >>> λ ds.
      or_unexpected (given ds) (directive_extension n ds)

  -- `self.unexpected(token)`, for the token that the stream begins with
  unfoldable pub unexpected_at : Stream → Parser Definition
  unexpected_at stream s = err (syntax_error (start_of stream) unexpected_token)

  -- The stream that begins with the token that `lookahead` returns, or the error of the lexer. At
  -- EOF the lexer looks no further.
  unfoldable pub lookahead : Stream → Result Stream
  lookahead (token t (fault e)) = err e
  lookahead (token t more) = ok more
  lookahead (last t) = ok (last t)
  lookahead (fault e) = err e

  -- The dispatch of parse_type_system_extension on the keyword behind `extend`.
  unfoldable pub extension_by_keyword : ℕ → Text → Stream → Parser Definition
  unfolding parse_schema_extension parse_scalar_type_extension parse_object_type_extension
      parse_interface_type_extension parse_union_type_extension parse_enum_type_extension
      parse_input_object_type_extension parse_directive_definition_extension unexpected_at
  extension_by_keyword fuel word stream =
      if same_text word (codes "schema")
      then parse_schema_extension fuel
      else if same_text word (codes "scalar")
      then parse_scalar_type_extension fuel
      else if same_text word (codes "type")
      then parse_object_type_extension fuel
      else if same_text word (codes "interface")
      then parse_interface_type_extension fuel
      else if same_text word (codes "union")
      then parse_union_type_extension fuel
      else if same_text word (codes "enum")
      then parse_enum_type_extension fuel
      else if same_text word (codes "input")
      then parse_input_object_type_extension fuel
      else if same_text word (codes "directive")
          && options.experimental_directives_on_directive_definitions
      then parse_directive_definition_extension fuel
      else unexpected_at stream

  unfoldable pub parse_type_system_extension : ℕ → Parser Definition
  unfolding lookahead extension_by_keyword unexpected_at
  parse_type_system_extension fuel s = lookahead s.stream >>= λ ahead.
      if same (kind_of ahead) name
      then extension_by_keyword fuel (text_of ahead) ahead s
      else unexpected_at ahead s

  -- The dispatch of parse_definition on the keyword. `here` is the stream at the keyword.
  unfoldable pub definition_by_keyword : ℕ → Bool → Text → Stream → Parser Definition
  unfolding parse_type_system_extension unexpected_at
  definition_by_keyword fuel has_description word here =
      if same_text word (codes "schema")
      then parse_schema_definition options fuel
      else if same_text word (codes "scalar")
      then parse_scalar_type_definition options fuel
      else if same_text word (codes "type")
      then parse_object_type_definition options fuel
      else if same_text word (codes "interface")
      then parse_interface_type_definition options fuel
      else if same_text word (codes "union")
      then parse_union_type_definition options fuel
      else if same_text word (codes "enum")
      then parse_enum_type_definition options fuel
      else if same_text word (codes "input")
      then parse_input_object_type_definition options fuel
      else if same_text word (codes "directive")
      then parse_directive_definition options fuel
      else if same_text word (codes "query")
          || (same_text word (codes "mutation") || same_text word (codes "subscription"))
      then (parse_operation_definition options fuel >>> λ d. pure (operation_definition d))
      else if same_text word (codes "fragment")
      then (parse_fragment_definition options fuel >>> λ d. pure (fragment_definition d))
      else if has_description
      then (λ s. err (syntax_error (start_of s.stream) description_not_supported))
      else if same_text word (codes "extend")
      then parse_type_system_extension fuel
      else unexpected_at here

  unfoldable pub definition_at : ℕ → Bool → Stream → Parser Definition
  unfolding definition_by_keyword unexpected_at
  definition_at fuel has_description here s =
      if has_description && same (kind_of here) brace_l
      then err (syntax_error (start_of s.stream) description_on_shorthand)
      else if same (kind_of here) name
      then definition_by_keyword fuel has_description (text_of here) here s
      else unexpected_at here s

  unfoldable pub parse_definition : ℕ → Parser Definition
  unfolding definition_at lookahead
  parse_definition fuel s =
      if peek options brace_l s
      then (parse_operation_definition options fuel >>> λ d. pure (operation_definition d)) s
      else if peek options string s || peek options block_string s
      then (lookahead s.stream >>= λ here. definition_at fuel true here s)
      else definition_at fuel false s.stream s

  -- Parser(source): the current token is SOF.
  unfoldable pub start_parser : Text → ParserState
  start_parser body = record {
    stream =
        token (record { kind = sof; start = 0; end = 0; line = 0; column = 0; value = none })
          (lex body);
    token_counter = 0;
  }

  -- More tokens than these are not in the body.
  abbrev pub enough : Text → ℕ
  enough body = length body + 3

  unfoldable pub parse_document : ℕ → Parser (List Definition)
  unfolding parse_definition
  parse_document fuel = many options fuel sof (parse_definition fuel) eof

  unfoldable pub parse : Text → Result (List Definition)
  unfolding start_parser parse_document
  parse body = parse_document (enough body) (start_parser body) >>= λ (d, s). ok d

  -- `parse_value`, `parse_const_value` and `parse_type`: SOF, one node, EOF
  unfoldable pub parse_alone : {A : Type 0} → Parser A → Text → Result A
  unfolding start_parser
  parse_alone parse_fn body =
      (expect_token options sof >>> λ _.
      parse_fn >>> λ node. expect_token options eof >>> λ _. pure node)
        (start_parser body)
      >>= λ (node, s). ok node

  unfoldable pub parse_value : Text → Result Value
  unfolding parse_alone
  parse_value body = parse_alone (parse_value_literal options (enough body) false) body

  unfoldable pub parse_const_value : Text → Result Value
  unfolding parse_alone
  parse_const_value body = parse_alone (parse_value_literal options (enough body) true) body

  unfoldable pub parse_type : Text → Result TypeNode
  unfolding parse_alone
  parse_type body = parse_alone (parse_type_reference options (enough body)) body
