-- ===== src/Parser/Sound/TypeSystem.antt =====
-- src/graphql/language/parser.py: the parts of type system definitions against the grammar.
use graphql_core.Prelude.{
  ℕ, ◌<◌, ◌≤◌, ◌≡◌, refl, Bool, true, false, Option, List, [], arith, length, if◌then◌else◌,
}
use graphql_core.Errors.{Ensures, returns, raises, Ensures-bind, Ensures-if}
use graphql_core.Text.{codes}
use graphql_core.Text.{is_one_of}
use graphql_core.TokenKind.{
  TokenKind, is_punctuator_token_kind, brace_l, brace_r, equals, amp, pipe,
}
use graphql_core.Ast.{EnumValueDefinition}
use graphql_core.Grammar.{Lexeme, directives_lexemes, optional_items}
use graphql_core.Grammar.Executable.{keyword}
use graphql_core.Grammar.TypeSystem.{
  input_value_lexemes, field_definition_lexemes, enum_value_lexemes, delimited, interfaces_lexemes,
  fields_type_lexemes, members_type_lexemes, union_lexemes, enum_lexemes, input_lexemes,
}
use graphql_core.Parser.State.{Options, ParserState, Parser, text_of, parse_name}
use graphql_core.Parser.Combinators.{delimited_many}
use graphql_core.Parser.TypeSystem.{
  reserved_values, directive_locations, parse_input_value_def, parse_field_definition,
  parse_fields_definition, named_types_if, parse_implements_interfaces, parse_union_member_types,
  fields_type, members_type, parse_enum_value_name, parse_enum_value_definition,
  parse_enum_values_definition, parse_input_fields_definition, parse_directive_location,
  parse_directive_locations, directives_on_directive,
}
use graphql_core.Parser.Reads.{
  IsClean, Read, Read-nil, Read-append, Read-size, size, optional_lexeme,
  expect_optional_token-Read, expect_optional_keyword-Read,
}
use graphql_core.Parser.Sound.Combinators.{Sound, optional_many-Read}
use graphql_core.Parser.Sound.Delimited.{delimited_many-Read}
use graphql_core.Parser.Sound.Values.{parse_name-Read}
use graphql_core.Parser.Sound.Arguments.{parse_directives-Read}
use graphql_core.Parser.Sound.Variables.{parse_description-Read}
use graphql_core.Parser.Sound.Fields.{
  length-described_pos, parse_input_value_def-Sound, length-input_value_lexemes_pos,
  parse_field_definition-Sound, length-field_definition_lexemes_pos,
}

module _ (options : Options) where
  parse_fields_definition-Read :
      (fuel : ℕ) (s : ParserState)
      → IsClean s.stream
      → size s ≤ fuel
      → Ensures
          (λ r. Read options s (optional_items brace_l field_definition_lexemes brace_r r.0) r.1)
          (parse_fields_definition options fuel s)
  unfolding parse_fields_definition is_punctuator_token_kind
  parse_fields_definition-Read fuel s c h =
      optional_many-Read options field_definition_lexemes (parse_field_definition options fuel) fuel
        (parse_field_definition-Sound options fuel) (length-field_definition_lexemes_pos options)
        brace_l brace_r refl refl fuel s c h h

  names_delimited :
      (fuel : ℕ) (delimiter : TokenKind)
      → is_punctuator_token_kind delimiter ≡ true
      → (s : ParserState) → IsClean s.stream
      → size s < fuel
      → Ensures
          (λ r. (leading : Bool) × Read options s (delimited leading delimiter keyword r.0) r.1)
          (delimited_many options fuel delimiter (parse_name options) s)
  names_delimited fuel delimiter p s c h =
      delimited_many-Read options keyword (parse_name options) fuel
        (λ s c h. parse_name-Read options s c) (λ n. omega arith) delimiter p fuel s c h h

  pub parse_implements_interfaces-Read :
      (fuel : ℕ) (s : ParserState)
      → IsClean s.stream
      → size s < fuel
      → Ensures
          (λ r. (leading : Bool) × Read options s (interfaces_lexemes leading r.0) r.1)
          (parse_implements_interfaces options fuel s)
  unfolding parse_implements_interfaces named_types_if is_punctuator_token_kind
  parse_implements_interfaces-Read fuel s c h =
      Ensures-bind (expect_optional_keyword-Read options (codes "implements") s c)
        λ (o, s') r. go o s' r
    where
      go :
          (o : Bool) (s' : ParserState)
          → Read options s (if o then keyword (codes "implements") else []) s'
          → Ensures
              (λ r. (leading : Bool) × Read options s (interfaces_lexemes leading r.0) r.1)
              (named_types_if options fuel amp o s')
      go true s' r =
          Ensures-bind (names_delimited fuel amp refl s' r.clean (omega (arith, Read-size r)))
            λ (ts, s'') (leading, r'). returns (leading, Read-append r r')
      go false s' r = returns (false, r)

  pub parse_union_member_types-Read :
      (fuel : ℕ) (s : ParserState)
      → IsClean s.stream
      → size s < fuel
      → Ensures
          (λ r. (leading : Bool) × Read options s (union_lexemes leading r.0) r.1)
          (parse_union_member_types options fuel s)
  unfolding parse_union_member_types named_types_if is_punctuator_token_kind
  parse_union_member_types-Read fuel s c h =
      Ensures-bind (expect_optional_token-Read options equals s c refl) λ (o, s') r. go o s' r
    where
      go :
          (o : Bool) (s' : ParserState)
          → Read options s (optional_lexeme options equals o) s'
          → Ensures
              (λ r. (leading : Bool) × Read options s (union_lexemes leading r.0) r.1)
              (named_types_if options fuel pipe o s')
      go true s' r =
          Ensures-bind (names_delimited fuel pipe refl s' r.clean (omega (arith, Read-size r)))
            λ (ts, s'') (leading, r'). returns (leading, Read-append r r')
      go false s' r = returns (false, r)

  pub fields_type-Read :
      (fuel : ℕ) (s : ParserState)
      → IsClean s.stream
      → size s < fuel
      → Ensures
          (λ r. (leading : Bool) × Read options s (fields_type_lexemes leading r.0) r.1)
          (fields_type options fuel s)
  unfolding fields_type fields_type_lexemes
  fields_type-Read fuel s c h = Ensures-bind (parse_name-Read options s c) λ (n, s1) r1.
      Ensures-bind (parse_implements_interfaces-Read fuel s1 r1.clean (omega (arith, Read-size r1)))
        λ (is, s2) (leading, r2).
          Ensures-bind
            (parse_directives-Read options fuel true s2 r2.clean
              (omega (arith, Read-size r1, Read-size r2)))
            λ (ds, s3) r3.
              Ensures-bind
                (parse_fields_definition-Read fuel s3 r3.clean
                  (omega (arith, Read-size r1, Read-size r2, Read-size r3)))
                λ (fs, s4) r4.
                  returns (leading, Read-append r1 (Read-append r2 (Read-append r3 r4)))

  -- The members of the type are read after a name and directives.
  pub members_type-Read :
      {A C : Type 0} (members : C → Option (List A) → List Lexeme) (fuel : ℕ)
      (parse_members : Parser (Option (List A)))
      → ((s : ParserState)
          → IsClean s.stream
          → size s < fuel
          → Ensures (λ r. (choice : C) × Read options s (members choice r.0) r.1) (parse_members s))
      → (s : ParserState) → IsClean s.stream
      → size s < fuel
      → Ensures
          (λ r. (choice : C) × Read options s (members_type_lexemes (members choice) r.0) r.1)
          (members_type options fuel parse_members s)
  unfolding members_type
  members_type-Read members fuel parse_members sound s c h =
      Ensures-bind (parse_name-Read options s c) λ (n, s1) r1.
        Ensures-bind
          (parse_directives-Read options fuel true s1 r1.clean (omega (arith, Read-size r1)))
          λ (ds, s2) r2.
            Ensures-bind (sound s2 r2.clean (omega (arith, Read-size r1, Read-size r2)))
              λ (ms, s3) (choice, r3). returns (choice, Read-append r1 (Read-append r2 r3))

  parse_enum_value_definition-Sound :
      (fuel : ℕ) → Sound options enum_value_lexemes fuel (parse_enum_value_definition options fuel)
  unfolding parse_enum_value_definition parse_enum_value_name enum_value_lexemes
  parse_enum_value_definition-Sound fuel s c h =
      Ensures-bind (parse_description-Read options s c) λ (d, s1) r1.
        Ensures-bind
          (Ensures-if (is_one_of (text_of s1.stream) reserved_values) (λ e. raises)
            (λ e. parse_name-Read options s1 r1.clean))
          λ (n, s2) r2.
            Ensures-bind
              (parse_directives-Read options fuel true s2 r2.clean
                (omega (arith, Read-size r1, Read-size r2)))
              λ (ds, s3) r3. returns (Read-append r1 (Read-append r2 r3))

  length-enum_value_lexemes_pos : (d : EnumValueDefinition) → 0 < length (enum_value_lexemes d)
  unfolding enum_value_lexemes
  length-enum_value_lexemes_pos d = length-described_pos _ _ _

  pub parse_enum_values_definition-Read :
      (fuel : ℕ) (s : ParserState)
      → IsClean s.stream
      → size s ≤ fuel
      → Ensures
          (λ r. Read options s (enum_lexemes r.0) r.1)
          (parse_enum_values_definition options fuel s)
  unfolding parse_enum_values_definition is_punctuator_token_kind
  parse_enum_values_definition-Read fuel s c h =
      optional_many-Read options enum_value_lexemes (parse_enum_value_definition options fuel) fuel
        (parse_enum_value_definition-Sound fuel) length-enum_value_lexemes_pos brace_l brace_r refl
        refl fuel s c h h

  pub parse_input_fields_definition-Read :
      (fuel : ℕ) (s : ParserState)
      → IsClean s.stream
      → size s ≤ fuel
      → Ensures
          (λ r. Read options s (input_lexemes r.0) r.1)
          (parse_input_fields_definition options fuel s)
  unfolding parse_input_fields_definition is_punctuator_token_kind
  parse_input_fields_definition-Read fuel s c h =
      optional_many-Read options input_value_lexemes (parse_input_value_def options fuel) fuel
        (parse_input_value_def-Sound options fuel) (length-input_value_lexemes_pos options) brace_l
        brace_r refl refl fuel s c h h

  parse_directive_location-Read :
      (s : ParserState)
      → IsClean s.stream
      → Ensures (λ r. Read options s (keyword r.0) r.1) (parse_directive_location options s)
  unfolding parse_directive_location
  parse_directive_location-Read s c =
      Ensures-bind (parse_name-Read options s c)
        λ (n, s') r. Ensures-if (is_one_of n directive_locations) (λ e. returns r) (λ e. raises)

  pub parse_directive_locations-Read :
      (fuel : ℕ) (s : ParserState)
      → IsClean s.stream
      → size s < fuel
      → Ensures
          (λ r. (leading : Bool) × Read options s (delimited leading pipe keyword r.0) r.1)
          (parse_directive_locations options fuel s)
  unfolding parse_directive_locations is_punctuator_token_kind
  parse_directive_locations-Read fuel s c h =
      delimited_many-Read options keyword (parse_directive_location options) fuel
        (λ s c h. parse_directive_location-Read s c) (λ n. omega arith) pipe refl fuel s c h h

  pub directives_on_directive-Read :
      (fuel : ℕ) (s : ParserState)
      → IsClean s.stream
      → size s < fuel
      → Ensures
          (λ r. Read options s (directives_lexemes r.0) r.1)
          (directives_on_directive options fuel s)
  unfolding directives_on_directive
  directives_on_directive-Read fuel s c h =
      Ensures-if options.experimental_directives_on_directive_definitions
        (λ e. parse_directives-Read options fuel true s c h) (λ e. returns (Read-nil s c))
