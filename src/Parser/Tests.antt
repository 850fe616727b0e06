-- ===== src/Parser/Tests.antt =====
-- Runs of the parser on concrete texts.
use graphql_core.Prelude.{
  none, ◌≤◌, ◌≡◌, refl, Bool, true, false, ◌&&◌, some, arith, length, if◌then◌else◌,
}
use graphql_core.Errors.{Text, ok, err, syntax_error, variable_in_constant, Ensures}
use graphql_core.Text.{codes}
use graphql_core.TokenKind.{is_punctuator_token_kind, paren_l, paren_r, pipe}
use graphql_core.Text.{same_text}
use graphql_core.Ast.{Value, no_values, value, named, list_of, non_null}
use graphql_core.Lexer.Next.{lex}
use graphql_core.Lexer.Order.{lex-IsOrdered}
use graphql_core.Grammar.{lexemes, value_lexemes, type_lexemes}
use graphql_core.Grammar.Executable.{
  set_lexemes, operation_lexemes, fragment_lexemes, has_shorthand, keyword,
}
use graphql_core.Grammar.TypeSystem.{Spells, delimited}
use graphql_core.Parser.State.{Options, ParserState, parse_name}
use graphql_core.Parser.Combinators.{delimited_many}
use graphql_core.Parser.Values.{parse_value_literal, parse_type_reference}
use graphql_core.Parser.Executable.{
  parse_selection_set, parse_operation_definition, parse_fragment_definition,
}
use graphql_core.Parser.Document.{
  parse, parse_value, parse_const_value, parse_type, parse_definition,
}
use graphql_core.Parser.Reads.{IsClean, Read, size}
use graphql_core.Parser.Sound.Delimited.{delimited_many-Read}
use graphql_core.Parser.Sound.Values.{parse_name-Read, parse_value_literal-Read}
use graphql_core.Parser.Sound.Types.{parse_type_reference-Read}
use graphql_core.Parser.Sound.Selections.{parse_selection_set-Read}
use graphql_core.Parser.Sound.Operations.{
  parse_operation_definition-Read, parse_fragment_definition-Read,
}
use graphql_core.Parser.Sound.Definitions.{DefinitionRead}
use graphql_core.Parser.Sound.Document.{parse_definition-Read}
use graphql_core.Parser.Forward.{Holds}
use graphql_core.Parser.Complete.{parse_type-type_lexemes}
use graphql_core.Parser.Complete.Items.{IsWritten}
use graphql_core.Parser.Complete.Values.{parse_value-value_lexemes}
use graphql_core.Parser.Constants.{IsConst, parse_const_value-IsConst}
use graphql_core.Parser.Sound.Parse.{
  WholeBody, parse-Spells, parse_value-Ensures, parse_type-Ensures,
}
use graphql_core.Parser.Sound.Ends.{IsOrdered-IsClean, IsOrdered-length}

abbrev ten_tokens : Options
ten_tokens = record {
  max_tokens = some 10;
  experimental_fragment_arguments = true;
  experimental_directives_on_directive_definitions = false;
}

abbrev type_text : Text
type_text = codes "type T implements A & B @d { f(x: [Int!] = [1]): T! }"

abbrev at : Text → ParserState
at text = record { stream = lex text; token_counter = 0 }

at-IsClean : (text : Text) → IsClean (at text).stream
at-IsClean text = IsOrdered-IsClean (length text) 0 (lex text) (lex-IsOrdered text)

size-at : (text : Text) → size (at text) ≤ length text
size-at text = omega (arith, IsOrdered-length (length text) 0 (lex text) (lex-IsOrdered text))

abbrev value_text : Text
value_text = codes "{a: [1, $b, \"c\"]}"

abbrev list_type : Text
list_type = codes "[Int!]!"

abbrev set_text : Text
set_text = codes "{ a: b(c: 1) { ...F } }"

abbrev fragment_text : Text
fragment_text = codes "fragment F($x: Int) on T { a }"

parse_type-list_type :
    parse_type ten_tokens (codes "[A]!") ≡ ok (non_null (list_of (named (codes "A"))))
unfolding parse_type graphql_core.Parser.State.expect_token graphql_core.Parser.State.same
    mathlib.Core.Bool.decide graphql_core.Parser.State.advance_lexer lex
    graphql_core.Lexer.Next.read_next_token graphql_core.Lexer.Token.scan
    graphql_core.Lexer.Next.token_round graphql_core.Lexer.Next.is_ignored
    graphql_core.Lexer.Next.read_token_at graphql_core.Lexer.Next.kind_for_punct
    graphql_core.Lexer.Token.create_token parse_type_reference
    graphql_core.Parser.State.expect_optional_token graphql_core.Characters.is_digit
    graphql_core.Characters.is_name_start graphql_core.Lexer.Numbers.read_name
    graphql_core.Characters.is_letter graphql_core.Characters.is_name_continue
    graphql_core.Lexer.Next.tokens graphql_core.Lexer.Numbers.name_round
    graphql_core.Parser.Document.parse_alone graphql_core.Parser.Document.start_parser parse_name
    graphql_core.Parser.Values.parse_bang graphql_core.TokenKind.TokenKind-discrete
parse_type-list_type = refl

parse_const_value-variable :
    parse_const_value ten_tokens (codes "$b")
    ≡ err (syntax_error 0 (variable_in_constant (codes "b")))
unfolding parse_const_value parse_value_literal graphql_core.Parser.Values.value_by_kind
    graphql_core.Parser.Values.parse_variable_value graphql_core.Parser.Values.reject_variable
    graphql_core.Parser.State.expect_token graphql_core.Parser.State.same mathlib.Core.Bool.decide
    graphql_core.Parser.State.advance_lexer lex graphql_core.Lexer.Next.read_next_token
    graphql_core.Lexer.Token.scan graphql_core.Lexer.Next.token_round
    graphql_core.Lexer.Next.is_ignored graphql_core.Lexer.Next.read_token_at
    graphql_core.Lexer.Next.kind_for_punct graphql_core.Lexer.Token.create_token
    parse_type_reference graphql_core.Parser.State.expect_optional_token
    graphql_core.Characters.is_digit graphql_core.Characters.is_name_start
    graphql_core.Lexer.Numbers.read_name graphql_core.Characters.is_letter
    graphql_core.Characters.is_name_continue graphql_core.Lexer.Next.tokens
    graphql_core.Lexer.Numbers.name_round graphql_core.Parser.Document.parse_alone
    graphql_core.Parser.Document.start_parser parse_name graphql_core.Parser.Values.parse_bang
    graphql_core.TokenKind.TokenKind-discrete
parse_const_value-variable = refl

parse-Spells_example :
    Ensures
      (λ ds. Spells ds (lexemes (lex type_text)) × WholeBody ten_tokens type_text)
      (parse ten_tokens type_text)
parse-Spells_example = parse-Spells ten_tokens type_text

parse_value-Ensures_example :
    Ensures
      (λ v. (value_lexemes v ≡ lexemes (lex value_text)) × WholeBody ten_tokens value_text)
      (parse_value ten_tokens value_text)
parse_value-Ensures_example = parse_value-Ensures ten_tokens value_text

parse_type-Ensures_example :
    Ensures
      (λ t. (type_lexemes t ≡ lexemes (lex list_type)) × WholeBody ten_tokens list_type)
      (parse_type ten_tokens list_type)
parse_type-Ensures_example = parse_type-Ensures ten_tokens list_type

parse_definition-Read_example :
    Ensures
      (DefinitionRead ten_tokens (at fragment_text))
      (parse_definition ten_tokens 40 (at fragment_text))
parse_definition-Read_example =
    parse_definition-Read ten_tokens 40 (at fragment_text) (at-IsClean fragment_text)
      (omega (arith, size-at fragment_text))

parse_selection_set-Read_example :
    Ensures
      (λ r. Read ten_tokens (at set_text) (set_lexemes r.0) r.1)
      (parse_selection_set ten_tokens 40 (at set_text))
parse_selection_set-Read_example =
    parse_selection_set-Read ten_tokens 40 (at set_text) (at-IsClean set_text)
      (omega (arith, size-at set_text))

parse_value_literal-Read_example :
    Ensures
      (λ r. Read ten_tokens (at value_text) (value_lexemes r.0) r.1)
      (parse_value_literal ten_tokens 40 false (at value_text))
parse_value_literal-Read_example =
    parse_value_literal-Read ten_tokens 40 false (at value_text) (at-IsClean value_text)
      (omega (arith, size-at value_text))

parse_type_reference-Read_example :
    Ensures
      (λ r. Read ten_tokens (at list_type) (type_lexemes r.0) r.1)
      (parse_type_reference ten_tokens 40 (at list_type))
parse_type_reference-Read_example =
    parse_type_reference-Read ten_tokens 40 (at list_type) (at-IsClean list_type)
      (omega (arith, size-at list_type))

parse_operation_definition-Read_example :
    Ensures
      (λ r.
        (choice : Bool) × Read ten_tokens
          (at set_text)
          (if choice && has_shorthand r.0
            then set_lexemes r.0.selection_set
            else operation_lexemes r.0)
          r.1)
      (parse_operation_definition ten_tokens 40 (at set_text))
parse_operation_definition-Read_example =
    parse_operation_definition-Read ten_tokens 40 (at set_text) (at-IsClean set_text)
      (omega (arith, size-at set_text))

parse_fragment_definition-Read_example :
    Ensures
      (λ r. Read ten_tokens (at fragment_text) (fragment_lexemes r.0) r.1)
      (parse_fragment_definition ten_tokens 40 (at fragment_text))
parse_fragment_definition-Read_example =
    parse_fragment_definition-Read ten_tokens 40 (at fragment_text) (at-IsClean fragment_text)
      (omega (arith, size-at fragment_text))

abbrev names_text : Text
names_text = codes "| A | B"

delimited_many-Read_example :
    Ensures
      (λ r.
        (leading : Bool) × Read ten_tokens (at names_text) (delimited leading pipe keyword r.0) r.1)
      (delimited_many ten_tokens 8 pipe (parse_name ten_tokens) (at names_text))
unfolding is_punctuator_token_kind
delimited_many-Read_example =
    delimited_many-Read ten_tokens keyword (parse_name ten_tokens) 8
      (λ s c h. parse_name-Read ten_tokens s c) (λ n. omega arith) pipe refl 8 (at names_text)
      (at-IsClean names_text) (omega (arith, size-at names_text))
      (omega (arith, size-at names_text))

abbrev const_text : Text
const_text = codes "{a: [1, {b: true}]}"

parse_const_value-IsConst_example :
    Ensures
      (λ v.
        IsConst v
        × ((value_lexemes v ≡ lexemes (lex const_text)) × WholeBody ten_tokens const_text))
      (parse_const_value ten_tokens const_text)
parse_const_value-IsConst_example = parse_const_value-IsConst ten_tokens const_text

abbrev unlimited : Options
unlimited = record {
  max_tokens = none;
  experimental_fragment_arguments = false;
  experimental_directives_on_directive_definitions = false;
}

lex-list_type : Holds (lex (codes "[A]!")) (type_lexemes (non_null (list_of (named (codes "A")))))
unfolding lex graphql_core.Lexer.Next.read_next_token graphql_core.Lexer.Token.scan
    graphql_core.Lexer.Next.token_round graphql_core.Lexer.Next.is_ignored
    graphql_core.Lexer.Next.read_token_at graphql_core.Lexer.Next.kind_for_punct
    graphql_core.Lexer.Token.create_token graphql_core.Characters.is_digit
    graphql_core.Characters.is_name_start graphql_core.Lexer.Numbers.read_name
    graphql_core.Characters.is_letter graphql_core.Characters.is_name_continue
    graphql_core.Lexer.Next.tokens graphql_core.Lexer.Numbers.name_round type_lexemes
    is_punctuator_token_kind
lex-list_type = (tt, refl)

lex-list_value : Holds (lex (codes "[$b,C]")) (
    value_lexemes
      (Value.list (value (Value.variable (codes "b")) (value (Value.enum (codes "C")) no_values))))
unfolding lex graphql_core.Lexer.Next.read_next_token graphql_core.Lexer.Token.scan
    graphql_core.Lexer.Next.token_round graphql_core.Lexer.Next.is_ignored
    graphql_core.Lexer.Next.read_token_at graphql_core.Lexer.Next.kind_for_punct
    graphql_core.Lexer.Token.create_token graphql_core.Characters.is_digit
    graphql_core.Characters.is_name_start graphql_core.Lexer.Numbers.read_name
    graphql_core.Characters.is_letter graphql_core.Characters.is_name_continue
    graphql_core.Lexer.Next.tokens graphql_core.Lexer.Numbers.name_round value_lexemes
    is_punctuator_token_kind
lex-list_value = (tt, refl)

list_value-IsWritten :
    IsWritten
      (Value.list (value (Value.variable (codes "b")) (value (Value.enum (codes "C")) no_values)))
unfolding IsWritten same_text
list_value-IsWritten = (tt, (refl, tt))

parse_type-type_lexemes_example :
    parse_type unlimited (codes "[A]!") ≡ ok (non_null (list_of (named (codes "A"))))
parse_type-type_lexemes_example =
    parse_type-type_lexemes unlimited refl (codes "[A]!") (non_null (list_of (named (codes "A"))))
      tt lex-list_type

parse_value-value_lexemes_example :
    parse_value unlimited (codes "[$b,C]")
    ≡ ok
        (Value.list (value (Value.variable (codes "b")) (value (Value.enum (codes "C")) no_values)))
parse_value-value_lexemes_example =
    parse_value-value_lexemes unlimited refl (codes "[$b,C]")
      (Value.list (value (Value.variable (codes "b")) (value (Value.enum (codes "C")) no_values)))
      list_value-IsWritten lex-list_value
