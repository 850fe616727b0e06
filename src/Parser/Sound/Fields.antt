-- ===== src/Parser/Sound/Fields.antt =====
-- src/graphql/language/parser.py: input values, arguments and field definitions against the grammar.
use graphql_core.Prelude.{ℕ, ◌<◌, ◌≤◌, refl, true, List, ◌∷◌, ◌++◌, arith, length, length-append}
use graphql_core.Errors.{Ensures, returns, Ensures-bind}
use graphql_core.TokenKind.{is_punctuator_token_kind, colon, paren_l, paren_r}
use graphql_core.Ast.{InputValueDefinition, FieldDefinition}
use graphql_core.Grammar.{Lexeme}
use graphql_core.Grammar.TypeSystem.{
  operation_type_lexemes, input_value_lexemes, argument_defs_lexemes, field_definition_lexemes,
}
use graphql_core.Parser.State.{Options, ParserState}
use graphql_core.Parser.TypeSystem.{
  parse_operation_type_definition, parse_input_value_def, parse_argument_defs,
  parse_field_definition,
}
use graphql_core.Parser.Reads.{IsClean, Read, Read-append, Read-size, size}
use graphql_core.Parser.Sound.Combinators.{Sound, optional_many-Read}
use graphql_core.Parser.Sound.Values.{parse_name-Read, expect_punct-Read}
use graphql_core.Parser.Sound.Arguments.{parse_directives-Read}
use graphql_core.Parser.Sound.Types.{parse_type_reference-Read}
use graphql_core.Parser.Sound.Variables.{
  parse_operation_type-Read, parse_description-Read, parse_default_value-Read,
}

pub length-described_pos : (xs ys : List Lexeme) (l : Lexeme) → 0 < length (xs ++ (l ∷ ys))
length-described_pos xs ys l = omega (arith, length-append xs (l ∷ ys))

module _ (options : Options) where
  pub parse_operation_type_definition-Sound :
      (fuel : ℕ)
      → Sound options operation_type_lexemes fuel (parse_operation_type_definition options)
  unfolding parse_operation_type_definition operation_type_lexemes is_punctuator_token_kind
  parse_operation_type_definition-Sound fuel s c h =
      Ensures-bind (parse_operation_type-Read options s c) λ (o, s1) r1.
        Ensures-bind (expect_punct-Read options colon s1 refl (cc) r1.clean) λ (u, s2) r2.
          Ensures-bind (parse_name-Read options s2 r2.clean)
            λ (t, s3) r3. returns (Read-append r1 (Read-append r2 r3))

  pub parse_input_value_def-Sound :
      (fuel : ℕ) → Sound options input_value_lexemes fuel (parse_input_value_def options fuel)
  unfolding parse_input_value_def input_value_lexemes is_punctuator_token_kind
  parse_input_value_def-Sound fuel s c h =
      Ensures-bind (parse_description-Read options s c) λ (d, s1) r1.
        Ensures-bind (parse_name-Read options s1 r1.clean) λ (n, s2) r2.
          Ensures-bind (expect_punct-Read options colon s2 refl (cc) r2.clean) λ (u, s3) r3.
            Ensures-bind
              (parse_type_reference-Read options fuel s3 r3.clean
                (omega (arith, Read-size r1, Read-size r2, Read-size r3)))
              λ (t, s4) r4.
                Ensures-bind
                  (parse_default_value-Read options fuel s4 r4.clean
                    (omega (arith, Read-size r1, Read-size r2, Read-size r3, Read-size r4)))
                  λ (v, s5) r5.
                    Ensures-bind
                      (parse_directives-Read options fuel true s5 r5.clean (
                        omega (
                          arith,
                          Read-size r1,
                          Read-size r2,
                          Read-size r3,
                          Read-size r4,
                          Read-size r5,
                        )))
                      λ (ds, s6) r6. returns (
                        Read-append r1
                          (Read-append r2 (Read-append r3 (Read-append r4 (Read-append r5 r6)))))

  pub length-input_value_lexemes_pos :
      (d : InputValueDefinition) → 0 < length (input_value_lexemes d)
  unfolding input_value_lexemes
  length-input_value_lexemes_pos d = length-described_pos _ _ _

  pub parse_argument_defs-Read :
      (fuel : ℕ) (s : ParserState)
      → IsClean s.stream
      → size s ≤ fuel
      → Ensures
          (λ r. Read options s (argument_defs_lexemes r.0) r.1)
          (parse_argument_defs options fuel s)
  unfolding parse_argument_defs is_punctuator_token_kind
  parse_argument_defs-Read fuel s c h =
      optional_many-Read options input_value_lexemes (parse_input_value_def options fuel) fuel
        (parse_input_value_def-Sound fuel) length-input_value_lexemes_pos paren_l paren_r refl refl
        fuel s c h h

  pub parse_field_definition-Sound :
      (fuel : ℕ) → Sound options field_definition_lexemes fuel (parse_field_definition options fuel)
  unfolding parse_field_definition field_definition_lexemes is_punctuator_token_kind
  parse_field_definition-Sound fuel s c h =
      Ensures-bind (parse_description-Read options s c) λ (d, s1) r1.
        Ensures-bind (parse_name-Read options s1 r1.clean) λ (n, s2) r2.
          Ensures-bind
            (parse_argument_defs-Read fuel s2 r2.clean (omega (arith, Read-size r1, Read-size r2)))
            λ (args, s3) r3.
              Ensures-bind (expect_punct-Read options colon s3 refl (cc) r3.clean) λ (u, s4) r4.
                Ensures-bind
                  (parse_type_reference-Read options fuel s4 r4.clean
                    (omega (arith, Read-size r1, Read-size r2, Read-size r3, Read-size r4)))
                  λ (t, s5) r5.
                    Ensures-bind
                      (parse_directives-Read options fuel true s5 r5.clean (
                        omega (
                          arith,
                          Read-size r1,
                          Read-size r2,
                          Read-size r3,
                          Read-size r4,
                          Read-size r5,
                        )))
                      λ (ds, s6) r6. returns (
                        Read-append r1
                          (Read-append r2 (Read-append r3 (Read-append r4 (Read-append r5 r6)))))

  pub length-field_definition_lexemes_pos :
      (d : FieldDefinition) → 0 < length (field_definition_lexemes d)
  unfolding field_definition_lexemes
  length-field_definition_lexemes_pos d = length-described_pos _ _ _
