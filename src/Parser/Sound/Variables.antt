-- ===== src/Parser/Sound/Variables.antt =====
-- src/graphql/language/parser.py: operation types, descriptions and variable definitions against the grammar.
use graphql_core.Prelude.{
  ℕ, ◌<◌, ◌≤◌, ◌≡◌, refl, Bool, true, false, Option, none, some, [], ◌∷◌, arith, length,
  length-append,
}
use graphql_core.Errors.{
  Text, Result, ok, err, syntax_error, unexpected_token, Ensures, returns, raises, Ensures-bind,
  Ensures-if,
}
use graphql_core.Text.{codes, same_text→eq}
use graphql_core.TokenKind.{
  is_punctuator_token_kind, name, colon, paren_l, paren_r, equals, string, block_string,
}
use graphql_core.Ast.{Value, VariableDefinition, OperationType}
use graphql_core.Grammar.{punct, word, optional, value_lexemes}
use graphql_core.Grammar.Executable.{
  description_lexemes, variable_definition_lexemes, variables_lexemes, operation_word,
}
use graphql_core.Parser.State.{
  Options, ParserState, Parser, ◌>>>◌, pure, start_of, same→eq, peek, parse_name,
}
use graphql_core.Parser.Values.{parse_value_literal}
use graphql_core.Parser.Executable.{
  operation_type, parse_operation_type, parse_description, parse_default_value,
  parse_variable_definition, parse_variable_definitions,
}
use graphql_core.Parser.Reads.{
  IsClean, Read, Read-nil, Read-append, Read-size, size, optional_lexeme,
  expect_optional_token-Read,
}
use graphql_core.Parser.Sound.Combinators.{Sound, optional_many-Read}
use graphql_core.Parser.Sound.Values.{
  parse_name-Read, expect_punct-Read, take_token-Read, parse_variable-Read,
  parse_value_literal-Read,
}
use graphql_core.Parser.Sound.Arguments.{parse_directives-Read}
use graphql_core.Parser.Sound.Types.{parse_type_reference-Read}

pub operation_type-some :
    (t : Text) (o : OperationType) → operation_type t ≡ some o → t ≡ operation_word o
unfolding operation_type
operation_type-some t o h = ground (
  arith,
  same_text→eq t (codes "query"),
  same_text→eq t (codes "mutation"),
  same_text→eq t (codes "subscription"),
)

module _ (options : Options) where
  pub parse_operation_type-Read :
      (s : ParserState)
      → IsClean s.stream
      → Ensures
          (λ r. Read options s (word name (operation_word r.0) ∷ []) r.1)
          (parse_operation_type options s)
  unfolding parse_operation_type parse_name
  parse_operation_type-Read s c =
      Ensures-bind (parse_name-Read options s c) λ (t, s') r. go t s' r (operation_type t) refl
    where
      go :
          (t : Text) (s' : ParserState)
          → Read options s (word name t ∷ []) s'
          → (o : Option OperationType) → operation_type t ≡ o
          → Ensures
              (λ r. Read options s (word name (operation_word r.0) ∷ []) r.1)
              (elim o as (λ x. Result (OperationType × ParserState)) [
                | some o ↦ ok (o, s')
                | none ↦ err (syntax_error (start_of s.stream) unexpected_token)
              ])
      go t s' r none e = raises
      go t s' r (some o) e = returns (rw (operation_type-some t o e) at r)

  pub parse_description-Read :
      (s : ParserState)
      → IsClean s.stream
      → Ensures (λ r. Read options s (description_lexemes r.0) r.1) (parse_description options s)
  unfolding parse_description value_lexemes is_punctuator_token_kind
  parse_description-Read s c =
      Ensures-if (peek options string s)
        (λ e.
          Ensures-bind
            (take_token-Read options string (λ v. Value.string v false) s c (same→eq _ _ e) refl
              (cc) (λ t. refl))
            λ (d, s') r. returns r)
        (λ e.
          Ensures-if (peek options block_string s)
            (λ e.
              Ensures-bind
                (take_token-Read options block_string (λ v. Value.string v true) s c (same→eq _ _ e)
                  refl (cc) (λ t. refl))
                λ (d, s') r. returns r)
            (λ e. returns (Read-nil s c)))

  pub parse_default_value-Read :
      (fuel : ℕ) (s : ParserState)
      → IsClean s.stream
      → size s < fuel
      → Ensures
          (λ r. Read options s (optional (λ v. punct equals ∷ value_lexemes v) r.0) r.1)
          (parse_default_value options fuel s)
  unfolding parse_default_value is_punctuator_token_kind
  parse_default_value-Read fuel s c h =
      Ensures-bind (expect_optional_token-Read options equals s c refl) λ (o, s') r. go o s' r
    where
      go :
          (o : Bool) (s' : ParserState)
          → Read options s (optional_lexeme options equals o) s'
          → Ensures
              (λ r. Read options s (optional (λ v. punct equals ∷ value_lexemes v) r.0) r.1)
              ((elim o as (λ x. Parser (Option Value)) [
                | true ↦ parse_value_literal options fuel true >>> λ v. pure (some v)
                | false ↦ pure none
              ])
                s')
      go true s' r =
          Ensures-bind
            (parse_value_literal-Read options fuel true s' r.clean (omega (arith, Read-size r)))
            λ (v, s'') r'. returns (Read-append r r')
      go false s' r = returns r

  pub parse_variable_definition-Sound :
      (fuel : ℕ)
      → Sound options variable_definition_lexemes fuel (parse_variable_definition options fuel)
  unfolding parse_variable_definition variable_definition_lexemes is_punctuator_token_kind
  parse_variable_definition-Sound fuel s c h =
      Ensures-bind (parse_description-Read s c) λ (d, s1) r1.
        Ensures-bind (parse_variable-Read options s1 r1.clean) λ (n, s2) r2.
          Ensures-bind (expect_punct-Read options colon s2 refl (cc) r2.clean) λ (u, s3) r3.
            Ensures-bind
              (parse_type_reference-Read options fuel s3 r3.clean
                (omega (arith, Read-size r1, Read-size r2, Read-size r3)))
              λ (t, s4) r4.
                Ensures-bind
                  (parse_default_value-Read fuel s4 r4.clean
                    (omega (arith, Read-size r1, Read-size r2, Read-size r3, Read-size r4)))
                  λ (v, s5) r5.
                    Ensures-bind
                      (parse_directives-Read options fuel true s5 r5.clean (
                        omega (
                          arith,
                          Read-size r1,
                          Read-size r2,
                          Read-size r3,
                          Read-size r4,
                          Read-size r5,
                        )))
                      λ (ds, s6) r6. returns (
                        Read-append r1
                          (Read-append r2 (Read-append r3 (Read-append r4 (Read-append r5 r6)))))

  pub length-variable_definition_lexemes_pos :
      (d : VariableDefinition) → 0 < length (variable_definition_lexemes d)
  unfolding variable_definition_lexemes
  length-variable_definition_lexemes_pos d =
      omega (arith, length-append (description_lexemes d.description) _)

  pub parse_variable_definitions-Read :
      (fuel : ℕ) (s : ParserState)
      → IsClean s.stream
      → size s ≤ fuel
      → Ensures
          (λ r. Read options s (variables_lexemes r.0) r.1)
          (parse_variable_definitions options fuel s)
  unfolding parse_variable_definitions is_punctuator_token_kind
  parse_variable_definitions-Read fuel s c h =
      optional_many-Read options variable_definition_lexemes
        (parse_variable_definition options fuel) fuel (parse_variable_definition-Sound fuel)
        length-variable_definition_lexemes_pos paren_l paren_r refl refl fuel s c h h
