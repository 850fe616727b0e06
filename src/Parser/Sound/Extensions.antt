-- ===== src/Parser/Sound/Extensions.antt =====
-- src/graphql/language/parser.py: type system extensions against the grammar.
use graphql_core.Prelude.{ℕ, refl, Bool, true, false, [], ◌∷◌, arith}
use graphql_core.Errors.{Text, Ensures, returns, raises, Ensures-bind, Ensures-map}
use graphql_core.Text.{codes}
use graphql_core.TokenKind.{is_punctuator_token_kind, name, brace_l, brace_r, at}
use graphql_core.Ast.{Definition}
use graphql_core.Grammar.{word}
use graphql_core.Grammar.TypeSystem.{
  operation_type_lexemes, union_lexemes, enum_lexemes, input_lexemes, definition_lexemes,
}
use graphql_core.Parser.State.{Options, ParserState, unexpected}
use graphql_core.Parser.TypeSystem.{
  parse_operation_type_definition, parse_union_member_types, parse_enum_values_definition,
  parse_input_fields_definition,
}
use graphql_core.Parser.Document.{
  or_unexpected, extend, parse_schema_extension, parse_scalar_type_extension,
  parse_object_type_extension, parse_interface_type_extension, parse_union_type_extension,
  parse_enum_type_extension, parse_input_object_type_extension,
  parse_directive_definition_extension,
}
use graphql_core.Parser.Reads.{IsClean, Read, Read-append, Read-size, expect_keyword-Read}
use graphql_core.Parser.Sound.Combinators.{optional_many-Read}
use graphql_core.Parser.Sound.Values.{parse_name-Read, expect_punct-Read}
use graphql_core.Parser.Sound.Arguments.{parse_directives-Read}
use graphql_core.Parser.Sound.TypeSystem.{
  fields_type-Read, members_type-Read, parse_union_member_types-Read,
  parse_enum_values_definition-Read, parse_input_fields_definition-Read,
}
use graphql_core.Parser.Sound.Fields.{parse_operation_type_definition-Sound}
use graphql_core.Parser.Sound.Definitions.{
  DefinitionRead, SoundDefinition, length-operation_type_lexemes_pos, no_choice,
}

module _ (options : Options) where
  or_unexpected-Read :
      (b : Bool) (d : Definition) {s s' : ParserState}
      → DefinitionRead options s (d, s')
      → Ensures (DefinitionRead options s) (or_unexpected options b d s')
  unfolding or_unexpected unexpected
  or_unexpected-Read true d r = returns r
  or_unexpected-Read false d r = raises

  extend-Read :
      (word' : Text) (s : ParserState)
      → IsClean s.stream
      → Ensures
          (λ r. Read options s (word name (codes "extend") ∷ word name word' ∷ []) r.1)
          (extend options word' s)
  unfolding extend
  extend-Read word' s c =
      Ensures-bind (expect_keyword-Read options (codes "extend") s c) λ (u, s1) r1.
        Ensures-map (expect_keyword-Read options word' s1 r1.clean) λ (u', s2) r2. Read-append r1 r2

  pub parse_schema_extension-Sound :
      (fuel : ℕ) → SoundDefinition options fuel (parse_schema_extension options fuel)
  unfolding parse_schema_extension definition_lexemes is_punctuator_token_kind
  parse_schema_extension-Sound fuel s c h =
      Ensures-bind (extend-Read (codes "schema") s c) λ (u, s1) r1.
        Ensures-bind
          (parse_directives-Read options fuel true s1 r1.clean (omega (arith, Read-size r1)))
          λ (ds, s2) r2.
            Ensures-bind
              (optional_many-Read options operation_type_lexemes
                (parse_operation_type_definition options) fuel
                (parse_operation_type_definition-Sound options fuel)
                length-operation_type_lexemes_pos brace_l brace_r refl refl fuel s2 r2.clean
                (omega (arith, Read-size r1, Read-size r2))
                (omega (arith, Read-size r1, Read-size r2)))
              λ (ts, s3) r3. or_unexpected-Read _ _ (false, Read-append r1 (Read-append r2 r3))

  pub parse_scalar_type_extension-Sound :
      (fuel : ℕ) → SoundDefinition options fuel (parse_scalar_type_extension options fuel)
  unfolding parse_scalar_type_extension definition_lexemes
  parse_scalar_type_extension-Sound fuel s c h =
      Ensures-bind (extend-Read (codes "scalar") s c) λ (u, s1) r1.
        Ensures-bind (parse_name-Read options s1 r1.clean) λ (n, s2) r2.
          Ensures-bind
            (parse_directives-Read options fuel true s2 r2.clean
              (omega (arith, Read-size r1, Read-size r2)))
            λ (ds, s3) r3. or_unexpected-Read _ _ (false, Read-append r1 (Read-append r2 r3))

  pub parse_object_type_extension-Sound :
      (fuel : ℕ) → SoundDefinition options fuel (parse_object_type_extension options fuel)
  unfolding parse_object_type_extension definition_lexemes
  parse_object_type_extension-Sound fuel s c h =
      Ensures-bind (extend-Read (codes "type") s c) λ (u, s1) r1.
        Ensures-bind (fields_type-Read options fuel s1 r1.clean (omega (arith, Read-size r1)))
          λ (t, s2) (choice, r2). or_unexpected-Read _ _ (choice, Read-append r1 r2)

  pub parse_interface_type_extension-Sound :
      (fuel : ℕ) → SoundDefinition options fuel (parse_interface_type_extension options fuel)
  unfolding parse_interface_type_extension definition_lexemes
  parse_interface_type_extension-Sound fuel s c h =
      Ensures-bind (extend-Read (codes "interface") s c) λ (u, s1) r1.
        Ensures-bind (fields_type-Read options fuel s1 r1.clean (omega (arith, Read-size r1)))
          λ (t, s2) (choice, r2). or_unexpected-Read _ _ (choice, Read-append r1 r2)

  pub parse_union_type_extension-Sound :
      (fuel : ℕ) → SoundDefinition options fuel (parse_union_type_extension options fuel)
  unfolding parse_union_type_extension definition_lexemes
  parse_union_type_extension-Sound fuel s c h =
      Ensures-bind (extend-Read (codes "union") s c) λ (u, s1) r1.
        Ensures-bind
          (members_type-Read options union_lexemes fuel (parse_union_member_types options fuel)
            (parse_union_member_types-Read options fuel) s1 r1.clean (omega (arith, Read-size r1)))
          λ (t, s2) (choice, r2). or_unexpected-Read _ _ (choice, Read-append r1 r2)

  pub parse_enum_type_extension-Sound :
      (fuel : ℕ) → SoundDefinition options fuel (parse_enum_type_extension options fuel)
  unfolding parse_enum_type_extension definition_lexemes
  parse_enum_type_extension-Sound fuel s c h =
      Ensures-bind (extend-Read (codes "enum") s c) λ (u, s1) r1.
        Ensures-bind
          (members_type-Read options (λ (choice : Bool). enum_lexemes) fuel
            (parse_enum_values_definition options fuel)
            (no_choice options enum_lexemes (parse_enum_values_definition-Read options fuel)) s1
            r1.clean (omega (arith, Read-size r1)))
          λ (t, s2) (choice, r2). or_unexpected-Read _ _ (choice, Read-append r1 r2)

  pub parse_input_object_type_extension-Sound :
      (fuel : ℕ) → SoundDefinition options fuel (parse_input_object_type_extension options fuel)
  unfolding parse_input_object_type_extension definition_lexemes
  parse_input_object_type_extension-Sound fuel s c h =
      Ensures-bind (extend-Read (codes "input") s c) λ (u, s1) r1.
        Ensures-bind
          (members_type-Read options (λ (choice : Bool). input_lexemes) fuel
            (parse_input_fields_definition options fuel)
            (no_choice options input_lexemes (parse_input_fields_definition-Read options fuel)) s1
            r1.clean (omega (arith, Read-size r1)))
          λ (t, s2) (choice, r2). or_unexpected-Read _ _ (choice, Read-append r1 r2)

  pub parse_directive_definition_extension-Sound :
      (fuel : ℕ) → SoundDefinition options fuel (parse_directive_definition_extension options fuel)
  unfolding parse_directive_definition_extension definition_lexemes is_punctuator_token_kind
  parse_directive_definition_extension-Sound fuel s c h =
      Ensures-bind (extend-Read (codes "directive") s c) λ (u, s1) r1.
        Ensures-bind (expect_punct-Read options at s1 refl (cc) r1.clean) λ (u', s2) r2.
          Ensures-bind (parse_name-Read options s2 r2.clean) λ (n, s3) r3.
            Ensures-bind
              (parse_directives-Read options fuel true s3 r3.clean
                (omega (arith, Read-size r1, Read-size r2, Read-size r3)))
              λ (ds, s4) r4.
                or_unexpected-Read _ _ (false, Read-append r1 (Read-append r2 (Read-append r3 r4)))
