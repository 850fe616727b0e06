-- ===== src/Parser/Sound/Definitions.antt =====
-- src/graphql/language/parser.py: type system definitions against the grammar.
use graphql_core.Prelude.{ℕ, ◌<◌, ◌≤◌, refl, Bool, true, false, List, arith, length}
use graphql_core.Errors.{Ensures, returns, Ensures-bind, Ensures-map}
use graphql_core.Text.{codes}
use graphql_core.TokenKind.{is_punctuator_token_kind, brace_l, brace_r, at}
use graphql_core.Ast.{Definition, OperationTypeDefinition}
use graphql_core.Grammar.{Lexeme}
use graphql_core.Grammar.TypeSystem.{
  operation_type_lexemes, union_lexemes, enum_lexemes, input_lexemes, directive_definition_lexemes,
  definition_lexemes,
}
use graphql_core.Parser.State.{Options, ParserState, Parser}
use graphql_core.Parser.TypeSystem.{
  parse_operation_type_definition, parse_schema_definition, parse_scalar_type_definition,
  parse_object_type_definition, parse_interface_type_definition, parse_union_type_definition,
  parse_enum_type_definition, parse_input_object_type_definition, parse_directive_definition,
  parse_union_member_types, parse_enum_values_definition, parse_input_fields_definition,
}
use graphql_core.Parser.Reads.{
  IsClean, Read, Read-append, Read-size, size, expect_keyword-Read, expect_optional_keyword-Read,
}
use graphql_core.Parser.Sound.Combinators.{many-Read}
use graphql_core.Parser.Sound.Values.{parse_name-Read, expect_punct-Read}
use graphql_core.Parser.Sound.Arguments.{parse_directives-Read}
use graphql_core.Parser.Sound.Variables.{parse_description-Read}
use graphql_core.Parser.Sound.TypeSystem.{
  fields_type-Read, members_type-Read, parse_union_member_types-Read,
  parse_enum_values_definition-Read, parse_input_fields_definition-Read,
  parse_directive_locations-Read, directives_on_directive-Read,
}
use graphql_core.Parser.Sound.Fields.{
  parse_operation_type_definition-Sound, parse_argument_defs-Read,
}

-- A definition that the parser has read, under the choices that it met.
abbrev pub DefinitionRead : Options → ParserState → Definition × ParserState → Type 0
DefinitionRead options s r = (choice : Bool) × Read options s (definition_lexemes choice r.0) r.1

-- From fewer than `fuel` tokens the parser reads those of the definition that it returns.
abbrev pub SoundDefinition : Options → ℕ → Parser Definition → Type 0
SoundDefinition options fuel parse_fn =
    (s : ParserState)
    → IsClean s.stream
    → size s < fuel
    → Ensures (DefinitionRead options s) (parse_fn s)

pub length-operation_type_lexemes_pos :
    (t : OperationTypeDefinition) → 0 < length (operation_type_lexemes t)
unfolding operation_type_lexemes
length-operation_type_lexemes_pos t = omega arith

module _ (options : Options) where
  -- The members of an enum or input object type leave no choice.
  pub no_choice :
      {A : Type 0} (f : A → List Lexeme) {fuel : ℕ} {parse_members : Parser A}
      → ((s : ParserState)
          → IsClean s.stream
          → size s ≤ fuel
          → Ensures (λ r. Read options s (f r.0) r.1) (parse_members s))
      → (s : ParserState) → IsClean s.stream
      → size s < fuel
      → Ensures (λ r. (choice : Bool) × Read options s (f r.0) r.1) (parse_members s)
  no_choice f sound s c h = Ensures-map (sound s c (omega arith)) λ r read. (false, read)

  pub parse_schema_definition-Sound :
      (fuel : ℕ) → SoundDefinition options fuel (parse_schema_definition options fuel)
  unfolding parse_schema_definition definition_lexemes is_punctuator_token_kind
  parse_schema_definition-Sound fuel s c h =
      Ensures-bind (parse_description-Read options s c) λ (d, s1) r1.
        Ensures-bind (expect_keyword-Read options (codes "schema") s1 r1.clean) λ (u, s2) r2.
          Ensures-bind
            (parse_directives-Read options fuel true s2 r2.clean
              (omega (arith, Read-size r1, Read-size r2)))
            λ (ds, s3) r3.
              Ensures-bind
                (many-Read options operation_type_lexemes (parse_operation_type_definition options)
                  fuel (parse_operation_type_definition-Sound options fuel)
                  length-operation_type_lexemes_pos brace_l brace_r refl refl fuel s3 r3.clean
                  (omega (arith, Read-size r1, Read-size r2, Read-size r3))
                  (omega (arith, Read-size r1, Read-size r2, Read-size r3)))
                λ (ts, s4) r4. returns (false, Read-append r1 (Read-append r2 (Read-append r3 r4)))

  pub parse_scalar_type_definition-Sound :
      (fuel : ℕ) → SoundDefinition options fuel (parse_scalar_type_definition options fuel)
  unfolding parse_scalar_type_definition definition_lexemes
  parse_scalar_type_definition-Sound fuel s c h =
      Ensures-bind (parse_description-Read options s c) λ (d, s1) r1.
        Ensures-bind (expect_keyword-Read options (codes "scalar") s1 r1.clean) λ (u, s2) r2.
          Ensures-bind (parse_name-Read options s2 r2.clean) λ (n, s3) r3.
            Ensures-bind
              (parse_directives-Read options fuel true s3 r3.clean
                (omega (arith, Read-size r1, Read-size r2, Read-size r3)))
              λ (ds, s4) r4. returns (false, Read-append r1 (Read-append r2 (Read-append r3 r4)))

  pub parse_object_type_definition-Sound :
      (fuel : ℕ) → SoundDefinition options fuel (parse_object_type_definition options fuel)
  unfolding parse_object_type_definition definition_lexemes
  parse_object_type_definition-Sound fuel s c h =
      Ensures-bind (parse_description-Read options s c) λ (d, s1) r1.
        Ensures-bind (expect_keyword-Read options (codes "type") s1 r1.clean) λ (u, s2) r2.
          Ensures-bind
            (fields_type-Read options fuel s2 r2.clean (omega (arith, Read-size r1, Read-size r2)))
            λ (t, s3) (choice, r3). returns (choice, Read-append r1 (Read-append r2 r3))

  pub parse_interface_type_definition-Sound :
      (fuel : ℕ) → SoundDefinition options fuel (parse_interface_type_definition options fuel)
  unfolding parse_interface_type_definition definition_lexemes
  parse_interface_type_definition-Sound fuel s c h =
      Ensures-bind (parse_description-Read options s c) λ (d, s1) r1.
        Ensures-bind (expect_keyword-Read options (codes "interface") s1 r1.clean) λ (u, s2) r2.
          Ensures-bind
            (fields_type-Read options fuel s2 r2.clean (omega (arith, Read-size r1, Read-size r2)))
            λ (t, s3) (choice, r3). returns (choice, Read-append r1 (Read-append r2 r3))

  pub parse_union_type_definition-Sound :
      (fuel : ℕ) → SoundDefinition options fuel (parse_union_type_definition options fuel)
  unfolding parse_union_type_definition definition_lexemes
  parse_union_type_definition-Sound fuel s c h =
      Ensures-bind (parse_description-Read options s c) λ (d, s1) r1.
        Ensures-bind (expect_keyword-Read options (codes "union") s1 r1.clean) λ (u, s2) r2.
          Ensures-bind
            (members_type-Read options union_lexemes fuel (parse_union_member_types options fuel)
              (parse_union_member_types-Read options fuel) s2 r2.clean
              (omega (arith, Read-size r1, Read-size r2)))
            λ (t, s3) (choice, r3). returns (choice, Read-append r1 (Read-append r2 r3))

  pub parse_enum_type_definition-Sound :
      (fuel : ℕ) → SoundDefinition options fuel (parse_enum_type_definition options fuel)
  unfolding parse_enum_type_definition definition_lexemes
  parse_enum_type_definition-Sound fuel s c h =
      Ensures-bind (parse_description-Read options s c) λ (d, s1) r1.
        Ensures-bind (expect_keyword-Read options (codes "enum") s1 r1.clean) λ (u, s2) r2.
          Ensures-bind
            (members_type-Read options (λ (choice : Bool). enum_lexemes) fuel
              (parse_enum_values_definition options fuel)
              (no_choice enum_lexemes (parse_enum_values_definition-Read options fuel)) s2 r2.clean
              (omega (arith, Read-size r1, Read-size r2)))
            λ (t, s3) (choice, r3). returns (choice, Read-append r1 (Read-append r2 r3))

  pub parse_input_object_type_definition-Sound :
      (fuel : ℕ) → SoundDefinition options fuel (parse_input_object_type_definition options fuel)
  unfolding parse_input_object_type_definition definition_lexemes
  parse_input_object_type_definition-Sound fuel s c h =
      Ensures-bind (parse_description-Read options s c) λ (d, s1) r1.
        Ensures-bind (expect_keyword-Read options (codes "input") s1 r1.clean) λ (u, s2) r2.
          Ensures-bind
            (members_type-Read options (λ (choice : Bool). input_lexemes) fuel
              (parse_input_fields_definition options fuel)
              (no_choice input_lexemes (parse_input_fields_definition-Read options fuel)) s2
              r2.clean (omega (arith, Read-size r1, Read-size r2)))
            λ (t, s3) (choice, r3). returns (choice, Read-append r1 (Read-append r2 r3))

  pub parse_directive_definition-Sound :
      (fuel : ℕ) → SoundDefinition options fuel (parse_directive_definition options fuel)
  unfolding parse_directive_definition definition_lexemes directive_definition_lexemes
      is_punctuator_token_kind
  parse_directive_definition-Sound fuel s c h =
      Ensures-bind (parse_description-Read options s c) λ (d, s1) r1.
        Ensures-bind (expect_keyword-Read options (codes "directive") s1 r1.clean) λ (u, s2) r2.
          Ensures-bind (expect_punct-Read options at s2 refl (cc) r2.clean) λ (u', s3) r3.
            Ensures-bind (parse_name-Read options s3 r3.clean) λ (n, s4) r4.
              Ensures-bind
                (parse_argument_defs-Read options fuel s4 r4.clean
                  (omega (arith, Read-size r1, Read-size r2, Read-size r3, Read-size r4)))
                λ (args, s5) r5.
                  Ensures-bind
                    (directives_on_directive-Read options fuel s5 r5.clean (
                      omega (
                        arith,
                        Read-size r1,
                        Read-size r2,
                        Read-size r3,
                        Read-size r4,
                        Read-size r5,
                      )))
                    λ (ds, s6) r6.
                      Ensures-bind
                        (expect_optional_keyword-Read options (codes "repeatable") s6 r6.clean)
                        λ (repeatable, s7) r7.
                          Ensures-bind (expect_keyword-Read options (codes "on") s7 r7.clean)
                            λ (u'', s8) r8.
                              Ensures-bind
                                (parse_directive_locations-Read options fuel s8 r8.clean (
                                  omega (
                                    arith,
                                    Read-size r1,
                                    Read-size r2,
                                    Read-size r3,
                                    Read-size r4,
                                    Read-size r5,
                                    Read-size r6,
                                    Read-size r7,
                                    Read-size r8,
                                  )))
                                λ (ls, s9) (leading, r9). returns (
                                  leading,
                                  Read-append r1 (
                                      Read-append r2 (
                                        Read-append r3 (
                                          Read-append r4 (
                                            Read-append r5 (
                                              Read-append r6
                                                (Read-append r7 (Read-append r8 r9))))))),
                                )
