-- ===== src/Grammar/TypeSystem.antt =====
-- The tokens of type system definitions and extensions, and of whole documents. Where the grammar
-- leaves a choice that the node does not record, a Boolean makes it: an operation in its shorthand
-- form, and a delimiter before the first item of a delimited list.
use graphql_core.Prelude.{Bool, ◌&&◌, Option, List, [], ◌∷◌, ◌++◌, if◌then◌else◌}
use graphql_core.Errors.{Text}
use graphql_core.Text.{codes}
use graphql_core.TokenKind.{
  TokenKind, name, colon, brace_l, brace_r, paren_l, paren_r, equals, amp, pipe, at,
}
use graphql_core.Ast.{
  Value, OperationTypeDefinition, InputValueDefinition, FieldDefinition, EnumValueDefinition,
  FieldsType, MembersType, DirectiveDefinition, Definition, operation_definition,
  fragment_definition, schema_definition, scalar_type_definition, object_type_definition,
  interface_type_definition, union_type_definition, enum_type_definition,
  input_object_type_definition, directive_definition, schema_extension, scalar_type_extension,
  directive_extension, object_type_extension, interface_type_extension, union_type_extension,
  enum_type_extension, input_object_type_extension,
}
use graphql_core.Grammar.{
  Lexeme, punct, word, optional, bracketed, optional_items, value_lexemes, type_lexemes,
  directives_lexemes,
}
use graphql_core.Grammar.Executable.{
  keyword, description_lexemes, operation_word, operation_lexemes, fragment_lexemes, set_lexemes,
  has_shorthand,
}

abbrev pub separated {ℓ} : {A : Type ℓ} → TokenKind → (A → List Lexeme) → List A → List Lexeme
separated delimiter f [] = []
separated delimiter f (x ∷ []) = f x
separated delimiter f (x ∷ y ∷ xs) = f x ++ (punct delimiter ∷ separated delimiter f (y ∷ xs))

abbrev pub delimited {ℓ} :
    {A : Type ℓ} → Bool → TokenKind → (A → List Lexeme) → List A → List Lexeme
delimited leading delimiter f xs =
    (if leading then punct delimiter ∷ [] else []) ++ separated delimiter f xs

unfoldable pub operation_type_lexemes : OperationTypeDefinition → List Lexeme
operation_type_lexemes t =
    word name (operation_word t.operation) ∷ punct colon ∷ word name t.type ∷ []

abbrev pub default_lexemes : Option Value → List Lexeme
default_lexemes = optional (λ v. punct equals ∷ value_lexemes v)

unfoldable pub input_value_lexemes : InputValueDefinition → List Lexeme
input_value_lexemes d =
    description_lexemes d.description
    ++ (word name d.name
        ∷ punct colon
        ∷ (type_lexemes d.type
            ++ (default_lexemes d.default_value ++ directives_lexemes d.directives)))

abbrev pub argument_defs_lexemes : Option (List InputValueDefinition) → List Lexeme
argument_defs_lexemes = optional_items paren_l input_value_lexemes paren_r

unfoldable pub field_definition_lexemes : FieldDefinition → List Lexeme
field_definition_lexemes d =
    description_lexemes d.description
    ++ (word name d.name
        ∷ (argument_defs_lexemes d.arguments
            ++ (punct colon ∷ (type_lexemes d.type ++ directives_lexemes d.directives))))

unfoldable pub enum_value_lexemes : EnumValueDefinition → List Lexeme
enum_value_lexemes d =
    description_lexemes d.description ++ (word name d.name ∷ directives_lexemes d.directives)

abbrev pub interfaces_lexemes : Bool → Option (List Text) → List Lexeme
interfaces_lexemes leading =
    optional (λ ts. word name (codes "implements") ∷ delimited leading amp keyword ts)

unfoldable pub fields_type_lexemes : Bool → FieldsType → List Lexeme
fields_type_lexemes leading t =
    word name t.name
    ∷ (interfaces_lexemes leading t.interfaces
        ++ (directives_lexemes t.directives
            ++ optional_items brace_l field_definition_lexemes brace_r t.fields))

abbrev pub members_type_lexemes :
    {A : Type 0} → (Option (List A) → List Lexeme) → MembersType A → List Lexeme
members_type_lexemes members_lexemes t =
    word name t.name ∷ (directives_lexemes t.directives ++ members_lexemes t.members)

abbrev pub union_lexemes : Bool → Option (List Text) → List Lexeme
union_lexemes leading = optional (λ ts. punct equals ∷ delimited leading pipe keyword ts)

abbrev pub enum_lexemes : Option (List EnumValueDefinition) → List Lexeme
enum_lexemes = optional_items brace_l enum_value_lexemes brace_r

abbrev pub input_lexemes : Option (List InputValueDefinition) → List Lexeme
input_lexemes = optional_items brace_l input_value_lexemes brace_r

unfoldable pub directive_definition_lexemes : Bool → DirectiveDefinition → List Lexeme
directive_definition_lexemes leading d =
    description_lexemes d.description
    ++ (word name (codes "directive")
        ∷ punct at
        ∷ word name d.name
        ∷ (argument_defs_lexemes d.arguments
            ++ (directives_lexemes d.directives
                ++ ((if d.repeatable then keyword (codes "repeatable") else [])
                    ++ (word name (codes "on") ∷ delimited leading pipe keyword d.locations)))))

abbrev described : Option Value → Text → List Lexeme → List Lexeme
described d t rest = description_lexemes d ++ (word name t ∷ rest)

abbrev extended : Text → List Lexeme → List Lexeme
extended t rest = word name (codes "extend") ∷ word name t ∷ rest

unfoldable pub definition_lexemes : Bool → Definition → List Lexeme
definition_lexemes choice (operation_definition d) =
    if choice && has_shorthand d then set_lexemes d.selection_set else operation_lexemes d
definition_lexemes choice (fragment_definition d) = fragment_lexemes d
definition_lexemes choice (schema_definition d ds ts) =
    described d (codes "schema")
      (directives_lexemes ds ++ bracketed brace_l operation_type_lexemes brace_r ts)
definition_lexemes choice (scalar_type_definition d n ds) =
    described d (codes "scalar") (word name n ∷ directives_lexemes ds)
definition_lexemes choice (object_type_definition d t) =
    described d (codes "type") (fields_type_lexemes choice t)
definition_lexemes choice (interface_type_definition d t) =
    described d (codes "interface") (fields_type_lexemes choice t)
definition_lexemes choice (union_type_definition d t) =
    described d (codes "union") (members_type_lexemes (union_lexemes choice) t)
definition_lexemes choice (enum_type_definition d t) =
    described d (codes "enum") (members_type_lexemes enum_lexemes t)
definition_lexemes choice (input_object_type_definition d t) =
    described d (codes "input") (members_type_lexemes input_lexemes t)
definition_lexemes choice (directive_definition d) = directive_definition_lexemes choice d
definition_lexemes choice (schema_extension ds ts) =
    extended (codes "schema")
      (directives_lexemes ds ++ optional_items brace_l operation_type_lexemes brace_r ts)
definition_lexemes choice (scalar_type_extension n ds) =
    extended (codes "scalar") (word name n ∷ directives_lexemes ds)
definition_lexemes choice (directive_extension n ds) =
    extended (codes "directive") (punct at ∷ word name n ∷ directives_lexemes ds)
definition_lexemes choice (object_type_extension t) =
    extended (codes "type") (fields_type_lexemes choice t)
definition_lexemes choice (interface_type_extension t) =
    extended (codes "interface") (fields_type_lexemes choice t)
definition_lexemes choice (union_type_extension t) =
    extended (codes "union") (members_type_lexemes (union_lexemes choice) t)
definition_lexemes choice (enum_type_extension t) =
    extended (codes "enum") (members_type_lexemes enum_lexemes t)
definition_lexemes choice (input_object_type_extension t) =
    extended (codes "input") (members_type_lexemes input_lexemes t)

-- The definitions of a document, one after the other, each with a choice of its own.
pub data Spells : List Definition → List Lexeme → Type 0 where
  no_more : Spells [] []
  definition :
      (choice : Bool) (d : Definition) {ds : List Definition} {rest : List Lexeme}
      → Spells ds rest
      → Spells (d ∷ ds) (definition_lexemes choice d ++ rest)
