-- ===== src/Grammar.antt =====
-- The tokens that each node of the AST stands for: the grammar of the language, as a function from
-- the nodes. It is written from the productions in the parser's docstrings, not from its code.
pub mod Executable
pub mod TypeSystem
use graphql_core.Prelude.{ℕ, Bool, true, false, Option, none, some, List, [], ◌∷◌, ◌++◌}
use graphql_core.Errors.{Text}
use graphql_core.Text.{codes}
use graphql_core.TokenKind.{
  TokenKind, is_punctuator_token_kind, name, int, float, string, block_string, dollar, colon, at,
  bang, bracket_l, bracket_r, brace_l, brace_r, paren_l, paren_r,
}
use graphql_core.Lexer.Token.{Token}
use graphql_core.Lexer.Next.{Stream, last, fault, token}
use graphql_core.Ast.{
  Value, Values, ObjectFields, variable, enum, boolean, null, list, object, no_values, value,
  no_fields, object_field, TypeNode, named, list_of, non_null, Argument, Directive, Directives,
}

-- A token without its place: the value of a punctuator is left out.
pub data Lexeme : Type 0 where
  punct : TokenKind → Lexeme
  word : TokenKind → Text → Lexeme

abbrev pub lexeme_of : Bool → TokenKind → Text → Lexeme
lexeme_of true kind text = punct kind
lexeme_of false kind text = word kind text

abbrev pub lexeme : Token → Lexeme
lexeme t =
    lexeme_of (is_punctuator_token_kind t.kind) t.kind (elim t.value [ none ↦ [] | some v ↦ v ])

-- The tokens up to EOF, or to the point where the lexer fails.
abbrev pub lexemes : Stream → List Lexeme
lexemes (token t more) = lexeme t ∷ lexemes more
lexemes (last t) = []
lexemes (fault e) = []

unfoldable mutual
  pub value_lexemes : Value → List Lexeme
  value_lexemes (variable n) = punct dollar ∷ word name n ∷ []
  value_lexemes (Value.int t) = word int t ∷ []
  value_lexemes (Value.float t) = word float t ∷ []
  value_lexemes (Value.string t false) = word string t ∷ []
  value_lexemes (Value.string t true) = word block_string t ∷ []
  value_lexemes (boolean true) = word name (codes "true") ∷ []
  value_lexemes (boolean false) = word name (codes "false") ∷ []
  value_lexemes null = word name (codes "null") ∷ []
  value_lexemes (enum n) = word name n ∷ []
  value_lexemes (list vs) = punct bracket_l ∷ (values_lexemes vs ++ punct bracket_r ∷ [])
  value_lexemes (object fs) = punct brace_l ∷ (fields_lexemes fs ++ punct brace_r ∷ [])

  pub values_lexemes : Values → List Lexeme
  values_lexemes no_values = []
  values_lexemes (value v vs) = value_lexemes v ++ values_lexemes vs

  pub fields_lexemes : ObjectFields → List Lexeme
  fields_lexemes no_fields = []
  fields_lexemes (object_field n v fs) =
      (word name n ∷ punct colon ∷ value_lexemes v) ++ fields_lexemes fs

abbrev pub concat {ℓ} : {A : Type ℓ} → (A → List Lexeme) → List A → List Lexeme
concat f [] = []
concat f (x ∷ xs) = f x ++ concat f xs

abbrev pub optional {ℓ} : {A : Type ℓ} → (A → List Lexeme) → Option A → List Lexeme
optional f none = []
optional f (some x) = f x

-- The items of a tuple that is not empty, in brackets.
abbrev pub bracketed {ℓ} :
    {A : Type ℓ} → TokenKind → (A → List Lexeme) → TokenKind → List A → List Lexeme
bracketed open_kind f close_kind xs = punct open_kind ∷ (concat f xs ++ punct close_kind ∷ [])

-- A tuple that may be None. The parser returns an empty one only where nothing is written.
abbrev pub optional_items {ℓ} :
    {A : Type ℓ} → TokenKind → (A → List Lexeme) → TokenKind → Option (List A) → List Lexeme
optional_items open_kind f close_kind (some (x ∷ xs)) = bracketed open_kind f close_kind (x ∷ xs)
optional_items open_kind f close_kind _ = []

unfoldable pub argument_lexemes : Argument → List Lexeme
argument_lexemes a = word name a.name ∷ punct colon ∷ value_lexemes a.value

abbrev pub arguments_lexemes : Option (List Argument) → List Lexeme
arguments_lexemes = optional_items paren_l argument_lexemes paren_r

unfoldable pub directive_lexemes : Directive → List Lexeme
directive_lexemes d = punct at ∷ word name d.name ∷ arguments_lexemes d.arguments

abbrev pub directives_lexemes : Directives → List Lexeme
directives_lexemes = optional (concat directive_lexemes)

unfoldable pub type_lexemes : TypeNode → List Lexeme
type_lexemes (named n) = word name n ∷ []
type_lexemes (list_of t) = punct bracket_l ∷ (type_lexemes t ++ punct bracket_r ∷ [])
type_lexemes (non_null t) = type_lexemes t ++ punct bang ∷ []
