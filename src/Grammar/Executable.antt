-- ===== src/Grammar/Executable.antt =====
-- The tokens of selections, operations and fragments.
use graphql_core.Prelude.{Bool, true, false, Option, none, List, [], ◌∷◌, ◌++◌}
use graphql_core.Errors.{Text}
use graphql_core.Text.{codes}
use graphql_core.TokenKind.{name, colon, spread, brace_l, brace_r, paren_l, paren_r, dollar, equals}
use graphql_core.Ast.{
  Value, Directives, Selection, MaybeSelections, Selections, field, fragment_spread,
  inline_fragment, no_selection_set, selection_set, no_selections, selection, VariableDefinition,
  OperationType, query, mutation, subscription, OperationDefinition, FragmentDefinition,
}
use graphql_core.Grammar.{
  Lexeme, punct, word, optional, optional_items, value_lexemes, type_lexemes, arguments_lexemes,
  directives_lexemes,
}

abbrev pub keyword : Text → List Lexeme
keyword t = word name t ∷ []

abbrev pub alias_lexemes : Option Text → List Lexeme
alias_lexemes = optional (λ a. word name a ∷ punct colon ∷ [])

abbrev pub condition_lexemes : Option Text → List Lexeme
condition_lexemes = optional (λ t. word name (codes "on") ∷ word name t ∷ [])

unfoldable mutual
  pub selection_lexemes : Selection → List Lexeme
  selection_lexemes (field alias n args directives xs) =
      alias_lexemes alias
      ++ (word name n
          ∷ (arguments_lexemes args ++ (directives_lexemes directives ++ maybe_lexemes xs)))
  selection_lexemes (fragment_spread n args directives) =
      punct spread ∷ word name n ∷ (arguments_lexemes args ++ directives_lexemes directives)
  selection_lexemes (inline_fragment condition directives xs) =
      punct spread
      ∷ (condition_lexemes condition
          ++ (directives_lexemes directives
              ++ (punct brace_l ∷ (selections_lexemes xs ++ punct brace_r ∷ []))))

  pub maybe_lexemes : MaybeSelections → List Lexeme
  maybe_lexemes no_selection_set = []
  maybe_lexemes (selection_set xs) = punct brace_l ∷ (selections_lexemes xs ++ punct brace_r ∷ [])

  -- The selections one after the other, without the braces.
  pub selections_lexemes : Selections → List Lexeme
  selections_lexemes no_selections = []
  selections_lexemes (selection x xs) = selection_lexemes x ++ selections_lexemes xs

-- A selection set: the selections in braces.
abbrev pub set_lexemes : Selections → List Lexeme
set_lexemes xs = punct brace_l ∷ (selections_lexemes xs ++ punct brace_r ∷ [])

abbrev pub description_lexemes : Option Value → List Lexeme
description_lexemes = optional value_lexemes

unfoldable pub variable_definition_lexemes : VariableDefinition → List Lexeme
variable_definition_lexemes d =
    description_lexemes d.description
    ++ (punct dollar
        ∷ word name d.variable
        ∷ punct colon
        ∷ (type_lexemes d.type
            ++ (optional (λ v. punct equals ∷ value_lexemes v) d.default_value
                ++ directives_lexemes d.directives)))

-- No variables may be `None` or, in a fragment, an empty tuple.
abbrev pub variables_lexemes : Option (List VariableDefinition) → List Lexeme
variables_lexemes = optional_items paren_l variable_definition_lexemes paren_r

abbrev pub operation_word : OperationType → Text
operation_word query = codes "query"
operation_word mutation = codes "mutation"
operation_word subscription = codes "subscription"

unfoldable pub operation_lexemes : OperationDefinition → List Lexeme
operation_lexemes d =
    description_lexemes d.description
    ++ (word name (operation_word d.operation)
        ∷ (optional keyword d.name
            ++ (variables_lexemes d.variable_definitions
                ++ (directives_lexemes d.directives ++ set_lexemes d.selection_set))))

abbrev bare :
    OperationType
    → Option Value
    → Option Text
    → Option (List VariableDefinition)
    → Directives
    → Bool
bare query none none none none = true
bare _ _ _ _ _ = false

-- An anonymous query with nothing but a selection set may be written as that alone.
abbrev pub has_shorthand : OperationDefinition → Bool
has_shorthand d = bare d.operation d.description d.name d.variable_definitions d.directives

unfoldable pub fragment_lexemes : FragmentDefinition → List Lexeme
fragment_lexemes d =
    description_lexemes d.description
    ++ (word name (codes "fragment")
        ∷ word name d.name
        ∷ (variables_lexemes d.variable_definitions
            ++ (word name (codes "on")
                ∷ word name d.type_condition
                ∷ (directives_lexemes d.directives ++ set_lexemes d.selection_set))))
