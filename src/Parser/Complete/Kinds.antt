-- ===== src/Parser/Complete/Kinds.antt =====
-- The dispatch of parse_value_literal on each kind of token, for tokens that are known.
use graphql_core.Prelude.{
  ℕ, suc, ◌<◌, ◌≡◌, refl, sym, subst, false, none, List, ◌∷◌, ◌++◌, arith, length,
}
use graphql_core.Errors.{Text}
use graphql_core.TokenKind.{
  TokenKind, is_punctuator_token_kind, bracket_l, bracket_r, brace_l, brace_r, name, dollar, colon,
}
use graphql_core.Ast.{Value, Values, ObjectFields}
use graphql_core.Grammar.{Lexeme, punct, word, value_lexemes, values_lexemes, fields_lexemes}
use graphql_core.Parser.State.{Options, ParserState, ◌>>>◌, pure, text_of, advance_lexer}
use graphql_core.Parser.Values.{
  named_value, take_token, parse_variable, parse_variable_value, parse_object_field, value_by_kind,
  parse_value_literal,
}
use graphql_core.Parser.Forward.{
  Holds, Runs, Runs-bind, Runs-ok, kind_of-punct, kind_of-word, advance_lexer-Runs,
  expect_token-Runs, parse_name-Runs,
}
use graphql_core.Parser.Complete.Lists.{any-Runs}
use graphql_core.Parser.Complete.Items.{
  IsWritten, AreWritten, HasWrittenFields, items, fields, field_lexemes, to_values-items,
  to_fields-fields, concat-items, concat-fields, All-items, All-fields, value_lexemes-starts,
  length-value_lexemes_pos,
}

module _ (options : Options) (unlimited : options.max_tokens ≡ none) where
  -- One token makes the value.
  pub take_token-Runs :
      (k : TokenKind) (t : Text) (make : Text → Value) (s : ParserState) (rest : List Lexeme)
      → Holds s.stream (word k t ∷ rest)
      → Runs (take_token options make s) (make t) rest
  unfolding take_token
  take_token-Runs k t make s rest h =
      subst
        (λ u.
          Runs ((advance_lexer options >>> λ _. pure (make (text_of s.stream))) s) (make u) rest)
        (kind_of-word s.stream k t rest h).1
        (Runs-bind _ (advance_lexer-Runs options unlimited s (word k t) rest h) λ s' h'. Runs-ok h')

  module _ (fuel : ℕ) where
    -- The dispatch on a word, for what the kind makes of it.
    pub word_value :
        (k : TokenKind) (t : Text) (v : Value) (s : ParserState) (rest : List Lexeme)
        → ((s : ParserState)
            → Holds s.stream (word k t ∷ rest)
            → Runs
                (value_by_kind options fuel false (parse_value_literal options fuel false) k s)
                v
                rest)
        → Holds s.stream (word k t ∷ rest)
        → Runs (parse_value_literal options (suc fuel) false s) v rest
    unfolding parse_value_literal
    word_value k t v s rest run h =
        subst
          (λ k.
            Runs (value_by_kind options fuel false (parse_value_literal options fuel false) k s) v
              rest)
          (sym (kind_of-word s.stream k t rest h).0) (run s h)

    pub punct_value :
        (k : TokenKind) (v : Value) (s : ParserState) (after rest : List Lexeme)
        → ((s : ParserState)
            → Holds s.stream (punct k ∷ after)
            → Runs
                (value_by_kind options fuel false (parse_value_literal options fuel false) k s)
                v
                rest)
        → Holds s.stream (punct k ∷ after)
        → Runs (parse_value_literal options (suc fuel) false s) v rest
    unfolding parse_value_literal
    punct_value k v s after rest run h =
        subst
          (λ k.
            Runs (value_by_kind options fuel false (parse_value_literal options fuel false) k s) v
              rest)
          (sym (kind_of-punct s.stream k after h)) (run s h)

    pub name_value :
        (n : Text) (v : Value) (s : ParserState) (rest : List Lexeme)
        → named_value n ≡ v
        → Holds s.stream (word name n ∷ rest)
        → Runs (parse_value_literal options (suc fuel) false s) v rest
    unfolding value_by_kind
    name_value n v s rest e h =
        word_value name n v s rest
          (λ s h.
            subst (λ v. Runs (take_token options named_value s) v rest) e
              (take_token-Runs name n named_value s rest h))
          h

    module _
        (nested : (v : Value) (s : ParserState) (rest : List Lexeme)
          → IsWritten v
          → length (value_lexemes v) < fuel
          → Holds s.stream (value_lexemes v ++ rest)
          → Runs (parse_value_literal options fuel false s) v rest) where
      pub list_value :
          (vs : Values) (s : ParserState) (rest : List Lexeme)
          → AreWritten vs
          → length (values_lexemes vs) < fuel
          → Holds s.stream (punct bracket_l ∷ (values_lexemes vs ++ (punct bracket_r ∷ rest)))
          → Runs
              (value_by_kind options fuel false
                (parse_value_literal options fuel false)
                bracket_l
                s)
              (Value.list vs)
              rest
      unfolding value_by_kind is_punctuator_token_kind
      list_value vs s rest w k h =
          subst
            (λ vs.
              Runs
                (value_by_kind options fuel false (parse_value_literal options fuel false) bracket_l
                  s)
                (Value.list vs) rest)
            (to_values-items vs)
            (Runs-bind _
              (any-Runs options unlimited value_lexemes IsWritten
                (parse_value_literal options fuel false) fuel nested bracket_r refl
                value_lexemes-starts length-value_lexemes_pos fuel bracket_l (items vs) s rest
                (All-items vs w) (rw concat-items at k) (rw concat-items at k)
                (subst (λ ls. Holds s.stream (punct bracket_l ∷ (ls ++ (punct bracket_r ∷ rest))))
                  (concat-items vs) h))
              λ s' h'. Runs-ok h')

      field_item :
          (f : Text × Value) (s : ParserState) (rest : List Lexeme)
          → IsWritten f.1
          → length (field_lexemes f) < fuel
          → Holds s.stream (field_lexemes f ++ rest)
          → Runs (parse_object_field options (parse_value_literal options fuel false) s) f rest
      unfolding parse_object_field
      field_item (n, v) s rest w k h =
          Runs-bind _ (parse_name-Runs options unlimited n s _ h) λ s1 h1.
            Runs-bind _ (expect_token-Runs options unlimited colon s1 _ h1)
              λ s2 h2. Runs-bind _ (nested v s2 rest w (omega arith) h2) λ s3 h3. Runs-ok h3

      pub object_value :
          (fs : ObjectFields) (s : ParserState) (rest : List Lexeme)
          → HasWrittenFields fs
          → length (fields_lexemes fs) < fuel
          → Holds s.stream (punct brace_l ∷ (fields_lexemes fs ++ (punct brace_r ∷ rest)))
          → Runs
              (value_by_kind options fuel false (parse_value_literal options fuel false) brace_l s)
              (Value.object fs)
              rest
      unfolding value_by_kind is_punctuator_token_kind
      object_value fs s rest w k h =
          subst
            (λ fs.
              Runs
                (value_by_kind options fuel false (parse_value_literal options fuel false) brace_l
                  s)
                (Value.object fs) rest)
            (to_fields-fields fs)
            (Runs-bind _
              (any-Runs options unlimited field_lexemes (λ f. IsWritten f.1)
                (parse_object_field options (parse_value_literal options fuel false)) fuel
                field_item brace_r refl (λ f rest. refl) (λ f. omega arith) fuel brace_l (fields fs)
                s rest (All-fields fs w) (rw concat-fields at k) (rw concat-fields at k)
                (subst (λ ls. Holds s.stream (punct brace_l ∷ (ls ++ (punct brace_r ∷ rest))))
                  (concat-fields fs) h))
              λ s' h'. Runs-ok h')

    pub variable_value :
        (n : Text) (s : ParserState) (rest : List Lexeme)
        → Holds s.stream (punct dollar ∷ word name n ∷ rest)
        → Runs
            (value_by_kind options fuel false (parse_value_literal options fuel false) dollar s)
            (Value.variable n)
            rest
    unfolding value_by_kind parse_variable_value parse_variable
    variable_value n s rest h =
        Runs-bind _
          (Runs-bind _ (expect_token-Runs options unlimited dollar s _ h)
            λ s1 h1. parse_name-Runs options unlimited n s1 rest h1)
          λ s2 h2. Runs-ok h2
