-- ===== src/Parser/Complete/Values.antt =====
-- src/graphql/language/parser.py: parse_value_literal and parse_value on the tokens of a value.
use graphql_core.Prelude.{
  ℕ, zero, suc, ◌<◌, ◌≡◌, refl, sym, ap, ◌∙◌, append_assoc, append-nil, true, false, none, List, [],
  ◌∷◌, ◌++◌, arith, length, length-append,
}
use graphql_core.Errors.{Text, ok}
use graphql_core.Text.{codes, same_text}
use graphql_core.TokenKind.{
  bracket_l, bracket_r, brace_l, brace_r, int, float, string, block_string, dollar,
}
use graphql_core.Ast.{Value}
use graphql_core.Lexer.Next.{lex}
use graphql_core.Lexer.Order.{lex-IsOrdered}
use graphql_core.Grammar.{Lexeme, punct, value_lexemes, values_lexemes, fields_lexemes}
use graphql_core.Parser.State.{Options, ParserState}
use graphql_core.Parser.Values.{named_value, value_by_kind, parse_value_literal}
use graphql_core.Parser.Document.{enough, parse_value}
use graphql_core.Parser.Sound.Ends.{IsOrdered-length}
use graphql_core.Parser.Forward.{Holds, Runs}
use graphql_core.Parser.Complete.{alone-Runs}
use graphql_core.Parser.Complete.Items.{IsWritten, named_value-enum}
use graphql_core.Parser.Complete.Kinds.{
  take_token-Runs, word_value, punct_value, name_value, list_value, object_value, variable_value,
}

module _ (options : Options) (unlimited : options.max_tokens ≡ none) where
  -- The closing token is behind the items.
  behind :
      (l r : Lexeme) (xs ys : List Lexeme) → ((l ∷ (xs ++ (r ∷ []))) ++ ys) ≡ l ∷ (xs ++ (r ∷ ys))
  behind l r xs ys = ap (λ z. l ∷ z) (append_assoc xs (r ∷ []) ys)

  -- Where the tokens that are left begin with those of a value that can be written, the parser returns
  -- that value and stops behind it. There is no limit on tokens, and fuel for as many.
  pub parse_value_literal-value_lexemes :
      (fuel : ℕ) (v : Value) (s : ParserState) (rest : List Lexeme)
      → IsWritten v
      → length (value_lexemes v) < fuel
      → Holds s.stream (value_lexemes v ++ rest)
      → Runs (parse_value_literal options fuel false s) v rest
  unfolding value_lexemes IsWritten value_by_kind named_value same_text
  parse_value_literal-value_lexemes zero v s rest w k h = absurd (omega arith)
  parse_value_literal-value_lexemes (suc fuel) (Value.variable n) s rest w k h =
      punct_value options unlimited fuel dollar (Value.variable n) s _ rest
        (λ s h. variable_value options unlimited fuel n s rest h) h
  parse_value_literal-value_lexemes (suc fuel) (Value.int t) s rest w k h =
      word_value options unlimited fuel int t (Value.int t) s rest
        (λ s h. take_token-Runs options unlimited int t Value.int s rest h) h
  parse_value_literal-value_lexemes (suc fuel) (Value.float t) s rest w k h =
      word_value options unlimited fuel float t (Value.float t) s rest
        (λ s h. take_token-Runs options unlimited float t Value.float s rest h) h
  parse_value_literal-value_lexemes (suc fuel) (Value.string t false) s rest w k h =
      word_value options unlimited fuel string t (Value.string t false) s rest
        (λ s h. take_token-Runs options unlimited string t (λ v. Value.string v false) s rest h) h
  parse_value_literal-value_lexemes (suc fuel) (Value.string t true) s rest w k h =
      word_value options unlimited fuel block_string t (Value.string t true) s rest
        (λ s h.
          take_token-Runs options unlimited block_string t (λ v. Value.string v true) s rest h)
        h
  parse_value_literal-value_lexemes (suc fuel) (Value.boolean true) s rest w k h =
      name_value options unlimited fuel (codes "true") (Value.boolean true) s rest refl h
  parse_value_literal-value_lexemes (suc fuel) (Value.boolean false) s rest w k h =
      name_value options unlimited fuel (codes "false") (Value.boolean false) s rest refl h
  parse_value_literal-value_lexemes (suc fuel) Value.null s rest w k h =
      name_value options unlimited fuel (codes "null") Value.null s rest refl h
  parse_value_literal-value_lexemes (suc fuel) (Value.enum n) s rest w k h =
      name_value options unlimited fuel n (Value.enum n) s rest (named_value-enum n w) h
  parse_value_literal-value_lexemes (suc fuel) (Value.list vs) s rest w k h =
      punct_value options unlimited fuel bracket_l (Value.list vs) s _ rest
        (λ s h.
          list_value options unlimited fuel
            (λ v s rest w k h. parse_value_literal-value_lexemes fuel v s rest w k h) vs s rest w
            (omega (arith, length-append (values_lexemes vs) (punct bracket_r ∷ []))) h)
        (h.0, h.1 ∙ behind (punct bracket_l) (punct bracket_r) (values_lexemes vs) rest)
  parse_value_literal-value_lexemes (suc fuel) (Value.object fs) s rest w k h =
      punct_value options unlimited fuel brace_l (Value.object fs) s _ rest
        (λ s h.
          object_value options unlimited fuel
            (λ v s rest w k h. parse_value_literal-value_lexemes fuel v s rest w k h) fs s rest w
            (omega (arith, length-append (fields_lexemes fs) (punct brace_r ∷ []))) h)
        (h.0, h.1 ∙ behind (punct brace_l) (punct brace_r) (fields_lexemes fs) rest)

  -- Without a limit on tokens, a text whose tokens are those of a value that can be written, and which
  -- the lexer reads to its end, is parsed by parse_value, and the result is that value.
  pub parse_value-value_lexemes :
      (body : Text) (v : Value)
      → IsWritten v
      → Holds (lex body) (value_lexemes v)
      → parse_value options body ≡ ok v
  unfolding parse_value
  parse_value-value_lexemes body v w h =
      alone-Runs options unlimited (parse_value_literal options (enough options body) false)
        value_lexemes v body
        (λ s h'.
          parse_value_literal-value_lexemes (enough options body) v s [] w fuelled
            (h'.0, h'.1 ∙ sym (append-nil _)))
        h
    where
      fuelled : length (value_lexemes v) < enough options body
      fuelled =
          omega
            (arith, ap length h.1, IsOrdered-length (length body) 0 (lex body) (lex-IsOrdered body))
