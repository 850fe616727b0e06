-- ===== src/Parser/Complete.antt =====
-- src/graphql/language/parser.py: parse_type_reference and parse_type on the tokens of a type.
pub mod Lists
pub mod Items
pub mod Kinds
pub mod Values
use graphql_core.Prelude.{
  append-nil, ◌-◌, ◌≤◌, ℕ, zero, suc, ◌+◌, ◌<◌, ◌∙◌, ◌≡◌, refl, sym, ap, subst, append_assoc, Bool,
  true, false, Option, none, some, List, [], ◌∷◌, ◌++◌, arith, length, length-append, if◌then◌else◌,
}
use graphql_core.Errors.{Text, Result, ok, err, ◌>>=◌}
use graphql_core.TokenKind.{
  TokenKind, is_punctuator_token_kind, bang, bracket_l, bracket_r, name, sof, eof,
}
use graphql_core.Ast.{TypeNode, named, list_of, non_null}
use graphql_core.Grammar.{Lexeme, punct, word, lexemes, type_lexemes}
use graphql_core.Parser.State.{
  Options, ParserState, Parser, ◌>>>◌, pure, expect_token, expect_optional_token, parse_name, same,
}
use graphql_core.Parser.Values.{parse_bang, parse_type_reference}
use graphql_core.Lexer.Next.{lex}
use graphql_core.Lexer.Order.{lex-IsOrdered}
use graphql_core.Parser.Document.{enough, start_parser, parse_alone, parse_type}
use graphql_core.Parser.Sound.Ends.{IsOrdered-length}
use graphql_core.Parser.Forward.{
  expect_kind-Runs, expect_eof-Runs, Holds, starts, Runs, Runs-bind, Runs-ok, expect_token-Runs,
  parse_name-Runs, expect_optional_token-Runs, expect_optional_token-stays,
}

-- A type that can be written: no exclamation mark follows another.
abbrev pub IsWrittenType : TypeNode → Type 0
IsWrittenType (named n) = Unit
IsWrittenType (list_of t) = IsWrittenType t
IsWrittenType (non_null (named n)) = Unit
IsWrittenType (non_null (list_of t)) = IsWrittenType t
IsWrittenType (non_null (non_null t)) = ⊥

bracket_r-bang : same bracket_r bang ≡ false
unfolding same mathlib.Core.Bool.decide graphql_core.TokenKind.TokenKind-discrete
bracket_r-bang = refl

in_brackets :
    (xs ys : List Lexeme)
    → ((punct bracket_l ∷ (xs ++ (punct bracket_r ∷ []))) ++ ys)
      ≡ punct bracket_l ∷ (xs ++ (punct bracket_r ∷ ys))
in_brackets xs ys = ap (λ z. punct bracket_l ∷ z) (append_assoc xs (punct bracket_r ∷ []) ys)

module _ (options : Options) (unlimited : options.max_tokens ≡ none) where
  parse_bang-Runs :
      (t : TypeNode) (s : ParserState) (rest : List Lexeme)
      → Holds s.stream (punct bang ∷ rest)
      → Runs (parse_bang options t s) (non_null t) rest
  unfolding parse_bang
  parse_bang-Runs t s rest h =
      Runs-bind _ (expect_optional_token-Runs options unlimited bang s rest h) λ s' h'. Runs-ok h'

  parse_bang-stays :
      (t : TypeNode) (s : ParserState) (rest : List Lexeme)
      → Holds s.stream rest
      → starts bang rest ≡ false
      → Runs (parse_bang options t s) t rest
  unfolding parse_bang is_punctuator_token_kind
  parse_bang-stays t s rest h q =
      Runs-bind _ (expect_optional_token-stays options unlimited bang s rest refl h q)
        λ s' h'. Runs-ok h'

  -- What is behind the name or the bracket, given what the bang makes of it.
  named_then :
      (fuel : ℕ) (n : Text) (t : TypeNode) (s : ParserState) (after rest : List Lexeme)
      → ((s' : ParserState) → Holds s'.stream after → Runs (parse_bang options (named n) s') t rest)
      → Holds s.stream (word name n ∷ after)
      → Runs (parse_type_reference options (suc fuel) s) t rest
  unfolding parse_type_reference is_punctuator_token_kind
  named_then fuel n t s after rest bang_or_not h =
      Runs-bind _ (expect_optional_token-stays options unlimited bracket_l s _ refl h refl) λ s1 h1.
        Runs-bind _ (parse_name-Runs options unlimited n s1 after h1) λ s2 h2. bang_or_not s2 h2

  list_then :
      (fuel : ℕ) (inner t : TypeNode) (s : ParserState) (after rest : List Lexeme)
      → ((s' : ParserState)
          → Holds s'.stream (type_lexemes inner ++ (punct bracket_r ∷ after))
          → Runs (parse_type_reference options fuel s') inner (punct bracket_r ∷ after))
      → ((s' : ParserState)
          → Holds s'.stream after
          → Runs (parse_bang options (list_of inner) s') t rest)
      → Holds s.stream (punct bracket_l ∷ (type_lexemes inner ++ (punct bracket_r ∷ after)))
      → Runs (parse_type_reference options (suc fuel) s) t rest
  unfolding parse_type_reference
  list_then fuel inner t s after rest nested bang_or_not h =
      Runs-bind _ (expect_optional_token-Runs options unlimited bracket_l s _ h) λ s1 h1.
        Runs-bind _ (nested s1 h1) λ s2 h2.
          Runs-bind _ (expect_token-Runs options unlimited bracket_r s2 after h2)
            λ s3 h3. bang_or_not s3 h3

  -- Where the tokens that are left are those of a type that can be written, and no exclamation mark
  -- is behind them, the parser returns that type and stops behind it. There is no limit on tokens,
  -- and fuel for as many.
  pub parse_type_reference-type_lexemes :
      (fuel : ℕ) (t : TypeNode) (s : ParserState) (rest : List Lexeme)
      → IsWrittenType t
      → length (type_lexemes t) < fuel
      → Holds s.stream (type_lexemes t ++ rest)
      → starts bang rest ≡ false
      → Runs (parse_type_reference options fuel s) t rest
  unfolding type_lexemes
  parse_type_reference-type_lexemes zero t s rest w f h q = absurd (omega arith)
  parse_type_reference-type_lexemes (suc fuel) (named n) s rest w f h q =
      named_then fuel n (named n) s rest rest (λ s' h'. parse_bang-stays (named n) s' rest h' q) h
  parse_type_reference-type_lexemes (suc fuel) (non_null (named n)) s rest w f h q =
      named_then fuel n (non_null (named n)) s (punct bang ∷ rest) rest
        (λ s' h'. parse_bang-Runs (named n) s' rest h') h
  parse_type_reference-type_lexemes (suc fuel) (list_of t) s rest w f h q =
      list_then fuel t (list_of t) s rest rest
        (λ s' h'.
          parse_type_reference-type_lexemes fuel t s' _ w
            (omega (arith, length-append (type_lexemes t) (punct bracket_r ∷ []))) h'
            bracket_r-bang)
        (λ s' h'. parse_bang-stays (list_of t) s' rest h' q)
        (h.0, h.1 ∙ in_brackets (type_lexemes t) rest)
  parse_type_reference-type_lexemes (suc fuel) (non_null (list_of t)) s rest w f h q =
      list_then fuel t (non_null (list_of t)) s (punct bang ∷ rest) rest
        (λ s' h'.
          parse_type_reference-type_lexemes fuel t s' _ w
            (omega (
              arith,
              length-append (type_lexemes t) (punct bracket_r ∷ []),
              length-append (type_lexemes t ++ (punct bracket_r ∷ [])) (punct bang ∷ []),
            ))
            h' bracket_r-bang)
        (λ s' h'. parse_bang-Runs (list_of t) s' rest h')
        (
          h.0,
          h.1
              ∙ append_assoc (punct bracket_l ∷ (type_lexemes t ++ (punct bracket_r ∷ [])))
                  (punct bang ∷ []) rest
              ∙ in_brackets (type_lexemes t) (punct bang ∷ rest),
        )
  parse_type_reference-type_lexemes (suc fuel) (non_null (non_null t)) s rest w f h q = absurd w

  pub alone-Runs :
      {A : Type 0} (parse_fn : Parser A) (f : A → List Lexeme) (a : A) (body : Text)
      → ((s : ParserState) → Holds s.stream (f a) → Runs (parse_fn s) a [])
      → Holds (lex body) (f a)
      → parse_alone options parse_fn body ≡ ok a
  unfolding parse_alone start_parser is_punctuator_token_kind
  alone-Runs parse_fn f a body runs h = ap (λ r. r >>= λ (node, s). ok node) sequence.gives
    where
      sequence :
          Runs
            ((expect_token options sof >>> λ _.
                parse_fn >>> λ node. expect_token options eof >>> λ _. pure node)
              (start_parser options body))
            a
            []
      sequence =
          Runs-bind _
            (expect_kind-Runs options unlimited sof (start_parser options body) (word sof []) (f a)
              refl (h.0, ap (λ ls. word sof [] ∷ ls) h.1))
            λ s1 h1.
              Runs-bind _ (runs s1 h1)
                λ s2 h2. Runs-bind _ (expect_eof-Runs options unlimited s2 h2) λ s3 h3. Runs-ok h3

  -- Without a limit on tokens, a text whose tokens are those of a type that can be written, and which
  -- the lexer reads to its end, is parsed by parse_type, and the result is that type.
  pub parse_type-type_lexemes :
      (body : Text) (t : TypeNode)
      → IsWrittenType t
      → Holds (lex body) (type_lexemes t)
      → parse_type options body ≡ ok t
  unfolding parse_type
  parse_type-type_lexemes body t w h =
      alone-Runs (parse_type_reference options (enough options body)) type_lexemes t body
        (λ s h'.
          parse_type_reference-type_lexemes (enough options body) t s [] w fuelled
            (h'.0, h'.1 ∙ sym (append-nil _)) refl)
        h
    where
      fuelled : length (type_lexemes t) < enough options body
      fuelled =
          omega
            (arith, ap length h.1, IsOrdered-length (length body) 0 (lex body) (lex-IsOrdered body))
