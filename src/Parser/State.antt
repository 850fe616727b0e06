-- ===== src/Parser/State.antt =====
-- The state of a Parser, and its "core parsing utility functions" that look at one token.
use mathlib.Core.Bool.{decide, decide_iff}
use graphql_core.Prelude.{
  refl, ℕ, ◌+◌, ◌≡◌, Bool, true, false, ◌&&◌, Option, none, some, [], ltb, if◌then◌else◌,
}
use graphql_core.Errors.{
  Text, Result, ok, err, ◌>>=◌, syntax_error, expected_token, expected_keyword, unexpected_token,
  too_many_tokens,
}
use graphql_core.Text.{same_text}
use graphql_core.TokenKind.{TokenKind, TokenKind-discrete, eof, name}
use graphql_core.Lexer.Next.{Stream, last, fault, token}

-- The options of a Parser.
pub record Options : Type 0 where
  pub max_tokens : Option ℕ
  pub experimental_fragment_arguments : Bool
  pub experimental_directives_on_directive_definitions : Bool

-- The stream begins with the current token. At `last` that token is EOF, and stays.
pub record ParserState : Type 0 where
  pub stream : Stream
  pub token_counter : ℕ

abbrev pub Parser {ℓ} : Type ℓ → Type ℓ
Parser A = ParserState → Result (A × ParserState)

module _ {ℓ κ} {A : Type ℓ} {B : Type κ} where
  infixl 5 ◌>>>◌
  -- The sequence of two parsers.
  abbrev pub ◌>>>◌ : Parser A → (A → Parser B) → Parser B
  ◌>>>◌ p f s = p s >>= λ (a, s'). f a s'

abbrev pub pure {ℓ} : {A : Type ℓ} → A → Parser A
pure a s = ok (a, s)

abbrev pub kind_of : Stream → TokenKind
kind_of (token t more) = t.kind
kind_of (last t) = eof
kind_of (fault e) = eof

abbrev pub start_of : Stream → ℕ
start_of (token t more) = t.start
start_of (last t) = t.start
start_of (fault e) = 0

-- `token.value or ""`
abbrev pub text_of : Stream → Text
text_of (token t more) = elim t.value [ none ↦ [] | some v ↦ v ]
text_of _ = []

unfoldable pub same : TokenKind → TokenKind → Bool
unfolding TokenKind-discrete
same a b = decide (TokenKind-discrete a b)

pub same→eq : (a b : TokenKind) → same a b ≡ true → a ≡ b
unfolding same
same→eq a b h = (decide_iff (TokenKind-discrete a b)).0 h

pub eq→same : (a : TokenKind) → same a a ≡ true
unfolding same
eq→same a = (decide_iff (TokenKind-discrete a a)).1 refl

abbrev pub over : Option ℕ → ℕ → Bool
over none n = false
over (some limit) n = ltb limit n

module _ (options : Options) where
  unfoldable pub advance_lexer : Parser (Unit {0})
  advance_lexer s = elim s.stream [
    | token t more ↦ elim more [
      | token t' more' ↦
          if over options.max_tokens (s.token_counter + 1)
          then err (syntax_error t'.start too_many_tokens)
          else ok (tt, record { stream = token t' more'; token_counter = s.token_counter + 1 })
      | last t' ↦ ok (tt, record s { stream = last t' })
      | fault e ↦ err e
    ]
    | last t ↦ ok (tt, s)
    | fault e ↦ err e
  ]

  abbrev pub peek : TokenKind → ParserState → Bool
  peek kind s = same (kind_of s.stream) kind

  -- The result is the text of the token that was expected.
  unfoldable pub expect_token : TokenKind → Parser Text
  expect_token kind s =
      if peek kind s
      then (advance_lexer >>> λ _. pure (text_of s.stream)) s
      else err (syntax_error (start_of s.stream) (expected_token kind (kind_of s.stream)))

  unfoldable pub expect_optional_token : TokenKind → Parser Bool
  expect_optional_token kind s =
      if peek kind s then (advance_lexer >>> λ _. pure true) s else ok (false, s)

  abbrev pub at_keyword : Text → ParserState → Bool
  at_keyword value s = peek name s && same_text (text_of s.stream) value

  unfoldable pub expect_keyword : Text → Parser (Unit {0})
  expect_keyword value s =
      if at_keyword value s
      then advance_lexer s
      else err (syntax_error (start_of s.stream) (expected_keyword value))

  unfoldable pub expect_optional_keyword : Text → Parser Bool
  expect_optional_keyword value s =
      if at_keyword value s then (advance_lexer >>> λ _. pure true) s else ok (false, s)

  unfoldable pub unexpected {ℓ} : {A : Type ℓ} → Parser A
  unexpected s = err (syntax_error (start_of s.stream) unexpected_token)

  unfoldable pub parse_name : Parser Text
  unfolding expect_token
  parse_name = expect_token name
