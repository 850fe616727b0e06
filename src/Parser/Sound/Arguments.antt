-- ===== src/Parser/Sound/Arguments.antt =====
-- src/graphql/language/parser.py: parse_arguments and parse_directives against the grammar.
use graphql_core.Prelude.{ℕ, zero, suc, ◌<◌, ◌≤◌, refl, Bool, List, [], ◌∷◌, arith}
use graphql_core.Errors.{Ensures, returns, Ensures-bind, Ensures-if}
use graphql_core.TokenKind.{is_punctuator_token_kind, colon, at, paren_l, paren_r}
use graphql_core.Ast.{Directive}
use graphql_core.Grammar.{
  concat, argument_lexemes, arguments_lexemes, directive_lexemes, directives_lexemes,
}
use graphql_core.Parser.State.{Options, ParserState, Parser, peek}
use graphql_core.Parser.Values.{
  parse_argument, parse_arguments, parse_directive, directive_loop, or_none, parse_directives,
}
use graphql_core.Parser.Reads.{IsClean, Read, Read-nil, Read-append, Read-size, size}
use graphql_core.Parser.Sound.Combinators.{Sound, optional_many-Read}
use graphql_core.Parser.Sound.Values.{parse_name-Read, expect_punct-Read, parse_value_literal-Read}

module _ (options : Options) where
  pub parse_argument-Sound :
      (fuel : ℕ) (is_const : Bool)
      → Sound options argument_lexemes fuel (parse_argument options fuel is_const)
  unfolding parse_argument argument_lexemes is_punctuator_token_kind
  parse_argument-Sound fuel is_const s c h =
      Ensures-bind (parse_name-Read options s c) λ (n, s1) r1.
        Ensures-bind (expect_punct-Read options colon s1 refl (cc) r1.clean) λ (u, s2) r2.
          Ensures-bind
            (parse_value_literal-Read options fuel is_const s2 r2.clean
              (omega (arith, Read-size r1, Read-size r2)))
            λ (v, s3) r3. returns (Read-append r1 (Read-append r2 r3))

  pub parse_arguments-Read :
      (fuel : ℕ) (is_const : Bool) (s : ParserState)
      → IsClean s.stream
      → size s ≤ fuel
      → Ensures
          (λ r. Read options s (arguments_lexemes r.0) r.1)
          (parse_arguments options fuel is_const s)
  unfolding parse_arguments argument_lexemes is_punctuator_token_kind
  parse_arguments-Read fuel is_const s c h =
      optional_many-Read options argument_lexemes (parse_argument options fuel is_const) fuel
        (parse_argument-Sound fuel is_const) (λ a. omega arith) paren_l paren_r refl refl fuel s c h
        h

  pub parse_directive-Sound :
      (fuel : ℕ) (is_const : Bool)
      → Sound options directive_lexemes fuel (parse_directive options fuel is_const)
  unfolding parse_directive directive_lexemes is_punctuator_token_kind
  parse_directive-Sound fuel is_const s c h =
      Ensures-bind (expect_punct-Read options at s refl (cc) c) λ (u, s1) r1.
        Ensures-bind (parse_name-Read options s1 r1.clean) λ (n, s2) r2.
          Ensures-bind
            (parse_arguments-Read fuel is_const s2 r2.clean
              (omega (arith, Read-size r1, Read-size r2)))
            λ (a, s3) r3. returns (Read-append r1 (Read-append r2 r3))

  pub directive_loop-Read :
      (fuel bound : ℕ) (parse_fn : Parser Directive)
      → Sound options directive_lexemes bound parse_fn
      → (s : ParserState) → IsClean s.stream
      → size s < fuel
      → size s < bound
      → Ensures
          (λ r. Read options s (concat directive_lexemes r.0) r.1)
          (directive_loop options fuel parse_fn s)
  unfolding directive_loop directive_lexemes
  directive_loop-Read zero bound parse_fn sound s c h b = absurd (omega arith)
  directive_loop-Read (suc fuel) bound parse_fn sound s c h b =
      Ensures-if (peek options at s)
        (λ e. Ensures-bind (sound s c b) λ (d, s1) r1.
          Ensures-bind
            (directive_loop-Read fuel bound parse_fn sound s1 r1.clean (omega (arith, Read-size r1))
              (omega (arith, Read-size r1)))
            λ (ds, s2) r2. returns (Read-append r1 r2))
        (λ e. returns (Read-nil s c))

  pub parse_directives-Read :
      (fuel : ℕ) (is_const : Bool) (s : ParserState)
      → IsClean s.stream
      → size s < fuel
      → Ensures
          (λ r. Read options s (directives_lexemes r.0) r.1)
          (parse_directives options fuel is_const s)
  unfolding parse_directives
  parse_directives-Read fuel is_const s c h =
      Ensures-bind
        (directive_loop-Read fuel fuel (parse_directive options fuel is_const)
          (parse_directive-Sound fuel is_const) s c h h)
        λ (ds, s') r. returns (collected ds r)
    where
      collected :
          (ds : List Directive) {s' : ParserState}
          → Read options s (concat directive_lexemes ds) s'
          → Read options s (directives_lexemes (or_none ds)) s'
      collected [] r = r
      collected (d ∷ ds) r = r
