-- ===== src/Parser/Sound/Ends.antt =====
-- src/graphql/language/parser.py: the parser at EOF, and the definitions of a document up to it.
use graphql_core.Prelude.{
  ℕ, zero, suc, ◌-◌, ◌<◌, ◌≤◌, ◌≡◌, refl, ap, Bool, true, false, ◌&&◌, List, [], ◌∷◌, arith, length,
  length-append, if◌then◌else◌,
}
use graphql_core.Errors.{
  Text, ok, syntax_error, index_error, out_of_fuel, Ensures, returns, raises, raises_index,
  Ensures-bind, Ensures-map, Ensures-if,
}
use graphql_core.TokenKind.{is_eof, eof}
use graphql_core.Ast.{
  Definition, operation_definition, fragment_definition, schema_definition, scalar_type_definition,
  object_type_definition, interface_type_definition, union_type_definition, enum_type_definition,
  input_object_type_definition, directive_definition,
}
use graphql_core.Lexer.Next.{Stream, last, fault, token}
use graphql_core.Lexer.Order.{IsOrdered, breaks, goes_on, lex-IsOrdered}
use graphql_core.Grammar.{Lexeme, lexemes}
use graphql_core.Grammar.Executable.{
  operation_lexemes, fragment_lexemes, set_lexemes, has_shorthand, description_lexemes,
}
use graphql_core.Grammar.TypeSystem.{
  definition_lexemes, directive_definition_lexemes, Spells, no_more, definition,
}
use graphql_core.Parser.State.{
  Options, ParserState, Parser, ◌>>>◌, pure, kind_of, same→eq, peek, advance_lexer, expect_token,
  expect_optional_token,
}
use graphql_core.Parser.Combinators.{until_close}
use graphql_core.Parser.Document.{parse_definition, start_parser, enough}
use graphql_core.Parser.Reads.{IsClean, Read, Read-nil, Read-append, Read-size, size}
use graphql_core.Parser.Sound.Document.{parse_definition-Read}

-- The current token is EOF.
abbrev pub AtEnd : Stream → Type 0
AtEnd (last t) = Unit
AtEnd _ = ⊥

pub length-definition_lexemes_pos :
    (choice : Bool) (d : Definition) → 0 < length (definition_lexemes choice d)
unfolding definition_lexemes operation_lexemes fragment_lexemes directive_definition_lexemes
length-definition_lexemes_pos choice (operation_definition d) = by_form (choice && has_shorthand d)
  where
    by_form :
        (b : Bool) → 0 < length (if b then set_lexemes d.selection_set else operation_lexemes d)
    by_form true = omega arith
    by_form false = omega (arith, length-append (description_lexemes d.description) _)
length-definition_lexemes_pos choice (fragment_definition d) =
    omega (arith, length-append (description_lexemes d.description) _)
length-definition_lexemes_pos choice (schema_definition d ds ts) =
    omega (arith, length-append (description_lexemes d) _)
length-definition_lexemes_pos choice (scalar_type_definition d n ds) =
    omega (arith, length-append (description_lexemes d) _)
length-definition_lexemes_pos choice (object_type_definition d t) =
    omega (arith, length-append (description_lexemes d) _)
length-definition_lexemes_pos choice (interface_type_definition d t) =
    omega (arith, length-append (description_lexemes d) _)
length-definition_lexemes_pos choice (union_type_definition d t) =
    omega (arith, length-append (description_lexemes d) _)
length-definition_lexemes_pos choice (enum_type_definition d t) =
    omega (arith, length-append (description_lexemes d) _)
length-definition_lexemes_pos choice (input_object_type_definition d t) =
    omega (arith, length-append (description_lexemes d) _)
length-definition_lexemes_pos choice (directive_definition d) =
    omega (arith, length-append (description_lexemes d.description) _)
length-definition_lexemes_pos choice _ = omega arith

pub IsOrdered-IsClean : (total start : ℕ) (s : Stream) → IsOrdered total start s → IsClean s
IsOrdered-IsClean total start (last t) h = tt
IsOrdered-IsClean total start (fault e) (breaks h) = h
IsOrdered-IsClean total start (token t more) (goes_on a b c e f h) =
    (λ k. cc (ap is_eof k), IsOrdered-IsClean total t.end more h)

pub IsOrdered-length :
    (total start : ℕ) (s : Stream) → IsOrdered total start s → length (lexemes s) ≤ total - start
IsOrdered-length total start (last t) h = omega arith
IsOrdered-length total start (fault e) h = omega arith
IsOrdered-length total start (token t more) (goes_on a b c e f h) =
    omega (arith, IsOrdered-length total t.end more h)

pub start_parser-IsClean :
    (options : Options) (body : Text) → IsClean (start_parser options body).stream
unfolding start_parser
start_parser-IsClean options body = ((cc), IsOrdered-IsClean _ _ _ (lex-IsOrdered body))

pub size-start_parser :
    (options : Options) (body : Text) → size (start_parser options body) < enough options body
unfolding start_parser
size-start_parser options body = omega (arith, IsOrdered-length _ _ _ (lex-IsOrdered body))

module _ (options : Options) where
  -- At EOF the parser stays where it is, and elsewhere `advance` is not called.
  pub advance_at_eof :
      (s : ParserState)
      → IsClean s.stream
      → kind_of s.stream ≡ eof
      → Ensures (λ r. AtEnd r.1.stream × Read options s [] r.1) (advance_lexer options s)
  unfolding advance_lexer
  advance_at_eof s c e = from s.stream s.token_counter c e
    where
      from :
          (stream : Stream) (n : ℕ)
          → IsClean stream
          → kind_of stream ≡ eof
          → Ensures
              (λ r.
                AtEnd r.1.stream
                × Read options (record { stream = stream; token_counter = n }) [] r.1)
              (advance_lexer options (record { stream = stream; token_counter = n }))
      from (token t more) n c e = absurd (c.0 e)
      from (last t) n c e = returns (tt, Read-nil _ tt)
      from (fault (syntax_error p m)) n c e = raises
      from (fault index_error) n c e = raises_index
      from (fault out_of_fuel) n c e = absurd (c refl)

  pub expect_eof-Read :
      (s : ParserState)
      → IsClean s.stream
      → Ensures (λ r. AtEnd r.1.stream × Read options s [] r.1) (expect_token options eof s)
  unfolding expect_token
  expect_eof-Read s c =
      Ensures-if (peek options eof s)
        (λ e. Ensures-bind (advance_at_eof s c (same→eq _ _ e)) λ (u, s') r. returns r)
        (λ e. raises)

  -- Definitions that were read up to EOF, with the tokens that spell them.
  abbrev pub DefinitionsRead : ParserState → List Definition × ParserState → Type 0
  DefinitionsRead s r =
      (consumed : List Lexeme) × Spells r.0 consumed
      × AtEnd r.1.stream
      × Read options s consumed r.1

  pub one_more :
      (fuel : ℕ) (rest : Parser (List Definition)) (s : ParserState)
      → IsClean s.stream
      → size s < fuel
      → ((s' : ParserState)
          → IsClean s'.stream
          → size s' < size s
          → Ensures (DefinitionsRead s') (rest s'))
      → Ensures
          (DefinitionsRead s)
          ((parse_definition options fuel >>> λ d. rest >>> λ ds. pure (d ∷ ds)) s)
  one_more fuel rest s c h k =
      Ensures-bind (parse_definition-Read options fuel s c h) λ (d, s1) (choice, r1).
        Ensures-bind
          (k s1 r1.clean (omega (arith, Read-size r1, length-definition_lexemes_pos choice d)))
          λ (ds, s2) (consumed, spelt, e, r2).
            returns (_, definition choice d spelt, e, Read-append r1 r2)

  pub expect_optional_eof-Read :
      (s : ParserState)
      → IsClean s.stream
      → Ensures
          (λ r. (r.0 ≡ true → AtEnd r.1.stream) × Read options s [] r.1)
          (expect_optional_token options eof s)
  unfolding expect_optional_token
  expect_optional_eof-Read s c =
      Ensures-if (peek options eof s)
        (λ e.
          Ensures-bind (advance_at_eof s c (same→eq _ _ e))
            λ (u, s') (at_end, r). returns ((λ k. at_end), r))
        (λ e. returns ((λ k. cc), Read-nil s c))

  pub definitions-Read :
      (fuel bound : ℕ) (s : ParserState)
      → IsClean s.stream
      → size s < fuel
      → size s < bound
      → Ensures
          (DefinitionsRead s)
          (until_close options fuel (parse_definition options bound) eof s)
  unfolding until_close
  definitions-Read zero bound s c h b = absurd (omega arith)
  definitions-Read (suc fuel) bound s c h b =
      Ensures-bind (expect_optional_eof-Read s c) λ (closed, s') (at_end, r).
        go closed s' at_end r (λ s'' c'' h'' b''. definitions-Read fuel bound s'' c'' h'' b'')
    where
      go :
          (closed : Bool) (s' : ParserState)
          → (closed ≡ true → AtEnd s'.stream)
          → Read options s [] s'
          → ((s'' : ParserState)
              → IsClean s''.stream
              → size s'' < fuel
              → size s'' < bound
              → Ensures
                  (DefinitionsRead s'')
                  (until_close options fuel (parse_definition options bound) eof s''))
          → Ensures (DefinitionsRead s) (elim closed [
            | true ↦ ok ([], s')
            | false ↦
                (parse_definition options bound >>> λ d.
                until_close options fuel (parse_definition options bound) eof >>> λ ds.
                pure (d ∷ ds))
                  s'
          ])
      go true s' at_end r k = returns ([], no_more, at_end refl, r)
      go false s' at_end r k =
          Ensures-map
            (one_more bound (until_close options fuel (parse_definition options bound) eof) s'
              r.clean (omega (arith, Read-size r))
              (λ s'' c'' h''. k s'' c'' (omega (arith, Read-size r)) (omega (arith, Read-size r))))
            λ (ds, s2) (consumed, spelt, e, r2). (consumed, spelt, e, Read-append r r2)
