-- ===== src/Parser/Sound/Parse.antt =====
-- src/graphql/language/parser.py: parse, parse_value and parse_type against the grammar.
use graphql_core.Prelude.{
  ℕ, ◌≤◌, ◌≡◌, refl, sym, ap, ◌∙◌, false, Option, none, some, List, [], ◌∷◌, ◌++◌, append-nil,
  arith, length, subst,
}
use graphql_core.Errors.{Text, Ensures, returns, Ensures-bind, Ensures-map}
use graphql_core.TokenKind.{is_punctuator_token_kind, eof, sof}
use graphql_core.Lexer.Next.{Stream, last, fault, token, lex}
use graphql_core.Grammar.{Lexeme, lexemes, value_lexemes, type_lexemes}
use graphql_core.Grammar.TypeSystem.{Spells}
use graphql_core.Parser.State.{Options, ParserState, Parser, ◌>>>◌, pure, expect_token}
use graphql_core.Parser.Combinators.{until_close, many}
use graphql_core.Parser.Values.{parse_value_literal, parse_type_reference}
use graphql_core.Parser.Document.{
  parse_definition, start_parser, enough, parse_document, parse, parse_alone, parse_value,
  parse_type,
}
use graphql_core.Parser.Reads.{IsWhole, Read, Read-append, Read-size, expect_token-Read}
use graphql_core.Parser.Sound.Combinators.{Sound}
use graphql_core.Parser.Sound.Values.{parse_value_literal-Read}
use graphql_core.Parser.Sound.Types.{parse_type_reference-Read}
use graphql_core.Parser.Sound.Ends.{
  AtEnd, start_parser-IsClean, size-start_parser, expect_eof-Read, one_more, definitions-Read,
}

abbrev pub WithinLimit : Option ℕ → ℕ → Type 0
WithinLimit none n = Unit
WithinLimit (some limit) n = n ≤ limit

limited : {n : ℕ} (o : Option ℕ) → ((limit : ℕ) → o ≡ some limit → n ≤ limit) → WithinLimit o n
limited none h = tt
limited (some limit) h = h limit refl

module _ (options : Options) where
  -- Between SOF and EOF, the body is whole and its tokens are within the limit.
  abbrev pub WholeBody : Text → Type 0
  WholeBody body = IsWhole (lex body) × WithinLimit options.max_tokens (length (lexemes (lex body)))

  AtEnd-lexemes : (stream : Stream) → AtEnd stream → (lexemes stream ≡ []) × IsWhole stream
  AtEnd-lexemes (last t) h = (refl, tt)
  AtEnd-lexemes (token t more) h = absurd h
  AtEnd-lexemes (fault e) h = absurd h

  body-Read :
      (body : Text) (l : Lexeme) (consumed : List Lexeme) (s' : ParserState)
      → Read options (start_parser options body) (l ∷ consumed) s'
      → AtEnd s'.stream
      → (consumed ≡ lexemes (lex body)) × WholeBody body
  unfolding start_parser
  body-Read body l consumed s' r e =
      let (z, w) = AtEnd-lexemes s'.stream e in
      (same_tail z, (r.whole w, limited options.max_tokens (within z)))
    where
      tail : List Lexeme → List Lexeme
      tail [] = []
      tail (x ∷ xs) = xs

      same_tail : lexemes s'.stream ≡ [] → consumed ≡ lexemes (lex body)
      same_tail z = sym (ap tail r.taken ∙ ap (λ y. consumed ++ y) z ∙ append-nil consumed)

      within :
          lexemes s'.stream ≡ []
          → (limit : ℕ) → options.max_tokens ≡ some limit
          → length (lexemes (lex body)) ≤ limit
      within z limit k = omega (arith, r.counted, r.limited limit k (omega arith), ap length z)

  -- Parsing any text, valid or not, returns a document or raises an exception of the program. A
  -- document that it returns is spelt by the tokens of the whole text: the lexer reached EOF, the
  -- grammar derives exactly those tokens from the definitions, and they are no more than max_tokens.
  pub parse-Spells :
      (body : Text)
      → Ensures (λ ds. Spells ds (lexemes (lex body)) × WholeBody body) (parse options body)
  unfolding parse parse_document many is_punctuator_token_kind
  parse-Spells body = Ensures-bind document λ (ds, s') (l, consumed, spelt, e, r).
      let (eq, w) = body-Read body l consumed s' r e in returns (subst (Spells ds) eq spelt, w)
    where
      document :
          Ensures
            (λ r.
              (l : Lexeme) × (consumed : List Lexeme) × Spells r.0 consumed
              × AtEnd r.1.stream
              × Read options (start_parser options body) (l ∷ consumed) r.1)
            (parse_document options (enough options body) (start_parser options body))
      document =
          Ensures-bind
            (expect_token-Read options sof (start_parser options body)
              (start_parser-IsClean options body) (cc))
            λ (t, s1) r1.
              Ensures-map
                (one_more options (enough options body)
                  (until_close options (enough options body)
                    (parse_definition options (enough options body)) eof)
                  s1 r1.clean (omega (arith, Read-size r1, size-start_parser options body))
                  (λ s2 c2 h2.
                    definitions-Read options (enough options body) (enough options body) s2 c2
                      (omega (arith, Read-size r1, size-start_parser options body))
                      (omega (arith, Read-size r1, size-start_parser options body))))
                λ (ds, s2) (consumed, spelt, e, r2). (_, consumed, spelt, e, Read-append r1 r2)

  pub parse_alone-Ensures :
      {A : Type 0} (f : A → List Lexeme) (parse_fn : Parser A) (body : Text)
      → Sound options f (enough options body) parse_fn
      → Ensures
          (λ a. (f a ≡ lexemes (lex body)) × WholeBody body)
          (parse_alone options parse_fn body)
  unfolding parse_alone is_punctuator_token_kind
  parse_alone-Ensures f parse_fn body sound =
      Ensures-bind alone λ (a, s') (l, e, r). returns (body-Read body l (f a) s' r e)
    where
      alone :
          Ensures
            (λ r.
              (l : Lexeme) × AtEnd r.1.stream
              × Read options (start_parser options body) (l ∷ f r.0) r.1)
            ((expect_token options sof >>> λ _.
                parse_fn >>> λ node. expect_token options eof >>> λ _. pure node)
              (start_parser options body))
      alone =
          Ensures-bind
            (expect_token-Read options sof (start_parser options body)
              (start_parser-IsClean options body) (cc))
            λ (t, s1) r1.
              Ensures-bind
                (sound s1 r1.clean (omega (arith, Read-size r1, size-start_parser options body)))
                λ (a, s2) r2. Ensures-bind (expect_eof-Read options s2 r2.clean) λ (t', s3) (e, r3).
                  returns (_, e, rw append-nil at (Read-append r1 (Read-append r2 r3)))

  -- parse_value returns a value whose tokens are those of the whole text, no more than max_tokens, or
  -- raises an exception of the program.
  pub parse_value-Ensures :
      (body : Text)
      → Ensures
          (λ v. (value_lexemes v ≡ lexemes (lex body)) × WholeBody body)
          (parse_value options body)
  unfolding parse_value
  parse_value-Ensures body =
      parse_alone-Ensures value_lexemes (parse_value_literal options (enough options body) false)
        body (parse_value_literal-Read options (enough options body) false)

  -- parse_type returns a type whose tokens are those of the whole text, no more than max_tokens, or
  -- raises an exception of the program.
  pub parse_type-Ensures :
      (body : Text)
      → Ensures
          (λ t. (type_lexemes t ≡ lexemes (lex body)) × WholeBody body)
          (parse_type options body)
  unfolding parse_type
  parse_type-Ensures body =
      parse_alone-Ensures type_lexemes (parse_type_reference options (enough options body)) body
        (parse_type_reference-Read options (enough options body))
