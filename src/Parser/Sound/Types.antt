-- ===== src/Parser/Sound/Types.antt =====
-- src/graphql/language/parser.py: parse_type_reference against the grammar.
use graphql_core.Prelude.{
  ℕ, zero, suc, ◌<◌, ◌≡◌, refl, sym, Bool, true, false, List, [], ◌++◌, append-nil, arith,
  if◌then◌else◌,
}
use graphql_core.Errors.{Ensures, returns, Ensures-bind, Ensures-map}
use graphql_core.TokenKind.{is_punctuator_token_kind, bracket_l, bracket_r, bang}
use graphql_core.Ast.{TypeNode, named, list_of, non_null}
use graphql_core.Grammar.{Lexeme, type_lexemes}
use graphql_core.Parser.State.{Options, ParserState, ◌>>>◌, expect_token, parse_name}
use graphql_core.Parser.Values.{parse_bang, parse_type_reference}
use graphql_core.Parser.Reads.{
  IsClean, Read, Read-append, Read-size, size, optional_lexeme, expect_optional_token-Read,
}
use graphql_core.Parser.Sound.Combinators.{Sound}
use graphql_core.Parser.Sound.Values.{parse_name-Read, expect_punct-Read}

module _ (options : Options) where
  parse_bang-Read :
      (t : TypeNode) (s : ParserState)
      → IsClean s.stream
      → Ensures
          (λ r.
            (ys : List Lexeme) × Read options s ys r.1 × (type_lexemes r.0 ≡ type_lexemes t ++ ys))
          (parse_bang options t s)
  unfolding parse_bang type_lexemes is_punctuator_token_kind
  parse_bang-Read t s c =
      Ensures-bind (expect_optional_token-Read options bang s c refl)
        λ (b, s') r. returns (banged b r)
    where
      banged :
          (b : Bool) {s' : ParserState}
          → Read options s (optional_lexeme options bang b) s'
          → (ys : List Lexeme) × Read options s ys s'
            × (type_lexemes (if b then non_null t else t) ≡ type_lexemes t ++ ys)
      banged true r = (_, r, refl)
      banged false r = ([], r, sym (append-nil (type_lexemes t)))

  -- With fuel above the number of tokens that are left, a type reference is parsed or rejected, and
  -- the tokens consumed are exactly those of the type.
  pub parse_type_reference-Read :
      (fuel : ℕ) (s : ParserState)
      → IsClean s.stream
      → size s < fuel
      → Ensures (λ r. Read options s (type_lexemes r.0) r.1) (parse_type_reference options fuel s)
  unfolding parse_type_reference type_lexemes is_punctuator_token_kind
  parse_type_reference-Read zero s c h = absurd (omega arith)
  parse_type_reference-Read (suc fuel) s c h =
      Ensures-bind (expect_optional_token-Read options bracket_l s c refl)
        λ (o, s') r. go o s' r (parse_type_reference-Read fuel)
    where
      finished :
          (t : TypeNode) (s' : ParserState)
          → Read options s (type_lexemes t) s'
          → Ensures (λ r. Read options s (type_lexemes r.0) r.1) (parse_bang options t s')
      finished t s' r =
          Ensures-map (parse_bang-Read t s' r.clean) λ (u, s'') (ys, r', e). rw e (Read-append r r')

      go :
          (o : Bool) (s' : ParserState)
          → Read options s (optional_lexeme options bracket_l o) s'
          → Sound options type_lexemes fuel (parse_type_reference options fuel)
          → Ensures
              (λ r. Read options s (type_lexemes r.0) r.1)
              (elim o [
                | true ↦
                    (parse_type_reference options fuel >>> λ inner.
                    expect_token options bracket_r >>> λ _. parse_bang options (list_of inner))
                      s'
                | false ↦ (parse_name options >>> λ n. parse_bang options (named n)) s'
              ])
      go true s' r sound =
          Ensures-bind (sound s' r.clean (omega (arith, Read-size r))) λ (inner, s1) r1.
            Ensures-bind (expect_punct-Read options bracket_r s1 refl (cc) r1.clean)
              λ (u, s2) r2. finished (list_of inner) s2 (Read-append r (Read-append r1 r2))
      go false s' r sound =
          Ensures-bind (parse_name-Read options s' r.clean)
            λ (n, s1) r1. finished (named n) s1 (Read-append r r1)
