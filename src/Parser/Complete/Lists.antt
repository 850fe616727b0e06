-- ===== src/Parser/Complete/Lists.antt =====
-- Parser.any on the tokens of a list of items.
use graphql_core.Prelude.{
  ℕ, zero, suc, ◌<◌, ◌≡◌, ◌∙◌, append_assoc, true, false, none, List, [], ◌∷◌, ◌++◌, arith, length,
  length-append, All,
}
use graphql_core.TokenKind.{TokenKind, is_punctuator_token_kind}
use graphql_core.Grammar.{Lexeme, punct, concat}
use graphql_core.Parser.State.{Options, ParserState, Parser}
use graphql_core.Parser.Combinators.{until_close, any}
use graphql_core.Parser.Forward.{
  Holds, starts, Runs, Runs-bind, Runs-ok, expect_token-Runs, expect_optional_token-Runs,
  expect_optional_token-stays,
}

module _ (options : Options) (unlimited : options.max_tokens ≡ none) {A : Type 0}
    (f : A → List Lexeme) (P : A → Type 0) (parse_fn : Parser A) (bound : ℕ)
    (item : (a : A) (s : ParserState) (rest : List Lexeme)
      → P a
      → length (f a) < bound
      → Holds s.stream (f a ++ rest)
      → Runs (parse_fn s) a rest)
    (close : TokenKind) (is_punct : is_punctuator_token_kind close ≡ true)
    (opens : (a : A) (rest : List Lexeme) → starts close (f a ++ rest) ≡ false)
    (grows : (a : A) → 0 < length (f a)) where
  -- The items in front of the closing token are parsed, one after the other.
  until_close-Runs :
      (fuel : ℕ) (xs : List A) (s : ParserState) (rest : List Lexeme)
      → All P xs
      → length (concat f xs) < fuel
      → length (concat f xs) < bound
      → Holds s.stream (concat f xs ++ (punct close ∷ rest))
      → Runs (until_close options fuel parse_fn close s) xs rest
  unfolding until_close
  until_close-Runs zero xs s rest all k b h = absurd (omega arith)
  until_close-Runs (suc fuel) [] s rest all k b h =
      Runs-bind _ (expect_optional_token-Runs options unlimited close s rest h) λ s' h'. Runs-ok h'
  until_close-Runs (suc fuel) (x ∷ xs) s rest all k b h =
      let split : Holds s.stream (f x ++ (concat f xs ++ (punct close ∷ rest))) =
        (h.0, h.1 ∙ append_assoc (f x) (concat f xs) (punct close ∷ rest)) in
      Runs-bind _
        (expect_optional_token-stays options unlimited close s _ is_punct split (opens x _))
        λ s1 h1.
          Runs-bind _ (item x s1 _ all.0 (omega (arith, length-append (f x) (concat f xs))) h1)
            λ s2 h2.
              Runs-bind _
                (until_close-Runs fuel xs s2 rest all.1
                  (omega (arith, length-append (f x) (concat f xs), grows x))
                  (omega (arith, length-append (f x) (concat f xs))) h2)
                λ s3 h3. Runs-ok h3

  -- The list between its brackets is parsed.
  pub any-Runs :
      (fuel : ℕ) (open_kind : TokenKind) (xs : List A) (s : ParserState) (rest : List Lexeme)
      → All P xs
      → length (concat f xs) < fuel
      → length (concat f xs) < bound
      → Holds s.stream (punct open_kind ∷ (concat f xs ++ (punct close ∷ rest)))
      → Runs (any options fuel open_kind parse_fn close s) xs rest
  unfolding any
  any-Runs fuel open_kind xs s rest all k b h =
      Runs-bind _ (expect_token-Runs options unlimited open_kind s _ h)
        λ s1 h1. until_close-Runs fuel xs s1 rest all k b h1
