-- ===== src/Parser/Sound/Delimited.antt =====
-- src/graphql/language/parser.py: delimited_many against the grammar.
use graphql_core.Prelude.{
  ℕ, zero, suc, ◌<◌, ◌≡◌, Bool, true, false, List, [], ◌∷◌, append-nil, if◌then◌else◌, arith,
  length,
}
use graphql_core.Errors.{ok, Ensures, returns, Ensures-bind, Ensures-map, ◌>>=◌}
use graphql_core.TokenKind.{TokenKind, is_punctuator_token_kind}
use graphql_core.Grammar.{Lexeme, punct}
use graphql_core.Grammar.TypeSystem.{separated, delimited}
use graphql_core.Parser.State.{Options, ParserState, Parser}
use graphql_core.Parser.Combinators.{delimited_loop, delimited_many}
use graphql_core.Parser.Reads.{
  IsClean, Read, Read-append, Read-size, size, optional_lexeme, expect_optional_token-Read,
}
use graphql_core.Parser.Sound.Combinators.{Sound}

module _ (options : Options) {A : Type 0} (f : A → List Lexeme) (parse_fn : Parser A) (bound : ℕ)
    (sound : Sound options f bound parse_fn) (grows : (a : A) → 0 < length (f a))
    (delimiter : TokenKind) (is_punct : is_punctuator_token_kind delimiter ≡ true) where
  abbrev HasItems : List A → Type 0
  HasItems [] = ⊥
  HasItems (x ∷ xs) = Unit

  abbrev LoopRead : ParserState → List A × ParserState → Type 0
  LoopRead s r = HasItems r.0 × Read options s (separated delimiter f r.0) r.1

  joined :
      (s s1 s2 : ParserState) (x : A) (nodes : List A) {s3 : ParserState}
      → Read options s (f x) s1
      → Read options s1 (punct delimiter ∷ []) s2
      → LoopRead s2 (nodes, s3)
      → LoopRead s (x ∷ nodes, s3)
  joined s s1 s2 x [] r1 r2 h = absurd h.0
  joined s s1 s2 x (y ∷ nodes) r1 r2 h = (tt, Read-append r1 (Read-append r2 h.1))

  delimited_loop-Read :
      (fuel : ℕ) (s : ParserState)
      → IsClean s.stream
      → size s < fuel
      → size s < bound
      → Ensures (LoopRead s) (delimited_loop options fuel delimiter parse_fn s)
  unfolding delimited_loop
  delimited_loop-Read zero s c h b = absurd (omega arith)
  delimited_loop-Read (suc fuel) s c h b = Ensures-bind (sound s c b) λ (x, s1) r1.
      Ensures-bind (expect_optional_token-Read options delimiter s1 r1.clean is_punct)
        λ (again, s2) r2.
          go x s1 r1 again s2 r2
            (λ k. delimited_loop-Read fuel s2 r2.clean (omega (arith, k)) (omega (arith, k)))
    where
      go :
          (x : A) (s1 : ParserState)
          → Read options s (f x) s1
          → (again : Bool) (s2 : ParserState)
          → Read options s1 (optional_lexeme options delimiter again) s2
          → (size s2 < size s
              → Ensures (LoopRead s2) (delimited_loop options fuel delimiter parse_fn s2))
          → Ensures (LoopRead s) (
              if again
              then (delimited_loop options fuel delimiter parse_fn s2 >>= λ (nodes, s'').
                  ok (x ∷ nodes, s''))
              else ok (x ∷ [], s2))
      go x s1 r1 true s2 r2 k =
          Ensures-bind (k (omega (arith, Read-size r1, Read-size r2, grows x)))
            λ (nodes, s3) r3. returns (joined s s1 s2 x nodes r1 (rw is_punct at r2) r3)
      go x s1 r1 false s2 r2 k = returns (tt, rw append-nil at (Read-append r1 r2))

  -- With fuel for each item, and an item parser that consumes what it reads, delimited_many parses or
  -- rejects: it has consumed the items, delimiters between them and none behind them,
  -- and perhaps one before the first.
  pub delimited_many-Read :
      (fuel : ℕ) (s : ParserState)
      → IsClean s.stream
      → size s < fuel
      → size s < bound
      → Ensures
          (λ r. (leading : Bool) × Read options s (delimited leading delimiter f r.0) r.1)
          (delimited_many options fuel delimiter parse_fn s)
  unfolding delimited_many
  delimited_many-Read fuel s c h b =
      Ensures-bind (expect_optional_token-Read options delimiter s c is_punct) λ (leading, s1) r1.
        Ensures-map
          (delimited_loop-Read fuel s1 r1.clean (omega (arith, Read-size r1))
            (omega (arith, Read-size r1)))
          λ (nodes, s2) (e, r2). started leading nodes r1 r2
    where
      started :
          (leading : Bool) (nodes : List A) {s1 s2 : ParserState}
          → Read options s (optional_lexeme options delimiter leading) s1
          → Read options s1 (separated delimiter f nodes) s2
          → (leading : Bool) × Read options s (delimited leading delimiter f nodes) s2
      started true nodes r1 r2 = (true, Read-append (rw is_punct at r1) r2)
      started false nodes r1 r2 = (false, Read-append r1 r2)
