-- ===== src/Parser/Sound/Combinators.antt =====
-- src/graphql/language/parser.py: any, many and optional_many against the grammar.
use graphql_core.Prelude.{
  ℕ, zero, suc, ◌<◌, ◌≡◌, ◌≢◌, ◌≤◌, sym, ◌∙◌, ap, Bool, true, false, Option, none, some, List, [],
  ◌∷◌, ◌++◌, append_assoc, arith, length,
}
use graphql_core.Errors.{ok, Ensures, returns, Ensures-bind, Ensures-map}
use graphql_core.TokenKind.{TokenKind, is_punctuator_token_kind, eof}
use graphql_core.Grammar.{Lexeme, punct, concat, bracketed, optional_items}
use graphql_core.Parser.State.{Options, ParserState, Parser, ◌>>>◌, pure, expect_token}
use graphql_core.Parser.Combinators.{until_close, any, many, optional_many}
use graphql_core.Parser.Reads.{
  IsClean, Read, Read-nil, Read-append, Read-size, size, optional_lexeme, lexeme_at,
  expect_token-Read, expect_optional_token-Read,
}

-- From fewer than `bound` tokens the parser reads those of the node that it returns.
abbrev pub Sound {ℓ} : {A : Type ℓ} → Options → (A → List Lexeme) → ℕ → Parser A → Type ℓ
Sound options f bound parse_fn =
    (s : ParserState)
    → IsClean s.stream
    → size s < bound
    → Ensures (λ r. Read options s (f r.0) r.1) (parse_fn s)

module _ (options : Options) {A : Type 0} (f : A → List Lexeme) (parse_fn : Parser A) (bound : ℕ)
    (sound : Sound options f bound parse_fn) (grows : (a : A) → 0 < length (f a))
    (open_kind close_kind : TokenKind) (open_punct : is_punctuator_token_kind open_kind ≡ true)
    (close_punct : is_punctuator_token_kind close_kind ≡ true) where
  abbrev closing : List A → List Lexeme
  closing xs = concat f xs ++ punct close_kind ∷ []

  regroup : (x : A) (xs : List A) → closing (x ∷ xs) ≡ f x ++ closing xs
  regroup x xs = append_assoc (f x) (concat f xs) _

  one_lexeme :
      (kind : TokenKind) → is_punctuator_token_kind kind ≡ true → lexeme_at kind [] ≡ punct kind
  one_lexeme kind h = rw h

  node_then :
      (s s' : ParserState) (rest : Parser (List A))
      → Read options s [] s'
      → IsClean s'.stream
      → size s' < bound
      → ((s'' : ParserState)
          → IsClean s''.stream
          → size s'' < size s'
          → Ensures (λ r. Read options s'' (closing r.0) r.1) (rest s''))
      → Ensures
          (λ r. Read options s (closing r.0) r.1)
          ((parse_fn >>> λ node. rest >>> λ nodes. pure (node ∷ nodes)) s')
  node_then s s' rest r0 c b k = Ensures-bind (sound s' c b) λ (node, s1) r1.
      Ensures-bind (k s1 r1.clean (omega (arith, Read-size r1, grows node)))
        λ (nodes, s2) r2. returns (rw regroup (Read-append r0 (Read-append r1 r2)))

  pub until_close-Read :
      (fuel : ℕ) (s : ParserState)
      → IsClean s.stream
      → size s < fuel
      → size s < bound
      → Ensures
          (λ r. Read options s (closing r.0) r.1)
          (until_close options fuel parse_fn close_kind s)
  unfolding until_close
  until_close-Read zero s c h b = absurd (omega arith)
  until_close-Read (suc fuel) s c h b =
      Ensures-bind (expect_optional_token-Read options close_kind s c close_punct)
        λ (closed, s') r. go closed s' r (λ s'' c'' h'' b''. until_close-Read fuel s'' c'' h'' b'')
    where
      go :
          (closed : Bool) (s' : ParserState)
          → Read options s (optional_lexeme options close_kind closed) s'
          → ((s'' : ParserState)
              → IsClean s''.stream
              → size s'' < fuel
              → size s'' < bound
              → Ensures
                  (λ r. Read options s'' (closing r.0) r.1)
                  (until_close options fuel parse_fn close_kind s''))
          → Ensures
              (λ r. Read options s (closing r.0) r.1)
              (elim closed [
                | true ↦ ok ([], s')
                | false ↦
                    (parse_fn >>> λ node.
                    until_close options fuel parse_fn close_kind >>> λ nodes. pure (node ∷ nodes))
                      s'
              ])
      go true s' r k = returns (rw (one_lexeme close_kind close_punct) at r)
      go false s' r k =
          node_then s s' (until_close options fuel parse_fn close_kind) r r.clean
            (omega (arith, Read-size r))
            (λ s'' c'' h''. k s'' c'' (omega (arith, Read-size r)) (omega (arith, Read-size r)))

  opened :
      (s : ParserState)
      → IsClean s.stream
      → Ensures (λ r. Read options s (punct open_kind ∷ []) r.1) (expect_token options open_kind s)
  unfolding is_punctuator_token_kind
  opened s c = rw_kind (expect_token-Read options open_kind s c not_eof)
    where
      not_eof : open_kind ≢ eof
      not_eof e = cc (sym open_punct ∙ ap is_punctuator_token_kind e)

      rw_kind :
          Ensures
            (λ r. Read options s (lexeme_at open_kind r.0 ∷ []) r.1)
            (expect_token options open_kind s)
          → Ensures
              (λ r. Read options s (punct open_kind ∷ []) r.1)
              (expect_token options open_kind s)
      rw_kind h = rw open_punct at h

  pub any-Read :
      (fuel : ℕ) (s : ParserState)
      → IsClean s.stream
      → size s ≤ fuel
      → size s ≤ bound
      → Ensures
          (λ r. Read options s (bracketed open_kind f close_kind r.0) r.1)
          (any options fuel open_kind parse_fn close_kind s)
  unfolding any
  any-Read fuel s c h b = Ensures-bind (opened s c) λ (t, s') r.
      Ensures-map
        (until_close-Read fuel s' r.clean (omega (arith, Read-size r)) (omega (arith, Read-size r)))
        λ (nodes, s2) r2. Read-append r r2

  some_more :
      (fuel : ℕ) (s s' : ParserState)
      → Read options s (punct open_kind ∷ []) s'
      → size s ≤ fuel
      → size s ≤ bound
      → Ensures
          (λ r. Read options s (punct open_kind ∷ closing r.0) r.1)
          ((parse_fn >>> λ node.
              until_close options fuel parse_fn close_kind >>> λ nodes. pure (node ∷ nodes))
            s')
  some_more fuel s s' r h b =
      Ensures-map
        (node_then s' s' (until_close options fuel parse_fn close_kind) (Read-nil s' r.clean)
          r.clean (omega (arith, Read-size r))
          (λ s'' c'' h''.
            until_close-Read fuel s'' c'' (omega (arith, Read-size r))
              (omega (arith, Read-size r))))
        λ (nodes, s2) r2. Read-append r r2

  pub many-Read :
      (fuel : ℕ) (s : ParserState)
      → IsClean s.stream
      → size s ≤ fuel
      → size s ≤ bound
      → Ensures
          (λ r. Read options s (bracketed open_kind f close_kind r.0) r.1)
          (many options fuel open_kind parse_fn close_kind s)
  unfolding many
  many-Read fuel s c h b = Ensures-bind (opened s c) λ (t, s') r. some_more fuel s s' r h b

  pub optional_many-Read :
      (fuel : ℕ) (s : ParserState)
      → IsClean s.stream
      → size s ≤ fuel
      → size s ≤ bound
      → Ensures
          (λ r. Read options s (optional_items open_kind f close_kind r.0) r.1)
          (optional_many options fuel open_kind parse_fn close_kind s)
  unfolding optional_many
  optional_many-Read fuel s c h b =
      Ensures-bind (expect_optional_token-Read options open_kind s c open_punct)
        λ (o, s') r. go o s' r
    where
      go :
          (o : Bool) (s' : ParserState)
          → Read options s (optional_lexeme options open_kind o) s'
          → Ensures
              (λ r. Read options s (optional_items open_kind f close_kind r.0) r.1)
              ((elim o as (λ x. Parser (Option (List A))) [
                | true ↦ parse_fn >>> λ node.
                    until_close options fuel parse_fn close_kind >>> λ nodes.
                    pure (some (node ∷ nodes))
                | false ↦ pure none
              ])
                s')
      go true s' r = Ensures-bind (sound s' r.clean (omega (arith, Read-size r))) λ (node, s1) r1.
          Ensures-bind
            (until_close-Read fuel s1 r1.clean (omega (arith, Read-size r, Read-size r1))
              (omega (arith, Read-size r, Read-size r1)))
            λ (nodes, s2) r2. returns (
              rw regroup
                (Read-append (rw (one_lexeme open_kind open_punct) at r) (Read-append r1 r2)))
      go false s' r = returns r
