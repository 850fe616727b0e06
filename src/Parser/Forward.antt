-- ===== src/Parser/Forward.antt =====
-- The steps of the parser on tokens that are known, without a limit on their number.
use graphql_core.Prelude.{
  if◌then◌else◌, drop, ℕ, ◌≡◌, refl, sym, ap, subst, Bool, true, false, Bool-cases, inl, inr, none,
  List, [], ◌∷◌,
}
use graphql_core.Errors.{Text, Result, ok, ◌>>=◌}
use graphql_core.TokenKind.{TokenKind, is_punctuator_token_kind, eof, name}
use graphql_core.Lexer.Next.{Stream, last, fault, token}
use graphql_core.Grammar.{Lexeme, punct, word, lexeme_of, lexemes}
use graphql_core.Parser.State.{
  Options, ParserState, kind_of, text_of, same, same→eq, eq→same, peek, advance_lexer, expect_token,
  expect_optional_token, parse_name,
}
use graphql_core.Parser.Reads.{IsWhole}

-- The stream is these tokens and EOF.
abbrev pub Holds : Stream → List Lexeme → Type 0
Holds stream ls = IsWhole stream × (lexemes stream ≡ ls)

-- The punctuator with which the tokens begin.
abbrev pub starts : TokenKind → List Lexeme → Bool
starts kind (punct k ∷ ls) = same k kind
starts kind _ = false

lexeme_of-punct : (b : Bool) (k k' : TokenKind) (t : Text) → lexeme_of b k t ≡ punct k' → k ≡ k'
lexeme_of-punct true k k' t e = cc
lexeme_of-punct false k k' t e = cc

lexeme_of-word :
    (b : Bool) (k k' : TokenKind) (t t' : Text) → lexeme_of b k t ≡ word k' t' → (k ≡ k') × (t ≡ t')
lexeme_of-word true k k' t t' e = cc
lexeme_of-word false k k' t t' e = (cc, cc)

abbrev first_lexeme : List Lexeme → Lexeme
first_lexeme [] = punct eof
first_lexeme (l ∷ ls) = l

pub kind_of-punct :
    (stream : Stream) (k : TokenKind) (rest : List Lexeme)
    → Holds stream (punct k ∷ rest)
    → kind_of stream ≡ k
kind_of-punct (token t more) k rest h =
    lexeme_of-punct (is_punctuator_token_kind t.kind) t.kind k _ (ap first_lexeme h.1)
kind_of-punct (last t) k rest h = cc (h.1)
kind_of-punct (fault e) k rest h = absurd h.0

pub kind_of-word :
    (stream : Stream) (k : TokenKind) (v : Text) (rest : List Lexeme)
    → Holds stream (word k v ∷ rest)
    → (kind_of stream ≡ k) × (text_of stream ≡ v)
kind_of-word (token t more) k v rest h =
    lexeme_of-word (is_punctuator_token_kind t.kind) t.kind k _ v (ap first_lexeme h.1)
kind_of-word (last t) k v rest h = cc (h.1)
kind_of-word (fault e) k v rest h = absurd h.0

same-starts :
    (b : Bool) (k k' : TokenKind) (t : Text) (rest : List Lexeme)
    → is_punctuator_token_kind k ≡ b
    → is_punctuator_token_kind k' ≡ true
    → starts k' (lexeme_of b k t ∷ rest) ≡ false
    → same k k' ≡ false
same-starts true k k' t rest p p' h = h
same-starts false k k' t rest p p' h = elim (Bool-cases (same k k')) [
  | inl e ↦ cc (ap is_punctuator_token_kind (same→eq k k' e))
  | inr e ↦ e
]

pub kind_of-starts :
    (stream : Stream) (k : TokenKind) (rest : List Lexeme)
    → is_punctuator_token_kind k ≡ true
    → Holds stream rest
    → starts k rest ≡ false
    → same (kind_of stream) k ≡ false
unfolding is_punctuator_token_kind
kind_of-starts (token t more) k rest p h q =
    same-starts (is_punctuator_token_kind t.kind) t.kind k _ (lexemes more) refl p
      (subst (λ ls. starts k ls ≡ false) (sym h.1) q)
kind_of-starts (last t) k rest p h q = elim (Bool-cases (same eof k)) [
  | inl e ↦ cc (ap is_punctuator_token_kind (same→eq eof k e))
  | inr e ↦ e
]
kind_of-starts (fault e) k rest p h q = absurd h.0

-- The run returns the node `a`, with the tokens `rest` behind it.
pub record Runs {A : Type 0} (r : Result (A × ParserState)) (a : A) (rest : List Lexeme)
    : Type 0 where
  pub state : ParserState
  pub gives : r ≡ ok (a, state)
  pub holds : Holds state.stream rest

pub Runs-bind :
    {A B : Type 0} {r : Result (A × ParserState)} {a : A} {b : B} {rest rest' : List Lexeme}
    (f : A × ParserState → Result (B × ParserState))
    → Runs r a rest
    → ((s' : ParserState) → Holds s'.stream rest → Runs (f (a, s')) b rest')
    → Runs (r >>= f) b rest'
Runs-bind {b = b} {rest' = rest'} f h k =
    subst (λ r. Runs (r >>= f) b rest') (sym h.gives) (k h.state h.holds)

pub Runs-ok :
    {A : Type 0} {a : A} {s : ParserState} {rest : List Lexeme}
    → Holds s.stream rest
    → Runs (ok (a, s)) a rest
Runs-ok {s = s} h = record { state = s; gives = refl; holds = h }

pub Runs-if :
    {A : Type 0} {b : Bool} {x : Result (A × ParserState)} (y : Result (A × ParserState)) {a : A}
    {rest : List Lexeme}
    → b ≡ true
    → Runs x a rest
    → Runs (if b then x else y) a rest
Runs-if y e h = rw e h

module _ (options : Options) (unlimited : options.max_tokens ≡ none) where
  advance_from :
      (stream : Stream) (n : ℕ) (l : Lexeme) (rest : List Lexeme)
      → Holds stream (l ∷ rest)
      → Runs (advance_lexer options (record { stream = stream; token_counter = n })) tt rest
  unfolding advance_lexer
  advance_from (token t (token t' more)) n l rest h = rw unlimited (Runs-ok (h.0, ap (drop 1) h.1))
  advance_from (token t (last t')) n l rest h = Runs-ok (tt, ap (drop 1) h.1)
  advance_from (token t (fault e)) n l rest h = absurd h.0
  advance_from (last t) n l rest h = cc (h.1)
  advance_from (fault e) n l rest h = absurd h.0

  pub advance_lexer-Runs :
      (s : ParserState) (l : Lexeme) (rest : List Lexeme)
      → Holds s.stream (l ∷ rest)
      → Runs (advance_lexer options s) tt rest
  advance_lexer-Runs s l rest h = advance_from s.stream s.token_counter l rest h

  peek-kind_of : (k : TokenKind) (s : ParserState) → kind_of s.stream ≡ k → peek options k s ≡ true
  peek-kind_of k s e = rw e (eq→same k)

  peek-punct :
      (k : TokenKind) (s : ParserState) (rest : List Lexeme)
      → Holds s.stream (punct k ∷ rest)
      → peek options k s ≡ true
  peek-punct k s rest h = peek-kind_of k s (kind_of-punct s.stream k rest h)

  pub expect_kind-Runs :
      (k : TokenKind) (s : ParserState) (l : Lexeme) (rest : List Lexeme)
      → kind_of s.stream ≡ k
      → Holds s.stream (l ∷ rest)
      → Runs (expect_token options k s) (text_of s.stream) rest
  unfolding expect_token
  expect_kind-Runs k s l rest e h =
      Runs-if _ (peek-kind_of k s e)
        (Runs-bind _ (advance_lexer-Runs s l rest h) λ s' h'. Runs-ok h')

  pub expect_token-Runs :
      (k : TokenKind) (s : ParserState) (rest : List Lexeme)
      → Holds s.stream (punct k ∷ rest)
      → Runs (expect_token options k s) (text_of s.stream) rest
  expect_token-Runs k s rest h =
      expect_kind-Runs k s (punct k) rest (kind_of-punct s.stream k rest h) h

  pub parse_name-Runs :
      (n : Text) (s : ParserState) (rest : List Lexeme)
      → Holds s.stream (word name n ∷ rest)
      → Runs (parse_name options s) n rest
  unfolding parse_name
  parse_name-Runs n s rest h =
      let (k, t) = kind_of-word s.stream name n rest h in
      subst (λ v. Runs (parse_name options s) v rest) t
        (expect_kind-Runs name s (word name n) rest k h)

  pub expect_optional_token-Runs :
      (k : TokenKind) (s : ParserState) (rest : List Lexeme)
      → Holds s.stream (punct k ∷ rest)
      → Runs (expect_optional_token options k s) true rest
  unfolding expect_optional_token
  expect_optional_token-Runs k s rest h =
      Runs-if _ (peek-punct k s rest h)
        (Runs-bind _ (advance_lexer-Runs s (punct k) rest h) λ s' h'. Runs-ok h')

  pub expect_optional_token-stays :
      (k : TokenKind) (s : ParserState) (rest : List Lexeme)
      → is_punctuator_token_kind k ≡ true
      → Holds s.stream rest
      → starts k rest ≡ false
      → Runs (expect_optional_token options k s) false rest
  unfolding expect_optional_token
  expect_optional_token-stays k s rest p h q = rw (kind_of-starts s.stream k rest p h q) (Runs-ok h)

  at_last :
      (stream : Stream) (n : ℕ)
      → Holds stream []
      → (kind_of stream ≡ eof)
        × Runs (advance_lexer options (record { stream = stream; token_counter = n })) tt []
  unfolding advance_lexer
  at_last (token t more) n h = cc (h.1)
  at_last (last t) n h = (refl, Runs-ok (tt, refl))
  at_last (fault e) n h = absurd h.0

  pub expect_eof-Runs :
      (s : ParserState)
      → Holds s.stream []
      → Runs (expect_token options eof s) (text_of s.stream) []
  unfolding expect_token
  expect_eof-Runs s h =
      let (k, r) = at_last s.stream s.token_counter h in
      Runs-if _ (peek-kind_of eof s k) (Runs-bind _ r λ s' h'. Runs-ok h')
