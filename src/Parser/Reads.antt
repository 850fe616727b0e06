-- ===== src/Parser/Reads.antt =====
-- Postconditions of parsers: the tokens that a run has consumed.
use graphql_core.Prelude.{
  ℕ, ◌+◌, ◌-◌, ◌≤◌, ◌≡◌, ◌≢◌, refl, sym, ◌∙◌, ap, Bool, true, false, ◌&&◌, Option, none, some, List,
  [], ◌∷◌, ◌++◌, append_assoc, arith, length, length-append, if◌then◌else◌, subst,
}
use graphql_core.Errors.{
  Text, syntax_error, index_error, out_of_fuel, Ensures, returns, raises, raises_index, Ensures-if,
  Ensures-bind,
}
use graphql_core.Text.{same_text→eq}
use graphql_core.TokenKind.{TokenKind, is_punctuator_token_kind, eof, name}
use graphql_core.Lexer.Next.{Stream, last, fault, token}
use graphql_core.Grammar.{Lexeme, word, lexemes, lexeme_of}
use graphql_core.Parser.State.{
  Options, ParserState, kind_of, text_of, same→eq, peek, over, advance_lexer, expect_token,
  expect_optional_token, at_keyword, expect_keyword, expect_optional_keyword,
}

-- EOF comes last, and a failure of the lexer is an exception of the program.
abbrev pub IsClean : Stream → Type 0
IsClean (token t more) = (t.kind ≢ eof) × IsClean more
IsClean (last t) = Unit
IsClean (fault e) = e ≢ out_of_fuel

-- The tokens go on to EOF.
abbrev pub IsWhole : Stream → Type 0
IsWhole (token t more) = IsWhole more
IsWhole (last t) = Unit
IsWhole (fault e) = ⊥

abbrev pub size : ParserState → ℕ
size s = length (lexemes s.stream)

-- A parser that went from `s` to `s'` has consumed these tokens, and kept to its limit. The counter
-- counts the tokens that became the current token, EOF aside.
pub record Read (options : Options) (s : ParserState) (consumed : List Lexeme) (s' : ParserState)
    : Type 0 where
  pub taken : lexemes s.stream ≡ consumed ++ lexemes s'.stream
  pub clean : IsClean s'.stream
  pub whole : IsWhole s'.stream → IsWhole s.stream
  pub counted : s.token_counter + (size s - 1) ≡ s'.token_counter + (size s' - 1)
  pub limited :
      (limit : ℕ)
      → options.max_tokens ≡ some limit
      → s.token_counter ≤ limit
      → s'.token_counter ≤ limit

module _ {options : Options} where
  pub Read-nil : (s : ParserState) → IsClean s.stream → Read options s [] s
  Read-nil s c = record {
    taken = refl;
    clean = c;
    whole = λ w. w;
    counted = refl;
    limited = λ limit e h. h;
  }

  pub Read-append :
      {s t u : ParserState} {xs ys : List Lexeme}
      → Read options s xs t
      → Read options t ys u
      → Read options s (xs ++ ys) u
  Read-append {xs = xs} {ys = ys} p q = record {
    taken = p.taken ∙ ap (λ z. xs ++ z) q.taken ∙ sym (append_assoc xs ys _);
    clean = q.clean;
    whole = λ w. p.whole (q.whole w);
    counted = p.counted ∙ q.counted;
    limited = λ limit e h. q.limited limit e (p.limited limit e h);
  }

  pub Read-size :
      {s t : ParserState} {xs : List Lexeme} → Read options s xs t → size s ≡ length xs + size t
  Read-size {t = t} {xs = xs} p = ap length p.taken ∙ length-append xs (lexemes t.stream)

-- The lexeme of a token of this kind.
abbrev pub lexeme_at : TokenKind → Text → Lexeme
lexeme_at kind text = lexeme_of (is_punctuator_token_kind kind) kind text

module _ (options : Options) where
  within : (limit count : ℕ) (o : Option ℕ) → over o count ≡ false → o ≡ some limit → count ≤ limit
  within limit count none h e = cc
  within limit count (some l) h e = ground arith

  advance_from :
      (stream : Stream) (n : ℕ)
      → IsClean stream
      → kind_of stream ≢ eof
      → Ensures
          (λ r.
            Read options
              (record { stream = stream; token_counter = n })
              (lexeme_at (kind_of stream) (text_of stream) ∷ [])
              r.1)
          (advance_lexer options (record { stream = stream; token_counter = n }))
  unfolding advance_lexer
  advance_from (last t) n c h = absurd (h refl)
  advance_from (fault e) n c h = absurd (h refl)
  advance_from (token t (fault (syntax_error p m))) n c h = raises
  advance_from (token t (fault index_error)) n c h = raises_index
  advance_from (token t (fault out_of_fuel)) n c h = absurd (c.1 refl)
  advance_from (token t (last t')) n c h = returns (record {
    taken = refl;
    clean = c.1;
    whole = λ w. w;
    counted = refl;
    limited = λ limit e k. k;
  })
  advance_from (token t (token t' more)) n c h =
      Ensures-if (over options.max_tokens (n + 1)) (λ e. raises)
        (λ e. returns (record {
          taken = refl;
          clean = c.1;
          whole = λ w. w;
          counted = omega arith;
          limited = λ limit e' k. within limit (n + 1) options.max_tokens e e';
        }))

  -- Advancing consumes the current token, unless that is EOF.
  pub advance_lexer-Read :
      (s : ParserState)
      → IsClean s.stream
      → kind_of s.stream ≢ eof
      → Ensures
          (λ r. Read options s (lexeme_at (kind_of s.stream) (text_of s.stream) ∷ []) r.1)
          (advance_lexer options s)
  advance_lexer-Read s c h = advance_from s.stream s.token_counter c h

  advance_at :
      (kind : TokenKind) (s : ParserState)
      → IsClean s.stream
      → kind ≢ eof
      → kind_of s.stream ≡ kind
      → Ensures
          (λ r. Read options s (lexeme_at kind (text_of s.stream) ∷ []) r.1)
          (advance_lexer options s)
  advance_at kind s c h e =
      subst
        (λ k.
          Ensures (λ r. Read options s (lexeme_at k (text_of s.stream) ∷ []) r.1)
            (advance_lexer options s))
        e (advance_lexer-Read s c (λ e'. h (sym e ∙ e')))

  pub expect_token-Read :
      (kind : TokenKind) (s : ParserState)
      → IsClean s.stream
      → kind ≢ eof
      → Ensures (λ r. Read options s (lexeme_at kind r.0 ∷ []) r.1) (expect_token options kind s)
  unfolding expect_token
  expect_token-Read kind s c h =
      Ensures-if (peek options kind s)
        (λ e. Ensures-bind (advance_at kind s c h (same→eq _ _ e)) (λ (u, s') r. returns r))
        (λ e. raises)

  abbrev pub optional_lexeme : TokenKind → Bool → List Lexeme
  optional_lexeme kind b = if b then lexeme_at kind [] ∷ [] else []

  pub expect_optional_token-Read :
      (kind : TokenKind) (s : ParserState)
      → IsClean s.stream
      → is_punctuator_token_kind kind ≡ true
      → Ensures
          (λ r. Read options s (optional_lexeme kind r.0) r.1)
          (expect_optional_token options kind s)
  unfolding expect_optional_token is_punctuator_token_kind
  expect_optional_token-Read kind s c h =
      Ensures-if (peek options kind s)
        (λ e.
          Ensures-bind (advance_at kind s c (not_eof kind h) (same→eq _ _ e))
            (λ (u, s') r. returns (same_lexeme kind _ h r)))
        (λ e. returns (Read-nil s c))
    where
      not_eof : (kind : TokenKind) → is_punctuator_token_kind kind ≡ true → kind ≢ eof
      not_eof kind h e = cc (ap is_punctuator_token_kind e)

      same_lexeme :
          (kind : TokenKind) {s' : ParserState} (text : Text)
          → is_punctuator_token_kind kind ≡ true
          → Read options s (lexeme_at kind text ∷ []) s'
          → Read options s (lexeme_at kind [] ∷ []) s'
      same_lexeme kind text h r = rw h (rw h at r)

  and_both : (a b : Bool) → (a && b) ≡ true → (a ≡ true) × (b ≡ true)
  and_both true b h = (refl, h)
  and_both false b h = cc

  at_keyword→ :
      (value : Text) (s : ParserState)
      → at_keyword options value s ≡ true
      → (kind_of s.stream ≡ name) × (text_of s.stream ≡ value)
  at_keyword→ value s h = let both = and_both _ _ h in (same→eq _ _ both.0, same_text→eq _ _ both.1)

  pub expect_keyword-Read :
      (value : Text) (s : ParserState)
      → IsClean s.stream
      → Ensures (λ r. Read options s (word name value ∷ []) r.1) (expect_keyword options value s)
  unfolding expect_keyword is_punctuator_token_kind
  expect_keyword-Read value s c =
      Ensures-if (at_keyword options value s)
        (λ e. let (k, t) = at_keyword→ value s e in rw t at (advance_at name s c (cc) k))
        (λ e. raises)

  pub expect_optional_keyword-Read :
      (value : Text) (s : ParserState)
      → IsClean s.stream
      → Ensures
          (λ r. Read options s (if r.0 then word name value ∷ [] else []) r.1)
          (expect_optional_keyword options value s)
  unfolding expect_optional_keyword is_punctuator_token_kind
  expect_optional_keyword-Read value s c =
      Ensures-if (at_keyword options value s)
        (λ e.
          let (k, t) = at_keyword→ value s e in
          Ensures-bind (advance_at name s c (cc) k) (λ (u, s') r. returns (rw t at r)))
        (λ e. returns (Read-nil s c))
