-- ===== src/Lexer/Bounds/Next.antt =====
-- src/graphql/language/lexer.py: the bounds of read_next_token.
use graphql_core.Prelude.{
  ℕ, suc, ◌+◌, ◌≤◌, ◌<◌, ◌≡◌, refl, true, false, some, none, Option, [], ◌∷◌, arith, length, drop,
  length-drop, ◌==◌, ◌||◌,
}
use graphql_core.Errors.{
  Text, Result, ok, Ensures, returns, raises, Ensures-map, Ensures-if, Ensures-bind,
}
use graphql_core.Characters.{is_digit, is_name_start}
use graphql_core.TokenKind.{TokenKind, spread, is_eof}
use graphql_core.Lexer.Token.{Token, Lines, create_token}
use graphql_core.Lexer.Scan.{Advances, leaves, scan_all_sound}
use graphql_core.Lexer.Numbers.{head_is, tail}
use graphql_core.Lexer.Escapes.{next_two_are}
use graphql_core.Lexer.Next.{
  kind_for_punct, is_ignored, read_dots, reject_character, keep_lines, read_token_at, token_round,
  read_next_token,
}
use graphql_core.Lexer.Bounds.{
  Within, advance_by, advance_newline, head_is-length, next_two_are-length, Advances-if, Spans,
  Spans-create_token, read_name-Spans, read_comment-Spans,
}
use graphql_core.Lexer.Bounds.Numbers.{read_number-Spans}
use graphql_core.Lexer.Bounds.Strings.{read_string-Spans, read_block_string-Spans}

kind_for_punct-not_eof :
    (c : ℕ) (kind : TokenKind) → kind_for_punct c ≡ some kind → is_eof kind ≡ false
unfolding kind_for_punct
kind_for_punct-not_eof c kind h = ground arith

abbrev SpansAt : ℕ → ℕ → Token × Lines → Type 0
SpansAt start total r = Spans start total r.0

keep_lines-SpansAt :
    (lines : Lines) (start total : ℕ) (r : Result Token)
    → Ensures (Spans start total) r
    → Ensures (SpansAt start total) (keep_lines lines r)
keep_lines-SpansAt lines start total r h = Ensures-bind h (λ t p. returns p)

read_dots-SpansAt :
    (lines : Lines) (position c : ℕ) (rest : Text)
    → Ensures (SpansAt position (position + suc (length rest))) (read_dots lines position c rest)
unfolding read_dots
read_dots-SpansAt lines position c rest =
    Ensures-if (head_is (λ c. c == 46) rest)
      (λ h.
        Ensures-if (head_is (λ c. c == 46) (tail rest))
          (λ h'. returns (
            Spans-create_token lines position _ (position + 3) spread none refl (omega arith)
              (two rest h h')))
          (λ e. raises))
      (λ e. Ensures-if (head_is is_digit rest) (λ e. raises) (λ e. raises))
  where
    two :
        (rest : Text)
        → head_is (λ c. c == 46) rest ≡ true
        → head_is (λ c. c == 46) (tail rest) ≡ true
        → position + 3 ≤ position + suc (length rest)
    two [] h h' = cc
    two (d ∷ rest) h h' = omega (arith, head_is-length (λ c. c == 46) 0 rest h')

punct-SpansAt :
    (lines : Lines) (position c : ℕ) (rest : Text) (o : Option TokenKind)
    → kind_for_punct c ≡ o
    → {other : Result (Token × Lines)}
    → Ensures (SpansAt position (position + suc (length rest))) other
    → Ensures (SpansAt position (position + suc (length rest))) (elim o [
      | some kind ↦ ok (create_token lines kind position (position + 1) none, lines)
      | none ↦ other
    ])
punct-SpansAt lines position c rest none e h = h
punct-SpansAt lines position c rest (some kind) e h = returns (
    Spans-create_token lines position _ (position + 1) kind none (kind_for_punct-not_eof c kind e)
      (omega arith) (omega arith))

read_token_at-SpansAt :
    (lines : Lines) (position c : ℕ) (rest : Text)
    → Ensures
        (SpansAt position (position + suc (length rest)))
        (read_token_at lines position c rest)
unfolding read_token_at reject_character
read_token_at-SpansAt lines position c rest =
    let total : ℕ = position + suc (length rest) in
    let kept = keep_lines-SpansAt lines position total in
    Ensures-if (c == 35) (λ e. kept _ (read_comment-Spans lines position rest))
      (λ e.
        Ensures-if (c == 34)
          (λ e.
            Ensures-if (next_two_are 34 34 rest)
              (λ h.
                rw (block_total rest h) at (read_block_string-Spans lines position (drop 2 rest)))
              (λ h. kept _ (read_string-Spans lines position rest)))
          (λ e. punct-SpansAt lines position c rest (kind_for_punct c) refl (
            Ensures-if (is_digit c || c == 45)
              (λ e. kept _ (read_number-Spans lines position (c ∷ rest)))
              (λ e.
                Ensures-if (is_name_start c) (λ e. kept _ (read_name-Spans lines position c rest))
                  (λ e.
                    Ensures-if (c == 46) (λ e. read_dots-SpansAt lines position c rest)
                      (λ e. raises))))))
  where
    block_total :
        (rest : Text)
        → next_two_are 34 34 rest ≡ true
        → position + 3 + length (drop 2 rest) ≡ position + suc (length rest)
    block_total rest h = omega (arith, length-drop 2 rest, next_two_are-length 34 34 rest h)

-- A token that was read from `start` on: EOF at the end of the body, or one that has characters.
pub data IsRead (start total : ℕ) (t : Token) : Type 0 where
  at_end : is_eof t.kind ≡ true → t.start ≡ total → t.end ≡ total → IsRead start total t
  in_body :
      start ≤ t.start
      → t.start < t.end
      → t.end ≤ total
      → is_eof t.kind ≡ false
      → IsRead start total t

Spans-IsRead :
    {start : ℕ} (total' total position : ℕ) (t : Token)
    → Spans position total' t
    → total' ≡ total
    → start ≤ position
    → IsRead start total t
Spans-IsRead total' total position t h e k =
    in_body (omega (arith, h.begins)) h.grows (omega (arith, h.fits)) h.not_eof

token_round-Advances :
    (start total position : ℕ) (text : Text) (lines : Lines)
    → Within start total position text
    → Advances
        (λ p t s'. Within start total p t)
        (λ r. IsRead start total r.0)
        position
        text
        (token_round position text lines)
unfolding token_round create_token
token_round-Advances start total position [] lines w =
    leaves (returns (at_end refl (omega arith) (omega arith)))
token_round-Advances start total position (c ∷ rest) lines w =
    Advances-if (is_ignored c)
      (λ e. advance_by start total position 1 (c ∷ rest) _ w (omega arith) (omega arith))
      (λ e.
        Advances-if (c == 10)
          (λ e. advance_by start total position 1 (c ∷ rest) _ w (omega arith) (omega arith))
          (λ e.
            Advances-if (c == 13)
              (λ e.
                advance_newline start total position (c ∷ rest)
                  (λ n. record { line = lines.line + 1; line_start = position + n })
                  (head_is (λ d. d == 10) rest) w (omega arith)
                  (λ h. omega (arith, head_is-length (λ d. d == 10) 0 rest h)))
              (λ e. leaves (
                Ensures-map (read_token_at-SpansAt lines position c rest) (λ r h.
                  Spans-IsRead (position + suc (length rest)) total position r.0 h (omega arith)
                    w.0)))))

-- From any place of any text, the next token is read or an exception of the program is raised: the
-- token is EOF at the end of the text, or stands in the text behind the place with at least one
-- character.
pub read_next_token-IsRead :
    (lines : Lines) (start : ℕ) (text : Text)
    → Ensures (λ r. IsRead start (start + length text) r.0) (read_next_token lines start text)
unfolding read_next_token
read_next_token-IsRead lines start text =
    scan_all_sound (λ p t s'. Within start (start + length text) p t)
      (λ r. IsRead start (start + length text) r.0) token_round
      (token_round-Advances start (start + length text)) start text lines (omega arith)
