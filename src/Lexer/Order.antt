-- ===== src/Lexer/Order.antt =====
-- src/graphql/language/lexer.py: the places of the tokens of a body.
use graphql_core.Prelude.{
  ℕ, zero, suc, ◌+◌, ◌-◌, ◌≤◌, ◌<◌, ◌≡◌, ◌≢◌, true, false, arith, length, drop, length-drop,
  if◌then◌else◌, Bool-cases, inl, inr,
}
use graphql_core.Errors.{
  Text, Error, Result, ok, err, out_of_fuel, Ensures, returns, raises, raises_index,
}
use graphql_core.TokenKind.{is_eof, is_comment}
use graphql_core.Lexer.Token.{Token, Lines}
use graphql_core.Lexer.Next.{Stream, last, fault, token, read_next_token, tokens, lex}
use graphql_core.Lexer.Bounds.Next.{IsRead, at_end, in_body, read_next_token-IsRead}

-- Tokens from `start` on in a body of `total` characters: each begins where the one before it ends
-- or later, has a character, and is no comment and not EOF but for the last, which is EOF at the end.
-- The stream breaks off only at an exception of the program.
pub data IsOrdered (total : ℕ) : ℕ → Stream → Type 0 where
  ends :
      {start : ℕ} {t : Token}
      → is_eof t.kind ≡ true
      → t.start ≡ total
      → t.end ≡ total
      → IsOrdered total start (last t)
  breaks : {start : ℕ} {e : Error} → e ≢ out_of_fuel → IsOrdered total start (fault e)
  goes_on :
      {start : ℕ} {t : Token} {more : Stream}
      → start ≤ t.start
      → t.start < t.end
      → t.end ≤ total
      → is_eof t.kind ≡ false
      → is_comment t.kind ≡ false
      → IsOrdered total t.end more
      → IsOrdered total start (token t more)

IsOrdered-le :
    {total start' : ℕ} {s : Stream} (start : ℕ)
    → start ≤ start'
    → IsOrdered total start' s
    → IsOrdered total start s
IsOrdered-le start h (ends e a b) = ends e a b
IsOrdered-le start h (breaks e) = breaks e
IsOrdered-le start h (goes_on a b c d f more) = goes_on (omega arith) b c d f more

module _ (total start : ℕ) (text : Text) (w : start + length text ≡ total) where
  -- One token, with the tokens behind it.
  IsOrdered-step :
      (t : Token) (more : Stream)
      → IsRead start total t
      → (is_eof t.kind ≡ false → IsOrdered total t.end more)
      → IsOrdered total start
          (if is_eof t.kind then last t else if is_comment t.kind then more else token t more)
  IsOrdered-step t more (at_end e a b) k = rw e (ends e a b)
  IsOrdered-step t more (in_body a b c e) k = rw e (elim (Bool-cases (is_comment t.kind)) [
    | inl h ↦ rw h (IsOrdered-le start (omega arith) (k e))
    | inr h ↦ rw h (goes_on a b c e h (k e))
  ])

  IsOrdered-result :
      (fuel : ℕ) (r : Result (Token × Lines))
      → Ensures (λ r. IsRead start total r.0) r
      → ((t : Token) (lines : Lines)
          → start < t.end
          → t.end ≤ total
          → IsOrdered total t.end (tokens fuel lines t.end (drop (t.end - start) text)))
      → IsOrdered total start (elim r [
        | err e ↦ fault e
        | ok (t, lines') ↦
            let more : Stream = tokens fuel lines' t.end (drop (t.end - start) text) in
            if is_eof t.kind then last t else if is_comment t.kind then more else token t more
      ])
  IsOrdered-result fuel (ok (t, lines)) (returns p) k =
      IsOrdered-step t (tokens fuel lines t.end (drop (t.end - start) text)) p
        (λ e. k t lines (grown t p e) (fitting t p))
    where
      grown : (t : Token) → IsRead start total t → is_eof t.kind ≡ false → start < t.end
      grown t (at_end e a b) h = cc
      grown t (in_body a b c e) h = omega arith

      fitting : (t : Token) → IsRead start total t → t.end ≤ total
      fitting t (at_end e a b) = omega arith
      fitting t (in_body a b c e) = c
  IsOrdered-result fuel (err e) raises k = breaks (cc)
  IsOrdered-result fuel (err e) raises_index k = breaks (cc)

tokens-IsOrdered :
    (fuel total : ℕ) (lines : Lines) (position : ℕ) (text : Text)
    → length text < fuel
    → position + length text ≡ total
    → IsOrdered total position (tokens fuel lines position text)
unfolding tokens
tokens-IsOrdered zero total lines position text h w = absurd (omega arith)
tokens-IsOrdered (suc fuel) total lines position text h w =
    IsOrdered-result total position text w fuel (read_next_token lines position text)
      (rw w at (read_next_token-IsRead lines position text))
      (λ t lines' a b.
        tokens-IsOrdered fuel total lines' t.end (drop (t.end - position) text)
          (omega (arith, length-drop (t.end - position) text))
          (omega (arith, length-drop (t.end - position) text)))

-- Lexing any text, valid or not, comes to an end: each token that the parser is given begins where
-- the one before it ended or later, has at least one character, ends in the text and is no comment;
-- the last is EOF, at the end of the text, unless the lexer raises an exception before it.
pub lex-IsOrdered : (body : Text) → IsOrdered (length body) 0 (lex body)
unfolding lex
lex-IsOrdered body =
    tokens-IsOrdered (suc (length body)) (length body) _ 0 body (omega arith) (omega arith)
