-- ===== src/Lexer/Next.antt =====
-- Lexer.read_next_token, and the chain of tokens that lookahead and advance walk.
use graphql_core.Prelude.{
  ℕ, zero, suc, ◌+◌, ◌-◌, Bool, ◌||◌, Option, none, some, [], ◌∷◌, length, drop, ◌==◌,
  if◌then◌else◌,
}
use graphql_core.Errors.{
  Text, Error, Result, ok, err, ◌>>=◌, syntax_error, out_of_fuel, unexpected_dots,
  missing_leading_digit, single_quote, unexpected_character, invalid_character,
}
use graphql_core.Characters.{
  is_digit, is_name_start, is_unicode_scalar_value, is_supplementary_code_point,
}
use graphql_core.TokenKind.{
  TokenKind, eof, bang, dollar, amp, paren_l, paren_r, spread, colon, equals, at, bracket_l,
  bracket_r, brace_l, pipe, brace_r, is_comment, is_eof,
}
use graphql_core.Lexer.Token.{Token, Lines, create_token, Round, leave, next, scan_all}
use graphql_core.Lexer.Numbers.{head_is, tail, read_name, read_number, read_comment}
use graphql_core.Lexer.Escapes.{next_two_are}
use graphql_core.Lexer.Strings.{read_string}
use graphql_core.Lexer.Blocks.{read_block_string}

-- `_KIND_FOR_PUNCT`
unfoldable pub kind_for_punct : ℕ → Option TokenKind
kind_for_punct c =
    if c == b'!'
    then some bang
    else if c == b'$'
    then some dollar
    else if c == b'&'
    then some amp
    else if c == b'('
    then some paren_l
    else if c == b')'
    then some paren_r
    else if c == b':'
    then some colon
    else if c == b'='
    then some equals
    else if c == b'@'
    then some at
    else if c == b'['
    then some bracket_l
    else if c == b']'
    then some bracket_r
    else if c == b'{'
    then some brace_l
    else if c == b'}'
    then some brace_r
    else if c == b'|'
    then some pipe
    else none

-- `char in " \t,\ufeff"`
unfoldable pub is_ignored : ℕ → Bool
is_ignored c = (c == 32 || c == 9) || (c == 44 || c == 0xFEFF)

abbrev pub digits_of : Text → Text
digits_of [] = []
digits_of (c ∷ rest) = if is_digit c then c ∷ digits_of rest else []

-- No token begins with this character.
unfoldable pub reject_character : ℕ → ℕ → Text → Result (Token × Lines)
reject_character position char rest = err (
    syntax_error position (
      if char == 39
      then single_quote
      else if is_unicode_scalar_value char || is_supplementary_code_point (char ∷ rest)
      then unexpected_character char
      else invalid_character char))

unfoldable pub read_dots : Lines → ℕ → ℕ → Text → Result (Token × Lines)
unfolding reject_character
read_dots lines position char rest =
    if head_is (λ c. c == 46) rest
    then (if head_is (λ c. c == 46) (tail rest)
        then ok (create_token lines spread position (position + 3) none, lines)
        else err (syntax_error position unexpected_dots))
    else if head_is is_digit rest
    then err (syntax_error position (missing_leading_digit (digits_of rest)))
    else reject_character position char rest

abbrev pub keep_lines : Lines → Result Token → Result (Token × Lines)
keep_lines lines r = r >>= λ t. ok (t, lines)

unfoldable pub read_token_at : Lines → ℕ → ℕ → Text → Result (Token × Lines)
unfolding read_dots
read_token_at lines position char rest =
    if char == 35
    then keep_lines lines (read_comment lines position rest)
    else if char == 34
    then (if next_two_are 34 34 rest
        then read_block_string lines position (drop 2 rest)
        else keep_lines lines (read_string lines position rest))
    else elim (kind_for_punct char) [
      | some kind ↦ ok (create_token lines kind position (position + 1) none, lines)
      | none ↦
          if is_digit char || char == 45
          then keep_lines lines (read_number lines position (char ∷ rest))
          else if is_name_start char
          then keep_lines lines (read_name lines position (char ∷ rest))
          else if char == 46
          then read_dots lines position char rest
          else reject_character position char rest
    ]

unfoldable pub token_round : ℕ → Text → Lines → Round Lines (Token × Lines)
token_round position [] lines = leave (ok (create_token lines eof position position none, lines))
token_round position (char ∷ rest) lines =
    if is_ignored char
    then next 1 lines
    else if char == 10
    then next 1 (record { line = lines.line + 1; line_start = position + 1 })
    else if char == 13
    then (let n : ℕ = (if head_is (λ c. c == 10) rest then 2 else 1) in
        next n (record { line = lines.line + 1; line_start = position + n }))
    else leave (read_token_at lines position char rest)

-- `text` is the body from `start` on.
unfoldable pub read_next_token : Lines → ℕ → Text → Result (Token × Lines)
read_next_token lines start text = scan_all token_round start text lines

-- The tokens that are not comments, to the end of the body or to the first error. The source reads
-- each of them once, when the parser first looks at it.
pub data Stream : Type 0 where
  last : Token → Stream
  fault : Error → Stream
  token : Token → Stream → Stream

unfoldable pub tokens : ℕ → Lines → ℕ → Text → Stream
tokens zero lines position text = fault out_of_fuel
tokens (suc fuel) lines position text = elim (read_next_token lines position text) [
  | err e ↦ fault e
  | ok (t, lines') ↦
      let more : Stream = tokens fuel lines' t.end (drop (t.end - position) text) in
      if is_eof t.kind then last t else if is_comment t.kind then more else token t more
]

-- Lexer(source): the tokens behind the SOF token.
unfoldable pub lex : Text → Stream
unfolding tokens
lex body = tokens (suc (length body)) (record { line = 1; line_start = 0 }) 0 body
