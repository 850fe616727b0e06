-- ===== src/Lexer/Strings.antt =====
-- Lexer.read_string
use graphql_core.Prelude.{ℕ, ◌+◌, ◌||◌, some, [], ◌∷◌, ◌++◌, take, drop, ◌==◌, if◌then◌else◌}
use graphql_core.Errors.{
  Text, Result, ok, err, syntax_error, unterminated_string, invalid_string_character,
}
use graphql_core.Characters.{is_unicode_scalar_value, is_supplementary_code_point}
use graphql_core.TokenKind.{string}
use graphql_core.Lexer.Token.{
  Token, Lines, EscapeSequence, create_token, Round, leave, next, scan_all,
}
use graphql_core.Lexer.Numbers.{head_is}
use graphql_core.Lexer.Escapes.{
  read_escaped_character, read_escaped_unicode_fixed_width, read_escaped_unicode_variable_width,
}

-- The choice of the reader by the two characters behind the backslash.
unfoldable pub read_escape : ℕ → Text → Result EscapeSequence
read_escape position text =
    if head_is (λ c. c == 0x75) (drop 1 text)
    then (if head_is (λ c. c == 0x7B) (drop 2 text)
        then read_escaped_unicode_variable_width position text
        else read_escaped_unicode_fixed_width position text)
    else read_escaped_character position text

-- `value` is what the chunks so far join to, the one that is being read included.
unfoldable pub string_round : Lines → ℕ → ℕ → Text → Text → Round Text Token
string_round lines start position [] value = leave (err (syntax_error position unterminated_string))
string_round lines start position (char ∷ rest) value =
    if char == 34
    then leave (ok (create_token lines string start (position + 1) (some value)))
    else if char == 92
    then elim (read_escape position (char ∷ rest)) [
      | ok escape ↦ next escape.size (value ++ escape.value)
      | err e ↦ leave (err e)
    ]
    else if char == 13 || char == 10
    then leave (err (syntax_error position unterminated_string))
    else if is_unicode_scalar_value char
    then next 1 (value ++ char ∷ [])
    else if is_supplementary_code_point (char ∷ rest)
    then next 2 (value ++ take 2 (char ∷ rest))
    else leave (err (syntax_error position (invalid_string_character char)))

-- `rest` is the body from `start + 1`, behind the opening quote.
unfoldable pub read_string : Lines → ℕ → Text → Result Token
read_string lines start rest = scan_all (string_round lines start) (start + 1) rest []
