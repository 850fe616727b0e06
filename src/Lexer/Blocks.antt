-- ===== src/Lexer/Blocks.antt =====
-- Lexer.read_block_string, without the dedenting
use graphql_core.Prelude.{
  ℕ, ◌+◌, ◌-◌, ◌||◌, ◌&&◌, List, some, [], ◌∷◌, ◌++◌, take, drop, length, ◌==◌, if◌then◌else◌,
}
use graphql_core.Errors.{
  Text, Result, ok, err, syntax_error, unterminated_string, invalid_string_character,
}
use graphql_core.Characters.{is_unicode_scalar_value, is_supplementary_code_point}
use graphql_core.TokenKind.{block_string}
use graphql_core.BlockString.{dedent_block_string_lines, join_lines}
use graphql_core.Lexer.Token.{Token, Lines, create_token, Round, leave, next, scan_all}
use graphql_core.Lexer.Numbers.{head_is}
use graphql_core.Lexer.Escapes.{next_two_are}

pub record BlockState : Type 0 where
  pub current_line : Text
  pub block_lines : List Text
  pub line_start : ℕ

unfoldable pub block_round : Lines → ℕ → ℕ → Text → BlockState → Round BlockState (Token × Lines)
block_round lines start position [] s = leave (err (syntax_error position unterminated_string))
block_round lines start position (char ∷ rest) s =
    let all_lines : List Text = s.block_lines ++ s.current_line ∷ [] in
    if char == 34 && next_two_are 34 34 rest
    then leave (
        ok (
          create_token lines block_string start (position + 3)
              (some (join_lines (dedent_block_string_lines all_lines))),
          record { line = lines.line + (length all_lines - 1); line_start = s.line_start },
        ))
    else if char == 92 && (head_is (λ c. c == 34) rest && next_two_are 34 34 (drop 1 rest))
    then next 4 (record s { current_line = s.current_line ++ 34 ∷ 34 ∷ 34 ∷ [] })
    else if char == 13 || char == 10
    then (let n : ℕ = (if char == 13 && head_is (λ c. c == 10) rest then 2 else 1) in
        next n (record { current_line = []; block_lines = all_lines; line_start = position + n }))
    else if is_unicode_scalar_value char
    then next 1 (record s { current_line = s.current_line ++ char ∷ [] })
    else if is_supplementary_code_point (char ∷ rest)
    then next 2 (record s { current_line = s.current_line ++ take 2 (char ∷ rest) })
    else leave (err (syntax_error position (invalid_string_character char)))

-- `rest` is the body from `start + 3`, behind the opening quotes.
unfoldable pub read_block_string : Lines → ℕ → Text → Result (Token × Lines)
read_block_string lines start rest =
    scan_all (block_round lines start) (start + 3) rest
      (record { current_line = []; block_lines = []; line_start = lines.line_start })
