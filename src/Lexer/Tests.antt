-- ===== src/Lexer/Tests.antt =====
-- Runs of the lexer on concrete texts.
use graphql_core.Prelude.{◌++◌, some}
use graphql_core.Errors.{ok}
use graphql_core.TokenKind.{name}
use graphql_core.Characters.{is_name_start, is_name_continue}
use graphql_core.Lexer.Token.{create_token}
use graphql_core.Lexer.Names.{read_next_token-name}
use graphql_core.Prelude.{◌+◌, ◌≡◌, refl, length}
use graphql_core.Errors.{Text, err, index_error, Ensures}
use graphql_core.Text.{codes}
use graphql_core.Lexer.Token.{Lines}
use graphql_core.Lexer.Next.{read_next_token, lex}
use graphql_core.Lexer.Numbers.{read_number}
use graphql_core.Lexer.Order.{IsOrdered, lex-IsOrdered}
use graphql_core.Lexer.Bounds.{Spans}
use graphql_core.Lexer.Bounds.Next.{IsRead, read_next_token-IsRead}
use graphql_core.Lexer.Bounds.Numbers.{read_number-Spans}

abbrev first_line : Lines
first_line = record { line = 1; line_start = 0 }

abbrev query_text : Text
query_text = codes "{ a(b: -1.50e3) ...c } # the end"

abbrev cut_off : Text
cut_off = codes "{ a(b: \"\\"

read_next_token-backslash_at_end : read_next_token first_line 0 (codes "\"\\") ≡ err index_error
unfolding read_next_token graphql_core.Lexer.Token.scan graphql_core.Lexer.Next.token_round
    graphql_core.Lexer.Next.is_ignored graphql_core.Lexer.Next.read_token_at
    graphql_core.Lexer.Strings.read_string graphql_core.Lexer.Strings.string_round
    graphql_core.Lexer.Strings.read_escape graphql_core.Lexer.Escapes.read_escaped_character
read_next_token-backslash_at_end = refl

lex-IsOrdered_example : IsOrdered (length query_text) 0 (lex query_text)
lex-IsOrdered_example = lex-IsOrdered query_text

read_next_token-IsRead_example :
    Ensures (λ r. IsRead 3 (3 + length query_text) r.0) (read_next_token first_line 3 query_text)
read_next_token-IsRead_example = read_next_token-IsRead first_line 3 query_text

read_number-Spans_example :
    Ensures (Spans 2 (2 + length (codes "-1.50e3)"))) (read_number first_line 2 (codes "-1.50e3)"))
read_number-Spans_example = read_number-Spans first_line 2 (codes "-1.50e3)")

read_next_token-name_example :
    read_next_token first_line 5 (codes "_id1" ++ codes ": x")
    ≡ ok (create_token first_line name 5 9 (some (codes "_id1")), first_line)
unfolding is_name_start is_name_continue graphql_core.Characters.is_letter
    graphql_core.Characters.is_digit
read_next_token-name_example =
    read_next_token-name first_line 5 95 (codes "id1") (codes ": x") refl (refl, (refl, (refl, tt)))
      refl
