-- ===== src/PrintString/Tests.antt =====
-- A printed string, read back.
use graphql_core.Prelude.{◌+◌, ◌≡◌, refl, some, [], ◌∷◌, ◌++◌, length}
use graphql_core.Errors.{Text, ok}
use graphql_core.Text.{codes}
use graphql_core.TokenKind.{string}
use graphql_core.Characters.{is_unicode_scalar_value}
use graphql_core.Lexer.Token.{Lines, create_token}
use graphql_core.Lexer.Next.{read_next_token}
use graphql_core.PrintString.{print_string}
use graphql_core.PrintString.RoundTrip.{IsSourceText, read_next_token-print_string}

abbrev line_three : Lines
line_three = record { line = 3; line_start = 20 }

-- A quote, a line feed, DEL and a character beyond the basic plane.
abbrev awkward : Text
awkward = 34 ∷ 10 ∷ 0x7F ∷ 0x1F600 ∷ []

print_string-awkward : print_string awkward ≡ codes "\"\\\"\\n\\u007F" ++ (0x1F600 ∷ 34 ∷ [])
unfolding print_string graphql_core.PrintString.translate graphql_core.PrintString.escape_sequence
    graphql_core.PrintString.hex_char
print_string-awkward = refl

awkward-IsSourceText : IsSourceText awkward
unfolding is_unicode_scalar_value
awkward-IsSourceText = (refl, (refl, (refl, (refl, tt))))

read_next_token-print_string_example :
    read_next_token line_three 24 (print_string awkward ++ codes ")")
    ≡ ok (
      create_token line_three string 24 (24 + length (print_string awkward)) (some awkward),
      line_three,
    )
read_next_token-print_string_example =
    read_next_token-print_string line_three 24 awkward (codes ")") awkward-IsSourceText (λ e. refl)
