-- ===== src/PrintString.antt =====
-- src/graphql/language/print_string.py
pub mod RoundTrip
mod Tests
use graphql_core.Prelude.{ℕ, ◌+◌, ◌/◌, ◌%◌, ◌||◌, [], ◌∷◌, ◌++◌, ltb, ◌==◌, if◌then◌else◌}
use graphql_core.Errors.{Text}
use graphql_core.Characters.{between}

-- The digits of the table are upper case.
unfoldable pub hex_char : ℕ → ℕ
hex_char d = if ltb d 10 then 48 + d else 55 + d

-- `escape_sequences`: the code points of its keys, and for each the text of its value.
unfoldable pub escape_sequence : ℕ → Text
escape_sequence c =
    if c == 8
    then 92 ∷ b'b' ∷ []
    else if c == 9
    then 92 ∷ b't' ∷ []
    else if c == 10
    then 92 ∷ b'n' ∷ []
    else if c == 12
    then 92 ∷ b'f' ∷ []
    else if c == 13
    then 92 ∷ b'r' ∷ []
    else if c == 34
    then 92 ∷ 34 ∷ []
    else if c == 92
    then 92 ∷ 92 ∷ []
    else if ltb c 0x20 || between 0x7F 0x9F c
    then 92 ∷ b'u' ∷ 48 ∷ 48 ∷ hex_char (c / 16) ∷ hex_char (c % 16) ∷ []
    else c ∷ []

-- `s.translate(escape_sequences)`
unfoldable pub translate : Text → Text
translate [] = []
translate (c ∷ s) = escape_sequence c ++ translate s

unfoldable pub print_string : Text → Text
print_string s = 34 ∷ translate s ++ 34 ∷ []
