-- ===== src/Characters.antt =====
-- Character tests: src/graphql/language/character_classes.py, and those of lexer.py.
use graphql_core.Prelude.{
  ℕ, ◌-◌, Bool, false, Option, none, some, ◌∷◌, leb, ◌==◌, ◌&&◌, ◌||◌, if◌then◌else◌,
}
use graphql_core.Errors.{Text}

abbrev pub between : ℕ → ℕ → ℕ → Bool
between lo hi c = leb lo c && leb c hi

unfoldable pub is_digit : ℕ → Bool
is_digit c = between 0x30 0x39 c

unfoldable pub is_letter : ℕ → Bool
is_letter c = between 0x41 0x5A c || between 0x61 0x7A c

unfoldable pub is_name_start : ℕ → Bool
unfolding is_letter
is_name_start c = is_letter c || c == 0x5F

unfoldable pub is_name_continue : ℕ → Bool
unfolding is_letter is_digit
is_name_continue c = (is_letter c || is_digit c) || c == 0x5F

-- `none` is the source's -1.
unfoldable pub read_hex_digit : ℕ → Option ℕ
read_hex_digit c =
    if between 0x30 0x39 c
    then some (c - 48)
    else if between 0x41 0x46 c
    then some (c - 55)
    else if between 0x61 0x66 c
    then some (c - 87)
    else none

unfoldable pub is_unicode_scalar_value : ℕ → Bool
is_unicode_scalar_value c = between 0 0xD7FF c || between 0xE000 0x10FFFF c

-- `text` is the body from the location on; past its end the source catches the IndexError.
unfoldable pub is_supplementary_code_point : Text → Bool
is_supplementary_code_point (a ∷ b ∷ rest) = between 0xD800 0xDBFF a && between 0xDC00 0xDFFF b
is_supplementary_code_point _ = false
