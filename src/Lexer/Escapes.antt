-- ===== src/Lexer/Escapes.antt =====
-- Escape sequences of single-quote strings. `text` is the body from the backslash on.
use graphql_core.Prelude.{
  ℕ, ◌+◌, ◌-◌, ◌*◌, Bool, not, ◌||◌, ◌&&◌, Option, none, some, [], ◌∷◌, take, drop, ltb, ◌==◌,
  if◌then◌else◌,
}
use graphql_core.Errors.{
  Text, Result, ok, err, ◌>>=◌, syntax_error, index_error, invalid_unicode_escape,
  invalid_character_escape,
}
use graphql_core.Characters.{between, read_hex_digit}
use graphql_core.Lexer.Token.{EscapeSequence}

-- `_ESCAPED_CHARS`
unfoldable pub escaped_char : ℕ → Option ℕ
escaped_char c =
    if c == 34
    then some 34
    else if c == 0x2F
    then some 0x2F
    else if c == 92
    then some 92
    else if c == 0x62
    then some 8
    else if c == 0x66
    then some 12
    else if c == 0x6E
    then some 10
    else if c == 0x72
    then some 13
    else if c == 0x74
    then some 9
    else none

-- `body[position + 1]` is read with no test for the end of the body.
unfoldable pub read_escaped_character : ℕ → Text → Result EscapeSequence
unfolding escaped_char
read_escaped_character position (backslash ∷ c ∷ rest) = elim (escaped_char c) [
  | some v ↦ ok (record { value = v ∷ []; size = 2 })
  | none ↦ err (syntax_error position (invalid_character_escape (backslash ∷ c ∷ [])))
]
read_escaped_character position _ = err index_error

-- `none` is a negative number: OR with -1, the value of no digit, is negative.
abbrev pub join_digits : Option ℕ → Option ℕ → Option ℕ → Option ℕ → Option ℕ
join_digits (some a) (some b) (some c) (some d) = some (a * 4096 + b * 256 + c * 16 + d)
join_digits _ _ _ _ = none

-- `text` is the body from the first digit on; all four characters are read.
unfoldable pub read_16_bit_hex_code : Text → Result (Option ℕ)
unfolding read_hex_digit
read_16_bit_hex_code (a ∷ b ∷ c ∷ d ∷ rest) =
    ok (join_digits (read_hex_digit a) (read_hex_digit b) (read_hex_digit c) (read_hex_digit d))
read_16_bit_hex_code _ = err index_error

abbrev in_range : ℕ → ℕ → Option ℕ → Bool
in_range lo hi (some code) = between lo hi code
in_range lo hi none = Bool.false

abbrev pub value_of : Option ℕ → ℕ
value_of (some code) = code
value_of none = 0

abbrev pub is_scalar : Option ℕ → Bool
is_scalar code = in_range 0 0xD7FF code || in_range 0xE000 0x10FFFF code

abbrev pub next_two_are : ℕ → ℕ → Text → Bool
next_two_are a b (c ∷ d ∷ rest) = c == a && d == b
next_two_are a b _ = Bool.false

-- The code point of a surrogate pair, as UTF-16 has it.
abbrev pub surrogate_pair : ℕ → ℕ → ℕ
surrogate_pair hi lo = 0x10000 + (hi - 0xD800) * 0x400 + (lo - 0xDC00)

abbrev pub is_leading : Option ℕ → Text → Bool
is_leading code text = in_range 0xD800 0xDBFF code && next_two_are 92 0x75 (drop 6 text)

abbrev pub is_trailing : Option ℕ → Bool
is_trailing code = in_range 0xDC00 0xDFFF code

abbrev fixed_width_error : ℕ → Text → Result EscapeSequence
fixed_width_error position text = err (syntax_error position (invalid_unicode_escape (take 6 text)))

-- The trailing half of a surrogate pair, behind the leading half `code`.
unfoldable pub read_trailing : ℕ → Text → Option ℕ → Result EscapeSequence
unfolding read_16_bit_hex_code
read_trailing position text code = do
  trailing ← read_16_bit_hex_code (drop 8 text)
  if is_trailing trailing
      then ok
          (record { value = surrogate_pair (value_of code) (value_of trailing) ∷ []; size = 12 })
      else fixed_width_error position text

unfoldable pub read_escaped_unicode_fixed_width : ℕ → Text → Result EscapeSequence
unfolding read_16_bit_hex_code read_trailing
read_escaped_unicode_fixed_width position text = do
  code ← read_16_bit_hex_code (drop 2 text)
  if is_scalar code
      then ok (record { value = value_of code ∷ []; size = 6 })
      else if is_leading code text
      then read_trailing position text code
      else fixed_width_error position text

-- The loop over `body[position + size]` for `size < max_size`; `digits` is what it can still read.
unfoldable pub variable_width : ℕ → Text → ℕ → Text → ℕ → Result EscapeSequence
variable_width position text size [] point =
    err (syntax_error position (invalid_unicode_escape (take size text)))
variable_width position text size (char ∷ digits) point =
    let invalid : Result EscapeSequence =
      err (syntax_error position (invalid_unicode_escape (take (size + 1) text))) in
    let closed : Result EscapeSequence =
      (if ltb (size + 1) 5 || not (is_scalar (some point))
        then invalid
        else ok (record { value = point ∷ []; size = size + 1 })) in
    let more : Result EscapeSequence = elim (read_hex_digit char) [
      | none ↦ invalid
      | some digit ↦ variable_width position text (size + 1) digits (point * 16 + digit)
    ] in
    if char == 0x7D then closed else more

-- At most 12 characters of the body belong to the sequence.
unfoldable pub read_escaped_unicode_variable_width : ℕ → Text → Result EscapeSequence
unfolding variable_width
read_escaped_unicode_variable_width position text =
    variable_width position text 3 (take 9 (drop 3 text)) 0
