-- ===== src/Lexer/Numbers.antt =====
-- Lexer.read_name, read_comment, read_number and read_digits. A cursor is a position with the body
-- from there on: `body[position : position + 1]` is the head of its text, if there is one.
use graphql_core.Prelude.{
  ℕ, ◌+◌, ◌-◌, Bool, true, false, ◌||◌, some, [], ◌∷◌, take, ◌==◌, if◌then◌else◌,
}
use graphql_core.Errors.{
  Text, Result, ok, err, ◌>>=◌, syntax_error, digit_after_zero, expected_digit,
}
use graphql_core.Characters.{
  is_digit, is_name_start, is_name_continue, is_unicode_scalar_value, is_supplementary_code_point,
}
use graphql_core.TokenKind.{TokenKind, name, comment, float, int}
use graphql_core.Lexer.Token.{Token, Lines, create_token, Round, leave, next, scan_all}

abbrev pub Cursor : Type 0
Cursor = ℕ × Text

unfoldable pub name_round : ℕ → Text → Unit {0} → Round (Unit {0}) ℕ
name_round position [] s = leave (ok position)
name_round position (char ∷ rest) s =
    if is_name_continue char then next 1 tt else leave (ok position)

unfoldable pub read_name : Lines → ℕ → Text → Result Token
unfolding name_round
read_name lines start [] = ok (create_token lines name start (start + 1) (some []))
read_name lines start (char ∷ rest) = do
  position ← scan_all name_round (start + 1) rest tt
  ok (create_token lines name start position (some (take (position - start) (char ∷ rest))))

unfoldable pub comment_round : ℕ → Text → Unit {0} → Round (Unit {0}) ℕ
comment_round position [] s = leave (ok position)
comment_round position (char ∷ rest) s =
    if char == 13 || char == 10
    then leave (ok position)
    else if is_unicode_scalar_value char
    then next 1 tt
    else if is_supplementary_code_point (char ∷ rest)
    then next 2 tt
    else leave (ok position)

-- `rest` is the body from `start + 1`.
unfoldable pub read_comment : Lines → ℕ → Text → Result Token
unfolding comment_round
read_comment lines start rest = do
  position ← scan_all comment_round (start + 1) rest tt
  ok (create_token lines comment start position (some (take (position - (start + 1)) rest)))

abbrev pub head_is : (ℕ → Bool) → Text → Bool
head_is test [] = false
head_is test (c ∷ rest) = test c

abbrev pub tail : Text → Text
tail [] = []
tail (c ∷ rest) = rest

-- Past the character, if it stands next.
unfoldable pub skip_one : (ℕ → Bool) → Cursor → Cursor
skip_one test (position, text) =
    if head_is test text then (position + 1, tail text) else (position, text)

unfoldable pub digit_round : ℕ → Text → Unit {0} → Round (Unit {0}) Cursor
digit_round position [] s = leave (ok (position, []))
digit_round position (char ∷ rest) s =
    if is_digit char then next 1 tt else leave (ok (position, char ∷ rest))

unfoldable pub read_digits : Cursor → Result Cursor
unfolding digit_round
read_digits (start, text) =
    if head_is is_digit text
    then scan_all digit_round (start + 1) (tail text) tt
    else err (syntax_error start expected_digit)

unfoldable pub integer_part : Cursor → Result Cursor
unfolding read_digits
integer_part (position, text) =
    if head_is (λ c. c == 0x30) text
    then (if head_is is_digit (tail text)
        then err (syntax_error (position + 1) digit_after_zero)
        else ok (position + 1, tail text))
    else read_digits (position, text)

-- The Boolean is `is_float`.
unfoldable pub fraction_part : Cursor → Result (Bool × Cursor)
unfolding read_digits
fraction_part (position, text) =
    if head_is (λ c. c == 0x2E) text
    then (do end ← read_digits (position + 1, tail text); ok (true, end))
    else ok (false, (position, text))

unfoldable pub exponent_part : Cursor → Result (Bool × Cursor)
unfolding read_digits skip_one
exponent_part (position, text) =
    if head_is (λ c. c == 0x45 || c == 0x65) text
    then (do
      end ← read_digits (skip_one (λ c. c == 0x2B || c == 0x2D) (position + 1, tail text))
      ok (true, end))
    else ok (false, (position, text))

abbrev pub number_kind : Bool → TokenKind
number_kind is_float = if is_float then float else int

unfoldable pub finish_number : Lines → ℕ → Text → Bool → Cursor → Result Token
finish_number lines start text is_float (position, rest) =
    if head_is (λ c. c == 0x2E || is_name_start c) rest
    then err (syntax_error position expected_digit)
    else ok (
        create_token lines (number_kind is_float) start position
          (some (take (position - start) text)))

unfoldable pub read_number : Lines → ℕ → Text → Result Token
unfolding skip_one integer_part fraction_part exponent_part finish_number
read_number lines start text = do
  whole ← integer_part (skip_one (λ c. c == 0x2D) (start, text))
  (fraction, after_fraction) ← fraction_part whole
  (exponent, after_exponent) ← exponent_part after_fraction
  finish_number lines start text (fraction || exponent) after_exponent
