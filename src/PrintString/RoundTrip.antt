-- ===== src/PrintString/RoundTrip.antt =====
-- src/graphql/language/print_string.py: print_string, and read_string on what it prints.
use graphql_core.Prelude.{
  ℕ, zero, suc, ◌+◌, ◌*◌, ◌<◌, ◌/◌, ◌%◌, ◌≡◌, refl, true, false, ◌==◌, some, [], ◌∷◌, ◌++◌, arith,
  length, length-append, append-nil, append_assoc, ◌∙◌, ap, All,
}
use graphql_core.Errors.{Text, ok}
use graphql_core.Characters.{is_unicode_scalar_value, read_hex_digit}
use graphql_core.TokenKind.{string}
use graphql_core.Lexer.Scan.{scan-next, scan-leave}
use graphql_core.Lexer.Token.{Lines, create_token, leave, next, scan}
use graphql_core.Lexer.Escapes.{
  next_two_are, read_escaped_character, read_escaped_unicode_fixed_width,
}
use graphql_core.Lexer.Numbers.{head_is}
use graphql_core.Lexer.Next.{is_ignored, keep_lines, read_next_token, token_round, read_token_at}
use graphql_core.Lexer.Strings.{read_escape, string_round, read_string}
use graphql_core.PrintString.{hex_char, escape_sequence, translate, print_string}

pub read_hex_digit-hex_char : (d : ℕ) → d < 16 → read_hex_digit (hex_char d) ≡ some d
unfolding read_hex_digit hex_char
read_hex_digit-hex_char d h = ground arith

read_escape-fixed_width :
    (position hi lo : ℕ) (rest : Text)
    → hi < 10
    → lo < 16
    → read_escaped_unicode_fixed_width position
        (92 ∷ b'u' ∷ 48 ∷ 48 ∷ hex_char hi ∷ hex_char lo ∷ rest)
      ≡ ok (record { value = (hi * 16 + lo) ∷ []; size = 6 })
unfolding read_escaped_unicode_fixed_width
read_escape-fixed_width position hi lo rest p q =
    ground (arith, read_hex_digit-hex_char hi, read_hex_digit-hex_char lo)

-- The escape sequence of a character is read in one round, which appends the character.
string_round-escape_sequence :
    (lines : Lines) (start position c : ℕ) (rest value : Text)
    → is_unicode_scalar_value c ≡ true
    → string_round lines start position (escape_sequence c ++ rest) value
      ≡ next (length (escape_sequence c)) (value ++ c ∷ [])
unfolding escape_sequence string_round read_escape read_escaped_character
string_round-escape_sequence lines start position c rest value h =
    ground (arith, read_escape-fixed_width position (c / 16) (c % 16) rest)

length-escape_sequence_pos : (c : ℕ) → 0 < length (escape_sequence c)
unfolding escape_sequence
length-escape_sequence_pos c = ground arith

-- Text that can stand in a source: Unicode scalar values only.
abbrev pub IsSourceText : Text → Type 0
IsSourceText s = All (λ c. is_unicode_scalar_value c ≡ true) s

scan-translate :
    (lines : Lines) (start : ℕ) (s rest value : Text) (position fuel : ℕ)
    → IsSourceText s
    → length (translate s ++ 34 ∷ rest) < fuel
    → scan fuel (string_round lines start) position (translate s ++ 34 ∷ rest) value
      ≡ ok (
          create_token lines string start (position + length (translate s) + 1) (some (value ++ s)))
unfolding translate
scan-translate lines start s rest value position zero h lt = absurd (omega arith)
scan-translate lines start [] rest value position (suc fuel) h lt =
    unfold scan string_round in
    simp append-nil (ap (λ e. ok (create_token lines string start e (some value))) (omega arith))
scan-translate lines start (c ∷ s) rest value position (suc fuel) h lt =
    let step =
      string_round-escape_sequence lines start position c (translate s ++ 34 ∷ rest) value h.0 in
    let shorter : length (translate s ++ 34 ∷ rest) < fuel = omega (
      arith,
      length-escape_sequence_pos c,
      length-append (escape_sequence c ++ translate s) (34 ∷ rest),
      length-append (escape_sequence c) (translate s),
      length-append (translate s) (34 ∷ rest),
    ) in
    let ends : position + length (escape_sequence c) + length (translate s) + 1
        ≡ position + length (escape_sequence c ++ translate s) + 1 =
      omega (arith, length-append (escape_sequence c) (translate s)) in
    let again =
      scan-translate lines start s rest (value ++ c ∷ []) (position + length (escape_sequence c))
        fuel h.1 shorter in
    rw append_assoc (
      scan-next (string_round lines start) fuel position (escape_sequence c)
        (translate s ++ 34 ∷ rest) value step
      ∙ again
      ∙ cc (append_assoc value (c ∷ []) s, ends))

-- A printed text never begins with two more quotes, unless it is empty and a quote follows it.
next_two_are-translate :
    (s rest : Text)
    → (s ≡ [] → head_is (λ c. c == 34) rest ≡ false)
    → next_two_are 34 34 (translate s ++ 34 ∷ rest) ≡ false
unfolding translate escape_sequence
next_two_are-translate [] [] h = refl
next_two_are-translate [] (c ∷ rest) h = ground (arith, h refl)
next_two_are-translate (c ∷ s) rest h = rw append_assoc (ground arith)

print_string-append : (s rest : Text) → print_string s ++ rest ≡ 34 ∷ (translate s ++ 34 ∷ rest)
unfolding print_string
print_string-append s rest = ap (λ t. 34 ∷ t) (append_assoc (translate s) (34 ∷ []) rest)

length-print_string : (s : Text) → length (print_string s) ≡ length (translate s) + 2
unfolding print_string
length-print_string s = omega (arith, length-append (translate s) (34 ∷ []))

read_string-translate :
    (lines : Lines) (start : ℕ) (s rest : Text)
    → IsSourceText s
    → read_string lines start (translate s ++ 34 ∷ rest)
      ≡ ok (create_token lines string start (start + length (print_string s)) (some s))
unfolding read_string
read_string-translate lines start s rest h =
    let whole =
      scan-translate lines start s rest [] (start + 1) (suc (length (translate s ++ 34 ∷ rest))) h
        (omega arith) in
    let ends : start + 1 + length (translate s) + 1 ≡ start + length (print_string s) =
      omega (arith, length-print_string s) in
    whole ∙ cc ends

-- A string literal is read as soon as its quote is reached.
token_round-string :
    (lines : Lines) (start : ℕ) (rest : Text)
    → next_two_are 34 34 rest ≡ false
    → token_round start (34 ∷ rest) lines ≡ leave (keep_lines lines (read_string lines start rest))
unfolding token_round read_token_at is_ignored
token_round-string lines start rest e = rw e

-- Text of Unicode scalar values, printed as a string literal and read by the lexer, gives one
-- STRING token that spans the literal and has the text for its value, and the lexer's line count
-- is as before. What follows may be any text; behind the literal of the empty text, no quote.
pub read_next_token-print_string :
    (lines : Lines) (start : ℕ) (s rest : Text)
    → IsSourceText s
    → (s ≡ [] → head_is (λ c. c == 34) rest ≡ false)
    → read_next_token lines start (print_string s ++ rest)
      ≡ ok (create_token lines string start (start + length (print_string s)) (some s), lines)
unfolding read_next_token
read_next_token-print_string lines start s rest h q =
    let text = translate s ++ 34 ∷ rest in
    let literal = token_round-string lines start text (next_two_are-translate s rest q) in
    rw print_string-append (
      scan-leave token_round (suc (length text)) start (34 ∷ text) lines literal
      ∙ ap (keep_lines lines) (read_string-translate lines start s rest h))
