-- ===== src/Lexer/Bounds/Strings.antt =====
-- src/graphql/language/lexer.py: the bounds of read_string, of its escapes and of read_block_string.
use graphql_core.Prelude.{
  ℕ, zero, suc, ◌+◌, ◌*◌, ◌≤◌, ◌<◌, refl, Bool, inl, inr, some, none, Option, Option-cases, [], ◌∷◌,
  ◌++◌, arith, length, drop, length-drop, take, ltb, ◌==◌, ◌||◌, ◌&&◌, not,
}
use graphql_core.Errors.{
  Text, Result, ok, err, Ensures, returns, raises, raises_index, syntax_error,
  invalid_unicode_escape, Ensures-if, Ensures-bind,
}
use graphql_core.Characters.{is_unicode_scalar_value, is_supplementary_code_point, read_hex_digit}
use graphql_core.TokenKind.{string, block_string}
use graphql_core.Lexer.Token.{Token, Lines, EscapeSequence, leave, next}
use graphql_core.Lexer.Scan.{Advances, leaves, scan_all_sound}
use graphql_core.Lexer.Numbers.{head_is}
use graphql_core.Lexer.Escapes.{
  is_scalar, is_leading, is_trailing, read_trailing, next_two_are, escaped_char,
  read_escaped_character, read_16_bit_hex_code, read_escaped_unicode_fixed_width, variable_width,
  read_escaped_unicode_variable_width,
}
use graphql_core.Lexer.Strings.{read_escape, string_round, read_string}
use graphql_core.Lexer.Blocks.{BlockState, block_round, read_block_string}
use graphql_core.Lexer.Bounds.{
  head_is-length, next_two_are-length, and_right, advance_newline, Within, Advances-if, advance_by,
  supplementary_length, Spans, Spans-create_token,
}

-- The escape sequence stands in the text.
abbrev IsSized : Text → EscapeSequence → Type 0
IsSized text e = (0 < e.size) × (e.size ≤ length text)

read_escaped_character-IsSized :
    (position : ℕ) (text : Text) → Ensures (IsSized text) (read_escaped_character position text)
unfolding read_escaped_character
read_escaped_character-IsSized position [] = raises_index
read_escaped_character-IsSized position (b ∷ []) = raises_index
read_escaped_character-IsSized position (b ∷ c ∷ rest) = elim (Option-cases (escaped_char c)) [
  | inl e ↦ rw (e, read_escaped_character) raises
  | inr (v, e) ↦
      rw (e, read_escaped_character)
        (returns {a = record { value = v ∷ []; size = 2 }} (omega arith))
]

read_16_bit_hex_code-length :
    (text : Text) → Ensures (λ code. 4 ≤ length text) (read_16_bit_hex_code text)
unfolding read_16_bit_hex_code
read_16_bit_hex_code-length [] = raises_index
read_16_bit_hex_code-length (a ∷ []) = raises_index
read_16_bit_hex_code-length (a ∷ b ∷ []) = raises_index
read_16_bit_hex_code-length (a ∷ b ∷ c ∷ []) = raises_index
read_16_bit_hex_code-length (a ∷ b ∷ c ∷ d ∷ rest) = returns (omega arith)

read_trailing-IsSized :
    (position : ℕ) (text : Text) (code : Option ℕ)
    → Ensures (IsSized text) (read_trailing position text code)
unfolding read_trailing
read_trailing-IsSized position text code =
    Ensures-bind (read_16_bit_hex_code-length (drop 8 text)) λ trailing h.
      Ensures-if (is_trailing trailing) (λ e. returns (omega (arith, length-drop 8 text)))
        (λ e. raises)

fixed_width-IsSized :
    (position : ℕ) (text : Text)
    → Ensures (IsSized text) (read_escaped_unicode_fixed_width position text)
unfolding read_escaped_unicode_fixed_width
fixed_width-IsSized position text =
    Ensures-bind (read_16_bit_hex_code-length (drop 2 text)) λ code h.
      Ensures-if (is_scalar code) (λ e. returns (omega (arith, length-drop 2 text)))
        (λ e.
          Ensures-if (is_leading code text) (λ e. read_trailing-IsSized position text code)
            (λ e. raises))

variable_width-IsSized :
    (position : ℕ) (text : Text) (size : ℕ) (digits : Text) (point : ℕ)
    → size + length digits ≤ length text
    → Ensures (IsSized text) (variable_width position text size digits point)
unfolding variable_width
variable_width-IsSized position text size [] point h = raises
variable_width-IsSized position text size (c ∷ digits) point h =
    Ensures-if (c == 0x7D)
      (λ e.
        Ensures-if (ltb (size + 1) 5 || not (is_scalar (some point))) (λ e'. raises)
          (λ e'. returns (omega arith)))
      (λ e. digit (read_hex_digit c) (λ d.
        variable_width-IsSized position text (size + 1) digits (point * 16 + d) (omega arith)))
  where
    digit :
        (o : Option ℕ)
        → ((d : ℕ)
            → Ensures
                (IsSized text)
                (variable_width position text (size + 1) digits (point * 16 + d)))
        → Ensures (IsSized text) (elim o [
          | none ↦ err (syntax_error position (invalid_unicode_escape (take (size + 1) text)))
          | some d ↦ variable_width position text (size + 1) digits (point * 16 + d)
        ])
    digit none k = raises
    digit (some d) k = k d

length-take_le : (n : ℕ) (text : Text) → length (take n text) ≤ length text
length-take_le zero text = omega arith
length-take_le (suc n) [] = omega arith
length-take_le (suc n) (c ∷ text) = omega (arith, length-take_le n text)

read_escape-IsSized :
    (position : ℕ) (text : Text) → Ensures (IsSized text) (read_escape position text)
unfolding read_escape read_escaped_unicode_variable_width
read_escape-IsSized position text =
    Ensures-if (head_is (λ c. c == 0x75) (drop 1 text))
      (λ e.
        Ensures-if (head_is (λ c. c == 0x7B) (drop 2 text))
          (λ h. variable_width-IsSized position text 3 (take 9 (drop 3 text)) 0 (
            omega (
              arith,
              head_is-length _ 2 text h,
              length-take_le 9 (drop 3 text),
              length-drop 3 text,
            )))
          (λ h. fixed_width-IsSized position text))
      (λ e. read_escaped_character-IsSized position text)

module _ (lines : Lines) (start total : ℕ) where
  escape_round :
      (position : ℕ) (text value : Text) (r : Result EscapeSequence)
      → Within (start + 1) total position text
      → Ensures (IsSized text) r
      → Advances
          (λ p t s'. Within (start + 1) total p t)
          (Spans start total)
          position
          text
          (elim r [ ok escape ↦ next escape.size (value ++ escape.value) | err e ↦ leave (err e) ])
  escape_round position text value (ok e) w (returns h) =
      advance_by (start + 1) total position e.size text _ w h.0 h.1
  escape_round position text value (err e) w raises = leaves raises
  escape_round position text value (err e) w raises_index = leaves raises_index

  string_round-Advances :
      (position : ℕ) (text value : Text)
      → Within (start + 1) total position text
      → Advances
          (λ p t s'. Within (start + 1) total p t)
          (Spans start total)
          position
          text
          (string_round lines start position text value)
  unfolding string_round
  string_round-Advances position [] value w = leaves raises
  string_round-Advances position (c ∷ rest) value w =
      let by = λ (n : ℕ) (v : Text).
        advance_by {Q = Spans start total} (start + 1) total position n (c ∷ rest) v w in
      Advances-if (c == 34)
        (λ e. leaves (
          returns (
            Spans-create_token lines start total (position + 1) string _ refl (omega arith)
              (omega arith))))
        (λ e.
          Advances-if (c == 92)
            (λ e.
              escape_round position (c ∷ rest) value (read_escape position (c ∷ rest)) w
                (read_escape-IsSized position (c ∷ rest)))
            (λ e.
              Advances-if (c == 13 || c == 10) (λ e. leaves raises)
                (λ e.
                  Advances-if (is_unicode_scalar_value c) (λ e. by 1 _ (omega arith) (omega arith))
                    (λ e.
                      Advances-if (is_supplementary_code_point (c ∷ rest))
                        (λ h. by 2 _ (omega arith) (supplementary_length (c ∷ rest) h))
                        (λ e. leaves raises)))))

  block_round-Advances :
      (position : ℕ) (text : Text) (s : BlockState)
      → Within (start + 3) total position text
      → Advances
          (λ p t s'. Within (start + 3) total p t)
          (λ r. Spans start total r.0)
          position
          text
          (block_round lines start position text s)
  unfolding block_round
  block_round-Advances position [] s w = leaves raises
  block_round-Advances position (c ∷ rest) s w =
      let by = λ (n : ℕ) (s' : BlockState).
        advance_by {Q = λ (r : Token × Lines). Spans start total r.0} (start + 3) total position n
          (c ∷ rest) s' w in
      Advances-if (c == 34 && next_two_are 34 34 rest)
        (λ e. leaves (
          returns (
            Spans-create_token lines start total (position + 3) block_string _ refl (omega arith)
              (omega (arith, next_two_are-length 34 34 rest (and_right _ _ e))))))
        (λ e.
          Advances-if (c == 92 && (head_is (λ d. d == 34) rest && next_two_are 34 34 (drop 1 rest)))
            (λ e. by 4 _ (omega arith) (
              omega (
                arith,
                length-drop 1 rest,
                next_two_are-length 34 34 (drop 1 rest)
                    (and_right (head_is (λ d. d == 34) rest) _ (and_right (c == 92) _ e)),
              )))
            (λ e.
              Advances-if (c == 13 || c == 10)
                (λ e.
                  let crlf : Bool = c == 13 && head_is (λ d. d == 10) rest in
                  advance_newline (start + 3) total position (c ∷ rest)
                    (λ n. record {
                      current_line = [];
                      block_lines = s.block_lines ++ s.current_line ∷ [];
                      line_start = position + n;
                    })
                    crlf w (omega arith)
                    (λ h.
                      omega
                        (arith, head_is-length (λ d. d == 10) 0 rest (and_right (c == 13) _ h))))
                (λ e.
                  Advances-if (is_unicode_scalar_value c) (λ e. by 1 _ (omega arith) (omega arith))
                    (λ e.
                      Advances-if (is_supplementary_code_point (c ∷ rest))
                        (λ h. by 2 _ (omega arith) (supplementary_length (c ∷ rest) h))
                        (λ e. leaves raises)))))

pub read_string-Spans :
    (lines : Lines) (start : ℕ) (rest : Text)
    → Ensures (Spans start (start + suc (length rest))) (read_string lines start rest)
unfolding read_string
read_string-Spans lines start rest =
    scan_all_sound (λ p t s'. Within (start + 1) (start + suc (length rest)) p t)
      (Spans start (start + suc (length rest))) (string_round lines start)
      (string_round-Advances lines start (start + suc (length rest))) (start + 1) rest []
      (omega arith)

pub read_block_string-Spans :
    (lines : Lines) (start : ℕ) (rest : Text)
    → Ensures (λ r. Spans start (start + 3 + length rest) r.0) (read_block_string lines start rest)
unfolding read_block_string
read_block_string-Spans lines start rest =
    scan_all_sound (λ p t s'. Within (start + 3) (start + 3 + length rest) p t)
      (λ r. Spans start (start + 3 + length rest) r.0) (block_round lines start)
      (block_round-Advances lines start (start + 3 + length rest)) (start + 3) rest _ (omega arith)
