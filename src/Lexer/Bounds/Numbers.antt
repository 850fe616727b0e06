-- ===== src/Lexer/Bounds/Numbers.antt =====
-- src/graphql/language/lexer.py: the bounds of read_number and read_digits.
use graphql_core.Prelude.{
  ℕ, ◌+◌, ◌≡◌, refl, Bool, true, false, Bool-cases, inl, inr, [], ◌∷◌, arith, length, ◌==◌, ◌||◌,
}
use graphql_core.Errors.{Text, Ensures, returns, raises, Ensures-if, Ensures-bind}
use graphql_core.Characters.{is_digit, is_name_start}
use graphql_core.TokenKind.{is_eof}
use graphql_core.Lexer.Token.{Lines}
use graphql_core.Lexer.Scan.{Advances, leaves, scan_all_sound}
use graphql_core.Lexer.Numbers.{
  Cursor, head_is, skip_one, digit_round, read_digits, integer_part, fraction_part, exponent_part,
  number_kind, finish_number, read_number,
}
use graphql_core.Lexer.Bounds.{Within, Advances-if, advance_by, Spans, Spans-create_token}

abbrev At : ℕ → ℕ → Cursor → Type 0
At start total (position, text) = Within start total position text

digit_round-Advances :
    (start total position : ℕ) (text : Text) (s : Unit {0})
    → Within start total position text
    → Advances
        (λ p t s'. Within start total p t)
        (At start total)
        position
        text
        (digit_round position text s)
unfolding digit_round
digit_round-Advances start total position [] s w = leaves (returns w)
digit_round-Advances start total position (c ∷ rest) s w =
    Advances-if (is_digit c)
      (λ e. advance_by start total position 1 (c ∷ rest) s w (omega arith) (omega arith))
      (λ e. leaves (returns w))

-- One digit at least is read.
read_digits-At :
    (start total : ℕ) (c : Cursor)
    → At start total c
    → Ensures (At (start + 1) total) (read_digits c)
unfolding read_digits
read_digits-At start total (position, []) w = raises
read_digits-At start total (position, c ∷ rest) w =
    Ensures-if (is_digit c)
      (λ e.
        scan_all_sound (λ p t s'. Within (start + 1) total p t) (At (start + 1) total) digit_round
          (digit_round-Advances _ _) (position + 1) rest tt (omega arith))
      (λ e. raises)

skip_one-At :
    (test : ℕ → Bool) (start total : ℕ) (c : Cursor)
    → At start total c
    → At start total (skip_one test c)
unfolding skip_one
skip_one-At test start total (position, []) w = w
skip_one-At test start total (position, c ∷ rest) w = elim (Bool-cases (test c)) [
  | inl e ↦ rw e (omega arith)
  | inr e ↦ rw e w
]

integer_part-At :
    (start total : ℕ) (c : Cursor)
    → At start total c
    → Ensures (At (start + 1) total) (integer_part c)
unfolding integer_part
integer_part-At start total (position, []) w = read_digits-At start total (position, []) w
integer_part-At start total (position, c ∷ rest) w =
    Ensures-if (c == 0x30)
      (λ e. Ensures-if (head_is is_digit rest) (λ e. raises) (λ e. returns (omega arith)))
      (λ e. read_digits-At start total (position, c ∷ rest) w)

weaken : (start total : ℕ) (c : Cursor) → At (start + 1) total c → At start total c
weaken start total c w = omega arith

fraction_part-At :
    (start total : ℕ) (c : Cursor)
    → At start total c
    → Ensures (λ r. At start total r.1) (fraction_part c)
unfolding fraction_part
fraction_part-At start total (position, []) w = returns w
fraction_part-At start total (position, c ∷ rest) w =
    Ensures-if (c == 0x2E)
      (λ e.
        Ensures-bind (read_digits-At start total (position + 1, rest) (omega arith))
          (λ end h. returns (weaken start total end h)))
      (λ e. returns w)

exponent_part-At :
    (start total : ℕ) (c : Cursor)
    → At start total c
    → Ensures (λ r. At start total r.1) (exponent_part c)
unfolding exponent_part
exponent_part-At start total (position, []) w = returns w
exponent_part-At start total (position, c ∷ rest) w =
    Ensures-if (c == 0x45 || c == 0x65)
      (λ e.
        Ensures-bind
          (read_digits-At start total _
            (skip_one-At _ start total (position + 1, rest) (omega arith)))
          (λ end h. returns (weaken start total end h)))
      (λ e. returns w)

not_eof : (is_float : Bool) → is_eof (number_kind is_float) ≡ false
not_eof true = refl
not_eof false = refl

finish_number-Spans :
    (lines : Lines) (start total : ℕ) (text : Text) (is_float : Bool) (c : Cursor)
    → At (start + 1) total c
    → Ensures (Spans start total) (finish_number lines start text is_float c)
unfolding finish_number
finish_number-Spans lines start total text is_float (position, rest) w =
    Ensures-if (head_is (λ c. c == 0x2E || is_name_start c) rest) (λ e. raises)
      (λ e. returns (
        Spans-create_token lines start total position (number_kind is_float) _ (not_eof is_float)
          (omega arith) (omega arith)))

-- Reading a number raises an exception of the program, or gives a token that begins where the number
-- does and has at least one character, all in the text.
pub read_number-Spans :
    (lines : Lines) (start : ℕ) (text : Text)
    → Ensures (Spans start (start + length text)) (read_number lines start text)
unfolding read_number
read_number-Spans lines start text =
    Ensures-bind
      (integer_part-At start (start + length text) _
        (skip_one-At _ start (start + length text) (start, text) (omega arith)))
      λ whole w.
        Ensures-bind (fraction_part-At (start + 1) (start + length text) whole w)
          λ (fraction, c) w'.
            Ensures-bind (exponent_part-At (start + 1) (start + length text) c w')
              λ (exponent, c') w''.
                finish_number-Spans lines start (start + length text) text _ c' w''
