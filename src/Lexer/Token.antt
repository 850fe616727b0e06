-- ===== src/Lexer/Token.antt =====
-- Tokens, the line count of the lexer, and the loop that its `while position < body_length` share.
use graphql_core.Prelude.{ℕ, zero, suc, ◌+◌, ◌-◌, Option, length, drop}
use graphql_core.Errors.{Text, Result, err, out_of_fuel}
use graphql_core.TokenKind.{TokenKind}

-- Without the links to the previous and the next token.
pub record Token : Type 0 where
  pub kind : TokenKind
  pub start : ℕ
  pub end : ℕ
  pub line : ℕ
  pub column : ℕ
  pub value : Option Text

-- `self.line` and `self.line_start`
pub record Lines : Type 0 where
  pub line : ℕ
  pub line_start : ℕ

pub record EscapeSequence : Type 0 where
  pub value : Text
  pub size : ℕ

unfoldable pub create_token : Lines → TokenKind → ℕ → ℕ → Option Text → Token
create_token lines kind start end value = record {
  kind = kind;
  start = start;
  end = end;
  line = lines.line;
  column = 1 + start - lines.line_start;
  value = value;
}

-- One round of a loop over the body: leave it, or go on that many characters further.
pub data Round (S : Type 0) (A : Type 0) : Type 0 where
  leave : Result A → Round S A
  next : ℕ → S → Round S A

-- The loop holds the position and the body from there on. Each round costs a unit of fuel.
unfoldable pub scan : {S A : Type 0} → ℕ → (ℕ → Text → S → Round S A) → ℕ → Text → S → Result A
scan zero round position rest s = err out_of_fuel
scan (suc fuel) round position rest s = elim (round position rest s) [
  | leave r ↦ r
  | next n s' ↦ scan fuel round (position + n) (drop n rest) s'
]

-- A round of at least one character is spent on each but the last.
abbrev pub scan_all : {S A : Type 0} → (ℕ → Text → S → Round S A) → ℕ → Text → S → Result A
scan_all round position rest s = scan (suc (length rest)) round position rest s
