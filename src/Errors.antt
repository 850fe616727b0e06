-- ===== src/Errors.antt =====
-- Exceptions raised by the language layer (src/graphql/error/syntax_error.py and its raise sites).
use graphql_core.Prelude.{ℕ, List, ◌≡◌, ◌≢◌, refl, subst, Bool, true, false, if◌then◌else◌}
use graphql_core.TokenKind.{TokenKind}

-- A text is its code points. A Python `str` may hold surrogate code points too.
abbrev pub Text : Type 0
Text = List ℕ

-- The message of a GraphQLSyntaxError: one constructor for each raise site, with what it quotes.
pub data Message : Type 0 where
  -- "Unexpected '..', did you mean '...'?"
  unexpected_dots : Message
  -- "Invalid number, expected digit before '.', did you mean '0.{digits}'?"
  missing_leading_digit : Text → Message
  -- "Unexpected single quote character (')…"
  single_quote : Message
  -- "Unexpected character: {char}.", "Invalid character: {char}."
  unexpected_character invalid_character : ℕ → Message
  -- "Invalid number, unexpected digit after 0: …"
  digit_after_zero : Message
  -- "Invalid number, expected digit but got: …"
  expected_digit : Message
  -- "Invalid character within String: {char}."
  invalid_string_character : ℕ → Message
  unterminated_string : Message
  -- "Invalid Unicode escape sequence: '…'.", "Invalid character escape sequence: '…'."
  invalid_unicode_escape invalid_character_escape : Text → Message
  -- "Expected {kind}, found {token}."
  expected_token : TokenKind → TokenKind → Message
  -- "Expected '{keyword}', found {token}."
  expected_keyword : Text → Message
  -- "Unexpected {token}."
  unexpected_token : Message
  -- "{token} is reserved and cannot be used for an enum value."
  reserved_enum_value : Message
  -- "Unexpected variable '${name}' in constant value."
  variable_in_constant : Text → Message
  -- "Unexpected description, …"
  description_on_shorthand description_not_supported : Message
  -- "Document contains more than {max_tokens} tokens. Parsing aborted."
  too_many_tokens : Message

-- `index_error` is Python's IndexError; `out_of_fuel` has no counterpart in the program.
pub data Error : Type 0 where
  syntax_error : ℕ → Message → Error
  index_error : Error
  out_of_fuel : Error

pub data Result {ℓ} (A : Type ℓ) : Type ℓ where
  ok : A → Result A
  err : Error → Result A

infixl 5 ◌>>=◌
abbrev pub ◌>>=◌ {ℓ κ} : {A : Type ℓ} {B : Type κ} → Result A → (A → Result B) → Result B
ok a >>= f = f a
err e >>= f = err e

-- Every value that a run returns satisfies `P`, and the run does not exhaust its fuel.
pub data Ensures {ℓ κ} {A : Type ℓ} (P : A → Type κ) : Result A → Type (ℓ ⊔ κ) where
  returns : {a : A} → P a → Ensures P (ok a)
  raises : {p : ℕ} {m : Message} → Ensures P (err (syntax_error p m))
  raises_index : Ensures P (err index_error)

module _ {ℓ κ} {A : Type ℓ} {P : A → Type κ} where
  pub Ensures-if :
      (b : Bool) {x y : Result A}
      → (b ≡ true → Ensures P x)
      → (b ≡ false → Ensures P y)
      → Ensures P (if b then x else y)
  Ensures-if true hx hy = hx refl
  Ensures-if false hx hy = hy refl

  pub Ensures-bind {ℓ' κ'} :
      {B : Type ℓ'} {Q : B → Type κ'} {r : Result A} {f : A → Result B}
      → Ensures P r
      → ((a : A) → P a → Ensures Q (f a))
      → Ensures Q (r >>= f)
  Ensures-bind (returns {a} h) k = k a h
  Ensures-bind raises k = raises
  Ensures-bind raises_index k = raises_index

  pub Ensures-ok : {r : Result A} {a : A} → Ensures P r → r ≡ ok a → P a
  Ensures-ok (returns h) e = subst P (cc) h
  Ensures-ok raises e = cc
  Ensures-ok raises_index e = cc

  pub Ensures-out_of_fuel : {r : Result A} → Ensures P r → r ≢ err out_of_fuel
  Ensures-out_of_fuel (returns h) = cc
  Ensures-out_of_fuel raises = cc
  Ensures-out_of_fuel raises_index = cc

  pub Ensures-map {κ'} :
      {Q : A → Type κ'} {r : Result A} → Ensures P r → ((a : A) → P a → Q a) → Ensures Q r
  Ensures-map (returns {a} h) k = returns (k a h)
  Ensures-map raises k = raises
  Ensures-map raises_index k = raises_index
