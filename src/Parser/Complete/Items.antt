-- ===== src/Parser/Complete/Items.antt =====
-- Values that can be written, and the items of a list or object value.
use graphql_core.Prelude.{
  ◌<◌, ◌≡◌, refl, ap, Bool, true, false, ◌||◌, List, [], ◌∷◌, ◌++◌, arith, length, All,
}
use graphql_core.Errors.{Text}
use graphql_core.Text.{codes, same_text}
use graphql_core.TokenKind.{
  TokenKind, is_punctuator_token_kind, bracket_l, bracket_r, brace_l, brace_r, int, float, string,
  block_string, name, dollar, colon,
}
use graphql_core.Ast.{Value, Values, ObjectFields, no_values, value, no_fields, object_field}
use graphql_core.Grammar.{
  Lexeme, punct, word, concat, value_lexemes, values_lexemes, fields_lexemes,
}
use graphql_core.Parser.State.{same}
use graphql_core.Parser.Values.{to_values, to_fields, named_value}
use graphql_core.Parser.Forward.{starts}

-- The names that are values of their own.
abbrev pub is_reserved : Text → Bool
is_reserved n =
    same_text n (codes "true") || (same_text n (codes "false") || same_text n (codes "null"))

-- A value that can be written: no enum value has a reserved name.
unfoldable mutual
  pub IsWritten : Value → Type 0
  IsWritten (Value.enum n) = is_reserved n ≡ false
  IsWritten (Value.list vs) = AreWritten vs
  IsWritten (Value.object fs) = HasWrittenFields fs
  IsWritten _ = Unit

  pub AreWritten : Values → Type 0
  AreWritten no_values = Unit
  AreWritten (value v vs) = IsWritten v × AreWritten vs

  pub HasWrittenFields : ObjectFields → Type 0
  HasWrittenFields no_fields = Unit
  HasWrittenFields (object_field n v fs) = IsWritten v × HasWrittenFields fs

pub named_value-enum : (n : Text) → is_reserved n ≡ false → named_value n ≡ Value.enum n
unfolding named_value
named_value-enum n h = ground arith

unfoldable pub items : Values → List Value
items no_values = []
items (value v vs) = v ∷ items vs

unfoldable pub fields : ObjectFields → List (Text × Value)
fields no_fields = []
fields (object_field n v fs) = (n, v) ∷ fields fs

abbrev pub field_lexemes : Text × Value → List Lexeme
field_lexemes f = word name f.0 ∷ punct colon ∷ value_lexemes f.1

pub to_values-items : (vs : Values) → to_values (items vs) ≡ vs
unfolding items
to_values-items no_values = refl
to_values-items (value v vs) = ap (value v) (to_values-items vs)

pub to_fields-fields : (fs : ObjectFields) → to_fields (fields fs) ≡ fs
unfolding fields
to_fields-fields no_fields = refl
to_fields-fields (object_field n v fs) = ap (object_field n v) (to_fields-fields fs)

pub concat-items : (vs : Values) → values_lexemes vs ≡ concat value_lexemes (items vs)
unfolding items value_lexemes
concat-items no_values = refl
concat-items (value v vs) = ap (λ z. value_lexemes v ++ z) (concat-items vs)

pub concat-fields : (fs : ObjectFields) → fields_lexemes fs ≡ concat field_lexemes (fields fs)
unfolding fields value_lexemes
concat-fields no_fields = refl
concat-fields (object_field n v fs) = ap (λ z. field_lexemes (n, v) ++ z) (concat-fields fs)

pub All-items : (vs : Values) → AreWritten vs → All IsWritten (items vs)
unfolding items IsWritten
All-items no_values h = tt
All-items (value v vs) h = (h.0, All-items vs h.1)

pub All-fields : (fs : ObjectFields) → HasWrittenFields fs → All (λ f. IsWritten f.1) (fields fs)
unfolding fields IsWritten
All-fields no_fields h = tt
All-fields (object_field n v fs) h = (h.0, All-fields fs h.1)

-- No value begins with the bracket that closes a list.
pub value_lexemes-starts :
    (v : Value) (rest : List Lexeme) → starts bracket_r (value_lexemes v ++ rest) ≡ false
unfolding value_lexemes same mathlib.Core.Bool.decide graphql_core.TokenKind.TokenKind-discrete
value_lexemes-starts (Value.string t true) rest = refl
value_lexemes-starts (Value.string t false) rest = refl
value_lexemes-starts (Value.boolean true) rest = refl
value_lexemes-starts (Value.boolean false) rest = refl
value_lexemes-starts _ rest = refl

pub length-value_lexemes_pos : (v : Value) → 0 < length (value_lexemes v)
unfolding value_lexemes
length-value_lexemes_pos (Value.string t true) = omega arith
length-value_lexemes_pos (Value.string t false) = omega arith
length-value_lexemes_pos (Value.boolean true) = omega arith
length-value_lexemes_pos (Value.boolean false) = omega arith
length-value_lexemes_pos _ = omega arith
