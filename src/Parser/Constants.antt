-- ===== src/Parser/Constants.antt =====
-- src/graphql/language/parser.py: parse_value_literal with is_const, and parse_const_value.
use graphql_core.Prelude.{ℕ, zero, suc, ◌≡◌, Bool, true, false, List, [], ◌∷◌, All, if◌then◌else◌}
use graphql_core.Errors.{
  Text, Error, Result, ok, err, ◌>>=◌, Ensures, returns, raises, raises_index,
}
use graphql_core.TokenKind.{
  TokenKind, sof, eof, bracket_l, bracket_r, brace_l, brace_r, int, float, string, block_string,
  name, dollar, colon,
}
use graphql_core.Ast.{Value, Values, ObjectFields, no_values, value, no_fields, object_field}
use graphql_core.Lexer.Next.{lex}
use graphql_core.Grammar.{value_lexemes, lexemes}
use graphql_core.Parser.State.{
  Options, ParserState, Parser, ◌>>>◌, pure, kind_of, advance_lexer, expect_token,
  expect_optional_token, unexpected, parse_name,
}
use graphql_core.Parser.Combinators.{until_close, any}
use graphql_core.Parser.Values.{
  to_values, to_fields, named_value, take_token, reject_variable, parse_variable_value,
  parse_object_field, value_by_kind, parse_value_literal,
}
use graphql_core.Parser.Document.{enough, start_parser, parse_alone, parse_const_value}
use graphql_core.Parser.Sound.Values.{parse_value_literal-Read}
use graphql_core.Parser.Sound.Parse.{WholeBody, parse_alone-Ensures}

-- The value has no variable, at any depth.
unfoldable mutual
  pub IsConst : Value → Type 0
  IsConst (Value.variable n) = ⊥
  IsConst (Value.list vs) = AreConst vs
  IsConst (Value.object fs) = HasConstFields fs
  IsConst _ = Unit

  pub AreConst : Values → Type 0
  AreConst no_values = Unit
  AreConst (value v vs) = IsConst v × AreConst vs

  pub HasConstFields : ObjectFields → Type 0
  HasConstFields no_fields = Unit
  HasConstFields (object_field n v fs) = IsConst v × HasConstFields fs

-- What a run returns, if it returns, satisfies `P`.
data Yields {ℓ κ} {A : Type ℓ} (P : A → Type κ) : Result A → Type (ℓ ⊔ κ) where
  yields : {a : A} → P a → Yields P (ok a)
  fails : {e : Error} → Yields P (err e)

module _ {ℓ κ} {A : Type ℓ} {P : A → Type κ} where
  Yields-bind {ℓ' κ'} :
      {B : Type ℓ'} {Q : B → Type κ'} {f : A → Result B} (r : Result A)
      → Yields P r
      → ((a : A) → P a → Yields Q (f a))
      → Yields Q (r >>= f)
  Yields-bind (ok a) (yields h) k = k a h
  Yields-bind (err e) fails k = fails

  Yields-Ensures {κ'} :
      {Q : A → Type κ'} {r : Result A} → Ensures Q r → Yields P r → Ensures (λ a. P a × Q a) r
  Yields-Ensures (returns h) (yields k) = returns (k, h)
  Yields-Ensures raises fails = raises
  Yields-Ensures raises_index fails = raises_index

-- Whatever a run returns.
Yields-then {ℓ ℓ' κ'} :
    {A : Type ℓ} {B : Type ℓ'} {Q : B → Type κ'} {f : A → Result B} (r : Result A)
    → ((a : A) → Yields Q (f a))
    → Yields Q (r >>= f)
Yields-then (ok a) k = k a
Yields-then (err e) k = fails

AreConst-to_values : (vs : List Value) → All IsConst vs → AreConst (to_values vs)
unfolding IsConst
AreConst-to_values [] h = tt
AreConst-to_values (v ∷ vs) h = (h.0, AreConst-to_values vs h.1)

HasConstFields-to_fields :
    (fs : List (Text × Value)) → All (λ f. IsConst f.1) fs → HasConstFields (to_fields fs)
unfolding IsConst
HasConstFields-to_fields [] h = tt
HasConstFields-to_fields (f ∷ fs) h = (h.0, HasConstFields-to_fields fs h.1)

IsConst-if : (b : Bool) (v w : Value) → IsConst v → IsConst w → IsConst (if b then v else w)
IsConst-if true v w hv hw = hv
IsConst-if false v w hv hw = hw

IsConst-boolean : (b : Bool) → IsConst (Value.boolean b)
unfolding IsConst
IsConst-boolean b = tt

IsConst-null : IsConst Value.null
unfolding IsConst
IsConst-null = tt

IsConst-enum : (t : Text) → IsConst (Value.enum t)
unfolding IsConst
IsConst-enum t = tt

IsConst-named_value : (t : Text) → IsConst (named_value t)
unfolding named_value
IsConst-named_value t =
    IsConst-if _ _ _ (IsConst-boolean true)
      (IsConst-if _ _ _ (IsConst-boolean false) (IsConst-if _ _ _ IsConst-null (IsConst-enum t)))

module _ (options : Options) where
  module _ {A : Type 0} (P : A → Type 0) (parse_fn : Parser A)
      (item : (s : ParserState) → Yields (λ r. P r.0) (parse_fn s)) where
    until_close-All :
        (fuel : ℕ) (close : TokenKind) (s : ParserState)
        → Yields (λ r. All P r.0) (until_close options fuel parse_fn close s)
    unfolding until_close
    until_close-All zero close s = fails
    until_close-All (suc fuel) close s =
        Yields-then (expect_optional_token options close s)
          λ (closed, s'). go closed s' (λ s''. until_close-All fuel close s'')
      where
        go :
            (closed : Bool) (s' : ParserState)
            → ((s'' : ParserState)
                → Yields (λ r. All P r.0) (until_close options fuel parse_fn close s''))
            → Yields
                (λ r. All P r.0)
                (elim closed [
                  | true ↦ ok ([], s')
                  | false ↦
                      (parse_fn >>> λ node.
                      until_close options fuel parse_fn close >>> λ nodes. pure (node ∷ nodes))
                        s'
                ])
        go true s' k = yields tt
        go false s' k = Yields-bind (parse_fn s') (item s') λ (node, s1) h.
            Yields-bind (until_close options fuel parse_fn close s1) (k s1)
              λ (nodes, s2) h'. yields (h, h')

    any-All :
        (fuel : ℕ) (open_kind close : TokenKind) (s : ParserState)
        → Yields (λ r. All P r.0) (any options fuel open_kind parse_fn close s)
    unfolding any
    any-All fuel open_kind close s =
        Yields-then (expect_token options open_kind s) λ (t, s'). until_close-All fuel close s'

  take_token-IsConst :
      (make : Text → Value)
      → ((t : Text) → IsConst (make t))
      → (s : ParserState) → Yields (λ r. IsConst r.0) (take_token options make s)
  unfolding take_token
  take_token-IsConst make h s = Yields-then (advance_lexer options s) λ (u, s'). yields (h _)

  module _ (nested : Parser Value)
      (const : (s : ParserState) → Yields (λ r. IsConst r.0) (nested s)) where
    parse_object_field-IsConst :
        (s : ParserState) → Yields (λ r. IsConst r.0.1) (parse_object_field options nested s)
    unfolding parse_object_field
    parse_object_field-IsConst s = Yields-then (parse_name options s) λ (n, s1).
        Yields-then (expect_token options colon s1)
          λ (u, s2). Yields-bind (nested s2) (const s2) λ (v, s3) h. yields h

    value_by_kind-IsConst :
        (fuel : ℕ) (kind : TokenKind) (s : ParserState)
        → Yields (λ r. IsConst r.0) (value_by_kind options fuel true nested kind s)
    unfolding value_by_kind parse_variable_value reject_variable unexpected IsConst
    value_by_kind-IsConst fuel bracket_l s =
        Yields-bind (any options fuel bracket_l nested bracket_r s)
          (any-All IsConst nested const fuel bracket_l bracket_r s)
          λ (vs, s') h. yields (AreConst-to_values vs h)
    value_by_kind-IsConst fuel brace_l s =
        Yields-bind (any options fuel brace_l (parse_object_field options nested) brace_r s)
          (any-All (λ f. IsConst f.1) (parse_object_field options nested) parse_object_field-IsConst
            fuel brace_l brace_r s)
          λ (fs, s') h. yields (HasConstFields-to_fields fs h)
    value_by_kind-IsConst fuel int s = take_token-IsConst Value.int (λ t. tt) s
    value_by_kind-IsConst fuel float s = take_token-IsConst Value.float (λ t. tt) s
    value_by_kind-IsConst fuel string s = take_token-IsConst (λ v. Value.string v false) (λ t. tt) s
    value_by_kind-IsConst fuel block_string s =
        take_token-IsConst (λ v. Value.string v true) (λ t. tt) s
    value_by_kind-IsConst fuel name s = take_token-IsConst named_value IsConst-named_value s
    value_by_kind-IsConst fuel dollar s =
        Yields-then (expect_token options dollar s) λ (t, s'). fails
    value_by_kind-IsConst fuel _ s = fails

  parse_value_literal-Yields :
      (fuel : ℕ) (s : ParserState)
      → Yields (λ r. IsConst r.0) (parse_value_literal options fuel true s)
  unfolding parse_value_literal
  parse_value_literal-Yields zero s = fails
  parse_value_literal-Yields (suc fuel) s =
      value_by_kind-IsConst (parse_value_literal options fuel true)
        (parse_value_literal-Yields fuel) fuel (kind_of s.stream) s

  alone-Yields :
      {A : Type 0} (P : A → Type 0) (parse_fn : Parser A) (body : Text)
      → ((s : ParserState) → Yields (λ r. P r.0) (parse_fn s))
      → Yields P (parse_alone options parse_fn body)
  unfolding parse_alone
  alone-Yields P parse_fn body item =
      Yields-bind {P = λ r. P r.0} _
        (Yields-then (expect_token options sof (start_parser options body)) λ (t, s1).
          Yields-bind (parse_fn s1) (item s1)
            λ (a, s2) h. Yields-then (expect_token options eof s2) λ (t', s3). yields h)
        λ (a, s') h. yields h

  -- On any text parse_const_value returns a value without variables, whose tokens are those of the
  -- whole text, no more than max_tokens, or it raises an exception of the program.
  pub parse_const_value-IsConst :
      (body : Text)
      → Ensures
          (λ v. IsConst v × ((value_lexemes v ≡ lexemes (lex body)) × WholeBody options body))
          (parse_const_value options body)
  unfolding parse_const_value
  parse_const_value-IsConst body =
      Yields-Ensures
        (parse_alone-Ensures options value_lexemes
          (parse_value_literal options (enough options body) true) body
          (parse_value_literal-Read options (enough options body) true))
        (alone-Yields IsConst (parse_value_literal options (enough options body) true) body
          (parse_value_literal-Yields (enough options body)))
