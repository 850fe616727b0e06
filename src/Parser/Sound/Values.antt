-- ===== src/Parser/Sound/Values.antt =====
-- src/graphql/language/parser.py: parse_value_literal against the grammar.
use graphql_core.Prelude.{
  ℕ, zero, suc, ◌<◌, ◌≤◌, ◌≡◌, ◌≢◌, refl, sym, ◌∙◌, ap, Bool, true, false, List, [], ◌∷◌, ◌++◌,
  arith, length, Bool-cases, inl, inr,
}
use graphql_core.Errors.{Text, Ensures, returns, raises, Ensures-bind, Ensures-map}
use graphql_core.Text.{codes, same_text, same_text→eq}
use graphql_core.TokenKind.{
  TokenKind, is_punctuator_token_kind, eof, bracket_l, bracket_r, brace_l, brace_r, int, float,
  string, block_string, name, dollar, colon,
}
use graphql_core.Ast.{Value}
use graphql_core.Grammar.{
  Lexeme, punct, word, concat, value_lexemes, values_lexemes, fields_lexemes,
}
use graphql_core.Parser.State.{
  Options, ParserState, Parser, kind_of, expect_token, parse_name, unexpected,
}
use graphql_core.Parser.Values.{
  to_values, to_fields, named_value, take_token, parse_variable, reject_variable,
  parse_variable_value, parse_object_field, value_by_kind, parse_value_literal,
}
use graphql_core.Parser.Reads.{
  IsClean, Read, Read-append, Read-size, size, advance_lexer-Read, expect_token-Read,
}
use graphql_core.Parser.Sound.Combinators.{Sound, any-Read}

pub length-value_lexemes_pos : (v : Value) → 0 < length (value_lexemes v)
unfolding value_lexemes
length-value_lexemes_pos (Value.string t true) = omega arith
length-value_lexemes_pos (Value.string t false) = omega arith
length-value_lexemes_pos (Value.boolean true) = omega arith
length-value_lexemes_pos (Value.boolean false) = omega arith
length-value_lexemes_pos _ = omega arith

pub values_lexemes-to_values :
    (vs : List Value) → values_lexemes (to_values vs) ≡ concat value_lexemes vs
unfolding value_lexemes
values_lexemes-to_values [] = refl
values_lexemes-to_values (v ∷ vs) = ap (λ z. value_lexemes v ++ z) (values_lexemes-to_values vs)

abbrev pub field_lexemes : Text × Value → List Lexeme
field_lexemes (n, v) = word name n ∷ punct colon ∷ value_lexemes v

pub fields_lexemes-to_fields :
    (fs : List (Text × Value)) → fields_lexemes (to_fields fs) ≡ concat field_lexemes fs
unfolding value_lexemes
fields_lexemes-to_fields [] = refl
fields_lexemes-to_fields ((n, v) ∷ fs) =
    ap (λ z. field_lexemes (n, v) ++ z) (fields_lexemes-to_fields fs)

pub value_lexemes-named_value : (t : Text) → value_lexemes (named_value t) ≡ word name t ∷ []
unfolding value_lexemes named_value
value_lexemes-named_value t = elim (Bool-cases (same_text t (codes "true"))) [
  | inl e ↦ rw e (ap (λ z. word name z ∷ []) (sym (same_text→eq _ _ e)))
  | inr e ↦ rw e (elim (Bool-cases (same_text t (codes "false"))) [
    | inl e' ↦ rw e' (ap (λ z. word name z ∷ []) (sym (same_text→eq _ _ e')))
    | inr e' ↦ rw e' (elim (Bool-cases (same_text t (codes "null"))) [
      | inl e'' ↦ rw e'' (ap (λ z. word name z ∷ []) (sym (same_text→eq _ _ e'')))
      | inr e'' ↦ rw e''
    ])
  ])
]

module _ (options : Options) where
  pub parse_name-Read :
      (s : ParserState)
      → IsClean s.stream
      → Ensures (λ r. Read options s (word name r.0 ∷ []) r.1) (parse_name options s)
  unfolding parse_name is_punctuator_token_kind
  parse_name-Read s c = expect_token-Read options name s c (cc)

  -- A punctuator, for any kind of them.
  pub expect_punct-Read :
      (kind : TokenKind) (s : ParserState)
      → is_punctuator_token_kind kind ≡ true
      → kind ≢ eof
      → IsClean s.stream
      → Ensures (λ r. Read options s (punct kind ∷ []) r.1) (expect_token options kind s)
  expect_punct-Read kind s p e c = rw p at (expect_token-Read options kind s c e)

  pub take_token-Read :
      (kind : TokenKind) (make : Text → Value) (s : ParserState)
      → IsClean s.stream
      → kind_of s.stream ≡ kind
      → is_punctuator_token_kind kind ≡ false
      → kind ≢ eof
      → ((t : Text) → value_lexemes (make t) ≡ word kind t ∷ [])
      → Ensures (λ r. Read options s (value_lexemes r.0) r.1) (take_token options make s)
  unfolding take_token
  take_token-Read kind make s c e p h m =
      Ensures-bind (advance_lexer-Read options s c (λ e'. h (sym e ∙ e')))
        λ (u, s') r. returns (rw m (rw (e, p) at r))

  pub parse_variable-Read :
      (s : ParserState)
      → IsClean s.stream
      → Ensures
          (λ r. Read options s (punct dollar ∷ word name r.0 ∷ []) r.1)
          (parse_variable options s)
  unfolding parse_variable is_punctuator_token_kind
  parse_variable-Read s c =
      Ensures-bind (expect_punct-Read dollar s refl (cc) c)
        λ (u, s') r. Ensures-map (parse_name-Read s' r.clean) λ (n, s2) r2. Read-append r r2

  pub parse_variable_value-Read :
      (is_const : Bool) (s : ParserState)
      → IsClean s.stream
      → Ensures
          (λ r. Read options s (value_lexemes r.0) r.1)
          (parse_variable_value options is_const s)
  unfolding parse_variable_value reject_variable value_lexemes is_punctuator_token_kind
  parse_variable_value-Read true s c =
      Ensures-bind (expect_punct-Read dollar s refl (cc) c) λ (u, s') r. raises
  parse_variable_value-Read false s c =
      Ensures-bind (parse_variable-Read s c) λ (n, s') r. returns r

  -- What precedes a colon is a name, and what follows it is parsed by `parse_fn`.
  pub parse_object_field-Sound :
      (bound : ℕ) (parse_fn : Parser Value)
      → Sound options value_lexemes bound parse_fn
      → Sound options field_lexemes bound (parse_object_field options parse_fn)
  unfolding parse_object_field is_punctuator_token_kind
  parse_object_field-Sound bound parse_fn sound s c h =
      Ensures-bind (parse_name-Read s c) λ (n, s1) r1.
        Ensures-bind (expect_punct-Read colon s1 refl (cc) r1.clean) λ (u, s2) r2.
          Ensures-bind (sound s2 r2.clean (omega (arith, Read-size r1, Read-size r2)))
            λ (v, s3) r3. returns (Read-append r1 (Read-append r2 r3))

  pub value_by_kind-Read :
      (fuel : ℕ) (is_const : Bool) (nested : Parser Value)
      → Sound options value_lexemes fuel nested
      → (kind : TokenKind) (s : ParserState) → IsClean s.stream
      → kind_of s.stream ≡ kind
      → size s ≤ fuel
      → Ensures
          (λ r. Read options s (value_lexemes r.0) r.1)
          (value_by_kind options fuel is_const nested kind s)
  unfolding value_by_kind unexpected value_lexemes is_punctuator_token_kind
  value_by_kind-Read fuel is_const nested sound bracket_l s c e h =
      Ensures-bind
        (any-Read options value_lexemes nested fuel sound length-value_lexemes_pos bracket_l
          bracket_r refl refl fuel s c h h)
        λ (vs, s') r. returns (rw (values_lexemes-to_values vs) r)
  value_by_kind-Read fuel is_const nested sound brace_l s c e h =
      Ensures-bind
        (any-Read options field_lexemes (parse_object_field options nested) fuel
          (parse_object_field-Sound fuel nested sound) (λ (n, v). omega arith) brace_l brace_r refl
          refl fuel s c h h)
        λ (fs, s') r. returns (rw (fields_lexemes-to_fields fs) r)
  value_by_kind-Read fuel is_const nested sound int s c e h =
      take_token-Read int Value.int s c e refl (cc) (λ t. refl)
  value_by_kind-Read fuel is_const nested sound float s c e h =
      take_token-Read float Value.float s c e refl (cc) (λ t. refl)
  value_by_kind-Read fuel is_const nested sound string s c e h =
      take_token-Read string (λ v. Value.string v false) s c e refl (cc) (λ t. refl)
  value_by_kind-Read fuel is_const nested sound block_string s c e h =
      take_token-Read block_string (λ v. Value.string v true) s c e refl (cc) (λ t. refl)
  value_by_kind-Read fuel is_const nested sound name s c e h =
      take_token-Read name named_value s c e refl (cc) value_lexemes-named_value
  value_by_kind-Read fuel is_const nested sound dollar s c e h =
      parse_variable_value-Read is_const s c
  value_by_kind-Read fuel is_const nested sound _ s c e h = raises

  -- With fuel above the number of tokens that are left, a value literal is parsed or rejected, and
  -- the tokens consumed are exactly those of the value.
  pub parse_value_literal-Read :
      (fuel : ℕ) (is_const : Bool) (s : ParserState)
      → IsClean s.stream
      → size s < fuel
      → Ensures
          (λ r. Read options s (value_lexemes r.0) r.1)
          (parse_value_literal options fuel is_const s)
  unfolding parse_value_literal
  parse_value_literal-Read zero is_const s c h = absurd (omega arith)
  parse_value_literal-Read (suc fuel) is_const s c h =
      value_by_kind-Read fuel is_const (parse_value_literal options fuel is_const)
        (parse_value_literal-Read fuel is_const) (kind_of s.stream) s c refl (omega arith)
