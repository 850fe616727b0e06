-- ===== src/Parser/Sound/Selections.antt =====
-- src/graphql/language/parser.py: selection sets against the grammar.
use graphql_core.Prelude.{
  ℕ, zero, suc, ◌<◌, ◌≤◌, ◌≡◌, refl, ap, Bool, true, false, ◌&&◌, Option, none, some, List, [], ◌∷◌,
  ◌++◌, append_assoc, arith, length, if◌then◌else◌,
}
use graphql_core.Errors.{Text, Ensures, returns, raises, Ensures-bind, Ensures-if}
use graphql_core.Text.{codes, same_text}
use graphql_core.TokenKind.{
  is_punctuator_token_kind, brace_l, brace_r, name, colon, spread, paren_l, paren_r,
}
use graphql_core.Ast.{Selection, Selections, field}
use graphql_core.Grammar.{punct, word, concat, argument_lexemes, arguments_lexemes}
use graphql_core.Grammar.Executable.{
  selection_lexemes, selections_lexemes, maybe_lexemes, set_lexemes, alias_lexemes,
  condition_lexemes,
}
use graphql_core.Parser.State.{
  Options, ParserState, Parser, ◌>>>◌, text_of, peek, unexpected, parse_name,
}
use graphql_core.Parser.Values.{parse_argument}
use graphql_core.Parser.Executable.{
  to_selections, optional_selection_set, field_after_name, parse_field, parse_fragment_name,
  fragment_arguments, parse_fragment_spread, parse_inline_fragment, fragment_without_condition,
  parse_fragment, parse_selection, parse_selection_set,
}
use graphql_core.Parser.Reads.{
  IsClean, Read, Read-nil, Read-append, Read-size, size, optional_lexeme,
  expect_optional_token-Read, expect_optional_keyword-Read,
}
use graphql_core.Parser.Sound.Combinators.{Sound, many-Read, optional_many-Read}
use graphql_core.Parser.Sound.Values.{parse_name-Read, expect_punct-Read}
use graphql_core.Parser.Sound.Arguments.{
  parse_argument-Sound, parse_arguments-Read, parse_directives-Read,
}

selections_lexemes-to_selections :
    (xs : List Selection) → selections_lexemes (to_selections xs) ≡ concat selection_lexemes xs
unfolding selection_lexemes
selections_lexemes-to_selections [] = refl
selections_lexemes-to_selections (x ∷ xs) =
    ap (λ z. selection_lexemes x ++ z) (selections_lexemes-to_selections xs)

length-selection_lexemes_pos : (x : Selection) → 0 < length (selection_lexemes x)
unfolding selection_lexemes
length-selection_lexemes_pos (field none n args ds xs) = omega arith
length-selection_lexemes_pos (field (some a) n args ds xs) = omega arith
length-selection_lexemes_pos _ = omega arith

pub parse_fragment_name-Read :
    (options : Options) (s : ParserState)
    → IsClean s.stream
    → Ensures (λ r. Read options s (word name r.0 ∷ []) r.1) (parse_fragment_name options s)
unfolding parse_fragment_name unexpected
parse_fragment_name-Read options s c =
    Ensures-if (same_text (text_of s.stream) (codes "on")) (λ e. raises)
      (λ e. parse_name-Read options s c)

module _ (options : Options) (fuel : ℕ) (nested : Parser Selections)
    (sound : Sound options set_lexemes fuel nested) where
  optional_selection_set-Read :
      (s : ParserState)
      → IsClean s.stream
      → size s < fuel
      → Ensures
          (λ r. Read options s (maybe_lexemes r.0) r.1)
          (optional_selection_set options nested s)
  unfolding optional_selection_set selection_lexemes
  optional_selection_set-Read s c h =
      Ensures-if (peek options brace_l s) (λ e. Ensures-bind (sound s c h) λ (xs, s') r. returns r)
        (λ e. returns (Read-nil s c))

  field_after_name-Read :
      (s s' : ParserState) (alias : Option Text) (n : Text)
      → Read options s (alias_lexemes alias ++ word name n ∷ []) s'
      → size s' < fuel
      → Ensures
          (λ r. Read options s (selection_lexemes r.0) r.1)
          (field_after_name options fuel nested alias n s')
  unfolding field_after_name selection_lexemes
  field_after_name-Read s s' alias n r h =
      Ensures-bind (parse_arguments-Read options fuel false s' r.clean (omega arith))
        λ (args, s1) r1.
          Ensures-bind
            (parse_directives-Read options fuel false s1 r1.clean (omega (arith, Read-size r1)))
            λ (ds, s2) r2.
              Ensures-bind
                (optional_selection_set-Read s2 r2.clean
                  (omega (arith, Read-size r1, Read-size r2)))
                λ (xs, s3) r3.
                  returns (rw append_assoc at (Read-append r (Read-append r1 (Read-append r2 r3))))

  parse_field-Read :
      (s : ParserState)
      → IsClean s.stream
      → size s ≤ fuel
      → Ensures
          (λ r. Read options s (selection_lexemes r.0) r.1)
          (parse_field options fuel nested s)
  unfolding parse_field is_punctuator_token_kind
  parse_field-Read s c h = Ensures-bind (parse_name-Read options s c) λ (n, s1) r1.
      Ensures-bind (expect_optional_token-Read options colon s1 r1.clean refl)
        λ (o, s2) r2. go n s1 r1 o s2 r2
    where
      go :
          (n : Text) (s1 : ParserState)
          → Read options s (word name n ∷ []) s1
          → (o : Bool) (s2 : ParserState) → Read options s1 (optional_lexeme options colon o) s2
          → Ensures
              (λ r. Read options s (selection_lexemes r.0) r.1)
              ((elim o as (λ x. Parser Selection) [
                | true ↦ parse_name options >>> λ m. field_after_name options fuel nested (some n) m
                | false ↦ field_after_name options fuel nested none n
              ])
                s2)
      go n s1 r1 true s2 r2 = Ensures-bind (parse_name-Read options s2 r2.clean) λ (m, s3) r3.
          field_after_name-Read s s3 (some n) m (Read-append r1 (Read-append r2 r3))
            (omega (arith, Read-size r1, Read-size r2, Read-size r3))
      go n s1 r1 false s2 r2 =
          field_after_name-Read s s2 none n (Read-append r1 r2)
            (omega (arith, Read-size r1, Read-size r2))

  fragment_arguments-Read :
      (s : ParserState)
      → IsClean s.stream
      → size s ≤ fuel
      → Ensures
          (λ r. Read options s (arguments_lexemes r.0) r.1)
          (fragment_arguments options fuel s)
  unfolding fragment_arguments argument_lexemes is_punctuator_token_kind
  fragment_arguments-Read s c h =
      Ensures-if (peek options paren_l s && options.experimental_fragment_arguments)
        (λ e.
          optional_many-Read options argument_lexemes (parse_argument options fuel false) fuel
            (parse_argument-Sound options fuel false) (λ a. omega arith) paren_l paren_r refl refl
            fuel s c h h)
        (λ e. returns (Read-nil s c))

  parse_fragment_spread-Read :
      (s s' : ParserState)
      → Read options s (punct spread ∷ []) s'
      → size s' ≤ fuel
      → Ensures
          (λ r. Read options s (selection_lexemes r.0) r.1)
          (parse_fragment_spread options fuel s')
  unfolding parse_fragment_spread selection_lexemes
  parse_fragment_spread-Read s s' r h =
      Ensures-bind (parse_fragment_name-Read options s' r.clean) λ (n, s1) r1.
        Ensures-bind (fragment_arguments-Read s1 r1.clean (omega (arith, Read-size r1)))
          λ (args, s2) r2.
            Ensures-bind
              (parse_directives-Read options fuel false s2 r2.clean
                (omega (arith, Read-size r1, Read-size r2)))
              λ (ds, s3) r3. returns (Read-append r (Read-append r1 (Read-append r2 r3)))

  parse_inline_fragment-Read :
      (s s' : ParserState) (condition : Option Text)
      → Read options s (punct spread ∷ condition_lexemes condition) s'
      → size s' < fuel
      → Ensures
          (λ r. Read options s (selection_lexemes r.0) r.1)
          (parse_inline_fragment options fuel nested condition s')
  unfolding parse_inline_fragment selection_lexemes
  parse_inline_fragment-Read s s' condition r h =
      Ensures-bind (parse_directives-Read options fuel false s' r.clean h) λ (ds, s1) r1.
        Ensures-bind (sound s1 r1.clean (omega (arith, Read-size r1)))
          λ (xs, s2) r2. returns (Read-append r (Read-append r1 r2))

  parse_fragment-Read :
      (s : ParserState)
      → IsClean s.stream
      → size s ≤ fuel
      → Ensures
          (λ r. Read options s (selection_lexemes r.0) r.1)
          (parse_fragment options fuel nested s)
  unfolding parse_fragment fragment_without_condition is_punctuator_token_kind
  parse_fragment-Read s c h =
      Ensures-bind (expect_punct-Read options spread s refl (cc) c) λ (u, s1) r1.
        Ensures-bind (expect_optional_keyword-Read options (codes "on") s1 r1.clean)
          λ (o, s2) r2. go s1 r1 o s2 r2
    where
      go :
          (s1 : ParserState)
          → Read options s (punct spread ∷ []) s1
          → (o : Bool) (s2 : ParserState)
          → Read options s1 (if o then word name (codes "on") ∷ [] else []) s2
          → Ensures
              (λ r. Read options s (selection_lexemes r.0) r.1)
              ((elim o as (λ x. Parser Selection) [
                | true ↦
                    parse_name options >>> λ n. parse_inline_fragment options fuel nested (some n)
                | false ↦ fragment_without_condition options fuel nested
              ])
                s2)
      go s1 r1 true s2 r2 = Ensures-bind (parse_name-Read options s2 r2.clean) λ (n, s3) r3.
          parse_inline_fragment-Read s s3 (some n) (Read-append r1 (Read-append r2 r3))
            (omega (arith, Read-size r1, Read-size r2, Read-size r3))
      go s1 r1 false s2 r2 =
          Ensures-if (peek options name s2)
            (λ e.
              parse_fragment_spread-Read s s2 (Read-append r1 r2)
                (omega (arith, Read-size r1, Read-size r2)))
            (λ e.
              parse_inline_fragment-Read s s2 none (Read-append r1 r2)
                (omega (arith, Read-size r1, Read-size r2)))

  parse_selection-Sound :
      Sound options selection_lexemes (suc fuel) (parse_selection options fuel nested)
  unfolding parse_selection
  parse_selection-Sound s c h =
      Ensures-if (peek options spread s) (λ e. parse_fragment-Read s c (omega arith))
        (λ e. parse_field-Read s c (omega arith))

module _ (options : Options) where
  -- With fuel above the number of tokens that are left, a selection set is parsed or rejected, and
  -- the tokens consumed are exactly those of its selections in braces.
  pub parse_selection_set-Read :
      (fuel : ℕ) (s : ParserState)
      → IsClean s.stream
      → size s < fuel
      → Ensures (λ r. Read options s (set_lexemes r.0) r.1) (parse_selection_set options fuel s)
  unfolding parse_selection_set is_punctuator_token_kind
  parse_selection_set-Read zero s c h = absurd (omega arith)
  parse_selection_set-Read (suc fuel) s c h =
      Ensures-bind
        (many-Read options selection_lexemes
          (parse_selection options fuel (parse_selection_set options fuel)) (suc fuel)
          (parse_selection-Sound options fuel (parse_selection_set options fuel)
            (parse_selection_set-Read fuel))
          length-selection_lexemes_pos brace_l brace_r refl refl fuel s c (omega arith)
          (omega arith))
        λ (xs, s') r. returns (rw (selections_lexemes-to_selections xs) r)
