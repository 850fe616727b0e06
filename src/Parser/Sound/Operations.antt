-- ===== src/Parser/Sound/Operations.antt =====
-- src/graphql/language/parser.py: operations and fragment definitions against the grammar.
use graphql_core.Prelude.{ℕ, ◌<◌, ◌≤◌, ◌&&◌, Bool, true, false, arith, if◌then◌else◌}
use graphql_core.Errors.{Ensures, returns, Ensures-bind, Ensures-map, Ensures-if}
use graphql_core.Text.{codes}
use graphql_core.TokenKind.{brace_l, name}
use graphql_core.Grammar.{optional}
use graphql_core.Grammar.Executable.{
  keyword, variables_lexemes, operation_lexemes, fragment_lexemes, set_lexemes, has_shorthand,
}
use graphql_core.Parser.State.{Options, ParserState, peek}
use graphql_core.Parser.Executable.{
  optional_name, parse_full_operation, parse_operation_definition, fragment_variables,
  parse_fragment_definition,
}
use graphql_core.Parser.Reads.{
  IsClean, Read, Read-nil, Read-append, Read-size, size, expect_keyword-Read,
}
use graphql_core.Parser.Sound.Values.{parse_name-Read}
use graphql_core.Parser.Sound.Arguments.{parse_directives-Read}
use graphql_core.Parser.Sound.Selections.{parse_fragment_name-Read, parse_selection_set-Read}
use graphql_core.Parser.Sound.Variables.{
  parse_operation_type-Read, parse_description-Read, parse_variable_definitions-Read,
}

module _ (options : Options) where
  optional_name-Read :
      (s : ParserState)
      → IsClean s.stream
      → Ensures (λ r. Read options s (optional keyword r.0) r.1) (optional_name options s)
  unfolding optional_name
  optional_name-Read s c =
      Ensures-if (peek options name s)
        (λ e. Ensures-bind (parse_name-Read options s c) λ (n, s') r. returns r)
        (λ e. returns (Read-nil s c))

  parse_full_operation-Read :
      (fuel : ℕ) (s : ParserState)
      → IsClean s.stream
      → size s < fuel
      → Ensures
          (λ r. Read options s (operation_lexemes r.0) r.1)
          (parse_full_operation options fuel s)
  unfolding parse_full_operation operation_lexemes
  parse_full_operation-Read fuel s c h =
      Ensures-bind (parse_description-Read options s c) λ (d, s1) r1.
        Ensures-bind (parse_operation_type-Read options s1 r1.clean) λ (o, s2) r2.
          Ensures-bind (optional_name-Read s2 r2.clean) λ (n, s3) r3.
            Ensures-bind
              (parse_variable_definitions-Read options fuel s3 r3.clean
                (omega (arith, Read-size r1, Read-size r2, Read-size r3)))
              λ (vs, s4) r4.
                Ensures-bind
                  (parse_directives-Read options fuel false s4 r4.clean
                    (omega (arith, Read-size r1, Read-size r2, Read-size r3, Read-size r4)))
                  λ (ds, s5) r5.
                    Ensures-bind
                      (parse_selection_set-Read options fuel s5 r5.clean (
                        omega (
                          arith,
                          Read-size r1,
                          Read-size r2,
                          Read-size r3,
                          Read-size r4,
                          Read-size r5,
                        )))
                      λ (xs, s6) r6. returns (
                        Read-append r1
                          (Read-append r2 (Read-append r3 (Read-append r4 (Read-append r5 r6)))))

  -- With fuel above the number of tokens that are left, an operation is parsed or rejected. The
  -- tokens consumed are those of the operation in full or, where it is an anonymous query with a
  -- selection set and nothing else, perhaps those of the selection set alone.
  pub parse_operation_definition-Read :
      (fuel : ℕ) (s : ParserState)
      → IsClean s.stream
      → size s < fuel
      → Ensures
          (λ r.
            (choice : Bool) × Read options s
              (if choice && has_shorthand r.0
                then set_lexemes r.0.selection_set
                else operation_lexemes r.0)
              r.1)
          (parse_operation_definition options fuel s)
  unfolding parse_operation_definition
  parse_operation_definition-Read fuel s c h =
      Ensures-if (peek options brace_l s)
        (λ e.
          Ensures-bind (parse_selection_set-Read options fuel s c h)
            λ (xs, s') r. returns (true, r))
        (λ e. Ensures-map (parse_full_operation-Read fuel s c h) λ (d, s') r. (false, r))

  fragment_variables-Read :
      (fuel : ℕ) (s : ParserState)
      → IsClean s.stream
      → size s ≤ fuel
      → Ensures
          (λ r. Read options s (variables_lexemes r.0) r.1)
          (fragment_variables options fuel s)
  unfolding fragment_variables
  fragment_variables-Read fuel s c h =
      Ensures-if options.experimental_fragment_arguments
        (λ e. parse_variable_definitions-Read options fuel s c h) (λ e. returns (Read-nil s c))

  -- With fuel above the number of tokens that are left, a fragment definition is parsed or rejected,
  -- and the tokens consumed are exactly those of the definition.
  pub parse_fragment_definition-Read :
      (fuel : ℕ) (s : ParserState)
      → IsClean s.stream
      → size s < fuel
      → Ensures
          (λ r. Read options s (fragment_lexemes r.0) r.1)
          (parse_fragment_definition options fuel s)
  unfolding parse_fragment_definition fragment_lexemes
  parse_fragment_definition-Read fuel s c h =
      Ensures-bind (parse_description-Read options s c) λ (d, s1) r1.
        Ensures-bind (expect_keyword-Read options (codes "fragment") s1 r1.clean) λ (u, s2) r2.
          Ensures-bind (parse_fragment_name-Read options s2 r2.clean) λ (n, s3) r3.
            Ensures-bind
              (fragment_variables-Read fuel s3 r3.clean
                (omega (arith, Read-size r1, Read-size r2, Read-size r3)))
              λ (vs, s4) r4.
                Ensures-bind (expect_keyword-Read options (codes "on") s4 r4.clean) λ (u', s5) r5.
                  Ensures-bind (parse_name-Read options s5 r5.clean) λ (t, s6) r6.
                    Ensures-bind
                      (parse_directives-Read options fuel false s6 r6.clean (
                        omega (
                          arith,
                          Read-size r1,
                          Read-size r2,
                          Read-size r3,
                          Read-size r4,
                          Read-size r5,
                          Read-size r6,
                        )))
                      λ (ds, s7) r7.
                        Ensures-bind
                          (parse_selection_set-Read options fuel s7 r7.clean (
                            omega (
                              arith,
                              Read-size r1,
                              Read-size r2,
                              Read-size r3,
                              Read-size r4,
                              Read-size r5,
                              Read-size r6,
                              Read-size r7,
                            )))
                          λ (xs, s8) r8. returns (
                            Read-append r1 (
                              Read-append r2 (
                                Read-append r3 (
                                  Read-append r4
                                    (Read-append r5 (Read-append r6 (Read-append r7 r8)))))))
