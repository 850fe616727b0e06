-- ===== src/Parser/Combinators.antt =====
-- Parser.any, many, optional_many and delimited_many. A loop costs a unit of fuel for each node.
use graphql_core.Prelude.{
  ℕ, zero, suc, true, false, Option, none, some, List, [], ◌∷◌, if◌then◌else◌,
}
use graphql_core.Errors.{Result, ok, err, ◌>>=◌, out_of_fuel}
use graphql_core.TokenKind.{TokenKind}
use graphql_core.Parser.State.{
  Options, ParserState, Parser, ◌>>>◌, pure, expect_token, expect_optional_token,
}

module _ (options : Options) {A : Type 0} where
  -- `while not expect_optional_token(close_kind): append(parse_fn())`
  unfoldable pub until_close : ℕ → Parser A → TokenKind → Parser (List A)
  until_close zero parse_fn close s = err out_of_fuel
  until_close (suc fuel) parse_fn close s =
      expect_optional_token options close s >>= λ (closed, s'). elim closed [
        | true ↦ ok ([], s')
        | false ↦
            (parse_fn >>> λ node. until_close fuel parse_fn close >>> λ nodes. pure (node ∷ nodes))
              s'
      ]

  unfoldable pub any : ℕ → TokenKind → Parser A → TokenKind → Parser (List A)
  unfolding until_close
  any fuel open_kind parse_fn close =
      expect_token options open_kind >>> λ _. until_close fuel parse_fn close

  unfoldable pub many : ℕ → TokenKind → Parser A → TokenKind → Parser (List A)
  unfolding until_close
  many fuel open_kind parse_fn close = expect_token options open_kind >>> λ _.
      parse_fn >>> λ node. until_close fuel parse_fn close >>> λ nodes. pure (node ∷ nodes)

  unfoldable pub optional_many : ℕ → TokenKind → Parser A → TokenKind → Parser (Option (List A))
  unfolding until_close
  optional_many fuel open_kind parse_fn close =
      expect_optional_token options open_kind >>> λ opened. elim opened [
        | true ↦ parse_fn >>> λ node.
            until_close fuel parse_fn close >>> λ nodes. pure (some (node ∷ nodes))
        | false ↦ pure none
      ]

  -- `while True: append(parse_fn())`, until no delimiter follows
  unfoldable pub delimited_loop : ℕ → TokenKind → Parser A → Parser (List A)
  delimited_loop zero delimiter parse_fn s = err out_of_fuel
  delimited_loop (suc fuel) delimiter parse_fn s =
      (parse_fn >>> λ node. expect_optional_token options delimiter >>> λ again s'.
      let more : Result (List A × ParserState) = delimited_loop fuel delimiter parse_fn s' in
      if again then (more >>= λ (nodes, s''). ok (node ∷ nodes, s'')) else ok (node ∷ [], s'))
        s

  unfoldable pub delimited_many : ℕ → TokenKind → Parser A → Parser (List A)
  unfolding delimited_loop
  delimited_many fuel delimiter parse_fn =
      expect_optional_token options delimiter >>> λ _. delimited_loop fuel delimiter parse_fn
