-- ===== src/BlockString/Tests.antt =====
-- Dedenting the lines of a block string.
use graphql_core.Prelude.{◌≡◌, refl, List, [], ◌∷◌}
use graphql_core.Errors.{Text}
use graphql_core.Text.{codes}
use graphql_core.BlockString.{
  is_white, leading_white_space, measure, widen, unindent, dedent_block_string_lines,
}
use graphql_core.BlockString.Value.{block_string_value}
use graphql_core.BlockString.Dedent.{dedent_block_string_lines-block_string_value}

abbrev some_lines : List Text
some_lines =
    codes " "
    ∷ codes "    type T {"
    ∷ codes "      f"
    ∷ codes " "
    ∷ codes "    }"
    ∷ []
    ∷ codes "      "
    ∷ []

dedent_block_string_lines-block_string_value_example :
    dedent_block_string_lines some_lines ≡ block_string_value some_lines
dedent_block_string_lines-block_string_value_example =
    dedent_block_string_lines-block_string_value some_lines

dedented :
    dedent_block_string_lines some_lines ≡ codes "type T {" ∷ codes "  f" ∷ [] ∷ codes "}" ∷ []
unfolding dedent_block_string_lines measure widen unindent leading_white_space is_white
dedented = refl

-- The first line keeps its indentation, which does not count.
first_line :
    dedent_block_string_lines (codes "  a" ∷ codes "    b" ∷ []) ≡ codes "  a" ∷ codes "b" ∷ []
unfolding dedent_block_string_lines measure widen unindent leading_white_space is_white
first_line = refl
