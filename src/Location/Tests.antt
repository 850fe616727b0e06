-- ===== src/Location/Tests.antt =====
-- Locations in small texts.
use graphql_core.Prelude.{suc, ◌≡◌, refl, false, [], ◌∷◌, ◌++◌, length}
use graphql_core.Text.{codes}
use graphql_core.Location.{is_line_boundary, split_lines, get_location}
use graphql_core.Location.Lines.{get_location-EndsLines, get_location-newline}

-- The lines "a" and "" and then "bc", at the end of "bc"
get_location_example :
    get_location ((codes "a\n\n" ++ codes "bc") ++ codes "d") (length (codes "a\n\n" ++ codes "bc"))
    ≡ record {
      line = suc (length (split_lines false (codes "a\n\n")));
      column = suc (length (codes "bc"));
    }
unfolding is_line_boundary
get_location_example =
    get_location-EndsLines (codes "a\n\n") b'b' (codes "c") (codes "d") refl (refl, (refl, tt))

-- The lines "x" and "ab", behind the newline that ends "ab"
newline_example :
    get_location
      ((codes "x\n" ++ (codes "ab" ++ 10 ∷ [])) ++ codes "c")
      (length (codes "x\n" ++ (codes "ab" ++ 10 ∷ [])))
    ≡ record {
      line = suc (length (split_lines false (codes "x\n")));
      column = suc (length (codes "ab"));
    }
unfolding is_line_boundary
newline_example =
    get_location-newline (codes "x\n") b'a' (codes "b") (codes "c") refl (refl, (refl, tt))

third_line : get_location (codes "a\n\nbcd") 5 ≡ record { line = 3; column = 3 }
unfolding get_location split_lines is_line_boundary
third_line = refl

-- The character c of "ab\nc" is on the second line, and located on the first.
start_of_line : get_location (codes "ab\nc") 3 ≡ record { line = 1; column = 3 }
unfolding get_location split_lines is_line_boundary
start_of_line = refl
