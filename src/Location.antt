-- ===== src/Location.antt =====
-- The line and column of a position (src/graphql/language/source.py and location.py).
pub mod Lines
mod Tests
use graphql_core.Prelude.{
  ℕ, suc, Bool, true, false, ◌==◌, ◌&&◌, ◌||◌, leb, List, [], ◌∷◌, if◌then◌else◌, length, take,
}
use graphql_core.Errors.{Text}

pub record SourceLocation : Type 0 where
  pub line : ℕ
  pub column : ℕ

-- The line boundaries of Python's `str.splitlines`.
unfoldable pub is_line_boundary : ℕ → Bool
is_line_boundary c =
    (leb 10 c && leb c 13) || (leb 28 c && leb c 30) || c == 0x85 || c == 0x2028 || c == 0x2029

abbrev pub add_to_line : ℕ → List Text → List Text
add_to_line c [] = (c ∷ []) ∷ []
add_to_line c (l ∷ ls) = (c ∷ l) ∷ ls

-- `str.splitlines()`. The Boolean says whether a carriage return stands before the text.
unfoldable pub split_lines : Bool → Text → List Text
unfolding is_line_boundary
split_lines after_cr [] = []
split_lines after_cr (c ∷ s) =
    let next : List Text = split_lines false s in
    let behind : List Text = split_lines (c == 13) s in
    if after_cr && c == 10
    then next
    else if is_line_boundary c
    then [] ∷ behind
    else add_to_line c next

-- `SourceLocation(len(lines), len(lines[-1]) + 1)`, and the start of the text if there are no lines
abbrev pub location_of : List Text → SourceLocation
location_of [] = record { line = 1; column = 1 }
location_of (l ∷ []) = record { line = 1; column = suc (length l) }
location_of (l ∷ m ∷ ls) = record {
  line = suc (location_of (m ∷ ls)).line;
  column = (location_of (m ∷ ls)).column;
}

unfoldable pub get_location : Text → ℕ → SourceLocation
unfolding split_lines
get_location body position = location_of (split_lines false (take position body))
