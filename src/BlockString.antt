-- ===== src/BlockString.antt =====
-- src/graphql/language/block_string.py: dedent_block_string_lines and leading_white_space.
-- The text of a line is free of the line breaks that separate the lines.
pub mod Value
pub mod Measure
pub mod Dedent
mod Tests
use graphql_core.Prelude.{
  ℕ, suc, ◌+◌, Bool, true, false, ◌&&◌, ◌||◌, List, Option, none, some, [], ◌∷◌, ◌++◌, length, take,
  drop, ltb, ◌==◌, if◌then◌else◌,
}
use graphql_core.Errors.{Text}

-- `c in " \t"`
unfoldable pub is_white : ℕ → Bool
is_white c = c == 32 || c == 9

unfoldable pub leading_white_space : Text → ℕ
leading_white_space [] = 0
leading_white_space (c ∷ s) = elim (is_white c) [ true ↦ suc (leading_white_space s) | false ↦ 0 ]

-- `last` is one more than `last_non_empty_line`, which begins at -1.
pub record Extent : Type 0 where
  pub common_indent : ℕ
  pub first : Option ℕ
  pub last : ℕ

-- `sys.maxsize` of a 64-bit build
abbrev pub maxsize : ℕ
maxsize = 9223372036854775807

abbrev pub or_else : Option ℕ → ℕ → ℕ
or_else none d = d
or_else (some a) d = a

-- One round of the first loop, for a line that is not empty.
unfoldable pub widen : ℕ → ℕ → Extent → Extent
widen i indent e = record {
  common_indent = (if ltb 0 i && ltb indent e.common_indent then indent else e.common_indent);
  first = some (or_else e.first i);
  last = i + 1;
}

unfoldable pub measure : ℕ → List Text → Extent → Extent
unfolding widen
measure i [] e = e
measure i (line ∷ lines) e =
    let indent : ℕ = leading_white_space line in
    measure (suc i) lines (if indent == length line then e else widen i indent e)

unfoldable pub unindent : ℕ → ℕ → List Text → List Text
unindent common_indent i [] = []
unindent common_indent i (line ∷ lines) =
    (if ltb 0 i then drop common_indent line else line) ∷ unindent common_indent (suc i) lines

-- `lines[first : last + 1]`
abbrev pub slice {ℓ} : {A : Type ℓ} → ℕ → ℕ → List A → List A
slice first last xs = drop first (take last xs)

unfoldable pub dedent_block_string_lines : List Text → List Text
unfolding measure unindent
dedent_block_string_lines lines =
    let e : Extent = measure 0 lines (record { common_indent = maxsize; first = none; last = 0 }) in
    slice (or_else e.first 0) e.last (unindent e.common_indent 0 lines)

-- `"\n".join(lines)`
unfoldable pub join_lines : List Text → Text
join_lines [] = []
join_lines (line ∷ []) = line
join_lines (line ∷ next ∷ lines) = line ++ 10 ∷ join_lines (next ∷ lines)
