-- ===== src/BlockString/Dedent.antt =====
-- src/graphql/language/block_string.py: dedent_block_string_lines computes the value of a block string.
use graphql_core.Prelude.{
  ℕ, zero, suc, ◌+◌, ◌≤◌, ◌<◌, ◌≡◌, refl, sym, ap, ◌∙◌, true, Bool-cases, inl, inr, none, some,
  List, [], ◌∷◌, map, arith, take, drop, ltb, if◌then◌else◌,
}
use graphql_core.Errors.{Text}
use graphql_core.BlockString.{
  Extent, maxsize, or_else, slice, widen, measure, unindent, dedent_block_string_lines,
}
use graphql_core.BlockString.Value.{
  common_indentation, all_blank, least, blanks_before, up_to_last, block_string_value,
  block_string_value_lem,
}
use graphql_core.BlockString.Measure.{
  line-cases, measure-blank, measure-text, up_to_last-blank, common_of, measure-last, measure-first,
  measure-common,
}

unindent_lem :
    (common_indent i : ℕ) (lines : List Text)
    → 0 < i
    → unindent common_indent i lines ≡ map (drop common_indent) lines
unfolding unindent
unindent_lem m i [] p = refl
unindent_lem m i (line ∷ lines) p =
    let behind : ltb 0 i ≡ true = ground (arith, p) in
    ap (λ b. (if b then drop m line else line) ∷ unindent m (suc i) lines) behind
    ∙ ap (λ ls. drop m line ∷ ls) (unindent_lem m (suc i) lines (omega arith))

common_indentation-le : (lines : List Text) → common_indentation lines ≤ maxsize
common_indentation-le [] = omega arith
common_indentation-le (line ∷ lines) = elim (line-cases line) [
  | inl h ↦ rw h (common_indentation-le lines)
  | inr (n, h) ↦ let ih = common_indentation-le lines in rw h (ground (arith, ih))
]

abbrev start : Extent
start = record { common_indent = maxsize; first = none; last = 0 }

measure-common_start :
    (line : Text) (lines : List Text)
    → (measure 0 (line ∷ lines) start).common_indent ≡ common_indentation lines
unfolding widen
measure-common_start line lines =
    let le = common_indentation-le lines in
    let all_behind : least (some maxsize) (common_indentation lines) ≡ common_indentation lines =
      ground (arith, le) in
    elim (line-cases line) [
      | inl h ↦
          ap common_of (measure-blank 0 line lines start h)
          ∙ measure-common 1 lines start (omega arith) (omega arith)
          ∙ all_behind
      | inr (n, h) ↦
          ap common_of (measure-text 0 n line lines start h)
          ∙ measure-common 1 lines (widen 0 n start) (omega arith) (omega arith)
          ∙ all_behind
    ]

drop_none : (n : ℕ) (xs : List Text) → drop n (take 0 xs) ≡ []
drop_none zero xs = refl
drop_none (suc n) xs = refl

-- Where the lines are all blank, nothing is left, from wherever the slice is taken.
slice_lem :
    (first : ℕ) (lines xs : List Text)
    → first ≡ (if all_blank lines then 0 else 0 + blanks_before lines)
    → slice first (up_to_last lines) xs ≡ drop (blanks_before lines) (take (up_to_last lines) xs)
slice_lem first lines xs h = elim (Bool-cases (all_blank lines)) [
  | inl b ↦
      rw (up_to_last-blank lines b) (drop_none first xs ∙ sym (drop_none (blanks_before lines) xs))
  | inr b ↦ ap (λ n. drop n (take (up_to_last lines) xs)) ((rw b at h) ∙ omega arith)
]

-- Dedenting lines computes the value of a block string that the specification describes: the indentation that
-- the lines behind the first have in common, blank lines left aside, is removed from them, and then the
-- blank lines at the start and at the end are.
pub dedent_block_string_lines-block_string_value :
    (lines : List Text) → dedent_block_string_lines lines ≡ block_string_value lines
unfolding dedent_block_string_lines unindent
dedent_block_string_lines-block_string_value [] = refl
dedent_block_string_lines-block_string_value (line ∷ lines) =
    let all_lines : List Text = line ∷ lines in
    let e : Extent = measure 0 all_lines start in
    let zero_if_blank = up_to_last-blank all_lines in
    let last : e.last ≡ up_to_last all_lines =
      measure-last 0 all_lines start ∙ ground (arith, zero_if_blank) in
    let first = measure-first 0 all_lines start refl in
    let cut : unindent e.common_indent 0 all_lines
        ≡ line ∷ map (drop (common_indentation lines)) lines =
      ap (λ ls. line ∷ ls) (unindent_lem e.common_indent 1 lines (omega arith))
      ∙ ap (λ m. line ∷ map (drop m) lines) (measure-common_start line lines) in
    ap (λ n. slice (or_else e.first 0) n (unindent e.common_indent 0 all_lines)) last
    ∙ ap (λ xs. slice (or_else e.first 0) (up_to_last all_lines) xs) cut
    ∙ slice_lem (or_else e.first 0) all_lines (line ∷ map (drop (common_indentation lines)) lines)
        first
    ∙ block_string_value_lem line lines
