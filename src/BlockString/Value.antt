-- ===== src/BlockString/Value.antt =====
-- The value of a block string as the specification has it (BlockStringValue): what the docstring of
-- dedent_block_string_lines in src/graphql/language/block_string.py says that it implements.
use graphql_core.Prelude.{
  ℕ, zero, suc, ◌≤◌, ◌≡◌, refl, sym, ap, ◌∙◌, Bool, true, false, Bool-cases, inl, inr, ◌&&◌, ◌||◌,
  Option, none, some, List, [], ◌∷◌, map, arith, take, drop, ltb, ◌==◌, if◌then◌else◌,
}
use graphql_core.Errors.{Text}
use graphql_core.BlockString.{maxsize}

abbrev pub deeper : Option ℕ → Option ℕ
deeper none = none
deeper (some n) = some (suc n)

-- The number of spaces and tabs in front of the first other character, if there is one.
abbrev pub indentation : Text → Option ℕ
indentation [] = none
indentation (c ∷ s) = if c == 32 || c == 9 then deeper (indentation s) else some 0

abbrev pub is_none : Option ℕ → Bool
is_none none = true
is_none (some n) = false

-- The line has only spaces and tabs.
abbrev pub is_blank : Text → Bool
is_blank line = is_none (indentation line)

abbrev pub least : Option ℕ → ℕ → ℕ
least none n = n
least (some m) n = if ltb m n then m else n

-- The least indentation of the lines that are not blank, or maxsize where all are.
abbrev pub common_indentation : List Text → ℕ
common_indentation [] = maxsize
common_indentation (line ∷ lines) = least (indentation line) (common_indentation lines)

abbrev pub all_blank : List Text → Bool
all_blank [] = true
all_blank (line ∷ lines) = is_blank line && all_blank lines

-- The lines without the blank lines at the end.
abbrev pub trim_end : List Text → List Text
trim_end [] = []
trim_end (line ∷ lines) = if all_blank (line ∷ lines) then [] else line ∷ trim_end lines

-- The lines without the blank lines at the start.
abbrev pub trim_start : List Text → List Text
trim_start [] = []
trim_start (line ∷ lines) = if is_blank line then trim_start lines else line ∷ lines

-- The indentation that the lines behind the first have in common is removed from them, and then the blank
-- lines at the start and at the end.
abbrev pub block_string_value : List Text → List Text
block_string_value [] = []
block_string_value (line ∷ lines) =
    trim_start (trim_end (line ∷ map (drop (common_indentation lines)) lines))

-- Where the blank lines are: how many the lines begin with, and the number of lines up to the last that
-- is not blank.
abbrev pub blanks_before : List Text → ℕ
blanks_before [] = 0
blanks_before (line ∷ lines) = if is_blank line then suc (blanks_before lines) else 0

abbrev pub up_to_last : List Text → ℕ
up_to_last [] = 0
up_to_last (line ∷ lines) = if all_blank (line ∷ lines) then 0 else suc (up_to_last lines)

pub take-up_to_last : (lines : List Text) → take (up_to_last lines) lines ≡ trim_end lines
take-up_to_last [] = refl
take-up_to_last (line ∷ lines) = elim (Bool-cases (all_blank (line ∷ lines))) [
  | inl e ↦ rw e refl
  | inr e ↦ rw e (ap (λ ls. line ∷ ls) (take-up_to_last lines))
]

pub drop-blanks_before :
    (lines : List Text) → drop (blanks_before lines) (trim_end lines) ≡ trim_start (trim_end lines)
drop-blanks_before [] = refl
drop-blanks_before (line ∷ lines) = elim (Bool-cases (is_blank line)) [
  | inr b ↦ rw (b, b) refl
  | inl b ↦ elim (Bool-cases (all_blank lines)) [
    | inl e ↦ rw (b, e) refl
    | inr e ↦ rw (b, e, b) (drop-blanks_before lines)
  ]
]

is_none-deeper : (o : Option ℕ) → is_none (deeper o) ≡ is_none o
is_none-deeper none = refl
is_none-deeper (some n) = refl

-- A line from which characters are removed is blank if it was, and also not if it was not and only
-- white space is removed.
blank-drop : (n : ℕ) (line : Text) → is_blank line ≡ true → is_blank (drop n line) ≡ true
blank-drop zero line h = h
blank-drop (suc n) [] h = refl
blank-drop (suc n) (c ∷ line) h = elim (Bool-cases (c == 32 || c == 9)) [
  | inr e ↦ cc (rw e at h)
  | inl e ↦ blank-drop n line (sym (is_none-deeper (indentation line)) ∙ rw e at h)
]

text-drop :
    (n m : ℕ) (line : Text) → indentation line ≡ some m → n ≤ m → is_blank (drop n line) ≡ false
text-drop zero m line h p = ap is_none h
text-drop (suc n) m [] h p = cc
text-drop (suc n) m (c ∷ line) h p = elim (Bool-cases (c == 32 || c == 9)) [
  | inr e ↦ let z : some 0 ≡ some m = rw e at h in ground (arith, z, p)
  | inl e ↦ go (λ k d q. text-drop n k line d q) (indentation line) refl (rw e at h)
]
  where
    go :
        ((k : ℕ) → indentation line ≡ some k → n ≤ k → is_blank (drop n line) ≡ false)
        → (o : Option ℕ) → indentation line ≡ o
        → deeper o ≡ some m
        → is_blank (drop n line) ≡ false
    go shorter none e d = cc
    go shorter (some k) e d = shorter k e (let z : suc k ≡ m = cc in omega (arith, z, p))

-- The common indentation is that of each line at most, so that what is removed is white space.
is_blank-drop :
    (n : ℕ) (line : Text) (lines : List Text)
    → n ≤ common_indentation (line ∷ lines)
    → (is_blank (drop n line) ≡ is_blank line) × (n ≤ common_indentation lines)
is_blank-drop n line lines = go (indentation line) refl
  where
    go :
        (o : Option ℕ)
        → indentation line ≡ o
        → n ≤ least o (common_indentation lines)
        → (is_blank (drop n line) ≡ is_blank line) × (n ≤ common_indentation lines)
    go none e p = (blank-drop n line (ap is_none e) ∙ sym (ap is_none e), p)
    go (some m) e p =
        (text-drop n m line e (ground (arith, p)) ∙ sym (ap is_none e), ground (arith, p))

module _ (n : ℕ) where
  pub all_blank-drop :
      (lines : List Text)
      → n ≤ common_indentation lines
      → all_blank (map (drop n) lines) ≡ all_blank lines
  all_blank-drop [] p = refl
  all_blank-drop (line ∷ lines) p =
      let b = is_blank-drop n line lines p in rw (b.0, all_blank-drop lines b.1) refl

  pub blanks_before-drop :
      (lines : List Text)
      → n ≤ common_indentation lines
      → blanks_before (map (drop n) lines) ≡ blanks_before lines
  blanks_before-drop [] p = refl
  blanks_before-drop (line ∷ lines) p =
      let b = is_blank-drop n line lines p in rw (b.0, blanks_before-drop lines b.1) refl

  pub up_to_last-drop :
      (lines : List Text)
      → n ≤ common_indentation lines
      → up_to_last (map (drop n) lines) ≡ up_to_last lines
  up_to_last-drop [] p = refl
  up_to_last-drop (line ∷ lines) p =
      let b = is_blank-drop n line lines p in
      rw (b.0, all_blank-drop lines b.1, up_to_last-drop lines b.1) refl

-- The value is a slice of the lines without their indentation.
pub block_string_value_lem :
    (line : Text) (lines : List Text)
    → drop
        (blanks_before (line ∷ lines))
        (take (up_to_last (line ∷ lines)) (line ∷ map (drop (common_indentation lines)) lines))
      ≡ block_string_value (line ∷ lines)
block_string_value_lem line lines =
    let m : ℕ = common_indentation lines in
    let cut : List Text = line ∷ map (drop m) lines in
    let p : m ≤ common_indentation lines = omega arith in
    let a : blanks_before cut ≡ blanks_before (line ∷ lines) =
      rw (blanks_before-drop m lines p) refl in
    let b : up_to_last cut ≡ up_to_last (line ∷ lines) =
      rw (all_blank-drop m lines p, up_to_last-drop m lines p) refl in
    rw (sym a, sym b, take-up_to_last cut) (drop-blanks_before cut)
