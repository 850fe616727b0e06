-- ===== src/BlockString/Measure.antt =====
-- src/graphql/language/block_string.py: what the first loop of dedent_block_string_lines finds.
use graphql_core.Prelude.{
  ℕ, suc, ◌+◌, ◌≤◌, ◌<◌, ◌≡◌, refl, sym, ap, ◌∙◌, Bool, true, false, Bool-cases, ◌⊎◌, inl, inr,
  ◌||◌, Option, none, some, List, [], ◌∷◌, arith, length, ◌==◌, if◌then◌else◌,
}
use graphql_core.Errors.{Text}
use graphql_core.BlockString.{
  is_white, leading_white_space, Extent, maxsize, or_else, widen, measure,
}
use graphql_core.BlockString.Value.{
  deeper, indentation, common_indentation, all_blank, least, blanks_before, up_to_last,
}

or_else-deeper : (o : Option ℕ) (n : ℕ) → or_else (deeper o) (suc n) ≡ suc (or_else o n)
or_else-deeper none n = refl
or_else-deeper (some m) n = refl

leading_white_space-white :
    (c : ℕ) (line : Text)
    → is_white c ≡ true
    → leading_white_space (c ∷ line) ≡ suc (leading_white_space line)
unfolding leading_white_space
leading_white_space-white c line h = rw (h, leading_white_space) refl

leading_white_space-other :
    (c : ℕ) (line : Text) → is_white c ≡ false → leading_white_space (c ∷ line) ≡ 0
unfolding leading_white_space
leading_white_space-other c line h = rw (h, leading_white_space) refl

leading_white_space_lem :
    (line : Text) → leading_white_space line ≡ or_else (indentation line) (length line)
unfolding leading_white_space is_white
leading_white_space_lem [] = refl
leading_white_space_lem (c ∷ line) = elim (Bool-cases (c == 32 || c == 9)) [
  | inr e ↦ leading_white_space-other c line e ∙ rw e refl
  | inl e ↦
      leading_white_space-white c line e
      ∙ ap suc (leading_white_space_lem line)
      ∙ rw e (sym (or_else-deeper (indentation line) (length line)))
]

indentation-lt : (line : Text) (n : ℕ) → indentation line ≡ some n → n < length line
indentation-lt [] n h = cc
indentation-lt (c ∷ line) n h = elim (Bool-cases (c == 32 || c == 9)) [
  | inr e ↦ let z : some 0 ≡ some n = rw e at h in ground (arith, z)
  | inl e ↦ go (λ m d. indentation-lt line m d) (indentation line) refl (rw e at h)
]
  where
    go :
        ((m : ℕ) → indentation line ≡ some m → m < length line)
        → (o : Option ℕ) → indentation line ≡ o
        → deeper o ≡ some n
        → n < length (c ∷ line)
    go shorter none e d = cc
    go shorter (some m) e d = let z : suc m ≡ n = cc in omega (arith, z, shorter m e)

pub line-cases : (line : Text) → (indentation line ≡ none) ⊎ ((n : ℕ) × (indentation line ≡ some n))
line-cases line = go (indentation line) refl
  where
    go :
        (o : Option ℕ)
        → indentation line ≡ o
        → (indentation line ≡ none) ⊎ ((n : ℕ) × (indentation line ≡ some n))
    go none e = inl e
    go (some n) e = inr (n, e)

-- The lines that the loop skips, and those that it measures.
pub measure-blank :
    (i : ℕ) (line : Text) (lines : List Text) (e : Extent)
    → indentation line ≡ none
    → measure i (line ∷ lines) e ≡ measure (suc i) lines e
unfolding measure
measure-blank i line lines e h =
    let z : leading_white_space line ≡ length line =
      leading_white_space_lem line ∙ ap (λ o. or_else o (length line)) h in
    let skip : (leading_white_space line == length line) ≡ true = ground (arith, z) in
    ap (λ b. measure (suc i) lines (if b then e else widen i (leading_white_space line) e)) skip

pub measure-text :
    (i n : ℕ) (line : Text) (lines : List Text) (e : Extent)
    → indentation line ≡ some n
    → measure i (line ∷ lines) e ≡ measure (suc i) lines (widen i n e)
unfolding measure
measure-text i n line lines e h =
    let z : leading_white_space line ≡ n =
      leading_white_space_lem line ∙ ap (λ o. or_else o (length line)) h in
    let p = indentation-lt line n h in
    let keep : (leading_white_space line == length line) ≡ false = ground (arith, z, p) in
    ap (λ b. measure (suc i) lines (if b then e else widen i (leading_white_space line) e)) keep
    ∙ ap (λ k. measure (suc i) lines (widen i k e)) z

abbrev pub first_of : Extent → Option ℕ
first_of e = e.first

abbrev pub last_of : Extent → ℕ
last_of e = e.last

pub up_to_last-blank : (lines : List Text) → all_blank lines ≡ true → up_to_last lines ≡ 0
up_to_last-blank [] h = refl
up_to_last-blank (line ∷ lines) h = rw h refl

pub measure-last :
    (i : ℕ) (lines : List Text) (e : Extent)
    → (measure i lines e).last ≡ (if all_blank lines then e.last else i + up_to_last lines)
unfolding measure widen
measure-last i [] e = refl
measure-last i (line ∷ lines) e = elim (line-cases line) [
  | inl h ↦
      let ih = measure-last (suc i) lines e in
      ap last_of (measure-blank i line lines e h) ∙ ih ∙ rw h (skipped (all_blank lines))
  | inr (n, h) ↦
      let ih = measure-last (suc i) lines (widen i n e) in
      let z = up_to_last-blank lines in
      ap last_of (measure-text i n line lines e h) ∙ ih ∙ rw h (ground (arith, z))
]
  where
    skipped :
        (b : Bool)
        → (if b then e.last else suc i + up_to_last lines)
          ≡ (if b then e.last else i + (if b then 0 else suc (up_to_last lines)))
    skipped true = refl
    skipped false = omega arith

measure-some :
    (i a : ℕ) (lines : List Text) (e : Extent)
    → e.first ≡ some a
    → (measure i lines e).first ≡ some a
unfolding measure widen
measure-some i a [] e h = h
measure-some i a (line ∷ lines) e h = elim (line-cases line) [
  | inl b ↦ ap first_of (measure-blank i line lines e b) ∙ measure-some (suc i) a lines e h
  | inr (n, b) ↦
      ap first_of (measure-text i n line lines e b)
      ∙ measure-some (suc i) a lines (widen i n e) (ap (λ o. some (or_else o i)) h)
]

pub measure-first :
    (i : ℕ) (lines : List Text) (e : Extent)
    → e.first ≡ none
    → or_else (measure i lines e).first 0 ≡ (if all_blank lines then 0 else i + blanks_before lines)
unfolding measure widen
measure-first i [] e h = ap (λ o. or_else o 0) h
measure-first i (line ∷ lines) e h = elim (line-cases line) [
  | inl b ↦
      ap (λ x. or_else (first_of x) 0) (measure-blank i line lines e b)
      ∙ measure-first (suc i) lines e h
      ∙ rw b (skipped (all_blank lines))
  | inr (n, b) ↦
      ap (λ x. or_else (first_of x) 0) (measure-text i n line lines e b)
      ∙ ap (λ o. or_else o 0)
          (measure-some (suc i) i lines (widen i n e) (ap (λ o. some (or_else o i)) h))
      ∙ rw b (omega arith)
]
  where
    skipped :
        (b : Bool)
        → (if b then 0 else suc i + blanks_before lines)
          ≡ (if b then 0 else i + suc (blanks_before lines))
    skipped true = refl
    skipped false = omega arith

abbrev pub common_of : Extent → ℕ
common_of e = e.common_indent

-- The least of the indentations so far and those of the lines.
pub measure-common :
    (i : ℕ) (lines : List Text) (e : Extent)
    → 0 < i
    → e.common_indent ≤ maxsize
    → (measure i lines e).common_indent ≡ least (some e.common_indent) (common_indentation lines)
unfolding measure widen
measure-common i [] e p q = ground arith
measure-common i (line ∷ lines) e p q = elim (line-cases line) [
  | inl b ↦
      ap common_of (measure-blank i line lines e b)
      ∙ measure-common (suc i) lines e (omega arith) q
      ∙ rw b refl
  | inr (n, b) ↦
      let ih = measure-common (suc i) lines (widen i n e) (omega arith) (ground arith) in
      ap common_of (measure-text i n line lines e b) ∙ ih ∙ rw b (ground arith)
]
