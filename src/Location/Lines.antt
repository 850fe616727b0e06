-- ===== src/Location/Lines.antt =====
-- Where the positions of a text are.
use graphql_core.Prelude.{
  ◌⊎◌, ℕ, suc, ◌≡◌, ◌≢◌, refl, sym, ap, ◌∙◌, Bool, true, false, ◌==◌, ◌&&◌, Bool-cases, inl, inr,
  List, [], ◌∷◌, ◌++◌, length, take-append, All, arith,
}
use graphql_core.Errors.{Text}
use graphql_core.Location.{
  SourceLocation, is_line_boundary, add_to_line, split_lines, location_of, get_location,
}

-- Whole lines: nothing, or a text whose last character ends a line.
abbrev pub EndsLines : Text → Type 0
EndsLines [] = Unit {0}
EndsLines (c ∷ []) = is_line_boundary c ≡ true
EndsLines (c ∷ d ∷ s) = EndsLines (d ∷ s)

abbrev pub InLine : Text → Type 0
InLine t = All (λ c. is_line_boundary c ≡ false) t

not_newline : (c : ℕ) → is_line_boundary c ≡ false → (c == 10) ≡ false
unfolding is_line_boundary
not_newline c h = ground arith

split_lines-boundary :
    (c : ℕ) (s : Text)
    → is_line_boundary c ≡ true
    → split_lines false (c ∷ s) ≡ [] ∷ split_lines (c == 13) s
unfolding split_lines
split_lines-boundary c s h = rw h refl

split_lines-other :
    (f : Bool) (c : ℕ) (s : Text)
    → is_line_boundary c ≡ false
    → split_lines f (c ∷ s) ≡ add_to_line c (split_lines false s)
unfolding split_lines
split_lines-other true c s h = rw (not_newline c h, h) refl
split_lines-other false c s h = rw h refl

split_lines_nil : split_lines false [] ≡ []
unfolding split_lines
split_lines_nil = refl

split_lines-InLine :
    (f : Bool) (c : ℕ) (t : Text) → InLine (c ∷ t) → split_lines f (c ∷ t) ≡ (c ∷ t) ∷ []
split_lines-InLine f c [] h = split_lines-other f c [] h.0 ∙ ap (add_to_line c) split_lines_nil
split_lines-InLine f c (d ∷ t) h =
    split_lines-other f c (d ∷ t) h.0 ∙ ap (add_to_line c) (split_lines-InLine false d t h.1)

add_to_line-append :
    (c : ℕ) (ls ms : List Text) → ls ≢ [] → add_to_line c (ls ++ ms) ≡ add_to_line c ls ++ ms
add_to_line-append c [] ms h = absurd (h refl)
add_to_line-append c (l ∷ ls) ms h = refl

add_to_line-ne : (c : ℕ) (ls : List Text) → add_to_line c ls ≢ []
add_to_line-ne c [] = λ h. cc
add_to_line-ne c (l ∷ ls) = λ h. cc

split_lines-ne : (d : ℕ) (s : Text) → split_lines false (d ∷ s) ≢ []
split_lines-ne d s h = elim (Bool-cases (is_line_boundary d)) [
  | inl e ↦ cc (split_lines-boundary d s e)
  | inr e ↦ add_to_line-ne d (split_lines false s) (sym (split_lines-other false d s e) ∙ h)
]

-- The three ways in which a character is read: a newline behind a carriage return, the end of a line, or a
-- character of a line.
split_lines-cases :
    (f : Bool) (c : ℕ)
    → ((s : Text) → split_lines f (c ∷ s) ≡ split_lines false s)
      ⊎ (((s : Text) → split_lines f (c ∷ s) ≡ [] ∷ split_lines (c == 13) s)
          ⊎ ((is_line_boundary c ≡ false)
              × ((s : Text) → split_lines f (c ∷ s) ≡ add_to_line c (split_lines false s))))
unfolding split_lines
split_lines-cases f c = elim (Bool-cases (f && c == 10)) [
  | inl e ↦ inl (λ s. rw e refl)
  | inr e ↦ elim (Bool-cases (is_line_boundary c)) [
    | inl b ↦ inr (inl (λ s. rw (e, b) refl))
    | inr b ↦ inr (inr (b, λ s. rw (e, b) refl))
  ]
]

split_lines_empty : (f : Bool) → split_lines f [] ≡ []
unfolding split_lines
split_lines_empty f = refl

newline_alone : split_lines false (10 ∷ []) ≡ [] ∷ []
unfolding split_lines is_line_boundary
newline_alone = refl

-- Behind a character of a line there are lines, if the text ends one.
inner :
    (d : ℕ) (s : Text) → is_line_boundary d ≡ false → EndsLines (d ∷ s) → split_lines false s ≢ []
inner d [] b e = cc
inner d (k ∷ s) b e = split_lines-ne k s

EndsLines-tail : (c : ℕ) (s : Text) → EndsLines (c ∷ s) → EndsLines s
EndsLines-tail c [] h = tt
EndsLines-tail c (d ∷ s) h = h

-- The text is one line, whatever comes before it.
abbrev IsOneLine : Text → Text → Type 0
IsOneLine u l = (f : Bool) → split_lines f u ≡ l ∷ []

split_lines-append :
    (f : Bool) (s u l : Text)
    → EndsLines s
    → IsOneLine u l
    → split_lines f (s ++ u) ≡ split_lines f s ++ l ∷ []
split_lines-append f [] u l e h = h f ∙ ap (λ ls. ls ++ l ∷ []) (sym (split_lines_empty f))
split_lines-append f (d ∷ s) u l e h =
    let ih = λ (g : Bool). split_lines-append g s u l (EndsLines-tail d s e) h in
    elim (split_lines-cases f d) [
      | inl x ↦ x (s ++ u) ∙ ih false ∙ ap (λ ls. ls ++ l ∷ []) (sym (x s))
      | inr y ↦ elim y [
        | inl x ↦
            x (s ++ u)
            ∙ ap (λ (ls : List Text). [] ∷ ls) (ih (d == 13))
            ∙ ap (λ ls. ls ++ l ∷ []) (sym (x s))
        | inr (b, x) ↦
            x (s ++ u)
            ∙ ap (add_to_line d) (ih false)
            ∙ add_to_line-append d (split_lines false s) (l ∷ []) (inner d s b e)
            ∙ ap (λ ls. ls ++ l ∷ []) (sym (x s))
      ]
    ]

-- A newline that ends a line adds no line.
split_lines-newline :
    (f : Bool) (c : ℕ) (t : Text)
    → InLine (c ∷ t)
    → split_lines f ((c ∷ t) ++ 10 ∷ []) ≡ (c ∷ t) ∷ []
split_lines-newline f c [] h =
    split_lines-other f c (10 ∷ []) h.0 ∙ ap (add_to_line c) newline_alone
split_lines-newline f c (d ∷ t) h =
    split_lines-other f c ((d ∷ t) ++ 10 ∷ []) h.0
    ∙ ap (add_to_line c) (split_lines-newline false d t h.1)

location_of-append :
    (ls : List Text) (l : Text)
    → location_of (ls ++ l ∷ []) ≡ record { line = suc (length ls); column = suc (length l) }
location_of-append [] l = refl
location_of-append (k ∷ []) l = refl
location_of-append (k ∷ m ∷ ls) l =
    ap (λ (x : SourceLocation). record { line = suc x.line; column = x.column })
      (location_of-append (m ∷ ls) l)

-- A position in a line, behind at least one of its characters: the line is one more than the lines before
-- it, and the column one more than the characters before it in the line, whatever comes behind the position.
pub get_location-EndsLines :
    (s : Text) (c : ℕ) (t rest : Text)
    → EndsLines s
    → InLine (c ∷ t)
    → get_location ((s ++ c ∷ t) ++ rest) (length (s ++ c ∷ t))
      ≡ record { line = suc (length (split_lines false s)); column = suc (length (c ∷ t)) }
unfolding get_location
get_location-EndsLines s c t rest e h =
    ap (λ b. location_of (split_lines false b)) (take-append (s ++ c ∷ t) rest)
    ∙ ap location_of
        (split_lines-append false s (c ∷ t) (c ∷ t) e (λ f. split_lines-InLine f c t h))
    ∙ location_of-append (split_lines false s) (c ∷ t)

-- The position just behind a newline that ends a line which is not empty: the line is that of the newline, one
-- more than the lines before it, and not the line which begins at the position; the column is one more than
-- the characters of the line before the newline. So it is whatever comes behind the position.
pub get_location-newline :
    (s : Text) (c : ℕ) (t rest : Text)
    → EndsLines s
    → InLine (c ∷ t)
    → get_location ((s ++ ((c ∷ t) ++ 10 ∷ [])) ++ rest) (length (s ++ ((c ∷ t) ++ 10 ∷ [])))
      ≡ record { line = suc (length (split_lines false s)); column = suc (length (c ∷ t)) }
unfolding get_location
get_location-newline s c t rest e h =
    ap (λ b. location_of (split_lines false b)) (take-append (s ++ ((c ∷ t) ++ 10 ∷ [])) rest)
    ∙ ap location_of (
        split_lines-append false s ((c ∷ t) ++ 10 ∷ []) (c ∷ t) e
          (λ f. split_lines-newline f c t h))
    ∙ location_of-append (split_lines false s) (c ∷ t)
