-- ===== src/Lexer/Bounds.antt =====
-- src/graphql/language/lexer.py: the bounds of its readers, and those of read_name and read_comment.
pub mod Numbers
pub mod Strings
pub mod Next
use graphql_core.Prelude.{
  ℕ, zero, suc, ◌+◌, ◌-◌, ◌≤◌, ◌<◌, ◌≡◌, refl, Bool, true, false, Bool-cases, ◌⊎◌, inl, inr, some,
  Option, [], ◌∷◌, ◌++◌, arith, length, drop, length-drop, take, ◌==◌, ◌||◌, ◌&&◌, if◌then◌else◌,
}
use graphql_core.Errors.{
  Text, Result, ok, err, Ensures, returns, raises, raises_index, Ensures-if, Ensures-bind,
}
use graphql_core.Characters.{is_name_continue, is_unicode_scalar_value, is_supplementary_code_point}
use graphql_core.TokenKind.{TokenKind, is_eof, name, comment}
use graphql_core.Lexer.Token.{Token, Lines, create_token, Round, leave, next, scan, scan_all}
use graphql_core.Lexer.Scan.{Advances, leaves, goes_on, scan_all_sound}
use graphql_core.Lexer.Escapes.{next_two_are}
use graphql_core.Lexer.Numbers.{head_is, name_round, read_name, comment_round, read_comment}

-- The end of the body is `total`, and the text is what stands from the position on.
abbrev pub Within : ℕ → ℕ → ℕ → Text → Type 0
Within start total position text = (start ≤ position) × (position + length text ≡ total)

abbrev pub InBody : ℕ → ℕ → ℕ → Type 0
InBody start total position = (start ≤ position) × (position ≤ total)

pub Advances-if :
    {S A : Type 0} {P : ℕ → Text → S → Type 0} {Q : A → Type 0} {position : ℕ} {text : Text}
    (b : Bool) {x y : Round S A}
    → (b ≡ true → Advances P Q position text x)
    → (b ≡ false → Advances P Q position text y)
    → Advances P Q position text (if b then x else y)
Advances-if true hx hy = hx refl
Advances-if false hx hy = hy refl

-- A round over `n` characters that are there keeps the bounds.
pub advance_by :
    {S A : Type 0} {Q : A → Type 0} (start total position n : ℕ) (text : Text) (s : S)
    → Within start total position text
    → 0 < n
    → n ≤ length text
    → Advances (λ p t s'. Within start total p t) Q position text (next n s)
advance_by start total position n text s w h k =
    goes_on h k (omega arith, omega (arith, length-drop n text))

-- A line break is one character or two.
pub advance_newline :
    {S A : Type 0} {Q : A → Type 0} (start total position : ℕ) (text : Text) (f : ℕ → S)
    (two : Bool)
    → Within start total position text
    → 1 ≤ length text
    → (two ≡ true → 2 ≤ length text)
    → Advances
        (λ p t s'. Within start total p t)
        Q
        position
        text
        (next (if two then 2 else 1) (f (if two then 2 else 1)))
advance_newline start total position text f true w h k =
    advance_by start total position 2 text (f 2) w (omega arith) (k refl)
advance_newline start total position text f false w h k =
    advance_by start total position 1 text (f 1) w (omega arith) h

pub supplementary_length : (text : Text) → is_supplementary_code_point text ≡ true → 2 ≤ length text
unfolding is_supplementary_code_point
supplementary_length [] h = cc
supplementary_length (a ∷ []) h = cc
supplementary_length (a ∷ b ∷ rest) h = omega arith

name_round-Advances :
    (start total position : ℕ) (text : Text) (s : Unit {0})
    → Within start total position text
    → Advances
        (λ p t s'. Within start total p t)
        (InBody start total)
        position
        text
        (name_round position text s)
unfolding name_round
name_round-Advances start total position [] s w = leaves (returns (omega arith))
name_round-Advances start total position (c ∷ rest) s w =
    Advances-if (is_name_continue c)
      (λ e. advance_by start total position 1 (c ∷ rest) s w (omega arith) (omega arith))
      (λ e. leaves (returns (omega arith)))

comment_round-Advances :
    (start total position : ℕ) (text : Text) (s : Unit {0})
    → Within start total position text
    → Advances
        (λ p t s'. Within start total p t)
        (InBody start total)
        position
        text
        (comment_round position text s)
unfolding comment_round
comment_round-Advances start total position [] s w = leaves (returns (omega arith))
comment_round-Advances start total position (c ∷ rest) s w =
    Advances-if (c == 13 || c == 10) (λ e. leaves (returns (omega arith)))
      (λ e.
        Advances-if (is_unicode_scalar_value c)
          (λ e'. advance_by start total position 1 (c ∷ rest) s w (omega arith) (omega arith))
          (λ e'.
            Advances-if (is_supplementary_code_point (c ∷ rest))
              (λ h.
                advance_by start total position 2 (c ∷ rest) s w (omega arith)
                  (supplementary_length (c ∷ rest) h))
              (λ h. leaves (returns (omega arith)))))

-- The token begins at `start` and ends behind it in the body.
pub record Spans (start total : ℕ) (t : Token) : Type 0 where
  pub begins : t.start ≡ start
  pub grows : t.start < t.end
  pub fits : t.end ≤ total
  pub not_eof : is_eof t.kind ≡ false

pub Spans-create_token :
    (lines : Lines) (start total end : ℕ) (kind : TokenKind) (value : Option Text)
    → is_eof kind ≡ false
    → start < end
    → end ≤ total
    → Spans start total (create_token lines kind start end value)
unfolding create_token
Spans-create_token lines start total end kind value e h k = record {
  begins = refl;
  grows = h;
  fits = k;
  not_eof = e;
}

pub read_name-Spans :
    (lines : Lines) (start : ℕ) (c : ℕ) (rest : Text)
    → Ensures (Spans start (start + suc (length rest))) (read_name lines start (c ∷ rest))
unfolding read_name
read_name-Spans lines start c rest =
    Ensures-bind
      (scan_all_sound (λ p t s'. Within (start + 1) (start + suc (length rest)) p t)
        (InBody (start + 1) (start + suc (length rest))) name_round (name_round-Advances _ _)
        (start + 1) rest tt (omega arith))
      (λ p h. returns (Spans-create_token lines start _ p name _ refl (omega arith) (omega arith)))

pub read_comment-Spans :
    (lines : Lines) (start : ℕ) (rest : Text)
    → Ensures (Spans start (start + suc (length rest))) (read_comment lines start rest)
unfolding read_comment
read_comment-Spans lines start rest =
    Ensures-bind
      (scan_all_sound (λ p t s'. Within (start + 1) (start + suc (length rest)) p t)
        (InBody (start + 1) (start + suc (length rest))) comment_round (comment_round-Advances _ _)
        (start + 1) rest tt (omega arith))
      (λ p h.
        returns (Spans-create_token lines start _ p comment _ refl (omega arith) (omega arith)))

pub head_is-length :
    (test : ℕ → Bool) (n : ℕ) (text : Text) → head_is test (drop n text) ≡ true → n < length text
head_is-length test zero [] h = cc
head_is-length test zero (c ∷ text) h = omega arith
head_is-length test (suc n) [] h = cc
head_is-length test (suc n) (c ∷ text) h = omega (arith, head_is-length test n text h)

pub next_two_are-length : (a b : ℕ) (text : Text) → next_two_are a b text ≡ true → 2 ≤ length text
next_two_are-length a b [] h = cc
next_two_are-length a b (c ∷ []) h = cc
next_two_are-length a b (c ∷ d ∷ text) h = omega arith

pub and_right : (a b : Bool) → (a && b) ≡ true → b ≡ true
and_right true b h = h
and_right false b h = cc
