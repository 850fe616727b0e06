-- ===== src/Lexer/Names.antt =====
-- src/graphql/language/lexer.py: read_name, and read_next_token on a name.
use graphql_core.Prelude.{
  ℕ, zero, suc, ◌+◌, ◌-◌, ◌<◌, ◌≡◌, refl, ap, ◌∙◌, true, false, ◌||◌, none, some, [], ◌∷◌, ◌++◌,
  arith, length, take, take-append, All, ◌==◌,
}
use graphql_core.Errors.{Text, ok}
use graphql_core.Characters.{is_letter, is_digit, is_name_start, is_name_continue}
use graphql_core.TokenKind.{name}
use graphql_core.Lexer.Token.{Lines, create_token, leave, scan}
use graphql_core.Lexer.Scan.{scan-next, scan-leave}
use graphql_core.Lexer.Numbers.{head_is, name_round, read_name}
use graphql_core.Lexer.Next.{
  is_ignored, kind_for_punct, keep_lines, read_next_token, token_round, read_token_at,
}

abbrev pub AreNameContinue : Text → Type 0
AreNameContinue s = All (λ c. is_name_continue c ≡ true) s

scan-name :
    (position fuel : ℕ) (s rest : Text)
    → AreNameContinue s
    → head_is is_name_continue rest ≡ false
    → length (s ++ rest) < fuel
    → scan fuel name_round position (s ++ rest) tt ≡ ok (position + length s)
unfolding name_round
scan-name position zero s rest h q k = absurd (omega arith)
scan-name position (suc fuel) [] [] h q k =
    scan-leave name_round fuel position [] tt (ap (λ p. leave (ok p)) (omega arith))
scan-name position (suc fuel) [] (c ∷ rest) h q k =
    scan-leave name_round fuel position (c ∷ rest) tt (rw q (ap (λ p. leave (ok p)) (omega arith)))
scan-name position (suc fuel) (c ∷ s) rest h q k =
    scan-next name_round fuel position (c ∷ []) (s ++ rest) tt (rw h.0 refl)
    ∙ scan-name (position + 1) fuel s rest h.1 q (omega arith)
    ∙ ap ok (omega arith)

name_token :
    (lines : Lines) (start end c : ℕ) (s rest : Text)
    → end ≡ start + suc (length s)
    → create_token lines name start end (some (take (end - start) (c ∷ (s ++ rest))))
      ≡ create_token lines name start (start + suc (length s)) (some (c ∷ s))
name_token lines start end c s rest h =
    let n : end - start ≡ suc (length s) = omega arith in
    let cut : take (end - start) (c ∷ (s ++ rest)) ≡ c ∷ s =
      rw n (ap (λ t. c ∷ t) (take-append s rest)) in
    rw cut (ap (λ p. create_token lines name start p (some (c ∷ s))) h)

read_name-append :
    (lines : Lines) (start c : ℕ) (s rest : Text)
    → AreNameContinue s
    → head_is is_name_continue rest ≡ false
    → read_name lines start (c ∷ (s ++ rest))
      ≡ ok (create_token lines name start (start + suc (length s)) (some (c ∷ s)))
unfolding read_name
read_name-append lines start c s rest h q =
    let ends = scan-name (start + 1) (suc (length (s ++ rest))) s rest h q (omega arith) in
    rw ends (ap ok (name_token lines start (start + 1 + length s) c s rest (omega arith)))

kind_for_punct-name : (c : ℕ) → is_name_start c ≡ true → kind_for_punct c ≡ none
unfolding kind_for_punct is_name_start is_letter
kind_for_punct-name c h = ground arith

is_ignored-name : (c : ℕ) → is_name_start c ≡ true → is_ignored c ≡ false
unfolding is_ignored is_name_start is_letter
is_ignored-name c h = ground arith

other_tests :
    (c : ℕ)
    → is_name_start c ≡ true
    → (((c == 10) || (c == 13)) || ((c == 35) || (c == 34))) ≡ false
unfolding is_name_start is_letter
other_tests c h = ground arith

is_number-name : (c : ℕ) → is_name_start c ≡ true → (is_digit c || c == 45) ≡ false
unfolding is_name_start is_letter is_digit
is_number-name c h = ground arith

token_round-name :
    (lines : Lines) (start c : ℕ) (rest : Text)
    → is_name_start c ≡ true
    → token_round start (c ∷ rest) lines
      ≡ leave (keep_lines lines (read_name lines start (c ∷ rest)))
unfolding token_round read_token_at
token_round-name lines start c rest h =
    ground
      (arith, is_ignored-name c h, kind_for_punct-name c h, other_tests c h, is_number-name c h)

-- A name, of a character that can begin it and others that can go on, is read as one NAME token with
-- the whole name for its value, wherever it stands and whatever is behind it, unless that is one
-- more character of a name. The lexer's line count is as before.
pub read_next_token-name :
    (lines : Lines) (start c : ℕ) (s rest : Text)
    → is_name_start c ≡ true
    → AreNameContinue s
    → head_is is_name_continue rest ≡ false
    → read_next_token lines start ((c ∷ s) ++ rest)
      ≡ ok (create_token lines name start (start + length (c ∷ s)) (some (c ∷ s)), lines)
unfolding read_next_token
read_next_token-name lines start c s rest h k q =
    scan-leave token_round (suc (length (s ++ rest))) start (c ∷ (s ++ rest)) lines
      (token_round-name lines start c (s ++ rest) h)
    ∙ ap (keep_lines lines) (read_name-append lines start c s rest k q)
