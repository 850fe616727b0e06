-- ===== src/Lexer/Scan.antt =====
-- Rules for the loop of the lexer: one round, and an invariant with enough fuel.
use graphql_core.Prelude.{
  ℕ, zero, suc, ◌+◌, ◌≤◌, ◌<◌, ◌≡◌, refl, ◌++◌, arith, length, drop, drop-append, length-drop,
}
use graphql_core.Errors.{Text, Result, Ensures}
use graphql_core.Lexer.Token.{Round, leave, next, scan, scan_all}

module _ {S A : Type 0} (round : ℕ → Text → S → Round S A) where
  pub scan-next :
      (fuel position : ℕ) (read rest : Text) (s : S) {s' : S}
      → round position (read ++ rest) s ≡ next (length read) s'
      → scan (suc fuel) round position (read ++ rest) s
        ≡ scan fuel round (position + length read) rest s'
  unfolding scan
  scan-next fuel position read rest s e = rw (e, scan) (rw drop-append)

  pub scan-leave :
      (fuel position : ℕ) (text : Text) (s : S) {r : Result A}
      → round position text s ≡ leave r
      → scan (suc fuel) round position text s ≡ r
  unfolding scan
  scan-leave fuel position text s e = rw (e, scan)

-- A round leaves with a good result, or goes on by at least one character that is there and
-- keeps the invariant.
pub data Advances {S A : Type 0} (P : ℕ → Text → S → Type 0) (Q : A → Type 0) (position : ℕ)
    (text : Text) : Round S A → Type 0 where
  leaves : {r : Result A} → Ensures Q r → Advances P Q position text (leave r)
  goes_on :
      {n : ℕ} {s : S}
      → 0 < n
      → n ≤ length text
      → P (position + n) (drop n text) s
      → Advances P Q position text (next n s)

module _ {S A : Type 0} (P : ℕ → Text → S → Type 0) (Q : A → Type 0)
    (round : ℕ → Text → S → Round S A)
    (step : (position : ℕ) (text : Text) (s : S)
      → P position text s
      → Advances P Q position text (round position text s)) where
  after :
      (fuel position : ℕ) (text : Text) (s : S) (r : Round S A)
      → Advances P Q position text r
      → ((n : ℕ) (s' : S)
          → length (drop n text) < fuel
          → P (position + n) (drop n text) s'
          → Ensures Q (scan fuel round (position + n) (drop n text) s'))
      → length text < suc fuel
      → round position text s ≡ r
      → Ensures Q (scan (suc fuel) round position text s)
  unfolding scan
  after fuel position text s (leave r) (leaves h) rec lt e = rw (e, scan) h
  after fuel position text s (next n s') (goes_on h k p) rec lt e =
      rw (e, scan) (rec n s' (omega (arith, length-drop n text)) p)

  -- By the fuel.
  scan_bounded :
      (fuel position : ℕ) (text : Text) (s : S)
      → length text < fuel
      → P position text s
      → Ensures Q (scan fuel round position text s)
  scan_bounded zero position text s lt p = absurd (omega arith)
  scan_bounded (suc fuel) position text s lt p =
      after fuel position text s (round position text s) (step position text s p)
        (λ n s' l q. scan_bounded fuel (position + n) (drop n text) s' l q) lt refl

  pub scan_all_sound :
      (position : ℕ) (text : Text) (s : S)
      → P position text s
      → Ensures Q (scan_all round position text s)
  scan_all_sound position text s p =
      scan_bounded (suc (length text)) position text s (omega arith) p
