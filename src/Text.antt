-- ===== src/Text.antt =====
-- Python `str` values as lists of code points.
use Prim.Native.Char.{code}
use Prim.Native.String.{String}
use graphql_core.Prelude.{
  ℕ, ◌≡◌, refl, Bool, true, false, ◌&&◌, ◌||◌, ◌++◌, ◌⊎◌, inl, inr, Bool-cases, List, [], ◌∷◌,
  arith, ◌==◌,
}
use graphql_core.Errors.{Text}

abbrev pub codes : String → List ℕ
codes String.[] = []
codes (String.◌∷◌ c s) = code c ∷ codes s

-- `a == b`
unfoldable pub same_text : Text → Text → Bool
same_text [] [] = true
same_text (a ∷ s) (b ∷ t) = a == b && same_text s t
same_text _ _ = false

pub same_text→eq : (s t : Text) → same_text s t ≡ true → s ≡ t
unfolding same_text
same_text→eq [] [] h = refl
same_text→eq [] (b ∷ t) h = cc
same_text→eq (a ∷ s) [] h = cc
same_text→eq (a ∷ s) (b ∷ t) h = ground (arith, same_text→eq s t)

pub same_text_refl : (s : Text) → same_text s s ≡ true
unfolding same_text
same_text_refl [] = refl
same_text_refl (a ∷ s) = ground (arith, same_text_refl s)

-- `t in texts`
abbrev pub is_one_of : Text → List Text → Bool
is_one_of t [] = false
is_one_of t (u ∷ us) = same_text t u || is_one_of t us

pub same_text-cases : (s t : Text) → ((s ≡ t) × (same_text s t ≡ true)) ⊎ (same_text s t ≡ false)
same_text-cases s t = elim (Bool-cases (same_text s t)) [
  | inl e ↦ inl (same_text→eq s t e, e)
  | inr e ↦ inr e
]

pub is_one_of-append :
    (t : Text) (us vs : List Text) → is_one_of t (us ++ vs) ≡ (is_one_of t us || is_one_of t vs)
is_one_of-append t [] vs = refl
is_one_of-append t (u ∷ us) vs = let rest = is_one_of-append t us vs in ground (arith, rest)

pub same_text_comm : (s t : Text) → same_text s t ≡ same_text t s
unfolding same_text
same_text_comm [] [] = refl
same_text_comm [] (b ∷ t) = refl
same_text_comm (a ∷ s) [] = refl
same_text_comm (a ∷ s) (b ∷ t) = ground (arith, same_text_comm s t)
