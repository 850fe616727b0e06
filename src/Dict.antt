-- ===== src/Dict.antt =====
-- Python dicts with string keys: association lists in the order of insertion.
use graphql_core.Prelude.{
  ◌≡◌, refl, ap, subst, false, Bool-cases, inl, inr, Option, none, some, List, [], ◌∷◌,
  if◌then◌else◌,
}
use graphql_core.Errors.{Text}
use graphql_core.Text.{same_text, same_text→eq, same_text_refl}

module _ {ℓ} {V : Type ℓ} where
  -- `d.get(key)`
  abbrev pub get : Text → List (Text × V) → Option V
  get key [] = none
  get key ((k, v) ∷ d) = if same_text key k then some v else get key d

  -- `d[key] = f(d[key])`, where a missing key has the value `default` before.
  unfoldable pub adjust : Text → V → (V → V) → List (Text × V) → List (Text × V)
  adjust key default f [] = (key, f default) ∷ []
  adjust key default f ((k, v) ∷ d) =
      let rest : List (Text × V) = adjust key default f d in
      if same_text key k then (k, f v) ∷ d else (k, v) ∷ rest

  -- `d[key] = value`
  abbrev pub put : Text → V → List (Text × V) → List (Text × V)
  put key value = adjust key value (λ _. value)

  abbrev pub keys : List (Text × V) → List Text
  keys [] = []
  keys ((k, v) ∷ d) = k ∷ keys d

  abbrev pub or_else : Option V → V → V
  or_else none default = default
  or_else (some v) default = v

  pub get-adjust :
      (key : Text) (default : V) (f : V → V) (d : List (Text × V))
      → get key (adjust key default f d) ≡ some (f (or_else (get key d) default))
  unfolding adjust
  get-adjust key default f [] = rw (same_text_refl key) refl
  get-adjust key default f ((k, v) ∷ d) = elim (Bool-cases (same_text key k)) [
    | inl e ↦ rw (e, e) refl
    | inr e ↦ rw (e, e) (get-adjust key default f d)
  ]

  skipped :
      (other k : Text)
      → same_text other k ≡ false
      → (v w : V) (d : List (Text × V)) → get other ((k, v) ∷ d) ≡ get other ((k, w) ∷ d)
  skipped other k h v w d = rw h refl

  pub get-adjust_other :
      (key other : Text) (default : V) (f : V → V) (d : List (Text × V))
      → same_text other key ≡ false
      → get other (adjust key default f d) ≡ get other d
  unfolding adjust
  get-adjust_other key other default f [] h = rw h refl
  get-adjust_other key other default f ((k, v) ∷ d) h = elim (Bool-cases (same_text key k)) [
    | inl e ↦ rw e (
        skipped other k (subst (λ t. same_text other t ≡ false) (same_text→eq key k e) h) (f v) v d)
    | inr e ↦ rw e (
        ap (λ r. if same_text other k then some v else r)
          (get-adjust_other key other default f d h))
  ]
