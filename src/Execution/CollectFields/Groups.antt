-- ===== src/Execution/CollectFields/Groups.antt =====
-- Grouped field sets.
use graphql_core.Prelude.{
  ◌<◌, ◌≡◌, refl, subst, ◌∙◌, false, Bool-cases, inl, inr, List, [], ◌∷◌, ◌++◌, All, length, arith,
}
use graphql_core.Errors.{Text}
use graphql_core.Text.{same_text, same_text-cases, same_text_comm, is_one_of}
use graphql_core.Dict.{adjust, keys}
use graphql_core.Execution.CollectFields.{FieldNode, FieldDetails, get_field_entry_key}

module _ {W : Type 0} (P : FieldNode → Type 0) where
  -- The fields of a group have its response name, and the property.
  abbrev pub InGroup : Text → FieldDetails W → Type 0
  InGroup key d = (get_field_entry_key d.node ≡ key) × P d.node

  -- Groups are not empty, and their response names are different.
  abbrev pub IsGrouped : List (Text × List (FieldDetails W)) → Type 0
  IsGrouped [] = Unit {0}
  IsGrouped ((key, ds) ∷ groups) =
      (0 < length ds)
      × (All (InGroup key) ds × ((is_one_of key (keys groups) ≡ false) × IsGrouped groups))

  keys-adjust :
      (key other : Text) (f : List (FieldDetails W) → List (FieldDetails W))
      (groups : List (Text × List (FieldDetails W)))
      → same_text other key ≡ false
      → is_one_of other (keys groups) ≡ false
      → is_one_of other (keys (adjust key [] f groups)) ≡ false
  unfolding adjust
  keys-adjust key other f [] n h = rw n refl
  keys-adjust key other f ((k, ds) ∷ groups) n h = elim (Bool-cases (same_text key k)) [
    | inl e ↦ rw e h
    | inr e ↦ rw e (ground (arith, keys-adjust key other f groups n))
  ]

  length-snoc : (d : FieldDetails W) (ds : List (FieldDetails W)) → 0 < length (ds ++ d ∷ [])
  length-snoc d [] = omega arith
  length-snoc d (e ∷ ds) = omega arith

  All-InGroup-snoc :
      (key : Text) (d : FieldDetails W) (ds : List (FieldDetails W))
      → All (InGroup key) ds
      → InGroup key d
      → All (InGroup key) (ds ++ d ∷ [])
  All-InGroup-snoc key d [] a p = (p, tt)
  All-InGroup-snoc key d (e ∷ ds) a p = (a.0, All-InGroup-snoc key d ds a.1 p)

  pub adjust-IsGrouped :
      (key : Text) (d : FieldDetails W) (groups : List (Text × List (FieldDetails W)))
      → InGroup key d
      → IsGrouped groups
      → IsGrouped (adjust key [] (λ ds. ds ++ d ∷ []) groups)
  unfolding adjust
  adjust-IsGrouped key d [] p g = (omega arith, ((p, tt), (refl, tt)))
  adjust-IsGrouped key d ((k, ds) ∷ groups) p g = elim (same_text-cases key k) [
    | inl (e, t) ↦ rw t (
      length-snoc d ds,
      (All-InGroup-snoc k d ds g.1.0 (subst (λ (n : Text). InGroup n d) e p), (g.1.1.0, g.1.1.1)),
    )
    | inr t ↦ rw t (
      g.0,
      (
        g.1.0,
        (
          keys-adjust key k (λ fs. fs ++ d ∷ []) groups (same_text_comm k key ∙ t) g.1.1.0,
          adjust-IsGrouped key d groups p g.1.1.1,
        ),
      ),
    )
  ]
