-- ===== src/Execution/Positions.antt =====
-- The positions of the collected errors.
use graphql_core.Prelude.{
  ◌+◌, ◌≡◌, refl, sym, ap, ◌∙◌, true, false, Bool-cases, inl, inr, List, [], ◌∷◌, ◌++◌, arith, All,
  length, length-append,
}
use graphql_core.Text.{same_text_refl}
use graphql_core.Execution.{Key, field_key, index_key, FieldPath, Raised, same_key, same_path}
use graphql_core.Execution.CollectedErrors.{CollectedErrors, is_position, has_nulled_position, add}

-- A position is below another if it is the same or in the data there.
abbrev pub IsBelow : FieldPath → FieldPath → Type 0
IsBelow p q = (r : FieldPath) × (p ≡ r ++ q)

-- No error was added at or below the position of an earlier one.
abbrev pub NoneBelow : List FieldPath → Type 0
NoneBelow [] = Unit {0}
NoneBelow (q ∷ qs) = All (λ p. ¬ IsBelow p q) qs × NoneBelow qs

same_key_refl : (k : Key) → same_key k k ≡ true
same_key_refl (field_key n t) = rw (same_text_refl n) (same_text_refl t)
same_key_refl (index_key i) = ground arith

same_path_refl : (p : FieldPath) → same_path p p ≡ true
unfolding same_path
same_path_refl [] = refl
same_path_refl (k ∷ p) = rw (same_key_refl k) (same_path_refl p)

-- Each position is tested against the position itself and its ancestors.
has_nulled_position-IsBelow :
    (r q : FieldPath) (qs : List FieldPath)
    → is_position q qs ≡ true
    → has_nulled_position (r ++ q) qs ≡ true
unfolding has_nulled_position
has_nulled_position-IsBelow [] [] qs h = h
has_nulled_position-IsBelow [] (k ∷ q) qs h = rw h refl
has_nulled_position-IsBelow (k ∷ r) q qs h = ground (arith, has_nulled_position-IsBelow r q qs h)

is_position-head : (q : FieldPath) (qs : List FieldPath) → is_position q (q ∷ qs) ≡ true
is_position-head q qs = rw (same_path_refl q) refl

has_nulled_position-tail :
    (p q : FieldPath) (qs : List FieldPath)
    → has_nulled_position p (q ∷ qs) ≡ false
    → has_nulled_position p qs ≡ false
unfolding has_nulled_position
has_nulled_position-tail [] q qs h = ground arith
has_nulled_position-tail (k ∷ p) q qs h = ground (arith, has_nulled_position-tail p q qs)

not-IsBelow :
    (p q : FieldPath) (qs : List FieldPath) → has_nulled_position p (q ∷ qs) ≡ false → ¬ IsBelow p q
not-IsBelow p q qs h (r, e) =
    let t : has_nulled_position p (q ∷ qs) ≡ true =
      rw e (has_nulled_position-IsBelow r q (q ∷ qs) (is_position-head q qs)) in
    cc

All-snoc :
    (P : FieldPath → Type 0) (qs : List FieldPath) (p : FieldPath)
    → All P qs
    → P p
    → All P (qs ++ p ∷ [])
All-snoc P [] p h hp = (hp, tt)
All-snoc P (q ∷ qs) p h hp = (h.0, All-snoc P qs p h.1 hp)

NoneBelow-snoc :
    (qs : List FieldPath) (p : FieldPath)
    → NoneBelow qs
    → has_nulled_position p qs ≡ false
    → NoneBelow (qs ++ p ∷ [])
NoneBelow-snoc [] p h n = (tt, tt)
NoneBelow-snoc (q ∷ qs) p h n = (
  All-snoc (λ s. ¬ IsBelow s q) qs p h.0 (not-IsBelow p q qs n),
  NoneBelow-snoc qs p h.1 (has_nulled_position-tail p q qs n),
)

-- There is one position for each error, and none at or below an earlier one.
pub record IsConsistent {E : Type 0} (c : CollectedErrors E) : Type 0 where
  pub as_many : length c.error_positions ≡ length c.errors
  pub none_below : NoneBelow c.error_positions

pub add-IsConsistent :
    {E : Type 0} (e : Raised E) (p : FieldPath) (c : CollectedErrors E)
    → IsConsistent c
    → IsConsistent (add e p c)
unfolding add
add-IsConsistent e p c h = elim (Bool-cases (has_nulled_position p c.error_positions)) [
  | inl t ↦ rw t h
  | inr n ↦ rw n (record {
    as_many =
        length-append c.error_positions (p ∷ [])
        ∙ ap (λ k. k + 1) h.as_many
        ∙ sym (length-append c.errors (e ∷ []));
    none_below = NoneBelow-snoc c.error_positions p h.none_below n;
  })
]
