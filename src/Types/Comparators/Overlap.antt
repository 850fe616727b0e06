-- ===== src/Types/Comparators/Overlap.antt =====
-- Overlapping types.
use graphql_core.Prelude.{
  ◌≡◌, ◌↔◌, refl, sym, ◌∙◌, Bool, true, false, Bool-cases, or-left, or-right, Option, none, some,
  ◌⊎◌, inl, inr, List, [], ◌∷◌, ◌++◌, map, All, arith,
}
use graphql_core.Errors.{Text}
use graphql_core.Text.{same_text, same_text-cases, same_text_refl, is_one_of, is_one_of-append}
use graphql_core.Types.{Reference, is_abstract_kind}
use graphql_core.Types.Schema.{
  Schema, members_named, sub_type_set, get_implementations, get_possible_types, sub_type_names,
  is_sub_type,
}
use graphql_core.Types.Comparators.{any_sub_type, do_types_overlap}

abbrev pub names : List Reference → List Text
names ts = map (λ (t : Reference). t.name) ts

-- A type that is possible for some type has not the name of an interface that implements another.
abbrev pub PossibleApart : Schema → Type 0
PossibleApart s =
    (a b : Reference)
    → All
        (λ (t : Reference).
          is_one_of t.name (names (get_implementations s b.name).interfaces) ≡ false)
        (get_possible_types s a)

implies-eq : (x y : Bool) → (x ≡ true → y ≡ true) → (y ≡ true → x ≡ true) → x ≡ y
implies-eq true y f g = sym (f refl)
implies-eq false true f g = g refl
implies-eq false false f g = refl

-- The names of the possible types are sub types' names; the others are names of interfaces.
sub_type_names-cases :
    (s : Schema) (r : Reference)
    → (sub_type_names s r ≡ names (get_possible_types s r))
      ⊎ (sub_type_names s r
          ≡ names (get_possible_types s r) ++ names (get_implementations s r.name).interfaces)
unfolding sub_type_names sub_type_set get_possible_types
sub_type_names-cases s r = go (members_named s r.name) refl
  where
    go :
        (o : Option (List Reference))
        → members_named s r.name ≡ o
        → (sub_type_names s r ≡ names (get_possible_types s r))
          ⊎ (sub_type_names s r
              ≡ names (get_possible_types s r) ++ names (get_implementations s r.name).interfaces)
    go none e = inr (rw (e, sub_type_names) refl)
    go (some ts) e = inl (rw (e, sub_type_names) refl)

possible-is_sub_type :
    (s : Schema) (r : Reference) (n : Text)
    → is_one_of n (names (get_possible_types s r)) ≡ true
    → is_one_of n (sub_type_names s r) ≡ true
possible-is_sub_type s r n h = elim (sub_type_names-cases s r) [
  | inl e ↦ rw e h
  | inr e ↦ rw e (
      is_one_of-append n (names (get_possible_types s r))
        (names (get_implementations s r.name).interfaces)
      ∙ or-left _ _ h)
]

is_sub_type-possible :
    (s : Schema) (r : Reference) (n : Text)
    → is_one_of n (names (get_implementations s r.name).interfaces) ≡ false
    → is_one_of n (sub_type_names s r) ≡ true
    → is_one_of n (names (get_possible_types s r)) ≡ true
is_sub_type-possible s r n apart h = elim (sub_type_names-cases s r) [
  | inl e ↦ rw e at h
  | inr e ↦
      let x =
        is_one_of-append n (names (get_possible_types s r))
          (names (get_implementations s r.name).interfaces) in
      let y : is_one_of n
            (names (get_possible_types s r) ++ names (get_implementations s r.name).interfaces)
          ≡ true =
        rw e at h in
      ground (arith, x, y, apart)
]

-- Some possible type of a first is a sub type of a second.
first_common :
    (s : Schema) (b : Reference) (ts : List Reference)
    → any_sub_type s b ts ≡ true
    → All
        (λ (t : Reference).
          is_one_of t.name (names (get_implementations s b.name).interfaces) ≡ false)
        ts
    → (n : Text) × (is_one_of n (names ts) ≡ true)
      × (is_one_of n (names (get_possible_types s b)) ≡ true)
unfolding is_sub_type
first_common s b [] h a = cc
first_common s b (t ∷ ts) h a = elim (Bool-cases (is_one_of t.name (sub_type_names s b))) [
  | inl e ↦ (t.name, rw (same_text_refl t.name) refl, is_sub_type-possible s b t.name a.0 e)
  | inr e ↦
      let (n, x, y) = first_common s b ts (rw e at h) a.1 in
      (n, or-right (same_text n t.name) (is_one_of n (names ts)) x, y)
]

any_of_common :
    (s : Schema) (a : Reference) (ts : List Reference) (n : Text)
    → is_one_of n (names ts) ≡ true
    → is_one_of n (names (get_possible_types s a)) ≡ true
    → any_sub_type s a ts ≡ true
unfolding is_sub_type
any_of_common s a [] n x y = cc
any_of_common s a (t ∷ ts) n x y = elim (same_text-cases n t.name) [
  | inl (e, _) ↦ or-left _ _ (possible-is_sub_type s a t.name (rw (sym e) y))
  | inr f ↦ or-right _ _ (any_of_common s a ts n (rw f at x) y)
]

module _ (s : Schema) (apart : PossibleApart s) (is_same_named : Reference → Reference → Bool)
    (same_comm : (a b : Reference) → is_same_named a b ≡ is_same_named b a) where
  any_comm :
      (a b : Reference)
      → any_sub_type s b (get_possible_types s a) ≡ true
      → any_sub_type s a (get_possible_types s b) ≡ true
  any_comm a b h =
      let (n, x, y) = first_common s b (get_possible_types s a) h (apart a b) in
      any_of_common s a (get_possible_types s b) n y x

  overlap_one_way :
      (a b : Reference)
      → do_types_overlap is_same_named s a b ≡ true
      → do_types_overlap is_same_named s b a ≡ true
  unfolding do_types_overlap
  overlap_one_way a b h = ground (arith, same_comm a b, any_comm a b)

  -- Where being the same type is commutative, and no type that is possible for another has the name of an
  -- interface that implements another, do_types_overlap is commutative.
  pub do_types_overlap_comm :
      (a b : Reference)
      → do_types_overlap is_same_named s a b ≡ do_types_overlap is_same_named s b a
  do_types_overlap_comm a b = implies-eq _ _ (overlap_one_way a b) (overlap_one_way b a)

  -- Where no type that is possible for another has the name of an interface that implements another, two
  -- abstract types that are not the same overlap exactly if a type of one name is possible for both.
  pub do_types_overlap_iff :
      (a b : Reference)
      → is_same_named a b ≡ false
      → is_abstract_kind a.kind ≡ true
      → is_abstract_kind b.kind ≡ true
      → (do_types_overlap is_same_named s a b ≡ true) ↔ (
          (n : Text) × (is_one_of n (names (get_possible_types s a)) ≡ true)
          × (is_one_of n (names (get_possible_types s b)) ≡ true))
  unfolding do_types_overlap
  do_types_overlap_iff a b e p q =
      rw (e, p, q)
        (
          λ h. first_common s b (get_possible_types s a) h (apart a b),
          λ (n, x, y). any_of_common s b (get_possible_types s a) n x y,
        )
