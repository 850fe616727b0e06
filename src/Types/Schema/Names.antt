-- ===== src/Types/Schema/Names.antt =====
-- The names of the types of a schema: which lists of types make one, and its type map.
use graphql_core.Prelude.{
  ◌≡◌, ◌≢◌, ◌↔◌, refl, sym, ap, subst, ◌∙◌, Bool, false, ◌||◌, Bool-cases, ◌⊎◌, inl, inr, List, [],
  ◌∷◌, ◌++◌, map, append-nil, append_assoc, arith, All,
}
use graphql_core.Errors.{Text}
use graphql_core.Text.{same_text, same_text_comm, is_one_of}
use graphql_core.Dict.{adjust, put}
use graphql_core.Types.{NamedType}
use graphql_core.Types.Schema.{
  TypeMap, Schema, SchemaError, missing_name, duplicate_name, store_implementations, name_of,
  is_empty, has_key, add_type, then_add, add_types, make_schema,
}

abbrev pub added : NamedType → Schema → Schema
added t s = record {
  type_map = put (name_of t) t s.type_map;
  implementations_map = store_implementations t s.implementations_map;
}

add_type-New :
    (t : NamedType) (s : Schema)
    → is_empty (name_of t) ≡ false
    → has_key (name_of t) s.type_map ≡ false
    → add_type t s ≡ inr (added t s)
unfolding add_type
add_type-New t s e k = rw (e, k) refl

pub inl-ne-inr {ℓ} :
    {A : Type ℓ} {e : SchemaError} {a : A} → ◌≢◌ {A = SchemaError ⊎ A} (inl e) (inr a)
inl-ne-inr h = cc

pub add_type-cases :
    (t : NamedType) (s : Schema)
    → ((e : SchemaError) × (add_type t s ≡ inl e))
      ⊎ ((is_empty (name_of t) ≡ false)
          × ((has_key (name_of t) s.type_map ≡ false) × (add_type t s ≡ inr (added t s))))
unfolding add_type
add_type-cases t s = elim (Bool-cases (is_empty (name_of t))) [
  | inl e ↦ inl (missing_name, rw e refl)
  | inr e ↦ elim (Bool-cases (has_key (name_of t) s.type_map)) [
    | inl k ↦ inl (duplicate_name (name_of t), rw (e, k) refl)
    | inr k ↦ inr (e, (k, rw (e, k) refl))
  ]
]

abbrev pub UniquelyNamed : List NamedType → Type 0
UniquelyNamed [] = Unit {0}
UniquelyNamed (t ∷ ts) =
    (is_empty (name_of t) ≡ false)
    × ((is_one_of (name_of t) (map name_of ts) ≡ false) × UniquelyNamed ts)

abbrev pub entries : List NamedType → TypeMap
entries [] = []
entries (t ∷ ts) = (name_of t, t) ∷ entries ts

abbrev New : TypeMap → NamedType → Type 0
New d t = has_key (name_of t) d ≡ false

has_key-cons :
    (n k : Text) (t : NamedType) (d : TypeMap)
    → has_key n ((k, t) ∷ d) ≡ (same_text n k || has_key n d)
unfolding has_key
has_key-cons n k t d = ground arith

has_key-nil : (n : Text) (b : Bool) → (b || has_key n []) ≡ (has_key n [] || b)
unfolding has_key
has_key-nil n b = ground arith

has_key-snoc :
    (n k : Text) (t : NamedType) (d : TypeMap)
    → has_key n (d ++ (k, t) ∷ []) ≡ (has_key n d || same_text n k)
has_key-snoc n k t [] = has_key-cons n k t [] ∙ has_key-nil n (same_text n k)
has_key-snoc n k t ((l, u) ∷ d) =
    ground
      (arith, has_key-cons n l u (d ++ (k, t) ∷ []), has_key-cons n l u d, has_key-snoc n k t d)

put-New : (t : NamedType) (d : TypeMap) → New d t → put (name_of t) t d ≡ d ++ (name_of t, t) ∷ []
unfolding adjust
put-New t [] h = refl
put-New t ((k, v) ∷ d) h = ground (arith, has_key-cons (name_of t) k v d, put-New t d)

-- What is new behind a new entry is new before it, and has another name.
New-snoc :
    (t u : NamedType) (d : TypeMap)
    → New (d ++ (name_of t, t) ∷ []) u
    → New d u × (same_text (name_of t) (name_of u) ≡ false)
New-snoc t u d h =
    ground (arith, has_key-snoc (name_of u) (name_of t) t d, same_text_comm (name_of t) (name_of u))

New-snoc_intro :
    (t u : NamedType) (d : TypeMap)
    → New d u
    → same_text (name_of t) (name_of u) ≡ false
    → New (d ++ (name_of t, t) ∷ []) u
New-snoc_intro t u d h n =
    ground (arith, has_key-snoc (name_of u) (name_of t) t d, same_text_comm (name_of t) (name_of u))

All-New-snoc :
    (t : NamedType) (d : TypeMap) (ts : List NamedType)
    → All (New (d ++ (name_of t, t) ∷ [])) ts
    → All (New d) ts × (is_one_of (name_of t) (map name_of ts) ≡ false)
All-New-snoc t d [] h = (tt, refl)
All-New-snoc t d (u ∷ ts) h =
    let (a, b) = New-snoc t u d h.0 in
    let (as', bs) = All-New-snoc t d ts h.1 in ((a, as'), rw b bs)

All-New-snoc_intro :
    (t : NamedType) (d : TypeMap) (ts : List NamedType)
    → All (New d) ts
    → is_one_of (name_of t) (map name_of ts) ≡ false
    → All (New (d ++ (name_of t, t) ∷ [])) ts
All-New-snoc_intro t d [] h n = tt
All-New-snoc_intro t d (u ∷ ts) h n = elim (Bool-cases (same_text (name_of t) (name_of u))) [
  | inl e ↦ cc (rw e at n)
  | inr e ↦ (New-snoc_intro t u d h.0 e, All-New-snoc_intro t d ts h.1 (rw e at n))
]

-- The types that can be added to a schema, and its type map then.
abbrev Addable : List NamedType → Schema → Type 0
Addable ts s = UniquelyNamed ts × All (New s.type_map) ts

add_types-Addable :
    (ts : List NamedType) (s s' : Schema)
    → add_types ts s ≡ inr s'
    → Addable ts s × (s'.type_map ≡ s.type_map ++ entries ts)
unfolding add_types
add_types-Addable [] s s' h =
    ((tt, tt), (let e : s.type_map ≡ s'.type_map = cc in sym e ∙ sym (append-nil _)))
add_types-Addable (t ∷ ts) s s' h = elim (add_type-cases t s) [
  | inl (e, r) ↦ absurd (inl-ne-inr (sym (ap (λ r. then_add r (add_types ts)) r) ∙ h))
  | inr (e, (k, r)) ↦
      let rest =
        add_types-Addable ts (added t s) s' (sym (ap (λ r. then_add r (add_types ts)) r) ∙ h) in
      let p = put-New t s.type_map k in
      let new = All-New-snoc t s.type_map ts (subst (λ d. All (New d) ts) p rest.0.1) in
      (
        ((e, (new.1, rest.0.0)), (k, new.0)),
        rest.1 ∙ ap (λ d. d ++ entries ts) p ∙ append_assoc s.type_map _ _,
      )
]

Addable-add_types :
    (ts : List NamedType) (s : Schema) → Addable ts s → (s' : Schema) × (add_types ts s ≡ inr s')
unfolding add_types
Addable-add_types [] s h = (s, refl)
Addable-add_types (t ∷ ts) s ((e, (n, u)), (k, new)) = elim (add_type-cases t s) [
  | inl (x, r) ↦ absurd (inl-ne-inr (sym r ∙ add_type-New t s e k))
  | inr (e', (k', r)) ↦
      let (s', h) = Addable-add_types ts (added t s) (
        u,
        subst (λ d. All (New d) ts) (sym (put-New t s.type_map k))
            (All-New-snoc_intro t s.type_map ts new n),
      ) in
      (s', ap (λ r. then_add r (add_types ts)) r ∙ h)
]

none_New : (ts : List NamedType) → All (New []) ts
unfolding has_key
none_New [] = tt
none_New (t ∷ ts) = (refl, none_New ts)

-- A schema can be made from exactly the lists of types whose names are non-empty and different from one
-- another.
pub make_schema-UniquelyNamed :
    (ts : List NamedType) → ((s : Schema) × (make_schema ts ≡ inr s)) ↔ UniquelyNamed ts
unfolding make_schema
make_schema-UniquelyNamed ts = (
  λ (s, h). (add_types-Addable ts (record { type_map = []; implementations_map = [] }) s h).0.0,
  λ u. Addable-add_types ts (record { type_map = []; implementations_map = [] }) (u, none_New ts),
)

-- The type map of a schema lists the types by their names, in the order in which they came.
pub type_map-make_schema :
    (ts : List NamedType) (s : Schema) → make_schema ts ≡ inr s → s.type_map ≡ entries ts
unfolding make_schema
type_map-make_schema ts s h =
    (add_types-Addable ts (record { type_map = []; implementations_map = [] }) s h).1
