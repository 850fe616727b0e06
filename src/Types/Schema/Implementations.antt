-- ===== src/Types/Schema/Implementations.antt =====
-- The implementations map of a schema, against the declarations of its types.
use graphql_core.Prelude.{
  ℕ, zero, suc, ◌≡◌, refl, sym, ap, ◌∙◌, Bool-cases, inl, inr, List, [], ◌∷◌, ◌++◌, if◌then◌else◌,
  append-nil, append_assoc,
}
use graphql_core.Errors.{Text}
use graphql_core.Text.{same_text, same_text-cases}
use graphql_core.Dict.{get, adjust, or_else, get-adjust, get-adjust_other}
use graphql_core.Types.{
  Reference, NamedType, scalar_type, enum_type, object_type, interface_type, union_type,
  input_object_type, reference, is_interface_kind,
}
use graphql_core.Types.Schema.Names.{added, add_type-cases, inl-ne-inr}
use graphql_core.Types.Schema.{
  InterfaceImplementations, Implementations, Schema, no_implementations, add_object, add_interface,
  store, store_implementations, then_add, add_types, make_schema, get_implementations,
}

-- How often a type that lists these interfaces declares the interface of a name.
abbrev pub times_declared : Text → List Reference → ℕ
times_declared n [] = 0
times_declared n (i ∷ is) =
    if is_interface_kind i.kind
    then (if same_text n i.name then suc (times_declared n is) else times_declared n is)
    else times_declared n is

abbrev pub replicate {ℓ} : {A : Type ℓ} → ℕ → A → List A
replicate zero a = []
replicate (suc k) a = a ∷ replicate k a

-- The object types among the given ones that declare an interface, as often as they do.
abbrev pub object_implementers : Text → List NamedType → List Reference
object_implementers n [] = []
object_implementers n (object_type m is fs ∷ ts) =
    replicate (times_declared n is) (reference (object_type m is fs)) ++ object_implementers n ts
object_implementers n (_ ∷ ts) = object_implementers n ts

abbrev pub interface_implementers : Text → List NamedType → List Reference
interface_implementers n [] = []
interface_implementers n (interface_type m is fs ∷ ts) =
    replicate (times_declared n is) (reference (interface_type m is fs))
    ++ interface_implementers n ts
interface_implementers n (_ ∷ ts) = interface_implementers n ts

abbrev at_name : Text → Implementations → InterfaceImplementations
at_name n m = or_else (get n m) no_implementations

abbrev iterate {ℓ} : {A : Type ℓ} → ℕ → (A → A) → A → A
iterate zero f a = a
iterate (suc k) f a = iterate k f (f a)

at_name-adjust :
    (n key : Text) (f : InterfaceImplementations → InterfaceImplementations) (m : Implementations)
    → at_name n (adjust key no_implementations f m)
      ≡ (if same_text n key then f (at_name n m) else at_name n m)
at_name-adjust n key f m = elim (same_text-cases n key) [
  | inl (e, t) ↦
      rw t (rw e (ap (λ o. or_else o no_implementations) (get-adjust key no_implementations f m)))
  | inr t ↦
      rw t
        (ap (λ o. or_else o no_implementations) (get-adjust_other key n no_implementations f m t))
]

at_name-store :
    (n : Text) (add : InterfaceImplementations → InterfaceImplementations) (is : List Reference)
    (m : Implementations)
    → at_name n (store add is m) ≡ iterate (times_declared n is) add (at_name n m)
unfolding store
at_name-store n add [] m = refl
at_name-store n add (i ∷ is) m = elim (Bool-cases (is_interface_kind i.kind)) [
  | inl e ↦ rw e (
      at_name-store n add is (adjust i.name no_implementations add m)
      ∙ elim (Bool-cases (same_text n i.name)) [
        | inl t ↦
            rw t
              (ap (iterate (times_declared n is) add) (at_name-adjust n i.name add m ∙ rw t refl))
        | inr t ↦
            rw t
              (ap (iterate (times_declared n is) add) (at_name-adjust n i.name add m ∙ rw t refl))
      ])
  | inr e ↦ rw e (at_name-store n add is m)
]

iterate-add_object :
    (k : ℕ) (r : Reference) (i : InterfaceImplementations)
    → ((iterate k (add_object r) i).objects ≡ i.objects ++ replicate k r)
      × ((iterate k (add_object r) i).interfaces ≡ i.interfaces)
iterate-add_object zero r i = (sym (append-nil i.objects), refl)
iterate-add_object (suc k) r i =
    let rest = iterate-add_object k r (add_object r i) in
    (rest.0 ∙ append_assoc i.objects (r ∷ []) (replicate k r), rest.1)

iterate-add_interface :
    (k : ℕ) (r : Reference) (i : InterfaceImplementations)
    → ((iterate k (add_interface r) i).interfaces ≡ i.interfaces ++ replicate k r)
      × ((iterate k (add_interface r) i).objects ≡ i.objects)
iterate-add_interface zero r i = (sym (append-nil i.interfaces), refl)
iterate-add_interface (suc k) r i =
    let rest = iterate-add_interface k r (add_interface r i) in
    (rest.0 ∙ append_assoc i.interfaces (r ∷ []) (replicate k r), rest.1)

-- The map has grown by what these types declare.
abbrev Grown : Text → List NamedType → Implementations → Implementations → Type 0
Grown n ts m m' =
    ((at_name n m').objects ≡ (at_name n m).objects ++ object_implementers n ts)
    × ((at_name n m').interfaces ≡ (at_name n m).interfaces ++ interface_implementers n ts)

store_implementations-Grown :
    (n : Text) (t : NamedType) (m : Implementations)
    → Grown n (t ∷ []) m (store_implementations t m)
unfolding store_implementations
store_implementations-Grown n (object_type o is fs) m =
    let r = reference (object_type o is fs) in
    let e = at_name-store n (add_object r) is m in
    let it = iterate-add_object (times_declared n is) r (at_name n m) in
    (
      ap (λ (i : InterfaceImplementations). i.objects) e
          ∙ it.0
          ∙ ap (λ l. (at_name n m).objects ++ l) (sym (append-nil _)),
      ap (λ (i : InterfaceImplementations). i.interfaces) e ∙ it.1 ∙ sym (append-nil _),
    )
store_implementations-Grown n (interface_type o is fs) m =
    let r = reference (interface_type o is fs) in
    let e = at_name-store n (add_interface r) is m in
    let it = iterate-add_interface (times_declared n is) r (at_name n m) in
    (
      ap (λ (i : InterfaceImplementations). i.objects) e ∙ it.1 ∙ sym (append-nil _),
      ap (λ (i : InterfaceImplementations). i.interfaces) e
          ∙ it.0
          ∙ ap (λ l. (at_name n m).interfaces ++ l) (sym (append-nil _)),
    )
store_implementations-Grown n (scalar_type o) m = (sym (append-nil _), sym (append-nil _))
store_implementations-Grown n (enum_type o) m = (sym (append-nil _), sym (append-nil _))
store_implementations-Grown n (union_type o us) m = (sym (append-nil _), sym (append-nil _))
store_implementations-Grown n (input_object_type o fs) m = (sym (append-nil _), sym (append-nil _))

object_implementers-cons :
    (n : Text) (t : NamedType) (ts : List NamedType)
    → object_implementers n (t ∷ ts) ≡ object_implementers n (t ∷ []) ++ object_implementers n ts
object_implementers-cons n (object_type o is fs) ts =
    ap (λ l. l ++ object_implementers n ts) (sym (append-nil _))
object_implementers-cons n _ ts = refl

interface_implementers-cons :
    (n : Text) (t : NamedType) (ts : List NamedType)
    → interface_implementers n (t ∷ ts)
      ≡ interface_implementers n (t ∷ []) ++ interface_implementers n ts
interface_implementers-cons n (interface_type o is fs) ts =
    ap (λ l. l ++ interface_implementers n ts) (sym (append-nil _))
interface_implementers-cons n _ ts = refl

Grown-cons :
    (n : Text) (t : NamedType) (ts : List NamedType) (m m' m'' : Implementations)
    → Grown n (t ∷ []) m m'
    → Grown n ts m' m''
    → Grown n (t ∷ ts) m m''
Grown-cons n t ts m m' m'' g h = (
  h.0
      ∙ ap (λ l. l ++ object_implementers n ts) g.0
      ∙ append_assoc (at_name n m).objects _ _
      ∙ ap (λ l. (at_name n m).objects ++ l) (sym (object_implementers-cons n t ts)),
  h.1
      ∙ ap (λ l. l ++ interface_implementers n ts) g.1
      ∙ append_assoc (at_name n m).interfaces _ _
      ∙ ap (λ l. (at_name n m).interfaces ++ l) (sym (interface_implementers-cons n t ts)),
)

add_types-Grown :
    (n : Text) (ts : List NamedType) (s s' : Schema)
    → add_types ts s ≡ inr s'
    → Grown n ts s.implementations_map s'.implementations_map
unfolding add_types
add_types-Grown n [] s s' h =
    let e : s.implementations_map ≡ s'.implementations_map = cc in
    rw (sym e) (sym (append-nil _), sym (append-nil _))
add_types-Grown n (t ∷ ts) s s' h = elim (add_type-cases t s) [
  | inl (e, r) ↦ absurd (inl-ne-inr (sym (ap (λ r. then_add r (add_types ts)) r) ∙ h))
  | inr (e, (k, r)) ↦
      Grown-cons n t ts s.implementations_map (store_implementations t s.implementations_map)
        s'.implementations_map (store_implementations-Grown n t s.implementations_map)
        (add_types-Grown n ts (added t s) s' (sym (ap (λ r. then_add r (add_types ts)) r) ∙ h))
]

-- A schema that can be made knows, for each interface, the types that declare to implement it, in the
-- order in which the types came, each as often as it declares the interface; and knows no others.
pub get_implementations-make_schema :
    (ts : List NamedType) (s : Schema) (n : Text)
    → make_schema ts ≡ inr s
    → ((get_implementations s n).objects ≡ object_implementers n ts)
      × ((get_implementations s n).interfaces ≡ interface_implementers n ts)
unfolding make_schema get_implementations
get_implementations-make_schema ts s n h =
    add_types-Grown n ts (record { type_map = []; implementations_map = [] }) s h
