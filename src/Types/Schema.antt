-- ===== src/Types/Schema.antt =====
-- The maps of a GraphQLSchema (src/graphql/type/schema.py): types by name, and implementations by interface.
pub mod Names
pub mod Implementations
pub mod SubTypes
use graphql_core.Prelude.{
  Bool, true, false, Option, none, some, ◌⊎◌, inl, inr, List, [], ◌∷◌, ◌++◌, if◌then◌else◌, map,
}
use graphql_core.Errors.{Text}
use graphql_core.Text.{is_one_of}
use graphql_core.Dict.{get, adjust, put, or_else}
use graphql_core.Types.{
  Reference, NamedType, scalar_type, enum_type, object_type, interface_type, union_type,
  input_object_type, reference, is_interface_kind,
}

pub record InterfaceImplementations : Type 0 where
  pub objects : List Reference
  pub interfaces : List Reference

abbrev pub no_implementations : InterfaceImplementations
no_implementations = record { objects = []; interfaces = [] }

abbrev pub Implementations : Type 0
Implementations = List (Text × InterfaceImplementations)

abbrev pub TypeMap : Type 0
TypeMap = List (Text × NamedType)

pub record Schema : Type 0 where
  pub type_map : TypeMap
  pub implementations_map : Implementations

-- The TypeError that the constructor raises.
pub data SchemaError : Type 0 where
  missing_name : SchemaError
  duplicate_name : Text → SchemaError

abbrev pub add_object : Reference → InterfaceImplementations → InterfaceImplementations
add_object t i = record i { objects = i.objects ++ t ∷ [] }

abbrev pub add_interface : Reference → InterfaceImplementations → InterfaceImplementations
add_interface t i = record i { interfaces = i.interfaces ++ t ∷ [] }

-- `for iface in named_type.interfaces`
unfoldable pub store :
    (InterfaceImplementations → InterfaceImplementations)
    → List Reference
    → Implementations
    → Implementations
store add [] m = m
store add (i ∷ is) m =
    store add is (if is_interface_kind i.kind then adjust i.name no_implementations add m else m)

unfoldable pub store_implementations : NamedType → Implementations → Implementations
unfolding store
store_implementations (interface_type n is fs) m =
    store (add_interface (reference (interface_type n is fs))) is m
store_implementations (object_type n is fs) m =
    store (add_object (reference (object_type n is fs))) is m
store_implementations _ m = m

abbrev pub name_of : NamedType → Text
name_of t = (reference t).name

-- The checks on the name of a type. The names so far are the keys of the type map.
abbrev pub is_empty : Text → Bool
is_empty [] = true
is_empty (c ∷ t) = false

unfoldable pub has_key : Text → TypeMap → Bool
has_key n m = elim (get n m) [ none ↦ false | some t ↦ true ]

unfoldable pub add_type : NamedType → Schema → SchemaError ⊎ Schema
unfolding has_key store_implementations
add_type t s =
    if is_empty (name_of t)
    then inl missing_name
    else if has_key (name_of t) s.type_map
    then inl (duplicate_name (name_of t))
    else inr (record {
      type_map = put (name_of t) t s.type_map;
      implementations_map = store_implementations t s.implementations_map;
    })

abbrev pub then_add {ℓ} : {A : Type ℓ} → SchemaError ⊎ A → (A → SchemaError ⊎ A) → SchemaError ⊎ A
then_add (inl e) f = inl e
then_add (inr a) f = f a

-- `for named_type in all_referenced_types`
unfoldable pub add_types : List NamedType → Schema → SchemaError ⊎ Schema
unfolding add_type
add_types [] s = inr s
add_types (t ∷ ts) s = then_add (add_type t s) (add_types ts)

unfoldable pub make_schema : List NamedType → SchemaError ⊎ Schema
unfolding add_types
make_schema ts = add_types ts (record { type_map = []; implementations_map = [] })

abbrev pub get_type : Schema → Text → Option NamedType
get_type s n = get n s.type_map

unfoldable pub get_implementations : Schema → Text → InterfaceImplementations
get_implementations s n = or_else (get n s.implementations_map) no_implementations

-- `abstract_type.types if is_union_type(abstract_type)`: the members are read off the object.
abbrev pub members : NamedType → Option (List Reference)
members (union_type n ts) = some ts
members _ = none

-- The members of the type that a name, or a reference with the name, stands for: the schema's own object.
abbrev pub members_named : Schema → Text → Option (List Reference)
members_named s n = elim (get_type s n) [ none ↦ none | some t ↦ members t ]

unfoldable pub get_possible_types : Schema → Reference → List Reference
unfolding get_implementations
get_possible_types s r = or_else (members_named s r.name) (get_implementations s r.name).objects

-- The names that is_sub_type puts in its set, for an abstract type with this name and these members.
unfoldable pub sub_type_set : Schema → Text → Option (List Reference) → List Text
unfolding get_implementations
sub_type_set s name (some ts) = map (λ (t : Reference). t.name) ts
sub_type_set s name none =
    map (λ (t : Reference). t.name) (get_implementations s name).objects
    ++ map (λ (t : Reference). t.name) (get_implementations s name).interfaces

unfoldable pub sub_type_names : Schema → Reference → List Text
unfolding sub_type_set
sub_type_names s r = sub_type_set s r.name (members_named s r.name)

-- What `schema.is_sub_type` answers for the schema's own object, where the set of names is not in its cache.
unfoldable pub is_sub_type : Schema → Reference → Reference → Bool
unfolding sub_type_names
is_sub_type s a t = is_one_of t.name (sub_type_names s a)

-- `_sub_type_map`: the sets that earlier calls have computed, by the name of the abstract type.
abbrev pub SubTypeMap : Type 0
SubTypeMap = List (Text × List Text)

-- `is_sub_type` as the program runs it, with its cache, for any object.
unfoldable pub is_sub_type_cached : Schema → NamedType → Reference → SubTypeMap → Bool × SubTypeMap
unfolding sub_type_set
is_sub_type_cached s a t cache = elim (get (name_of a) cache) [
  | some names ↦ (is_one_of t.name names, cache)
  | none ↦
      let names : List Text = sub_type_set s (name_of a) (members a) in
      (is_one_of t.name names, put (name_of a) names cache)
]
