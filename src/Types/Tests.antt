-- ===== src/Types/Tests.antt =====
-- The theorems about types at concrete schemas.
use graphql_core.Prelude.{
  some, ◌||◌, Bool-cases, All, ◌≡◌, ◌↔◌, refl, ap, Bool, true, false, ◌&&◌, arith, inl, inr, List,
  [], ◌∷◌, map,
}
use graphql_core.Errors.{Text}
use graphql_core.Text.{is_one_of, same_text_comm, codes, same_text, same_text→eq, same_text_refl}
use graphql_core.Dict.{adjust}
use graphql_core.Types.{
  is_input_type, is_output_type, is_leaf_type, get_named_type, Reference, GraphqlType, named, list,
  non_null, NamedType, reference, object_type, interface_type, union_type, scalar, object,
  interface, union, enum, input_object,
}
use graphql_core.Types.Schema.{
  is_sub_type_cached, sub_type_set, get_possible_types, Schema, duplicate_name, make_schema,
  add_types, add_type, has_key, store_implementations, store, get_implementations, is_sub_type,
  sub_type_names,
}
use graphql_core.Types.Schema.Names.{UniquelyNamed, make_schema-UniquelyNamed}
use graphql_core.Types.Schema.Implementations.{
  object_implementers, interface_implementers, get_implementations-make_schema,
}
use graphql_core.Types.Schema.SubTypes.{ask_all, ask_all_lem}
use graphql_core.Types.Comparators.{
  type_from_ast, do_types_overlap, is_equal_type, is_type_sub_type_of,
}
use graphql_core.Types.Comparators.Overlap.{
  PossibleApart, names, do_types_overlap_comm, do_types_overlap_iff,
}
use graphql_core.Ast.{TypeNode, list_of}
use graphql_core.Types.FromAst.{type_node, IsIn, type_from_ast_iff, is_input_type-is_output_type}
use graphql_core.Types.Comparators.Laws.{IsSubTypeOf, is_equal_type_iff, is_type_sub_type_of_iff}

abbrev node : Reference
node = record { kind = interface; name = codes "Node" }

abbrev user : Reference
user = record { kind = object; name = codes "User" }

abbrev any_node : Reference
any_node = record { kind = union; name = codes "Any" }

abbrev pub some_types : List NamedType
some_types =
    interface_type (codes "Node") [] []
    ∷ object_type (codes "User") (node ∷ []) []
    ∷ union_type (codes "Any") (user ∷ [])
    ∷ []

abbrev pub some_schema : Schema
some_schema = record {
  type_map =
      (codes "Node", interface_type (codes "Node") [] [])
      ∷ (codes "User", object_type (codes "User") (node ∷ []) [])
      ∷ (codes "Any", union_type (codes "Any") (user ∷ []))
      ∷ [];
  implementations_map = (codes "Node", record { objects = user ∷ []; interfaces = [] }) ∷ [];
}

make_some_schema : make_schema some_types ≡ inr some_schema
unfolding make_schema add_types add_type has_key store_implementations store adjust same_text
make_some_schema = refl

twice_the_same :
    make_schema (union_type (codes "Any") [] ∷ union_type (codes "Any") [] ∷ [])
    ≡ inl (duplicate_name (codes "Any"))
unfolding make_schema add_types add_type has_key store_implementations store adjust same_text
twice_the_same = refl

UniquelyNamed_example : ((s : Schema) × (make_schema some_types ≡ inr s)) ↔ UniquelyNamed some_types
UniquelyNamed_example = make_schema-UniquelyNamed some_types

get_implementations_example :
    ((get_implementations some_schema (codes "Node")).objects
      ≡ object_implementers (codes "Node") some_types)
    × ((get_implementations some_schema (codes "Node")).interfaces
        ≡ interface_implementers (codes "Node") some_types)
get_implementations_example =
    get_implementations-make_schema some_types some_schema (codes "Node") make_some_schema

abbrev node_type : NamedType
node_type = interface_type (codes "Node") [] []

abbrev any_type : NamedType
any_type = union_type (codes "Any") (user ∷ [])

abbrev questions : List (NamedType × Reference)
questions = (node_type, user) ∷ (any_type, user) ∷ (node_type, any_node) ∷ (any_type, user) ∷ []

ask_all_example :
    ask_all some_schema questions []
    ≡ map (λ (q : NamedType × Reference). is_sub_type some_schema (reference q.0) q.1) questions
unfolding same_text
ask_all_example = ask_all_lem some_schema questions (refl, (refl, (refl, (refl, tt))))

answers : ask_all some_schema questions [] ≡ true ∷ true ∷ false ∷ true ∷ []
unfolding ask_all is_sub_type_cached sub_type_set get_implementations adjust same_text
answers = refl

-- Another union with the name of the schema's own sees the set that was stored for the one asked first.
abbrev other_any_type : NamedType
other_any_type = union_type (codes "Any") []

answers_by_name :
    ask_all some_schema ((any_type, user) ∷ (other_any_type, user) ∷ []) [] ≡ true ∷ true ∷ []
unfolding ask_all is_sub_type_cached sub_type_set get_implementations adjust same_text
answers_by_name = refl

answers_other_first :
    ask_all some_schema ((other_any_type, user) ∷ (any_type, user) ∷ []) [] ≡ false ∷ false ∷ []
unfolding ask_all is_sub_type_cached sub_type_set get_implementations adjust same_text
answers_other_first = refl

abbrev same_kind : Reference → Reference → Bool
same_kind a b = elim a.kind [
  | interface ↦ elim b.kind [ interface ↦ true | _ ↦ false ]
  | object ↦ elim b.kind [ object ↦ true | _ ↦ false ]
  | union ↦ elim b.kind [ union ↦ true | _ ↦ false ]
  | scalar ↦ elim b.kind [ scalar ↦ true | _ ↦ false ]
  | enum ↦ elim b.kind [ enum ↦ true | _ ↦ false ]
  | input_object ↦ elim b.kind [ input_object ↦ true | _ ↦ false ]
]

-- Objects of named types are the same by class and name; a wrapping type is never the same object.
abbrev is_object_same : GraphqlType → GraphqlType → Bool
is_object_same (named a) (named b) = same_kind a b && same_text a.name b.name
is_object_same _ _ = false

is_object_same_sound : (a b : GraphqlType) → is_object_same a b ≡ true → a ≡ b
is_object_same_sound (named a) (named b) h = ap named (ground (arith, same_text→eq a.name b.name))
is_object_same_sound (named a) (list b) h = cc
is_object_same_sound (named a) (non_null b) h = cc
is_object_same_sound (list a) _ h = cc
is_object_same_sound (non_null a) _ h = cc

is_object_same_named : (r : Reference) → is_object_same (named r) (named r) ≡ true
is_object_same_named r = ground (arith, same_text_refl r.name)

abbrev users : GraphqlType
users = list (non_null (named user))

abbrev nodes : GraphqlType
nodes = list (named node)

is_equal_type_example : (is_equal_type is_object_same users nodes ≡ true) ↔ (users ≡ nodes)
is_equal_type_example =
    is_equal_type_iff is_object_same is_object_same_sound is_object_same_named users nodes

is_type_sub_type_of_example :
    (is_type_sub_type_of is_object_same some_schema users nodes ≡ true)
    ↔ IsSubTypeOf some_schema users nodes
is_type_sub_type_of_example =
    is_type_sub_type_of_iff is_object_same is_object_same_sound is_object_same_named some_schema
      users nodes

users_below_nodes : is_type_sub_type_of is_object_same some_schema users nodes ≡ true
unfolding is_type_sub_type_of is_sub_type sub_type_names get_implementations same_text
users_below_nodes = refl

no_interfaces : (n : Text) → (get_implementations some_schema n).interfaces ≡ []
unfolding get_implementations
no_interfaces n = elim (Bool-cases (same_text n (codes "Node"))) [
  | inl e ↦ rw e refl
  | inr e ↦ rw e refl
]

All-apart :
    (n : Text) (ts : List Reference)
    → All
        (λ (t : Reference).
          is_one_of t.name (names (get_implementations some_schema n).interfaces) ≡ false)
        ts
All-apart n [] = tt
All-apart n (t ∷ ts) = (rw (no_interfaces n) refl, All-apart n ts)

some_schema-PossibleApart : PossibleApart some_schema
some_schema-PossibleApart a b = All-apart b.name (get_possible_types some_schema a)

abbrev same_name : Reference → Reference → Bool
same_name a b = same_text a.name b.name

same_name_comm : (a b : Reference) → same_name a b ≡ same_name b a
same_name_comm a b = same_text_comm a.name b.name

do_types_overlap_comm_example :
    do_types_overlap same_name some_schema node user
    ≡ do_types_overlap same_name some_schema user node
do_types_overlap_comm_example =
    do_types_overlap_comm some_schema some_schema-PossibleApart same_name same_name_comm node user

different_names : same_name node any_node ≡ false
unfolding same_text
different_names = refl

do_types_overlap_iff_example : (do_types_overlap same_name some_schema node any_node ≡ true) ↔ (
    (n : Text) × (is_one_of n (names (get_possible_types some_schema node)) ≡ true)
    × (is_one_of n (names (get_possible_types some_schema any_node)) ≡ true))
do_types_overlap_iff_example =
    do_types_overlap_iff some_schema some_schema-PossibleApart same_name same_name_comm node
      any_node different_names refl refl

type_from_ast_example :
    (type_from_ast some_schema (list_of (TypeNode.named (codes "User"))) ≡ some (list (named user)))
    ↔ ((type_node (list (named user)) ≡ list_of (TypeNode.named (codes "User")))
        × IsIn some_schema (get_named_type (list (named user))))
type_from_ast_example =
    type_from_ast_iff some_types some_schema make_some_schema
      (list_of (TypeNode.named (codes "User"))) (list (named user))

users_type :
    type_from_ast some_schema (list_of (TypeNode.named (codes "User"))) ≡ some (list (named user))
unfolding type_from_ast same_text
users_type = refl

input_output_example :
    ((is_input_type users || is_output_type users) ≡ true)
    × ((is_input_type users && is_output_type users) ≡ is_leaf_type (named (get_named_type users)))
input_output_example = is_input_type-is_output_type users
