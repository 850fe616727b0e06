-- ===== src/Types/Comparators.antt =====
-- Comparing types (src/graphql/utilities/type_comparators.py), and types of the syntax tree
-- (src/graphql/utilities/type_from_ast.py).
--
-- `a is b` compares objects. Two objects of a wrapping type may wrap the same type, so the comparison is a
-- parameter. Named types are the same object exactly when their references are equal.
pub mod Laws
pub mod Overlap
use graphql_core.Prelude.{
  Bool, true, false, ◌&&◌, ◌||◌, Option, none, some, List, [], ◌∷◌, if◌then◌else◌,
}
use graphql_core.Text.{same_text}
use graphql_core.Ast.{TypeNode}
use graphql_core.Types.{
  Reference, GraphqlType, named, list, non_null, NamedType, reference, is_abstract_kind,
  is_abstract_type, is_interface_type, is_object_type,
}
use graphql_core.Types.Schema.{Schema, get_type, get_possible_types, is_sub_type}

module _ (is_same : GraphqlType → GraphqlType → Bool) where
  unfoldable pub is_equal_type : GraphqlType → GraphqlType → Bool
  is_equal_type (non_null a) (non_null b) = is_same (non_null a) (non_null b) || is_equal_type a b
  is_equal_type (list a) (list b) = is_same (list a) (list b) || is_equal_type a b
  is_equal_type a b = is_same a b

  unfoldable pub is_type_sub_type_of : Schema → GraphqlType → GraphqlType → Bool
  is_type_sub_type_of s (non_null a) (non_null b) =
      is_same (non_null a) (non_null b) || is_type_sub_type_of s a b
  is_type_sub_type_of s (named a) (non_null b) = is_same (named a) (non_null b)
  is_type_sub_type_of s (list a) (non_null b) = is_same (list a) (non_null b)
  is_type_sub_type_of s (non_null a) (named b) =
      is_same (non_null a) (named b) || is_type_sub_type_of s a (named b)
  is_type_sub_type_of s (non_null a) (list b) =
      is_same (non_null a) (list b) || is_type_sub_type_of s a (list b)
  is_type_sub_type_of s (list a) (list b) = is_same (list a) (list b) || is_type_sub_type_of s a b
  is_type_sub_type_of s (named a) (list b) = is_same (named a) (list b)
  is_type_sub_type_of s (list a) (named b) = is_same (list a) (named b)
  is_type_sub_type_of s (named a) (named b) =
      is_same (named a) (named b)
      || (is_abstract_type (named b)
          && (is_interface_type (named a) || is_object_type (named a))
          && is_sub_type s b a)

-- `any(schema.is_sub_type(type_b, type_) for type_ in types)`
abbrev pub any_sub_type : Schema → Reference → List Reference → Bool
any_sub_type s b [] = false
any_sub_type s b (t ∷ ts) = is_sub_type s b t || any_sub_type s b ts

module _ (is_same_named : Reference → Reference → Bool) where
  -- Composite types are named.
  unfoldable pub do_types_overlap : Schema → Reference → Reference → Bool
  do_types_overlap s a b =
      if is_same_named a b
      then true
      else if is_abstract_kind a.kind
      then (if is_abstract_kind b.kind
          then any_sub_type s b (get_possible_types s a)
          else is_sub_type s a b)
      else (if is_abstract_kind b.kind then is_sub_type s b a else false)

-- The name of a type that the schema does not have gives None.
unfoldable pub type_from_ast : Schema → TypeNode → Option GraphqlType
type_from_ast s (TypeNode.named n) = elim (get_type s n) [
  | some t ↦ some (named (reference t))
  | none ↦ none
]
type_from_ast s (TypeNode.list_of t) = elim (type_from_ast s t) [
  | some inner ↦ some (list inner)
  | none ↦ none
]
type_from_ast s (TypeNode.non_null t) = elim (type_from_ast s t) [
  | some inner ↦ some (non_null inner)
  | none ↦ none
]
