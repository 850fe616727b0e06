-- ===== src/Types.antt =====
-- GraphQL types (src/graphql/type/definition.py): the classes, and what tells them apart.
--
-- A named type is an object of the program that others hold. Within a schema its class and its name tell
-- it from the others, and they stand for it, as a `Reference`.
pub mod Schema
pub mod Comparators
pub mod Fields
pub mod FromAst
pub mod Collected
mod Tests
use graphql_core.Prelude.{Bool, true, false, ◌||◌, List, Option, none, some}
use graphql_core.Errors.{Text}
use graphql_core.Text.{same_text}

-- The subclass of GraphQLNamedType.
pub data TypeKind : Type 0 where
  scalar object interface union enum input_object : TypeKind

pub record Reference : Type 0 where
  pub kind : TypeKind
  pub name : Text

pub data GraphqlType : Type 0 where
  named : Reference → GraphqlType
  list non_null : GraphqlType → GraphqlType

pub record Argument : Type 0 where
  pub name : Text
  pub type : GraphqlType

pub record Field : Type 0 where
  pub name : Text
  pub type : GraphqlType
  pub args : List Argument

pub data NamedType : Type 0 where
  scalar_type enum_type : Text → NamedType
  object_type interface_type : Text → List Reference → List Field → NamedType
  union_type : Text → List Reference → NamedType
  input_object_type : Text → List Argument → NamedType

abbrev pub reference : NamedType → Reference
reference (scalar_type n) = record { kind = scalar; name = n }
reference (enum_type n) = record { kind = enum; name = n }
reference (object_type n is fs) = record { kind = object; name = n }
reference (interface_type n is fs) = record { kind = interface; name = n }
reference (union_type n ts) = record { kind = union; name = n }
reference (input_object_type n fs) = record { kind = input_object; name = n }

abbrev pub is_abstract_kind : TypeKind → Bool
is_abstract_kind interface = true
is_abstract_kind union = true
is_abstract_kind _ = false

abbrev pub is_composite_kind : TypeKind → Bool
is_composite_kind object = true
is_composite_kind interface = true
is_composite_kind union = true
is_composite_kind _ = false

abbrev pub is_leaf_kind : TypeKind → Bool
is_leaf_kind scalar = true
is_leaf_kind enum = true
is_leaf_kind _ = false

abbrev pub is_object_kind : TypeKind → Bool
is_object_kind object = true
is_object_kind _ = false

abbrev pub is_interface_kind : TypeKind → Bool
is_interface_kind interface = true
is_interface_kind _ = false

abbrev pub is_union_kind : TypeKind → Bool
is_union_kind union = true
is_union_kind _ = false

-- An instance of one class of named types.
abbrev pub is_named_as : (TypeKind → Bool) → GraphqlType → Bool
is_named_as p (named r) = p r.kind
is_named_as p _ = false

abbrev pub is_list_type : GraphqlType → Bool
is_list_type (list t) = true
is_list_type _ = false

abbrev pub is_non_null_type : GraphqlType → Bool
is_non_null_type (non_null t) = true
is_non_null_type _ = false

abbrev pub is_abstract_type : GraphqlType → Bool
is_abstract_type = is_named_as is_abstract_kind

abbrev pub is_composite_type : GraphqlType → Bool
is_composite_type = is_named_as is_composite_kind

abbrev pub is_leaf_type : GraphqlType → Bool
is_leaf_type = is_named_as is_leaf_kind

abbrev pub is_object_type : GraphqlType → Bool
is_object_type = is_named_as is_object_kind

abbrev pub is_interface_type : GraphqlType → Bool
is_interface_type = is_named_as is_interface_kind

-- The constructor of GraphQLNonNull accepts nullable types only; other types never wrap one.
abbrev pub is_nullable_type : GraphqlType → Bool
is_nullable_type (non_null t) = false
is_nullable_type _ = true

unfoldable pub is_input_type : GraphqlType → Bool
is_input_type (named r) = elim r.kind [
  | scalar ↦ true
  | enum ↦ true
  | input_object ↦ true
  | _ ↦ false
]
is_input_type (list t) = is_input_type t
is_input_type (non_null t) = is_input_type t

unfoldable pub is_output_type : GraphqlType → Bool
is_output_type (named r) = elim r.kind [
  | scalar ↦ true
  | object ↦ true
  | interface ↦ true
  | union ↦ true
  | enum ↦ true
  | _ ↦ false
]
is_output_type (list t) = is_output_type t
is_output_type (non_null t) = is_output_type t

unfoldable pub get_nullable_type : GraphqlType → GraphqlType
get_nullable_type (non_null t) = t
get_nullable_type t = t

unfoldable pub get_named_type : GraphqlType → Reference
get_named_type (named r) = r
get_named_type (list t) = get_named_type t
get_named_type (non_null t) = get_named_type t
