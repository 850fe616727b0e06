-- ===== src/Types/Fields.antt =====
-- Looking up a field of a type (`GraphQLSchema.get_field` of src/graphql/type/schema.py).
use graphql_core.Prelude.{Bool, false, Option, none, some, List, [], ◌∷◌, if◌then◌else◌}
use graphql_core.Errors.{Text}
use graphql_core.Text.{codes, same_text}
use graphql_core.Types.{
  Reference, GraphqlType, named, non_null, Field, NamedType, object, scalar, object_type,
  interface_type,
}
use graphql_core.Types.Schema.{Schema, get_type}

-- The types of SchemaMetaFieldDef, TypeMetaFieldDef and TypeNameMetaFieldDef.
abbrev pub schema_meta_type : GraphqlType
schema_meta_type = non_null (named (record { kind = object; name = codes "__Schema" }))

abbrev pub type_meta_type : GraphqlType
type_meta_type = named (record { kind = object; name = codes "__Type" })

abbrev pub type_name_meta_type : GraphqlType
type_name_meta_type = non_null (named (record { kind = scalar; name = codes "String" }))

abbrev find_field : Text → List Field → Option GraphqlType
find_field n [] = none
find_field n (f ∷ fs) = if same_text n f.name then some f.type else find_field n fs

-- `parent_type.fields[field_name]`, None on an AttributeError or a KeyError
abbrev field_of : Text → Option NamedType → Option GraphqlType
field_of n (some (object_type m is fs)) = find_field n fs
field_of n (some (interface_type m is fs)) = find_field n fs
field_of n _ = none

abbrev is_query_type : Option Reference → Reference → Bool
is_query_type none r = false
is_query_type (some q) r = same_text q.name r.name

abbrev only_if : Bool → GraphqlType → Option GraphqlType
only_if b t = if b then some t else none

-- The type of the field that `get_field` gives. The query type is the schema's.
unfoldable pub get_field : Schema → Option Reference → Reference → Text → Option GraphqlType
get_field s query_type parent n =
    if same_text n (codes "__schema")
    then only_if (is_query_type query_type parent) schema_meta_type
    else if same_text n (codes "__type")
    then only_if (is_query_type query_type parent) type_meta_type
    else if same_text n (codes "__typename")
    then some type_name_meta_type
    else field_of n (get_type s parent.name)
