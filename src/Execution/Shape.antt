-- ===== src/Execution/Shape.antt =====
-- The data that the type of a field and its selections allow.
use graphql_core.Prelude.{◌≡◌, true, false, none, some, inr, List, [], ◌∷◌}
use graphql_core.Errors.{Text}
use graphql_core.Types.{
  Reference, GraphqlType, named, list, non_null, is_abstract_kind, is_leaf_kind, is_object_kind,
  is_nullable_type,
}
use graphql_core.Types.Schema.{is_sub_type}
use graphql_core.Types.Fields.{get_field}
use graphql_core.Execution.{
  Value, is_null, null, leaf, items, dict, Values, nil, cons, Entries, end, entry,
}
use graphql_core.Execution.Host.{Host}

module _ (host : Host) where
  open host use {V, E, L, D}

  -- The object types that a value of a composite type may have.
  pub data IsRuntimeType (r : Reference) : Reference → Type 0 where
    itself : is_object_kind r.kind ≡ true → IsRuntimeType r r
    possible :
        {o : Reference}
        → is_abstract_kind r.kind ≡ true
        → is_object_kind o.kind ≡ true
        → is_sub_type host.schema r o ≡ true
        → IsRuntimeType r o

  mutual
    -- Null only where the type is nullable; serialized values for leaf types; lists of such data for list
    -- types; and for composite types the fields selected below, of an object type that is possible.
    pub data HasShape : GraphqlType → D → Value L → Type 0 where
      null_shape : {t : GraphqlType} {d : D} → is_nullable_type t ≡ true → HasShape t d null
      non_null_shape :
          {t : GraphqlType} {d : D} {v : Value L}
          → is_null v ≡ false
          → HasShape t d v
          → HasShape (non_null t) d v
      leaf_shape :
          {r : Reference} {d : D} (l : L)
          → is_leaf_kind r.kind ≡ true
          → HasShape (named r) d (leaf l)
      items_shape :
          {t : GraphqlType} {d : D} {vs : Values L}
          → HaveShape t d vs
          → HasShape (list t) d (items vs)
      dict_shape :
          {r : Reference} {d : D} {es : Entries L} (o : Reference) (groups : List (Text × D))
          → IsRuntimeType r o
          → host.collect_subfields o d ≡ inr groups
          → HasFields o groups es
          → HasShape (named r) d (dict es)

    pub data HaveShape : GraphqlType → D → Values L → Type 0 where
      nil_shape : {t : GraphqlType} {d : D} → HaveShape t d nil
      cons_shape :
          {t : GraphqlType} {d : D} {v : Value L} {vs : Values L}
          → HasShape t d v
          → HaveShape t d vs
          → HaveShape t d (cons v vs)

    -- One entry for each group whose field the object type has, under the response name of the group.
    pub data HasFields : Reference → List (Text × D) → Entries L → Type 0 where
      no_fields : {o : Reference} → HasFields o [] end
      unknown_field :
          {o : Reference} {n : Text} {d : D} {groups : List (Text × D)} {es : Entries L}
          → get_field host.schema host.query_type o (host.field_name d) ≡ none
          → HasFields o groups es
          → HasFields o ((n, d) ∷ groups) es
      known_field :
          {o : Reference} {n : Text} {d : D} {groups : List (Text × D)} {v : Value L}
          {es : Entries L} (t : GraphqlType)
          → get_field host.schema host.query_type o (host.field_name d) ≡ some t
          → HasShape t d v
          → HasFields o groups es
          → HasFields o ((n, d) ∷ groups) (entry n v es)
