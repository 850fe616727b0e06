-- ===== src/Types/Comparators/Laws.antt =====
-- What comparing types decides.
use graphql_core.Prelude.{
  or-cases, or-right, ◌≡◌, ◌↔◌, refl, subst, ap, Bool, true, ◌||◌, inl, inr, arith,
}
use graphql_core.Types.{
  Reference, GraphqlType, named, list, non_null, is_abstract_kind, is_interface_kind,
  is_object_kind, is_nullable_type,
}
use graphql_core.Types.Schema.{Schema, is_sub_type}
use graphql_core.Types.Comparators.{is_equal_type, is_type_sub_type_of}

module _ (is_same : GraphqlType → GraphqlType → Bool)
    (same_eq : (a b : GraphqlType) → is_same a b ≡ true → a ≡ b)
    (named_same : (r : Reference) → is_same (named r) (named r) ≡ true) where
  equal_complete : (a : GraphqlType) → is_equal_type is_same a a ≡ true
  unfolding is_equal_type
  equal_complete (named r) = named_same r
  equal_complete (list a) = or-right (is_same (list a) (list a)) _ (equal_complete a)
  equal_complete (non_null a) = or-right (is_same (non_null a) (non_null a)) _ (equal_complete a)

  equal_sound : (a b : GraphqlType) → is_equal_type is_same a b ≡ true → a ≡ b
  unfolding is_equal_type
  equal_sound (list a) (list b) h = elim (or-cases (is_same (list a) (list b)) _ h) [
    | inl e ↦ same_eq _ _ e
    | inr e ↦ ap list (equal_sound a b e)
  ]
  equal_sound (non_null a) (non_null b) h =
      elim (or-cases (is_same (non_null a) (non_null b)) _ h) [
        | inl e ↦ same_eq _ _ e
        | inr e ↦ ap non_null (equal_sound a b e)
      ]
  equal_sound (named a) b h = same_eq _ _ h
  equal_sound (list a) (named b) h = same_eq _ _ h
  equal_sound (list a) (non_null b) h = same_eq _ _ h
  equal_sound (non_null a) (named b) h = same_eq _ _ h
  equal_sound (non_null a) (list b) h = same_eq _ _ h

  -- Where the same objects are equal types and a named type is one object, is_equal_type holds of exactly
  -- the types with the same wrappers around the same named type, whichever objects the wrappers are.
  pub is_equal_type_iff : (a b : GraphqlType) → (is_equal_type is_same a b ≡ true) ↔ (a ≡ b)
  is_equal_type_iff a b =
      (equal_sound a b, λ e. subst (λ c. is_equal_type is_same a c ≡ true) e (equal_complete a))

-- The covariance of types, as the specification has it.
pub data IsSubTypeOf (s : Schema) : GraphqlType → GraphqlType → Type 0 where
  same : (r : Reference) → IsSubTypeOf s (named r) (named r)
  possible :
      {a b : Reference}
      → is_abstract_kind b.kind ≡ true
      → (is_interface_kind a.kind || is_object_kind a.kind) ≡ true
      → is_sub_type s b a ≡ true
      → IsSubTypeOf s (named a) (named b)
  lists : {a b : GraphqlType} → IsSubTypeOf s a b → IsSubTypeOf s (list a) (list b)
  non_nulls : {a b : GraphqlType} → IsSubTypeOf s a b → IsSubTypeOf s (non_null a) (non_null b)
  stricter :
      {a b : GraphqlType}
      → is_nullable_type b ≡ true
      → IsSubTypeOf s a b
      → IsSubTypeOf s (non_null a) b

module _ (is_same : GraphqlType → GraphqlType → Bool)
    (same_eq : (a b : GraphqlType) → is_same a b ≡ true → a ≡ b)
    (named_same : (r : Reference) → is_same (named r) (named r) ≡ true) (s : Schema) where
  IsSubTypeOf_refl : (a : GraphqlType) → IsSubTypeOf s a a
  IsSubTypeOf_refl (named r) = same r
  IsSubTypeOf_refl (list a) = lists (IsSubTypeOf_refl a)
  IsSubTypeOf_refl (non_null a) = non_nulls (IsSubTypeOf_refl a)

  by_same : (a b : GraphqlType) → is_same a b ≡ true → IsSubTypeOf s a b
  by_same a b h = subst (IsSubTypeOf s a) (same_eq a b h) (IsSubTypeOf_refl a)

  sub_sound : (a b : GraphqlType) → is_type_sub_type_of is_same s a b ≡ true → IsSubTypeOf s a b
  unfolding is_type_sub_type_of
  sub_sound (non_null a) (non_null b) h = elim (or-cases (is_same (non_null a) (non_null b)) _ h) [
    | inl e ↦ by_same _ _ e
    | inr e ↦ non_nulls (sub_sound a b e)
  ]
  sub_sound (named a) (non_null b) h = by_same _ _ h
  sub_sound (list a) (non_null b) h = by_same _ _ h
  sub_sound (non_null a) (named b) h = elim (or-cases (is_same (non_null a) (named b)) _ h) [
    | inl e ↦ by_same _ _ e
    | inr e ↦ stricter refl (sub_sound a (named b) e)
  ]
  sub_sound (non_null a) (list b) h = elim (or-cases (is_same (non_null a) (list b)) _ h) [
    | inl e ↦ by_same _ _ e
    | inr e ↦ stricter refl (sub_sound a (list b) e)
  ]
  sub_sound (list a) (list b) h = elim (or-cases (is_same (list a) (list b)) _ h) [
    | inl e ↦ by_same _ _ e
    | inr e ↦ lists (sub_sound a b e)
  ]
  sub_sound (named a) (list b) h = by_same _ _ h
  sub_sound (list a) (named b) h = by_same _ _ h
  sub_sound (named a) (named b) h = elim (or-cases (is_same (named a) (named b)) _ h) [
    | inl e ↦ by_same _ _ e
    | inr e ↦ possible (ground arith) (ground arith) (ground arith)
  ]

  sub_complete : {a b : GraphqlType} → IsSubTypeOf s a b → is_type_sub_type_of is_same s a b ≡ true
  unfolding is_type_sub_type_of
  sub_complete (same r) = rw (named_same r) refl
  sub_complete (possible {a = a} {b = b} p q r) =
      or-right (is_same (named a) (named b)) _ (rw (p, q, r) refl)
  sub_complete (lists {a = a} {b = b} d) = or-right (is_same (list a) (list b)) _ (sub_complete d)
  sub_complete (non_nulls {a = a} {b = b} d) =
      or-right (is_same (non_null a) (non_null b)) _ (sub_complete d)
  sub_complete (stricter {a = a} {b = named b} n d) =
      or-right (is_same (non_null a) (named b)) _ (sub_complete d)
  sub_complete (stricter {a = a} {b = list b} n d) =
      or-right (is_same (non_null a) (list b)) _ (sub_complete d)
  sub_complete (stricter {a = a} {b = non_null b} n d) = cc

  -- Where the same objects are equal types and a named type is one object, is_type_sub_type_of decides
  -- the covariance of types: a named type is below itself and, if it is an interface or an object type,
  -- below the abstract types whose sub type the schema says it is; wrappers are covariant; and a non-null
  -- type is below what its nullable type is below.
  pub is_type_sub_type_of_iff :
      (a b : GraphqlType) → (is_type_sub_type_of is_same s a b ≡ true) ↔ IsSubTypeOf s a b
  is_type_sub_type_of_iff a b = (sub_sound a b, λ d. sub_complete d)
