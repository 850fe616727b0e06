-- ===== src/Types/FromAst.antt =====
-- Types of the syntax tree against the types of a schema.
use graphql_core.Prelude.{
  ◌≡◌, ◌↔◌, refl, sym, ap, subst, ◌∙◌, true, ◌&&◌, ◌||◌, Bool-cases, Option, none, some, inl, inr,
  List, [], ◌∷◌,
}
use graphql_core.Errors.{Text}
use graphql_core.Text.{same_text, same_text→eq}
use graphql_core.Dict.{get}
use graphql_core.Ast.{TypeNode, list_of}
use graphql_core.Types.{
  Reference, GraphqlType, named, list, non_null, NamedType, reference, is_input_type,
  is_output_type, is_leaf_type, get_named_type, scalar, object, interface, union, enum,
  input_object, TypeKind,
}
use graphql_core.Types.Schema.{Schema, make_schema, get_type, name_of}
use graphql_core.Types.Schema.Names.{entries, type_map-make_schema}
use graphql_core.Types.Comparators.{type_from_ast}

-- How a type is written.
abbrev pub type_node : GraphqlType → TypeNode
type_node (named r) = TypeNode.named r.name
type_node (list t) = list_of (type_node t)
type_node (non_null t) = TypeNode.non_null (type_node t)

-- The schema has the type under its name.
abbrev pub IsIn : Schema → Reference → Type 0
IsIn s r = (u : NamedType) × (get_type s r.name ≡ some u) × (reference u ≡ r)

get-entries :
    (n : Text) (ts : List NamedType) (u : NamedType) → get n (entries ts) ≡ some u → name_of u ≡ n
get-entries n [] u h = cc
get-entries n (t ∷ ts) u h = elim (Bool-cases (same_text n (name_of t))) [
  | inl e ↦
      let same : t ≡ u = cc (rw e at h) in
      subst (λ (v : NamedType). name_of v ≡ n) same (sym (same_text→eq n (name_of t) e))
  | inr e ↦ get-entries n ts u (rw e at h)
]

module _ (ts : List NamedType) (s : Schema) (made : make_schema ts ≡ inr s) where
  get_type-name : (n : Text) (u : NamedType) → get_type s n ≡ some u → name_of u ≡ n
  get_type-name n u h = get-entries n ts u (ap (get n) (sym (type_map-make_schema ts s made)) ∙ h)

  abbrev Found : TypeNode → Option GraphqlType → Type 0
  Found node none = Unit {0}
  Found node (some t) = (type_node t ≡ node) × IsIn s (get_named_type t)

  found : (node : TypeNode) → Found node (type_from_ast s node)
  unfolding type_from_ast get_named_type
  found (TypeNode.named n) = go (get_type s n) refl
    where
      go :
          (o : Option NamedType)
          → get_type s n ≡ o
          → Found (TypeNode.named n) (elim o [ some t ↦ some (named (reference t)) | none ↦ none ])
      go none e = tt
      go (some u) e =
          let same : name_of u ≡ n = get_type-name n u e in
          (ap TypeNode.named same, (u, ap (get_type s) same ∙ e, refl))
  found (list_of node) = go (type_from_ast s node) (found node)
    where
      go :
          (o : Option GraphqlType)
          → Found node o
          → Found (list_of node) (elim o [ some inner ↦ some (list inner) | none ↦ none ])
      go none h = tt
      go (some t) h = (ap list_of h.0, h.1)
  found (TypeNode.non_null node) = go (type_from_ast s node) (found node)
    where
      go :
          (o : Option GraphqlType)
          → Found node o
          → Found
              (TypeNode.non_null node)
              (elim o [ some inner ↦ some (non_null inner) | none ↦ none ])
      go none h = tt
      go (some t) h = (ap TypeNode.non_null h.0, h.1)

  written : (t : GraphqlType) → IsIn s (get_named_type t) → type_from_ast s (type_node t) ≡ some t
  unfolding type_from_ast get_named_type
  written (named r) (u, e, same) =
      let e' : get_type s r.name ≡ some u = e in
      rw (e', type_from_ast) (ap (λ (x : Reference). some (named x)) same)
  written (list t) h = rw (written t h, type_from_ast) refl
  written (non_null t) h = rw (written t h, type_from_ast) refl

  -- In a schema that has been made, type_from_ast gives a type for a type node exactly if the node is how the
  -- type is written, and the schema has the named type inside it under its name.
  pub type_from_ast_iff :
      (node : TypeNode) (t : GraphqlType)
      → (type_from_ast s node ≡ some t) ↔ ((type_node t ≡ node) × IsIn s (get_named_type t))
  type_from_ast_iff node t = (
    λ h. subst (Found node) h (found node),
    λ (e, i). subst (λ (n : TypeNode). type_from_ast s n ≡ some t) e (written t i),
  )

-- Every type is an input or an output type, and it is both exactly if the named type inside its wrappers is
-- a leaf type.
pub is_input_type-is_output_type :
    (t : GraphqlType)
    → ((is_input_type t || is_output_type t) ≡ true)
      × ((is_input_type t && is_output_type t) ≡ is_leaf_type (named (get_named_type t)))
unfolding is_input_type is_output_type get_named_type
is_input_type-is_output_type (named r) = by_kind r.kind
  where
    by_kind :
        (k : TypeKind)
        → ((is_input_type (named (record r { kind = k }))
              || is_output_type (named (record r { kind = k })))
            ≡ true)
          × ((is_input_type (named (record r { kind = k }))
                && is_output_type (named (record r { kind = k })))
              ≡ is_leaf_type (named (record r { kind = k })))
    by_kind scalar = (refl, refl)
    by_kind object = (refl, refl)
    by_kind interface = (refl, refl)
    by_kind union = (refl, refl)
    by_kind enum = (refl, refl)
    by_kind input_object = (refl, refl)
is_input_type-is_output_type (list t) = is_input_type-is_output_type t
is_input_type-is_output_type (non_null t) = is_input_type-is_output_type t
