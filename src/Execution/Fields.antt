-- ===== src/Execution/Fields.antt =====
-- Objects, fields and the values of every type have the shape that is asked for.
use graphql_core.Prelude.{
  ℕ, ◌<◌, ◌≤◌, ◌≡◌, refl, Bool, true, false, Option, none, some, inr, List, [], ◌∷◌, All, arith,
  if◌then◌else◌,
}
use graphql_core.Errors.{Text}
use graphql_core.Types.{
  TypeKind, scalar, object, interface, union, enum, input_object, Reference, GraphqlType, named,
  list, non_null, is_abstract_kind, is_nullable_type,
}
use graphql_core.Types.Fields.{get_field}
use graphql_core.Execution.{FieldPath, field_key, unexpected_type, Value, null, Entries}
use graphql_core.Execution.Host.{Host, return}
use graphql_core.Execution.Executor.{
  ResolveInfo, Run, GroupedFieldSet, check_is_type_of, resolve_known, set_result,
  complete_list_value, collect_and_execute_subfields, complete_object_value,
  complete_abstract_value, complete_named, complete_value, resolve_field, execute_field,
  execute_groups,
}
use graphql_core.Execution.Shape.{
  IsRuntimeType, itself, null_shape, dict_shape, HasFields, no_fields, unknown_field, known_field,
}
use graphql_core.Execution.Runs.{
  IsSafe, return-IsSafe, raise-IsSafe, call-IsSafe, bind-IsSafe, try_except-IsSafe,
}
use graphql_core.Execution.Completion.{
  Shape, complete_leaf_value-IsSafe, check_result-IsSafe, ensure_valid_runtime_type-IsSafe,
  run_is_type_of-IsSafe, complete_looked-IsSafe, require_value-IsSafe, handle_field_error-IsSafe,
}

module _ (host : Host) (propagates : Host.error_propagation host ≡ true) where
  open host use {V, E, L, D}

  module _ (depth : D → ℕ) (positive : (d : D) → 0 < depth d)
      (deeper : (o : Reference) (d : D) (groups : List (Text × D))
        → host.collect_subfields o d ≡ inr groups
        → All (λ (g : Text × D). depth g.1 < depth d) groups)
      (fuel : ℕ) (run : Reference → V → FieldPath → GroupedFieldSet host → Run host (Entries L))
      (run_safe : (o : Reference) (v : V) (path : FieldPath) (groups : List (Text × D))
        → 0 < fuel
        → All (λ (g : Text × D). depth g.1 < fuel) groups
        → IsSafe (HasFields host o groups) (run o v path groups)) where
    All-within :
        (n m : ℕ) (groups : List (Text × D))
        → n ≤ m
        → All (λ (g : Text × D). depth g.1 < n) groups
        → All (λ (g : Text × D). depth g.1 < m) groups
    All-within n m [] h a = tt
    All-within n m (g ∷ groups) h a = (omega (arith, a.0), All-within n m groups h a.1)

    complete_object_value-IsSafe :
        (r o : Reference) (d : D) (path : FieldPath) (v : V)
        → depth d ≤ fuel
        → IsRuntimeType host r o
        → IsSafe (Shape host propagates (named r) d) (complete_object_value host run o d path v)
    unfolding complete_object_value check_is_type_of collect_and_execute_subfields
    complete_object_value-IsSafe r o d path v h t =
        bind-IsSafe (λ _. Unit {0}) (run_is_type_of-IsSafe host propagates o v (host.is_type_of o))
          λ _ _.
            bind-IsSafe (λ groups. host.collect_subfields o d ≡ inr groups)
              (call-IsSafe _ (host.collect_subfields o d) (λ _ e. e))
              λ groups e.
                bind-IsSafe (HasFields host o groups)
                  (run_safe o v path groups (omega (arith, positive d))
                    (All-within (depth d) fuel groups h (deeper o d groups e)))
                  λ es p. return-IsSafe (dict_shape o groups t e p)

    complete_abstract_value-IsSafe :
        (r : Reference) (d : D) (path : FieldPath) (v : V)
        → depth d ≤ fuel
        → is_abstract_kind r.kind ≡ true
        → IsSafe (Shape host propagates (named r) d) (complete_abstract_value host run r d path v)
    unfolding complete_abstract_value
    complete_abstract_value-IsSafe r d path v h k =
        bind-IsSafe (λ _. Unit {0})
          (call-IsSafe (λ _. Unit {0}) (host.resolve_type r v) (λ _ _. tt))
          λ n _.
            bind-IsSafe (IsRuntimeType host r)
              (ensure_valid_runtime_type-IsSafe host propagates n r k)
              λ o t. complete_object_value-IsSafe r o d path v h t

    complete_named-IsSafe :
        (k : TypeKind) (r : Reference)
        → r.kind ≡ k
        → (d : D) (path : FieldPath) (v : V) → depth d ≤ fuel
        → IsSafe (Shape host propagates (named r) d) (complete_named host run k r d path v)
    complete_named-IsSafe scalar r e d path v h =
        complete_leaf_value-IsSafe host propagates r d v (rw e refl)
    complete_named-IsSafe enum r e d path v h =
        complete_leaf_value-IsSafe host propagates r d v (rw e refl)
    complete_named-IsSafe interface r e d path v h =
        complete_abstract_value-IsSafe r d path v h (rw e refl)
    complete_named-IsSafe union r e d path v h =
        complete_abstract_value-IsSafe r d path v h (rw e refl)
    complete_named-IsSafe object r e d path v h =
        complete_object_value-IsSafe r r d path v h (itself (rw e refl))
    complete_named-IsSafe input_object r e d path v h = raise-IsSafe (unexpected_type r)

    or_null :
        (t : GraphqlType) (d : D) (nothing : Bool) (m : Run host (Value L))
        → is_nullable_type t ≡ true
        → IsSafe (Shape host propagates t d) m
        → IsSafe (Shape host propagates t d) (if nothing then return null else m)
    or_null t d true m k safe = return-IsSafe (null_shape k)
    or_null t d false m k safe = safe

    complete_value-IsSafe :
        (t : GraphqlType) (d : D) (info : ResolveInfo host) (path : FieldPath) (v : V)
        → depth d ≤ fuel
        → IsSafe (Shape host propagates t d) (complete_value host run t d info path v)
    unfolding complete_value complete_list_value
    complete_value-IsSafe (non_null t) d info path v h =
        bind-IsSafe (λ _. Unit {0}) (check_result-IsSafe host propagates v)
          λ _ _.
            bind-IsSafe (Shape host propagates t d) (complete_value-IsSafe t d info path v h)
              λ w p. require_value-IsSafe host propagates info t d w p
    complete_value-IsSafe (list t) d info path v h =
        bind-IsSafe (λ _. Unit {0}) (check_result-IsSafe host propagates v)
          λ nothing _. or_null (list t) d nothing _ refl (
            complete_looked-IsSafe host propagates (complete_value host run t d info) t d
              (λ p w. complete_value-IsSafe t d info p w h) info path (host.look v))
    complete_value-IsSafe (named r) d info path v h =
        bind-IsSafe (λ _. Unit {0}) (check_result-IsSafe host propagates v)
          λ nothing _.
            or_null (named r) d nothing _ refl (complete_named-IsSafe r.kind r refl d path v h)

    -- Undefined for an unknown field, and otherwise data of the shape of the field's type.
    abbrev FieldShape : Reference → D → Option (Value L) → Type 0
    FieldShape o d none = get_field host.schema host.query_type o (host.field_name d) ≡ none
    FieldShape o d (some v) =
        (t : GraphqlType) × (get_field host.schema host.query_type o (host.field_name d) ≡ some t)
        × Shape host propagates t d v

    resolve_known-IsSafe :
        (k : Option GraphqlType) (o : Reference) (v : V) (d : D) (path : FieldPath)
        → depth d ≤ fuel
        → get_field host.schema host.query_type o (host.field_name d) ≡ k
        → IsSafe (FieldShape o d) (resolve_known host run k o v d path)
    unfolding resolve_field
    resolve_known-IsSafe none o v d path h e = return-IsSafe e
    resolve_known-IsSafe (some t) o v d path h e =
        bind-IsSafe (Shape host propagates t d)
          (try_except-IsSafe
            (bind-IsSafe (λ _. Unit {0})
              (call-IsSafe (λ _. Unit {0}) (host.resolve o d path v) (λ _ _. tt))
              λ w _. complete_value-IsSafe t d _ path w h)
            (λ x. handle_field_error-IsSafe host propagates x t d path))
          λ w p. return-IsSafe (t, e, p)

    set_result-HasFields :
        (o : Reference) (n : Text) (d : D) (groups : List (Text × D)) (r : Option (Value L))
        (es : Entries L)
        → FieldShape o d r
        → HasFields host o groups es
        → HasFields host o ((n, d) ∷ groups) (set_result host n r es)
    set_result-HasFields o n d groups none es e q = unknown_field e q
    set_result-HasFields o n d groups (some w) es (t, e, p) q = known_field t e p q

    pub execute_groups-IsSafe :
        (o : Reference) (v : V) (path : FieldPath) (groups : List (Text × D))
        → All (λ (g : Text × D). depth g.1 ≤ fuel) groups
        → IsSafe (HasFields host o groups) (execute_groups host run o v path groups)
    unfolding execute_groups execute_field
    execute_groups-IsSafe o v path [] h = return-IsSafe no_fields
    execute_groups-IsSafe o v path ((n, d) ∷ groups) h =
        bind-IsSafe (FieldShape o d)
          (resolve_known-IsSafe (get_field host.schema host.query_type o (host.field_name d)) o v d
            (field_key n o.name ∷ path) h.0 refl)
          λ r p.
            bind-IsSafe (HasFields host o groups) (execute_groups-IsSafe o v path groups h.1)
              λ es q. return-IsSafe (set_result-HasFields o n d groups r es p q)
