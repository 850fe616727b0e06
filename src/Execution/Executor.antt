-- ===== src/Execution/Executor.antt =====
-- Executing fields and completing values.
use graphql_core.Prelude.{
  ℕ, zero, suc, ◌+◌, Bool, true, false, not, ◌&&◌, Option, none, some, ◌⊎◌, List, [], ◌∷◌,
  if◌then◌else◌,
}
use graphql_core.Errors.{Text}
use graphql_core.Types.{
  TypeKind, scalar, object, interface, union, enum, input_object, Reference, GraphqlType, named,
  list, non_null, NamedType, reference, is_non_null_type, is_object_kind,
}
use graphql_core.Types.Schema.{get_type, is_sub_type}
use graphql_core.Types.Fields.{get_field}
use graphql_core.Execution.{
  FieldPath, field_key, index_key, ends_in_index, Raised, raised_by, null_for_non_nullable,
  not_iterable, null_leaf, unresolved_type, not_a_type_name, unknown_type, non_object_type,
  not_possible, wrong_object_type, unexpected_type, Value, is_null, null, leaf, items, dict, Values,
  nil, cons, Entries, end, entry,
}
use graphql_core.Execution.CollectedErrors.{add}
use graphql_core.Execution.Host.{
  Host, Look, is_exception, is_none, is_undefined, is_iterable, TypeName, no_name, not_a_name,
  type_name, done, raised, no_fuel, M, return, raise, ◌>>=◌, try_except, call,
}

-- An error that has a path keeps it.
abbrev pub located_error : {E : Type 0} → Raised E → FieldPath → Raised E
located_error e path = elim e.location [ none ↦ record e { location = some path } | some p ↦ e ]

module _ (host : Host) where
  open host use {V, E, L, D}

  abbrev pub Run : Type 0 → Type 0
  Run A = M E A

  -- The parent type and the field name of the resolve info.
  pub record ResolveInfo : Type 0 where
    pub parent_type : Reference
    pub field_name : Text

  unfoldable pub handle_field_error : {A : Type 0} → A → Raised E → GraphqlType → FieldPath → Run A
  handle_field_error after e t path c =
      if host.error_propagation && is_non_null_type t
      then (raised (located_error e path), c)
      else (done after, add (located_error e path) path c)

  abbrev pub require_leaf : Reference → Option L → Run (Value L)
  require_leaf r none = raise (null_leaf r)
  require_leaf r (some l) = return (leaf l)

  unfoldable pub complete_leaf_value : Reference → V → Run (Value L)
  complete_leaf_value r v = call (host.coerce_output_value r v) >>= require_leaf r

  unfoldable pub check_runtime_type : Reference → Text → Option NamedType → Run Reference
  check_runtime_type r n none = raise (unknown_type r n)
  check_runtime_type r n (some t) =
      if not (is_object_kind (reference t).kind)
      then raise (non_object_type r n)
      else if not (is_sub_type host.schema r (reference t))
      then raise (not_possible (reference t) r)
      else return (reference t)

  unfoldable pub ensure_valid_runtime_type : TypeName → Reference → Run Reference
  unfolding check_runtime_type
  ensure_valid_runtime_type no_name r = raise (unresolved_type r)
  ensure_valid_runtime_type not_a_name r = raise (not_a_type_name r)
  ensure_valid_runtime_type (type_name n) r = check_runtime_type r n (get_type host.schema n)

  abbrev pub require_type : Reference → Bool → Run (Unit {0})
  require_type o true = return tt
  require_type o false = raise (wrong_object_type o)

  abbrev pub run_is_type_of : Reference → V → Option (V → E ⊎ Bool) → Run (Unit {0})
  run_is_type_of o v none = return tt
  run_is_type_of o v (some test) = call (test v) >>= require_type o

  unfoldable pub check_is_type_of : Reference → V → Run (Unit {0})
  check_is_type_of o v = run_is_type_of o v (host.is_type_of o)

  abbrev pub GroupedFieldSet : Type 0
  GroupedFieldSet = List (Text × D)

  -- The items of a list, from an index on.
  unfoldable pub complete_items :
      (FieldPath → V → Run (Value L)) → GraphqlType → FieldPath → ℕ → List V → Run (Values L)
  complete_items complete item_type path i [] = return nil
  complete_items complete item_type path i (v ∷ vs) =
      try_except (complete (index_key i ∷ path) v)
        (λ e. handle_field_error null e item_type (index_key i ∷ path))
      >>= λ d. complete_items complete item_type path (i + 1) vs >>= λ ds. return (cons d ds)

  abbrev pub raise_if : Option E → Run (Unit {0})
  raise_if none = return tt
  raise_if (some e) = raise (raised_by e)

  unfoldable pub check_stream : D → FieldPath → Run (Unit {0})
  check_stream d path = if ends_in_index path then return tt else raise_if (host.stream_error d)

  unfoldable pub complete_iterable_value :
      (FieldPath → V → Run (Value L)) → GraphqlType → D → FieldPath → List V → Run (Value L)
  unfolding complete_items check_stream
  complete_iterable_value complete item_type d path vs = check_stream d path >>= λ _.
      complete_items complete item_type path 0 vs >>= λ ds. return (items ds)

  abbrev pub complete_looked :
      (FieldPath → V → Run (Value L))
      → GraphqlType
      → D
      → ResolveInfo
      → FieldPath
      → Look E V
      → Run (Value L)
  complete_looked complete item_type d info path (is_iterable vs) =
      complete_iterable_value complete item_type d path vs
  complete_looked complete item_type d info path _ =
      raise (not_iterable info.parent_type info.field_name)

  unfoldable pub complete_list_value :
      (FieldPath → V → Run (Value L))
      → GraphqlType
      → D
      → ResolveInfo
      → FieldPath
      → V
      → Run (Value L)
  unfolding complete_iterable_value
  complete_list_value complete item_type d info path v =
      complete_looked complete item_type d info path (host.look v)

  -- Raises an exception that a resolver has returned; otherwise whether the value is None or Undefined.
  abbrev pub check_look : Look E V → Run Bool
  check_look (is_exception e) = raise (raised_by e)
  check_look is_none = return true
  check_look is_undefined = return true
  check_look _ = return false

  unfoldable pub check_result : V → Run Bool
  check_result v = check_look (host.look v)

  -- `if completed is None`
  unfoldable pub require_value : ResolveInfo → Value L → Run (Value L)
  require_value info r =
      if is_null r then raise (null_for_non_nullable info.parent_type info.field_name) else return r

  abbrev pub set_result : Text → Option (Value L) → Entries L → Entries L
  set_result n none es = es
  set_result n (some v) es = entry n v es

  module _ (execute_subfields : Reference → V → FieldPath → GroupedFieldSet → Run (Entries L)) where
    unfoldable pub collect_and_execute_subfields : Reference → D → FieldPath → V → Run (Value L)
    collect_and_execute_subfields o d path v = call (host.collect_subfields o d) >>= λ groups.
        execute_subfields o v path groups >>= λ es. return (dict es)

    unfoldable pub complete_object_value : Reference → D → FieldPath → V → Run (Value L)
    unfolding check_is_type_of collect_and_execute_subfields
    complete_object_value o d path v =
        check_is_type_of o v >>= λ _. collect_and_execute_subfields o d path v

    unfoldable pub complete_abstract_value : Reference → D → FieldPath → V → Run (Value L)
    unfolding ensure_valid_runtime_type complete_object_value
    complete_abstract_value r d path v = call (host.resolve_type r v) >>= λ n.
        ensure_valid_runtime_type n r >>= λ o. complete_object_value o d path v

    abbrev pub complete_named : TypeKind → Reference → D → FieldPath → V → Run (Value L)
    complete_named scalar r d path v = complete_leaf_value r v
    complete_named enum r d path v = complete_leaf_value r v
    complete_named interface r d path v = complete_abstract_value r d path v
    complete_named union r d path v = complete_abstract_value r d path v
    complete_named object r d path v = complete_object_value r d path v
    complete_named input_object r d path v = raise (unexpected_type r)

    unfoldable pub complete_value : GraphqlType → D → ResolveInfo → FieldPath → V → Run (Value L)
    unfolding check_result require_value complete_list_value complete_leaf_value
        complete_abstract_value complete_object_value
    complete_value (non_null t) d info path v =
        check_result v >>= λ _. complete_value t d info path v >>= require_value info
    complete_value (list t) d info path v = check_result v >>= λ nothing.
        if nothing
        then return null
        else complete_list_value (complete_value t d info) t d info path v
    complete_value (named r) d info path v = check_result v >>= λ nothing.
        if nothing then return null else complete_named r.kind r d path v

    -- The part of execute_field behind the lookup of the field.
    unfoldable pub resolve_field : GraphqlType → Reference → V → D → FieldPath → Run (Value L)
    unfolding complete_value handle_field_error
    resolve_field t parent source d path =
        try_except
          (call (host.resolve parent d path source) >>= λ v.
            complete_value t d (record { parent_type = parent; field_name = host.field_name d })
              path v)
          (λ e. handle_field_error null e t path)

    abbrev pub resolve_known :
        Option GraphqlType → Reference → V → D → FieldPath → Run (Option (Value L))
    resolve_known none parent source d path = return none
    resolve_known (some t) parent source d path =
        resolve_field t parent source d path >>= λ r. return (some r)

    -- None stands for Undefined: there is no such field.
    unfoldable pub execute_field : Reference → V → D → FieldPath → Run (Option (Value L))
    unfolding resolve_field
    execute_field parent source d path =
        resolve_known (get_field host.schema host.query_type parent (host.field_name d)) parent
          source d path

    -- `results[response_name] = result`: the response names of a grouped field set are its keys.
    unfoldable pub execute_groups : Reference → V → FieldPath → GroupedFieldSet → Run (Entries L)
    unfolding execute_field
    execute_groups parent source path [] = return end
    execute_groups parent source path ((n, d) ∷ groups) =
        execute_field parent source d (field_key n parent.name ∷ path) >>= λ r.
        execute_groups parent source path groups >>= λ es. return (set_result n r es)

  abbrev pub out_of_fuel : {A : Type 0} → Run A
  out_of_fuel c = (no_fuel, c)

  -- The fuel bounds the depth of objects in objects.
  unfoldable pub execute_fields : ℕ → Reference → V → FieldPath → GroupedFieldSet → Run (Entries L)
  unfolding execute_groups
  execute_fields zero parent source path groups = out_of_fuel
  execute_fields (suc fuel) parent source path groups =
      execute_groups (execute_fields fuel) parent source path groups

  -- `results[response_name] = result` behind the results so far
  abbrev pub append_entries : Entries L → Entries L → Entries L
  append_entries end es = es
  append_entries (entry n v rest) es = entry n v (append_entries rest es)

  -- `async_reduce(reducer, grouped_field_set.items(), results)`
  unfoldable pub reduce_groups :
      (Reference → V → FieldPath → GroupedFieldSet → Run (Entries L))
      → Reference
      → V
      → FieldPath
      → GroupedFieldSet
      → Entries L
      → Run (Entries L)
  unfolding execute_field
  reduce_groups run parent source path [] results = return results
  reduce_groups run parent source path ((n, d) ∷ groups) results =
      execute_field run parent source d (field_key n parent.name ∷ path) >>= λ r.
      reduce_groups run parent source path groups (append_entries results (set_result n r end))

  unfoldable pub execute_fields_serially :
      ℕ → Reference → V → FieldPath → GroupedFieldSet → Run (Entries L)
  unfolding reduce_groups execute_fields
  execute_fields_serially zero parent source path groups = out_of_fuel
  execute_fields_serially (suc fuel) parent source path groups =
      reduce_groups (execute_fields fuel) parent source path groups end
