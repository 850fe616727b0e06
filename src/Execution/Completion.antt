-- ===== src/Execution/Completion.antt =====
-- Completed values and executed fields have the shape that the schema and the selections ask for.
use graphql_core.Prelude.{
  ℕ, ◌+◌, ◌≡◌, refl, Bool, true, false, Bool-cases, Option, none, some, inl, inr, ◌⊎◌, List, [],
  ◌∷◌,
}
use graphql_core.Errors.{Text}
use graphql_core.Types.{
  Reference, GraphqlType, named, list, non_null, NamedType, reference, is_abstract_kind,
  is_object_kind, is_leaf_kind,
}
use graphql_core.Types.Schema.{get_type, is_sub_type}
use graphql_core.Execution.{
  FieldPath, index_key, Raised, null_for_non_nullable, not_iterable, null_leaf, unresolved_type,
  not_a_type_name, unknown_type, non_object_type, not_possible, wrong_object_type, raised_by, Value,
  is_null, null, ends_in_index,
}
use graphql_core.Execution.Positions.{add-IsConsistent}
use graphql_core.Execution.Host.{
  Host, Look, is_exception, is_none, is_undefined, is_iterable, is_other, TypeName, no_name,
  not_a_name, type_name,
}
use graphql_core.Execution.Executor.{
  ResolveInfo, Run, handle_field_error, complete_leaf_value, check_runtime_type,
  ensure_valid_runtime_type, require_leaf, require_type, run_is_type_of, raise_if, complete_looked,
  check_look, complete_items, check_stream, complete_iterable_value, check_result, require_value,
}
use graphql_core.Execution.Shape.{
  IsRuntimeType, possible, HasShape, null_shape, non_null_shape, leaf_shape, items_shape, HaveShape,
  nil_shape, cons_shape,
}
use graphql_core.Execution.Runs.{
  IsSafe, finishes_done, finishes_raised, return-IsSafe, raise-IsSafe, call-IsSafe, bind-IsSafe,
  try_except-IsSafe,
}

module _ (host : Host) (propagates : Host.error_propagation host ≡ true) where
  open host use {V, E, L, D}

  abbrev pub Shape : GraphqlType → D → Value L → Type 0
  Shape = HasShape host

  -- An error is raised again if the type is non-null; otherwise null is of the type.
  pub handle_field_error-IsSafe :
      (e : Raised E) (t : GraphqlType) (d : D) (path : FieldPath)
      → IsSafe (Shape t d) (handle_field_error host null e t path)
  unfolding handle_field_error
  handle_field_error-IsSafe e (non_null t) d path = record {
    at = λ c h. rw propagates (record { finishes = finishes_raised _; consistent = h });
  }
  handle_field_error-IsSafe e (named r) d path = record {
    at = λ c h. rw propagates (record {
      finishes = finishes_done (null_shape refl);
      consistent = add-IsConsistent _ path c h;
    });
  }
  handle_field_error-IsSafe e (list t) d path = record {
    at = λ c h. rw propagates (record {
      finishes = finishes_done (null_shape refl);
      consistent = add-IsConsistent _ path c h;
    });
  }

  check_look-IsSafe : (l : Look E V) → IsSafe (λ (b : Bool). Unit {0}) (check_look host l)
  check_look-IsSafe (is_exception e) = raise-IsSafe (raised_by e)
  check_look-IsSafe is_none = return-IsSafe tt
  check_look-IsSafe is_undefined = return-IsSafe tt
  check_look-IsSafe (is_iterable vs) = return-IsSafe tt
  check_look-IsSafe is_other = return-IsSafe tt

  pub check_result-IsSafe : (v : V) → IsSafe (λ (b : Bool). Unit {0}) (check_result host v)
  unfolding check_result
  check_result-IsSafe v = check_look-IsSafe (host.look v)

  require_leaf-IsSafe :
      (r : Reference) (d : D)
      → is_leaf_kind r.kind ≡ true
      → (o : Option L) → IsSafe (Shape (named r) d) (require_leaf host r o)
  require_leaf-IsSafe r d k none = raise-IsSafe (null_leaf r)
  require_leaf-IsSafe r d k (some l) = return-IsSafe (leaf_shape l k)

  pub complete_leaf_value-IsSafe :
      (r : Reference) (d : D) (v : V)
      → is_leaf_kind r.kind ≡ true
      → IsSafe (Shape (named r) d) (complete_leaf_value host r v)
  unfolding complete_leaf_value
  complete_leaf_value-IsSafe r d v k =
      bind-IsSafe (λ _. Unit {0})
        (call-IsSafe (λ _. Unit {0}) (host.coerce_output_value r v) (λ _ _. tt))
        (λ o _. require_leaf-IsSafe r d k o)

  check_runtime_type-IsSafe :
      (r : Reference) (n : Text) (o : Option NamedType)
      → is_abstract_kind r.kind ≡ true
      → IsSafe (IsRuntimeType host r) (check_runtime_type host r n o)
  unfolding check_runtime_type
  check_runtime_type-IsSafe r n none k = raise-IsSafe (unknown_type r n)
  check_runtime_type-IsSafe r n (some t) k = elim (Bool-cases (is_object_kind (reference t).kind)) [
    | inr e ↦ rw e (raise-IsSafe (non_object_type r n))
    | inl e ↦ elim (Bool-cases (is_sub_type host.schema r (reference t))) [
      | inr s ↦ rw (e, s) (raise-IsSafe (not_possible (reference t) r))
      | inl s ↦ rw (e, s) (return-IsSafe (possible k e s))
    ]
  ]

  pub ensure_valid_runtime_type-IsSafe :
      (n : TypeName) (r : Reference)
      → is_abstract_kind r.kind ≡ true
      → IsSafe (IsRuntimeType host r) (ensure_valid_runtime_type host n r)
  unfolding ensure_valid_runtime_type
  ensure_valid_runtime_type-IsSafe no_name r k = raise-IsSafe (unresolved_type r)
  ensure_valid_runtime_type-IsSafe not_a_name r k = raise-IsSafe (not_a_type_name r)
  ensure_valid_runtime_type-IsSafe (type_name n) r k =
      check_runtime_type-IsSafe r n (get_type host.schema n) k

  require_type-IsSafe :
      (o : Reference) (b : Bool) → IsSafe (λ (u : Unit {0}). Unit {0}) (require_type host o b)
  require_type-IsSafe o true = return-IsSafe tt
  require_type-IsSafe o false = raise-IsSafe (wrong_object_type o)

  pub run_is_type_of-IsSafe :
      (o : Reference) (v : V) (test : Option (V → E ⊎ Bool))
      → IsSafe (λ (u : Unit {0}). Unit {0}) (run_is_type_of host o v test)
  run_is_type_of-IsSafe o v none = return-IsSafe tt
  run_is_type_of-IsSafe o v (some test) =
      bind-IsSafe (λ _. Unit {0}) (call-IsSafe (λ _. Unit {0}) (test v) (λ _ _. tt))
        (λ b _. require_type-IsSafe o b)

  complete_items-IsSafe :
      (complete : FieldPath → V → Run host (Value L)) (t : GraphqlType) (d : D)
      → ((path : FieldPath) (v : V) → IsSafe (Shape t d) (complete path v))
      → (path : FieldPath) (i : ℕ) (vs : List V)
      → IsSafe (HaveShape host t d) (complete_items host complete t path i vs)
  unfolding complete_items
  complete_items-IsSafe complete t d safe path i [] = return-IsSafe nil_shape
  complete_items-IsSafe complete t d safe path i (v ∷ vs) =
      bind-IsSafe (Shape t d)
        (try_except-IsSafe (safe (index_key i ∷ path) v)
          (λ e. handle_field_error-IsSafe e t d (index_key i ∷ path)))
        λ w p.
          bind-IsSafe (HaveShape host t d) (complete_items-IsSafe complete t d safe path (i + 1) vs)
            λ ws q. return-IsSafe (cons_shape p q)

  raise_if-IsSafe : (e : Option E) → IsSafe (λ (u : Unit {0}). Unit {0}) (raise_if host e)
  raise_if-IsSafe none = return-IsSafe tt
  raise_if-IsSafe (some e) = raise-IsSafe (raised_by e)

  check_stream-IsSafe :
      (d : D) (path : FieldPath) → IsSafe (λ (u : Unit {0}). Unit {0}) (check_stream host d path)
  unfolding check_stream
  check_stream-IsSafe d path = elim (Bool-cases (ends_in_index path)) [
    | inl e ↦ rw e (return-IsSafe tt)
    | inr e ↦ rw e (raise_if-IsSafe (host.stream_error d))
  ]

  pub complete_looked-IsSafe :
      (complete : FieldPath → V → Run host (Value L)) (t : GraphqlType) (d : D)
      → ((path : FieldPath) (v : V) → IsSafe (Shape t d) (complete path v))
      → (info : ResolveInfo host) (path : FieldPath) (l : Look E V)
      → IsSafe (Shape (list t) d) (complete_looked host complete t d info path l)
  unfolding complete_iterable_value
  complete_looked-IsSafe complete t d safe info path (is_iterable vs) =
      bind-IsSafe (λ _. Unit {0}) (check_stream-IsSafe d path)
        λ _ _.
          bind-IsSafe (HaveShape host t d) (complete_items-IsSafe complete t d safe path 0 vs)
            λ ws q. return-IsSafe (items_shape q)
  complete_looked-IsSafe complete t d safe info path _ =
      raise-IsSafe (not_iterable info.parent_type info.field_name)

  pub require_value-IsSafe :
      (info : ResolveInfo host) (t : GraphqlType) (d : D) (w : Value L)
      → Shape t d w
      → IsSafe (Shape (non_null t) d) (require_value host info w)
  unfolding require_value
  require_value-IsSafe info t d w p = elim (Bool-cases (is_null w)) [
    | inl e ↦ rw e (raise-IsSafe (null_for_non_nullable info.parent_type info.field_name))
    | inr e ↦ rw e (return-IsSafe (non_null_shape e p))
  ]
