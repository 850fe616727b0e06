-- ===== src/Execution/Errors.antt =====
-- Where the errors of fields stop.
use graphql_core.Prelude.{◌≡◌, subst, false, ◌&&◌, Option, none, some}
use graphql_core.Types.{Reference, GraphqlType, is_non_null_type}
use graphql_core.Types.Fields.{get_field}
use graphql_core.Execution.{FieldPath, Raised, Value, null, Entries}
use graphql_core.Execution.CollectedErrors.{CollectedErrors}
use graphql_core.Execution.Host.{Host, Outcome, done, raised, no_fuel, M, return, ◌>>=◌, try_except}
use graphql_core.Execution.Executor.{
  Run, GroupedFieldSet, handle_field_error, resolve_field, resolve_known, execute_field,
}

-- What the computation gives is not an exception.
abbrev pub NotRaised : {E A : Type 0} → Outcome E A → Type 0
NotRaised (done a) = Unit {0}
NotRaised (raised e) = ⊥
NotRaised no_fuel = Unit {0}

module _ {E A : Type 0} where
  try_except-NotRaised :
      (m : M E A) (handle : Raised E → M E A)
      → ((e : Raised E) (c : CollectedErrors E) → NotRaised (handle e c).0)
      → (c : CollectedErrors E) → NotRaised (try_except m handle c).0
  unfolding try_except
  try_except-NotRaised m handle h c = go (m c)
    where
      go :
          (r : Outcome E A × CollectedErrors E)
          → NotRaised (try_except (λ (d : CollectedErrors E). r) handle c).0
      go (done a, d) = tt
      go (raised e, d) = h e d
      go (no_fuel, d) = tt

  map-NotRaised :
      {B : Type 0} (f : A → B) (m : M E A) (c : CollectedErrors E)
      → NotRaised (m c).0
      → NotRaised (◌>>=◌ m (λ a. return (f a)) c).0
  unfolding ◌>>=◌
  map-NotRaised {B} f m c h = go (m c) h
    where
      go :
          (r : Outcome E A × CollectedErrors E)
          → NotRaised r.0
          → NotRaised (◌>>=◌ {B = B} (λ (d : CollectedErrors E). r) (λ a. return (f a)) c).0
      go (done a, d) h = tt
      go (raised e, d) h = h
      go (no_fuel, d) h = tt

module _ (host : Host)
    (run : Reference
      → Host.V host
      → FieldPath
      → GroupedFieldSet host
      → Run host (Entries (Host.L host))) where
  open host use {V, E, L, D}

  handle_field_error-NotRaised :
      (t : GraphqlType) (path : FieldPath)
      → (host.error_propagation && is_non_null_type t) ≡ false
      → (e : Raised E) (c : CollectedErrors E)
      → NotRaised (handle_field_error host {A = Value L} null e t path c).0
  unfolding handle_field_error
  handle_field_error-NotRaised t path h e c = rw h tt

  resolve_known-NotRaised :
      (k : Option GraphqlType) (t : GraphqlType) (o : Reference) (v : V) (d : D) (path : FieldPath)
      (c : CollectedErrors E)
      → k ≡ some t
      → (host.error_propagation && is_non_null_type t) ≡ false
      → NotRaised (resolve_known host run k o v d path c).0
  unfolding resolve_field
  resolve_known-NotRaised none t o v d path c e h = cc
  resolve_known-NotRaised (some u) t o v d path c e h =
      let same : t ≡ u = cc in
      map-NotRaised some (resolve_field host run u o v d path) c (
        try_except-NotRaised _ _
          (handle_field_error-NotRaised u path
            (subst (λ w. (host.error_propagation && is_non_null_type w) ≡ false) same h))
          c)

  -- The error of a field stops at the field, unless errors propagate and its type is non-null: whatever
  -- the resolver, the completion of its value or the fields below raise, execute_field raises nothing.
  pub execute_field-NotRaised :
      (t : GraphqlType) (o : Reference) (v : V) (d : D) (path : FieldPath) (c : CollectedErrors E)
      → get_field host.schema host.query_type o (host.field_name d) ≡ some t
      → (host.error_propagation && is_non_null_type t) ≡ false
      → NotRaised (execute_field host run o v d path c).0
  unfolding execute_field
  execute_field-NotRaised t o v d path c k h =
      resolve_known-NotRaised (get_field host.schema host.query_type o (host.field_name d)) t o v d
        path c k h
