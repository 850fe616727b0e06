-- ===== src/Execution/Answers.antt =====
-- What executing fields and operations gives.
use graphql_core.Prelude.{
  ℕ, zero, suc, ◌<◌, ◌≤◌, ◌≡◌, ◌≢◌, refl, sym, subst, Bool, true, false, Bool-cases, Option, none,
  some, ◌⊎◌, inl, inr, List, [], ◌∷◌, ◌++◌, All, length, arith,
}
use graphql_core.Errors.{Text}
use graphql_core.Types.{Reference}
use graphql_core.Execution.{FieldPath, Raised, no_root_type, Entries}
use graphql_core.Execution.CollectedErrors.{CollectedErrors, has_nulled_position, add}
use graphql_core.Execution.Positions.{IsConsistent}
use graphql_core.Execution.Host.{Host, HasDepth, Outcome, M}
use graphql_core.Execution.Executor.{execute_fields}
use graphql_core.Execution.Operation.{
  ExecutionResult, build_response, execute_root_grouped_field_set, no_errors, execute_root, respond,
  execute_operation, or_none,
}
use graphql_core.Execution.Shape.{HasFields}
use graphql_core.Execution.Runs.{
  Finishes, finishes_done, finishes_raised, IsSafe, raise-IsSafe, call-IsSafe, bind-IsSafe,
  IsSafe-weaken,
}
use graphql_core.Execution.Fields.{execute_groups-IsSafe}
use graphql_core.Execution.Serial.{execute_fields_serially-eq}

module _ (host : Host) where
  open host use {V, E, L, D}

  -- The selections below each group are less deep than the fuel.
  abbrev pub Shallow : HasDepth host → ℕ → List (Text × D) → Type 0
  Shallow h fuel groups = All (λ (g : Text × D). h.depth g.1 < fuel) groups

  at_most :
      (h : HasDepth host) (fuel : ℕ) (groups : List (Text × D))
      → Shallow h (suc fuel) groups
      → All (λ (g : Text × D). h.depth g.1 ≤ fuel) groups
  at_most h fuel [] a = tt
  at_most h fuel (g ∷ groups) a = (omega (arith, a.0), at_most h fuel groups a.1)

  IsSafe-execute_fields :
      (h : HasDepth host)
      → host.error_propagation ≡ true
      → (fuel : ℕ) (o : Reference) (v : V) (path : FieldPath) (groups : List (Text × D)) → 0 < fuel
      → Shallow h fuel groups
      → IsSafe (HasFields host o groups) (execute_fields host fuel o v path groups)
  unfolding execute_fields
  IsSafe-execute_fields h p zero o v path groups z a = absurd (omega arith)
  IsSafe-execute_fields h p (suc fuel) o v path groups z a =
      execute_groups-IsSafe host p h.depth h.positive h.deeper fuel (execute_fields host fuel)
        (IsSafe-execute_fields h p fuel) o v path groups (at_most h fuel groups a)

  -- Where field errors propagate and the fuel is above the depth of the selections, executing fields gives,
  -- from consistent errors, the data that the schema and the selections ask for or a field error, and it
  -- leaves the errors consistent: as many as positions, and no position at or below an earlier one.
  pub execute_fields-IsSafe :
      (h : HasDepth host) (fuel : ℕ) (o : Reference) (v : V) (path : FieldPath)
      (groups : List (Text × D))
      → host.error_propagation ≡ true
      → 0 < fuel
      → Shallow h fuel groups
      → IsSafe (HasFields host o groups) (execute_fields host fuel o v path groups)
  execute_fields-IsSafe h fuel o v path groups p z a =
      IsSafe-execute_fields h p fuel o v path groups z a

  serially-IsSafe :
      (h : HasDepth host) (fuel : ℕ) (serially : Bool) (o : Reference) (v : V)
      (groups : List (Text × D))
      → host.error_propagation ≡ true
      → 0 < fuel
      → Shallow h fuel groups
      → IsSafe
          (HasFields host o groups)
          (execute_root_grouped_field_set host fuel serially o v groups)
  unfolding execute_root_grouped_field_set
  serially-IsSafe h fuel true o v groups p z a =
      subst (IsSafe (HasFields host o groups))
        (sym (execute_fields_serially-eq host fuel o v [] groups))
        (IsSafe-execute_fields h p fuel o v [] groups z a)
  serially-IsSafe h fuel false o v groups p z a = IsSafe-execute_fields h p fuel o v [] groups z a

  -- The data of a response: the fields that the operation selects on the root type.
  abbrev pub HasRootFields :
      Option Reference → (Reference → E ⊎ List (Text × D)) → Entries L → Type 0
  HasRootFields none collect es = ⊥
  HasRootFields (some o) collect es =
      (groups : List (Text × D)) × (collect o ≡ inr groups) × HasFields host o groups es

  -- The selections of the operation are less deep than the fuel.
  abbrev pub RootShallow :
      HasDepth host → ℕ → Option Reference → (Reference → E ⊎ List (Text × D)) → Type 0
  RootShallow h fuel none collect = Unit {0}
  RootShallow h fuel (some o) collect =
      (groups : List (Text × D)) → collect o ≡ inr groups → Shallow h fuel groups

  execute_root-IsSafe :
      (h : HasDepth host) (fuel : ℕ) (serially : Bool) (o : Option Reference)
      (collect : Reference → E ⊎ List (Text × D)) (v : V)
      → host.error_propagation ≡ true
      → 0 < fuel
      → RootShallow h fuel o collect
      → IsSafe (HasRootFields o collect) (execute_root host fuel serially o collect v)
  unfolding execute_root
  execute_root-IsSafe h fuel serially none collect v p z a = raise-IsSafe no_root_type
  execute_root-IsSafe h fuel serially (some o) collect v p z a =
      bind-IsSafe (λ groups. collect o ≡ inr groups) (call-IsSafe _ (collect o) (λ _ e. e))
        λ groups e. widen groups e (serially-IsSafe h fuel serially o v groups p z (a groups e))
    where
      widen :
          (groups : List (Text × D))
          → collect o ≡ inr groups
          → {m : M E (Entries L)} → IsSafe (HasFields host o groups) m
          → IsSafe (HasRootFields (some o) collect) m
      widen groups e safe = IsSafe-weaken (λ es q. (groups, e, q)) safe

  -- There is data of the operation's shape, or there are errors.
  abbrev pub IsAnswer :
      Option Reference → (Reference → E ⊎ List (Text × D)) → ExecutionResult E L → Type 0
  IsAnswer o collect x = elim x.result [
    | none ↦ x.errors ≢ none
    | some es ↦ HasRootFields o collect es
  ]

  nulled_nonempty : (qs : List FieldPath) → has_nulled_position [] qs ≡ true → 0 < length qs
  unfolding has_nulled_position
  nulled_nonempty [] h = cc
  nulled_nonempty (q ∷ qs) h = omega arith

  nonempty_errors : (es : List (Raised E)) → 0 < length es → or_none es ≢ none
  nonempty_errors [] h = absurd (omega arith)
  nonempty_errors (e ∷ es) h = λ x. cc

  snoc_errors : (es : List (Raised E)) (e : Raised E) → or_none (es ++ e ∷ []) ≢ none
  snoc_errors [] e = λ x. cc
  snoc_errors (f ∷ es) e = λ x. cc

  add_errors :
      (e : Raised E) (c : CollectedErrors E) → IsConsistent c → or_none (add e [] c).errors ≢ none
  unfolding add
  add_errors e c h = elim (Bool-cases (has_nulled_position [] c.error_positions)) [
    | inl t ↦ rw t (
        nonempty_errors c.errors
          (let n = nulled_nonempty c.error_positions t in omega (arith, h.as_many)))
    | inr t ↦ rw t (snoc_errors c.errors e)
  ]

  respond-IsAnswer :
      (o : Option Reference) (collect : Reference → E ⊎ List (Text × D)) (r : Outcome E (Entries L))
      (c : CollectedErrors E)
      → Finishes (HasRootFields o collect) r
      → IsConsistent c
      → (x : ExecutionResult E L) × (respond host (r, c) ≡ some x) × IsAnswer o collect x
  unfolding respond build_response
  respond-IsAnswer o collect _ c (finishes_done {a = es} q) h =
      (record { result = some es; errors = or_none c.errors }, refl, q)
  respond-IsAnswer o collect _ c (finishes_raised e) h =
      (record { result = none; errors = or_none (add e [] c).errors }, refl, add_errors e c h)

  -- Where field errors propagate and the fuel is above the depth of the selections, executing an operation
  -- gives a response, for a query or serially for a mutation: the data has the fields that are selected on
  -- the root type, of the types that the schema gives them, null only where a type is nullable; or there is
  -- no data, and at least one error.
  pub execute_operation-IsAnswer :
      (h : HasDepth host) (fuel : ℕ) (serially : Bool) (o : Option Reference)
      (collect : Reference → E ⊎ List (Text × D)) (v : V)
      → host.error_propagation ≡ true
      → 0 < fuel
      → RootShallow h fuel o collect
      → (x : ExecutionResult E L) × (execute_operation host fuel serially o collect v ≡ some x)
        × IsAnswer o collect x
  unfolding execute_operation
  execute_operation-IsAnswer h fuel serially o collect v p z a =
      let safe =
        (execute_root-IsSafe h fuel serially o collect v p z a).at (no_errors host)
          (record { as_many = refl; none_below = tt }) in
      respond-IsAnswer o collect _ _ safe.finishes safe.consistent
