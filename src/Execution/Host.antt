-- ===== src/Execution/Host.antt =====
-- What the executor calls, and its computations: they collect errors, and may raise.
use graphql_core.Prelude.{ℕ, ◌≡◌, ◌<◌, Bool, Option, none, List, ◌⊎◌, inl, inr, All}
use graphql_core.Errors.{Text}
use graphql_core.Types.{Reference}
use graphql_core.Types.Schema.{Schema}
use graphql_core.Execution.{FieldPath, Raised, Reason}
use graphql_core.Execution.CollectedErrors.{CollectedErrors}

-- What the executor finds out about a value that a resolver has returned.
pub data Look (E V : Type 0) : Type 0 where
  is_exception : E → Look E V
  is_none is_undefined : Look E V
  is_iterable : List V → Look E V
  is_other : Look E V

-- What `resolve_type` gives.
pub data TypeName : Type 0 where
  no_name not_a_name : TypeName
  type_name : Text → TypeName

-- The schema, the operation's selections, and the functions of the application: resolvers, leaf types'
-- `coerce_output_value`, `resolve_type` and `is_type_of`. `V` are the values that resolvers return, `E` the
-- exceptions, none of them a GraphQLError that has a path already, `L` the serialized leaf values, and `D` the
-- lists of field details, which are never empty.
pub record Host : Type 1 where
  pub V : Type 0
  pub E : Type 0
  pub L : Type 0
  pub D : Type 0
  pub schema : Schema
  pub query_type : Option Reference
  -- whether a field error nulls the parents of a non-null field
  pub error_propagation : Bool
  -- the name of the first node
  pub field_name : D → Text
  -- `get_argument_values`, then the resolver of the field
  pub resolve : Reference → D → FieldPath → V → E ⊎ V
  pub look : V → Look E V
  -- None where the result is None or Undefined
  pub coerce_output_value : Reference → V → E ⊎ Option L
  pub resolve_type : Reference → V → E ⊎ TypeName
  -- None where the type has no `is_type_of`
  pub is_type_of : Reference → Option (V → E ⊎ Bool)
  -- the exception that `get_stream_usage` raises
  pub stream_error : D → Option E
  -- the grouped field set of the selections below
  pub collect_subfields : Reference → D → E ⊎ List (Text × D)

-- The depth of the selections, the fields themselves counted. Documents have no cycles of fragments, so
-- there is one.
pub record HasDepth (host : Host) : Type 0 where
  pub depth : Host.D host → ℕ
  pub positive : (d : Host.D host) → 0 < depth d
  pub deeper :
      (o : Reference) (d : Host.D host) (groups : List (Text × Host.D host))
      → Host.collect_subfields host o d ≡ inr groups
      → All (λ (g : Text × Host.D host). depth g.1 < depth d) groups

pub data Outcome (E A : Type 0) : Type 0 where
  done : A → Outcome E A
  raised : Raised E → Outcome E A
  no_fuel : Outcome E A

abbrev pub M : Type 0 → Type 0 → Type 0
M E A = CollectedErrors E → Outcome E A × CollectedErrors E

abbrev pub return : {E A : Type 0} → A → M E A
return a c = (done a, c)

-- An exception with no path
abbrev pub raise : {E A : Type 0} → Reason E → M E A
raise r c = (raised (record { reason = r; location = none }), c)

infixl 5 ◌>>=◌
unfoldable pub ◌>>=◌ : {E A B : Type 0} → M E A → (A → M E B) → M E B
◌>>=◌ m f c =
    let r = m c in
    elim r.0 [ done a ↦ f a r.1 | raised e ↦ (raised e, r.1) | no_fuel ↦ (no_fuel, r.1) ]

-- `try: … except Exception as raw_error: …`
unfoldable pub try_except : {E A : Type 0} → M E A → (Raised E → M E A) → M E A
try_except m handle c =
    let r = m c in
    elim r.0 [ done a ↦ (done a, r.1) | raised e ↦ handle e r.1 | no_fuel ↦ (no_fuel, r.1) ]

-- A call of the application's code
abbrev pub call : {E A : Type 0} → E ⊎ A → M E A
call (inl e) = raise (Reason.raised_by e)
call (inr a) = return a
