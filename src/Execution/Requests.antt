-- ===== src/Execution/Requests.antt =====
-- The executor with the fields that are collected from a document.
mod Tests
use graphql_core.Prelude.{
  ℕ, suc, ◌+◌, ◌*◌, ◌<◌, ◌≤◌, ◌≡◌, refl, sym, subst, Bool, true, Option, none, some, ◌⊎◌, inl, inr,
  List, [], ◌∷◌, All, arith,
}
use graphql_core.Errors.{Text}
use graphql_core.Ast.{Selections}
use graphql_core.Types.{Reference}
use graphql_core.Execution.{FieldPath}
use graphql_core.Execution.Host.{Host, HasDepth, Look, TypeName}
use graphql_core.Execution.Operation.{ExecutionResult, execute_operation}
use graphql_core.Execution.Answers.{IsAnswer, RootShallow, execute_operation-IsAnswer}
use graphql_core.Execution.CollectFields.{FieldDetails, Context, Collection, Progress}
use graphql_core.Execution.CollectFields.Collector.{
  nothing_collected, collect_fields, to_groups, enough, group_subfields,
}
use graphql_core.Execution.CollectFields.Groups.{IsGrouped}
use graphql_core.Execution.CollectFields.Collects.{Collects, collects, collects_failed}
use graphql_core.Execution.CollectFields.Selected.{Keeps, collect_fields_impl-Collects}
use graphql_core.Execution.CollectFields.Depth.{
  selections_depth, details_depth, IsAcyclic, group_subfields_deeper, below_bound,
}

-- The functions of the application, and what the executor sees of their values.
pub record Application (context : Context) : Type 1 where
  pub V : Type 0
  pub L : Type 0
  pub query_type : Option Reference
  pub error_propagation : Bool
  pub resolve :
      Reference → List (FieldDetails (Context.W context)) → FieldPath → V → Context.E context ⊎ V
  pub look : V → Look (Context.E context) V
  pub coerce_output_value : Reference → V → Context.E context ⊎ Option L
  pub resolve_type : Reference → V → Context.E context ⊎ TypeName
  pub is_type_of : Reference → Option (V → Context.E context ⊎ Bool)
  pub stream_error : List (FieldDetails (Context.W context)) → Option (Context.E context)

-- `field_details_list[0].node.name.value`; groups are not empty.
abbrev pub first_name : {W : Type 0} → List (FieldDetails W) → Text
first_name [] = []
first_name (d ∷ ds) = d.node.name

module _ (context : Context) (application : Application context) where
  abbrev pub host_of : Host
  host_of = record {
    V = application.V;
    E = context.E;
    L = application.L;
    D = List (FieldDetails context.W);
    schema = context.schema;
    query_type = application.query_type;
    error_propagation = application.error_propagation;
    field_name = first_name;
    resolve = application.resolve;
    look = application.look;
    coerce_output_value = application.coerce_output_value;
    resolve_type = application.resolve_type;
    is_type_of = application.is_type_of;
    stream_error = application.stream_error;
    collect_subfields = group_subfields context;
  }

  -- What collect_fields gives for the operation's selection set
  unfoldable pub root_groups :
      Selections → Reference → context.E ⊎ List (Text × List (FieldDetails context.W))
  root_groups ss type = to_groups context (collect_fields context (enough context) type ss)

  -- Execution of the operation with this selection set
  unfoldable pub execute_request :
      ℕ
      → Bool
      → Option Reference
      → Selections
      → application.V
      → Option (ExecutionResult context.E application.L)
  execute_request fuel serially root_type ss root_value =
      execute_operation host_of fuel serially root_type (root_groups ss) root_value

  module _ (rank : Text → ℕ) (acyclic : IsAcyclic context rank) where
    one_deeper :
        (n : ℕ) (groups : List (Text × List (FieldDetails context.W)))
        → All (λ (g : Text × List (FieldDetails context.W)). details_depth rank g.1 < n) groups
        → All
            (λ (g : Text × List (FieldDetails context.W)). suc (details_depth rank g.1) < suc n)
            groups
    one_deeper n [] h = tt
    one_deeper n (g ∷ groups) h = (omega (arith, h.0), one_deeper n groups h.1)

    wider :
        (n m : ℕ) (groups : List (Text × List (FieldDetails context.W)))
        → n ≤ m
        → All
            (λ (g : Text × List (FieldDetails context.W)). suc (details_depth rank g.1) < n)
            groups
        → All
            (λ (g : Text × List (FieldDetails context.W)). suc (details_depth rank g.1) < m)
            groups
    wider n m [] l h = tt
    wider n m (g ∷ groups) l h = (omega (arith, h.0), wider n m groups l h.1)

    host_depth : HasDepth host_of
    host_depth = record {
      depth = λ (ds : List (FieldDetails context.W)). suc (details_depth rank ds);
      positive = λ (ds : List (FieldDetails context.W)). omega arith;
      deeper =
          λ (o : Reference) (ds : List (FieldDetails context.W))
              (groups : List (Text × List (FieldDetails context.W))) e.
            one_deeper (details_depth rank ds) groups
              (group_subfields_deeper context rank acyclic o ds groups e);
    }

    root_shallow :
        (fuel : ℕ) (root_type : Option Reference) (ss : Selections)
        → suc (selections_depth rank ss) < fuel
        → RootShallow host_of host_depth fuel root_type (root_groups ss)
    unfolding root_groups host_depth
    root_shallow fuel none ss h = tt
    root_shallow fuel (some type) ss h = λ groups e.
        wider (suc (suc (selections_depth rank ss))) fuel groups (omega arith) (
          one_deeper (suc (selections_depth rank ss)) groups
            (below_bound context rank acyclic type ss groups e))

    -- Where no fragment reaches itself and field errors propagate, executing an operation of a document gives
    -- a response, with fuel above the depth of its selections: its data has the fields that are collected from
    -- the operation's selections, of the types that the schema gives them, null only where a type is
    -- nullable; or there is no data, and at least one error.
    pub execute_request-IsAnswer :
        (fuel : ℕ) (serially : Bool) (root_type : Option Reference) (ss : Selections)
        (root_value : application.V)
        → application.error_propagation ≡ true
        → suc (selections_depth rank ss) < fuel
        → (x : ExecutionResult context.E application.L) × (execute_request fuel serially root_type
              ss root_value
            ≡ some x)
          × IsAnswer host_of root_type (root_groups ss) x
    unfolding execute_request
    execute_request-IsAnswer fuel serially root_type ss root_value p h =
        execute_operation-IsAnswer host_of host_depth fuel serially root_type (root_groups ss)
          root_value p (omega arith) (root_shallow fuel root_type ss h)
