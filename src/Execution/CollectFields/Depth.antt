-- ===== src/Execution/CollectFields/Depth.antt =====
-- The depth of selections, and that fields are collected from less deep ones.
use graphql_core.Prelude.{
  ℕ, suc, ◌*◌, ◌<◌, ◌≤◌, ◌≡◌, subst, max, Option, none, some, inr, List, [], ◌∷◌, All, length,
  arith,
}
use graphql_core.Errors.{Text}
use graphql_core.Dict.{get, keys}
use graphql_core.Ast.{
  Selection, field, fragment_spread, inline_fragment, MaybeSelections, no_selection_set,
  selection_set, Selections, no_selections, selection,
}
use graphql_core.Types.{Reference}
use graphql_core.Execution.CollectFields.{
  FieldNode, DeferUsage, FieldDetails, FragmentDetails, Context, Collection, Progress,
}
use graphql_core.Execution.CollectFields.Collector.{
  nothing_collected, collect_fields, collect_node, collect_details, collect_subfields, to_groups,
  enough, group_subfields,
}
use graphql_core.Execution.CollectFields.Visited.{remaining_initial}
use graphql_core.Execution.CollectFields.Groups.{InGroup, IsGrouped}
use graphql_core.Execution.CollectFields.Collects.{
  Collects, collects, collects_failed, Reaches, bind-Collects,
}
use graphql_core.Execution.CollectFields.Selected.{left, Keeps, collect_fields_impl-Collects}

-- Depths, given those of the fragments. A field counts.
module _ (rank : Text → ℕ) where
  unfoldable mutual
    pub selection_depth : Selection → ℕ
    selection_depth (field alias name arguments ds ss) = suc (maybe_depth ss)
    selection_depth (fragment_spread n arguments ds) = rank n
    selection_depth (inline_fragment condition ds ss) = selections_depth ss

    pub maybe_depth : MaybeSelections → ℕ
    maybe_depth no_selection_set = 0
    maybe_depth (selection_set ss) = selections_depth ss

    pub selections_depth : Selections → ℕ
    selections_depth no_selections = 0
    selections_depth (selection s rest) = max (selection_depth s) (selections_depth rest)

  abbrev pub node_depth : FieldNode → ℕ
  node_depth node = suc (maybe_depth node.selections)

  abbrev pub details_depth : {W : Type 0} → List (FieldDetails W) → ℕ
  details_depth [] = 0
  details_depth (d ∷ ds) = max (node_depth d.node) (details_depth ds)

-- No fragment reaches itself: each has a depth, at least that of its selections.
abbrev pub IsAcyclic : (context : Context) → (Text → ℕ) → Type 0
IsAcyclic context rank =
    (n : Text) (f : FragmentDetails (Context.S context))
    → get n (Context.fragments context) ≡ some f
    → selections_depth rank f.definition.selection_set ≤ rank n

module _ (context : Context) where
  open context use {W, S, E}

  Reaches-all : Reaches context (λ ss. Unit {0}) (λ node. Unit {0})
  Reaches-all = record {
    fields = λ alias name arguments ds ss rest h. tt;
    following = λ s rest h. tt;
    inlined = λ condition ds ss rest h. tt;
    spread = λ n arguments ds rest f h e. tt;
  }

  left_initial : left context (nothing_collected context) < enough context
  left_initial = omega (arith, remaining_initial (keys context.fragments))

  -- Collecting the fields of an operation ends, also where fragments reach themselves, with fuel for each
  -- fragment twice, or in an exception of a directive or a fragment's variables. The groups are not empty,
  -- have different response names, and each has only fields of its response name.
  pub collect_fields-IsGrouped :
      (fuel : ℕ) (type : Reference) (ss : Selections)
      → 2 * length (keys context.fragments) < fuel
      → Collects
          (λ (c : Collection W). IsGrouped (λ node. Unit {0}) c.grouped_field_set)
          (collect_fields context fuel type ss)
  unfolding collect_fields
  collect_fields-IsGrouped fuel type ss h = grouped (
      collect_fields_impl-Collects context _ _ Reaches-all type fuel ss none none
        (nothing_collected context) tt (omega (arith, left_initial)))
    where
      grouped :
          {m : Progress E (Collection W)}
          → Collects
              (Keeps context
                (λ s. Unit {0})
                (λ node. Unit {0})
                Reaches-all
                type
                (nothing_collected context))
              m
          → Collects (λ (c : Collection W). IsGrouped (λ node. Unit {0}) c.grouped_field_set) m
      grouped (collects k) = collects (k.0 tt)
      grouped (collects_failed e) = collects_failed e

  module _ (rank : Text → ℕ) (acyclic : IsAcyclic context rank) (bound : ℕ) where
    abbrev Below : Selections → Type 0
    Below ss = selections_depth rank ss < bound

    abbrev NodeBelow : FieldNode → Type 0
    NodeBelow node = node_depth rank node < bound

    Reaches-Below : Reaches context Below NodeBelow
    unfolding selections_depth selection_depth maybe_depth
    Reaches-Below = record {
      fields = λ alias name arguments ds ss rest h. omega (arith, h);
      following = λ s rest h. omega (arith, h);
      inlined = λ condition ds ss rest h. omega (arith, h);
      spread = λ n arguments ds rest f h e. omega (arith, h, acyclic n f e);
    }

    module _ (type : Reference) where
      abbrev KeepsBelow : Collection W → Collection W → Type 0
      KeepsBelow = Keeps context Below NodeBelow Reaches-Below type

      collect_node-Collects :
          (fuel : ℕ) (ss : MaybeSelections) (usage : Option DeferUsage) (w : Option W)
          (c : Collection W)
          → maybe_depth rank ss < bound
          → left context c < fuel
          → Collects (KeepsBelow c) (collect_node context fuel type ss usage w c)
      unfolding maybe_depth
      collect_node-Collects fuel no_selection_set usage w c h b = collects ((λ k. k), omega arith)
      collect_node-Collects fuel (selection_set ss) usage w c h b =
          collect_fields_impl-Collects context Below NodeBelow Reaches-Below type fuel ss usage w c
            h b

      collect_details-Collects :
          (fuel : ℕ) (ds : List (FieldDetails W)) (c : Collection W)
          → details_depth rank ds ≤ bound
          → left context c < fuel
          → Collects (KeepsBelow c) (collect_details context fuel type ds c)
      unfolding collect_details
      collect_details-Collects fuel [] c h b = collects ((λ k. k), omega arith)
      collect_details-Collects fuel (d ∷ ds) c h b =
          bind-Collects
            (collect_node-Collects fuel d.node.selections d.defer_usage d.fragment_variable_values c
              (omega arith) b)
            λ c' k.
              Collects-then c c' k
                (collect_details-Collects fuel ds c' (omega arith) (omega (arith, k.1)))
        where
          Collects-then :
              (a b : Collection W) {m : Progress E (Collection W)}
              → KeepsBelow a b
              → Collects (KeepsBelow b) m
              → Collects (KeepsBelow a) m
          Collects-then a b k (collects l) = collects ((λ h. l.0 (k.0 h)), omega (arith, k.1, l.1))
          Collects-then a b k (collects_failed e) = collects_failed e

    details_below :
        (key : Text) (ds : List (FieldDetails W))
        → 0 < bound
        → All (InGroup NodeBelow key) ds
        → details_depth rank ds < bound
    details_below key [] z a = z
    details_below key (d ∷ ds) z a = omega (arith, a.0.1, details_below key ds z a.1)

    groups_below :
        (groups : List (Text × List (FieldDetails W)))
        → IsGrouped NodeBelow groups
        → All (λ (g : Text × List (FieldDetails W)). details_depth rank g.1 < bound) groups
    groups_below [] h = tt
    groups_below ((key, []) ∷ groups) h = absurd (omega (arith, h.0))
    groups_below ((key, d ∷ ds) ∷ groups) h =
        (details_below key (d ∷ ds) (omega (arith, h.1.0.0.1)) h.1.0, groups_below groups h.1.1.1)

  from_groups :
      (rank : Text → ℕ) (acyclic : IsAcyclic context rank) (bound : ℕ) (type : Reference)
      (groups : List (Text × List (FieldDetails W))) {m : Progress E (Collection W)}
      → Collects (KeepsBelow rank acyclic bound type (nothing_collected context)) m
      → to_groups context m ≡ inr groups
      → All (λ (g : Text × List (FieldDetails W)). details_depth rank g.1 < bound) groups
  from_groups rank acyclic bound type groups (collects {a = c} k) e =
      let same : c.grouped_field_set ≡ groups = cc in
      subst
        (λ (gs : List (Text × List (FieldDetails W))).
          All (λ (g : Text × List (FieldDetails W)). details_depth rank g.1 < bound) gs)
        same (groups_below rank acyclic bound c.grouped_field_set (k.0 tt))
  from_groups rank acyclic bound type groups (collects_failed x) e = cc

  -- Where no fragment reaches itself, the fields that are collected below a list of field details are less
  -- deep than it.
  pub group_subfields_deeper :
      (rank : Text → ℕ)
      → IsAcyclic context rank
      → (type : Reference) (ds : List (FieldDetails W))
        (groups : List (Text × List (FieldDetails W)))
      → group_subfields context type ds ≡ inr groups
      → All
          (λ (g : Text × List (FieldDetails W)). details_depth rank g.1 < details_depth rank ds)
          groups
  unfolding group_subfields collect_subfields
  group_subfields_deeper rank acyclic type ds groups e =
      from_groups rank acyclic (details_depth rank ds) type groups
        (collect_details-Collects rank acyclic (details_depth rank ds) type (enough context) ds
          (nothing_collected context) (omega arith) left_initial)
        e

  -- The fields of an operation are no deeper than its selections.
  pub below_bound :
      (rank : Text → ℕ)
      → IsAcyclic context rank
      → (type : Reference) (ss : Selections) (groups : List (Text × List (FieldDetails W)))
      → to_groups context (collect_fields context (enough context) type ss) ≡ inr groups
      → All
          (λ (g : Text × List (FieldDetails W)).
            details_depth rank g.1 < suc (selections_depth rank ss))
          groups
  unfolding collect_fields
  below_bound rank acyclic type ss groups e =
      from_groups rank acyclic (suc (selections_depth rank ss)) type groups
        (collect_fields_impl-Collects context _ _
          (Reaches-Below rank acyclic (suc (selections_depth rank ss))) type (enough context) ss
          none none (nothing_collected context) (omega arith) left_initial)
        e
