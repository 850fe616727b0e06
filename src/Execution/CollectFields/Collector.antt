-- ===== src/Execution/CollectFields/Collector.antt =====
-- Collecting the fields of selections and of the fragments that they spread.
use graphql_core.Prelude.{
  ℕ, zero, suc, Bool, true, false, ◌&&◌, ◌*◌, length, Option, none, some, ◌⊎◌, inl, inr, List, [],
  ◌∷◌, if◌then◌else◌,
}
use graphql_core.Errors.{Text}
use graphql_core.Dict.{get, keys}
use graphql_core.Ast.{
  Directives, Argument, Selection, field, fragment_spread, inline_fragment, MaybeSelections,
  no_selection_set, selection_set, Selections, no_selections, selection,
}
use graphql_core.Types.{Reference}
use graphql_core.Execution.CollectFields.{
  DeferUsage, FieldDetails, FragmentDetails, Context, Collection, Progress, reached, failed,
  no_fuel, ◌>>=◌, should_include_node, does_fragment_condition_match, get_defer_usage, add_field,
  add_usage, visit, fragment_values,
}

module _ (context : Context) where
  open context use {W, S, E}

  -- Selections of a fragment are collected by `enter`.
  module _ (type : Reference)
      (enter : Selections
        → Option DeferUsage
        → Option W
        → Collection W
        → Progress E (Collection W)) where
    abbrev pub enter_fragment :
        FragmentDetails S
        → Option (List Argument)
        → Option DeferUsage
        → Option W
        → Collection W
        → Progress E (Collection W)
    enter_fragment f arguments usage w c =
        fragment_values context f.variable_signatures arguments w >>= λ v.
        enter f.definition.selection_set usage v c

    -- By whether the spread is deferred, and whether the fragment was visited, and then as deferred.
    abbrev pub visit_fragment :
        Text
        → FragmentDetails S
        → Option (List Argument)
        → Option DeferUsage
        → Option W
        → Option DeferUsage
        → Option Bool
        → Collection W
        → Progress E (Collection W)
    visit_fragment n f arguments usage w none (some false) c = reached c
    visit_fragment n f arguments usage w none (some true) c =
        enter_fragment f arguments usage w (visit context n false c)
    visit_fragment n f arguments usage w none none c =
        enter_fragment f arguments usage w (visit context n false c)
    visit_fragment n f arguments usage w (some u) (some b) c = reached c
    visit_fragment n f arguments usage w (some u) none c =
        enter_fragment f arguments (some u) w (add_usage context u (visit context n true c))

    unfoldable pub spread_fragment :
        Text
        → Option (FragmentDetails S)
        → Option (List Argument)
        → Directives
        → Option DeferUsage
        → Option W
        → Collection W
        → Progress E (Collection W)
    spread_fragment n none arguments ds usage w c = reached c
    spread_fragment n (some f) arguments ds usage w c =
        if does_fragment_condition_match context (some f.definition.type_condition) type
        then (get_defer_usage context w ds usage >>= λ u.
            visit_fragment n f arguments usage w u (get n c.visited_fragment_names) c)
        else reached c

    -- `none` where the inline fragment is not deferred
    abbrev pub deferred : Option DeferUsage → Option DeferUsage → Option DeferUsage
    deferred none usage = usage
    deferred (some u) usage = some u

    abbrev pub note_usage : Option DeferUsage → Collection W → Collection W
    note_usage none c = c
    note_usage (some u) c = add_usage context u c

    unfoldable mutual
      unfolding spread_fragment add_field

      pub collect_selection :
          Selection → Option DeferUsage → Option W → Collection W → Progress E (Collection W)
      collect_selection (field alias name arguments ds ss) usage w c =
          should_include_node context ds w c >>= λ (included, c').
          if included
          then reached (
              add_field context
                (record {
                  alias = alias;
                  name = name;
                  arguments = arguments;
                  directives = ds;
                  selections = ss;
                })
                usage w c')
          else reached c'
      collect_selection (inline_fragment condition ds ss) usage w c =
          should_include_node context ds w c >>= λ (included, c').
          if included && does_fragment_condition_match context condition type
          then (get_defer_usage context w ds usage >>= λ u.
              collect_selections ss (deferred u usage) w (note_usage u c'))
          else reached c'
      collect_selection (fragment_spread n arguments ds) usage w c =
          should_include_node context ds w c >>= λ (included, c').
          if included
          then spread_fragment n (get n context.fragments) arguments ds usage w c'
          else reached c'

      -- `for selection in selection_set.selections`
      pub collect_selections :
          Selections → Option DeferUsage → Option W → Collection W → Progress E (Collection W)
      collect_selections no_selections usage w c = reached c
      collect_selections (selection s rest) usage w c =
          collect_selection s usage w c >>= λ c'. collect_selections rest usage w c'

  -- The fuel bounds the fragments that are entered within one another.
  unfoldable pub collect_fields_impl :
      ℕ
      → Reference
      → Selections
      → Option DeferUsage
      → Option W
      → Collection W
      → Progress E (Collection W)
  unfolding collect_selections
  collect_fields_impl zero type ss usage w c = no_fuel
  collect_fields_impl (suc fuel) type ss usage w c =
      collect_selections type (collect_fields_impl fuel type) ss usage w c

  abbrev pub nothing_collected : Collection W
  nothing_collected = record {
    visited_fragment_names = [];
    grouped_field_set = [];
    new_defer_usages = [];
    forbidden_directive_instances = [];
  }

  unfoldable pub collect_fields : ℕ → Reference → Selections → Progress E (Collection W)
  unfolding collect_fields_impl
  collect_fields fuel type ss = collect_fields_impl fuel type ss none none nothing_collected

  abbrev pub collect_node :
      ℕ
      → Reference
      → MaybeSelections
      → Option DeferUsage
      → Option W
      → Collection W
      → Progress E (Collection W)
  collect_node fuel type no_selection_set usage w c = reached c
  collect_node fuel type (selection_set ss) usage w c = collect_fields_impl fuel type ss usage w c

  -- `for field_detail in field_details_list`
  unfoldable pub collect_details :
      ℕ → Reference → List (FieldDetails W) → Collection W → Progress E (Collection W)
  unfolding collect_fields_impl
  collect_details fuel type [] c = reached c
  collect_details fuel type (d ∷ ds) c =
      collect_node fuel type d.node.selections d.defer_usage d.fragment_variable_values c >>= λ c'.
      collect_details fuel type ds c'

  unfoldable pub collect_subfields :
      ℕ → Reference → List (FieldDetails W) → Progress E (Collection W)
  unfolding collect_details
  collect_subfields fuel type ds = collect_details fuel type ds nothing_collected

  -- What the executor is given: the grouped field set, with fuel for every fragment twice.
  abbrev pub to_groups : Progress E (Collection W) → E ⊎ List (Text × List (FieldDetails W))
  to_groups (reached c) = inr c.grouped_field_set
  to_groups (failed e) = inl e
  to_groups no_fuel = inr []

  abbrev pub enough : ℕ
  enough = suc (2 * length (keys context.fragments))

  unfoldable pub group_subfields :
      Reference → List (FieldDetails W) → E ⊎ List (Text × List (FieldDetails W))
  unfolding collect_subfields
  group_subfields type ds = to_groups (collect_subfields enough type ds)
