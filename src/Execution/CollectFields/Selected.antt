-- ===== src/Execution/CollectFields/Selected.antt =====
-- Collecting the fields of selections, with the fragments that they spread, ends.
use graphql_core.Prelude.{
  ℕ, zero, suc, ◌<◌, ◌≤◌, ◌≡◌, refl, Bool, true, false, ◌&&◌, Option, none, some, List, arith,
}
use graphql_core.Errors.{Text}
use graphql_core.Text.{codes}
use graphql_core.Dict.{get, keys}
use graphql_core.Ast.{
  Directives, Argument, Selection, field, fragment_spread, inline_fragment, Selections,
  no_selections, selection,
}
use graphql_core.Types.{Reference}
use graphql_core.Execution.CollectFields.{
  FieldNode, DeferUsage, FragmentDetails, Context, Collection, Progress, find_directive,
  get_field_entry_key, should_include_node, does_fragment_condition_match, get_defer_usage,
  add_field, add_usage, visit,
}
use graphql_core.Execution.CollectFields.Collector.{
  enter_fragment, visit_fragment, spread_fragment, deferred, note_usage, collect_selection,
  collect_selections, collect_fields_impl,
}
use graphql_core.Execution.CollectFields.Visited.{remaining, remaining-put, get-is_one_of}
use graphql_core.Execution.CollectFields.Groups.{IsGrouped, adjust-IsGrouped}
use graphql_core.Execution.CollectFields.Collects.{
  Collects, collects, collects_failed, if-Collects, bind-Collects, Reaches, SameSets,
  check_skip-Collects, defer_of-Collects, fragment_values-Collects,
}

module _ (context : Context) where
  open context use {W, S, E}

  -- How often fragments can still be entered.
  abbrev pub left : Collection W → ℕ
  left c = remaining c.visited_fragment_names (keys context.fragments)

  module _ (Fine : Selections → Type 0) (P : FieldNode → Type 0) (r : Reaches context Fine P)
      (type : Reference) where
    -- Groups stay groups, and no fragment can be entered more often.
    abbrev pub Keeps : Collection W → Collection W → Type 0
    Keeps c c' =
        (IsGrouped P c.grouped_field_set → IsGrouped P c'.grouped_field_set) × (left c' ≤ left c)

    SameSets-Keeps :
        (c : Collection W) (x : Bool × Collection W) → SameSets context c x → Keeps c x.1
    SameSets-Keeps c x (g, v) = ((λ h. rw g h), rw v (omega arith))

    Keeps-trans : (a b c : Collection W) → Keeps a b → Keeps b c → Keeps a c
    Keeps-trans a b c k l = ((λ h. l.0 (k.0 h)), omega (arith, k.1, l.1))

    Collects-after :
        (a b : Collection W) {m : Progress E (Collection W)}
        → Keeps a b
        → Collects (Keeps b) m
        → Collects (Keeps a) m
    Collects-after a b k (collects {a = c} l) = collects (Keeps-trans a b c k l)
    Collects-after a b k (collects_failed e) = collects_failed e

    module _ (budget : ℕ)
        (enter : Selections
          → Option DeferUsage
          → Option W
          → Collection W
          → Progress E (Collection W))
        (enter_keeps : (ss : Selections) (usage : Option DeferUsage) (w : Option W)
            (c : Collection W)
          → Fine ss
          → left c < budget
          → Collects (Keeps c) (enter ss usage w c)) where
      enter_fragment-Collects :
          (f : FragmentDetails S) (arguments : Option (List Argument)) (usage : Option DeferUsage)
          (w : Option W) (c : Collection W)
          → Fine f.definition.selection_set
          → left c < budget
          → Collects (Keeps c) (enter_fragment context type enter f arguments usage w c)
      enter_fragment-Collects f arguments usage w c h b =
          bind-Collects (fragment_values-Collects context f.variable_signatures arguments w)
            (λ v _. enter_keeps f.definition.selection_set usage v c h b)

      visit_fragment-Collects :
          (n : Text) (f : FragmentDetails S) (arguments : Option (List Argument))
          (usage : Option DeferUsage) (w : Option W) (u : Option DeferUsage) (v : Option Bool)
          (c : Collection W)
          → get n context.fragments ≡ some f
          → Fine f.definition.selection_set
          → get n c.visited_fragment_names ≡ v
          → left c ≤ budget
          → Collects (Keeps c) (visit_fragment context type enter n f arguments usage w u v c)
      visit_fragment-Collects n f arguments usage w none (some false) c e h g b =
          collects ((λ x. x), omega arith)
      visit_fragment-Collects n f arguments usage w (some u) (some v) c e h g b =
          collects ((λ x. x), omega arith)
      visit_fragment-Collects n f arguments usage w none (some true) c e h g b =
          let fewer : left (visit context n false c) < left c =
            remaining-put n false c.visited_fragment_names (keys context.fragments)
              (get-is_one_of n f context.fragments e) (rw g (omega arith)) in
          Collects-after c (visit context n false c) ((λ x. x), omega (arith, fewer))
            (enter_fragment-Collects f arguments usage w (visit context n false c) h
              (omega (arith, fewer)))
      visit_fragment-Collects n f arguments usage w none none c e h g b =
          let fewer : left (visit context n false c) < left c =
            remaining-put n false c.visited_fragment_names (keys context.fragments)
              (get-is_one_of n f context.fragments e) (rw g (omega arith)) in
          Collects-after c (visit context n false c) ((λ x. x), omega (arith, fewer))
            (enter_fragment-Collects f arguments usage w (visit context n false c) h
              (omega (arith, fewer)))
      visit_fragment-Collects n f arguments usage w (some u) none c e h g b =
          let fewer : left (visit context n true c) < left c =
            remaining-put n true c.visited_fragment_names (keys context.fragments)
              (get-is_one_of n f context.fragments e) (rw g (omega arith)) in
          Collects-after c (add_usage context u (visit context n true c))
            ((λ x. x), omega (arith, fewer))
            (enter_fragment-Collects f arguments (some u) w
              (add_usage context u (visit context n true c)) h (omega (arith, fewer)))

      spread_fragment-Collects :
          (n : Text) (o : Option (FragmentDetails S)) (arguments : Option (List Argument))
          (ds : Directives) (usage : Option DeferUsage) (w : Option W) (c : Collection W)
          → get n context.fragments ≡ o
          → ((f : FragmentDetails S)
              → get n context.fragments ≡ some f
              → Fine f.definition.selection_set)
          → left c ≤ budget
          → Collects (Keeps c) (spread_fragment context type enter n o arguments ds usage w c)
      unfolding spread_fragment get_defer_usage
      spread_fragment-Collects n none arguments ds usage w c e h b =
          collects ((λ x. x), omega arith)
      spread_fragment-Collects n (some f) arguments ds usage w c e h b =
          if-Collects
            (does_fragment_condition_match context (some f.definition.type_condition) type)
            (bind-Collects (defer_of-Collects context (find_directive (codes "defer") ds) w usage)
              λ u _.
                visit_fragment-Collects n f arguments usage w u (get n c.visited_fragment_names) c e
                  (h f e) refl b)
            (collects ((λ x. x), omega arith))

      add_field-Keeps :
          (node : FieldNode) (usage : Option DeferUsage) (w : Option W) (c : Collection W)
          → P node
          → Keeps c (add_field context node usage w c)
      unfolding add_field
      add_field-Keeps node usage w c p = (
        (λ h.
            adjust-IsGrouped P (get_field_entry_key node)
              (record { node = node; defer_usage = usage; fragment_variable_values = w })
              c.grouped_field_set (refl, p) h),
        omega arith,
      )

      note_usage-Keeps :
          (u : Option DeferUsage) (c : Collection W) → Keeps c (note_usage context type enter u c)
      note_usage-Keeps none c = ((λ h. h), omega arith)
      note_usage-Keeps (some u) c = ((λ h. h), omega arith)

      mutual
        unfolding collect_selection collect_selections should_include_node get_defer_usage

        selection-Collects :
            (s : Selection) (rest : Selections) (usage : Option DeferUsage) (w : Option W)
            (c : Collection W)
            → Fine (selection s rest)
            → left c ≤ budget
            → Collects (Keeps c) (collect_selection context type enter s usage w c)
        selection-Collects (field alias name arguments ds ss) rest usage w c h b =
            bind-Collects
              (check_skip-Collects context (find_directive (codes "skip") ds)
                (find_directive (codes "include") ds) w c)
              λ x same. Collects-after c x.1 (SameSets-Keeps c x same) (
                if-Collects x.0
                  (collects
                    (add_field-Keeps _ usage w x.1 (r.fields alias name arguments ds ss rest h)))
                  (collects ((λ k. k), omega arith)))
        selection-Collects (inline_fragment condition ds ss) rest usage w c h b =
            bind-Collects
              (check_skip-Collects context (find_directive (codes "skip") ds)
                (find_directive (codes "include") ds) w c)
              λ x same.
                let k = SameSets-Keeps c x same in
                Collects-after c x.1 k (
                  if-Collects (x.0 && does_fragment_condition_match context condition type)
                    (bind-Collects
                      (defer_of-Collects context (find_directive (codes "defer") ds) w usage)
                      λ u _.
                        Collects-after x.1 (note_usage context type enter u x.1)
                          (note_usage-Keeps u x.1)
                          (selections-Collects ss (deferred context type enter u usage) w
                            (note_usage context type enter u x.1) (r.inlined condition ds ss rest h)
                            (omega (arith, k.1, (note_usage-Keeps u x.1).1))))
                    (collects ((λ k. k), omega arith)))
        selection-Collects (fragment_spread n arguments ds) rest usage w c h b =
            bind-Collects
              (check_skip-Collects context (find_directive (codes "skip") ds)
                (find_directive (codes "include") ds) w c)
              λ x same.
                let k = SameSets-Keeps c x same in
                Collects-after c x.1 k (
                  if-Collects x.0
                    (spread_fragment-Collects n (get n context.fragments) arguments ds usage w x.1
                      refl (λ f e. r.spread n arguments ds rest f h e) (omega (arith, k.1)))
                    (collects ((λ k. k), omega arith)))

        selections-Collects :
            (ss : Selections) (usage : Option DeferUsage) (w : Option W) (c : Collection W)
            → Fine ss
            → left c ≤ budget
            → Collects (Keeps c) (collect_selections context type enter ss usage w c)
        selections-Collects no_selections usage w c h b = collects ((λ k. k), omega arith)
        selections-Collects (selection s rest) usage w c h b =
            bind-Collects (selection-Collects s rest usage w c h b) λ c' k.
              Collects-after c c' k
                (selections-Collects rest usage w c' (r.following s rest h) (omega (arith, k.1)))

    pub collect_fields_impl-Collects :
        (fuel : ℕ) (ss : Selections) (usage : Option DeferUsage) (w : Option W) (c : Collection W)
        → Fine ss
        → left c < fuel
        → Collects (Keeps c) (collect_fields_impl context fuel type ss usage w c)
    unfolding collect_fields_impl
    collect_fields_impl-Collects zero ss usage w c h b = absurd (omega arith)
    collect_fields_impl-Collects (suc fuel) ss usage w c h b =
        selections-Collects fuel (collect_fields_impl context fuel type)
          (λ ss' usage' w' c' h' b'. collect_fields_impl-Collects fuel ss' usage' w' c' h' b') ss
          usage w c h (omega arith)
