-- ===== src/Execution/CollectFields.antt =====
-- Collecting the fields of selection sets (src/graphql/execution/collect_fields.py).
pub mod Visited
pub mod Groups
pub mod Collector
pub mod Collects
pub mod Selected
pub mod Depth
use graphql_core.Prelude.{
  ℕ, zero, suc, Bool, true, false, not, ◌&&◌, ◌||◌, ◌*◌, length, Option, none, some, ◌⊎◌, inl, inr,
  List, [], ◌∷◌, ◌++◌, if◌then◌else◌,
}
use graphql_core.Errors.{Text}
use graphql_core.Text.{codes, same_text}
use graphql_core.Dict.{get, put, adjust, keys}
use graphql_core.Ast.{
  Directive, Directives, Argument, Selection, field, fragment_spread, inline_fragment,
  MaybeSelections, no_selection_set, selection_set, Selections, no_selections, selection,
  FragmentDefinition,
}
use graphql_core.Types.{Reference, reference, is_abstract_kind, NamedType}
use graphql_core.Types.Schema.{Schema, get_type, is_sub_type}

pub record FieldNode : Type 0 where
  pub alias : Option Text
  pub name : Text
  pub arguments : Option (List Argument)
  pub directives : Directives
  pub selections : MaybeSelections

-- The label, and the parent defer usage
pub data DeferUsage : Type 0 where
  top : Option Text → DeferUsage
  inside : DeferUsage → Option Text → DeferUsage

abbrev pub defer_usage_in : Option DeferUsage → Option Text → DeferUsage
defer_usage_in none label = top label
defer_usage_in (some parent) label = inside parent label

-- `W` are the values of a fragment's variables.
pub record FieldDetails (W : Type 0) : Type 0 where
  pub node : FieldNode
  pub defer_usage : Option DeferUsage
  pub fragment_variable_values : Option W

-- `S` are signatures of variables; none where there are no variables.
pub record FragmentDetails (S : Type 0) : Type 0 where
  pub definition : FragmentDefinition
  pub variable_signatures : Option S

-- The coerced arguments of @defer: whether `if` is false, and the label.
pub record DeferArguments : Type 0 where
  pub disabled : Bool
  pub label : Option Text

-- What stays the same while fields are collected. The coercion of the arguments of directives and fragments
-- may raise exceptions `E`.
pub record Context : Type 1 where
  pub W : Type 0
  pub S : Type 0
  pub E : Type 0
  pub schema : Schema
  pub fragments : List (Text × FragmentDetails S)
  pub forbid_skip_and_include : Bool
  -- `get_argument_values(…)["if"]` of @skip and @include
  pub skip_if : Directive → Option W → E ⊎ Bool
  pub include_if : Directive → Option W → E ⊎ Bool
  pub defer_arguments : Directive → Option W → E ⊎ DeferArguments
  pub get_fragment_variable_values : Option (List Argument) → S → Option W → E ⊎ W

-- What changes.
pub record Collection (W : Type 0) : Type 0 where
  pub visited_fragment_names : List (Text × Bool)
  pub grouped_field_set : List (Text × List (FieldDetails W))
  pub new_defer_usages : List DeferUsage
  pub forbidden_directive_instances : List Directive

pub data Progress (E A : Type 0) : Type 0 where
  reached : A → Progress E A
  failed : E → Progress E A
  no_fuel : Progress E A

infixl 5 ◌>>=◌
abbrev pub ◌>>=◌ : {E A B : Type 0} → Progress E A → (A → Progress E B) → Progress E B
reached a >>= f = f a
failed e >>= f = failed e
no_fuel >>= f = no_fuel

abbrev pub call : {E A : Type 0} → E ⊎ A → Progress E A
call (inl e) = failed e
call (inr a) = reached a

-- The first directive of a name, None where the node has none.
abbrev pub first_named : Text → List Directive → Option Directive
first_named n [] = none
first_named n (d ∷ ds) = if same_text d.name n then some d else first_named n ds

unfoldable pub find_directive : Text → Directives → Option Directive
find_directive n none = none
find_directive n (some ds) = first_named n ds

unfoldable pub get_field_entry_key : FieldNode → Text
get_field_entry_key node = elim node.alias [ some a ↦ a | none ↦ node.name ]

module _ (context : Context) where
  open context use {W, S, E}

  -- The end of `should_include_node`, where nothing else excludes the node.
  abbrev pub check_include :
      Option Directive → Option W → Collection W → Progress E (Bool × Collection W)
  check_include none w c = reached (true, c)
  check_include (some d) w c =
      if context.forbid_skip_and_include
      then reached (
        false,
        record c { forbidden_directive_instances = c.forbidden_directive_instances ++ d ∷ [] },
      )
      else (call (context.include_if d w) >>= λ b. reached (b, c))

  abbrev pub check_skip :
      Option Directive
      → Option Directive
      → Option W
      → Collection W
      → Progress E (Bool × Collection W)
  check_skip none include w c = check_include include w c
  check_skip (some d) include w c =
      if context.forbid_skip_and_include
      then reached (
        false,
        record c { forbidden_directive_instances = c.forbidden_directive_instances ++ d ∷ [] },
      )
      else (call (context.skip_if d w) >>= λ b.
          if b then reached (false, c) else check_include include w c)

  unfoldable pub should_include_node :
      Directives → Option W → Collection W → Progress E (Bool × Collection W)
  should_include_node ds w c =
      check_skip (find_directive (codes "skip") ds) (find_directive (codes "include") ds) w c

  -- `type_from_ast` of a named type; types of a schema are the same if their names are.
  abbrev pub condition_matches : Option NamedType → Reference → Bool
  condition_matches none type = false
  condition_matches (some t) type =
      if same_text (reference t).name type.name
      then true
      else (is_abstract_kind (reference t).kind && is_sub_type context.schema (reference t) type)

  unfoldable pub does_fragment_condition_match : Option Text → Reference → Bool
  does_fragment_condition_match none type = true
  does_fragment_condition_match (some n) type = condition_matches (get_type context.schema n) type

  abbrev pub defer_of :
      Option Directive → Option W → Option DeferUsage → Progress E (Option DeferUsage)
  defer_of none w parent = reached none
  defer_of (some d) w parent = call (context.defer_arguments d w) >>= λ a.
      if a.disabled then reached none else reached (some (defer_usage_in parent a.label))

  unfoldable pub get_defer_usage :
      Option W → Directives → Option DeferUsage → Progress E (Option DeferUsage)
  get_defer_usage w ds parent = defer_of (find_directive (codes "defer") ds) w parent

  unfoldable pub add_field : FieldNode → Option DeferUsage → Option W → Collection W → Collection W
  add_field node usage w c = record c {
    grouped_field_set =
        adjust (get_field_entry_key node) []
          (λ ds.
            ds ++ record { node = node; defer_usage = usage; fragment_variable_values = w } ∷ [])
          c.grouped_field_set;
  }

  abbrev pub add_usage : DeferUsage → Collection W → Collection W
  add_usage u c = record c { new_defer_usages = c.new_defer_usages ++ u ∷ [] }

  abbrev pub visit : Text → Bool → Collection W → Collection W
  visit n b c = record c { visited_fragment_names = put n b c.visited_fragment_names }

  abbrev pub fragment_values : Option S → Option (List Argument) → Option W → Progress E (Option W)
  fragment_values none arguments w = reached none
  fragment_values (some s) arguments w =
      call (context.get_fragment_variable_values arguments s w) >>= λ v. reached (some v)
