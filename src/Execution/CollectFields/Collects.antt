-- ===== src/Execution/CollectFields/Collects.antt =====
-- Collecting fields ends, and groups what it collects.
use graphql_core.Prelude.{
  ◌≡◌, refl, Bool, true, false, Option, none, some, ◌⊎◌, inl, inr, List, if◌then◌else◌,
}
use graphql_core.Errors.{Text}
use graphql_core.Dict.{get}
use graphql_core.Ast.{
  Directive, Directives, Argument, Selection, field, fragment_spread, inline_fragment,
  MaybeSelections, Selections, selection,
}
use graphql_core.Execution.CollectFields.{
  FieldNode, DeferUsage, FragmentDetails, Context, Collection, Progress, reached, failed, ◌>>=◌,
  call, check_include, check_skip, defer_of, fragment_values,
}

-- A value with a property, or an exception; the fuel is not exhausted.
pub data Collects {E A : Type 0} (Q : A → Type 0) : Progress E A → Type 0 where
  collects : {a : A} → Q a → Collects Q (reached a)
  collects_failed : (e : E) → Collects Q (failed e)

module _ {E A : Type 0} where
  pub if-Collects :
      {Q : A → Type 0} (b : Bool) {m n : Progress E A}
      → Collects Q m
      → Collects Q n
      → Collects Q (if b then m else n)
  if-Collects true p q = p
  if-Collects false p q = q

  pub bind-Collects :
      {B : Type 0} {Q : A → Type 0} {R : B → Type 0} {m : Progress E A} {f : A → Progress E B}
      → Collects Q m
      → ((a : A) → Q a → Collects R (f a))
      → Collects R (m >>= f)
  bind-Collects (collects {a = a} q) next = next a q
  bind-Collects (collects_failed e) next = collects_failed e

  call-Collects : (r : E ⊎ A) → Collects (λ (a : A). Unit {0}) (call r)
  call-Collects (inl e) = collects_failed e
  call-Collects (inr a) = collects tt

-- A property of selection sets that passes on to the selection sets which collecting comes to from them,
-- and says of their fields that they have a property.
pub record Reaches (context : Context) (Fine : Selections → Type 0) (P : FieldNode → Type 0)
    : Type 1 where
  pub fields :
      (alias : Option Text) (name : Text) (arguments : Option (List Argument)) (ds : Directives)
      (ss : MaybeSelections) (rest : Selections)
      → Fine (selection (field alias name arguments ds ss) rest)
      → P (record {
        alias = alias;
        name = name;
        arguments = arguments;
        directives = ds;
        selections = ss;
      })
  pub following : (s : Selection) (rest : Selections) → Fine (selection s rest) → Fine rest
  pub inlined :
      (condition : Option Text) (ds : Directives) (ss rest : Selections)
      → Fine (selection (inline_fragment condition ds ss) rest)
      → Fine ss
  pub spread :
      (n : Text) (arguments : Option (List Argument)) (ds : Directives) (rest : Selections)
      (f : FragmentDetails (Context.S context))
      → Fine (selection (fragment_spread n arguments ds) rest)
      → get n (Context.fragments context) ≡ some f
      → Fine f.definition.selection_set

module _ (context : Context) where
  open context use {W, S, E}

  -- What should_include_node leaves as it is.
  abbrev pub SameSets : Collection W → Bool × Collection W → Type 0
  SameSets c r =
      (r.1.grouped_field_set ≡ c.grouped_field_set)
      × (r.1.visited_fragment_names ≡ c.visited_fragment_names)

  check_include-Collects :
      (d : Option Directive) (w : Option W) (c : Collection W)
      → Collects (SameSets c) (check_include context d w c)
  check_include-Collects none w c = collects (refl, refl)
  check_include-Collects (some d) w c =
      if-Collects context.forbid_skip_and_include (collects (refl, refl))
        (bind-Collects (call-Collects (context.include_if d w)) (λ b _. collects (refl, refl)))

  pub check_skip-Collects :
      (d include : Option Directive) (w : Option W) (c : Collection W)
      → Collects (SameSets c) (check_skip context d include w c)
  check_skip-Collects none include w c = check_include-Collects include w c
  check_skip-Collects (some d) include w c =
      if-Collects context.forbid_skip_and_include (collects (refl, refl)) (
        bind-Collects (call-Collects (context.skip_if d w))
          (λ b _. if-Collects b (collects (refl, refl)) (check_include-Collects include w c)))

  pub defer_of-Collects :
      (d : Option Directive) (w : Option W) (parent : Option DeferUsage)
      → Collects (λ (u : Option DeferUsage). Unit {0}) (defer_of context d w parent)
  defer_of-Collects none w parent = collects tt
  defer_of-Collects (some d) w parent =
      bind-Collects (call-Collects (context.defer_arguments d w))
        (λ a _. if-Collects a.disabled (collects tt) (collects tt))

  pub fragment_values-Collects :
      (s : Option S) (arguments : Option (List Argument)) (w : Option W)
      → Collects (λ (v : Option W). Unit {0}) (fragment_values context s arguments w)
  fragment_values-Collects none arguments w = collects tt
  fragment_values-Collects (some s) arguments w =
      bind-Collects (call-Collects (context.get_fragment_variable_values arguments s w))
        (λ v _. collects tt)
