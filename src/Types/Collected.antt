-- ===== src/Types/Collected.antt =====
-- Collecting the types of a schema (`TypeSet` of src/graphql/type/schema.py).
--
-- Types that are collected may still have equal names, so a named type is a number here, which stands for
-- the object, and a store gives what the object holds.
pub mod Held
pub mod Counts
pub mod Closure
mod Tests
use graphql_core.Prelude.{
  ℕ, zero, suc, Bool, true, false, ◌==◌, ◌||◌, Option, none, some, List, [], ◌∷◌, ◌++◌, map,
  if◌then◌else◌,
}

pub data TypeObject : Type 0 where
  named : ℕ → TypeObject
  list non_null : TypeObject → TypeObject

-- `get_named_type`
abbrev pub named_object : TypeObject → ℕ
named_object (named n) = n
named_object (list t) = named_object t
named_object (non_null t) = named_object t

pub record FieldObject : Type 0 where
  pub type : TypeObject
  pub args : List TypeObject

-- What a named type holds: scalar and enum types hold no types.
pub data Holds : Type 0 where
  leaf_type : Holds
  union_of : List ℕ → Holds
  -- object and interface types: interfaces and fields
  fields_of : List ℕ → List FieldObject → Holds
  input_fields_of : List TypeObject → Holds

-- `[field.type] + [arg.type for arg in field.args.values()]` for each field
abbrev pub field_types : List FieldObject → List TypeObject
field_types [] = []
field_types (f ∷ fs) = f.type ∷ (f.args ++ field_types fs)

-- The types on which collect_referenced_types calls itself, in their order.
unfoldable pub referenced : Holds → List TypeObject
referenced leaf_type = []
referenced (union_of ts) = map named ts
referenced (fields_of is fs) = map named is ++ field_types fs
referenced (input_fields_of ts) = ts

-- `named_type in self`; the keys of the dict are in the order of insertion.
abbrev pub is_collected : ℕ → List ℕ → Bool
is_collected n [] = false
is_collected n (m ∷ ms) = n == m || is_collected n ms

abbrev pub collect_all :
    (TypeObject → List ℕ → Option (List ℕ)) → List TypeObject → List ℕ → Option (List ℕ)
collect_all collect [] types = some types
collect_all collect (t ∷ ts) types = elim (collect t types) [
  | none ↦ none
  | some types' ↦ collect_all collect ts types'
]

-- None where the fuel is exhausted.
unfoldable pub collect_referenced_types : (ℕ → Holds) → ℕ → TypeObject → List ℕ → Option (List ℕ)
collect_referenced_types store zero t types = none
collect_referenced_types store (suc fuel) t types =
    let rest : Option (List ℕ) =
      collect_all (collect_referenced_types store fuel) (referenced (store (named_object t)))
        (types ++ named_object t ∷ []) in
    if is_collected (named_object t) types then some types else rest
