-- ===== src/Types/Collected/Tests.antt =====
-- Collecting types that hold one another.
use mathlib.Core.List.{Memᴰ}
use mathlib.Core.List.Memᴰ.{head, tail}
use graphql_core.Prelude.{ℕ, zero, suc, ◌≡◌, ◌↔◌, refl, sym, subst, some, List, [], ◌∷◌, All, arith}
use graphql_core.Types.Collected.{
  TypeObject, named, list, non_null, named_object, Holds, leaf_type, union_of, fields_of,
  referenced, collect_all, collect_referenced_types,
}
use graphql_core.Types.Collected.Held.{IsReachable, root, held, referenced-All}
use graphql_core.Types.Collected.Closure.{IsUniverse, collect_all-closed}

-- 0 is an object type with the interface 1, and a field of type [2!] with an argument of type 3; 2 is the
-- union of 0, and 3 a scalar type.
abbrev store : ℕ → Holds
store zero =
    fields_of (1 ∷ []) (record { type = list (non_null (named 2)); args = named 3 ∷ [] } ∷ [])
store (suc zero) = fields_of [] []
store (suc (suc zero)) = union_of (0 ∷ [])
store (suc (suc (suc n))) = leaf_type

abbrev universe : List ℕ
universe = 0 ∷ 1 ∷ 2 ∷ 3 ∷ []

abbrev InUniverse : TypeObject → Type 0
InUniverse t = Memᴰ (named_object t) universe

referenced-InUniverse : (n : ℕ) → All InUniverse (referenced (store n))
unfolding referenced
referenced-InUniverse zero =
    (tail (head refl), (tail (tail (head refl)), (tail (tail (tail (head refl))), tt)))
referenced-InUniverse (suc zero) = tt
referenced-InUniverse (suc (suc zero)) = (head refl, tt)
referenced-InUniverse (suc (suc (suc n))) = tt

universe-covers : {n : ℕ} → IsReachable store (named 2 ∷ []) n → Memᴰ n universe
universe-covers (root (head e)) = subst InUniverse (sym e) (tail (tail (head refl)))
universe-covers (root (tail m)) = elim m [ ]
universe-covers (held {n = n} d i) = referenced-All InUniverse (referenced-InUniverse n) i

universe-IsUniverse : IsUniverse store (named 2 ∷ []) universe
universe-IsUniverse n d = universe-covers d

collected :
    collect_all (collect_referenced_types store 5) (named 2 ∷ []) [] ≡ some (2 ∷ 0 ∷ 1 ∷ 3 ∷ [])
unfolding collect_referenced_types referenced
collected = refl

collect_all_example :
    (types : List ℕ) × (collect_all (collect_referenced_types store 5) (named 2 ∷ []) []
      ≡ some types)
    × ((n : ℕ) → Memᴰ n types ↔ IsReachable store (named 2 ∷ []) n)
collect_all_example =
    collect_all-closed store (named 2 ∷ []) universe universe-IsUniverse 5 (omega arith)
