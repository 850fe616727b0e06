-- ===== src/Types/Collected/Closure.antt =====
-- Collecting types ends, and collects the types that are reached.
use mathlib.Core.List.{Memᴰ}
use graphql_core.Prelude.{
  ℕ, zero, suc, ◌<◌, ◌≡◌, refl, sym, subst, ◌∙◌, true, false, ◌==◌, Bool-cases, or-cases, Option,
  none, some, ◌⊎◌, inl, inr, List, [], ◌∷◌, ◌++◌, All, length, ◌↔◌, arith,
}
use graphql_core.Types.Collected.{
  TypeObject, named_object, Holds, referenced, is_collected, collect_all, collect_referenced_types,
}
use graphql_core.Types.Collected.Held.{
  IsReachable, root, held, All-intro, All-elim, All-referenced, referenced-All,
}
use graphql_core.Types.Collected.Counts.{
  Collected, Grows, is_collected-mem, mem-is_collected, All-Grows, is_collected-snoc, uncollected,
  uncollected-le, Grows-snoc, snoc_self, uncollected-snoc,
}

module _ (store : ℕ → Holds) (roots : List TypeObject) where
  abbrev Reached : TypeObject → Type 0
  Reached t = IsReachable store roots (named_object t)

  -- The types that have been added are reached, and what they hold is collected.
  abbrev Added : List ℕ → List ℕ → Type 0
  Added types types' =
      (n : ℕ)
      → is_collected n types' ≡ true
      → (is_collected n types ≡ true)
        ⊎ (IsReachable store roots n × All (Collected types') (referenced (store n)))

  -- The list has every type that is reached from the roots.
  abbrev pub IsUniverse : List ℕ → Type 0
  IsUniverse universe = (n : ℕ) → IsReachable store roots n → Memᴰ n universe

  -- What collecting a type, or each of several, gives.
  abbrev Collects : List ℕ → List TypeObject → Option (List ℕ) → Type 0
  Collects types ts none = ⊥
  Collects types ts (some types') =
      Grows types types' × Added types types' × All (Collected types') ts

  module _ (universe : List ℕ) (covers : IsUniverse universe) where
    collect_all-Collects :
        (fuel : ℕ) (collect : TypeObject → List ℕ → Option (List ℕ))
        → ((t : TypeObject) (types : List ℕ)
            → Reached t
            → uncollected types universe < fuel
            → Collects types (t ∷ []) (collect t types))
        → (ts : List TypeObject) (types : List ℕ) → All Reached ts
        → uncollected types universe < fuel
        → Collects types ts (collect_all collect ts types)
    collect_all-Collects fuel collect step [] types a b = ((λ n h. h), (λ n h. inl h), tt)
    collect_all-Collects fuel collect step (t ∷ ts) types a b =
        go (λ types' b'. collect_all-Collects fuel collect step ts types' a.1 b') (collect t types)
          (step t types a.0 b)
      where
        next :
            (types' : List ℕ)
            → Collects types (t ∷ []) (some types')
            → (r : Option (List ℕ)) → Collects types' ts r
            → Collects types (t ∷ ts) r
        next types' c none d = d
        next types' (g, k, e) (some types'') (g', k', e') = (
          (λ n h. g' n (g n h)),
          (λ n h. elim (k' n h) [
            | inl x ↦ elim (k n x) [
              | inl y ↦ inl y
              | inr y ↦ inr (y.0, All-Grows types' types'' (referenced (store n)) g' y.1)
            ]
            | inr x ↦ inr x
          ]),
          (g' (named_object t) e.0, e'),
        )

        go :
            ((types' : List ℕ)
              → uncollected types' universe < fuel
              → Collects types' ts (collect_all collect ts types'))
            → (r : Option (List ℕ)) → Collects types (t ∷ []) r
            → Collects types
                (t ∷ ts)
                (elim r [ none ↦ none | some types' ↦ collect_all collect ts types' ])
        go rest none c = c
        go rest (some types') c =
            next types' c (collect_all collect ts types')
              (rest types' (let le = uncollected-le types types' universe c.0 in omega (arith, le)))

    collect_referenced_types-Collects :
        (fuel : ℕ) (t : TypeObject) (types : List ℕ)
        → Reached t
        → uncollected types universe < fuel
        → Collects types (t ∷ []) (collect_referenced_types store fuel t types)
    unfolding collect_referenced_types
    collect_referenced_types-Collects zero t types u b = absurd (omega arith)
    collect_referenced_types-Collects (suc fuel) t types u b =
        elim (Bool-cases (is_collected (named_object t) types)) [
          | inl e ↦ rw e ((λ n h. h), (λ n h. inl h), (e, tt))
          | inr e ↦ rw e (
              added e
                (collect_all (collect_referenced_types store fuel)
                  (referenced (store (named_object t))) (types ++ named_object t ∷ []))
                (collect_all-Collects fuel (collect_referenced_types store fuel)
                  (collect_referenced_types-Collects fuel) (referenced (store (named_object t)))
                  (types ++ named_object t ∷ [])
                  (All-referenced Reached (store (named_object t)) (λ k i. held u i))
                  (let lt =
                      uncollected-snoc (named_object t) types universe e
                        (mem-is_collected (named_object t) universe (covers (named_object t) u)) in
                    omega (arith, lt))))
        ]
      where
        added :
            is_collected (named_object t) types ≡ false
            → (r : Option (List ℕ))
            → Collects (types ++ named_object t ∷ []) (referenced (store (named_object t))) r
            → Collects types (t ∷ []) r
        added e none c = c
        added e (some types') (g, k, a) = (
          (λ n h. g n (Grows-snoc (named_object t) types n h)),
          (λ n h. elim (k n h) [
            | inl x ↦
                elim (or-cases (is_collected n types) (n == named_object t)
                  (sym (is_collected-snoc n (named_object t) types) ∙ x)) [
                    | inl y ↦ inl y
                    | inr y ↦
                        let same : n ≡ named_object t = ground arith in
                        inr (
                          subst
                            (λ (m : ℕ).
                              IsReachable store roots m
                              × All (Collected types') (referenced (store m)))
                            (sym same) (u, a))
                  ]
            | inr x ↦ inr x
          ]),
          (g (named_object t) (snoc_self (named_object t) types), tt),
        )

    uncollected_initial : (ns : List ℕ) → uncollected [] ns ≡ length ns
    uncollected_initial [] = refl
    uncollected_initial (n ∷ ns) = omega (arith, uncollected_initial ns)

    -- What is reached is collected, where the roots and what the collected types hold are.
    reached-Collected :
        (types : List ℕ)
        → All (Collected types) roots
        → ((n : ℕ) → is_collected n types ≡ true → All (Collected types) (referenced (store n)))
        → {n : ℕ} → IsReachable store roots n
        → is_collected n types ≡ true
    reached-Collected types a k (root {t = t} m) = All-elim (Collected types) t roots a m
    reached-Collected types a k (held {n = n} d i) =
        referenced-All (Collected types) (k n (reached-Collected types a k d)) i

    -- Where a list has every type that is reached from the roots, collecting the types of the roots ends,
    -- with fuel above the length of the list, also where types hold one another in cycles. It
    -- collects exactly the types that are reached: those of the roots, the members of unions, the interfaces
    -- of object and interface types, and the types of the fields, arguments and input fields of types that
    -- are reached.
    pub collect_all-closed :
        (fuel : ℕ)
        → length universe < fuel
        → (types : List ℕ) × (collect_all (collect_referenced_types store fuel) roots []
            ≡ some types)
          × ((n : ℕ) → Memᴰ n types ↔ IsReachable store roots n)
    collect_all-closed fuel b = go (collect_all (collect_referenced_types store fuel) roots []) (
        collect_all-Collects fuel (collect_referenced_types store fuel)
          (collect_referenced_types-Collects fuel) roots []
          (All-intro Reached roots (λ t m. root m)) (omega (arith, uncollected_initial universe)))
      where
        go :
            (r : Option (List ℕ))
            → Collects [] roots r
            → (types : List ℕ) × (r ≡ some types)
              × ((n : ℕ) → Memᴰ n types ↔ IsReachable store roots n)
        go none c = absurd c
        go (some types) (g, k, a) = (
          types,
          refl,
          λ n. (
            (λ m. elim (k n (mem-is_collected n types m)) [ inl x ↦ cc | inr y ↦ y.0 ]),
            (λ d.
                is_collected-mem n types
                  (reached-Collected types a (λ j h. elim (k j h) [ inl x ↦ cc | inr y ↦ y.1 ]) d)),
          ),
        )
