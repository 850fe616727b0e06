-- ===== src/Types/Collected/Counts.antt =====
-- Which types are collected, and how many of a list are not yet.
use mathlib.Core.List.{Memᴰ}
use mathlib.Core.List.Memᴰ.{head, tail}
use graphql_core.Prelude.{
  ℕ, ◌+◌, ◌<◌, ◌≤◌, ◌≡◌, sym, ◌∙◌, true, false, ◌==◌, ◌||◌, Bool-cases, or-cases, or-left, or-right,
  inl, inr, List, [], ◌∷◌, ◌++◌, All, arith, if◌then◌else◌,
}
use graphql_core.Types.Collected.{TypeObject, named_object, is_collected}

abbrev pub Collected : List ℕ → TypeObject → Type 0
Collected types t = is_collected (named_object t) types ≡ true

-- Nothing that was collected is lost.
abbrev pub Grows : List ℕ → List ℕ → Type 0
Grows types types' = (n : ℕ) → is_collected n types ≡ true → is_collected n types' ≡ true

pub is_collected-mem : (n : ℕ) (types : List ℕ) → is_collected n types ≡ true → Memᴰ n types
is_collected-mem n [] h = cc
is_collected-mem n (m ∷ types) h = elim (or-cases (n == m) (is_collected n types) h) [
  | inl e ↦ head (ground arith)
  | inr e ↦ tail (is_collected-mem n types e)
]

pub mem-is_collected : (n : ℕ) (types : List ℕ) → Memᴰ n types → is_collected n types ≡ true
mem-is_collected n [] m = elim m [ ]
mem-is_collected n (k ∷ types) (head e) = or-left (n == k) (is_collected n types) (ground arith)
mem-is_collected n (k ∷ types) (tail m) =
    or-right (n == k) (is_collected n types) (mem-is_collected n types m)

pub All-Grows :
    (types types' : List ℕ) (ts : List TypeObject)
    → Grows types types'
    → All (Collected types) ts
    → All (Collected types') ts
All-Grows types types' [] g a = tt
All-Grows types types' (t ∷ ts) g a = (g (named_object t) a.0, All-Grows types types' ts g a.1)

pub is_collected-snoc :
    (n m : ℕ) (types : List ℕ) → is_collected n (types ++ m ∷ []) ≡ (is_collected n types || n == m)
is_collected-snoc n m [] = ground arith
is_collected-snoc n m (k ∷ types) = ground (arith, is_collected-snoc n m types)

-- How many types of the universe are not collected.
abbrev pub uncollected : List ℕ → List ℕ → ℕ
uncollected types [] = 0
uncollected types (n ∷ universe) =
    (if is_collected n types then 0 else 1) + uncollected types universe

pub uncollected-le :
    (types types' : List ℕ) (universe : List ℕ)
    → Grows types types'
    → uncollected types' universe ≤ uncollected types universe
uncollected-le types types' [] g = omega arith
uncollected-le types types' (n ∷ universe) g = elim (Bool-cases (is_collected n types)) [
  | inl e ↦ rw (e, g n e) (omega (arith, uncollected-le types types' universe g))
  | inr e ↦ ground (arith, e, uncollected-le types types' universe g)
]

pub Grows-snoc : (n : ℕ) (types : List ℕ) → Grows types (types ++ n ∷ [])
Grows-snoc n types m h = is_collected-snoc m n types ∙ or-left (is_collected m types) (m == n) h

pub snoc_self : (n : ℕ) (types : List ℕ) → is_collected n (types ++ n ∷ []) ≡ true
snoc_self n types =
    is_collected-snoc n n types ∙ or-right (is_collected n types) (n == n) (ground arith)

pub uncollected-snoc :
    (n : ℕ) (types universe : List ℕ)
    → is_collected n types ≡ false
    → is_collected n universe ≡ true
    → uncollected (types ++ n ∷ []) universe < uncollected types universe
uncollected-snoc n types [] f h = cc
uncollected-snoc n types (m ∷ universe) f h = elim (Bool-cases (n == m)) [
  | inl e ↦
      let same : n ≡ m = ground arith in
      let le = uncollected-le types (types ++ n ∷ []) universe (Grows-snoc n types) in
      rw (sym same) (rw (f, snoc_self n types) (omega (arith, le)))
  | inr e ↦
      let rest = uncollected-snoc n types universe f (rw e at h) in
      let g = Grows-snoc n types m in ground (arith, rest, g)
]
