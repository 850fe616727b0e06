-- ===== src/Execution/CollectFields/Visited.antt =====
-- How often fragments can still be entered.
use graphql_core.Prelude.{
  ℕ, suc, ◌+◌, ◌*◌, ◌<◌, ◌≤◌, ◌≡◌, refl, ◌∙◌, Bool, true, false, Bool-cases, Option, none, some,
  inl, inr, List, [], ◌∷◌, arith, length, if◌then◌else◌,
}
use graphql_core.Errors.{Text}
use graphql_core.Text.{same_text, same_text-cases, same_text_comm, is_one_of}
use graphql_core.Dict.{get, put, get-adjust, get-adjust_other, keys}

-- A fragment can be entered once as deferred, and then once more as not deferred.
abbrev pub entries_left : Option Bool → ℕ
entries_left none = 2
entries_left (some true) = 1
entries_left (some false) = 0

abbrev pub remaining : List (Text × Bool) → List Text → ℕ
remaining visited [] = 0
remaining visited (n ∷ ns) = entries_left (get n visited) + remaining visited ns

abbrev Visits : Text → Bool → List (Text × Bool) → Type 0
Visits n b visited = suc (entries_left (some b)) ≤ entries_left (get n visited)

get-put :
    (n m : Text) (b : Bool) (visited : List (Text × Bool))
    → get m (put n b visited) ≡ (if same_text m n then some b else get m visited)
get-put n m b visited = elim (same_text-cases m n) [
  | inl (e, t) ↦ rw t (rw e (get-adjust n b (λ _. b) visited))
  | inr t ↦ rw t (get-adjust_other n m b (λ _. b) visited t)
]

entries_left-put :
    (n m : Text) (b : Bool) (visited : List (Text × Bool))
    → Visits n b visited
    → same_text m n ≡ true
    → entries_left (get m (put n b visited)) < entries_left (get m visited)
entries_left-put n m b visited h t = elim (same_text-cases m n) [
  | inl (e, _) ↦ rw (get-put n m b visited) (rw t (rw e h))
  | inr f ↦ cc
]

entries_left-put_other :
    (n m : Text) (b : Bool) (visited : List (Text × Bool))
    → same_text m n ≡ false
    → entries_left (get m (put n b visited)) ≡ entries_left (get m visited)
entries_left-put_other n m b visited t = rw (get-put n m b visited) (rw t refl)

remaining-put_le :
    (n : Text) (b : Bool) (visited : List (Text × Bool)) (ns : List Text)
    → Visits n b visited
    → remaining (put n b visited) ns ≤ remaining visited ns
remaining-put_le n b visited [] h = omega arith
remaining-put_le n b visited (m ∷ ns) h = elim (Bool-cases (same_text m n)) [
  | inl t ↦ omega (arith, entries_left-put n m b visited h t, remaining-put_le n b visited ns h)
  | inr t ↦ omega (arith, entries_left-put_other n m b visited t, remaining-put_le n b visited ns h)
]

pub remaining-put :
    (n : Text) (b : Bool) (visited : List (Text × Bool)) (ns : List Text)
    → is_one_of n ns ≡ true
    → Visits n b visited
    → remaining (put n b visited) ns < remaining visited ns
remaining-put n b visited [] o h = cc
remaining-put n b visited (m ∷ ns) o h = elim (same_text-cases n m) [
  | inl (e, t) ↦ omega (
    arith,
    entries_left-put n m b visited h (same_text_comm m n ∙ t),
    remaining-put_le n b visited ns h,
  )
  | inr t ↦ elim (Bool-cases (same_text m n)) [
    | inl u ↦ omega (arith, entries_left-put n m b visited h u, remaining-put_le n b visited ns h)
    | inr u ↦
        omega (
          arith,
          entries_left-put_other n m b visited u,
          remaining-put n b visited ns (rw t at o) h,
        )
  ]
]

pub remaining_initial : (ns : List Text) → remaining [] ns ≡ 2 * length ns
remaining_initial [] = omega arith
remaining_initial (n ∷ ns) = omega (arith, remaining_initial ns)

pub get-is_one_of :
    {A : Type 0} (n : Text) (a : A) (d : List (Text × A))
    → get n d ≡ some a
    → is_one_of n (keys d) ≡ true
get-is_one_of n a [] h = cc
get-is_one_of n a ((k, v) ∷ d) h = elim (Bool-cases (same_text n k)) [
  | inl e ↦ rw e refl
  | inr e ↦ rw e (get-is_one_of n a d (rw e at h))
]
