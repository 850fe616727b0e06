-- ===== src/Types/Schema/SubTypes.antt =====
-- The cache of `is_sub_type`, and what the questions answered through it say.
use graphql_core.Prelude.{
  ◌≡◌, refl, sym, ap, ◌∙◌, Bool, Option, none, some, List, [], ◌∷◌, map, inl, inr, All,
}
use graphql_core.Errors.{Text}
use graphql_core.Text.{is_one_of, same_text-cases}
use graphql_core.Dict.{get, put, or_else, get-adjust, get-adjust_other}
use graphql_core.Types.{Reference, NamedType, reference}
use graphql_core.Types.Schema.{
  Schema, SubTypeMap, get_type, name_of, members, members_named, sub_type_set, sub_type_names,
  is_sub_type, is_sub_type_cached,
}

-- The object that the schema has under the name of the type is this one.
abbrev pub IsOwn : Schema → NamedType → Type 0
IsOwn s a = get_type s (name_of a) ≡ some a

-- The set for the schema's own object with the name.
abbrev own_set : Schema → Text → List Text
own_set s n = sub_type_set s n (members_named s n)

own_set_lem :
    (s : Schema) (a : NamedType)
    → IsOwn s a
    → sub_type_set s (name_of a) (members a) ≡ own_set s (name_of a)
own_set_lem s a own =
    ap (λ o. sub_type_set s (name_of a) (elim o [ none ↦ none | some t ↦ members t ])) (sym own)

-- What is in the cache is what would be computed for the schema's own objects.
abbrev IsCacheOf : Schema → SubTypeMap → Type 0
IsCacheOf s cache = (n : Text) → or_else (get n cache) (own_set s n) ≡ own_set s n

put-IsCacheOf :
    (s : Schema) (n : Text) (cache : SubTypeMap)
    → IsCacheOf s cache
    → IsCacheOf s (put n (own_set s n) cache)
put-IsCacheOf s n cache c m = elim (same_text-cases m n) [
  | inl (e, t) ↦
      ap (λ k. or_else (get k (put n (own_set s n) cache)) (own_set s m)) e
      ∙ ap (λ o. or_else o (own_set s m)) (get-adjust n (own_set s n) (λ _. own_set s n) cache)
      ∙ ap (own_set s) (sym e)
  | inr t ↦
      ap (λ o. or_else o (own_set s m))
        (get-adjust_other n m (own_set s n) (λ _. own_set s n) cache t)
      ∙ c m
]

is_sub_type_cached_lem :
    (s : Schema) (a : NamedType) (t : Reference) (cache : SubTypeMap)
    → IsOwn s a
    → IsCacheOf s cache
    → ((is_sub_type_cached s a t cache).0 ≡ is_sub_type s (reference a) t)
      × IsCacheOf s (is_sub_type_cached s a t cache).1
unfolding is_sub_type_cached is_sub_type sub_type_names
is_sub_type_cached_lem s a t cache own c = go (get (name_of a) cache) refl
  where
    go :
        (o : Option (List Text))
        → get (name_of a) cache ≡ o
        → ((is_sub_type_cached s a t cache).0 ≡ is_sub_type s (reference a) t)
          × IsCacheOf s (is_sub_type_cached s a t cache).1
    go none e =
        rw (e, is_sub_type_cached, own_set_lem s a own) (refl, put-IsCacheOf s (name_of a) cache c)
    go (some names) e =
        rw (e, is_sub_type_cached)
          (
            ap (λ l. is_one_of t.name l)
                (sym (ap (λ o. or_else o (own_set s (name_of a))) e) ∙ c (name_of a)),
            c,
          )

-- Questions asked one after the other, through the cache of the schema.
unfoldable pub ask_all : Schema → List (NamedType × Reference) → SubTypeMap → List Bool
ask_all s [] cache = []
ask_all s ((a, t) ∷ qs) cache = let r = is_sub_type_cached s a t cache in r.0 ∷ ask_all s qs r.1

ask_all-IsCacheOf :
    (s : Schema) (qs : List (NamedType × Reference)) (cache : SubTypeMap)
    → All (λ q. IsOwn s q.0) qs
    → IsCacheOf s cache
    → ask_all s qs cache ≡ map (λ (q : NamedType × Reference). is_sub_type s (reference q.0) q.1) qs
unfolding ask_all
ask_all-IsCacheOf s [] cache own c = refl
ask_all-IsCacheOf s ((a, t) ∷ qs) cache own c =
    let l = is_sub_type_cached_lem s a t cache own.0 c in
    ap (λ b. b ∷ ask_all s qs (is_sub_type_cached s a t cache).1) l.0
    ∙ ap (λ bs. is_sub_type s (reference a) t ∷ bs)
        (ask_all-IsCacheOf s qs (is_sub_type_cached s a t cache).1 own.1 l.1)

-- Where every abstract type asked about is the object that the schema has under its name, the cache of the
-- schema is never seen: however many times is_sub_type is called, with the cache empty at first, each call
-- answers what the maps of the schema say, as if nothing had been stored.
pub ask_all_lem :
    (s : Schema) (qs : List (NamedType × Reference))
    → All (λ q. IsOwn s q.0) qs
    → ask_all s qs [] ≡ map (λ (q : NamedType × Reference). is_sub_type s (reference q.0) q.1) qs
ask_all_lem s qs own = ask_all-IsCacheOf s qs [] own (λ n. refl)
