-- ===== src/Types/Collected/Held.antt =====
-- What a named type holds, as the classes of src/graphql/type/definition.py have it, and the types that can
-- be reached: written down apart from `referenced`, which computes them.
use mathlib.Core.List.{Memᴰ}
use mathlib.Core.List.Memᴰ.{head, tail}
use graphql_core.Prelude.{ℕ, refl, sym, subst, List, [], ◌∷◌, ◌++◌, map, All}
use graphql_core.Types.Collected.{
  TypeObject, named, named_object, FieldObject, Holds, leaf_type, union_of, fields_of,
  input_fields_of, field_types, referenced,
}

pub data IsHeld : TypeObject → Holds → Type 0 where
  member : {n : ℕ} {ts : List ℕ} → Memᴰ n ts → IsHeld (named n) (union_of ts)
  interface :
      {n : ℕ} {is : List ℕ} {fs : List FieldObject} → Memᴰ n is → IsHeld (named n) (fields_of is fs)
  field :
      {f : FieldObject} {is : List ℕ} {fs : List FieldObject}
      → Memᴰ f fs
      → IsHeld f.type (fields_of is fs)
  argument :
      {t : TypeObject} {f : FieldObject} {is : List ℕ} {fs : List FieldObject}
      → Memᴰ f fs
      → Memᴰ t f.args
      → IsHeld t (fields_of is fs)
  input_field : {t : TypeObject} {ts : List TypeObject} → Memᴰ t ts → IsHeld t (input_fields_of ts)

-- The named types that are reached from the roots: those of the roots, and of what a reached type holds.
pub data IsReachable (store : ℕ → Holds) (roots : List TypeObject) : ℕ → Type 0 where
  root : {t : TypeObject} → Memᴰ t roots → IsReachable store roots (named_object t)
  held :
      {n : ℕ} {t : TypeObject}
      → IsReachable store roots n
      → IsHeld t (store n)
      → IsReachable store roots (named_object t)

module _ {ℓ} {A : Type ℓ} (P : A → Type 0) where
  pub All-intro : (xs : List A) → ((x : A) → Memᴰ x xs → P x) → All P xs
  All-intro [] h = tt
  All-intro (x ∷ xs) h = (h x (head refl), All-intro xs (λ y m. h y (tail m)))

  pub All-elim : (x : A) (xs : List A) → All P xs → Memᴰ x xs → P x
  All-elim x [] a m = elim m [ ]
  All-elim x (y ∷ xs) a (head e) = subst P (sym e) a.0
  All-elim x (y ∷ xs) a (tail m) = All-elim x xs a.1 m

  All-join : (xs ys : List A) → All P xs → All P ys → All P (xs ++ ys)
  All-join [] ys a b = b
  All-join (x ∷ xs) ys a b = (a.0, All-join xs ys a.1 b)

  All-left : (xs ys : List A) → All P (xs ++ ys) → All P xs
  All-left [] ys a = tt
  All-left (x ∷ xs) ys a = (a.0, All-left xs ys a.1)

  All-right : (xs ys : List A) → All P (xs ++ ys) → All P ys
  All-right [] ys a = a
  All-right (x ∷ xs) ys a = All-right xs ys a.1

module _ (P : TypeObject → Type 0) where
  All-named : (ns : List ℕ) → ((n : ℕ) → Memᴰ n ns → P (named n)) → All P (map named ns)
  All-named [] h = tt
  All-named (n ∷ ns) h = (h n (head refl), All-named ns (λ k m. h k (tail m)))

  named-All : (n : ℕ) (ns : List ℕ) → All P (map named ns) → Memᴰ n ns → P (named n)
  named-All n [] a m = elim m [ ]
  named-All n (k ∷ ns) a (head e) = subst (λ j. P (named j)) (sym e) a.0
  named-All n (k ∷ ns) a (tail m) = named-All n ns a.1 m

  All-field_types :
      (fs : List FieldObject)
      → ((f : FieldObject) → Memᴰ f fs → P f.type × All P f.args)
      → All P (field_types fs)
  All-field_types [] h = tt
  All-field_types (f ∷ fs) h =
      let own = h f (head refl) in
      (own.0, All-join P f.args (field_types fs) own.1 (All-field_types fs (λ g m. h g (tail m))))

  field_types-All :
      (f : FieldObject) (fs : List FieldObject)
      → All P (field_types fs)
      → Memᴰ f fs
      → P f.type × All P f.args
  field_types-All f [] a m = elim m [ ]
  field_types-All f (g ∷ fs) a (head e) =
      subst (λ k. P k.type × All P k.args) (sym e) (a.0, All-left P g.args (field_types fs) a.1)
  field_types-All f (g ∷ fs) a (tail m) =
      field_types-All f fs (All-right P g.args (field_types fs) a.1) m

  -- What is referenced is held.
  pub All-referenced : (h : Holds) → ((t : TypeObject) → IsHeld t h → P t) → All P (referenced h)
  unfolding referenced
  All-referenced leaf_type k = tt
  All-referenced (union_of ts) k = All-named ts (λ n m. k (named n) (member m))
  All-referenced (fields_of is fs) k =
      All-join P (map named is) (field_types fs) (All-named is (λ n m. k (named n) (interface m))) (
        All-field_types fs
          (λ f m. (k f.type (field m), All-intro P f.args (λ t a. k t (argument m a)))))
  All-referenced (input_fields_of ts) k = All-intro P ts (λ t m. k t (input_field m))

  -- What is held is referenced.
  pub referenced-All : {t : TypeObject} {h : Holds} → All P (referenced h) → IsHeld t h → P t
  unfolding referenced
  referenced-All a (member {n = n} {ts = ts} m) = named-All n ts a m
  referenced-All a (interface {n = n} {is = is} {fs = fs} m) =
      named-All n is (All-left P (map named is) (field_types fs) a) m
  referenced-All a (field {f = f} {is = is} {fs = fs} m) =
      (field_types-All f fs (All-right P (map named is) (field_types fs) a) m).0
  referenced-All a (argument {t = t} {f = f} {is = is} {fs = fs} m d) =
      All-elim P t f.args (field_types-All f fs (All-right P (map named is) (field_types fs) a) m).1
        d
  referenced-All a (input_field {t = t} {ts = ts} m) = All-elim P t ts a m
