-- ===== src/Execution/Serial.antt =====
-- Fields executed serially, against fields executed one beside the other.
use graphql_core.Prelude.{
  ℕ, zero, suc, ◌≡◌, refl, sym, ap, ◌∙◌, fun_ext, Option, none, some, List, [], ◌∷◌,
}
use graphql_core.Errors.{Text}
use graphql_core.Types.{Reference}
use graphql_core.Execution.{FieldPath, field_key, Value, Entries, end, entry}
use graphql_core.Execution.CollectedErrors.{CollectedErrors}
use graphql_core.Execution.Host.{Host, Outcome, done, raised, no_fuel, M, return, ◌>>=◌}
use graphql_core.Execution.Executor.{
  Run, GroupedFieldSet, execute_field, execute_groups, execute_fields, set_result, append_entries,
  reduce_groups, execute_fields_serially,
}

module _ {E A B : Type 0} where
  return_bind : (a : A) (f : A → M E B) → (return a >>= f) ≡ f a
  unfolding ◌>>=◌
  return_bind a f = fun_ext λ c. refl

module _ {E A B C : Type 0} where
  bind_assoc :
      (m : M E A) (f : A → M E B) (g : B → M E C) → ((m >>= f) >>= g) ≡ (m >>= λ a. f a >>= g)
  unfolding ◌>>=◌
  bind_assoc m f g = fun_ext λ c. go (m c)
    where
      go :
          (r : Outcome E A × CollectedErrors E)
          → ((λ (d : CollectedErrors E). r) >>= f >>= g) r.1
            ≡ ((λ (d : CollectedErrors E). r) >>= λ a. f a >>= g) r.1
      go (done a, d) = refl
      go (raised e, d) = refl
      go (no_fuel, d) = refl

  -- A last step that returns is applied to what the one before it returns.
  bind_return_bind :
      (m : M E A) (f : A → B) (g : B → C)
      → (m >>= (λ a. return (f a)) >>= λ b. return (g b)) ≡ (m >>= λ a. return (g (f a)))
  unfolding ◌>>=◌
  bind_return_bind m f g = fun_ext λ c. go (m c)
    where
      go :
          (r : Outcome E A × CollectedErrors E)
          → ((λ (d : CollectedErrors E). r) >>= (λ a. return (f a)) >>= λ b. return (g b)) r.1
            ≡ ((λ (d : CollectedErrors E). r) >>= λ a. return (g (f a))) r.1
      go (done a, d) = refl
      go (raised e, d) = refl
      go (no_fuel, d) = refl

module _ (host : Host) where
  open host use {V, E, L, D}

  append_entries_assoc :
      (a b c : Entries L)
      → append_entries host (append_entries host a b) c
        ≡ append_entries host a (append_entries host b c)
  append_entries_assoc end b c = refl
  append_entries_assoc (entry n v a) b c = ap (entry n v) (append_entries_assoc a b c)

  set_result-append :
      (n : Text) (r : Option (Value L)) (es : Entries L)
      → append_entries host (set_result host n r end) es ≡ set_result host n r es
  set_result-append n none es = refl
  set_result-append n (some v) es = refl

  append_entries-end : (a : Entries L) → append_entries host a end ≡ a
  append_entries-end end = refl
  append_entries-end (entry n v a) = ap (entry n v) (append_entries-end a)

  abbrev done_with : Entries L → Run host (Entries L)
  done_with es = return es

  reduce_groups_lem :
      (run : Reference → V → FieldPath → GroupedFieldSet host → Run host (Entries L))
      (o : Reference) (v : V) (path : FieldPath) (groups : List (Text × D)) (results : Entries L)
      → reduce_groups host run o v path groups results ≡ (
          execute_groups host run o v path groups >>= λ es. return (append_entries host results es))
  unfolding reduce_groups execute_groups
  reduce_groups_lem run o v path [] results =
      ap (done_with) (sym (append_entries-end results))
      ∙ sym (return_bind end (λ es. return (append_entries host results es)))
  reduce_groups_lem run o v path ((n, d) ∷ groups) results =
      let field : Run host (Option (Value L)) =
        execute_field host run o v d (field_key n o.name ∷ path) in
      let rest : Run host (Entries L) = execute_groups host run o v path groups in
      let add : Entries L → Run host (Entries L) = λ es. return (append_entries host results es) in
      let after : Option (Value L) → Entries L → Entries L =
        λ r es. append_entries host results (set_result host n r es) in
      let step : (r : Option (Value L))
          → reduce_groups host run o v path groups
              (append_entries host results (set_result host n r end))
            ≡ (rest >>= λ es. return (after r es)) =
        λ r.
          reduce_groups_lem run o v path groups
            (append_entries host results (set_result host n r end))
          ∙ ap (λ (f : Entries L → Entries L). rest >>= λ es. return (f es))
              (fun_ext λ es.
                append_entries_assoc results (set_result host n r end) es
                ∙ ap (append_entries host results) (set_result-append n r es)) in
      ap (λ (f : Option (Value L) → Run host (Entries L)). field >>= f)
        (fun_ext λ r.
          step r ∙ sym (bind_return_bind rest (set_result host n r) (append_entries host results)))
      ∙ sym (bind_assoc field (λ r. rest >>= λ es. return (set_result host n r es)) add)

  bind_return : {A : Type 0} (m : M E A) → (m >>= λ a. return a) ≡ m
  unfolding ◌>>=◌
  bind_return {A} m = fun_ext λ c. go (m c)
    where
      go :
          (r : Outcome E A × CollectedErrors E)
          → ((λ (d : CollectedErrors E). r) >>= λ a. return a) r.1 ≡ r
      go (done a, d) = refl
      go (raised e, d) = refl
      go (no_fuel, d) = refl

  -- Executing fields serially gives the same results in the same order, raises the same exception and
  -- collects the same errors as executing them one beside the other, where no value is awaitable.
  pub execute_fields_serially-eq :
      (fuel : ℕ) (o : Reference) (v : V) (path : FieldPath) (groups : List (Text × D))
      → execute_fields_serially host fuel o v path groups ≡ execute_fields host fuel o v path groups
  unfolding execute_fields_serially execute_fields
  execute_fields_serially-eq zero o v path groups = refl
  execute_fields_serially-eq (suc fuel) o v path groups =
      reduce_groups_lem (execute_fields host fuel) o v path groups end
      ∙ bind_return (execute_groups host (execute_fields host fuel) o v path groups)
