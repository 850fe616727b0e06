-- ===== src/Execution/Runs.antt =====
-- Rules for what a computation of the executor gives, whatever errors were collected before.
use graphql_core.Prelude.{◌≡◌, refl, none, ◌⊎◌, inl, inr}
use graphql_core.Execution.{Raised, Reason}
use graphql_core.Execution.CollectedErrors.{CollectedErrors}
use graphql_core.Execution.Positions.{IsConsistent}
use graphql_core.Execution.Host.{
  Outcome, done, raised, no_fuel, M, return, raise, ◌>>=◌, try_except, call,
}

-- A result that satisfies `P`, or an exception; the fuel is not exhausted.
pub data Finishes {E A : Type 0} (P : A → Type 0) : Outcome E A → Type 0 where
  finishes_done : {a : A} → P a → Finishes P (done a)
  finishes_raised : (e : Raised E) → Finishes P (raised e)

pub record IsSafeAt {E A : Type 0} (P : A → Type 0) (r : Outcome E A × CollectedErrors E)
    : Type 0 where
  pub finishes : Finishes P r.0
  pub consistent : IsConsistent r.1

-- From consistent errors, the computation finishes with consistent errors.
pub record IsSafe {E A : Type 0} (P : A → Type 0) (m : M E A) : Type 0 where
  pub at : (c : CollectedErrors E) → IsConsistent c → IsSafeAt P (m c)

module _ {E A : Type 0} where
  pub return-IsSafe : {P : A → Type 0} {a : A} → P a → IsSafe {E = E} P (return a)
  return-IsSafe p = record { at = λ c h. record { finishes = finishes_done p; consistent = h } }

  pub raise-IsSafe : {P : A → Type 0} (r : Reason E) → IsSafe {E = E} P (raise r)
  raise-IsSafe r = record {
    at = λ c h. record {
      finishes = finishes_raised (record { reason = r; location = none });
      consistent = h;
    };
  }

  pub call-IsSafe :
      (P : A → Type 0) (r : E ⊎ A) → ((a : A) → r ≡ inr a → P a) → IsSafe {E = E} P (call r)
  call-IsSafe P (inl e) h = raise-IsSafe (Reason.raised_by e)
  call-IsSafe P (inr a) h = return-IsSafe (h a refl)

  pub bind-IsSafe :
      {B : Type 0} (P : A → Type 0) {Q : B → Type 0} {m : M E A} {f : A → M E B}
      → IsSafe P m
      → ((a : A) → P a → IsSafe Q (f a))
      → IsSafe Q (m >>= f)
  unfolding ◌>>=◌
  bind-IsSafe {B} P {Q} {m} {f} safe next = record { at = λ c h. go (m c) (safe.at c h) }
    where
      after : (r : Outcome E A × CollectedErrors E) → Outcome E B × CollectedErrors E
      after r = elim r.0 [
        | done a ↦ f a r.1
        | raised e ↦ (raised e, r.1)
        | no_fuel ↦ (no_fuel, r.1)
      ]

      go' :
          (o : Outcome E A) (c : CollectedErrors E)
          → Finishes P o
          → IsConsistent c
          → IsSafeAt Q (after (o, c))
      go' _ c (finishes_done {a = a} p) h = (next a p).at c h
      go' _ c (finishes_raised e) h = record { finishes = finishes_raised e; consistent = h }

      go : (r : Outcome E A × CollectedErrors E) → IsSafeAt P r → IsSafeAt Q (after r)
      go r s = go' r.0 r.1 s.finishes s.consistent

  pub try_except-IsSafe :
      {P : A → Type 0} {m : M E A} {handle : Raised E → M E A}
      → IsSafe P m
      → ((e : Raised E) → IsSafe P (handle e))
      → IsSafe P (try_except m handle)
  unfolding try_except
  try_except-IsSafe {P} {m} {handle} safe next = record { at = λ c h. go (m c) (safe.at c h) }
    where
      after : (r : Outcome E A × CollectedErrors E) → Outcome E A × CollectedErrors E
      after r = elim r.0 [
        | done a ↦ (done a, r.1)
        | raised e ↦ handle e r.1
        | no_fuel ↦ (no_fuel, r.1)
      ]

      go' :
          (o : Outcome E A) (c : CollectedErrors E)
          → Finishes P o
          → IsConsistent c
          → IsSafeAt P (after (o, c))
      go' _ c (finishes_done p) h = record { finishes = finishes_done p; consistent = h }
      go' _ c (finishes_raised e) h = (next e).at c h

      go : (r : Outcome E A × CollectedErrors E) → IsSafeAt P r → IsSafeAt P (after r)
      go r s = go' r.0 r.1 s.finishes s.consistent

  Finishes-weaken :
      {P Q : A → Type 0} → ((a : A) → P a → Q a) → {o : Outcome E A} → Finishes P o → Finishes Q o
  Finishes-weaken h (finishes_done {a = a} p) = finishes_done (h a p)
  Finishes-weaken h (finishes_raised e) = finishes_raised e

  pub IsSafe-weaken :
      {P Q : A → Type 0} {m : M E A} → ((a : A) → P a → Q a) → IsSafe P m → IsSafe Q m
  IsSafe-weaken h safe = record {
    at = λ c k.
        let s = safe.at c k in
        record { finishes = Finishes-weaken h s.finishes; consistent = s.consistent };
  }
