-- ===== src/Machine/Returns.antt =====
-- Total correctness of a run: no fault, enough fuel, and a postcondition.
use btlib.Prelude.{◌≡◌, refl}
use btlib.Machine.{State, Run, ok, M, and_then}

pub data Returns {A : Type 0} (P : A → State → Type 0) : Run A → Type 0 where
  returns : {a : A} {s : State} → P a s → Returns P (ok a s)

module _ {A : Type 0} {P : A → State → Type 0} where
  pub bind :
      {B : Type 0} {Q : B → State → Type 0} {r : Run A} {k : A → M B}
      → Returns P r
      → ((a : A) (s : State) → P a s → Returns Q (k a s))
      → Returns Q (and_then r k)
  bind (returns p) next = next _ _ p

  pub mono :
      {Q : A → State → Type 0} {r : Run A}
      → Returns P r
      → ((a : A) (s : State) → P a s → Q a s)
      → Returns Q r
  mono (returns p) weaken = returns (weaken _ _ p)

  -- what the run yields
  pub outcome : {r : Run A} → Returns P r → (a : A) × (s : State) × (r ≡ ok a s) × P a s
  outcome (returns p) = (_, _, refl, p)
