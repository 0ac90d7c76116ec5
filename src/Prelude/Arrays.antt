-- ===== src/Prelude/Arrays.antt =====
-- C arrays as functions from the index, lists measured by native numbers, and the scan of an array
-- for the first index that passes a test.
use Prim.Native.Nat.{ℕ, zero, suc, ◌+◌, ◌≤◌, ◌<◌}
use mathlib.Core.Path.{◌≡◌}
use mathlib.Core.Bool.{Bool, true, false}
use mathlib.Core.Option.{Option, none, some}
use mathlib.Core.List.{List, [], ◌∷◌, ◌++◌}
use native.Mathlib.Omega.{arith}
use btlib.Prelude.Tests.{◌==◌, if◌then◌else◌}

module _ {ℓ} {A : Type ℓ} where
  -- `a[i] = v`
  abbrev pub set : (ℕ → A) → ℕ → A → ℕ → A
  set a i v j = if j == i then v else a j

  abbrev pub length : List A → ℕ
  length [] = 0
  length (x ∷ xs) = suc (length xs)

  abbrev pub take : ℕ → List A → List A
  take zero xs = []
  take (suc n) [] = []
  take (suc n) (x ∷ xs) = x ∷ take n xs

module _ {ℓ} {A : Type ℓ} where
  pub length-append : (xs ys : List A) → length (xs ++ ys) ≡ length xs + length ys
  length-append [] ys = omega arith
  length-append (x ∷ xs) ys = omega (arith, length-append xs ys)

-- `for (i = lo; i < lo + n; i++) if (p i) break;`
unfoldable pub first_from : ℕ → ℕ → (ℕ → Bool) → Option ℕ
first_from zero lo p = none
first_from (suc n) lo p = let rest = first_from n (suc lo) p in if p lo then some lo else rest

pub first_from-some :
    (n lo : ℕ) (p : ℕ → Bool) {i : ℕ}
    → first_from n lo p ≡ some i
    → (p i ≡ true) × (lo ≤ i) × (i < lo + n)
unfolding first_from
first_from-some zero lo p h = ground arith
first_from-some (suc n) lo p {i} h = ground (arith, first_from-some n (suc lo) p {i = i})

pub first_from-none :
    (n lo : ℕ) (p : ℕ → Bool) (i : ℕ) → first_from n lo p ≡ none → lo ≤ i → i < lo + n → p i ≡ false
unfolding first_from
first_from-none zero lo p i h a b = absurd (omega arith)
first_from-none (suc n) lo p i h a b = ground (arith, first_from-none n (suc lo) p i)
