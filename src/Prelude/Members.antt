-- ===== src/Prelude/Members.antt =====
-- Lists of slot numbers: membership as a test, lists with no repetition, the move to the back.
use Prim.Native.Nat.{ℕ, suc}
use mathlib.Core.Path.{◌≡◌, refl}
use mathlib.Core.Logic.{◌≢◌}
use mathlib.Core.Bool.{Bool, true, false, ◌||◌}
use mathlib.Core.Option.{Option, none, some}
use mathlib.Core.List.{List, [], ◌∷◌, ◌++◌}
use native.Mathlib.Omega.{arith}
use btlib.Prelude.Tests.{◌==◌, if◌then◌else◌}
use btlib.Prelude.Arrays.{length}

abbrev pub has : ℕ → List ℕ → Bool
has a [] = false
has a (x ∷ xs) = (x == a) || has a xs

-- No element stands twice.
abbrev pub Distinct : List ℕ → Type 0
Distinct [] = Unit {0}
Distinct (x ∷ xs) = (has x xs ≡ false) × Distinct xs

abbrev pub erase : ℕ → List ℕ → List ℕ
erase a [] = []
erase a (x ∷ xs) = if x == a then xs else x ∷ erase a xs

abbrev pub last : List ℕ → Option ℕ
last [] = none
last (x ∷ []) = some x
last (x ∷ (y ∷ ys)) = last (y ∷ ys)

-- `a` goes behind all others.
abbrev pub to_back : ℕ → List ℕ → List ℕ
to_back a xs = erase a xs ++ (a ∷ [])

pub has-erase_ne : (a b : ℕ) (xs : List ℕ) → a ≢ b → has b (erase a xs) ≡ has b xs
has-erase_ne a b [] h = refl
has-erase_ne a b (x ∷ xs) h = ground (arith, has-erase_ne a b xs h)

pub has-erase_self : (a : ℕ) (xs : List ℕ) → Distinct xs → has a (erase a xs) ≡ false
has-erase_self a [] d = refl
has-erase_self a (x ∷ xs) d = ground (arith, has-erase_self a xs d.1)

pub erase-Distinct : (a : ℕ) (xs : List ℕ) → Distinct xs → Distinct (erase a xs)
erase-Distinct a [] d = tt
erase-Distinct a (x ∷ xs) d = ground (arith, erase-Distinct a xs d.1, has-erase_ne a x xs)

pub has-snoc : (a b : ℕ) (xs : List ℕ) → has b (xs ++ (a ∷ [])) ≡ (has b xs || (a == b))
has-snoc a b [] = ground arith
has-snoc a b (x ∷ xs) = ground (arith, has-snoc a b xs)

pub snoc-Distinct :
    (a : ℕ) (xs : List ℕ) → Distinct xs → has a xs ≡ false → Distinct (xs ++ (a ∷ []))
snoc-Distinct a [] d h = (refl, tt)
snoc-Distinct a (x ∷ xs) d h = ground (arith, snoc-Distinct a xs d.1, has-snoc a x xs)

pub last-snoc : (a : ℕ) (xs : List ℕ) → last (xs ++ (a ∷ [])) ≡ some a
last-snoc a [] = refl
last-snoc a (x ∷ []) = refl
last-snoc a (x ∷ (y ∷ xs)) = last-snoc a (y ∷ xs)

pub length-to_back : (a : ℕ) (xs : List ℕ) → has a xs ≡ true → length (to_back a xs) ≡ length xs
length-to_back a [] h = ground arith
length-to_back a (x ∷ xs) h = ground (arith, length-to_back a xs, length-snoc a xs)
  where
    length-snoc : (b : ℕ) (ys : List ℕ) → length (ys ++ (b ∷ [])) ≡ suc (length ys)
    length-snoc b [] = refl
    length-snoc b (y ∷ ys) = ground (arith, length-snoc b ys)

pub has-last : (a : ℕ) (xs : List ℕ) → last xs ≡ some a → has a xs ≡ true
has-last a [] h = ground arith
has-last a (x ∷ []) h = ground arith
has-last a (x ∷ (y ∷ xs)) h = ground (arith, has-last a (y ∷ xs) h)

-- Moving the last element to the back changes nothing.
pub to_back-last : (a : ℕ) (xs : List ℕ) → Distinct xs → last xs ≡ some a → to_back a xs ≡ xs
to_back-last a [] d h = ground arith
to_back-last a (x ∷ []) d h = ground arith
to_back-last a (x ∷ (y ∷ xs)) d h =
    ground (arith, to_back-last a (y ∷ xs) d.1 h, has-last a (y ∷ xs) h)

pub last-erase : (a t : ℕ) (xs : List ℕ) → last xs ≡ some t → t ≢ a → last (erase a xs) ≡ some t
last-erase a t [] h ne = ground arith
last-erase a t (x ∷ []) h ne = ground arith
last-erase a t (x ∷ (y ∷ [])) h ne = ground arith
last-erase a t (x ∷ (y ∷ (z ∷ xs))) h ne = ground (arith, last-erase a t (y ∷ (z ∷ xs)) h ne)

pub has-to_back :
    (a b : ℕ) (xs : List ℕ) → Distinct xs → has a xs ≡ true → has b (to_back a xs) ≡ has b xs
has-to_back a b xs d h =
    ground (arith, has-snoc a b (erase a xs), has-erase_ne a b xs, has-erase_self a xs d, h)

pub to_back-Distinct : (a : ℕ) (xs : List ℕ) → Distinct xs → Distinct (to_back a xs)
to_back-Distinct a xs d =
    snoc-Distinct a (erase a xs) (erase-Distinct a xs d) (has-erase_self a xs d)

pub last-cons : (x : ℕ) (xs : List ℕ) → (t : ℕ) × (last (x ∷ xs) ≡ some t)
last-cons x [] = (x, refl)
last-cons x (y ∷ xs) = last-cons y xs
