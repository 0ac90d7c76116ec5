-- ===== src/Prelude/Keys.antt =====
-- Keys: NUL-terminated byte strings of less than ZKYLEN bytes, and the C library's order on them.
use Prim.Native.Nat.{ℕ, compare, Ordering}
use mathlib.Core.Path.{◌≡◌, refl}
use mathlib.Core.List.{List, [], ◌∷◌}
use native.Mathlib.Omega.{arith}

-- The bytes before the NUL.
abbrev pub Key : Type 0
Key = List ℕ

-- The sign of `strcmp(a, b)`: `lt` for a negative result, `eq` for 0, `gt` for a positive one.
unfoldable pub strcmp : Key → Key → Ordering
strcmp [] [] = Ordering.eq
strcmp [] (y ∷ b) = Ordering.lt
strcmp (x ∷ a) [] = Ordering.gt
strcmp (x ∷ a) (y ∷ b) = elim (compare x y) [
  | Ordering.lt ↦ Ordering.lt
  | Ordering.eq ↦ strcmp a b
  | Ordering.gt ↦ Ordering.gt
]

infix 4 ◌≺◌
-- `a` sorts before `b`.
abbrev pub ◌≺◌ : Key → Key → Type 0
a ≺ b = strcmp a b ≡ Ordering.lt

pub strcmp_refl : (a : Key) → strcmp a a ≡ Ordering.eq
unfolding strcmp
strcmp_refl [] = refl
strcmp_refl (x ∷ a) = ground (arith, strcmp_refl a)

pub eq_of_strcmp : (a b : Key) → strcmp a b ≡ Ordering.eq → a ≡ b
unfolding strcmp
eq_of_strcmp [] [] h = refl
eq_of_strcmp [] (y ∷ b) h = ground arith
eq_of_strcmp (x ∷ a) [] h = ground arith
eq_of_strcmp (x ∷ a) (y ∷ b) h = ground (arith, eq_of_strcmp a b)

pub strcmp-gt : (a b : Key) → strcmp a b ≡ Ordering.gt → b ≺ a
unfolding strcmp
strcmp-gt [] [] h = ground arith
strcmp-gt [] (y ∷ b) h = ground arith
strcmp-gt (x ∷ a) [] h = refl
strcmp-gt (x ∷ a) (y ∷ b) h = ground (arith, strcmp-gt a b)

pub strcmp-lt : (a b : Key) → a ≺ b → strcmp b a ≡ Ordering.gt
unfolding strcmp
strcmp-lt [] [] h = ground arith
strcmp-lt [] (y ∷ b) h = refl
strcmp-lt (x ∷ a) [] h = ground arith
strcmp-lt (x ∷ a) (y ∷ b) h = ground (arith, strcmp-lt a b)

pub ≺_trans : (a b c : Key) → a ≺ b → b ≺ c → a ≺ c
unfolding strcmp
≺_trans [] [] c h k = ground arith
≺_trans [] (y ∷ b) [] h k = ground arith
≺_trans [] (y ∷ b) (z ∷ c) h k = refl
≺_trans (x ∷ a) [] c h k = ground arith
≺_trans (x ∷ a) (y ∷ b) [] h k = ground arith
≺_trans (x ∷ a) (y ∷ b) (z ∷ c) h k = ground (arith, ≺_trans a b c)
