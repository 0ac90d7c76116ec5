-- ===== src/Prelude/Digits.antt =====
-- `|` on numbers whose digits do not overlap.
use Prim.Native.Nat.{
  ℕ, zero, suc, ◌+◌, ◌*◌, ◌/◌, ◌^◌, ◌≤◌, ◌<◌, max, digits, bit_or, bit_or-bitwise,
}
use mathlib.Core.Path.{◌≡◌, refl, ap, ◌∙◌}
use native.Mathlib.Nat.{pow-suc}
use native.Mathlib.Omega.{arith}

double : (q k : ℕ) → q * 2 ^ suc k ≡ 2 * (q * 2 ^ k)
double q k = omega (arith, ap (λ (x : ℕ). q * x) (pow-suc 2 k))

-- `n` digits are enough for `a`
or_digits : (n k q a r : ℕ) → a ≡ q * 2 ^ k → a ≤ n → r < 2 ^ k → digits (λ b. b) max n a r ≡ a + r
or_digits zero k q a r shifted le lt = omega arith
or_digits (suc n) k q zero r shifted le lt = omega arith
or_digits (suc n) zero q (suc a) r shifted le lt = omega (
  arith,
  or_digits n zero (suc a / 2) (suc a / 2) (r / 2) (omega arith) (omega arith) (omega arith),
)
or_digits (suc n) (suc k) q (suc a) r shifted le lt = omega (
  arith,
  double q k,
  pow-suc 2 k,
  or_digits n k q (suc a / 2) (r / 2) (omega (arith, double q k)) (omega arith)
      (omega (arith, pow-suc 2 k)),
)

pub bit_or-add : (k q r : ℕ) → r < 2 ^ k → bit_or (q * 2 ^ k) r ≡ q * 2 ^ k + r
bit_or-add k q r lt =
    bit_or-bitwise (q * 2 ^ k) r ∙ or_digits (q * 2 ^ k) k q (q * 2 ^ k) r refl (omega arith) lt
