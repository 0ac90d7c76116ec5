-- ===== src/Block/Linear.antt =====
-- The binary search of src-lib/bsrhbk.c against a search from the first key on.
use Prim.Native.Nat.{Ordering}
use mathlib.Core.Option
use btlib.Prelude.{
  ℕ, zero, suc, ◌+◌, ◌≤◌, ◌<◌, ◌≡◌, refl, ap, ◌∙◌, Bool, true, false, ◌&&◌, some, ℤ, pos, negsuc,
  ltb, ◌==◌, inl, inr, sym, subst, Bool-cases, arith,
}
use btlib.Prelude.Keys.{Key, strcmp, ◌≺◌, strcmp_refl, strcmp-lt, ≺_trans}
use btlib.Machine.{KeyEnt}
use btlib.Block.{bin_search}
use btlib.Block.Search.{IsOrdered, Located, bin_search-block, irreflexive, opposed}

-- from `i` on, how far the keys are smaller than `key`
pub scan : ℕ → ℕ → (ℕ → KeyEnt) → Key → ℕ
scan zero i a key = i
scan (suc n) i a key = elim (strcmp (a i).key key) [ Ordering.lt ↦ scan n (suc i) a key | _ ↦ i ]

abbrev pub is_eq : Ordering → Bool
is_eq Ordering.eq = true
is_eq _ = false

-- Where the key belongs in a block of `n` keys, and whether it stands there.
pub linear_search : (ℕ → KeyEnt) → ℕ → Key → ℕ × Bool
unfolding scan
linear_search a n key = let i = scan n 0 a key in (i, ltb i n && is_eq (strcmp (a i).key key))

-- the same, told by a location and a result
abbrev pub answer : ℤ × Ordering → ℕ × Bool
answer (negsuc _, r) = (0, is_eq r)
answer (pos l, Ordering.gt) = (suc l, false)
answer (pos l, Ordering.lt) = (l, false)
answer (pos l, Ordering.eq) = (l, true)

scan-place :
    (n i g : ℕ) (a : ℕ → KeyEnt) (key : Key)
    → ((j : ℕ) → i ≤ j → j < g → (a j).key ≺ key)
    → (g < i + n → ¬ ((a g).key ≺ key))
    → i ≤ g
    → g ≤ i + n
    → scan n i a key ≡ g
unfolding scan
scan-place zero i g a key below stop le le' = omega arith
scan-place (suc n) i g a key below stop le le' = elim (Bool-cases (ltb i g)) [
  | inl f ↦
      rw (below i (omega arith) (ground (arith, f)), scan)
        (scan-place n (suc i) g a key (λ j p q. below j (omega arith) q) (λ p. stop (omega arith))
          (ground (arith, f)) (omega arith))
  | inr f ↦ let here : i ≡ g = ground (arith, f) in ground (arith, stop (omega arith), here)
]

module _ (a : ℕ → KeyEnt) (n : ℕ) (key : Key) (ordered : IsOrdered a n) where
  linear_at :
      (g : ℕ)
      → g ≤ n
      → ((j : ℕ) → j < g → (a j).key ≺ key)
      → (g < n → ¬ ((a g).key ≺ key))
      → linear_search a n key ≡ (g, ltb g n && is_eq (strcmp (a g).key key))
  unfolding linear_search
  linear_at g le below stop =
      ap (λ i. (i, ltb i n && is_eq (strcmp (a i).key key)))
        (scan-place n 0 g a key (λ j p q. below j q) (λ p. stop (omega arith)) (omega arith)
          (omega arith))

  -- the entry behind a location with the result `gt` is another one
  behind :
      (l : ℕ)
      → ((i : ℕ) → l < i → i < n → key ≺ (a i).key)
      → (ltb (suc l) n && is_eq (strcmp (a (suc l)).key key)) ≡ false
  behind l above = elim (Bool-cases (ltb (suc l) n)) [
    | inl e ↦
        rw (strcmp-lt key (a (suc l)).key (above (suc l) (omega arith) (ground (arith, e))))
          (ground arith)
    | inr e ↦ rw e refl
  ]

  -- what the location and the result tell is what the search from the first key tells
  Located-linear :
      (loc : ℤ) (r : Ordering) → Located a n key loc r → answer (loc, r) ≡ linear_search a n key
  Located-linear (negsuc k) r at = ground (
    arith,
    at.1,
    linear_at 0 (omega arith) (λ j p. absurd (omega arith)) (λ p. absurd (omega (arith, at.0, p))),
  )
  Located-linear (pos l) Ordering.eq at = sym (
      linear_at l (omega (arith, at.0))
        (λ j p. subst (λ x. (a j).key ≺ x) at.1 (ordered j l p at.0))
        (λ p q. irreflexive key (subst (λ x. x ≺ key) at.1 q))
      ∙ ap (λ b. (l, b)) (ground (arith, at.0, ap (λ x. strcmp x key) at.1, strcmp_refl key)))
  Located-linear (pos l) Ordering.lt at = sym (
      linear_at l (omega (arith, at.0)) at.2 (λ p q. opposed key (a l).key at.1 q)
      ∙ ap (λ b. (l, b)) (ground (arith, at.0, strcmp-lt key (a l).key at.1)))
  Located-linear (pos l) Ordering.gt at = sym (
      linear_at (suc l) at.0
        (λ j p. elim (Bool-cases (j == l)) [
          | inl e ↦ ground (arith, e, at.1)
          | inr e ↦ ≺_trans (a j).key (a l).key key (ordered j l (ground (arith, e)) at.0) at.1
        ])
        (λ p q. opposed key (a (suc l)).key (at.2 (suc l) (omega arith) p) q)
      ∙ ap (λ b. (suc l, b)) (behind l at.2))

-- In a block with `n` keys in strcmp order, the search of `bsrhbk` with more than `n` rounds tells
-- the same as a search from the first key on: how many keys are smaller, and whether the next key
-- is the one sought.
pub bin_search-linear :
    (a : ℕ → KeyEnt) (n k : ℕ) (key : Key)
    → IsOrdered a n
    → n < k
    → Option.map answer (bin_search k a key 0 n false (negsuc 0) Ordering.lt)
      ≡ some (linear_search a n key)
bin_search-linear a n k key ordered f =
    let (loc, r, run, at) = bin_search-block a n k key ordered f in
    ap (Option.map answer) run ∙ ap some (Located-linear a n key ordered loc r at)
