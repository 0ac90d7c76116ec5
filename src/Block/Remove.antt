-- ===== src/Block/Remove.antt =====
-- src-lib/bremky.c: a key is taken out of a block.
use btlib.Prelude.{
  ℕ, zero, suc, ◌+◌, ◌-◌, ◌≤◌, ◌<◌, ◌≡◌, inl, inr, refl, ◌∙◌, ◌&&◌, pos, set, ltb, leb,
  if◌then◌else◌, arith, Bool-cases,
}
use btlib.Consts.{znkeys}
use btlib.Machine.{MemRec}
use btlib.Block.{close_gap, remove_key}
use btlib.Block.Search.{IsOrdered}

-- the elements behind `i` move down one place, the others stay
pub close_gap_lem {ℓ} :
    {A : Type ℓ} (n i : ℕ) (a : ℕ → A) (j : ℕ)
    → close_gap n i a j ≡ (if leb i j && ltb j (i + n) then a (suc j) else a j)
unfolding close_gap
close_gap_lem zero i a j = ground arith
close_gap_lem (suc n) i a j = ground (arith, close_gap_lem n (suc i) (set a i (a (suc i))) j)

-- The key at `p` is gone from the `n + 1` keys, and the others keep their order.
pub record Removed (n p : ℕ) (m m' : MemRec) : Type 0 where
  pub below : (j : ℕ) → j < p → m'.keyblk j ≡ m.keyblk j
  pub above : (j : ℕ) → p ≤ j → j < n → m'.keyblk j ≡ m.keyblk (suc j)
  pub links_below : (j : ℕ) → j ≤ p → m'.lnkblk j ≡ m.lnkblk j
  pub links_above : (j : ℕ) → p < j → j ≤ n → m'.lnkblk j ≡ m.lnkblk (suc j)
  pub count : m'.infblk znkeys ≡ pos n

pub remove_key-Removed : (n p : ℕ) (m : MemRec) → p ≤ n → Removed n p m (remove_key n p m)
unfolding remove_key
remove_key-Removed n p m le = record {
  below = λ j q. close_gap_lem (n - p) p m.keyblk j ∙ ground arith;
  above = λ j q w. close_gap_lem (n - p) p m.keyblk j ∙ ground arith;
  links_below = λ j q. close_gap_lem (n - p) (suc p) m.lnkblk j ∙ ground arith;
  links_above = λ j q w. close_gap_lem (n - p) (suc p) m.lnkblk j ∙ ground arith;
  count = refl;
}

Removed-IsOrdered :
    (n p : ℕ) (m m' : MemRec)
    → Removed n p m m'
    → IsOrdered m.keyblk (suc n)
    → IsOrdered m'.keyblk n
Removed-IsOrdered n p m m' r ordered i j lt le = elim (Bool-cases (ltb j p)) [
  | inl f ↦ ground (arith, f, r.below i, r.below j, ordered i j lt)
  | inr f ↦ elim (Bool-cases (ltb i p)) [
    | inl g ↦ ground (arith, f, g, r.below i, r.above j, ordered i (suc j))
    | inr g ↦ ground (arith, f, g, r.above i, r.above j, ordered (suc i) (suc j))
  ]
]

-- Given a position among the `n + 1` keys of a block in strcmp order, `remove_key` takes the key at
-- that position out, with the link to its right, and the `n` keys left are in order.
pub remove_key-IsOrdered :
    (n p : ℕ) (m : MemRec)
    → p ≤ n
    → IsOrdered m.keyblk (suc n)
    → Removed n p m (remove_key n p m) × IsOrdered (remove_key n p m).keyblk n
remove_key-IsOrdered n p m le ordered = (
  remove_key-Removed n p m le,
  Removed-IsOrdered n p m (remove_key n p m) (remove_key-Removed n p m le) ordered,
)
