-- ===== src/Index/Find/Tree.antt =====
-- The search tree that an index stores below a link: what keys it has, and when it is in order.
use btlib.Prelude.{ℕ, zero, suc, ◌≤◌, ◌<◌, ◌≡◌, ◌⊎◌, Bool, false, ◌&&◌, Option, some, ℤ, pos, ◌==◌}
use btlib.Prelude.Keys.{Key, ◌≺◌}
use btlib.Consts.{zmxkey, znull, znkeys}
use btlib.Machine.{MemRec}
use btlib.Block.Stored.{IsNode}

-- what an index stores
abbrev pub Blocks : Type 0
Blocks = ℕ → Option MemRec

-- `key` stands with the value `x` in the block, or below one of its links
abbrev pub HasKey : (ℤ → Key → ℤ → Type 0) → MemRec → ℕ → Key → ℤ → Type 0
HasKey below m n key x =
    ((i : ℕ) × (i < n) × ((m.keyblk i).key ≡ key) × ((m.keyblk i).val ≡ x))
    ⊎ ((i : ℕ) × (i ≤ n) × below (m.lnkblk i) key x)

-- `key` has the value `x` in the tree of height `h` below a link.
abbrev pub Has : Blocks → ℕ → ℤ → Key → ℤ → Type 0
Has v zero link key x = ⊥
Has v (suc h) link key x =
    (b : ℕ) × (n : ℕ) × (m : MemRec) × (link ≡ pos b)
    × (v b ≡ some m)
    × (m.infblk znkeys ≡ pos n)
    × HasKey (Has v h) m n key x

-- A block in a tree: the keys below a link lie between the keys on its two sides, an empty block is
-- a leaf, no key has duplicates, and where full blocks would be split (`w`) it is not full.
pub record IsInner (v : Blocks) (w : Bool) (h : ℕ) (child : ℤ → Type 0) (m : MemRec) (n : ℕ)
    : Type 0 where
  pub node : IsNode m n
  pub single : (i : ℕ) → i < n → (m.keyblk i).dup ≡ znull
  pub room : ((n == zmxkey) && w) ≡ false
  pub empty_leaf : n ≡ 0 → h ≡ 0
  pub children : (i : ℕ) → 0 < n → i ≤ n → child (m.lnkblk i)
  pub after :
      (i j : ℕ) (key : Key) (x : ℤ)
      → i ≤ n
      → Has v h (m.lnkblk i) key x
      → j < i
      → (m.keyblk j).key ≺ key
  pub before :
      (i j : ℕ) (key : Key) (x : ℤ)
      → i ≤ n
      → Has v h (m.lnkblk i) key x
      → i ≤ j
      → j < n
      → key ≺ (m.keyblk j).key

-- Below the link is a search tree of height `h`.
abbrev pub IsTree : Blocks → Bool → ℕ → ℤ → Type 0
IsTree v w zero link = link ≡ znull
IsTree v w (suc h) link =
    (b : ℕ) × (n : ℕ) × (m : MemRec) × (link ≡ pos b)
    × (v b ≡ some m)
    × IsInner v w h (IsTree v w h) m n
