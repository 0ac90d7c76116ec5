-- ===== src/Index/Find/Path.antt =====
-- src-lib/bfndky.c: the leaf at which the search for an absent key ends.
use btlib.Prelude.{
  ℕ, zero, suc, ◌≤◌, ◌<◌, ◌≡◌, ◌⊎◌, inl, inr, refl, sym, ap, subst, ◌∙◌, true, some, ℤ, pos,
}
use btlib.Prelude.Keys.{Key}
use btlib.Consts.{znkeys}
use btlib.Machine.{Lf, MemRec}
use btlib.Index.Find.Tree.{Blocks}
use btlib.Index.Find.Gap.{IsGap}

-- In a tree of height `h` the gaps of `key` lead from the link to the leaf `b`.
abbrev pub Leads : Blocks → ℕ → ℤ → Key → ℕ → Type 0
Leads v zero link key b = ⊥
Leads v (suc zero) link key b = link ≡ pos b
Leads v (suc (suc h)) link key b =
    (c : ℕ) × (n : ℕ) × (m : MemRec) × (g : ℕ) × (link ≡ pos c)
    × (v c ≡ some m)
    × (m.infblk znkeys ≡ pos n)
    × IsGap m n g key
    × Leads v (suc h) (m.lnkblk g) key b

-- a position at a link of the block, unless the block is empty
abbrev pub IsLink : Blocks → ℕ → ℤ → Type 0
IsLink v b lfpos =
    (n : ℕ) × (m : MemRec) × (v b ≡ some m)
    × (m.infblk znkeys ≡ pos n)
    × ((n ≡ 0) ⊎ ((p : ℕ) × (lfpos ≡ pos p) × (p ≤ n)))

-- The search for `key` below the link, from the context `f`, ends in the context `g`.
abbrev pub Ends : Blocks → ℕ → ℤ → Key → Lf → Lf → Type 0
Ends v zero link key f g = g ≡ f
Ends v (suc h) link key f g =
    (b : ℕ) × Leads v (suc h) link key b × (g.lfblk ≡ pos b) × IsLink v b g.lfpos

-- The context `f` is at an entry of `key` in the tree.
abbrev pub Stands : Blocks → ℕ → ℤ → Key → Lf → Type 0
Stands v zero link key f = ⊥
Stands v (suc h) link key f =
    (b : ℕ) × (n : ℕ) × (m : MemRec) × (link ≡ pos b)
    × (v b ≡ some m)
    × (m.infblk znkeys ≡ pos n)
    × (((l : ℕ) × (l < n)
          × ((m.keyblk l).key ≡ key)
          × (f.lfblk ≡ pos b)
          × (f.lfpos ≡ pos l)
          × (f.lfexct ≡ true))
        ⊎ ((i : ℕ) × (i ≤ n) × Stands v h (m.lnkblk i) key f))

pub Ends-below :
    (v : Blocks) (h b n g : ℕ) (m : MemRec) (key : Key) (start f f' : Lf)
    → v b ≡ some m
    → m.infblk znkeys ≡ pos n
    → IsGap m n g key
    → f.lfblk ≡ pos b
    → f.lfpos ≡ pos g
    → Ends v h (m.lnkblk g) key f f'
    → Ends v (suc h) (pos b) key start f'
Ends-below v zero b n g m key start f f' at count gap blk position e = (
  b,
  refl,
  ap (λ (c : Lf). c.lfblk) e ∙ blk,
  (n, m, at, count, inr (g, ap (λ (c : Lf). c.lfpos) e ∙ position, gap.inside)),
)
Ends-below v (suc h) b n g m key start f f' at count gap blk position (b', leads, blk', link) =
    (b', (b, n, m, g, refl, at, count, gap, leads), blk', link)

-- in an empty leaf
pub Ends-empty :
    (v : Blocks) (h b n : ℕ) (m : MemRec) (key : Key) (start f : Lf)
    → v b ≡ some m
    → m.infblk znkeys ≡ pos n
    → n ≡ 0
    → h ≡ 0
    → f.lfblk ≡ pos b
    → Ends v (suc h) (pos b) key start f
Ends-empty v h b n m key start f at count empty leaf blk = (
  b,
  subst (λ k. Leads v (suc k) (pos b) key b) (sym leaf) refl,
  blk,
  (n, m, at, count, inl empty),
)
