-- ===== src/Index/Insert/Place.antt =====
-- src-lib/binsky.c: a key is put into the leaf at which the search for it ended.
use btlib.Prelude.{
  ℕ, zero, suc, ◌≤◌, ◌<◌, ◌≡◌, ◌⊎◌, refl, sym, ap, subst, ◌∙◌, Bool, true, false, ◌&&◌, ◌==◌,
  Option, some, ℤ, pos, arith,
}
use btlib.Prelude.Keys.{Key}
use btlib.Consts.{zmxkey, znull, znkeys}
use btlib.Consts.Codes.{qnokey}
use btlib.Machine.{State, KeyEnt, MemRec, ok}
use btlib.Machine.Returns
use btlib.Machine.Returns.{Returns, returns, outcome}
use btlib.Cache.View.{view, IsCache}
use btlib.Info.Touch.{Written}
use btlib.Info.Words.{Written-later}
use btlib.Block.{bputky, copy_key, put_key}
use btlib.Block.Stored.{bputky-Written}
use btlib.Dups.{DupStore}
use btlib.Index.Leaf.{bleaf}
use btlib.Index.Leaf.Still.{bleaf-Unchanged}
use btlib.Index.Find.Tree.{Blocks, IsTree, IsInner}
use btlib.Index.Find.Gap.{magnitude, same_block}
use btlib.Index.Find.Path.{Leads, IsLink}
use btlib.Index.Insert.{place}
use btlib.Index.Insert.Apart.{some_keys}

-- the block where a search in a tree ends
pub leaf_block :
    (v : Blocks) (w : Bool) (h : ℕ) (link : ℤ) (key : Key) (b : ℕ)
    → IsTree v w h link
    → Leads v h link key b
    → (n : ℕ) × (m : MemRec) × (v b ≡ some m) × IsInner v w 0 (IsTree v w 0) m n
leaf_block v w zero link key b tree leads = absurd leads
leaf_block v w (suc zero) link key b (c, n, m, e, at, inner) leads =
    let same : c ≡ b = ap magnitude (sym e ∙ leads) in
    (n, m, subst (λ j. v j ≡ some m) same at, inner)
leaf_block v w (suc (suc h)) link key b (c', n', m', e', at', inner')
      (c, n, m, g, e, at, count, gap, leads) =
    let (_, en, em) = same_block v link c' c n' n m' m e' e at' at inner'.node.count count in
    let inner : IsInner v w (suc h) (IsTree v w (suc h)) m n =
      subst (λ y. IsInner v w (suc h) (IsTree v w (suc h)) y n) em
        (subst (λ k. IsInner v w (suc h) (IsTree v w (suc h)) m' k) en inner') in
    leaf_block v w (suc h) (m.lnkblk g) key b (inner.children g (some_keys h n inner) gap.inside)
      leads

abbrev pub new_entry : Key → ℤ → KeyEnt
new_entry key val = record { key = copy_key key; val = val; dup = znull }

place-step :
    (d : DupStore) (fuel b : ℕ) (key : Key) (val : ℤ) (s t : State) (i : Option ℕ)
    → bleaf fuel 1 s ≡ ok i t
    → t.lf.lfblk ≡ pos b
    → place d fuel key val qnokey s ≡ bputky (pos b) (new_entry key val) znull znull t
unfolding place
place-step d fuel b key val s t i run at = ground (arith, run, at)

-- the link of the context in a block that is known
pub link_in :
    (v : Blocks) (b n : ℕ) (m : MemRec) (lfpos : ℤ)
    → v b ≡ some m
    → m.infblk znkeys ≡ pos n
    → IsLink v b lfpos
    → (n ≡ 0) ⊎ ((p : ℕ) × (lfpos ≡ pos p) × (p ≤ n))
link_in v b n m lfpos at count (n', m', at', count', place) =
    let (_, en, _) = same_block v (pos b) b b n' n m' m refl refl at' at count' count in
    subst (λ k. (k ≡ 0) ⊎ ((p : ℕ) × (lfpos ≡ pos p) × (p ≤ k))) en place

pub room : (n : ℕ) → ((n == zmxkey) && true) ≡ false → n ≤ zmxkey → n < zmxkey
room n free fits = ground (arith, free, fits)

-- the key goes into the leaf of the context
pub place-Written :
    (d : DupStore) (fuel b n : ℕ) (key : Key) (val : ℤ) (m : MemRec) (v : Blocks) (s : State)
    → IsCache s
    → view s b ≡ some m
    → IsInner v true 0 (IsTree v true 0) m n
    → s.wt_threshold ≡ 0
    → s.lf.lfblk ≡ pos b
    → (n ≡ 0) ⊎ ((p : ℕ) × (s.lf.lfpos ≡ pos p) × (p ≤ n))
    → 0 < fuel
    → Returns
        (λ _ u. Written s u b (put_key (new_entry key val) znull znull n m))
        (place d fuel key val qnokey s)
place-Written d fuel b n key val m v s c at inner wt blk link f =
    let (i, t, run, un) =
      outcome (bleaf-Unchanged fuel b n m s c at inner.node inner.children blk link f) in
    rw (place-step d fuel b key val s t i run (ap (λ (x : State). x.lf.lfblk) un.context ∙ blk)) (
      Returns.mono
        (bputky-Written t b n m (new_entry key val) znull znull un.cache (un.stored b ∙ at)
          inner.node.count (room n inner.room inner.node.fits)
          (ap (λ (x : State). x.wt_threshold) un.context ∙ wt))
        λ _ u a. Written-later un a)
