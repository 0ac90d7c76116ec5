-- ===== src/Index/Split/Tree.antt =====
-- src-lib/bsptbk.c: the search tree below a root that was split.
use btlib.Prelude.{
  ℕ, suc, ◌≤◌, ◌≡◌, ◌≢◌, ◌↔◌, inl, inr, refl, sym, subst, Bool, false, some, ℤ, pos,
}
use btlib.Prelude.Keys.{Key}
use btlib.Consts.{zmxkey, zbtype, znxblk, znkeys, zroot, zfree}
use btlib.Machine.{State, MemRec}
use btlib.Machine.Returns
use btlib.Machine.Returns.{Returns, returns}
use btlib.Cache.View.{view, IsCache}
use btlib.Info.{info_word}
use btlib.Block.Transfer.{HasIdle}
use btlib.Index.Split.{bsptbk}
use btlib.Index.Split.Root.{left_half, right_half, bsptbk-IsDivided}
use btlib.Index.Find.Tree.{Blocks, Has, IsTree, IsInner}
use btlib.Index.Find.Gap.{same_block}
use btlib.Index.Insert.Apart.{In, IsApart, Agree}
use btlib.Index.Split.Halves.{left-IsPart, right-IsPart, top-IsTree, top-keeps, top-adds}

-- the block of a tree that is stored at its link
pub root-IsInner :
    (v : Blocks) (w : Bool) (h b n : ℕ) (m : MemRec)
    → v b ≡ some m
    → m.infblk znkeys ≡ pos n
    → IsTree v w (suc h) (pos b)
    → IsInner v w h (IsTree v w h) m n
root-IsInner v w h b n m at count (c, k, l, e, at', inner) =
    let (_, en, em) = same_block v (pos b) c b k n l m e refl at' at inner.node.count count in
    subst (λ y. IsInner v w h (IsTree v w h) y n) em
      (subst (λ j. IsInner v w h (IsTree v w h) l j) en inner)

-- a block below one of its links is another one
outside_root :
    (v : Blocks) (h b n i a : ℕ) (m : MemRec)
    → v b ≡ some m
    → m.infblk znkeys ≡ pos n
    → IsApart v (suc h) (pos b)
    → i ≤ n
    → In v h (m.lnkblk i) a
    → a ≢ b
outside_root v h b n i a m at count (c, k, l, e, at', count', split) le p =
    let (ec, en, em) = same_block v (pos b) c b k n l m e refl at' at count' count in
    subst (λ j. a ≢ j) ec
      (split.outside i a (subst (λ j. i ≤ j) (sym en) le)
        (subst (λ (y : MemRec). In v h (y.lnkblk i) a) (sym em) p))

-- From `s` to `u` the root `b` got a level more, with the same keys and values below it.
pub record IsTaller (s u : State) (h b : ℕ) : Type 0 where
  pub cache : IsCache u
  pub tree : IsTree (view u) false (suc (suc h)) (pos b)
  pub same :
      (key : Key) (x : ℤ)
      → Has (view u) (suc (suc h)) (pos b) key x ↔ Has (view s) (suc h) (pos b) key x
  pub err : u.err ≡ s.err

-- Given a well-formed cache with two slots that are not busy, a full block of the type of a root,
-- which is the root of a search tree with no block in two places, and a free list that starts with
-- two other blocks, which are stored, marked free and not in the tree: `bsptbk` of the root returns
-- the first of these. The root is then that of a search tree a level higher, which has the same
-- keys with the same values, and no error is recorded.
pub bsptbk-IsTaller :
    (w : Bool) (h b b1 b2 : ℕ) (m m1 m2 : MemRec) (s : State)
    → IsCache s
    → HasIdle s
    → IsTree (view s) w (suc h) (pos b)
    → IsApart (view s) (suc h) (pos b)
    → view s b ≡ some m
    → m.infblk znkeys ≡ pos zmxkey
    → info_word m (pos zbtype) ≡ some (pos zroot)
    → s.super.sfreep ≡ pos b1
    → view s b1 ≡ some m1
    → info_word m1 (pos zbtype) ≡ some (pos zfree)
    → m1.infblk znxblk ≡ pos b2
    → view s b2 ≡ some m2
    → info_word m2 (pos zbtype) ≡ some (pos zfree)
    → b1 ≢ b2
    → ¬ (In (view s) (suc h) (pos b) b1)
    → ¬ (In (view s) (suc h) (pos b) b2)
    → Returns (λ r u. (r ≡ pos b1) × IsTaller s u h b) (bsptbk (pos b) s)
bsptbk-IsTaller w h b b1 b2 m m1 m2 s v idle tree apart at count type first at1 free1 next at2 free2
      ne out1 out2 =
    let inner = root-IsInner (view s) w h b zmxkey m at count tree in
    let inside : (a : ℕ) → a ≡ b → In (view s) (suc h) (pos b) a =
      λ a e. (b, zmxkey, m, refl, at, count, inl e) in
    let below : (i a : ℕ)
        → i ≤ zmxkey
        → In (view s) h (m.lnkblk i) a
        → In (view s) (suc h) (pos b) a =
      λ i a le p. (b, zmxkey, m, refl, at, count, inr (i, le, p)) in
    Returns.mono
      (bsptbk-IsDivided b b1 b2 m m1 m2 (λ e. out1 (inside b1 e)) (λ e. out2 (inside b2 e)) ne count
        s v idle at at1 at2 type first free1 next free2)
      λ r u (e, d).
        let agree : (i : ℕ) → i ≤ zmxkey → Agree (view s) (view u) h (m.lnkblk i) = λ i le a p.
          d.others a (outside_root (view s) h b zmxkey i a m at count apart le p)
            (λ f. out1 (below i b1 le (subst (In (view s) h (m.lnkblk i)) f p)))
            (λ f. out2 (below i b2 le (subst (In (view s) h (m.lnkblk i)) f p))) in
        let l = left_half (pos b) s.super.scroot m m1 in
        let q = right_half (pos b) s.super.scroot m m2 in
        let pl = left-IsPart (pos b) s.super.scroot m m1 in
        let pq = right-IsPart (pos b) s.super.scroot m m2 in
        (
          e,
          record {
            cache = d.cache;
            tree =
                top-IsTree (view s) (view u) w h b b1 b2 m l q at d.root d.left d.right pl pq inner
                  agree;
            same = λ key x. (
              top-adds (view s) (view u) w h b b1 b2 m l q at d.root d.left d.right pl pq inner
                  agree key x,
              top-keeps (view s) (view u) w h b b1 b2 m l q at d.root d.left d.right pl pq inner
                  agree key x,
            );
            err = d.err;
          },
        )
