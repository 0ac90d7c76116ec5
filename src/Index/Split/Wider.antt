-- ===== src/Index/Split/Wider.antt =====
-- src-lib/bsptbk.c: the search tree below the parent of a full block, before and after its split.
use btlib.Prelude.{
  ℕ, zero, suc, ◌≤◌, ◌<◌, ◌≡◌, ◌≢◌, ◌↔◌, inl, inr, refl, sym, ap, subst, Bool, false, some, ℤ, pos,
  ◌==ℤ◌, arith,
}
use btlib.Prelude.Keys.{Key}
use btlib.Consts.{zmxkey, zbtype, znkeys, zroot, zfree}
use btlib.Machine.{State, KeyEnt, MemRec}
use btlib.Machine.Returns
use btlib.Machine.Returns.{Returns}
use btlib.Cache.View.{view, IsCache}
use btlib.Info.{info_word, store_info}
use btlib.Block.{put_key}
use btlib.Block.Search.{IsOrdered}
use btlib.Block.Part.{IsPart}
use btlib.Index.Split.{bsptbk, sp}
use btlib.Index.Split.Root.{right_half}
use btlib.Index.Split.Halves.{right-IsPart}
use btlib.Index.Split.Tree.{root-IsInner}
use btlib.Index.Split.Child.{HasThree, IsHalved, bsptbk-IsHalved}
use btlib.Index.Split.Opened.{IsOpened, put_key-IsOpened}
use btlib.Index.Split.Parent.{parent-IsInner}
use btlib.Index.Split.Kept.{parent-keeps, parent-adds}
use btlib.Index.Find.Tree.{Blocks, Has, IsTree, IsInner}
use btlib.Index.Find.Gap.{IsGap, same_block, Has-HasKey}
use btlib.Index.Insert.Apart.{In, IsApart, IsSplit, Agree, some_keys}

-- the trees below the links of a block that is stored at its link do not meet
root-IsSplit :
    (v : Blocks) (h b n : ℕ) (m : MemRec)
    → v b ≡ some m
    → m.infblk znkeys ≡ pos n
    → IsApart v (suc h) (pos b)
    → IsSplit v h (IsApart v h) b n m
root-IsSplit v h b n m at count (c, k, l, e, at', count', split) =
    let (ec, en, em) = same_block v (pos b) c b k n l m e refl at' at count' count in
    subst (λ y. IsSplit v h (IsApart v h) b n y) em
      (subst (λ j. IsSplit v h (IsApart v h) b j l) en
        (subst (λ j. IsSplit v h (IsApart v h) j k l) ec split))

kept-IsPart : (m : MemRec) → IsPart (store_info znkeys (pos sp) m) m 0 sp
kept-IsPart m = record {
  count = refl;
  keys = λ i lt. ap m.keyblk (omega arith);
  links = λ i le. ap m.lnkblk (omega arith);
}

parent-IsOpened :
    (e : KeyEnt) (n g b nb : ℕ) (m : MemRec)
    → 0 < n
    → m.infblk znkeys ≡ pos n
    → IsOrdered m.keyblk n
    → IsGap m n g e.key
    → m.lnkblk g ≡ pos b
    → IsOpened e n g nb m (put_key e (pos b) (pos nb) n m)
parent-IsOpened e zero g b nb m some_key count ordered gap link = absurd (omega (arith, some_key))
parent-IsOpened e (suc k) g b nb m some_key count ordered gap link =
    put_key-IsOpened e k g b nb m count ordered gap link

-- From `s` to `u` the tree below the block `p` kept its height, keys and values.
pub record IsWider (s u : State) (h p : ℕ) : Type 0 where
  pub cache : IsCache u
  pub tree : IsTree (view u) false h (pos p)
  pub same : (key : Key) (x : ℤ) → Has (view u) h (pos p) key x ↔ Has (view s) h (pos p) key x
  pub err : u.err ≡ s.err

module _ (w : Bool) (h p b nb n g : ℕ) (pm m m2 : MemRec) (s : State)
    (tree : IsTree (view s) w (suc (suc h)) (pos p))
    (apart : IsApart (view s) (suc (suc h)) (pos p)) (at_p : view s p ≡ some pm)
    (count_p : pm.infblk znkeys ≡ pos n) (room : n < zmxkey) (gl : g ≤ n)
    (link : pm.lnkblk g ≡ pos b) (at : view s b ≡ some m) (count : m.infblk znkeys ≡ pos zmxkey)
    (outside : ¬ (In (view s) (suc (suc h)) (pos p) nb)) where
  inner : IsInner (view s) w (suc h) (IsTree (view s) w (suc h)) pm n
  inner = root-IsInner (view s) w (suc h) p n pm at_p count_p tree

  split : IsSplit (view s) (suc h) (IsApart (view s) (suc h)) p n pm
  split = root-IsSplit (view s) (suc h) p n pm at_p count_p apart

  child : IsInner (view s) w h (IsTree (view s) w h) m zmxkey
  child =
      root-IsInner (view s) w h b zmxkey m at count
        (subst (IsTree (view s) w (suc h)) link (inner.children g (some_keys h n inner) gl))

  child-IsSplit : IsSplit (view s) h (IsApart (view s) h) b zmxkey m
  child-IsSplit =
      root-IsSplit (view s) h b zmxkey m at count
        (subst (IsApart (view s) (suc h)) link (split.children g gl))

  -- the blocks of the tree
  child-In : In (view s) (suc h) (pm.lnkblk g) b
  child-In = (b, zmxkey, m, link, at, count, inl refl)

  below-In :
      (i a : ℕ) → i ≤ zmxkey → In (view s) h (m.lnkblk i) a → In (view s) (suc h) (pm.lnkblk g) a
  below-In i a le q = (b, zmxkey, m, link, at, count, inr (i, le, q))

  not_new : (i a : ℕ) → i ≤ n → In (view s) (suc h) (pm.lnkblk i) a → a ≢ nb
  not_new i a le q e =
      outside
        (p, n, pm, refl, at_p, count_p, inr (i, le, subst (In (view s) (suc h) (pm.lnkblk i)) e q))

  ne : nb ≢ b
  ne e = not_new g b gl child-In (sym e)

  nep : p ≢ b
  nep e = split.outside g b gl child-In (sym e)

  neq : p ≢ nb
  neq e = outside (p, n, pm, refl, at_p, count_p, inl (sym e))

  -- the middle key stands in the child, so that its gap in the parent is the child's link
  gap : IsGap pm n g (m.keyblk sp).key
  gap =
      let has : Has (view s) (suc h) (pm.lnkblk g) (m.keyblk sp).key (m.keyblk sp).val =
        (b, zmxkey, m, link, at, count, inl (sp, omega arith, refl, refl)) in
      record {
        inside = gl;
        below = λ j lt. inner.after g j (m.keyblk sp).key (m.keyblk sp).val gl has lt;
        above = λ j le lt. inner.before g j (m.keyblk sp).key (m.keyblk sp).val gl has le lt;
      }

  widened : (u : State) → IsHalved s u b nb p n m pm m2 → IsWider s u (suc (suc h)) p
  widened u d =
      let o = put_key (m.keyblk sp) (pos b) (pos nb) n pm in
      let l = store_info znkeys (pos sp) m in
      let r = right_half (pos p) s.super.scroot m m2 in
      let pl = kept-IsPart m in
      let pr = right-IsPart (pos p) s.super.scroot m m2 in
      let opened =
        parent-IsOpened (m.keyblk sp) n g b nb pm (some_keys h n inner) count_p inner.node.ordered
          gap link in
      let agree : (i : ℕ) → i ≤ zmxkey → Agree (view s) (view u) h (m.lnkblk i) = λ i le a q.
        d.others a (child-IsSplit.outside i a le q) (not_new g a gl (below-In i a le q))
          (split.outside g a gl (below-In i a le q)) in
      let others : (i : ℕ) → i ≤ n → i ≢ g → Agree (view s) (view u) (suc h) (pm.lnkblk i) =
        λ i le other a q.
          d.others a
            (λ e.
              other (
                split.disjoint i g b le gl (subst (In (view s) (suc h) (pm.lnkblk i)) e q)
                  child-In))
            (not_new i a le q) (split.outside i a le q) in
      record {
        cache = d.cache;
        tree = (
          p,
          suc n,
          o,
          refl,
          d.parent,
          parent-IsInner (view s) (view u) w h p b nb n g pm o m l r inner room gl at link child
              opened d.left d.right pl pr agree others,
        );
        same = λ key x. (
          (λ has. (
            p,
            n,
            pm,
            refl,
            at_p,
            count_p,
            parent-adds (view s) (view u) w h p b nb n g pm o m l r inner room gl at link child
                opened d.left d.right pl pr agree others key x
                (Has-HasKey (view u) (suc h) p (suc n) o key x d.parent opened.count has),
          )),
          (λ has. (
            p,
            suc n,
            o,
            refl,
            d.parent,
            opened.count,
            parent-keeps (view s) (view u) w h p b nb n g pm o m l r inner room gl at link child
                opened d.left d.right pl pr agree others key x
                (Has-HasKey (view s) (suc h) p n pm key x at_p count_p has),
          )),
        );
        err = d.err;
      }

  -- Given a well-formed cache with three slots that are not busy, no threshold for writing through, a
  -- search tree with no block in two places whose top block has room for a key and a link to a full
  -- block, which is not of the type of a root, a context that is at the top block, and a free list
  -- that starts with a stored block which is marked free and not in the tree: `bsptbk` of the full
  -- block returns the free one. Below the top block is then a search tree of the same height, which
  -- has the same keys with the same values, and no error is recorded.
  pub bsptbk-IsWider :
      (type : ℤ)
      → IsCache s
      → HasThree s
      → s.lf.lfblk ≡ pos p
      → s.wt_threshold ≡ 0
      → info_word m (pos zbtype) ≡ some type
      → (type ==ℤ pos zroot) ≡ false
      → s.super.sfreep ≡ pos nb
      → view s nb ≡ some m2
      → info_word m2 (pos zbtype) ≡ some (pos zfree)
      → Returns (λ r u. (r ≡ pos nb) × IsWider s u (suc (suc h)) p) (bsptbk (pos b) s)
  bsptbk-IsWider type v three blk wt word below first stored free =
      Returns.mono
        (bsptbk-IsHalved b nb p n m pm m2 ne nep neq count count_p room s type v three blk wt at
          at_p word below first stored free)
        λ r u (e, d). (e, widened u d)
