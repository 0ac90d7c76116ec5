-- ===== src/Index/Delete/Root.antt =====
-- src-lib/bdelk1.c: the deletion of a key from a root that is a leaf, which is neither joined with
-- another block nor balanced.
use mathlib.Core.Path.{fun_ext}
use btlib.Prelude.{
  ℕ, suc, ◌≤◌, ◌<◌, ◌≡◌, ◌≢◌, inl, inr, refl, sym, ap, subst, ◌∙◌, true, false, some, ℤ, pos, ◌==ℤ◌,
  ◌==◌, if◌then◌else◌, arith,
}
use btlib.Prelude.Keys.{Key, strcmp_refl}
use btlib.Consts.{znull, zbtype, zroot}
use btlib.Consts.Codes.{qnokey}
use btlib.Machine.{State, MemRec, Err, ok, ◌>>◌, skip}
use btlib.Machine.Returns.{Returns, returns, outcome}
use btlib.Error.{bterr_clear, btgerr}
use btlib.Cache.View.{view, IsCache, SameContext, rest-IsCache, rest-view}
use btlib.Info.{bgtinf, info_word}
use btlib.Info.Touch.{slot_of-Loaded}
use btlib.Info.Words.{bgtinf-info_word}
use btlib.Block.{bsrhbk, bremky, remove_key, copy_key}
use btlib.Block.Changed.{bremky-Written}
use btlib.Dups.{DupStore}
use btlib.Dups.Remove.{btdeldup}
use btlib.Index.Split.{probe_pos}
use btlib.Index.Find.{bfndky}
use btlib.Index.Find.Tree.{IsTree, IsInner}
use btlib.Index.Find.Keys.{FoundKey, bfndky-FoundKey}
use btlib.Index.Delete.{bdelk1, delete_key, remove, rebalance, refind, is_other}
use btlib.Index.Delete.Refuse.{read_at, bsrhbk-at}
use btlib.Index.Insert.Duplicate.{cleared}
use btlib.Index.Delete.Leaf.{IsShrunk, leaf-IsShrunk}

-- the key that was found is the one to be deleted
same_key :
    (m : MemRec) (i : ℕ) (key : Key)
    → copy_key key ≡ key
    → (m.keyblk i).key ≡ key
    → is_other (some key) (read_at m i) ≡ false
same_key m i key short e = rw (e, short, strcmp_refl key) refl

module _ (d : DupStore) (fuel b i : ℕ) (key : Key) (m : MemRec) (s t u w : State)
    (exact : s.lf.lfexct ≡ true) (idle : s.lf.draddr ≡ znull) (blk : s.lf.lfblk ≡ pos b)
    (place : s.lf.lfpos ≡ pos i) where
  bdelk1-root :
      (a : Unit {0}) (x : ℤ) (code : ℕ) (z : State)
      → bsrhbk (pos b) (probe_pos (pos i)) s ≡ ok (read_at m i) t
      → is_other (some key) (read_at m i) ≡ false
      → m.lnkblk i ≡ znull
      → t.lf ≡ s.lf
      → bremky (pos b) (pos i) t ≡ ok a u
      → u.lf ≡ s.lf
      → bgtinf (pos b) (pos zbtype) u ≡ ok (pos zroot) w
      → w.shared ≡ false
      → w.err.qerror ≡ 0
      → bfndky d fuel w.lf.lfkey (pos 0) w ≡ ok (code, x) z
      → bdelk1 d fuel (some key) s ≡ ((if code == qnokey then bterr_clear else skip) >> btgerr) z
  unfolding bdelk1 delete_key btdeldup remove rebalance refind
  bdelk1-root a x code z run same leaf lf run' lf' run'' alone quiet again =
      ground
        (arith, exact, idle, blk, place, run, same, leaf, lf, run', lf', run'', alone, quiet, again)

-- the end of `bdelk1`, after `bfndky` looked for the place of the last key again
settle_found :
    (z : State)
    → z.err.qerror ≡ 0
    → ((if 0 == qnokey then bterr_clear else skip) >> btgerr) z ≡ ok 0 z
unfolding btgerr bterr_clear
settle_found z q = ground (arith, q)

settle_missing :
    (z : State) → ((if qnokey == qnokey then bterr_clear else skip) >> btgerr) z ≡ ok 0 (cleared z)
unfolding btgerr bterr_clear
settle_missing z = refl

-- The key is gone from the root, and nothing else of the index changed.
abbrev pub IsDeleted : State → Key → ℕ → State → Type 0
IsDeleted s key code u =
    (code ≡ 0)
    × IsCache u
    × (u.super ≡ s.super)
    × (u.err.qerror ≡ 0)
    × (u.shared ≡ false)
    × IsShrunk (view s) (view u) true 1 s.super.scroot key
    × ((c : ℕ) → pos c ≢ s.super.scroot → view u c ≡ view s c)

-- A deletion that is done up to `z` is done.
module _ (s z w : State) (key k : Key) (h : ℕ) (super : w.super ≡ s.super)
    (shrunk : IsShrunk (view s) (view w) true 1 s.super.scroot key)
    (others : (c : ℕ) → pos c ≢ s.super.scroot → view w c ≡ view s c) where
  settle :
      (code : ℕ) (x : ℤ)
      → FoundKey w h k (code, x) z
      → Returns (IsDeleted s key) (((if code == qnokey then bterr_clear else skip) >> btgerr) z)
  settle code x (inl (e, _, _, _), cache, stored, err, alone, super', _, _) =
      rw (e, settle_found z (err ∙ e))
        (returns (
          refl,
          cache,
          super' ∙ super,
          err ∙ e,
          alone,
          subst (λ f. IsShrunk (view s) f true 1 s.super.scroot key) (sym (fun_ext stored)) shrunk,
          λ c ne. stored c ∙ others c ne,
        ))
  settle code x (inr (e, _, _), cache, stored, err, alone, super', _, _) =
      let kept : (c : ℕ) → view (cleared z) c ≡ view w c =
        λ c. rest-view z z.lf z.stk z.stat z.super (cleared z).err z.keyent c ∙ stored c in
      rw (e, settle_missing z)
        (returns (
          refl,
          rest-IsCache z z.lf z.stk z.stat z.super (cleared z).err z.keyent cache,
          super' ∙ super,
          refl,
          alone,
          subst (λ f. IsShrunk (view s) f true 1 s.super.scroot key) (sym (fun_ext kept)) shrunk,
          λ c ne. kept c ∙ others c ne,
        ))

-- what reads and changes of blocks keep
abbrev Keeps : State → State → Type 0
Keeps s w =
    (w.super ≡ s.super)
    × (w.shared ≡ s.shared)
    × (w.lf ≡ s.lf)
    × (w.idxopen ≡ s.idxopen)
    × (w.err ≡ s.err)

keeps : (s w : State) → SameContext s w → Keeps s w
keeps s w c = (
  ap (λ (y : State). y.super) c,
  ap (λ (y : State). y.shared) c,
  ap (λ (y : State). y.lf) c,
  ap (λ (y : State). y.idxopen) c,
  ap (λ (y : State). y.err) c,
)

Keeps-trans : (s t u : State) → Keeps s t → Keeps t u → Keeps s u
Keeps-trans s t u a b = (b.0 ∙ a.0, b.1 ∙ a.1, b.2 ∙ a.2, b.3 ∙ a.3, b.4 ∙ a.4)

-- At a key of a root that is a leaf, `bdelk1` deletes it.
pub bdelk1-IsDeleted :
    (d : DupStore) (fuel b i n : ℕ) (key : Key) (m : MemRec) (s : State)
    → IsCache s
    → s.idxopen ≡ true
    → s.shared ≡ false
    → (s.super.smode ==ℤ pos 0) ≡ true
    → s.wt_threshold ≡ 0
    → s.err.qerror ≡ 0
    → s.super.scroot ≡ pos b
    → view s b ≡ some m
    → info_word m (pos zbtype) ≡ some (pos zroot)
    → IsInner (view s) true 0 (IsTree (view s) true 0) m (suc n)
    → i ≤ n
    → copy_key key ≡ key
    → (m.keyblk i).key ≡ key
    → s.lf.lfexct ≡ true
    → s.lf.draddr ≡ znull
    → s.lf.lfblk ≡ pos b
    → s.lf.lfpos ≡ pos i
    → 1 < fuel
    → Returns (IsDeleted s key) (bdelk1 d fuel (some key) s)
unfolding remove_key
bdelk1-IsDeleted d fuel b i n key m s v o alone mode wt quiet root at type inner le short here exact
      idle blk place f =
    let (r, t, run, (j, e, l)) = outcome (slot_of-Loaded s b m v at) in
    let t' : State = record t { keyent = m.keyblk i } in
    let vt : IsCache t' = rest-IsCache t t.lf t.stk t.stat t.super t.err t'.keyent l.cache in
    let kt : (c : ℕ) → view t' c ≡ view s c =
      λ c. rest-view t t.lf t.stk t.stat t.super t.err t'.keyent c ∙ l.stored c in
    let (a, u, run', wr) = outcome (
      bremky-Written t' b n i m vt (kt b ∙ at) inner.node.count (omega (arith, inner.node.fits))
        (ap (λ (y : State). y.wt_threshold) l.context ∙ wt)) in
    let (ty, w, run'', (e'', un)) = outcome (
      bgtinf-info_word u b (remove_key n i m) (pos zbtype) (pos zroot) wr.cache wr.new refl type) in
    let to_u : Keeps s u = Keeps-trans s t' u (keeps s t l.context) (keeps t' u wr.context) in
    let (super, alone', lf', open', err') = Keeps-trans s u w to_u (keeps u w un.context) in
    let free : w.shared ≡ false = alone' ∙ alone in
    let shrunk : IsShrunk (view s) (view w) true 1 (pos b) (m.keyblk i).key =
      leaf-IsShrunk (view s) (view w) true b n i m at inner le (un.stored b ∙ wr.new) in
    let others : (c : ℕ) → c ≢ b → view w c ≡ view s c =
      λ c ne. un.stored c ∙ wr.others c ne ∙ kt c in
    let shrunk' : IsShrunk (view s) (view w) true 1 s.super.scroot key =
      subst (λ k. IsShrunk (view s) (view w) true 1 k key) (sym root)
        (subst (λ k. IsShrunk (view s) (view w) true 1 (pos b) k) here shrunk) in
    let (ans, z, again, told) = outcome (
      bfndky-FoundKey d fuel 1 w.lf.lfkey (pos 0) w (open' ∙ o) free un.cache
        (subst (λ p. IsTree (view w) (p.smode ==ℤ pos 0) 1 p.scroot) (sym super)
          (subst (λ k. IsTree (view w) k 1 s.super.scroot) (sym mode) shrunk'.tree))
        (omega arith) f) in
    rw
      (bdelk1-root d fuel b i key m s t' u w exact idle blk place a ans.1 ans.0 z
        (bsrhbk-at b i j (suc n) m s t (run ∙ ap (λ x. ok x t) e) l.content inner.node.count
          (omega (arith, le)) inner.node.fits)
        (same_key m i key short here) (inner.children i (omega arith) (omega (arith, le)))
        (keeps s t l.context).2 run' to_u.2 (run'' ∙ ap (λ x. ok x w) e'') free
        (ap (λ (x : Err). x.qerror) err' ∙ quiet) again)
      (settle s z w key (copy_key w.lf.lfkey) 1 super shrunk'
        (λ c ne. others c (λ g. ne (ap pos g ∙ sym root))) ans.0 ans.1 told)
