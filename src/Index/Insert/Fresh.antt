-- ===== src/Index/Insert/Fresh.antt =====
-- src-lib/binsky.c: the insertion of a key that the index does not have.
use mathlib.Core.Path.{fun_ext}
use btlib.Prelude.{
  ℕ, zero, suc, ◌*◌, ◌≤◌, ◌<◌, ◌≡◌, ◌≢◌, inl, inr, refl, sym, ap, subst, ◌∙◌, true, false, some, ℤ,
  pos, ◌==ℤ◌, arith,
}
use btlib.Prelude.Keys.{Key}
use btlib.Consts.{stkmax, znull, zmisc}
use btlib.Consts.Codes.{qnokey}
use btlib.Machine.{State, Super, and_then, MemRec, ok}
use btlib.Machine.Returns
use btlib.Machine.Returns.{Returns, returns, outcome}
use btlib.Error.{bterr_clear, btgerr}
use btlib.Cache.View.{view, IsCache, rest-IsCache, rest-view}
use btlib.Info.{bgtinf}
use btlib.Block.{copy_key}
use btlib.Lock.{unlock}
use btlib.Dups.{DupStore}
use btlib.Index.Find.{bfndky}
use btlib.Index.Find.Tree.{Blocks, Has, IsTree}
use btlib.Index.Find.Path.{Leads, IsLink}
use btlib.Index.Find.Keys.{FoundKey}
use btlib.Index.Insert.{binsky, insert_key, place}
use btlib.Index.Insert.Place.{new_entry, leaf_block, link_in, room, place-Written}
use btlib.Index.Insert.Apart.{IsApart}
use btlib.Index.Insert.Leaf.{IsGrown}
use btlib.Index.Insert.Grow.{IsPut, grow}
use btlib.Index.Insert.Duplicate.{cleared, copy_key_twice, look, binsky-step, tree_moved, Has-moved}

insert-new :
    (d : DupStore) (fuel : ℕ) (key : Key) (val x : ℤ) (s t u : State)
    → (s.super.smode ==ℤ pos 0) ≡ true
    → bgtinf s.super.scroot (pos zmisc) s ≡ ok (pos 0) t
    → bfndky d fuel (copy_key key) (pos 0) t ≡ ok (qnokey, x) u
    → insert_key d fuel key val s ≡ place d fuel key val qnokey (cleared u)
unfolding insert_key bterr_clear
insert-new d fuel key val x s t u mode misc found = ground (arith, mode, misc, found)

-- what the insertion of a new key leaves behind
abbrev pub Entered : State → ℕ → Key → ℤ → ℕ → State → Type 0
Entered s h key val code u =
    (code ≡ 0)
    × IsCache u
    × (u.super ≡ s.super)
    × IsGrown (view s) (view u) h s.super.scroot (new_entry key val)

-- the insertion after the search
module _ (d : DupStore) (fuel h : ℕ) (key : Key) (val x : ℤ) (s t u : State)
    (is_open : s.idxopen ≡ true) (alone : s.shared ≡ false)
    (mode : (s.super.smode ==ℤ pos 0) ≡ true)
    (misc : bgtinf s.super.scroot (pos zmisc) (cleared s) ≡ ok (pos 0) t)
    (found : bfndky d fuel (copy_key key) (pos 0) t ≡ ok (qnokey, x) u) where
  binsky-new :
      (a : Unit {0}) (z : State)
      → place d fuel key val qnokey (cleared u) ≡ ok a z
      → z.err.qerror ≡ 0
      → z.shared ≡ false
      → binsky d fuel key val s ≡ ok 0 z
  unfolding unlock btgerr
  binsky-new a z run q free =
      binsky-step d fuel key val s is_open alone
      ∙ ap (λ r. and_then (and_then r λ _. unlock) λ _. btgerr)
          (insert-new d fuel key val x (cleared s) t u mode misc found ∙ run)
      ∙ ground (arith, q, free)

  enter :
      IsTree (view t) true h t.super.scroot
      → IsApart (view t) h t.super.scroot
      → ((y : ℤ) → ¬ (Has (view t) h t.super.scroot (copy_key key) y))
      → (b : ℕ) × Leads (view t) h t.super.scroot (copy_key key) b
        × (u.lf.lfblk ≡ pos b)
        × IsLink (view t) b u.lf.lfpos
      → FoundKey t h (copy_key key) (qnokey, x) u
      → u.wt_threshold ≡ 0
      → 0 < fuel
      → Returns (Entered t h key val) (binsky d fuel key val s)
  enter tree apart absent (b, leads, blk, link) (_, cache, stored, _, free, super, _, _) wt f =
      let v : Blocks = view t in
      let (n, m, at, inner) = leaf_block v true h t.super.scroot (copy_key key) b tree leads in
      let c : State = cleared u in
      let kept : (i : ℕ) → view c i ≡ v i =
        λ i. rest-view u u.lf u.stk u.stat u.super c.err u.keyent i ∙ stored i in
      let (a, z, run, wr) = outcome (
        place-Written d fuel b n key val m v c
          (rest-IsCache u u.lf u.stk u.stat u.super c.err u.keyent cache) (kept b ∙ at) inner wt blk
          (link_in v b n m u.lf.lfpos at inner.node.count link) f) in
      let put : IsPut v (view z) (new_entry key val) b n m = record {
        old = at;
        count = inner.node.count;
        room = room n inner.room inner.node.fits;
        new = wr.new;
        others = λ i ne. wr.others i ne ∙ kept i;
        plain = refl;
      } in
      rw
        (binsky-new a z run (ap (λ (y : State). y.err.qerror) wr.context)
          (ap (λ (y : State). y.shared) wr.context ∙ free))
        (returns (
          refl,
          wr.cache,
          ap (λ (y : State). y.super) wr.context ∙ super,
          grow v (view z) true h t.super.scroot (new_entry key val) b n m tree apart leads put
              absent,
        ))

-- a block is not ZNULL
not_null : (b : ℕ) → pos b ≢ znull
not_null b e = ground (arith, e)

Entered-moved :
    (s t : State) (h : ℕ) (key : Key) (val : ℤ) (code : ℕ) (u : State)
    → ((n : ℕ) → view t n ≡ view s n)
    → t.super ≡ s.super
    → Entered t h key val code u
    → Entered s h key val code u
Entered-moved s t h key val code u same super (e, cache, kept, grown) = (
  e,
  cache,
  kept ∙ super,
  subst (λ (p : Super). IsGrown (view s) (view u) h p.scroot (new_entry key val)) super
      (subst (λ f. IsGrown f (view u) h t.super.scroot (new_entry key val)) (fun_ext same) grown),
)

-- In an open and writable index that is not shared and has no threshold for writing through, with
-- a well-formed cache, whose root is stored, does not allow duplicates and is a search tree of a
-- height that the stack and the fuel suffice for, without duplicates, without full blocks and with
-- no block in two places: `binsky` of a key that the tree does not have returns 0. The root is then
-- a search tree of the same height with no block in two places and on the same blocks, which has
-- the key, cut to its maximal length, with its value, the keys and values that it had, and no
-- others.
pub binsky-Entered :
    (d : DupStore) (fuel h b : ℕ) (key : Key) (val : ℤ) (m : MemRec) (s : State)
    → s.idxopen ≡ true
    → s.shared ≡ false
    → (s.super.smode ==ℤ pos 0) ≡ true
    → s.wt_threshold ≡ 0
    → IsCache s
    → s.super.scroot ≡ pos b
    → view s b ≡ some m
    → m.infblk zmisc ≡ pos 0
    → IsTree (view s) (s.super.smode ==ℤ pos 0) h s.super.scroot
    → IsApart (view s) h s.super.scroot
    → 2 * h ≤ stkmax
    → h < fuel
    → ((x : ℤ) → ¬ (Has (view s) h s.super.scroot (copy_key key) x))
    → Returns (Entered s h key val) (binsky d fuel key val s)
binsky-Entered d fuel zero b key val m s o a mode wt v root at word tree apart fits f absent =
    absurd (not_null b (sym root ∙ tree))
binsky-Entered d fuel (suc h) b key val m s o a mode wt v root at word tree apart fits f absent =
    let live : 0 < fuel = omega (arith, f) in
    let l = look d fuel (suc h) b key m s o a v root at word tree fits f in
    let t = l.begun in
    let same : view t ≡ view s = fun_ext l.same in
    let plain = copy_key_twice key in
    elim l.told.0 [
      | inl (_, has, _, _) ↦ absurd (
          absent l.val (
            subst (λ k. Has (view s) (suc h) s.super.scroot k l.val) plain
              (Has-moved (suc h) t s (sym same) (sym l.super) (copy_key (copy_key key)) l.val has)))
      | inr (e, none_there, ends) ↦
          let answer : (l.code, l.val) ≡ (qnokey, l.val) = ap (λ k. (k, l.val)) e in
          Returns.mono
            (enter d fuel (suc h) key val l.val s t l.ended o a mode l.misc
              (l.run ∙ ap (λ k. ok k l.ended) answer)
              (subst (λ w. IsTree (view t) w (suc h) t.super.scroot)
                (ap (λ (p : Super). p.smode ==ℤ pos 0) l.super ∙ mode)
                (tree_moved (suc h) s t same l.super tree))
              (subst (λ (p : Super). IsApart (view t) (suc h) p.scroot) (sym l.super)
                (subst (λ g. IsApart g (suc h) s.super.scroot) (sym same) apart))
              (subst (λ k. (y : ℤ) → ¬ (Has (view t) (suc h) t.super.scroot k y)) plain none_there)
              (subst
                (λ k.
                  (c : ℕ) × Leads (view t) (suc h) t.super.scroot k c
                  × (l.ended.lf.lfblk ≡ pos c)
                  × IsLink (view t) c l.ended.lf.lfpos)
                plain ends)
              (subst (λ k. FoundKey t (suc h) (copy_key key) (k, l.val) l.ended) e
                (subst (λ k. FoundKey t (suc h) k (l.code, l.val) l.ended) plain l.told))
              (l.told.6 ∙ l.threshold ∙ wt) live)
            λ c u done. Entered-moved s t (suc h) key val c u l.same l.super done
    ]
