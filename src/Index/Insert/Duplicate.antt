-- ===== src/Index/Insert/Duplicate.antt =====
-- src-lib/binsky.c: the insertion of a key that the index has.
use mathlib.Core.Path.{fun_ext}
use btlib.Prelude.{
  ℕ, zero, suc, ◌-◌, ◌*◌, ◌≤◌, ◌<◌, ◌≡◌, inl, inr, refl, sym, ap, subst, ◌∙◌, true, false, some,
  List, [], ◌∷◌, ℤ, pos, take, ◌==ℤ◌, arith,
}
use btlib.Prelude.Keys.{Key}
use btlib.Consts.{stkmax, zmisc, zkylen}
use btlib.Consts.Codes.{qdup}
use btlib.Machine.{State, MemRec, no_arg, text, ok, ◌>>◌}
use btlib.Machine.Returns.{Returns, returns, outcome}
use btlib.Error.{keep_arg, bterr, bterr_clear, btgerr}
use btlib.Cache.View.{view, IsCache, rest-IsCache, rest-view}
use btlib.Info.{bgtinf}
use btlib.Info.Words.{bgtinf-info_word}
use btlib.Block.{copy_key}
use btlib.Lock.{locked, unlock, bvalap}
use btlib.Dups.{DupStore}
use btlib.Index.Find.{bfndky}
use btlib.Index.Find.Tree.{Has, IsTree}
use btlib.Index.Find.Keys.{FoundKey, bfndky-FoundKey}
use btlib.Index.Insert.{binsky, insert_key}

take-take {ℓ} : {A : Type ℓ} (n : ℕ) (xs : List A) → take n (take n xs) ≡ take n xs
take-take zero xs = refl
take-take (suc n) [] = refl
take-take (suc n) (x ∷ xs) = ap (λ ys. x ∷ ys) (take-take n xs)

-- a truncated key is not truncated again
pub copy_key_twice : (key : Key) → copy_key (copy_key key) ≡ copy_key key
copy_key_twice key = take-take (zkylen - 1) key

abbrev pub cleared : State → State
cleared s = record s { err = record { qerror = 0; qname = ""; qarg = no_arg } }

pub binsky-step :
    (d : DupStore) (fuel : ℕ) (key : Key) (val : ℤ) (s : State)
    → s.idxopen ≡ true
    → s.shared ≡ false
    → binsky d fuel key val s ≡ (insert_key d fuel key val >> unlock >> btgerr) (cleared s)
unfolding binsky bterr_clear bvalap locked
binsky-step d fuel key val s o a = ground (arith, o, a)

insert-refused :
    (d : DupStore) (fuel : ℕ) (key : Key) (val x : ℤ) (s t u : State)
    → (s.super.smode ==ℤ pos 0) ≡ true
    → bgtinf s.super.scroot (pos zmisc) s ≡ ok (pos 0) t
    → bfndky d fuel (copy_key key) (pos 0) t ≡ ok (0, x) u
    → insert_key d fuel key val s ≡ bterr "BINSKY" qdup (text key) u
unfolding insert_key
insert-refused d fuel key val x s t u mode misc found = ground (arith, mode, misc, found)

abbrev refused : Key → State → State
refused key u = record u {
  err = record { qerror = qdup; qname = "BINSKY"; qarg = keep_arg (text key) u.err.qarg };
}

refused-run :
    (key : Key) (u : State)
    → u.err.qerror ≡ 0
    → u.shared ≡ false
    → (bterr "BINSKY" qdup (text key) >> unlock >> btgerr) u ≡ ok qdup (refused key u)
unfolding bterr unlock btgerr
refused-run key u q a = ground (arith, q, a)

-- the insertion was refused, and the index stores what it did
abbrev pub Refused : State → ℕ → State → Type 0
Refused s code u = (code ≡ qdup) × IsCache u × ((n : ℕ) → view u n ≡ view s n)

module _ (d : DupStore) (fuel h : ℕ) (key : Key) (val x : ℤ) (s t : State)
    (is_open : s.idxopen ≡ true) (alone : s.shared ≡ false)
    (mode : (s.super.smode ==ℤ pos 0) ≡ true)
    (misc : bgtinf s.super.scroot (pos zmisc) (cleared s) ≡ ok (pos 0) t)
    (same : (n : ℕ) → view t n ≡ view s n) where
  refuse :
      (u : State)
      → bfndky d fuel (copy_key key) (pos 0) t ≡ ok (0, x) u
      → FoundKey t h (copy_key (copy_key key)) (0, x) u
      → Returns (Refused s) (binsky d fuel key val s)
  refuse u run (_, cache, stored, quiet, free, _, _, _) =
      let r : State = refused key u in
      rw
        (
          binsky-step d fuel key val s is_open alone,
          insert-refused d fuel key val x (cleared s) t u mode misc run,
          refused-run key u quiet free,
        )
        (returns (
          refl,
          rest-IsCache u u.lf u.stk u.stat u.super r.err u.keyent cache,
          λ n. rest-view u u.lf u.stk u.stat u.super r.err u.keyent n ∙ stored n ∙ same n,
        ))

-- the tree that another state stores
abbrev TreeAt : State → ℕ → Type 0
TreeAt s h = IsTree (view s) (s.super.smode ==ℤ pos 0) h s.super.scroot

module _ (h : ℕ) (s t : State) (same : view t ≡ view s) (super : t.super ≡ s.super) where
  pub tree_moved : TreeAt s h → TreeAt t h
  tree_moved tree =
      subst (λ p. IsTree (view t) (p.smode ==ℤ pos 0) h p.scroot) (sym super)
        (subst (λ f. IsTree f (s.super.smode ==ℤ pos 0) h s.super.scroot) (sym same) tree)

  pub Has-moved :
      (key : Key) (x : ℤ)
      → Has (view s) h s.super.scroot key x
      → Has (view t) h t.super.scroot key x
  Has-moved key x has =
      subst (λ p. Has (view t) h p.scroot key x) (sym super)
        (subst (λ f. Has f h s.super.scroot key x) (sym same) has)

-- the insertion up to the result of its search
pub record Looked (d : DupStore) (fuel h : ℕ) (key : Key) (s : State) : Type 0 where
  pub begun : State
  pub ended : State
  pub code : ℕ
  pub val : ℤ
  pub misc : bgtinf s.super.scroot (pos zmisc) (cleared s) ≡ ok (pos 0) begun
  pub same : (n : ℕ) → view begun n ≡ view s n
  pub super : begun.super ≡ s.super
  pub threshold : begun.wt_threshold ≡ s.wt_threshold
  pub run : bfndky d fuel (copy_key key) (pos 0) begun ≡ ok (code, val) ended
  pub told : FoundKey begun h (copy_key (copy_key key)) (code, val) ended

pub look :
    (d : DupStore) (fuel h b : ℕ) (key : Key) (m : MemRec) (s : State)
    → s.idxopen ≡ true
    → s.shared ≡ false
    → IsCache s
    → s.super.scroot ≡ pos b
    → view s b ≡ some m
    → m.infblk zmisc ≡ pos 0
    → IsTree (view s) (s.super.smode ==ℤ pos 0) h s.super.scroot
    → 2 * h ≤ stkmax
    → h < fuel
    → Looked d fuel h key s
look d fuel h b key m s o a v root at word tree fits f =
    let c : State = cleared s in
    let kept : (n : ℕ) → view c n ≡ view s n =
      rest-view s s.lf s.stk s.stat s.super c.err s.keyent in
    let vc : IsCache c = rest-IsCache s s.lf s.stk s.stat s.super c.err s.keyent v in
    let (got, t, run, (e, un)) =
      outcome (bgtinf-info_word c b m (pos zmisc) (pos 0) vc (kept b ∙ at) refl (ap some word)) in
    let same : (n : ℕ) → view t n ≡ view s n = λ n. un.stored n ∙ kept n in
    let super : t.super ≡ s.super = ap (λ (y : State). y.super) un.context in
    let (ans, u, run', told) = outcome (
      bfndky-FoundKey d fuel h (copy_key key) (pos 0) t
        (ap (λ (y : State). y.idxopen) un.context ∙ o) (ap (λ (y : State). y.shared) un.context ∙ a)
        un.cache (tree_moved h s t (fun_ext same) super tree) fits f) in
    record {
      begun = t;
      ended = u;
      code = ans.0;
      val = ans.1;
      misc = ap (λ r. bgtinf r (pos zmisc) c) root ∙ run ∙ ap (λ k. ok k t) e;
      same = same;
      super = super;
      threshold = ap (λ (y : State). y.wt_threshold) un.context;
      run = run';
      told = told;
    }

-- In an open and writable index that is not shared, with a well-formed cache, whose root is
-- stored, does not allow duplicates and is a search tree of a height that the stack and the fuel
-- suffice for and without duplicates and full blocks: `binsky` of a key that the tree has returns
-- QDUP, and the index stores what it did.
pub binsky-Refused :
    (d : DupStore) (fuel h b : ℕ) (key : Key) (val x : ℤ) (m : MemRec) (s : State)
    → s.idxopen ≡ true
    → s.shared ≡ false
    → (s.super.smode ==ℤ pos 0) ≡ true
    → IsCache s
    → s.super.scroot ≡ pos b
    → view s b ≡ some m
    → m.infblk zmisc ≡ pos 0
    → IsTree (view s) (s.super.smode ==ℤ pos 0) h s.super.scroot
    → 2 * h ≤ stkmax
    → h < fuel
    → Has (view s) h s.super.scroot (copy_key key) x
    → Returns (Refused s) (binsky d fuel key val s)
binsky-Refused d fuel h b key val x m s o a mode v root at word tree fits f has =
    let l = look d fuel h b key m s o a v root at word tree fits f in
    elim l.told.0 [
      | inl (e, _, _, _) ↦
          let answer : (l.code, l.val) ≡ (0, l.val) = ap (λ k. (k, l.val)) e in
          refuse d fuel h key val l.val s l.begun o a mode l.misc l.same l.ended
            (l.run ∙ ap (λ k. ok k l.ended) answer)
            (subst (λ k. FoundKey l.begun h (copy_key (copy_key key)) k l.ended) answer l.told)
      | inr (_, absent, _) ↦ absurd (
          absent x (
            Has-moved h s l.begun (fun_ext l.same) l.super (copy_key (copy_key key)) x
              (subst (λ k. Has (view s) h s.super.scroot k x) (sym (copy_key_twice key)) has)))
    ]
