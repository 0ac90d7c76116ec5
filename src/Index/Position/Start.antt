-- ===== src/Index/Position/Start.antt =====
-- src-lib/btpos.c: the context before the first key of a root that is a leaf.
use btlib.Prelude.{
  ℕ, ◌≤◌, ◌<◌, ◌≡◌, inl, inr, refl, ap, ◌∙◌, true, false, some, Option, [], ℤ, pos, arith,
}
use btlib.Consts.{znull}
use btlib.Machine.{State, Lf, MemRec, ok}
use btlib.Machine.Returns.{Returns, returns, outcome}
use btlib.Error.{bterr_clear, btgerr}
use btlib.Stack.{bpush, bstkin}
use btlib.Stack.Laws.{pushed}
use btlib.Cache.View.{view, IsCache, rest-IsCache, rest-view}
use btlib.Block.Stored.{IsNode}
use btlib.Lock.{unlock, bvalap}
use btlib.Index.Leaf.{bleaf}
use btlib.Index.Leaf.Still.{bleaf-Loaded}
use btlib.Index.Find.{bclrlf}
use btlib.Index.Insert.Duplicate.{cleared}
use btlib.Index.Position.{zstart, btpos, at_start}
use btlib.Index.Walk.Leaf.{IsWalking, IsBefore, read-IsWalking}

-- the state before the descent to a leaf
abbrev root_lf : ℤ → Lf
root_lf root = record { lfkey = []; lfblk = root; lfpos = pos 0; lfexct = false; draddr = znull }

abbrev placed : State → State
placed s =
    let c : State = cleared s in
    let t : State = pushed 1 znull (pushed 0 znull c) in record t { lf = root_lf s.super.scroot }

btpos-run :
    (fuel : ℕ) (r : Option ℕ) (s u : State)
    → s.idxopen ≡ true
    → s.shared ≡ false
    → bleaf fuel 0 (placed s) ≡ ok r u
    → u.shared ≡ false
    → u.err.qerror ≡ 0
    → btpos fuel zstart s ≡ ok 0 u
unfolding btpos at_start bterr_clear bvalap bclrlf bstkin bpush unlock btgerr
btpos-run fuel r s u opened alone run free quiet = ground (arith, opened, alone, run, free, quiet)

-- In an open index that is not shared, with a well-formed cache, whose root is a leaf of the index,
-- `btpos` with ZSTART returns 0 and leaves the context before the first key.
pub btpos-IsWalking :
    (fuel b n : ℕ) (m : MemRec) (s : State)
    → s.idxopen ≡ true
    → s.shared ≡ false
    → IsCache s
    → s.super.scroot ≡ pos b
    → view s b ≡ some m
    → IsNode m n
    → ((i : ℕ) → 0 < n → i ≤ n → m.lnkblk i ≡ znull)
    → 0 < fuel
    → Returns (λ code u. (code ≡ 0) × IsWalking s b u × IsBefore 0 u.lf) (btpos fuel zstart s)
btpos-IsWalking fuel b n m s opened alone v root at node leaf f =
    let t : State = placed s in
    let c : State = cleared s in
    let kept : (i : ℕ) → view t i ≡ view s i =
      rest-view s t.lf t.stk s.stat s.super c.err s.keyent in
    let w : IsWalking s b t = record {
      cache = rest-IsCache s t.lf t.stk s.stat s.super c.err s.keyent v;
      stored = kept;
      opened = opened;
      alone = alone;
      quiet = refl;
      idle = refl;
      block = root;
      depth = refl;
      bottom = λ i lt. ground arith;
    } in
    let (r, u, run, (j, e, l)) = outcome (
      bleaf-Loaded fuel 0 b n m t w.cache (kept b ∙ at) node leaf root (inr (0, refl, omega arith))
        f) in
    let w' : IsWalking s b u = read-IsWalking w l in
    rw (btpos-run fuel r s u opened alone run w'.alone w'.quiet) (
      returns (
        refl,
        w',
        inl (ap (λ (y : State). y.lf.lfexct) l.context, ap (λ (y : State). y.lf.lfpos) l.context),
      ))
