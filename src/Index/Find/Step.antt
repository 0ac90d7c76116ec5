-- ===== src/Index/Find/Step.antt =====
-- src-lib/bfndky.c: the steps of the search for a key.
use Prim.Native.Nat.{Ordering}
use btlib.Prelude.{
  ℕ, suc, ◌<◌, ◌≡◌, refl, ap, ◌∙◌, Bool, true, false, some, ℤ, pos, negsuc, inc, ◌==ℤ◌, arith,
}
use btlib.Consts.{zmxkey, znull, stkmax}
use btlib.Machine.{State, Lf, Stk, KeyEnt, MemRec, Err, M, ok, pure, ◌>>=◌, ◌>>◌, set_lf}
use btlib.Machine.Returns
use btlib.Machine.Returns.{Returns, returns, outcome}
use btlib.Stack.Laws.{HasDepth, bpush-ok, pushed}
use btlib.Cache.{brdblk}
use btlib.Cache.View.{rest-IsCache, rest-view, view, IsCache}
use btlib.Cache.Read.{brdblk-Loaded}
use btlib.Info.Words.{Unchanged, unchanged}
use btlib.Block.{Probe, bsrhbk}
use btlib.Block.Search.{Located}
use btlib.Block.Stored.{IsNode, reported, copied, bsrhbk-Located}
use btlib.Dups.{DupStore, no_dup, next, getkeyent, btduppos}
use btlib.Index.Find.{visit}
use btlib.Index.Find.Tree.{Blocks}

-- A search that began in `o` is under way with `dep` elements on the stack.
pub record IsReady (o : State) (v : Blocks) (w : Bool) (dep : ℕ) (s : State) : Type 0 where
  pub cache : IsCache s
  pub stored : (b : ℕ) → view s b ≡ v b
  pub depth : HasDepth dep s
  pub mode : (s.super.smode ==ℤ pos 0) ≡ w
  pub idle : s.lf.draddr ≡ znull
  pub quiet : s.err.qerror ≡ 0
  pub alone : s.shared ≡ false
  pub super : s.super ≡ o.super
  pub threshold : s.wt_threshold ≡ o.wt_threshold
  pub opened : s.idxopen ≡ o.idxopen

-- a state in which only the context of the find, the stack, `keyent` and the error differ
abbrev pub with_context : State → Lf → Stk → KeyEnt → Err → State
with_context s f k e r = record s { lf = f; stk = k; keyent = e; err = r }

pub context-IsCache :
    (s : State) (f : Lf) (k : Stk) (e : KeyEnt) (r : Err)
    → IsCache s
    → IsCache (with_context s f k e r)
context-IsCache s f k e r v = rest-IsCache s f k s.stat s.super r e v

pub context-view :
    (s : State) (f : Lf) (k : Stk) (e : KeyEnt) (r : Err) (b : ℕ)
    → view (with_context s f k e r) b ≡ view s b
context-view s f k e r b = rest-view s f k s.stat s.super r e b

-- The context of the find, the stack and `keyent` may change.
pub context-IsReady :
    {o : State} {v : Blocks} {w : Bool} {dep : ℕ} (dep' : ℕ) (s : State) (f : Lf) (k : Stk)
    (e : KeyEnt)
    → IsReady o v w dep s
    → inc k.stkptr ≡ pos dep'
    → f.draddr ≡ znull
    → IsReady o v w dep' (with_context s f k e s.err)
context-IsReady dep' s f k e r d i = record {
  cache = context-IsCache s f k e s.err r.cache;
  stored = λ b. context-view s f k e s.err b ∙ r.stored b;
  depth = d;
  mode = r.mode;
  idle = i;
  quiet = r.quiet;
  alone = r.alone;
  super = r.super;
  threshold = r.threshold;
  opened = r.opened;
}

-- Reading blocks keeps a search ready.
pub Unchanged-IsReady :
    {o : State} {v : Blocks} {w : Bool} {dep : ℕ} {s t : State}
    → IsReady o v w dep s
    → Unchanged s t
    → IsReady o v w dep t
Unchanged-IsReady r u = record {
  cache = u.cache;
  stored = λ b. u.stored b ∙ r.stored b;
  depth = ap (λ (x : State). inc x.stk.stkptr) u.context ∙ r.depth;
  mode = ap (λ (x : State). x.super.smode ==ℤ pos 0) u.context ∙ r.mode;
  idle = ap (λ (x : State). x.lf.draddr) u.context ∙ r.idle;
  quiet = ap (λ (x : State). x.err.qerror) u.context ∙ r.quiet;
  alone = ap (λ (x : State). x.shared) u.context ∙ r.alone;
  super = ap (λ (x : State). x.super) u.context ∙ r.super;
  threshold = ap (λ (x : State). x.wt_threshold) u.context ∙ r.threshold;
  opened = ap (λ (x : State). x.idxopen) u.context ∙ r.opened;
}

-- the context after the search of a block
abbrev at_block : ℕ → ℤ → Lf → Lf
at_block b loc f = record f { lfblk = pos b; lfpos = loc }

abbrev enter : ℕ → Probe → M Probe
enter b p = set_lf (at_block b p.loc) >> pure p

visit-step :
    (b dep : ℕ) (p : Probe) (s : State)
    → HasDepth dep s
    → suc dep < stkmax
    → visit (pos b) p s
      ≡ (bsrhbk (pos b) (record p { loc = negsuc 0 }) >>= enter b)
          (pushed (suc dep) s.lf.lfpos (pushed dep s.lf.lfblk s))
unfolding visit
visit-step b dep p s d lt =
    rw
      (
        bpush-ok dep s.lf.lfblk s d (omega arith),
        bpush-ok (suc dep) s.lf.lfpos (pushed dep s.lf.lfblk s) refl lt,
      )
      refl

-- where the search of a block ends
pub record Visited (o : State) (v : Blocks) (w : Bool) (dep b n : ℕ) (m : MemRec) (p q : Probe)
    (u : State) : Type 0 where
  pub ready : IsReady o v w dep u
  pub loc : ℤ
  pub order : Ordering
  pub located : Located m.keyblk n p.key loc order
  pub answer : q ≡ reported m (record p { loc = negsuc 0 }) loc order
  pub block : u.lf.lfblk ≡ pos b
  pub position : u.lf.lfpos ≡ loc

copied-Visited :
    {o : State} {v : Blocks} {w : Bool} (dep b n : ℕ) (m : MemRec) (p : Probe) (t : State) (loc : ℤ)
    (r : Ordering)
    → IsReady o v w dep t
    → Located m.keyblk n p.key loc r
    → Returns
        (Visited o v w dep b n m p)
        (enter b (reported m (record p { loc = negsuc 0 }) loc r) (copied m loc t))
copied-Visited dep b n m p t (negsuc k) r ready at = returns (record {
  ready =
      context-IsReady dep t (at_block b (negsuc k) t.lf) t.stk t.keyent ready ready.depth
        ready.idle;
  loc = negsuc k;
  order = r;
  located = at;
  answer = refl;
  block = refl;
  position = refl;
})
copied-Visited dep b n m p t (pos l) r ready at = returns (record {
  ready =
      context-IsReady dep t (at_block b (pos l) t.lf) t.stk (m.keyblk l) ready ready.depth
        ready.idle;
  loc = pos l;
  order = r;
  located = at;
  answer = refl;
  block = refl;
  position = refl;
})

pub visit-Visited :
    {o : State} {v : Blocks} {w : Bool} (dep b n : ℕ) (m : MemRec) (p : Probe) (s : State)
    → IsReady o v w dep s
    → suc dep < stkmax
    → v b ≡ some m
    → IsNode m n
    → Returns (Visited o v w (suc (suc dep)) b n m p) (visit (pos b) p s)
visit-Visited dep b n m p s r lt h node =
    let t : State = pushed (suc dep) s.lf.lfpos (pushed dep s.lf.lfblk s) in
    let r' = context-IsReady (suc (suc dep)) s s.lf t.stk s.keyent r refl r.idle in
    rw (visit-step b dep p s r.depth lt) (
      Returns.bind
        (bsrhbk-Located t b n m (record p { loc = negsuc 0 }) r'.cache (r'.stored b ∙ h) node refl)
        λ q u (x, loc, o, un, eu, eq, at).
          rw (eu, eq) (copied-Visited (suc (suc dep)) b n m p x loc o (Unchanged-IsReady r' un) at))

-- the entry at the context's position
pub getkeyent-step :
    (b i j : ℕ) (s t : State)
    → i < zmxkey
    → brdblk (pos b) s ≡ ok (some j, false) t
    → getkeyent (pos b) (pos i) s ≡ ok (some ((t.memrec j).keyblk i)) t
unfolding getkeyent
getkeyent-step b i j s t lt h = ground (arith, h)

pub duppos-step :
    (d : DupStore) (fuel : ℕ) (b i : ℕ) (e : KeyEnt) (s t : State)
    → s.lf.draddr ≡ znull
    → s.lf.lfexct ≡ true
    → s.lf.lfblk ≡ pos b
    → s.lf.lfpos ≡ pos i
    → getkeyent (pos b) (pos i) s ≡ ok (some e) t
    → e.dup ≡ znull
    → btduppos d fuel next s ≡ ok no_dup t
unfolding btduppos
duppos-step d fuel b i e s t h1 h2 h3 h4 run h5 = ground (arith, h1, h2, h3, h4, run, h5)

-- At a key without duplicates `btduppos` finds none, and the search stays ready where it is.
pub no_duplicates :
    {o : State} {v : Blocks} {w : Bool} {dep : ℕ} (d : DupStore) (fuel b i : ℕ) (m : MemRec)
    (s : State)
    → IsReady o v w dep s
    → v b ≡ some m
    → i < zmxkey
    → (m.keyblk i).dup ≡ znull
    → s.lf.lfexct ≡ true
    → s.lf.lfblk ≡ pos b
    → s.lf.lfpos ≡ pos i
    → Returns (λ r u. (r ≡ no_dup) × IsReady o v w dep u × (u.lf ≡ s.lf)) (btduppos d fuel next s)
no_duplicates d fuel b i m s r h lt single ex blk at =
    let (_, t, run, (j, e, l)) = outcome (brdblk-Loaded s b m r.cache (r.stored b ∙ h)) in
    rw
      (duppos-step d fuel b i ((t.memrec j).keyblk i) s t r.idle ex blk at
        (getkeyent-step b i j s t lt (run ∙ ap (λ x. ok x t) e))
        (ap (λ (x : MemRec). (x.keyblk i).dup) l.content ∙ single))
      (returns (refl, Unchanged-IsReady r (unchanged l), ap (λ (x : State). x.lf) l.context))
