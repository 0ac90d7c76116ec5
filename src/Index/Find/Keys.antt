-- ===== src/Index/Find/Keys.antt =====
-- src-lib/bfndky.c: what `bfndky` tells of a key.
use btlib.Prelude.{
  ℕ, ◌*◌, ◌≤◌, ◌<◌, ◌≡◌, ◌⊎◌, inl, inr, refl, ◌∙◌, Bool, true, false, ℤ, pos, negsuc, ◌==ℤ◌,
  if◌then◌else◌, arith,
}
use btlib.Prelude.Keys.{Key}
use btlib.Consts.{znull, stkmax}
use btlib.Consts.Codes.{qnokey}
use btlib.Machine.{State, Lf, M, no_arg, text, ok, pure, skip, ◌>>=◌, ◌>>◌}
use btlib.Machine.Returns
use btlib.Machine.Returns.{Returns, returns}
use btlib.Error.{keep_arg, bterr, bterr_clear, btgerr}
use btlib.Stack.{bstkin}
use btlib.Cache.View.{view, IsCache}
use btlib.Block.{Probe, copy_key}
use btlib.Lock.{unlock, bvalap}
use btlib.Dups.{DupStore}
use btlib.Index.Split.{probe_pos}
use btlib.Index.Find.{bfndky, bclrlf, from_root, search_down}
use btlib.Index.Find.Tree.{Has, IsTree}
use btlib.Index.Find.Path.{Ends, Stands}
use btlib.Index.Find.Step.{IsReady, context-IsCache, context-view}
use btlib.Index.Find.Search.{Answered, search_down-Answered}

-- the state in which the search starts
abbrev pub started : State → Key → State
started s lkey = record s {
  err = record { qerror = 0; qname = ""; qarg = no_arg };
  stk = record s.stk { stkptr = negsuc 0 };
  lf = record { lfblk = znull; lfpos = znull; lfexct = false; draddr = znull; lfkey = lkey };
}

abbrev sought : Key → ℤ → Probe
sought lkey val = record (probe_pos (negsuc 0)) { key = lkey; val = val }

-- The status and the value tell whether the tree at the root has the key, and its value. The
-- context `f` is then at an entry of the key, with no duplicate; for a key that the tree does not
-- have, the context `f` is at the leaf where the key belongs.
abbrev pub Told : State → ℕ → Key → ℕ × ℤ → Lf → Type 0
Told s h key (code, x) f =
    ((code ≡ 0)
      × Has (view s) h s.super.scroot key x
      × Stands (view s) h s.super.scroot key f
      × (f.draddr ≡ znull))
    ⊎ ((code ≡ qnokey)
        × ((y : ℤ) → ¬ (Has (view s) h s.super.scroot key y))
        × Ends (view s) h s.super.scroot key (started s key).lf f)

finish : Key → Bool × ℤ → M (ℕ × ℤ)
finish lkey (found, v) = do
  unlock
  if found then skip else bterr "BFNDKY" qnokey (text lkey)
  code ← btgerr
  pure (code, v)

module _ (d : DupStore) (fuel : ℕ) where
  bfndky-run :
      (key : Key) (val : ℤ) (s : State)
      → s.idxopen ≡ true
      → s.shared ≡ false
      → bfndky d fuel key val s
        ≡ (search_down d fuel fuel s.super.scroot (sought (copy_key key) val)
              >>= finish (copy_key key))
            (started s (copy_key key))
  unfolding bfndky from_root bterr_clear bvalap bstkin bclrlf finish
  bfndky-run key val s o a = ground (arith, o, a)

finish_found :
    (lkey : Key) (x : ℤ) (u : State)
    → u.shared ≡ false
    → finish lkey (true, x) u ≡ ok (u.err.qerror, x) u
unfolding finish unlock btgerr
finish_found lkey x u a = ground (arith, a)

finish_missing :
    (lkey : Key) (x : ℤ) (u : State)
    → u.shared ≡ false
    → u.err.qerror ≡ 0
    → finish lkey (false, x) u
      ≡ ok
          (qnokey, x)
          (record u {
            err = record {
              qerror = qnokey;
              qname = "BFNDKY";
              qarg = keep_arg (text lkey) u.err.qarg;
            };
          })
unfolding finish unlock btgerr bterr
finish_missing lkey x u a q = ground (arith, a, q)

-- what `bfndky` leaves behind
abbrev pub FoundKey : State → ℕ → Key → ℕ × ℤ → State → Type 0
FoundKey s h key r u =
    Told s h key r u.lf
    × IsCache u
    × ((b : ℕ) → view u b ≡ view s b)
    × (u.err.qerror ≡ r.0)
    × (u.shared ≡ false)
    × (u.super ≡ s.super)
    × (u.wt_threshold ≡ s.wt_threshold)
    × (u.idxopen ≡ s.idxopen)

finish-FoundKey :
    (w : Bool) (s : State) (h : ℕ) (lkey : Key) (r : Bool × ℤ) (u : State)
    → Answered s (view s) w h s.super.scroot lkey (started s lkey).lf r u
    → Returns (FoundKey s h lkey) (finish lkey r u)
finish-FoundKey w s h lkey (found, x) u (inl (e, has), _, ready, _, stands) =
    rw (e, finish_found lkey x u ready.alone)
      (returns (
        inl (ready.quiet, has, stands e, ready.idle),
        ready.cache,
        ready.stored,
        refl,
        ready.alone,
        ready.super,
        ready.threshold,
        ready.opened,
      ))
finish-FoundKey w s h lkey (found, x) u (inr (e, absent), _, ready, ends, _) =
    rw (e, finish_missing lkey x u ready.alone ready.quiet)
      (returns (
        inr (refl, absent, ends e),
        context-IsCache u u.lf u.stk u.keyent _ ready.cache,
        λ b. context-view u u.lf u.stk u.keyent _ b ∙ ready.stored b,
        refl,
        ready.alone,
        ready.super,
        ready.threshold,
        ready.opened,
      ))

-- In an open index that is not shared, with a well-formed cache, whose root is a search tree
-- without duplicates, of a height that the stack and the fuel suffice for and without blocks that
-- would be split, `bfndky` returns: with status 0 and a value that the key has in the tree, or
-- with QNOKEY if the tree does not have the key. The context is then at an entry of the key, in the
-- first case, or at the leaf where the key belongs, in the second. What the index stores is as before, and the
-- status is the recorded error.
pub bfndky-FoundKey :
    (d : DupStore) (fuel h : ℕ) (key : Key) (val : ℤ) (s : State)
    → s.idxopen ≡ true
    → s.shared ≡ false
    → IsCache s
    → IsTree (view s) (s.super.smode ==ℤ pos 0) h s.super.scroot
    → 2 * h ≤ stkmax
    → h < fuel
    → Returns (FoundKey s h (copy_key key)) (bfndky d fuel key val s)
bfndky-FoundKey d fuel h key val s o a v tree fits f =
    let w : Bool = s.super.smode ==ℤ pos 0 in
    let t : State = started s (copy_key key) in
    let r : IsReady s (view s) w 0 t = record {
      cache = context-IsCache s t.lf t.stk s.keyent t.err v;
      stored = λ b. context-view s t.lf t.stk s.keyent t.err b;
      depth = refl;
      mode = refl;
      idle = refl;
      quiet = refl;
      alone = a;
      super = refl;
      threshold = refl;
      opened = refl;
    } in
    rw (bfndky-run d fuel key val s o a) (
      Returns.bind
        (search_down-Answered d fuel s (view s) w h fuel 0 s.super.scroot
          (sought (copy_key key) val) t r tree (omega (arith, fits)) f)
        λ ans u answered. finish-FoundKey w s h (copy_key key) ans u answered)
