-- ===== src/Index/Walk/Leaf.antt =====
-- src-lib/bnxtky.c: the walk through the keys of a root that is a leaf.
use btlib.Prelude.{
  ℕ, suc, ◌≤◌, ◌<◌, ◌≡◌, ◌⊎◌, ap, ◌∙◌, Bool, true, false, Option, none, some, pos, inc, less,
  if◌then◌else◌, arith,
}
use btlib.Consts.{zmxkey, znull, znkeys}
use btlib.Machine.{State, Lf, MemRec, KeyEnt, M, ok, pure, ◌>>=◌, get}
use btlib.Stack.Laws.{HasDepth}
use btlib.Cache.{brdblk}
use btlib.Cache.View.{view, IsCache, rest-IsCache, rest-view}
use btlib.Cache.Read.{Loaded}
use btlib.Info.{bgtinf}
use btlib.Block.{copy_key}
use btlib.Dups.{DupStore, no_dup, next, btduppos}
use btlib.Index.Leaf.{bleaf}
use btlib.Index.Walk.{Step, next_round, advance, take_key, with_dups}

-- A walk is under way in block `b`, below which the stack has only null links.
pub record IsWalking (o : State) (b : ℕ) (s : State) : Type 0 where
  pub cache : IsCache s
  pub stored : (c : ℕ) → view s c ≡ view o c
  pub opened : s.idxopen ≡ true
  pub alone : s.shared ≡ false
  pub quiet : s.err.qerror ≡ 0
  pub idle : s.lf.draddr ≡ znull
  pub block : s.lf.lfblk ≡ pos b
  pub depth : HasDepth 2 s
  pub bottom : (i : ℕ) → i < 2 → s.stk.stk i ≡ znull

-- the context `f` is before the key at `i`: it is at the key before that, or has not been at one
abbrev pub IsBefore : ℕ → Lf → Type 0
IsBefore i f =
    ((f.lfexct ≡ false) × (f.lfpos ≡ pos i))
    ⊎ ((p : ℕ) × (i ≡ suc p) × (f.lfexct ≡ true) × (f.lfpos ≡ pos p))

-- a state with another context
abbrev pub moved : State → Lf → State
moved s f = record s { lf = f }

module _ {o : State} {b : ℕ} where
  pub read-IsWalking :
      {s t : State} {c j : ℕ} {m : MemRec} → IsWalking o b s → Loaded s t c j m → IsWalking o b t
  read-IsWalking w l = record {
    cache = l.cache;
    stored = λ c. l.stored c ∙ w.stored c;
    opened = ap (λ (y : State). y.idxopen) l.context ∙ w.opened;
    alone = ap (λ (y : State). y.shared) l.context ∙ w.alone;
    quiet = ap (λ (y : State). y.err.qerror) l.context ∙ w.quiet;
    idle = ap (λ (y : State). y.lf.draddr) l.context ∙ w.idle;
    block = ap (λ (y : State). y.lf.lfblk) l.context ∙ w.block;
    depth = ap (λ (y : State). inc y.stk.stkptr) l.context ∙ w.depth;
    bottom = λ i lt. ap (λ (y : State). y.stk.stk i) l.context ∙ w.bottom i lt;
  }

  pub moved-IsWalking :
      (s : State) (f : Lf)
      → IsWalking o b s
      → f.draddr ≡ znull
      → f.lfblk ≡ pos b
      → IsWalking o b (moved s f)
  moved-IsWalking s f w idle block = record {
    cache = rest-IsCache s f s.stk s.stat s.super s.err s.keyent w.cache;
    stored = λ c. rest-view s f s.stk s.stat s.super s.err s.keyent c ∙ w.stored c;
    opened = w.opened;
    alone = w.alone;
    quiet = w.quiet;
    idle = idle;
    block = block;
    depth = w.depth;
    bottom = w.bottom;
  }

-- the position behind the key
abbrev pub behind : ℕ → Lf → Lf
behind p f = record f { lfpos = pos (suc p); draddr = znull }

-- the key that the context remembers
abbrev pub taken : State → KeyEnt → State
taken s e = moved s (record s.lf { lfkey = copy_key e.key })

module _ (d : DupStore) (fuel : ℕ) where
  -- `next_round` after `advance`
  abbrev pub arrive : ℕ → Option ℕ → M (Bool × Step)
  arrive n j = elim j [
    | none ↦ pure (false, none)
    | some idx ↦ do
      u ← get
      if less u.lf.lfpos (pos n)
          then (do found ← take_key idx; step ← with_dups d fuel next found; pure (true, step))
          else pure (false, none)
  ]

  pub round-start :
      (b j n i : ℕ) (s t u : State)
      → s.lf.lfblk ≡ pos b
      → s.lf.lfpos ≡ pos i
      → brdblk (pos b) s ≡ ok (some j, false) t
      → t.lf ≡ s.lf
      → bgtinf (pos b) (pos znkeys) t ≡ ok (pos n) u
      → i < n
      → next_round d fuel s ≡ (advance d fuel j >>= arrive n) u
  unfolding next_round
  round-start b j n i s t u blk place run same run' lt =
      ground (arith, blk, place, run, same, run', lt)

  pub advance-first :
      (j : ℕ) (s : State)
      → s.lf.lfexct ≡ false
      → advance d fuel j s ≡ ok (some j) (moved s (record s.lf { lfexct = true }))
  unfolding advance
  advance-first j s e = ground (arith, e)

  pub advance-on :
      (j p : ℕ) (s : State)
      → s.lf.lfexct ≡ true
      → s.lf.lfpos ≡ pos p
      → advance d fuel j s ≡ bleaf fuel 0 (moved s (behind p s.lf))
  unfolding advance
  advance-on j p s e place = ground (arith, e, place)

  pub arrive-end :
      (n j p : ℕ) (s : State)
      → s.lf.lfpos ≡ pos p
      → n ≤ p
      → arrive n (some j) s ≡ ok (false, none) s
  arrive-end n j p s place le = ground (arith, place, le)

  pub arrive-key :
      (n j i : ℕ) (m : MemRec) (s t : State)
      → s.lf.lfpos ≡ pos i
      → i < n
      → i < zmxkey
      → s.memrec j ≡ m
      → btduppos d fuel next (taken s (m.keyblk i)) ≡ ok no_dup t
      → arrive n (some j) s ≡ ok (true, some (copy_key (m.keyblk i).key, (m.keyblk i).val)) t
  unfolding take_key with_dups
  arrive-key n j i m s t place lt lt' content run = ground (arith, place, lt, lt', content, run)
