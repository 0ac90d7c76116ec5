-- ===== src/Roots.antt =====
-- The roots of an index: src-lib/btcrtr.c, btchgr.c and btdelr.c. The names of the roots are the keys
-- of the super root, which is made the current root for a search of them.
pub mod Client
pub mod Blocks
pub mod Files
use Prim.Native.String.{String}
use btlib.Prelude.{
  ℕ, zero, suc, ◌+◌, ◌/◌, Bool, true, false, not, ◌&&◌, ◌||◌, Option, none, some, ℤ, pos, negsuc,
  inc, is_neg, ◌==ℤ◌, ◌+ℤ◌, less, ltb, ◌==◌, if◌then◌else◌,
}
use btlib.Prelude.Keys.{Key}
use btlib.Consts.{znull, zsuper, zroot, zbtype, znxblk, znkeys}
use btlib.Consts.Codes.{qbusy, qblknr, qdelcr, qrdblk, qnobtf}
use btlib.Machine.{
  M, no_arg, number, pure, skip, out_of_fuel, ◌>>=◌, ◌>>◌, get, modify, set_lf, set_stat, set_super,
}
use btlib.Error.{bterr, bterr_clear, btgerr}
use btlib.Stack.{bpush, bpull, bstkin, btstk_depth}
use btlib.Cache.{bsetbs, slot_of, brdblk}
use btlib.Info.{bgtinf, bsetbk}
use btlib.Block.{Probe, bsrhbk, copy_key}
use btlib.Free.{bgtfre, bmkfre}
use btlib.Lock.{block, bulock, unlock, locked, bvalap}
use btlib.Dups.{DupStore}
use btlib.Dups.Remove.{btcntkeys}
use btlib.Index.Split.{probe_pos}
use btlib.Index.Leaf.{bleaf}
use btlib.Index.Find.{bfndky, bclrlf}
use btlib.Index.Insert.{binsky, bupdky}
use btlib.Index.Delete.{bdelky}
use btlib.Roots.Blocks.{bnxtbk}

-- a new current root
unfoldable pub set_root : ℤ → M (Unit {0})
set_root blk = set_super λ p. record p { scroot = blk }

-- the current root is marked busy or not
unfoldable pub mark_root : Bool → M (Unit {0})
mark_root busy = do s ← get; bsetbs s.super.scroot busy

mark_unless_null : Bool → M (Unit {0})
mark_unless_null busy = do
  s ← get
  if is_neg s.super.scroot then skip else bsetbs s.super.scroot busy

modified : M (Unit {0})
modified = set_super λ p. record p { smod = p.smod + 1 }

-- the named root becomes the current one
name_root : ℤ → Key → M (Unit {0})
unfolding set_root mark_root
name_root blk root = do
  set_super λ p. record p { scroot = blk; scclas = copy_key root }
  mark_root true

module _ (d : DupStore) (fuel : ℕ) where
  -- the new root, once its name is in the super root
  new_root : Key → M (Unit {0})
  unfolding name_root
  new_root root = do
    blk ← bgtfre
    if blk ==ℤ pos 0 then skip else (do
      status ← bupdky d fuel (some root) blk
      if not (status == 0)
          then skip
          else (do bsetbk blk (pos zroot) (pos 0) znull (pos 0) blk znull; name_root blk root))

  create_root : Key → M (Unit {0})
  unfolding new_root modified mark_root set_root
  create_root root = do
    s ← get
    bsetbs s.super.scroot false
    set_root zsuper
    mark_root true
    status ← binsky d fuel root znull
    modified
    mark_root false
    bclrlf
    if status == 0 then new_root root else (do set_root s.super.scroot; mark_root true)

  -- a command on roots, with the lock
  with_lock : String → M (Unit {0}) → M ℕ
  with_lock fname command = do
    bterr_clear
    status ← bvalap fname
    if not (status == 0) then pure status else (do
      granted ← locked
      if granted then command else bterr fname qbusy no_arg
      unlock
      btgerr)

  unfoldable pub btcrtr : Key → M ℕ
  unfolding create_root with_lock
  btcrtr root = with_lock "BTCRTR" (create_root root)

  change_root : Key → M (Unit {0})
  unfolding mark_unless_null mark_root set_root name_root
  change_root root = do
    s ← get
    mark_unless_null false
    set_root zsuper
    mark_root true
    (status, blk) ← bfndky d fuel root (pos 0)
    mark_root false
    bclrlf
    if status == 0
        then (do
          type ← bgtinf blk (pos zbtype)
          if type ==ℤ pos zroot then name_root blk root else bterr "BTCHGR" qblknr (number blk))
        else (do set_root s.super.scroot; if s.super.scroot ==ℤ znull then skip else mark_root true)

  unfoldable pub btchgr : Key → M ℕ
  unfolding change_root with_lock
  btchgr root = with_lock "BTCHGR" (change_root root)

  -- the data blocks of a root
  free_chain : ℕ → ℤ → M (Unit {0})
  free_chain zero blk s = out_of_fuel
  free_chain (suc k) blk s =
      (if blk ==ℤ znull
          then skip
          else (do next ← bgtinf blk (pos znxblk); bmkfre blk; free_chain k next))
        s

  -- its other blocks
  free_tree : ℕ → ℤ → M (Unit {0})
  free_tree zero blk s = out_of_fuel
  free_tree (suc k) blk s =
      (if blk ==ℤ s.super.scroot
          then skip
          else (do bmkfre blk; (_, next) ← bnxtbk fuel blk; free_tree k next))
        s

  -- the named root becomes the current one, and all its blocks are freed
  free_root : ℤ → M (Unit {0})
  unfolding free_chain free_tree mark_root set_root
  free_root blk = do
    set_root blk
    mark_root true
    s ← get
    first ← bgtinf s.super.scroot (pos znxblk)
    free_chain fuel first
    (_, leaf) ← bnxtbk fuel znull
    free_tree fuel leaf
    mark_root false
    u ← get
    bmkfre u.super.scroot

  delete_root : Key → M (Unit {0})
  unfolding free_root modified mark_unless_null mark_root set_root
  delete_root root = do
    s ← get
    mark_unless_null false
    set_root zsuper
    mark_root true
    (status, blk) ← bfndky d fuel root (pos 0)
    if not (status == 0)
        then skip
        else (if (blk ==ℤ s.super.scroot) || (blk ==ℤ zsuper)
            then (do mark_root false; bterr "BTDELR" qdelcr no_arg)
            else (do
              gone ← bdelky d fuel (some root)
              if gone == 0 then (do bclrlf; modified; mark_root false; free_root blk) else skip))
    set_root s.super.scroot
    mark_unless_null true

  unfoldable pub btdelr : Key → M ℕ
  unfolding delete_root with_lock
  btdelr root = with_lock "BTDELR" (delete_root root)
