-- ===== src/Index/Insert.antt =====
-- src-lib/binsky.c, bupdky.c, bmodky.c and btdups.c: inserting a key, changing its value, and
-- allowing duplicates.
pub mod Duplicate
pub mod Apart
pub mod Leaf
pub mod Above
pub mod Grow
pub mod Place
pub mod Fresh
use btlib.Prelude.{
  ℕ, Bool, true, not, ◌&&◌, ◌||◌, Option, none, some, ℤ, pos, negsuc, ◌==ℤ◌, leb, ◌==◌,
  if◌then◌else◌, set,
}
use btlib.Prelude.Keys.{Key}
use btlib.Consts.{zmxkey, znull, zsuper, zmisc}
use btlib.Consts.Codes.{qnokey, qbusy, qnowrt, qdup, qloctb, qrdblk, qnodups}
use btlib.Machine.{MemRec, M, no_arg, number, text, pure, skip, ◌>>=◌, ◌>>◌, get}
use btlib.Error.{bterr, bterr_clear, btgerr}
use btlib.Cache.{slot_of}
use btlib.Info.{bgtinf, bstinf, touch}
use btlib.Block.{bputky, copy_key}
use btlib.Lock.{locked, unlock, bvalap}
use btlib.Dups.{DupStore, btdupkey, btdupupd}
use btlib.Index.Leaf.{bleaf}
use btlib.Index.Find.{bfndky}

abbrev pub has_dups : ℤ → Bool
has_dups w = not (w ==ℤ pos 0)

abbrev set_val : ℕ → ℤ → MemRec → MemRec
set_val l val m = record m { keyblk = set m.keyblk l (record (m.keyblk l) { val = val }) }

module _ (d : DupStore) (fuel : ℕ) where
  -- the key is new, or has duplicates
  pub place : Key → ℤ → ℕ → M (Unit {0})
  place key val status = if status == 0 then btdupkey d key val >> skip else (do
    bleaf fuel 1
    s ← get
    bputky s.lf.lfblk (record { key = copy_key key; val = val; dup = znull }) znull znull)

  pub insert_key : Key → ℤ → M (Unit {0})
  insert_key key val = do
    s ← get
    if not (s.super.smode ==ℤ pos 0) then bterr "BINSKY" qnowrt no_arg else (do
      misc ← bgtinf s.super.scroot (pos zmisc)
      (status, _) ← bfndky d fuel (copy_key key) (pos 0)
      if (status == qnokey) || ((status == 0) && has_dups misc)
          then (do bterr_clear; place key val status)
          else bterr "BINSKY" qdup (text key))

  unfoldable pub binsky : Key → ℤ → M ℕ
  unfolding insert_key place
  binsky key val = do
    bterr_clear
    status ← bvalap "BINSKY"
    if not (status == 0) then pure status else (do
      granted ← locked
      if granted then insert_key key val else bterr "BINSKY" qbusy no_arg
      unlock
      btgerr)

  unfoldable pub bmodky : ℤ → ℤ → ℤ → M ℕ
  bmodky blk (negsuc l) val = do bterr "BMODKY" qloctb (number (negsuc l)); btgerr
  bmodky blk (pos l) val = do
    if leb zmxkey l then bterr "BMODKY" qloctb (number (pos l)) else (do
      dup ← btdupupd d val
      if dup then skip else (do
        i ← slot_of blk
        elim i [ none ↦ bterr "BMODKY" qrdblk (number blk) | some j ↦ touch j (set_val l val) ]))
    btgerr

  find_given : Option Key → M (ℕ × ℤ)
  find_given none = pure (0, pos 0)
  find_given (some k) = bfndky d fuel k (pos 0)

  -- `none` for the key is the call that updates at the current position
  update_key : Option Key → ℤ → M (Unit {0})
  update_key key val = do
    (status, _) ← find_given key
    if status == 0 then (do s ← get; bmodky s.lf.lfblk s.lf.lfpos val; skip) else skip

  unfoldable pub bupdky : Option Key → ℤ → M ℕ
  unfolding update_key find_given
  bupdky key val = do
    bterr_clear
    status ← bvalap "BUPDKY"
    if not (status == 0) then pure status else (do
      s ← get
      if not (s.super.smode ==ℤ pos 0) then bterr "BUPDKY" qnowrt no_arg else (do
        granted ← locked
        if granted then update_key key val else bterr "BUPDKY" qbusy no_arg)
      unlock
      btgerr)

-- A lock that was not granted is not given back.
unfoldable pub btdups : ℤ → M ℕ
btdups dups = do
  bterr_clear
  status ← bvalap "BTDUPS"
  if not (status == 0) then pure status else (do
    s ← get
    if s.super.scroot ==ℤ zsuper then bterr "BTDUPS" qnodups no_arg else (do
      granted ← locked
      if granted
          then (do bstinf s.super.scroot (pos zmisc) dups; unlock)
          else bterr "BTDUPS" qbusy no_arg)
    btgerr)
