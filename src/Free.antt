-- ===== src/Free.antt =====
-- The blocks of the index file that are not in use: src-lib/bgtfre.c and bmkfre.c.
pub mod List
use btlib.Prelude.{
  ◌+◌, ◌*◌, ◌^◌, ◌%◌, Bool, none, some, ℤ, pos, negsuc, inc, dec, is_neg, ◌==ℤ◌, ltb, leb,
  if◌then◌else◌,
}
use btlib.Consts.{zblksz, btint_max, znull, zbtype, znxblk, znxdup, zfree, zdup}
use btlib.Consts.Codes.{qf2big, qwrblk, qrdblk, qnotfr}
use btlib.Machine.{M, number, no_arg, pure, skip, ◌>>=◌, ◌>>◌, get, set_cntrl, set_super, set_stat}
use btlib.Error.{bterr}
use btlib.Lru.{bqmove}
use btlib.Cache.{bgtslt, bwrblk, slot_of}
use btlib.Info.{bgtinf, bstinf, bsetbk}

-- `faddr = blk * ZBLKSZ + ZBLKSZ; faddr < 0 || faddr >= BTINT_MAX`, with the product wrapped to 32
-- bits.
abbrev pub is_too_big : ℤ → Bool
is_too_big (pos blk) = leb btint_max ((blk * zblksz + zblksz) % 2 ^ 32)
is_too_big (negsuc blk) = ltb 0 blk

abbrev modified : M (Unit {0})
modified = set_super λ p. record p { smod = p.smod + 1 }

-- a new block at the end of the file
extend : ℤ → M ℤ
extend blk = do
  i ← bgtslt
  elim i [
    | none ↦ do modified; pure znull
    | some j ↦ do
      bqmove (some j)
      set_cntrl j λ c. record c { inmem = blk; writes = 1 }
      ioerr ← bwrblk blk
      if ioerr then (do bterr "BGTFRE" qwrblk (number blk); pure znull) else (do
        set_super λ p. record p { sblkmx = inc p.sblkmx }
        set_stat λ t. record t { xgot = t.xgot + 1 }
        modified
        pure blk)
  ]

-- the block was taken off the list, or could not be read
settle : ℤ → M ℤ
settle blk = do
  if is_neg blk then skip else (do
    set_stat λ t. record t { xgot = t.xgot + 1 }
    set_super λ p. record p { snfree = dec p.snfree })
  modified
  pure blk

-- the first block of the free list
unlist : ℤ → M ℤ
unfolding settle
unlist blk = do
  i ← slot_of blk
  elim i [
    | none ↦ do bterr "BGTFRE" qrdblk (number blk); settle blk
    | some _ ↦ do
      type ← bgtinf blk (pos zbtype)
      if type ==ℤ pos zfree
          then (do
            next ← bgtinf blk (pos znxblk)
            set_super λ p. record p { sfreep = next }
            settle blk)
          else (do bterr "BGTFRE" qnotfr (number blk); pure znull)
  ]

unfoldable pub bgtfre : M ℤ
unfolding extend unlist
bgtfre = do
  s ← get
  if s.super.sfreep ==ℤ znull
      then (if is_too_big s.super.sblkmx
          then (do bterr "BGTFRE" qf2big no_arg; pure znull)
          else extend s.super.sblkmx)
      else unlist s.super.sfreep

-- freeing the active block of duplicates
drop_active : ℤ → ℤ → M (Unit {0})
drop_active croot blk = do
  type ← bgtinf blk (pos zbtype)
  if type ==ℤ pos zdup
      then (do
        active ← bgtinf croot (pos znxdup)
        if active ==ℤ blk then bstinf croot (pos znxdup) znull else skip)
      else skip

unfoldable pub bmkfre : ℤ → M (Unit {0})
unfolding drop_active
bmkfre blk = do
  s ← get
  drop_active s.super.scroot blk
  u ← get
  bsetbk blk (pos zfree) (pos 0) u.super.sfreep (pos 0) (pos 0) znull
  set_super λ p. record p { sfreep = blk; snfree = inc p.snfree }
  set_stat λ t. record t { xrel = t.xrel + 1 }
  modified
