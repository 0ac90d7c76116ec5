-- ===== src/Lock.antt =====
-- Sharing an index file: src-lib/bsuper.c, `btsync` of btcls.c, bsemap.c and bvalap.c. A request
-- for the lock is answered by the next of `grants`; with none left it times out. The handle `b` of
-- the callers is the index of the state, which `idxopen` says is open.
pub mod Nested
use Prim.Native.String.{String}
use btlib.Prelude.{
  ℕ, zero, suc, ◌+◌, ◌-◌, Bool, true, false, not, ◌&&◌, [], ◌∷◌, pos, negsuc, ◌==ℤ◌, ltb, ◌==◌,
  if◌then◌else◌,
}
use btlib.Consts.{zmxblk, zvers, zsuper, znull, zbtype, zmisc, znxblk, znkeys, znblks, zroot}
use btlib.Consts.Codes.{qrdsup, qblknr, qbadvr, qwrsup, qwrblk, qbadap}
use btlib.Machine.{M, number, no_arg, ok, pure, skip, ◌>>=◌, ◌>>◌, get, modify, set_super}
use btlib.Error.{bterr, btgerr}
use btlib.Cache.{brdblk, bwrblk, bsetbs, initcntrl}
use btlib.Info.{bgtinf, bsetbk}

unfoldable pub brdsup : M ℕ
brdsup = do
  (_, errcode) ← brdblk zsuper
  if errcode then bterr "BRDSUP" qrdsup no_arg else (do
    ver ← bgtinf zsuper (negsuc 0)
    type ← bgtinf zsuper (pos zbtype)
    misc ← bgtinf zsuper (pos zmisc)
    if not (type ==ℤ pos zroot)
        then bterr "BRDSUP" qblknr (number zsuper)
        else (if not (ver ==ℤ pos zvers) then bterr "BRDSUP" qbadvr (number (pos zvers)) else (do
          free ← bgtinf zsuper (pos znxblk)
          blkmx ← bgtinf zsuper (pos znblks)
          set_super λ p. record p { snfree = misc; sfreep = free; sblkmx = blkmx })))
  btgerr

-- true for an error
unfoldable pub bwrsup : M Bool
bwrsup = do
  (_, errcode) ← brdblk zsuper
  if errcode then (do bterr "BWRSUP" qrdsup (number zsuper); pure true) else (do
    nkeys ← bgtinf zsuper (pos znkeys)
    s ← get
    bsetbk zsuper (pos zroot) s.super.snfree s.super.sfreep nkeys s.super.sblkmx znull
    ioerr ← bwrblk zsuper
    if ioerr then bterr "BWRSUP" qwrsup (number zsuper) else skip
    pure ioerr)

-- the loop of `btsync` over the slots from `i` on: whether all were written
write_slots : ℕ → ℕ → M Bool
write_slots zero i s = ok true s
write_slots (suc n) i s =
    (do
      ioerr ← bwrblk (s.cntrl i).inmem
      if ioerr
          then (do u ← get; bterr "BTSYNC" qwrblk (number (u.cntrl i).inmem); pure false)
          else write_slots n (suc i))
      s

-- the super block, if it was changed: whether that went well
sync_super : M Bool
sync_super = do
  s ← get
  if s.super.smod == 0 then pure true else (do
    failed ← bwrsup
    if failed then pure false else (do set_super λ p. record p { smod = 0 }; pure true))

unfoldable pub btsync : M ℕ
unfolding write_slots sync_super
btsync = do
  s ← get
  written ← (if s.idxopen then write_slots zmxblk 0 else pure true)
  done ← (if s.idxopen && written then sync_super else pure written)
  if done then initcntrl else skip
  btgerr

-- the next answer to a request for the lock
request : M Bool
request s = elim s.grants [ [] ↦ ok false s | g ∷ gs ↦ ok g (record s { grants = gs }) ]

-- With the lock, the super block is read and the current root kept in memory.
refresh : M (Unit {0})
refresh = do
  s ← get
  if s.shared && not (s.super.scroot ==ℤ znull)
      then (do
        brdsup
        (_, ierr) ← brdblk s.super.scroot
        if ierr then skip else bsetbs s.super.scroot true)
      else skip

unfoldable pub block : M Bool
unfolding request refresh
block = do
  s ← get
  if ltb 0 s.lckcnt then (do modify λ s. record s { lckcnt = s.lckcnt + 1 }; pure true) else (do
    granted ← request
    if granted then (do refresh; modify λ s. record s { lckcnt = 1 }; pure true) else pure false)

-- Giving the lock back does not fail.
unfoldable pub bulock : M (Unit {0})
bulock = do
  s ← get
  if ltb 1 s.lckcnt
      then (modify λ s. record s { lckcnt = s.lckcnt - 1 })
      else (if s.lckcnt == 1 then (do btsync; modify λ s. record s { lckcnt = 0 }) else skip)

unfoldable pub bvalap : String → M ℕ
bvalap fn = do s ← get; if s.idxopen then pure 0 else (do bterr fn qbadap no_arg; pure qbadap)

-- `if (btact->shared) bulock();`
unfoldable pub unlock : M (Unit {0})
unfolding bulock
unlock = do s ← get; if s.shared then bulock else skip

-- the routines of the interface run with the lock, or report that the index is busy
unfoldable pub locked : M Bool
locked = do s ← get; if s.shared then block else pure true
