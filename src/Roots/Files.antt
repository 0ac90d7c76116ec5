-- ===== src/Roots/Files.antt =====
-- src-lib/btcrt.c, btopn.c and btcls.c: the blocks of a new index, the roots of an opened one, and
-- the locks of one that is closed. They start where the system has opened the file and memory was
-- allocated, with `initcntrl` done, and end where it closes the file, which is taken to succeed.
use btlib.Prelude.{
  ℕ, zero, suc, ◌-◌, ◌/◌, Bool, true, false, not, none, some, [], ◌∷◌, ℤ, pos, inc, ltb, ◌==◌,
  if◌then◌else◌, set,
}
use btlib.Prelude.Keys.{Key}
use btlib.Consts.{zmxkey, znull, zsuper, zroot}
use btlib.Consts.Codes.{qbusy, qwrsup, qwrblk, qrdblk}
use btlib.Machine.{
  MemRec, M, no_arg, number, pure, skip, faulty, out_of_fuel, ◌>>=◌, ◌>>◌, get, modify, set_memrec,
  set_cntrl, set_super,
}
use btlib.Error.{bterr, bterr_clear, btgerr}
use btlib.Cache.{bgtslt, brdblk, bwrblk, bsetbs}
use btlib.Info.{bsetbk}
use btlib.Free.{bmkfre}
use btlib.Lock.{block, bulock, unlock, bvalap, brdsup}
use btlib.Dups.{DupStore}
use btlib.Roots.{btchgr}

-- "$$super" and "$$default"
abbrev super_name : Key
super_name = b'$' ∷ (b'$' ∷ (b's' ∷ (b'u' ∷ (b'p' ∷ (b'e' ∷ (b'r' ∷ []))))))

abbrev default_name : Key
default_name = b'$' ∷ (b'$' ∷ (b'd' ∷ (b'e' ∷ (b'f' ∷ (b'a' ∷ (b'u' ∷ (b'l' ∷ (b't' ∷ []))))))))

default_root : ℤ
default_root = pos 1

-- a free slot gets the number of a block
take_slot : ℤ → M ℕ
take_slot blk = do
  i ← bgtslt
  elim i [ none ↦ faulty | some j ↦ do set_cntrl j λ c. record c { inmem = blk }; pure j ]

-- the two keys of the super root
abbrev name_roots : MemRec → MemRec
name_roots m = record m {
  keyblk =
      set (set m.keyblk 1 (record { key = super_name; val = zsuper; dup = znull })) 0
        (record { key = default_name; val = pos 1; dup = znull });
  lnkblk = set (set (set m.lnkblk 0 znull) 1 znull) 2 znull;
}

-- the super root is written to the file
make_super : M Bool
unfolding take_slot
make_super = do
  j ← take_slot zsuper
  s ← get
  bsetbk zsuper (pos zroot) s.super.snfree s.super.sfreep (pos 2) s.super.sblkmx znull
  set_memrec j name_roots
  ioerr ← bwrblk zsuper
  if ioerr then (do bterr "BTCRT" qwrsup (number zsuper); pure false) else pure true

-- the default root is made, written and marked busy
make_default : M Bool
unfolding take_slot default_root
make_default = do
  take_slot default_root
  set_super λ p. record p { scroot = default_root; scclas = default_name }
  bsetbk default_root (pos zroot) (pos 0) znull (pos 0) default_root znull
  unwritten ← bwrblk default_root
  if unwritten then (do bterr "BTCRT" qwrblk (number default_root); pure false) else (do
    (_, unread) ← brdblk default_root
    if unread
        then (do bterr "BTCRT" qrdblk (number default_root); pure false)
        else (do bsetbs default_root true; pure true))

-- `n` blocks from `i` on become free, all in slot `j`
free_blocks : ℕ → ℕ → ℕ → M (Unit {0})
free_blocks zero j i s = skip s
free_blocks (suc n) j i s =
    (do
      set_cntrl j λ c. record c { inmem = pos i }
      bmkfre (pos i)
      set_super λ p. record p { sblkmx = inc p.sblkmx }
      free_blocks n j (suc i))
      s

-- the initial free list, for an expected number of keys
make_free : ℕ → M (Unit {0})
unfolding free_blocks
make_free nkeys = if nkeys == 0 then skip else (do
  i ← bgtslt
  elim i [
    | none ↦ if ltb 2 (nkeys / zmxkey) then faulty else skip
    | some j ↦ free_blocks (nkeys / zmxkey - 2) j 2
  ])

-- the file is closed after an error
give_up : M Bool
give_up = do modify λ s. record s { idxopen = false }; pure false

-- Whether the index was created.
unfoldable pub btcrt : ℕ → M Bool
unfolding make_super make_default make_free give_up
btcrt nkeys = do
  bterr_clear
  set_super λ p. record p { scroot = znull }
  granted ← block
  if not granted then (do bterr "BTCRT" qbusy no_arg; give_up) else (do
    set_super
        λ p. record p { sblkmx = pos 2; snfree = pos 0; sfreep = znull; smod = 1; smode = pos 0 }
    made ← make_super
    ready ← (if made then make_default else pure false)
    if not ready
        then (do unlock; give_up)
        else (do make_free nkeys; unlock; code ← btgerr; pure (code == 0)))

module _ (d : DupStore) (fuel : ℕ) where
  -- the default root of an opened index
  open_default : ℤ → M Bool
  open_default mode = do
    failed ← brdsup
    if not (failed == 0) then pure false else (do
      status ← btchgr d fuel default_name
      if not (status == 0)
          then pure false
          else (do set_super λ p. record p { smode = mode }; code ← btgerr; pure (code == 0)))

  -- Whether the index was opened.
  unfoldable pub btopn : ℤ → M Bool
  unfolding open_default give_up
  btopn mode = do
    bterr_clear
    set_super λ p. record p { smod = 0; scroot = zsuper }
    granted ← block
    done ← (if granted then open_default mode else (do bterr "BTOPN" qbusy no_arg; pure false))
    unlock
    if done then pure true else give_up

-- `while (btact->lckcnt > 0) bulock();`
unlock_all : ℕ → M (Unit {0})
unlock_all zero s = out_of_fuel
unlock_all (suc k) s = (if ltb 0 s.lckcnt then (do bulock; unlock_all k) else skip) s

unfoldable pub btcls : ℕ → M ℕ
unfolding unlock_all
btcls fuel = do
  bterr_clear
  status ← bvalap "BTCLS"
  if not (status == 0)
      then pure status
      else (do unlock_all fuel; modify λ s. record s { idxopen = false }; btgerr)
