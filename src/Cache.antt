-- ===== src/Cache.antt =====
-- The in-memory blocks: src-lib/brdblk.c, bwrblk.c, bgtslt.c, bsetbs.c, and `initcntrl` of
-- bacini.c. A slot is an index into `cntrl` and `memrec`, `none` where the C code has -1.
pub mod View
pub mod Kept
pub mod Evict
pub mod Fill
pub mod Read
pub mod Adjust
pub mod Mark
pub mod Start
use btlib.Prelude.{
  ℕ, zero, suc, ◌+◌, ◌<◌, Bool, true, false, not, Option, none, some, ℤ, pos, negsuc, ◌==◌, ◌==ℤ◌,
  is_neg, if◌then◌else◌, set, first_from,
}
use btlib.Consts.{zmxblk, znull}
use btlib.Consts.Codes.{qwrmem, qnomem, qwrblk, qrdblk}
use btlib.Machine.{
  State, Run, Cntrl, MemRec, Stats, Lru, M, number, no_arg, ok, pure, faulty, skip, ◌>>=◌, ◌>>◌,
  get, modify, set_cntrl, set_stat,
}
use btlib.Error.{bterr}
use btlib.Lru.{bqmove, bqhead, bqadd}

-- the first slot whose control entry passes a test
abbrev pub find_slot : (Cntrl → Bool) → State → Option ℕ
find_slot p s = first_from zmxblk 0 λ i. p (s.cntrl i)

abbrev pub holds : ℤ → Cntrl → Bool
holds blk c = c.inmem ==ℤ blk

abbrev pub is_unused : Cntrl → Bool
is_unused c = is_neg c.inmem

-- `fseeko` and `fread` of a block; a seek to a negative offset fails
abbrev pub read_file : ℤ → State → Option MemRec
read_file (pos n) s = s.file n
read_file (negsuc n) s = none

-- `fseeko` and `fwrite` of a block: whether it succeeds
abbrev pub write_file : ℤ → MemRec → M Bool
write_file (pos n) m s =
    if s.room n then ok true (record s { file = set s.file n (some m) }) else ok false s
write_file (negsuc n) m s = ok false s

-- the write of slot `i`: true for an I/O error
flush : ℤ → ℕ → M Bool
flush blk i = do
  s ← get
  if (s.cntrl i).writes == 0
      then (do (set_stat λ t. record t { xlogwr = t.xlogwr + 1 }); pure false)
      else (do
        done ← write_file blk (s.memrec i)
        if done then (set_stat λ t. record t { xphywr = t.xphywr + 1 }) else skip
        pure (not done))

-- If no slot holds the block, `writes` is reset behind the end of `cntrl`.
unfoldable pub bwrblk : ℤ → M Bool
unfolding flush
bwrblk blk = do
  s ← get
  elim (find_slot (holds blk) s) [
    | none ↦ do bterr "BWRBLK" qwrmem (number blk); faulty
    | some i ↦ do ioerr ← flush blk i; set_cntrl i λ c. record c { writes = 0 }; pure ioerr
  ]

-- a slot that is to be used anew is written first, if it holds a block
clean : ℕ → M (Unit {0})
clean i = do
  s ← get
  if is_unused (s.cntrl i) then skip else (do
    ioerr ← bwrblk (s.cntrl i).inmem
    if ioerr then bterr "BGTSLT" qwrblk (number (s.cntrl i).inmem) else skip)

-- a free slot, else the least recently used one that is not busy
choose : M (Option ℕ)
choose = do s ← get; elim (find_slot is_unused s) [ some i ↦ pure (some i) | none ↦ bqhead ]

unfoldable pub bgtslt : M (Option ℕ)
unfolding choose clean
bgtslt = do i ← choose; elim i [ none ↦ bterr "BGTSLT" qnomem no_arg | some j ↦ clean j ]; pure i

-- what `fread` put into slot `i`
fill : ℤ → ℕ → M (Option ℕ × Bool)
fill blk i = do
  s ← get
  elim (read_file blk s) [
    | none ↦ pure (none, true)
    | some m ↦ do
      modify λ s. record s { memrec = set s.memrec i m }
      set_stat λ t. record t { xphyrd = t.xphyrd + 1 }
      set_cntrl i λ c. record c { inmem = blk }
      bqmove (some i)
      pure (some i, false)
  ]

-- the slot of the block, and whether an I/O error occurred
unfoldable pub brdblk : ℤ → M (Option ℕ × Bool)
unfolding fill
brdblk blk = do
  s ← get
  elim (find_slot (holds blk) s) [
    | some i ↦ do
      set_stat λ t. record t { xlogrd = t.xlogrd + 1 }
      bqmove (some i)
      pure (some i, false)
    | none ↦ do i ← bgtslt; elim i [ none ↦ pure (none, false) | some j ↦ fill blk j ]
  ]

-- `ioerr = brdblk(blk, &idx); if (idx < 0 || ioerr != 0)`: the slot, if both tests pass
unfoldable pub slot_of : ℤ → M (Option ℕ)
unfolding brdblk
slot_of blk = do (i, ioerr) ← brdblk blk; pure (if ioerr then none else i)

unfoldable pub bsetbs : ℤ → Bool → M (Unit {0})
unfolding slot_of
bsetbs blk busy = do
  i ← slot_of blk
  elim i [
    | none ↦ bterr "BSETBS" qrdblk (number blk)
    | some j ↦ set_cntrl j λ c. record c { busy = busy }
  ]

-- the rounds of `initcntrl`
init_slots : ℕ → ℕ → M (Unit {0})
init_slots zero i s = ok tt s
init_slots (suc n) i s =
    ((set_cntrl i λ c. record c { inmem = znull; busy = false; writes = 0 })
        >> bqadd i
        >> init_slots n (suc i))
      s

unfoldable pub initcntrl : M (Unit {0})
unfolding init_slots
initcntrl = do
  modify λ s. record s { lru = record { lrut = none; lruh = none } }
  init_slots zmxblk 0
