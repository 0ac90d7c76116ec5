-- ===== src/Index/Split.antt =====
-- src-lib/bsptbk.c: splitting a full block. The status that it also returns is used nowhere.
pub mod Root
pub mod Part
pub mod Halves
pub mod Tree
pub mod Child
pub mod Opened
pub mod Parent
pub mod Kept
pub mod Wider
use Prim.Native.Nat.{Ordering}
use btlib.Prelude.{
  ℕ, ◌+◌, ◌-◌, ◌/◌, ◌%◌, Bool, true, false, [], ℤ, pos, is_neg, ◌==ℤ◌, ◌==◌, if◌then◌else◌,
}
use btlib.Consts.{zmxkey, znull, zbtype, znkeys, zroot, zinuse}
use btlib.Consts.Codes.{qspkey}
use btlib.Machine.{KeyEnt, M, no_arg, pure, faulty, ◌>>=◌, ◌>>◌, get, set_stat}
use btlib.Error.{bterr}
use btlib.Cache.{bsetbs}
use btlib.Info.{bgtinf, bstinf, bsetbk}
use btlib.Block.{Probe, bsrhbk, bputky, brepky, bcpybk}
use btlib.Free.{bgtfre}

-- the position of the middle key, and the number of keys behind it
abbrev pub sp : ℕ
sp = zmxkey / 2

abbrev pub sp2 : ℕ
sp2 = if zmxkey % 2 == 0 then sp - 1 else sp

-- local variables that `bsrhbk` is given; those that it sets first are arbitrary here
abbrev pub probe_pos : ℤ → Probe
probe_pos loc = record {
  key = [];
  loc = loc;
  val = pos 0;
  link1 = znull;
  link2 = znull;
  result = Ordering.eq;
  hit = false;
}

-- `*kep`, for the pointer that `bsrhbk` returned
abbrev pub deref : Probe → M KeyEnt
deref p = do s ← get; if p.hit then pure s.keyent else faulty

abbrev pub is_zero : Ordering → Bool
is_zero Ordering.eq = true
is_zero _ = false

count_split : M (Unit {0})
count_split = set_stat λ t. record t { xsplit = t.xsplit + 1 }

-- the root `blk` keeps its middle key, between the two blocks
unfoldable promote : ℤ → (blk1 blk2 : ℤ) → M ℤ
unfolding count_split
promote blk blk1 blk2 = do
  p ← bsrhbk blk (probe_pos (pos sp))
  if is_zero p.result
      then (do
        kep ← deref p
        brepky blk (pos 0) kep blk1 blk2
        bstinf blk (pos znkeys) (pos 1)
        count_split
        pure blk1)
      else (do bterr "BSPTBK" qspkey no_arg; pure znull)

-- the root's keys go to two new blocks, and the root keeps the middle one
split_root : ℤ → (blk1 blk2 : ℤ) → M ℤ
unfolding promote
split_root blk blk1 blk2 = do
  bcpybk blk1 blk 0 0 sp
  bcpybk blk2 blk 0 (sp + 1) sp2
  s ← get
  bsetbk blk1 (pos zinuse) (pos 0) blk (pos sp) s.super.scroot znull
  bsetbk blk2 (pos zinuse) (pos 0) blk (pos sp2) s.super.scroot znull
  promote blk blk1 blk2

-- the middle key of `blk` goes to its parent `pblk`, between the two blocks
unfoldable lift : (pblk blk newblk : ℤ) → M ℤ
unfolding count_split
lift pblk blk newblk = do
  p ← bsrhbk blk (probe_pos (pos sp))
  if is_zero p.result
      then (do
        bstinf blk (pos znkeys) (pos sp)
        kep ← deref p
        bputky pblk kep blk newblk
        bsetbs blk false
        count_split
        pure newblk)
      else (do bterr "BSPTBK" qspkey no_arg; pure newblk)

-- the keys behind the middle one go to a new block, and the middle one to the parent
split_block : ℤ → ℤ → M ℤ
unfolding lift
split_block blk newblk = do
  bcpybk newblk blk 0 (sp + 1) sp2
  s ← get
  let pblk = s.lf.lfblk
  bsetbk newblk (pos zinuse) (pos 0) pblk (pos sp2) s.super.scroot znull
  lift pblk blk newblk

unfoldable pub bsptbk : ℤ → M ℤ
unfolding split_root split_block
bsptbk blk = do
  type ← bgtinf blk (pos zbtype)
  if type ==ℤ pos zroot
      then (do
        blk1 ← bgtfre
        if is_neg blk1
            then pure znull
            else (do blk2 ← bgtfre; if is_neg blk2 then pure znull else split_root blk blk1 blk2))
      else (do
        bsetbs blk true
        newblk ← bgtfre
        if is_neg newblk then pure newblk else split_block blk newblk)
