-- ===== src/Data/Segment.antt =====
-- src-lib/btdata.c: the segments of data records, and the blocks that they are in.
pub mod Insert
pub mod Stored
use btlib.Prelude.{
  ℕ, zero, suc, ◌+◌, Bool, true, false, not, ◌||◌, Option, none, some, ℤ, pos, negsuc, ◌==ℤ◌, ◌+ℤ◌,
  ◌-ℤ◌, less, leb, if◌then◌else◌, set,
}
use btlib.Consts.{
  datasz, zdrsz, zdovrh, zdsgmn, dkeysz, znull, zdata, zdup, zmisc, znxblk, znkeys, znblks,
}
use btlib.Consts.Codes.{qnegsz, qdaovr}
use btlib.Machine.{MemRec, M, number, pure, skip, faulty, ◌>>=◌, ◌>>◌, get}
use btlib.Error.{bterr}
use btlib.Cache.{brdblk}
use btlib.Info.{bgtinf, bstinf, bsetbk, touch}
use btlib.Block.{write_through}
use btlib.Free.{bgtfre, bmkfre}
use btlib.Data.Words.{rdsz, rdint, wrsz, wrint, block_of, offset_of, mkdraddr}

-- what a data block is for: ZDATA or ZDUP
pub data Kind : Type 0 where
  of_records : Kind
  of_dups : Kind

abbrev pub kind_word : Kind → ℤ
kind_word of_records = pos zdata
kind_word of_dups = pos zdup

-- the slot of a block; `none` for an I/O error. Without a slot the data would be in front of
-- `memrec`.
unfoldable pub data_slot : ℤ → M (Option ℕ)
data_slot blk = do
  (i, ioerr) ← brdblk blk
  if ioerr then pure none else elim i [ none ↦ faulty | some j ↦ pure (some j) ]

-- whether the information and `size` bytes of a segment at an offset are in the block
abbrev pub fits : ℕ → ℕ → Bool
fits offset size = leb (offset + zdovrh + size) datasz

abbrev pub seg_size : MemRec → ℕ → ℕ
seg_size m offset = rdsz m.bytes offset

abbrev pub next_seg : MemRec → ℕ → ℤ
next_seg m offset = rdint m.bytes (offset + zdrsz)

-- The size of a segment and the address of the next one. The callers have the block in memory; a
-- failed read would leave their variables as they are, and is taken as a fault.
unfoldable pub getseginfo : ℤ → M (ℕ × ℤ)
getseginfo draddr = do
  i ← data_slot (block_of draddr)
  elim i [
    | none ↦ faulty
    | some j ↦ do
      s ← get
      let o = offset_of draddr
      if fits o 0 then pure (seg_size (s.memrec j) o, next_seg (s.memrec j) o) else faulty
  ]

-- `n` bytes of `src` from `start` on go to offset `o`
unfoldable pub copy_bytes : ℕ → ℕ → ℕ → (ℕ → ℕ) → (ℕ → ℕ) → ℕ → ℕ
copy_bytes zero start o src a = a
copy_bytes (suc n) start o src a = copy_bytes n (suc start) (suc o) src (set a o (src start))

-- a segment's information and data
unfoldable pub store_segment : (src : ℕ → ℕ) → (start size : ℕ) → ℤ → ℕ → MemRec → MemRec
unfolding copy_bytes
store_segment src start size next o m = record m {
  bytes = copy_bytes size start (o + zdovrh) src (wrint next (wrsz size m.bytes o) (o + zdrsz));
}

-- the first free byte is at `n` now, and `size` bytes fewer are free
pub count_segment : ℤ → (n size : ℕ) → M (Unit {0})
count_segment blk n size = do
  bstinf blk (pos znkeys) (pos n)
  freesz ← bgtinf blk (pos zmisc)
  bstinf blk (pos zmisc) (freesz -ℤ pos size)

-- the segment at the first free byte, at offset `o`
pub put_segment : ℤ → (src : ℕ → ℕ) → (start size : ℕ) → ℤ → ℕ → ℕ → M (Unit {0})
unfolding count_segment
put_segment blk src start size prevseg o j = if not (fits o size) then faulty else (do
  touch j (store_segment src start size prevseg o)
  count_segment blk (o + zdovrh + size) (zdovrh + size)
  write_through blk j)

-- The offset of the new segment with the `size` bytes of `src` from `start` on.
unfoldable pub insdat : ℤ → (src : ℕ → ℕ) → (start size : ℕ) → ℤ → M ℕ
unfolding put_segment
insdat blk src start size prevseg = do
  offset ← bgtinf blk (pos znkeys)
  (i, _) ← brdblk blk
  elim i [
    | none ↦ faulty
    | some j ↦ elim offset [
      | negsuc _ ↦ faulty
      | pos o ↦ do put_segment blk src start size prevseg o j; pure o
    ]
  ]

-- a block without data is taken out of the chain and freed
drop_block : ℤ → ℤ → M (Unit {0})
drop_block blk freesz = do
  bstinf blk (pos zmisc) freesz
  bstinf blk (pos znkeys) (pos 0)
  pblk ← bgtinf blk (pos znblks)
  nblk ← bgtinf blk (pos znxblk)
  if not (nblk ==ℤ znull) then bstinf nblk (pos znblks) pblk else skip
  if not (pblk ==ℤ znull) then bstinf pblk (pos znxblk) nblk else skip
  bmkfre blk
  s ← get
  active ← bgtinf s.super.scroot (pos znxblk)
  if blk ==ℤ active then bstinf s.super.scroot (pos znxblk) znull else skip

-- the space of a segment counts as free
release_segment : ℤ → ℤ → M (Unit {0})
unfolding drop_block
release_segment blk freesz =
    if freesz ==ℤ pos datasz
    then drop_block blk freesz
    else (if less freesz (pos 0) || less (pos datasz) freesz
        then bterr "DELDAT" qnegsz (number freesz)
        else bstinf blk (pos zmisc) freesz)

-- Whether the block was read.
unfoldable pub deldat : ℤ → ℕ → M Bool
unfolding release_segment
deldat blk offset = do
  i ← data_slot blk
  elim i [
    | none ↦ pure false
    | some j ↦ do
      free ← bgtinf blk (pos zmisc)
      s ← get
      if not (fits offset 0) then faulty else (do
        release_segment blk (free +ℤ pos (seg_size (s.memrec j) offset + zdovrh))
        write_through blk j
        pure true)
  ]

abbrev pub min_segment : Kind → ℕ
min_segment of_records = zdsgmn
min_segment of_dups = dkeysz

-- A new block, if its number is not too large for data addresses.
unfoldable pub mkdblk : Kind → M ℤ
mkdblk kind = do
  blk ← bgtfre
  if blk ==ℤ znull
      then pure znull
      else (if mkdraddr blk 0 ==ℤ pos 0
          then (do bterr "MKDBLK" qdaovr (number blk); pure znull)
          else (do
            bsetbk blk (kind_word kind) (pos datasz) znull (pos 0) znull (pos (min_segment kind))
            pure blk))
