-- ===== src/Data/Record.antt =====
-- src-lib/btdata.c: data records as chains of segments. The records of a caller are functions from
-- positions to bytes; a loop over segments runs on fuel.
pub mod Select
pub mod Stored
use btlib.Prelude.{
  ℕ, zero, suc, ◌+◌, ◌-◌, not, ◌||◌, Option, none, some, List, [], ◌∷◌, ◌++◌, ℤ, pos, negsuc, ◌==ℤ◌,
  ◌+ℤ◌, ◌-ℤ◌, less, leb, ◌==◌, if◌then◌else◌,
}
use btlib.Consts.{datasz, zdovrh, znull, zdata, zdup, zbtype, znxblk, znkeys, znblks, znxdup}
use btlib.Consts.Codes.{qnotda, qnoblk}
use btlib.Machine.{M, number, no_arg, out_of_fuel, pure, faulty, ◌>>=◌, ◌>>◌, get}
use btlib.Error.{bterr}
use btlib.Cache.{brdblk}
use btlib.Info.{bgtinf, bstinf}
use btlib.Data.Words.{block_of, offset_of, mkdraddr}
use btlib.Data.Segment.{
  Kind, of_records, of_dups, kind_word, fits, seg_size, next_seg, getseginfo, insdat, deldat,
  mkdblk,
}

abbrev pub min : ℕ → ℕ → ℕ
min a b = if leb a b then a else b

-- the bytes from offset `o` on
abbrev pub bytes_from : ℕ → (ℕ → ℕ) → ℕ → List ℕ
bytes_from zero a o = []
bytes_from (suc n) a o = a o ∷ bytes_from n a (suc o)

-- `type != ZDATA && type != ZDUP`, read into a kind
abbrev pub kind_of : ℤ → Option Kind
kind_of type =
    if type ==ℤ pos zdata then some of_records else if type ==ℤ pos zdup then some of_dups else none

-- the slot of a block that was read before, with an offset in it
unfoldable pub slot_at : ℤ → ℕ → ℕ → M ℕ
slot_at blk offset size = do
  (i, _) ← brdblk blk
  elim i [ none ↦ faulty | some j ↦ if fits offset size then pure j else faulty ]

-- `sprem` bytes are still wanted. The result is the number of bytes, or -1 for an error, and the
-- bytes that were copied to `data`.
pub bseldt_loop : ℕ → ℤ → (sprem totsz : ℕ) → M (ℤ × List ℕ)
bseldt_loop zero draddr sprem totsz s = out_of_fuel
bseldt_loop (suc k) draddr sprem totsz s =
    (if (sprem == 0) || (draddr ==ℤ pos 0) then pure (pos totsz, []) else (do
      let dblk = block_of draddr
      let o = offset_of draddr
      type ← bgtinf dblk (pos zbtype)
      elim (kind_of type) [
        | none ↦ do bterr "BSELDT" qnotda (number dblk); pure (negsuc 0, [])
        | some _ ↦ do
          j ← slot_at dblk o 0
          u ← get
          let m = u.memrec j
          let cpsz = min (seg_size m o) sprem
          if not (fits o cpsz) then faulty else (do
            (size, rest) ← bseldt_loop k (next_seg m o) (sprem - cpsz) (totsz + cpsz)
            pure (size, bytes_from cpsz m.bytes (o + zdovrh) ++ rest))
      ]))
      s

abbrev pub natural_size : ℤ → ℕ
natural_size (pos n) = n
natural_size (negsuc n) = 0

unfoldable pub bseldt : ℕ → ℤ → ℤ → M (ℤ × List ℕ)
unfolding bseldt_loop
bseldt fuel draddr dsize = bseldt_loop fuel draddr (natural_size dsize) 0

-- The status of the last segment, 0 or 1 for an I/O error; it is not set for an empty chain.
unfoldable pub bdeldt : ℕ → ℕ → ℤ → M ℕ
bdeldt zero status draddr s = out_of_fuel
bdeldt (suc k) status draddr s =
    (if draddr ==ℤ pos 0 then pure status else (do
      type ← bgtinf (block_of draddr) (pos zbtype)
      if not (type ==ℤ pos zdata) then (do bterr "BDELDT" qnotda no_arg; pure qnotda) else (do
        (_, nextseg) ← getseginfo draddr
        done ← deldat (block_of draddr) (offset_of draddr)
        bdeldt k (if done then 0 else 1) nextseg)))
      s

-- the word of the root with the active block
abbrev pub listidx : Kind → ℕ
listidx of_records = znxblk
listidx of_dups = znxdup

-- the active block of the root, a new one if there is none
pub active_block : Kind → M ℤ
active_block kind = do
  s ← get
  dblk ← bgtinf s.super.scroot (pos (listidx kind))
  if not (dblk ==ℤ znull) then pure dblk else (do
    new ← mkdblk kind
    if new ==ℤ znull
        then (do bterr "BINSDT" qnoblk no_arg; pure znull)
        else (do bstinf s.super.scroot (pos (listidx kind)) new; pure new))

-- a new block becomes the first of the chain
chain_block : Kind → ℤ → M ℤ
chain_block kind dblk = do
  nblk ← mkdblk kind
  if nblk ==ℤ znull then (do bterr "BINSDT" qnoblk no_arg; pure znull) else (do
    bstinf nblk (pos znxblk) dblk
    bstinf dblk (pos znblks) nblk
    s ← get
    bstinf s.super.scroot (pos (listidx kind)) nblk
    pure nblk)

-- The loop of `binsdt`: the first `remsize` bytes are still to be stored, the others are in the
-- segment at `segaddr`.
pub store_rest : ℕ → Kind → (src : ℕ → ℕ) → (dblk segaddr minsegsize : ℤ) → ℕ → M ℤ
unfolding chain_block
store_rest zero kind src dblk segaddr minsegsize remsize s = out_of_fuel
store_rest (suc k) kind src dblk segaddr minsegsize remsize s =
    (do
      used ← bgtinf dblk (pos znkeys)
      let freesz = pos datasz -ℤ used
      if not (less freesz (pos (remsize + zdovrh)))
          then (do offset ← insdat dblk src 0 remsize segaddr; pure (mkdraddr dblk offset))
          else (if less freesz (pos zdovrh +ℤ minsegsize)
              then (do
                nblk ← chain_block kind dblk
                if nblk ==ℤ znull
                    then pure znull
                    else store_rest k kind src nblk segaddr minsegsize remsize)
              else elim (freesz -ℤ pos zdovrh) [
                | negsuc _ ↦ faulty
                | pos size ↦ do
                  offset ← insdat dblk src (remsize - size) size segaddr
                  store_rest k kind src dblk (mkdraddr dblk offset) minsegsize (remsize - size)
              ]))
      s

-- The address of the first segment, or ZNULL.
unfoldable pub binsdt : ℕ → Kind → (src : ℕ → ℕ) → ℕ → M ℤ
unfolding active_block store_rest
binsdt fuel kind src dsize = do
  dblk ← active_block kind
  if dblk ==ℤ znull then pure znull else (do
    type ← bgtinf dblk (pos zbtype)
    if not (type ==ℤ kind_word kind)
        then (do bterr "BINSDT" qnotda (number dblk); pure znull)
        else (do
          minsegsize ← bgtinf dblk (pos znxdup)
          store_rest fuel kind src dblk (pos 0) minsegsize dsize))
