-- ===== src/Data/Update.antt =====
-- src-lib/btdata.c: the update of a data record, and its size.
use btlib.Prelude.{
  ℕ, zero, suc, ◌+◌, ◌-◌, not, ◌&&◌, Option, none, some, ℤ, pos, ◌==ℤ◌, ◌+ℤ◌, ◌==◌, if◌then◌else◌,
}
use btlib.Consts.{zdrsz, zdovrh, znull, zdata, zbtype, zmisc}
use btlib.Consts.Codes.{qnotda, qdloop}
use btlib.Machine.{MemRec, M, number, out_of_fuel, pure, skip, faulty, ◌>>=◌, ◌>>◌, set_memrec}
use btlib.Error.{bterr, btgerr}
use btlib.Info.{bgtinf, bstinf, touch}
use btlib.Data.Words.{wrsz, wrint, block_of, offset_of}
use btlib.Data.Segment.{Kind, getseginfo, copy_bytes}
use btlib.Data.Record.{min, kind_of, slot_at, bdeldt, binsdt}

-- The variables of `bupddt` between the rounds of its loop: the next segment, the bytes that are
-- left (`none` for -1), how many were stored, and the block, offset and kind of the last segment.
pub record Cursor : Type 0 where
  pub draddr : ℤ
  pub remsz : Option ℕ
  pub stored : ℕ
  pub last : Option (ℤ × ℕ × Kind)

-- the bytes of a segment
abbrev pub overwrite : (src : ℕ → ℕ) → (start size o : ℕ) → MemRec → MemRec
overwrite src start size o m = record m { bytes = copy_bytes size start (o + zdovrh) src m.bytes }

-- the information of the last segment
abbrev pub close_segment : (size o : ℕ) → MemRec → MemRec
close_segment size o m = record m { bytes = wrint (pos 0) (wrsz size m.bytes o) (o + zdrsz) }

-- the last segment ends the chain, and what it no longer needs counts as free
end_record : ℤ → (j o segsz cpsz : ℕ) → M (Unit {0})
end_record dblk j o segsz cpsz = do
  set_memrec j (close_segment cpsz o)
  freesz ← bgtinf dblk (pos zmisc)
  bstinf dblk (pos zmisc) (freesz +ℤ pos (segsz - cpsz))

-- A round of the loop with `remsz` bytes left; `none` is an error.
update_segment : (src : ℕ → ℕ) → Cursor → ℕ → M (Option Cursor)
unfolding end_record
update_segment src c remsz = do
  let dblk = block_of c.draddr
  let o = offset_of c.draddr
  type ← bgtinf dblk (pos zbtype)
  elim (kind_of type) [
    | none ↦ do bterr "BUPDDT" qnotda (number c.draddr); pure none
    | some kind ↦ do
      (segsz, nextseg) ← getseginfo c.draddr
      let cpsz = min segsz remsz
      j ← slot_at dblk o cpsz
      touch j (overwrite src c.stored cpsz o)
      if cpsz == remsz then end_record dblk j o segsz cpsz else skip
      pure (
          some (record {
            draddr = nextseg;
            remsz = if (cpsz == remsz) && (cpsz == 0) then none else some (remsz - cpsz);
            stored = c.stored + cpsz;
            last = some (dblk, o, kind);
          }))
  ]

update_loop : ℕ → (src : ℕ → ℕ) → Cursor → M (Option Cursor)
unfolding update_segment
update_loop zero src c s = out_of_fuel
update_loop (suc k) src c s =
    (if c.draddr ==ℤ pos 0 then pure (some c) else elim c.remsz [
      | none ↦ pure (some c)
      | some remsz ↦ do
        next ← update_segment src c remsz
        elim next [ none ↦ pure none | some c' ↦ update_loop k src c' ]
    ])
      s

-- new segments for the `remsz` bytes left, behind the last one
append : ℕ → (src : ℕ → ℕ) → (stored remsz : ℕ) → ℤ → ℕ → Kind → M (Unit {0})
append fuel src stored remsz dblk o kind = do
  draddr ← binsdt fuel kind (λ i. src (stored + i)) remsz
  j ← slot_at dblk o 0
  let next = if draddr ==ℤ znull then pos 0 else draddr
  touch j λ m. record m { bytes = wrint next m.bytes (o + zdrsz) }

-- what follows the loop; before a first segment the block and offset are not set
finish_update : ℕ → (src : ℕ → ℕ) → Cursor → M (Unit {0})
unfolding append
finish_update fuel src c =
    if not (c.draddr ==ℤ pos 0) then bdeldt fuel 0 c.draddr >> skip else elim c.remsz [
      | none ↦ skip
      | some remsz ↦ if remsz == 0 then skip else elim c.last [
        | none ↦ faulty
        | some (dblk, o, kind) ↦ append fuel src c.stored remsz dblk o kind
      ]
    ]

unfoldable pub bupddt : ℕ → ℤ → (src : ℕ → ℕ) → ℕ → M ℕ
unfolding update_loop finish_update
bupddt fuel draddr src dsize = do
  done ←
      update_loop fuel src (record { draddr = draddr; remsz = some dsize; stored = 0; last = none })
  elim done [ none ↦ skip | some c ↦ finish_update fuel src c ]
  btgerr

-- The size of a record, `recsz` of it behind us. The check for cycles of the recovery tools, with
-- a second index, is left out.
unfoldable pub brecsz_loop : ℕ → ℕ → ℤ → M ℕ
brecsz_loop zero recsz draddr s = out_of_fuel
brecsz_loop (suc k) recsz draddr s =
    (if draddr ==ℤ pos 0 then pure recsz else (do
      type ← bgtinf (block_of draddr) (pos zbtype)
      if not (type ==ℤ pos zdata)
          then (do bterr "BRECSZ" qnotda (number (block_of draddr)); pure 0)
          else (do
            (segsz, newdraddr) ← getseginfo draddr
            if newdraddr ==ℤ draddr
                then (do bterr "BRECSZ" qdloop (number draddr); pure 0)
                else brecsz_loop k (recsz + segsz) newdraddr)))
      s

abbrev pub brecsz : ℕ → ℤ → M ℕ
brecsz fuel draddr = brecsz_loop fuel 0 draddr
