-- ===== src/Data/Store.antt =====
-- src-lib/btdupkey.c: the entries of duplicates as data records, which is the store that the
-- routines of Dups run on. How the compiler lays out `struct bt_dkey` is a parameter.
pub mod Laws
use btlib.Prelude.{ℕ, Option, none, some, List, ℤ, pos, ◌==ℤ◌, if◌then◌else◌, not}
use btlib.Consts.{dkeysz, zdup, zbtype}
use btlib.Consts.Codes.{qnotdup, qdupsz}
use btlib.Machine.{M, number, no_arg, pure, skip, ◌>>=◌, ◌>>◌}
use btlib.Error.{bterr}
use btlib.Info.{bgtinf}
use btlib.Dups.{DKey, DupStore}
use btlib.Data.Words.{block_of, offset_of}
use btlib.Data.Segment.{of_dups, deldat}
use btlib.Data.Record.{bseldt, binsdt}
use btlib.Data.Update.{bupddt}

-- the bytes of an entry
pub record Layout : Type 0 where
  pub encode : DKey → ℕ → ℕ
  pub decode : List ℕ → DKey

module _ (l : Layout) (fuel : ℕ) where
  open l use {encode, decode}

  unfoldable pub getdkey : ℤ → M (Option DKey)
  getdkey draddr = do
    type ← bgtinf (block_of draddr) (pos zbtype)
    if not (type ==ℤ pos zdup) then (do bterr "GETDKEY" qnotdup (number draddr); pure none) else (do
      (sz, bytes) ← bseldt fuel draddr (pos dkeysz)
      if sz ==ℤ pos dkeysz
          then pure (some (decode bytes))
          else (do bterr "GETDKEY" qdupsz no_arg; pure none))

  unfoldable pub putdkey : ℤ → DKey → M ℕ
  putdkey draddr dkey = bupddt fuel draddr (encode dkey) dkeysz

  abbrev pub dup_records : DupStore
  dup_records = record {
    getdkey = getdkey;
    putdkey = putdkey;
    insert = λ dkey. binsdt fuel of_dups (encode dkey) dkeysz;
    release = λ draddr. deldat (block_of draddr) (offset_of draddr) >> skip;
  }
