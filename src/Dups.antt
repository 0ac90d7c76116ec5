-- ===== src/Dups.antt =====
-- Duplicate keys: src-lib/btdupkey.c. The entries of a key's duplicates are data records that are
-- chained both ways; the key's `val` is then the address of the first one and `dup` that of the
-- last. The records are reached through `DupStore`, the operations of src-lib/btdata.c that this
-- file calls.
pub mod Remove
use btlib.Prelude.{
  ℕ, zero, suc, Bool, true, false, ◌&&◌, Option, none, some, ℤ, pos, negsuc, ◌==ℤ◌, ltb, ◌==◌,
  if◌then◌else◌, set,
}
use btlib.Prelude.Keys.{Key}
use btlib.Consts.{zmxkey, znull}
use btlib.Consts.Codes.{qrdblk, qnotdup}
use btlib.Machine.{
  KeyEnt, MemRec, M, number, out_of_fuel, pure, skip, faulty, ◌>>=◌, ◌>>◌, get, set_lf,
}
use btlib.Error.{bterr, bterr_clear, btgerr}
use btlib.Cache.{brdblk}
use btlib.Info.{touch}
use btlib.Block.{copy_key}

-- `struct bt_dkey`
pub record DKey : Type 0 where
  pub key : Key
  pub deleted : Bool
  pub val : ℤ
  pub flink : ℤ
  pub blink : ℤ

-- what `btduppos` returns: a value, an error code, or that there is no duplicate (ZNULL)
pub data Position : Type 0 where
  at_dup : ℤ → Position
  failed : ℕ → Position
  no_dup : Position

-- the direction of a walk, ZNEXT or ZPREV
pub data Direction : Type 0 where
  next prev : Direction

abbrev link_of : Direction → DKey → ℤ
link_of next dk = dk.flink
link_of prev dk = dk.blink

abbrev end_of : Direction → KeyEnt → ℤ
end_of next e = e.val
end_of prev e = e.dup

-- `getdkey` and `putdkey` read and write the entry at an address, `insert` is `binsdt` with type
-- ZDUP, and `release` is `cnvdraddr` followed by `deldat`.
pub record DupStore : Type 0 where
  pub getdkey : ℤ → M (Option DKey)
  pub putdkey : ℤ → DKey → M ℕ
  pub insert : DKey → M ℤ
  pub release : ℤ → M (Unit {0})

-- `keyblk[pos]`
key_at : MemRec → ℤ → M KeyEnt
key_at m (pos p) = if ltb p zmxkey then pure (m.keyblk p) else faulty
key_at m (negsuc p) = faulty

unfoldable pub getkeyent : ℤ → ℤ → M (Option KeyEnt)
unfolding key_at
getkeyent blk p = do
  (i, ioerr) ← brdblk blk
  if ioerr
      then (do bterr "GETKEYENT" qrdblk (number blk); pure none)
      else elim i [ none ↦ faulty | some j ↦ do s ← get; e ← key_at (s.memrec j) p; pure (some e) ]

abbrev set_key : ℕ → KeyEnt → MemRec → MemRec
set_key p e m = record m { keyblk = set m.keyblk p e }

unfoldable pub putkeyent : ℤ → ℤ → KeyEnt → M ℕ
putkeyent blk (negsuc p) e = faulty
putkeyent blk (pos p) e = do
  (i, ioerr) ← brdblk blk
  if ioerr then (do bterr "PUTKEYENT" qrdblk (number blk); pure qrdblk) else elim i [
    | none ↦ faulty
    | some j ↦ if ltb p zmxkey then (do touch j (set_key p e); pure 0) else faulty
  ]

module _ (d : DupStore) where
  open d use {getdkey, putdkey, insert, release}

  -- the entry of a new key behind the entry at `e.dup`
  add_dup : ℤ → ℤ → Key → ℤ → KeyEnt → M (Unit {0})
  add_dup cblk n key val e = do
    draddr ← insert (record { key = key; deleted = false; val = val; flink = znull; blink = e.dup })
    if draddr ==ℤ znull then skip else (do
      last ← getdkey e.dup
      elim last [
        | none ↦ skip
        | some dk ↦ do
          status ← putdkey e.dup (record dk { flink = draddr })
          putkeyent cblk n (if status == 0 then record e { dup = draddr } else e)
          skip
      ])

  -- The first duplicate makes an entry for the original key too.
  unfoldable pub btdupkey : Key → ℤ → M ℕ
  unfolding add_dup
  btdupkey key val = do
    s ← get
    found ← getkeyent s.lf.lfblk s.lf.lfpos
    elim found [
      | none ↦ bterr "BTDUPKEY" qrdblk (number s.lf.lfblk)
      | some e ↦
          if e.dup ==ℤ znull
          then (do
            first ← insert (record {
              key = copy_key key;
              deleted = false;
              val = e.val;
              flink = znull;
              blink = znull;
            })
            if first ==ℤ znull
                then skip
                else add_dup s.lf.lfblk s.lf.lfpos (copy_key key) val
                    (record e { val = first; dup = first }))
          else add_dup s.lf.lfblk s.lf.lfpos (copy_key key) val e
    ]
    btgerr

  failure : M Position
  failure = do code ← btgerr; pure (failed code)

  -- the context stands at the entry
  settle : ℤ → DKey → M Position
  settle addr dk = do set_lf λ f. record f { draddr = addr; lfexct = true }; pure (at_dup dk.val)

  -- the `do` loop of `btduppos`: to the next entry that is not deleted
  walk : ℕ → Direction → DKey → M Position
  walk zero dir dk s = out_of_fuel
  walk (suc k) dir dk s =
      (if link_of dir dk ==ℤ znull
          then (do set_lf λ f. record f { lfexct = true; draddr = znull }; pure no_dup)
          else (do
            found ← getdkey (link_of dir dk)
            elim found [
              | none ↦ failure
              | some dk' ↦ if dk'.deleted then walk k dir dk' else settle (link_of dir dk) dk'
            ]))
        s

  -- at the start or the end of a chain of duplicates
  enter_chain : Direction → M Position
  enter_chain dir = do
    s ← get
    found ← getkeyent s.lf.lfblk s.lf.lfpos
    elim found [
      | none ↦ pure no_dup
      | some e ↦ if e.dup ==ℤ znull then pure no_dup else (do
        entry ← getdkey (end_of dir e)
        elim entry [ none ↦ failure | some dk ↦ settle (end_of dir e) dk ])
    ]

  follow_chain : ℕ → Direction → M Position
  follow_chain fuel dir = do
    s ← get
    found ← getdkey s.lf.draddr
    elim found [
      | none ↦ do
        code ← btgerr
        if s.shared && (code == qnotdup) then (do bterr_clear; pure no_dup) else pure (failed code)
      | some dk ↦ walk fuel dir dk
    ]

  unfoldable pub btduppos : ℕ → Direction → M Position
  unfolding enter_chain follow_chain walk settle failure
  btduppos fuel dir = do
    s ← get
    if s.lf.draddr ==ℤ znull
        then (if s.lf.lfexct then enter_chain dir else pure no_dup)
        else follow_chain fuel dir

  -- the update of the value of a duplicate; returns whether the context stood at one
  unfoldable pub btdupupd : ℤ → M Bool
  btdupupd val = do
    s ← get
    if s.lf.draddr ==ℤ znull then pure false else (do
      found ← getdkey s.lf.draddr
      elim found [
        | none ↦ pure true
        | some dk ↦ do putdkey s.lf.draddr (record dk { val = val }); pure true
      ])
