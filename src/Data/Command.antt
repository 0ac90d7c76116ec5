-- ===== src/Data/Command.antt =====
-- src-lib/btdata.c and context_ok of butil.c: the commands on keys with data records. `none` for a
-- key is the call at the current position.
use Prim.Native.String.{String}
use btlib.Prelude.{
  ℕ, Bool, true, false, not, ◌||◌, Option, none, some, List, [], ℤ, pos, negsuc, is_neg, ◌==ℤ◌, ltb,
  ◌==◌, if◌then◌else◌,
}
use btlib.Prelude.Keys.{Key}
use btlib.Consts.{zsuper, znull, zdata, zbtype}
use btlib.Consts.Codes.{qdaerr, qbadctxt, qnotop, qbusy, qnotda, qnowrt, qdraneg, qdneg}
use btlib.Machine.{M, no_arg, number, text, pure, skip, ◌>>=◌, ◌>>◌, get, set_lf}
use btlib.Error.{bterr, bterr_clear, btgerr}
use btlib.Info.{bgtinf}
use btlib.Block.{bsrhbk}
use btlib.Lock.{block, bulock, unlock, locked, bvalap}
use btlib.Dups.{DupStore}
use btlib.Index.Split.{probe_pos, is_zero}
use btlib.Index.Find.{bfndky}
use btlib.Index.Insert.{binsky}
use btlib.Index.Delete.{bdelky}
use btlib.Index.Walk.{Step, bnxtky}
use btlib.Index.Walk.Back.{bprvky}
use btlib.Data.Words.{block_of}
use btlib.Data.Segment.{of_records}
use btlib.Data.Record.{bseldt, bdeldt, binsdt}
use btlib.Data.Update.{bupddt, brecsz}

-- whether the root may have data records
unfoldable pub dataok : M Bool
dataok = do s ← get; pure (not (s.super.scroot ==ℤ zsuper))

unfoldable pub context_ok : String → M Bool
context_ok fname = do
  s ← get
  if (s.lf.lfblk ==ℤ znull) || (s.lf.lfpos ==ℤ znull) || not s.lf.lfexct
      then (do bterr fname qbadctxt no_arg; pure false)
      else pure true

-- the value of the key at the context
setup_here : String → M ℤ
setup_here fname = do
  s ← get
  if not (ltb 0 s.lckcnt) then (do bterr fname qnotop no_arg; pure (pos 0)) else (do
    good ← context_ok fname
    if not good then pure (pos 0) else (do
      if s.shared then block >> skip else skip
      p ← bsrhbk s.lf.lfblk (probe_pos s.lf.lfpos)
      set_lf λ f. record f { lfpos = p.loc }
      if is_zero p.result then skip else bterr fname qbadctxt no_arg
      pure p.val))

-- what a command that selects a record returns: the status, the size and the bytes
abbrev pub Selected : Type 0
Selected = ℕ × ℤ × List ℕ

module _ (d : DupStore) (fuel : ℕ) where
  -- The value of a key; if the key is not found it is not set.
  setup_key : String → Key → M ℤ
  setup_key fname key = do
    granted ← locked
    if not granted then (do bterr fname qbusy no_arg; pure (pos 0)) else (do
      (_, draddr) ← bfndky d fuel key (pos 0)
      type ← bgtinf (block_of draddr) (pos zbtype)
      if type ==ℤ pos zdata then skip else bterr fname qnotda no_arg
      pure draddr)

  -- The status and the address of the record.
  unfoldable pub setup : String → Option Key → M (ℕ × ℤ)
  unfolding setup_here setup_key
  setup fname key = do
    good ← dataok
    draddr ←
        (if not good
          then (do bterr fname qdaerr no_arg; pure (pos 0))
          else elim key [ none ↦ setup_here fname | some k ↦ setup_key fname k ])
    code ← btgerr
    pure (code, draddr)

  -- a record and its key
  insert_record : Key → (src : ℕ → ℕ) → ℤ → M (Unit {0})
  insert_record key src (negsuc _) = bterr "BTINS" qdneg no_arg
  insert_record key src (pos dsize) = do
    draddr ← binsdt fuel of_records src dsize
    if draddr ==ℤ znull
        then skip
        else (if is_neg draddr then bterr "BTINS" qdraneg (number draddr) else (do
          status ← binsky d fuel key draddr
          if status == 0
              then skip
              else (do bterr_clear; bterr "BTINS" status (text key); bdeldt fuel 0 draddr; skip)))

  unfoldable pub btins : Key → (src : ℕ → ℕ) → ℤ → M ℕ
  unfolding insert_record
  btins key src dsize = do
    bterr_clear
    status ← bvalap "BTINS"
    if not (status == 0) then pure status else (do
      good ← dataok
      if not good then bterr "BTINS" qdaerr no_arg else (do
        granted ← locked
        if not granted then bterr "BTINS" qbusy no_arg else (do
          s ← get
          if not (s.super.smode ==ℤ pos 0)
              then bterr "BTINS" qnowrt no_arg
              else insert_record key src dsize))
      unlock
      btgerr)

  -- the update of the record of `setup`
  update_record : Option Key → (src : ℕ → ℕ) → ℕ → M (Unit {0})
  update_record key src dsize = do
    s ← get
    if not (s.super.smode ==ℤ pos 0) then bterr "BTINS" qnowrt no_arg else (do
      (status, draddr) ← setup "BTUPD" key
      if status == 0 then bupddt fuel draddr src dsize >> skip else skip
      unlock)

  unfoldable pub btupd : Option Key → (src : ℕ → ℕ) → ℤ → M ℕ
  unfolding update_record
  btupd key src dsize = do
    bterr_clear
    status ← bvalap "BTUPD"
    if not (status == 0) then pure status else elim dsize [
      | negsuc _ ↦ do bterr "BTUPD" qdneg no_arg; pure qdneg
      | pos n ↦ do
        good ← dataok
        if good then update_record key src n else bterr "BTUPD" qdaerr no_arg
        btgerr
    ]

  -- the record at an address that is not negative; the size is not set after an error
  select_record : ℤ → ℤ → M (ℤ × List ℕ)
  select_record draddr dsize =
      if is_neg draddr
      then (do bterr "BTSEL" qdraneg (number draddr); pure (pos 0, []))
      else bseldt fuel draddr dsize

  unfoldable pub btsel : Key → ℤ → M Selected
  unfolding select_record
  btsel key dsize = do
    bterr_clear
    status ← bvalap "BTSEL"
    if not (status == 0) then pure (status, pos 0, []) else (do
      good ← dataok
      (size, bytes) ←
          (if not good then (do bterr "BTSEL" qdaerr no_arg; pure (pos 0, [])) else (do
            granted ← locked
            if not granted then (do bterr "BTSEL" qbusy no_arg; pure (pos 0, [])) else (do
              (found, draddr) ← bfndky d fuel key (pos 0)
              if found == 0 then select_record draddr dsize else pure (pos 0, []))))
      unlock
      code ← btgerr
      pure (code, size, bytes))

  -- The lock of a shared index is given back after a successful `setup` only.
  unfoldable pub btdel : Option Key → M ℕ
  btdel key = do
    bterr_clear
    status ← bvalap "BTDEL"
    if not (status == 0) then pure status else (do
      s ← get
      if not (s.super.smode ==ℤ pos 0) then bterr "BTINS" qnowrt no_arg else (do
        (found, draddr) ← setup "BTDEL" key
        if not (found == 0) then skip else (do
          deleted ← bdeldt fuel 0 draddr
          if deleted == 0 then bdelky d fuel none >> skip else skip
          unlock))
      btgerr)

  -- `btseln` and `btselp`, which ask for the lock of every index, over the step that they take and
  -- what gives the lock back
  select_step : String → M (ℕ × Step) → M (Unit {0}) → ℤ → M (Selected × Option Key)
  select_step fname step give_back dsize = do
    bterr_clear
    status ← bvalap fname
    if not (status == 0) then pure ((status, pos 0, []), none) else (do
      good ← dataok
      ((size, bytes), key) ←
          (if not good then (do bterr fname qdaerr no_arg; pure ((pos 0, []), none)) else (do
            granted ← block
            if not granted then (do bterr "BTSELN" qbusy no_arg; pure ((pos 0, []), none)) else (do
              (found, at) ← step
              elim at [
                | none ↦ pure ((pos 0, []), none)
                | some (key, draddr) ↦
                    if not (found == 0)
                    then pure ((pos 0, []), some key)
                    else (do r ← bseldt fuel draddr dsize; pure (r, some key))
              ])))
      give_back
      code ← btgerr
      pure ((code, size, bytes), key))

  unfoldable pub btseln : ℤ → M (Selected × Option Key)
  unfolding select_step
  btseln = select_step "BTSELN" (bnxtky d fuel) unlock

  unfoldable pub btselp : ℤ → M (Selected × Option Key)
  unfolding select_step
  btselp = select_step "BTSELP" (bprvky d fuel) bulock

  unfoldable pub btrecs : Option Key → M (ℕ × ℕ)
  btrecs key = do
    bterr_clear
    status ← bvalap "BTRECS"
    if not (status == 0) then pure (status, 0) else (do
      s ← get
      size ←
          (if not (s.super.smode ==ℤ pos 0) then (do bterr "BTINS" qnowrt no_arg; pure 0) else (do
            (found, draddr) ← setup "BTRECS" key
            if not (found == 0) then pure 0 else (do n ← brecsz fuel draddr; unlock; pure n)))
      code ← btgerr
      pure (code, size))
