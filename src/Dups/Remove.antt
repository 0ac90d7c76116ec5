-- ===== src/Dups/Remove.antt =====
-- src-lib/btdupkey.c: removing a duplicate, and counting them.
use btlib.Prelude.{
  ℕ, zero, suc, ◌+◌, Bool, true, false, ◌&&◌, Option, none, some, ℤ, pos, negsuc, ◌==ℤ◌, ◌==◌, not,
  if◌then◌else◌,
}
use btlib.Consts.{znull, znkeys}
use btlib.Machine.{KeyEnt, M, out_of_fuel, pure, skip, faulty, ◌>>=◌, ◌>>◌, get, set_lf}
use btlib.Error.{btgerr}
use btlib.Info.{bgtinf}
use btlib.Dups.{DKey, DupStore, getkeyent, putkeyent}

-- what `btdeldup` returns: 0, ZNULL for no duplicate or the last one, or an error code
pub data Deleted : Type 0 where
  deleted : Deleted
  nothing_done : Deleted
  refused : ℕ → Deleted

-- the place of an entry among the duplicates of its key
abbrev pub is_only : DKey → Bool
is_only dk = (dk.blink ==ℤ znull) && (dk.flink ==ℤ znull)

-- the key without the entry
abbrev pub unlinked : DKey → KeyEnt → KeyEnt
unlinked dk e =
    if is_only dk
    then e
    else if dk.blink ==ℤ znull
    then record e { val = dk.flink }
    else if dk.flink ==ℤ znull
    then record e { dup = dk.blink }
    else e

module _ (d : DupStore) where
  open d use {getdkey, putdkey, release}

  failed : M Deleted
  failed = do code ← btgerr; pure (refused code)

  unfoldable pub deldkey : ℤ → DKey → M ℕ
  deldkey draddr dk = do
    status ← putdkey draddr (record dk { deleted = true })
    if not (status == 0) then btgerr else (do release draddr; pure 0)

  -- a change of the entry at an address that may be ZNULL, before `next`
  relink : ℤ → (DKey → DKey) → M Deleted → M Deleted
  unfolding failed
  relink draddr f next = if draddr ==ℤ znull then next else (do
    found ← getdkey draddr
    elim found [
      | none ↦ failed
      | some dk ↦ do status ← putdkey draddr (f dk); if status == 0 then next else failed
    ])

  -- the context is no longer at a key
  unmark : ℤ → ℤ → KeyEnt → Deleted → M Deleted
  unmark cblk p e status = do
    set_lf λ f. record f { lfexct = false }
    putkeyent cblk p e
    pure status

  take_out : ℤ → ℤ → ℤ → DKey → KeyEnt → M Deleted
  unfolding failed relink unmark
  take_out draddr cblk p dk e = do
    if is_only dk then set_lf (λ f. record f { draddr = znull }) else skip
    code ← deldkey draddr dk
    if not (code == 0)
        then failed
        else (if is_only dk
            then unmark cblk p e nothing_done
            else relink dk.blink (λ k. record k { flink = dk.flink })
                (relink dk.flink (λ k. record k { blink = dk.blink })
                  (unmark cblk p (unlinked dk e) deleted)))

  unfoldable pub btdeldup : M Deleted
  unfolding failed take_out
  btdeldup = do
    s ← get
    if s.lf.draddr ==ℤ znull then pure nothing_done else (do
      found ← getdkey s.lf.draddr
      elim found [
        | none ↦ failed
        | some dk ↦ do
          key ← getkeyent s.lf.lfblk s.lf.lfpos
          elim key [ none ↦ failed | some e ↦ take_out s.lf.draddr s.lf.lfblk s.lf.lfpos dk e ]
      ])

  -- An entry that cannot be read is a null pointer.
  unfoldable pub btcntdups : ℕ → ℕ → ℤ → M ℕ
  btcntdups zero count draddr s = out_of_fuel
  btcntdups (suc k) count draddr s =
      (if draddr ==ℤ znull then pure count else (do
        found ← getdkey draddr
        elim found [ none ↦ faulty | some dk ↦ btcntdups k (suc count) dk.flink ]))
        s

  -- the keys of a block from position `i` on; `none` is ZNULL
  unfoldable pub count_keys : ℕ → ℤ → ℕ → ℕ → ℕ → M (Option ℕ)
  unfolding btcntdups
  count_keys fuel blk zero i tcnt s = pure (some tcnt) s
  count_keys fuel blk (suc n) i tcnt s =
      (do
        found ← getkeyent blk (pos i)
        elim found [
          | none ↦ pure none
          | some e ↦ do
            kcnt ← (if e.dup ==ℤ znull then pure 1 else btcntdups fuel 0 e.val)
            count_keys fuel blk n (suc i) (tcnt + kcnt)
        ])
        s

  unfoldable pub btcntkeys : ℕ → ℤ → M (Option ℕ)
  unfolding count_keys
  btcntkeys fuel blk = do
    nkeys ← bgtinf blk (pos znkeys)
    elim nkeys [ pos n ↦ count_keys fuel blk n 0 0 | negsuc _ ↦ pure (some 0) ]
