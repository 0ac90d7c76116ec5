-- ===== src/Data/Store/Laws.antt =====
-- src-lib/btdupkey.c: an entry of a duplicate that was inserted is read back.
use btlib.Prelude.{ℕ, ◌<◌, ◌≡◌, refl, ap, ◌∙◌, some, List, ℤ, pos, arith}
use btlib.Consts.{dkeysz, zblksz, zmisc, zdup, zbtype}
use btlib.Machine.{State, MemRec, ok, ◌>>=◌}
use btlib.Machine.Returns
use btlib.Machine.Returns.{Returns, returns, outcome}
use btlib.Cache.View.{IsCache}
use btlib.Info.{bgtinf}
use btlib.Info.Words.{Written-kept}
use btlib.Dups.{DKey}
use btlib.Data.Words.{block_of, mkdraddr}
use btlib.Data.Words.Laws.{mkdraddr-block_of}
use btlib.Data.Segment.{of_dups}
use btlib.Data.Record.{binsdt, bseldt, bytes_from}
use btlib.Data.Record.Stored.{HasRoom, word_run, same_type, bseldt-IsRead, binsdt-Written}
use btlib.Data.Store.{Layout, getdkey}

getdkey-step :
    (l : Layout) (fuel : ℕ) (draddr : ℤ) (b : ℕ) (dk : DKey) (bytes : List ℕ) (s t u : State)
    → block_of draddr ≡ pos b
    → bgtinf (pos b) (pos zbtype) s ≡ ok (pos zdup) t
    → bseldt fuel draddr (pos dkeysz) t ≡ ok (pos dkeysz, bytes) u
    → l.decode bytes ≡ dk
    → getdkey l fuel draddr s ≡ ok (some dk) u
unfolding getdkey
getdkey-step l fuel draddr b dk bytes s t u blk word read e = ground (arith, blk, word, read, e)

-- For a layout whose bytes of an entry decode to it, if the active block of duplicates of the current
-- root has a number from 1 to 2^21 - 1 and room for an entry, the cache is well-formed, there is no threshold
-- for writing through and the fuel is at least 2: `getdkey` of the address at which `binsdt` put an entry returns
-- this entry.
pub binsdt-getdkey :
    (s : State) (l : Layout) (fuel c b o : ℕ) (dk : DKey) (r m : MemRec)
    → HasRoom s of_dups c b o dkeysz r m
    → l.decode (bytes_from dkeysz (l.encode dk) 0) ≡ dk
    → 1 < fuel
    → Returns
        (λ found u. (found ≡ some dk) × IsCache u)
        ((do draddr ← binsdt fuel of_dups (l.encode dk) dkeysz; getdkey l fuel draddr) s)
binsdt-getdkey s l fuel c b o dk r m has law f =
    let free : ℤ = m.infblk zmisc in
    let inside : o < zblksz = omega (arith, has.room) in
    Returns.bind (binsdt-Written s fuel c b o dkeysz of_dups (l.encode dk) r m has (omega arith))
      λ a t (e, w).
        let (u, run, un) =
          word_run t b _ zbtype (pos zdup) w.cache w.new (omega arith)
            (same_type (l.encode dk) dkeysz o (pos 0) free m ∙ has.type) in
        let (got, x, run', (sz, bytes, cache)) = outcome (
          bseldt-IsRead s u fuel b o dkeysz of_dups free (l.encode dk) m (Written-kept w un) has.low
            has.high has.type has.room f) in
        rw
          (
            e,
            getdkey-step l fuel (mkdraddr (pos b) o) b dk got.1 t u x
                (mkdraddr-block_of b o has.high inside).0 run (run' ∙ ap (λ n. ok (n, got.1) x) sz)
                (ap l.decode bytes ∙ law),
          )
          (returns (refl, cache))
