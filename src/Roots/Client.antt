-- ===== src/Roots/Client.antt =====
-- src-lib/btlock.c, btthresh.c and bclrst.c: the lock as clients use it, the threshold for writing
-- through, and the statistics.
use btlib.Prelude.{ℕ, not, ◌==◌, if◌then◌else◌}
use btlib.Consts.Codes.{qbusy}
use btlib.Machine.{M, no_arg, pure, skip, ◌>>=◌, ◌>>◌, get, modify, set_stat}
use btlib.Error.{bterr, bterr_clear, btgerr}
use btlib.Lock.{block, unlock, bvalap}
use btlib.Index.Find.{bclrlf}

unfoldable pub btlock : M ℕ
btlock = do
  bterr_clear
  status ← bvalap "BTLOCK"
  if not (status == 0) then pure status else (do
    s ← get
    if s.shared
        then (do granted ← block; if granted then bclrlf else bterr "BTLOCK" qbusy no_arg)
        else skip
    btgerr)

unfoldable pub btunlock : M ℕ
btunlock = do
  bterr_clear
  status ← bvalap "BTUNLOCK"
  if not (status == 0) then pure status else (do unlock; btgerr)

-- A negative threshold is none.
unfoldable pub btthresh : ℕ → M ℕ
btthresh n = do
  bterr_clear
  status ← bvalap "BTTHRESH"
  if not (status == 0) then pure status else (do modify λ s. record s { wt_threshold = n }; pure 0)

unfoldable pub bclrst : M (Unit {0})
bclrst = set_stat λ t. record t {
  xlogrd = 0;
  xlogwr = 0;
  xphyrd = 0;
  xphywr = 0;
  xsplit = 0;
  xjoin = 0;
  xbal = 0;
  xgot = 0;
  xrel = 0;
}
