-- ===== src/Index/Walk/Back.antt =====
-- src-lib/bprvky.c: the key before the context of the last find.
use btlib.Prelude.{
  ℕ, zero, suc, Bool, true, false, not, ◌||◌, Option, none, some, ℤ, pos, dec, is_neg, ◌==ℤ◌, ◌==◌,
  if◌then◌else◌,
}
use btlib.Consts.{znull, znkeys}
use btlib.Consts.Codes.{qnokey, qbusy, qrdblk}
use btlib.Machine.{M, no_arg, number, out_of_fuel, pure, skip, ◌>>=◌, ◌>>◌, get, set_lf}
use btlib.Error.{bterr, bterr_clear, btgerr}
use btlib.Cache.{brdblk}
use btlib.Info.{bgtinf}
use btlib.Lock.{locked, unlock, bvalap}
use btlib.Dups.{DupStore, at_dup, failed, no_dup, prev, btduppos}
use btlib.Index.Leaf.{bleaf, link_at}
use btlib.Index.Walk.{Step, pull_context, forget_dup, take_key, with_dups, at_key, reposition}

-- one position back in the block, at a key
step_back : M (Unit {0})
step_back = set_lf λ c. record c { lfpos = dec c.lfpos; lfexct = true; draddr = znull }

module _ (d : DupStore) (fuel : ℕ) where
  -- to the key before the context in slot `idx`, or to a block below
  retreat : ℤ → ℕ → M (Option ℕ)
  retreat nkeys idx = do
    s ← get
    if s.lf.lfpos ==ℤ nkeys
        then (do step_back; pure (some idx))
        else (if s.lf.lfexct
            then (do
              i ← bleaf fuel 1
              elim i [
                | none ↦ pure none
                | some j ↦ do
                  set_lf λ c. record c { lfpos = dec c.lfpos; draddr = znull }
                  pure (some j)
              ])
            else (do
              link ← link_at (s.memrec idx) s.lf.lfpos
              if link ==ℤ znull then step_back else (set_lf λ c. record c { lfexct = true })
              pure (some idx)))

  -- one round of the loop of `bprvky`; `none` in the first part ends it
  prev_round : M (Bool × Step)
  unfolding retreat step_back
  prev_round = do
    s ← get
    (i, _) ← brdblk s.lf.lfblk
    elim i [
      | none ↦ do bterr "BPRVKY" qrdblk (number s.lf.lfblk); pure (true, none)
      | some idx ↦ do
        nkeys ← bgtinf s.lf.lfblk (pos znkeys)
        if is_neg s.lf.lfpos || (nkeys ==ℤ pos 0)
            then (do pull_context dec; forget_dup; pure (false, none))
            else (do
              j ← retreat nkeys idx
              elim j [
                | none ↦ pure (false, none)
                | some idx' ↦ do
                  u ← get
                  if is_neg u.lf.lfpos then pure (false, none) else (do
                    found ← take_key idx'
                    step ← with_dups d fuel prev found
                    pure (true, step))
              ])
    ]

  prev_loop : ℕ → M Step
  prev_loop zero s = out_of_fuel
  prev_loop (suc k) s =
      (if s.lf.lfblk ==ℤ znull
          then pure none
          else (do (stop, step) ← prev_round; if stop then pure step else prev_loop k))
        s

  prev_key : M Step
  unfolding prev_loop prev_round
  prev_key = do
    r ← btduppos d fuel prev
    elim r [
      | failed _ ↦ pure none
      | at_dup val ↦ at_key d fuel val
      | no_dup ↦ do
        reposition d fuel
        step ← prev_loop fuel
        s ← get
        if s.lf.lfblk ==ℤ znull then bterr "BPRVKY" qnokey no_arg else skip
        pure step
    ]

  -- The status, and the key and value that were found.
  unfoldable pub bprvky : M (ℕ × Step)
  unfolding prev_key at_key reposition pull_context take_key with_dups
  bprvky = do
    bterr_clear
    status ← bvalap "BPRVKY"
    if not (status == 0) then pure (status, none) else (do
      granted ← locked
      step ← (if granted then prev_key else (do bterr "BPRVKY" qbusy no_arg; pure none))
      unlock
      code ← btgerr
      pure (code, step))
