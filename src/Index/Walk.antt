-- ===== src/Index/Walk.antt =====
-- src-lib/bnxtky.c: the key behind the context of the last find.
pub mod Back
pub mod Leaf
pub mod Next
pub mod End
use btlib.Prelude.{
  ℕ, zero, suc, Bool, true, false, not, ◌&&◌, ◌||◌, Option, none, some, ℤ, pos, negsuc, inc, ◌==ℤ◌,
  less, ltb, ◌==◌, if◌then◌else◌,
}
use btlib.Prelude.Keys.{Key}
use btlib.Consts.{zmxkey, znull, znkeys}
use btlib.Consts.Codes.{qnokey, qbusy, qrdblk}
use btlib.Machine.{M, no_arg, number, out_of_fuel, pure, skip, faulty, ◌>>=◌, ◌>>◌, get, set_lf}
use btlib.Error.{bterr, bterr_clear, btgerr}
use btlib.Stack.{bpull}
use btlib.Cache.{brdblk}
use btlib.Info.{bgtinf}
use btlib.Block.{copy_key}
use btlib.Lock.{locked, unlock, bvalap}
use btlib.Dups.{DupStore, at_dup, failed, no_dup, Direction, next, btduppos}
use btlib.Index.Leaf.{bleaf}
use btlib.Index.Find.{bfndky, bclrlf}

-- the parent's position and block, from the stack
pub pull_context : (ℤ → ℤ) → M (Unit {0})
pull_context f = do
  lfpos ← bpull
  set_lf λ c. record c { lfpos = f lfpos }
  lfblk ← bpull
  set_lf λ c. record c { lfblk = lfblk; lfexct = false }

abbrev forget_dup : M (Unit {0})
forget_dup = set_lf λ c. record c { draddr = znull }

-- what a step of a walk yields: a key and its value, or none yet
abbrev pub Step : Type 0
Step = Option (Key × ℤ)

-- `keyblk[lfpos]`, which the context remembers
pub take_key : ℕ → M Step
take_key idx = do
  s ← get
  elim s.lf.lfpos [
    | negsuc _ ↦ faulty
    | pos p ↦
        if ltb p zmxkey
        then (do
          let e = (s.memrec idx).keyblk p
          set_lf λ c. record c { lfkey = copy_key e.key }
          pure (some (copy_key e.key, e.val)))
        else faulty
  ]

module _ (d : DupStore) (fuel : ℕ) where
  -- the first value of the duplicates of a key, if it has any
  pub with_dups : Direction → Step → M Step
  with_dups dir none = pure none
  with_dups dir (some (key, val)) = do
    r ← btduppos d fuel dir
    pure (some (key, elim r [ at_dup v ↦ v | failed _ ↦ val | no_dup ↦ val ]))

  -- to the position behind the key of the context, down to the leftmost leaf
  pub advance : ℕ → M (Option ℕ)
  advance idx = do
    s ← get
    if s.lf.lfexct
        then (do set_lf λ c. record c { lfpos = inc c.lfpos; draddr = znull }; bleaf fuel 0)
        else (do set_lf λ c. record c { lfexct = true }; pure (some idx))

  -- one round of the loop of `bnxtky`; `none` in the first part ends it
  pub next_round : M (Bool × Step)
  next_round = do
    s ← get
    (i, _) ← brdblk s.lf.lfblk
    elim i [
      | none ↦ do bterr "BNXTKY" qrdblk (number s.lf.lfblk); pure (true, none)
      | some idx ↦ do
        nkeys ← bgtinf s.lf.lfblk (pos znkeys)
        if not (less s.lf.lfpos nkeys) || (nkeys ==ℤ pos 0)
            then (do pull_context (λ p. p); pure (false, none))
            else (do
              j ← advance idx
              elim j [
                | none ↦ pure (false, none)
                | some idx' ↦ do
                  u ← get
                  if less u.lf.lfpos nkeys
                      then (do
                        found ← take_key idx'
                        step ← with_dups next found
                        pure (true, step))
                      else pure (false, none)
              ])
    ]

  pub next_loop : ℕ → M Step
  next_loop zero s = out_of_fuel
  next_loop (suc k) s =
      (if s.lf.lfblk ==ℤ znull
          then pure none
          else (do (stop, step) ← next_round; if stop then pure step else next_loop k))
        s

  -- the key of a duplicate is that of the context
  at_key : ℤ → M Step
  at_key val = do s ← get; pure (some (copy_key s.lf.lfkey, val))

  -- a shared index may have changed since the last find
  reposition : M (Unit {0})
  reposition = do
    s ← get
    if s.shared && not (s.lf.lfblk ==ℤ znull)
        then (do bfndky d fuel s.lf.lfkey (pos 0); bterr_clear)
        else skip

  pub next_key : M Step
  next_key = do
    r ← btduppos d fuel next
    elim r [
      | failed _ ↦ pure none
      | at_dup val ↦ at_key val
      | no_dup ↦ do
        reposition
        step ← next_loop fuel
        s ← get
        if s.lf.lfblk ==ℤ znull then (do bclrlf; bterr "BNXTKY" qnokey no_arg) else skip
        pure step
    ]

  -- The status, and the key and value that were found.
  unfoldable pub bnxtky : M (ℕ × Step)
  unfolding next_key next_loop next_round advance with_dups take_key pull_context at_key reposition
  bnxtky = do
    bterr_clear
    status ← bvalap "BNXTKY"
    if not (status == 0) then pure (status, none) else (do
      granted ← locked
      step ← (if granted then next_key else (do bterr "BNXTKY" qbusy no_arg; pure none))
      unlock
      code ← btgerr
      pure (code, step))
