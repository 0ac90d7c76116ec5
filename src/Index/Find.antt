-- ===== src/Index/Find.antt =====
-- src-lib/bfndky.c and bclrlf.c: finding a key. On the way down full blocks are split, if the index
-- may be written to, and the path is kept on the stack.
pub mod Tree
pub mod Step
pub mod Gap
pub mod Path
pub mod Search
pub mod Keys
use Prim.Native.Nat.{Ordering}
use btlib.Prelude.{
  ℕ, zero, suc, Bool, true, false, not, ◌&&◌, [], ℤ, pos, negsuc, inc, is_neg, ◌==ℤ◌, ◌==◌,
  if◌then◌else◌,
}
use btlib.Prelude.Keys.{Key}
use btlib.Consts.{zmxkey, znull, znkeys}
use btlib.Consts.Codes.{qnokey, qbusy, qsplit}
use btlib.Machine.{M, no_arg, text, out_of_fuel, pure, skip, ◌>>=◌, ◌>>◌, get, set_lf}
use btlib.Error.{bterr, bterr_clear, btgerr}
use btlib.Stack.{bpush, bpull, bstkin}
use btlib.Info.{bgtinf}
use btlib.Block.{Probe, bsrhbk, copy_key}
use btlib.Lock.{block, unlock, bvalap}
use btlib.Dups.{DupStore, Position, at_dup, next, btduppos}
use btlib.Index.Split.{bsptbk, probe_pos}

unfoldable pub bclrlf : M (Unit {0})
bclrlf =
    set_lf λ f. record { lfblk = znull; lfpos = znull; lfexct = false; draddr = znull; lfkey = [] }

-- back to the parent after a split
reexamine : ℤ → M ℤ
reexamine cblk = do
  s ← get
  if cblk ==ℤ s.super.scroot then pure cblk else (do
    let parent = s.lf.lfblk
    lfpos ← bpull
    set_lf λ f. record f { lfpos = lfpos }
    lfblk ← bpull
    set_lf λ f. record f { lfblk = lfblk }
    pure parent)

-- the search of one block
pub visit : ℤ → Probe → M Probe
visit cblk p = do
  s ← get
  bpush s.lf.lfblk
  bpush s.lf.lfpos
  p' ← bsrhbk cblk (record p { loc = negsuc 0 })
  set_lf λ f. record f { lfblk = cblk; lfpos = p'.loc }
  pure p'

abbrev pub val_of : ℤ → Position → ℤ
val_of val (at_dup v) = v
val_of val _ = val

module _ (d : DupStore) (fuel : ℕ) where
  -- the loop of `bfndky`, with whether the key was found; its fuel is the first argument
  pub search_down : ℕ → ℤ → Probe → M (Bool × ℤ)
  search_down zero cblk p s = out_of_fuel
  search_down (suc k) cblk p s =
      (if cblk ==ℤ znull then pure (false, p.val) else (do
        nkeys ← bgtinf cblk (pos znkeys)
        u ← get
        if (nkeys ==ℤ pos zmxkey) && (u.super.smode ==ℤ pos 0)
            then (do
              newblk ← bsptbk cblk
              if is_neg newblk
                  then (do bterr "BFNDKY" qsplit no_arg; pure (false, p.val))
                  else (do blk ← reexamine cblk; search_down k blk p))
            else (do
              p' ← visit cblk p
              elim p'.result [
                | Ordering.lt ↦ search_down k p'.link1 p'
                | Ordering.gt ↦ do
                  set_lf λ f. record f { lfpos = inc f.lfpos }
                  search_down k p'.link2 p'
                | Ordering.eq ↦ do
                  set_lf λ f. record f { lfexct = true }
                  r ← btduppos d fuel next
                  pure (true, val_of p'.val r)
              ])))
        s

  -- the search from the root, with the context reset
  pub from_root : Key → ℤ → M (Bool × ℤ)
  from_root lkey val = do
    s ← get
    bstkin
    bclrlf
    set_lf λ f. record f { lfkey = lkey }
    search_down fuel s.super.scroot (record (probe_pos (negsuc 0)) { key = lkey; val = val })

  -- the status and what is left in `*val`
  unfoldable pub bfndky : Key → ℤ → M (ℕ × ℤ)
  unfolding from_root search_down reexamine visit
  bfndky key val = do
    bterr_clear
    status ← bvalap "BFNDKY"
    if not (status == 0) then pure (status, val) else (do
      s ← get
      locked ← (if s.shared then block else pure true)
      (found, v) ←
          (if locked
            then from_root (copy_key key) val
            else (do bterr "BFNDKY" qbusy no_arg; pure (false, val)))
      unlock
      if found then skip else bterr "BFNDKY" qnokey (text (copy_key key))
      code ← btgerr
      pure (code, v))
