-- ===== src/Stack.antt =====
-- src-lib/btstk.c: the stack of visited blocks and positions.
pub mod Laws
use btlib.Prelude.{
  ℕ, Bool, true, false, ℤ, pos, negsuc, inc, dec, is_neg, leb, ltb, if◌then◌else◌, set,
}
use btlib.Consts.{stkmax}
use btlib.Consts.Codes.{qstkuf, qstkof}
use btlib.Machine.{State, Stk, M, no_arg, pure, faulty, ◌>>=◌, ◌>>◌, get, modify}
use btlib.Error.{bterr}

-- `stk[stkptr]`, an array of STKMAX elements
peek : ℤ → M ℤ
peek (pos i) = do s ← get; if ltb i stkmax then pure (s.stk.stk i) else faulty
peek (negsuc i) = faulty

-- `stk[stkptr] = val`
poke : ℤ → ℤ → M (Unit {0})
poke (pos i) val =
    if ltb i stkmax
    then (modify λ s. record s { stk = record s.stk { stk = set s.stk.stk i val } })
    else faulty
poke (negsuc i) val = faulty

abbrev set_stkptr : ℤ → M (Unit {0})
set_stkptr p = modify λ s. record s { stk = record s.stk { stkptr = p } }

unfoldable pub bpull : M ℤ
unfolding peek
bpull = do
  s ← get
  if is_neg s.stk.stkptr
      then (do bterr "BPULL" qstkuf no_arg; pure (pos 0))
      else (do val ← peek s.stk.stkptr; set_stkptr (dec s.stk.stkptr); pure val)

-- `stkptr >= STKMAX`
abbrev is_full : ℤ → Bool
is_full (pos n) = leb stkmax n
is_full (negsuc n) = false

unfoldable pub bpush : ℤ → M (Unit {0})
unfolding poke
bpush val = do
  s ← get
  if is_full s.stk.stkptr
      then bterr "BPUSH" qstkof no_arg
      else (do set_stkptr (inc s.stk.stkptr); poke (inc s.stk.stkptr) val)

unfoldable pub bstkin : M (Unit {0})
bstkin = set_stkptr (negsuc 0)

unfoldable pub btstk_depth : M ℤ
btstk_depth = do s ← get; pure (inc s.stk.stkptr)
