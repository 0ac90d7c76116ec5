-- ===== src/Index/Join.antt =====
-- src-lib/bjoin.c, bjnblk.c, balbk1.c and balblk.c: joining a block with a sister, or moving keys
-- between them.
use btlib.Prelude.{
  ℕ, zero, suc, ◌+◌, ◌-◌, ◌/◌, Bool, true, false, not, Option, none, some, ℤ, pos, negsuc, inc, dec,
  is_neg, ltb, ◌==ℤ◌, ◌+ℤ◌, ◌-ℤ◌, abs, less, if◌then◌else◌,
}
use btlib.Consts.{zmxkey, zthres, znull, znkeys}
use btlib.Consts.Codes.{qjnse, qbalse}
use btlib.Machine.{M, no_arg, pure, skip, faulty, ◌>>=◌, ◌>>◌, get, set_lf, set_stat}
use btlib.Error.{bterr}
use btlib.Stack.{bpush, bpull}
use btlib.Cache.{bsetbs}
use btlib.Info.{bgtinf, bstinf}
use btlib.Block.{Probe, bsrhbk, bputky, brepky, bremky, bcpybk}
use btlib.Free.{bmkfre}
use btlib.Index.Split.{probe_pos, deref, is_zero}

-- a number of keys to copy; a negative one, which no block has, is taken as a fault
abbrev pub natural : ℤ → M ℕ
natural (pos n) = pure n
natural (negsuc n) = faulty

-- the context goes to the parent
unfoldable pub pull_parent : M (Unit {0})
pull_parent = do
  lfpos ← bpull
  set_lf λ f. record f { lfpos = lfpos }
  lfblk ← bpull
  set_lf λ f. record f { lfblk = lfblk }

-- the key at the position of the context
unfoldable pub at_context : M Probe
at_context = do
  s ← get
  p ← bsrhbk s.lf.lfblk (probe_pos s.lf.lfpos)
  set_lf λ f. record f { lfpos = p.loc }
  pure p

-- the context goes back from the parent to the block
unfoldable pub restore : ℤ → M (Unit {0})
restore cblk = do s ← get; bpush s.lf.lfblk; bpush s.lf.lfpos; set_lf λ f. record f { lfblk = cblk }

-- `p` is the key of the parent between the blocks
unfoldable pub bjoin : (lblk rblk : ℤ) → Probe → M (Unit {0})
bjoin lblk rblk p = do
  s ← get
  bremky s.lf.lfblk s.lf.lfpos
  bsetbs lblk true
  kep ← deref p
  bputky lblk kep znull znull
  lnkeys ← bgtinf lblk (pos znkeys)
  rnkeys ← bgtinf rblk (pos znkeys)
  l ← natural lnkeys
  r ← natural rnkeys
  bcpybk lblk rblk l 0 r
  bstinf lblk (pos znkeys) (lnkeys +ℤ rnkeys)
  bmkfre rblk
  bsetbs lblk false
  set_stat λ t. record t { xjoin = t.xjoin + 1 }

-- `x < ZMXKEY-ZTHRES`
abbrev pub joinable : ℤ → Bool
joinable (pos n) = ltb n (zmxkey - zthres)
joinable (negsuc n) = true

-- with the right sister; what `*cblk` becomes, if the routine ends here
join_right : ℤ → (nkeys cnkeys : ℤ) → M (Option ℤ)
join_right cblk nkeys cnkeys = do
  s ← get
  if not (less s.lf.lfpos nkeys) then pure none else (do
    p ← at_context
    if not (is_zero p.result) then (do bterr "BJNBLK" qjnse no_arg; pure (some cblk)) else (do
      n ← bgtinf p.link2 (pos znkeys)
      if joinable (cnkeys +ℤ n) then (do bjoin cblk p.link2 p; pure (some cblk)) else pure none))

-- with the left sister
join_left : ℤ → ℤ → M (Option ℤ)
join_left cblk cnkeys = do
  s ← get
  if not (less (pos 0) s.lf.lfpos) then pure none else (do
    set_lf λ f. record f { lfpos = dec f.lfpos }
    p ← at_context
    if not (is_zero p.result) then (do bterr "BJNBLK" qjnse no_arg; pure (some cblk)) else (do
      n ← bgtinf p.link1 (pos znkeys)
      if joinable (cnkeys +ℤ n)
          then (do bjoin p.link1 cblk p; pure (some p.link1))
          else (do set_lf (λ f. record f { lfpos = inc f.lfpos }); pure none)))

unfoldable pub bjnblk : M ℤ
unfolding join_right join_left
bjnblk = do
  s ← get
  let cblk = s.lf.lfblk
  pull_parent
  u ← get
  nkeys ← bgtinf u.lf.lfblk (pos znkeys)
  cnkeys ← bgtinf cblk (pos znkeys)
  right ← join_right cblk nkeys cnkeys
  elim right [
    | some c ↦ pure c
    | none ↦ do
      left ← join_left cblk cnkeys
      elim left [ some c ↦ pure c | none ↦ do restore cblk; pure znull ]
  ]

-- The `for` loop of `balbk1`: the key at the probed location goes to the other block. `none` is an
-- error.
shift : ℕ → (down : Bool) → (tblk fblk : ℤ) → Probe → M (Option Probe)
shift zero down tblk fblk p s = pure (some p) s
shift (suc n) down tblk fblk p s =
    (do
      q ← bsrhbk fblk p
      if not (is_zero q.result) then (do bterr "BALBK1" qbalse no_arg; pure none) else (do
        bremky fblk q.loc
        kep ← deref q
        bputky tblk kep znull znull
        shift n down tblk fblk (if down then record q { loc = dec q.loc } else q)))
      s

-- the last key goes to the parent
lift_key : (lblk rblk fblk : ℤ) → Probe → M (Unit {0})
lift_key lblk rblk fblk p = do
  q ← bsrhbk fblk p
  if not (is_zero q.result) then bterr "BALBK1" qbalse no_arg else (do
    s ← get
    nkeys ← bgtinf s.lf.lfblk (pos znkeys)
    let ppos = if s.lf.lfpos ==ℤ nkeys then dec s.lf.lfpos else s.lf.lfpos
    kep ← deref q
    brepky s.lf.lfblk ppos kep lblk rblk
    bremky fblk q.loc
    set_stat λ t. record t { xbal = t.xbal + 1 })

-- `p` is the key of the parent between the blocks, `diff` how many keys more the left one has
unfoldable pub balbk1 : (lblk rblk : ℤ) → ℤ → Probe → M (Unit {0})
unfolding shift lift_key
balbk1 lblk rblk diff p = do
  let down = not (is_neg diff)
  let tblk = if down then rblk else lblk
  let fblk = if down then lblk else rblk
  keypos ← (if down then (do n ← bgtinf fblk (pos znkeys); pure (dec n)) else pure (pos 0))
  kep ← deref p
  bputky tblk kep znull znull
  moved ← shift (abs diff / 2) down tblk fblk (probe_pos keypos)
  elim moved [ none ↦ skip | some q ↦ lift_key lblk rblk fblk q ]

-- the test whether balancing is due, and whether the routine ends here
abbrev pub uneven : ℤ → Bool
uneven diff = ltb (zmxkey / 2) (abs diff)

balance_right : ℤ → (nkeys cnkeys : ℤ) → M Bool
balance_right cblk nkeys cnkeys = do
  s ← get
  if not (less s.lf.lfpos nkeys) then pure false else (do
    p ← at_context
    if not (is_zero p.result) then (do bterr "BALBLK" qbalse no_arg; pure true) else (do
      n ← bgtinf p.link2 (pos znkeys)
      if uneven (cnkeys -ℤ n)
          then (do balbk1 cblk p.link2 (cnkeys -ℤ n) p; pure true)
          else pure false))

balance_left : ℤ → ℤ → M Bool
balance_left cblk cnkeys = do
  s ← get
  if not (less (pos 0) s.lf.lfpos) then pure false else (do
    set_lf λ f. record f { lfpos = dec f.lfpos }
    p ← at_context
    if not (is_zero p.result) then (do bterr "BALBLK" qbalse no_arg; pure true) else (do
      n ← bgtinf p.link1 (pos znkeys)
      if uneven (n -ℤ cnkeys)
          then (do balbk1 p.link1 cblk (n -ℤ cnkeys) p; pure true)
          else (do set_lf (λ f. record f { lfpos = inc f.lfpos }); pure false)))

unfoldable pub balblk : M (Unit {0})
unfolding balance_right balance_left
balblk = do
  s ← get
  let cblk = s.lf.lfblk
  pull_parent
  u ← get
  nkeys ← bgtinf u.lf.lfblk (pos znkeys)
  cnkeys ← bgtinf cblk (pos znkeys)
  right ← balance_right cblk nkeys cnkeys
  if right then skip else (do left ← balance_left cblk cnkeys; if left then skip else restore cblk)
