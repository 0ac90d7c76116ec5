-- ===== src/Roots/Blocks.antt =====
-- src-lib/bnxtbk.c and btkeys of butil.c: the blocks of a root, children first, and their check.
use btlib.Prelude.{
  ℕ, zero, suc, ◌+◌, ◌/◌, Bool, true, false, not, ◌&&◌, ◌||◌, Option, none, some, ℤ, pos, inc,
  is_neg, ◌==ℤ◌, ◌+ℤ◌, abs, less, ltb, ◌==◌, if◌then◌else◌,
}
use btlib.Consts.{znull, zroot, zbtype, znkeys}
use btlib.Consts.Codes.{qbusy, qrdblk}
use btlib.Machine.{M, no_arg, number, pure, skip, out_of_fuel, ◌>>=◌, ◌>>◌, get, set_lf}
use btlib.Error.{bterr, bterr_clear, btgerr}
use btlib.Stack.{bpush, bpull, bstkin, btstk_depth}
use btlib.Cache.{slot_of, brdblk}
use btlib.Info.{bgtinf}
use btlib.Block.{Probe, bsrhbk}
use btlib.Lock.{locked, bvalap}
use btlib.Dups.{DupStore}
use btlib.Dups.Remove.{btcntkeys}
use btlib.Index.Split.{probe_pos}
use btlib.Index.Leaf.{bleaf}

-- the loop of `bnxtbk`, with `*blk`
next_block : ℕ → ℤ → M ℤ
next_block zero blk s = out_of_fuel
next_block (suc k) blk s =
    (if is_neg s.lf.lfblk then pure blk else (do
      i ← slot_of s.lf.lfblk
      elim i [
        | none ↦ do bterr "BNXTBK" qrdblk (number s.lf.lfblk); pure blk
        | some _ ↦ do
          nkeys ← bgtinf s.lf.lfblk (pos znkeys)
          if less nkeys s.lf.lfpos
              then (do
                lfpos ← bpull
                set_lf λ f. record f { lfpos = lfpos }
                lfblk ← bpull
                set_lf λ f. record f { lfblk = lfblk; lfpos = inc f.lfpos }
                pure s.lf.lfblk)
              else (do
                bleaf (suc k) 0
                u ← get
                n ← bgtinf u.lf.lfblk (pos znkeys)
                set_lf λ f. record f { lfpos = n +ℤ pos 2 }
                next_block k blk)
      ]))
      s

-- The status and the next block; ZNULL asks for the first.
unfoldable pub bnxtbk : ℕ → ℤ → M (ℕ × ℤ)
unfolding next_block
bnxtbk fuel blk = do
  if blk ==ℤ znull
      then (do
        bstkin
        bpush znull
        bpush znull
        set_lf λ f. record f { lfpos = pos 0 }
        s ← get
        set_lf λ f. record f { lfblk = s.super.scroot }
        bleaf fuel 0
        skip)
      else skip
  next ← next_block fuel blk
  code ← btgerr
  pure (code, next)

-- What `btkeys` has found so far; `leaf_depth` is `none` for -1.
pub record Survey : Type 0 where
  pub tnkeys : ℕ
  pub empty_blk : ℤ
  pub leaf_depth : Option ℕ
  pub balanced : Bool
  pub probe : Probe

-- a leaf at a depth
seen_leaf : ℕ → Survey → Survey
seen_leaf depth v = elim v.leaf_depth [
  | none ↦ record v { leaf_depth = some depth }
  | some l ↦
      if l == depth
      then v
      else record v { leaf_depth = some (if ltb l depth then depth else l); balanced = false }
]

module _ (d : DupStore) (fuel : ℕ) where
  -- A round of the loop of `btkeys`; `none` for keys that cannot be counted.
  survey_block : ℤ → Survey → M (Option Survey)
  unfolding seen_leaf
  survey_block blkno v = do
    elements ← btstk_depth
    let depth : ℕ = abs elements / 2
    brdblk blkno
    nkeys ← bgtinf blkno (pos znkeys)
    if (nkeys ==ℤ pos 0) && (v.empty_blk ==ℤ znull)
        then (do
          type ← bgtinf blkno (pos zbtype)
          pure (some (if type ==ℤ pos zroot then v else record v { empty_blk = blkno })))
        else (do
          p ← bsrhbk blkno v.probe
          let v' : Survey = record v { probe = p }
          let w = if p.link1 ==ℤ znull then seen_leaf depth v' else v'
          count ← btcntkeys d fuel blkno
          pure (elim count [ none ↦ none | some n ↦ some (record w { tnkeys = w.tnkeys + n }) ]))

  survey : ℕ → ℤ → Survey → M (Option Survey)
  unfolding survey_block
  survey zero blkno v s = out_of_fuel
  survey (suc k) blkno v s =
      (do
        (_, blk) ← bnxtbk fuel blkno
        seen ← survey_block blk v
        elim seen [
          | none ↦ pure none
          | some w ↦ do u ← get; if blk ==ℤ u.super.scroot then pure (some w) else survey k blk w
        ])
        s

  -- the result of the check
  abbrev verdict : Option Survey → ℤ
  verdict none = pos 0
  verdict (some v) = if not (v.empty_blk ==ℤ znull) || not v.balanced then znull else pos v.tnkeys

  -- The number of keys of the current root, ZNULL for a damaged index, 0 for a lock that was not granted, or the
  -- status. The lock is not given back. What is printed is left out.
  unfoldable pub btkeys : M ℤ
  unfolding survey
  btkeys = do
    bterr_clear
    status ← bvalap "BTKEYS"
    if not (status == 0) then pure (pos status) else (do
      granted ← locked
      if not granted then (do bterr "BTKEYS" qbusy no_arg; pure (pos 0)) else (do
        seen ← survey fuel znull (record {
          tnkeys = 0;
          empty_blk = znull;
          leaf_depth = none;
          balanced = true;
          probe = probe_pos (pos 0);
        })
        pure (verdict seen)))
