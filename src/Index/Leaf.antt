-- ===== src/Index/Leaf.antt =====
-- src-lib/bleaf.c: from the position of the context down to a leaf, on the left edge (direction 0)
-- or on the right edge (any other).
pub mod Still
use btlib.Prelude.{ℕ, zero, suc, Option, none, some, ℤ, pos, negsuc, ◌==ℤ◌, leb, if◌then◌else◌}
use btlib.Consts.{zmxkey, znull, znkeys}
use btlib.Consts.Codes.{qrdblk}
use btlib.Machine.{MemRec, M, number, out_of_fuel, pure, faulty, ◌>>=◌, ◌>>◌, get, set_lf}
use btlib.Error.{bterr}
use btlib.Stack.{bpush}
use btlib.Cache.{brdblk, slot_of}
use btlib.Info.{bgtinf}

-- `lnkblk[pos]`
abbrev pub link_at : MemRec → ℤ → M ℤ
link_at m (pos p) = if leb p zmxkey then pure (m.lnkblk p) else faulty
link_at m (negsuc p) = faulty

-- the position in the block below
edge : ℕ → M (Unit {0})
edge zero = set_lf λ f. record f { lfpos = pos 0 }
edge (suc dir) = do
  s ← get
  nkeys ← bgtinf s.lf.lfblk (pos znkeys)
  set_lf λ f. record f { lfpos = nkeys }

pub descend : ℕ → ℕ → ℕ → M (Option ℕ)
descend zero dir idx s = out_of_fuel
descend (suc k) dir idx s =
    (do
      link ← link_at (s.memrec idx) s.lf.lfpos
      if link ==ℤ znull then pure (some idx) else (do
        bpush s.lf.lfblk
        bpush s.lf.lfpos
        set_lf λ f. record f { lfblk = link }
        (i, _) ← brdblk link
        elim i [
          | none ↦ do bterr "BLEAF" qrdblk (number link); pure none
          | some j ↦ do edge dir; descend k dir j
        ]))
      s

unfoldable pub bleaf : ℕ → ℕ → M (Option ℕ)
unfolding descend edge
bleaf fuel dir = do
  s ← get
  i ← slot_of s.lf.lfblk
  elim i [
    | none ↦ do bterr "BLEAF" qrdblk (number s.lf.lfblk); pure none
    | some j ↦ do
      nkeys ← bgtinf s.lf.lfblk (pos znkeys)
      if nkeys ==ℤ pos 0 then pure (some j) else descend fuel dir j
  ]
