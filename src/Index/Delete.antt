-- ===== src/Index/Delete.antt =====
-- src-lib/bdemte.c, bdelk1.c and bdelky.c: deleting a key. A key of a block above the leaves is
-- replaced by the last one before it, which is then removed from its leaf; a leaf with few keys is
-- joined with a sister, or gets keys of it, and a parent that is left without keys takes one from
-- its own parent.
pub mod Refuse
pub mod Leaf
pub mod Root
pub mod OneBlock
use btlib.Prelude.{
  ℕ, zero, suc, Bool, true, false, not, ◌||◌, Option, none, some, ℤ, pos, dec, ◌==ℤ◌, ◌==◌,
  if◌then◌else◌,
}
use btlib.Prelude.Keys.{Key, strcmp}
use btlib.Consts.{zmxkey, znull, znkeys, zbtype, zroot}
use btlib.Consts.Codes.{qdemse, qdemsp, qdelex, qdeler, qdelrp, qnokey, qnowrt, qbusy}
use btlib.Machine.{M, no_arg, number, pure, skip, out_of_fuel, ◌>>=◌, ◌>>◌, get, set_lf}
use btlib.Error.{bterr, bterr_clear, btgerr}
use btlib.Cache.{bsetbs}
use btlib.Info.{bgtinf, bstinf}
use btlib.Block.{Probe, bsrhbk, bputky, brepky, bremky, bcpybk}
use btlib.Free.{bmkfre}
use btlib.Lock.{locked, unlock, bvalap}
use btlib.Dups.{DupStore}
use btlib.Dups.Remove.{nothing_done, btdeldup}
use btlib.Index.Split.{probe_pos, deref, is_zero, bsptbk}
use btlib.Index.Leaf.{bleaf}
use btlib.Index.Find.{bfndky}
use btlib.Index.Join.{natural, pull_parent, at_context, bjnblk, balblk}

-- the empty root takes over the keys of its only child
copy_child : ℤ → M ℤ
copy_child cblk = do
  s ← get
  nkeys ← bgtinf cblk (pos znkeys)
  n ← natural nkeys
  bcpybk s.lf.lfblk cblk 0 0 n
  bstinf s.lf.lfblk (pos znkeys) nkeys
  bmkfre cblk
  pure znull

-- The demoted key goes in front of the keys of the sister on its right, which move to the empty
-- block, or behind those of the sister on its left. `keyent` is read after the search in a split.
settle_key : ℤ → Bool → (link1 link2 : ℤ) → Probe → M ℤ
settle_key cblk rblke link1 link2 p = do
  if rblke then skip else (do
    nkeys ← bgtinf link2 (pos znkeys)
    bsetbs link1 true
    n ← natural nkeys
    bcpybk link1 link2 0 0 n
    bstinf link1 (pos znkeys) nkeys
    bsetbs link1 false)
  kep ← deref p
  if rblke then bputky link1 kep znull cblk else bputky link1 kep cblk znull
  bmkfre link2
  pure link1

-- the key of the parent is demoted
demote : ℤ → M ℤ
unfolding settle_key
demote cblk = do
  pull_parent
  s ← get
  bgtinf s.lf.lfblk (pos znkeys)
  let rblke = not (s.lf.lfpos ==ℤ pos 0)
  if rblke then set_lf (λ f. record f { lfpos = dec f.lfpos }) else skip
  p ← at_context
  if not (is_zero p.result) then (do bterr "BDEMTE" qdemse no_arg; pure cblk) else (do
    u ← get
    bremky u.lf.lfblk u.lf.lfpos
    let jblk = if rblke then p.link1 else p.link2
    nkeys ← bgtinf jblk (pos znkeys)
    if not (nkeys ==ℤ pos zmxkey) then settle_key cblk rblke p.link1 p.link2 p else (do
      newblk ← bsptbk jblk
      if newblk ==ℤ znull
          then (do bterr "BDEMTE" qdemsp no_arg; pure cblk)
          else settle_key cblk rblke (if rblke then newblk else p.link1) p.link2 p))

unfoldable pub bdemte : ℤ → M ℤ
unfolding copy_child demote
bdemte cblk = do
  s ← get
  nkeys ← bgtinf s.lf.lfblk (pos znkeys)
  if not (nkeys ==ℤ pos 0) then pure znull else (do
    type ← bgtinf s.lf.lfblk (pos zbtype)
    if type ==ℤ pos zroot then copy_child cblk else demote cblk)

-- the `while` loop of `bdelk1`
unfoldable pub demote_all : ℕ → ℤ → M (Unit {0})
demote_all zero cblk s = out_of_fuel
demote_all (suc k) cblk s =
    (if cblk ==ℤ znull then skip else (do c ← bdemte cblk; demote_all k c)) s

-- joining or balancing after a key was removed
unfoldable pub rebalance : ℕ → M (Unit {0})
unfolding demote_all
rebalance fuel = do
  s ← get
  type ← bgtinf s.lf.lfblk (pos zbtype)
  if type ==ℤ pos zroot
      then skip
      else (do cblk ← bjnblk; if cblk ==ℤ znull then balblk else skip; demote_all fuel cblk)

-- `key != NULL && (result != 0 || strcmp(tkey,key) != 0)`
abbrev pub is_other : Option Key → Probe → Bool
is_other none p = false
is_other (some key) p = not (is_zero p.result) || not (is_zero (strcmp p.key key))

-- the key `p` at position `pos` of a block above the leaves is replaced; whether this succeeds
replace_by_last : ℕ → (blk position : ℤ) → Probe → M Bool
replace_by_last fuel blk position p = do
  bleaf fuel 1
  set_lf λ f. record f { lfpos = dec f.lfpos }
  s ← get
  q ← bsrhbk s.lf.lfblk (record p { loc = s.lf.lfpos })
  set_lf λ f. record f { lfpos = q.loc }
  if not (is_zero q.result)
      then (do bterr "BDELK1" qdelrp (number s.lf.lfblk); pure false)
      else (do kep ← deref q; brepky blk position kep p.link1 p.link2; pure true)

module _ (d : DupStore) (fuel : ℕ) where
  -- the context of an unshared index goes back to the key that was last found
  refind : M (Unit {0})
  refind = do
    s ← get
    if s.shared || not (s.err.qerror == 0) then skip else (do
      (status, _) ← bfndky d fuel s.lf.lfkey (pos 0)
      if status == qnokey then bterr_clear else skip)

  remove : M (Unit {0})
  unfolding refind
  remove = do s ← get; bremky s.lf.lfblk s.lf.lfpos; rebalance fuel; refind

  delete_key : Option Key → M (Unit {0})
  unfolding replace_by_last remove
  delete_key key = do
    s ← get
    p ← bsrhbk s.lf.lfblk (probe_pos s.lf.lfpos)
    if is_other key p
        then bterr "BDELK1" qdeler no_arg
        else (if p.link1 ==ℤ znull
            then remove
            else (do done ← replace_by_last fuel s.lf.lfblk p.loc p; if done then remove else skip))

  -- `none` for the key is the call that deletes at the current position
  unfoldable pub bdelk1 : Option Key → M ℕ
  unfolding delete_key
  bdelk1 key = do
    s ← get
    if not s.lf.lfexct
        then bterr "BDELK1" qdelex no_arg
        else (do r ← btdeldup d; elim r [ nothing_done ↦ delete_key key | _ ↦ skip ])
    btgerr

  find_key : Option Key → M ℕ
  find_key none = pure 0
  find_key (some key) = do (status, _) ← bfndky d fuel key (pos 0); pure status

  unfoldable pub bdelky : Option Key → M ℕ
  unfolding find_key
  bdelky key = do
    bterr_clear
    status ← bvalap "BDELKY"
    if not (status == 0) then pure status else (do
      s ← get
      if not (s.super.smode ==ℤ pos 0) then bterr "BDELKY" qnowrt no_arg else (do
        granted ← locked
        if granted
            then (do found ← find_key key; if found == 0 then bdelk1 key >> skip else skip)
            else bterr "BDELKY" qbusy no_arg)
      unlock
      btgerr)
