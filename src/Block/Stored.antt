-- ===== src/Block/Stored.antt =====
-- The routines on the keys of a block against what the index stores.
use Prim.Native.Nat.{Ordering}
use btlib.Prelude.{ℕ, suc, ◌<◌, ◌≤◌, ◌≡◌, refl, ap, ◌∙◌, true, false, some, ℤ, pos, negsuc, arith}
use btlib.Prelude.Keys.{Key}
use btlib.Consts.{zmxkey, znkeys, znull}
use btlib.Machine.{State, KeyEnt, MemRec, ok}
use btlib.Machine.Returns
use btlib.Machine.Returns.{Returns, returns}
use btlib.Cache.View.{view, IsCache}
use btlib.Info.Words.{Unchanged, unchanged}
use btlib.Info.Touch.{slot_of-Loaded, Written, touch-Written}
use btlib.Info.{touch}
use btlib.Block.{
  Probe, probe_slot, put_slot, bsrhbk, bputky, probe_for, report, bin_search, put_key,
}
use btlib.Block.Search.{IsOrdered, Located, bin_search-block}

-- A block of the index: its key count is in range, and its keys are in strcmp order.
pub record IsNode (m : MemRec) (n : ℕ) : Type 0 where
  pub count : m.infblk znkeys ≡ pos n
  pub fits : n ≤ zmxkey
  pub ordered : IsOrdered m.keyblk n

-- what `bsrhbk` leaves in its variables for a location and a result
abbrev pub reported : MemRec → Probe → ℤ → Ordering → Probe
reported m p (negsuc k) r = record p {
  loc = negsuc k;
  result = r;
  val = pos 0;
  link1 = znull;
  link2 = znull;
  hit = false;
}
reported m p (pos l) r = record p {
  loc = pos l;
  result = r;
  val = (m.keyblk l).val;
  link1 = m.lnkblk l;
  link2 = m.lnkblk (suc l);
  hit = true;
}

-- `keyent` after it
abbrev pub copied : MemRec → ℤ → State → State
copied m (negsuc k) t = t
copied m (pos l) t = record t { keyent = m.keyblk l }

report-reported :
    (m : MemRec) (n : ℕ) (key : Key) (p : Probe) (t : State) (loc : ℤ) (r : Ordering)
    → Located m.keyblk n key loc r
    → n ≤ zmxkey
    → report m (record p { loc = loc; result = r }) t ≡ ok (reported m p loc r) (copied m loc t)
unfolding report
report-reported m n key p t (negsuc k) r at le = refl
report-reported m n key p t (pos l) Ordering.lt at le = ground (arith, at.0)
report-reported m n key p t (pos l) Ordering.eq at le = ground (arith, at.0)
report-reported m n key p t (pos l) Ordering.gt at le = ground (arith, at.0)

probe_for-run :
    (m : MemRec) (n : ℕ) (p : Probe) (t : State) (loc : ℤ) (r : Ordering)
    → m.infblk znkeys ≡ pos n
    → n ≤ zmxkey
    → bin_search (suc zmxkey) m.keyblk p.key 0 n false (negsuc 0) Ordering.lt ≡ some (loc, r)
    → probe_for m p t ≡ report m (record p { loc = loc; result = r }) t
unfolding probe_for
probe_for-run m n p t loc r count le run = ground (arith, count, run)

-- the search in a node, with what it tells of the key
probe_for-Located :
    (m : MemRec) (n : ℕ) (p : Probe) (t : State)
    → IsNode m n
    → (loc : ℤ) × (r : Ordering) × Located m.keyblk n p.key loc r
      × (probe_for m p t ≡ ok (reported m p loc r) (copied m loc t))
probe_for-Located m n p t node =
    let (loc, r, run, at) =
      bin_search-block m.keyblk n (suc zmxkey) p.key node.ordered (omega (arith, node.fits)) in
    (
      loc,
      r,
      at,
      probe_for-run m n p t loc r node.count node.fits run
          ∙ report-reported m n p.key p t loc r at node.fits,
    )

probe_slot-for :
    (p : Probe) (j : ℕ) (m : MemRec) (t : State)
    → p.loc ≡ negsuc 0
    → t.memrec j ≡ m
    → probe_slot p j t ≡ probe_for m p t
unfolding probe_slot
probe_slot-for p j m t h e = ground (arith, h, e)

-- Given a well-formed cache, a node of the index and no location, `bsrhbk` returns the location
-- and the result of the search, with the value at the location and the links on its two sides,
-- records no error, and leaves the entry at the location in `keyent`.
pub bsrhbk-Located :
    (s : State) (b n : ℕ) (m : MemRec) (p : Probe)
    → IsCache s
    → view s b ≡ some m
    → IsNode m n
    → p.loc ≡ negsuc 0
    → Returns
        (λ q u.
          (t : State) × (loc : ℤ) × (r : Ordering) × Unchanged s t
          × (u ≡ copied m loc t)
          × (q ≡ reported m p loc r)
          × Located m.keyblk n p.key loc r)
        (bsrhbk (pos b) p s)
unfolding bsrhbk
bsrhbk-Located s b n m p v h node no_loc = Returns.bind (slot_of-Loaded s b m v h) λ r t (j, er, l).
    let (loc, res, at, run) = probe_for-Located m n p t node in
    rw (er, probe_slot-for p j m t no_loc l.content, run)
      (returns (t, loc, res, unchanged l, refl, refl, at))

put_slot-touch :
    (blk : ℤ) (e : KeyEnt) (link1 link2 : ℤ) (j n : ℕ) (m : MemRec) (t : State)
    → t.memrec j ≡ m
    → m.infblk znkeys ≡ pos n
    → n < zmxkey
    → t.wt_threshold ≡ 0
    → put_slot blk e link1 link2 j t ≡ touch j (put_key e link1 link2 n) t
unfolding put_slot
put_slot-touch blk e link1 link2 j n m t c count lt wt = ground (arith, c, count, wt)

-- Given a well-formed cache, a block of the index with room for a key, and no threshold for
-- writing through, `bputky` changes what the index stores at that block alone, by `put_key`.
pub bputky-Written :
    (s : State) (b n : ℕ) (m : MemRec) (e : KeyEnt) (link1 link2 : ℤ)
    → IsCache s
    → view s b ≡ some m
    → m.infblk znkeys ≡ pos n
    → n < zmxkey
    → s.wt_threshold ≡ 0
    → Returns (λ _ u. Written s u b (put_key e link1 link2 n m)) (bputky (pos b) e link1 link2 s)
unfolding bputky
bputky-Written s b n m e link1 link2 v h count lt wt =
    Returns.bind (slot_of-Loaded s b m v h) λ r t (j, er, l).
      rw
        (
          er,
          put_slot-touch (pos b) e link1 link2 j n m t l.content count lt
              (ap (λ (w : State). w.wt_threshold) l.context ∙ wt),
        )
        (touch-Written s t b j m (put_key e link1 link2 n) l)
