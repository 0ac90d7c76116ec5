-- ===== src/Index/Delete/Refuse.antt =====
-- src-lib/bdelk1.c: the test of the key that is to be deleted.
use Prim.Native.Nat.{Ordering}
use btlib.Prelude.{
  ℕ, zero, suc, ◌-◌, ◌≤◌, ◌<◌, ◌≡◌, ◌≢◌, inl, inr, refl, ap, ◌∙◌, true, some, [], ◌∷◌, length, take,
  pos, arith,
}
use btlib.Prelude.Keys.{Key, strcmp, eq_of_strcmp}
use btlib.Consts.{zkylen, zmxkey, znull, znkeys}
use btlib.Consts.Codes.{qdeler}
use btlib.Machine.{State, MemRec, ok}
use btlib.Machine.Returns.{Returns, returns, outcome}
use btlib.Error.{bterr, btgerr}
use btlib.Cache.{slot_of}
use btlib.Cache.View.{view, IsCache, rest-IsCache, rest-view}
use btlib.Info.Touch.{slot_of-Loaded}
use btlib.Block.{Probe, bsrhbk, probe_slot, probe_at, report, copy_key}
use btlib.Block.Search.{Ordering-cases}
use btlib.Dups.{DupStore}
use btlib.Dups.Remove.{btdeldup}
use btlib.Index.Split.{probe_pos}
use btlib.Index.Delete.{bdelk1, delete_key, is_other}

-- what `bsrhbk` reads at a location
abbrev pub read_at : MemRec → ℕ → Probe
read_at m i = record {
  key = copy_key (m.keyblk i).key;
  loc = pos i;
  val = (m.keyblk i).val;
  link1 = m.lnkblk i;
  link2 = m.lnkblk (suc i);
  result = Ordering.eq;
  hit = true;
}

pub bsrhbk-at :
    (b i j n : ℕ) (m : MemRec) (s t : State)
    → slot_of (pos b) s ≡ ok (some j) t
    → t.memrec j ≡ m
    → m.infblk znkeys ≡ pos n
    → i < n
    → n ≤ zmxkey
    → bsrhbk (pos b) (probe_pos (pos i)) s ≡ ok (read_at m i) (record t { keyent = m.keyblk i })
unfolding bsrhbk probe_slot probe_at report
bsrhbk-at b i j n m s t run content count lt le = ground (arith, run, content, count, lt, le)

-- a key that does not fit in an entry is not the key of one
take-length : (n : ℕ) (xs : Key) → length (take n xs) ≤ n
take-length zero xs = omega arith
take-length (suc n) [] = omega arith
take-length (suc n) (x ∷ xs) = omega (arith, take-length n xs)

too_long : (a key : Key) → zkylen ≤ length key → strcmp (copy_key a) key ≢ Ordering.eq
too_long a key long same =
    omega (arith, take-length (zkylen - 1) a, ap length (eq_of_strcmp (copy_key a) key same), long)

other_key :
    (m : MemRec) (i : ℕ) (key : Key)
    → zkylen ≤ length key
    → is_other (some key) (read_at m i) ≡ true
other_key m i key long = elim (Ordering-cases (strcmp (copy_key (m.keyblk i).key) key)) [
  | inl e ↦ rw e refl
  | inr (inl e) ↦ absurd (too_long (m.keyblk i).key key long e)
  | inr (inr e) ↦ rw e refl
]

-- the refusal
abbrev refused : State → MemRec → ℕ → State
refused t m i = record t {
  keyent = m.keyblk i;
  err = record { qerror = qdeler; qname = "BDELK1"; qarg = t.err.qarg };
}

bdelk1-step :
    (d : DupStore) (fuel b i : ℕ) (key : Key) (m : MemRec) (s t : State)
    → s.lf.lfexct ≡ true
    → s.lf.draddr ≡ znull
    → s.lf.lfblk ≡ pos b
    → s.lf.lfpos ≡ pos i
    → bsrhbk (pos b) (probe_pos (pos i)) s ≡ ok (read_at m i) (record t { keyent = m.keyblk i })
    → is_other (some key) (read_at m i) ≡ true
    → t.err.qerror ≡ 0
    → bdelk1 d fuel (some key) s ≡ ok qdeler (refused t m i)
unfolding bdelk1 delete_key btdeldup bterr btgerr
bdelk1-step d fuel b i key m s t exact idle blk at run other quiet =
    ground (arith, exact, idle, blk, at, run, other, quiet)

-- At a key without duplicates of a stored block, with a well-formed cache and no recorded error:
-- `bdelk1` of a key of ZKYLEN characters or more returns QDELER, whatever key stands there, and the
-- index stores what it did.
pub bdelk1_long :
    (d : DupStore) (fuel b i n : ℕ) (key : Key) (m : MemRec) (s : State)
    → IsCache s
    → view s b ≡ some m
    → m.infblk znkeys ≡ pos n
    → i < n
    → n ≤ zmxkey
    → s.lf.lfexct ≡ true
    → s.lf.draddr ≡ znull
    → s.lf.lfblk ≡ pos b
    → s.lf.lfpos ≡ pos i
    → s.err.qerror ≡ 0
    → zkylen ≤ length key
    → Returns
        (λ code u. (code ≡ qdeler) × IsCache u × ((a : ℕ) → view u a ≡ view s a))
        (bdelk1 d fuel (some key) s)
bdelk1_long d fuel b i n key m s v stored count lt le exact idle blk at quiet long =
    let (r, t, run, (j, e, l)) = outcome (slot_of-Loaded s b m v stored) in
    let u : State = refused t m i in
    rw
      (bdelk1-step d fuel b i key m s t exact idle blk at
        (bsrhbk-at b i j n m s t (run ∙ ap (λ x. ok x t) e) l.content count lt le)
        (other_key m i key long) (ap (λ (x : State). x.err.qerror) l.context ∙ quiet))
      (returns (
        refl,
        rest-IsCache t t.lf t.stk t.stat t.super u.err u.keyent l.cache,
        λ a. rest-view t t.lf t.stk t.stat t.super u.err u.keyent a ∙ l.stored a,
      ))
