-- ===== src/Cache/View.antt =====
-- What an open index stores: the block that the cache holds, else the block of the file.
use btlib.Prelude.{
  refl, ℕ, ◌<◌, ◌≡◌, ◌≢◌, ap, ◌∙◌, true, false, Option, none, some, List, pos, ==ℤ_iff, is_neg,
  first_from-some, first_from-none, Option-cases, inl, inr, arith,
}
use btlib.Consts.{zmxblk}
use btlib.Machine.{State, MemRec, Lf, Stk, Stats, Super, Err, KeyEnt}
use btlib.Lru.Move.{IsQueue}
use btlib.Cache.{find_slot, holds}

unfoldable pub view : State → ℕ → Option MemRec
view s n = elim (find_slot (holds (pos n)) s) [ some i ↦ some (s.memrec i) | none ↦ s.file n ]

-- The invariant of the cache: the slots are queued, no block is in two slots, a slot that was not
-- written to holds what the file holds, an unused slot is not busy, some slot is not busy, and
-- the system takes every write.
pub record IsCache (s : State) : Type 0 where
  pub order : List ℕ
  pub queue : IsQueue s order
  pub unique :
      (i j n : ℕ)
      → i < zmxblk
      → j < zmxblk
      → (s.cntrl i).inmem ≡ pos n
      → (s.cntrl j).inmem ≡ pos n
      → i ≡ j
  pub clean :
      (i n : ℕ)
      → i < zmxblk
      → (s.cntrl i).inmem ≡ pos n
      → (s.cntrl i).writes ≡ 0
      → s.file n ≡ some (s.memrec i)
  pub idle : (i : ℕ) → i < zmxblk → is_neg (s.cntrl i).inmem ≡ true → (s.cntrl i).busy ≡ false
  pub free : ℕ
  pub free_in : free < zmxblk
  pub free_idle : (s.cntrl free).busy ≡ false
  pub room : (n : ℕ) → s.room n ≡ true

-- Only what the cache does not depend on differs.
abbrev pub with_rest : State → Lf → Stk → Stats → Super → Err → KeyEnt → State
with_rest s f k t p r e = record s { lf = f; stk = k; stat = t; super = p; err = r; keyent = e }

pub rest-IsCache :
    (s : State) (f : Lf) (k : Stk) (t : Stats) (p : Super) (r : Err) (e : KeyEnt)
    → IsCache s
    → IsCache (with_rest s f k t p r e)
rest-IsCache s f k t p r e v = record {
  order = v.order;
  queue = record {
    chain = v.queue.chain;
    tail = v.queue.tail;
    distinct = v.queue.distinct;
    size = v.queue.size;
    full = v.queue.full;
  };
  unique = v.unique;
  clean = v.clean;
  idle = v.idle;
  free = v.free;
  free_in = v.free_in;
  free_idle = v.free_idle;
  room = v.room;
}

pub rest-view :
    (s : State) (f : Lf) (k : Stk) (t : Stats) (p : Super) (r : Err) (e : KeyEnt) (b : ℕ)
    → view (with_rest s f k t p r e) b ≡ view s b
unfolding view
rest-view s f k t p r e b = refl

-- Only the cache, its counters and the file differ.
abbrev pub SameContext : State → State → Type 0
SameContext s s' =
    record s' { cntrl = s.cntrl; memrec = s.memrec; lru = s.lru; stat = s.stat; file = s.file } ≡ s

pub context_trans : (s t u : State) → SameContext s t → SameContext t u → SameContext s u
context_trans s t u a b =
    ap
      (λ (w : State). record w {
        cntrl = s.cntrl;
        memrec = s.memrec;
        lru = s.lru;
        stat = s.stat;
        file = s.file;
      })
      b
    ∙ a

pub found :
    (s : State) (j n : ℕ)
    → find_slot (holds (pos n)) s ≡ some j
    → ((s.cntrl j).inmem ≡ pos n) × (j < zmxblk)
found s j n e =
    let (test, _, lt) = first_from-some zmxblk 0 (λ i. holds (pos n) (s.cntrl i)) e in
    ((==ℤ_iff (s.cntrl j).inmem (pos n)).0 test, omega arith)

pub missed :
    (s : State) (i n : ℕ)
    → find_slot (holds (pos n)) s ≡ none
    → i < zmxblk
    → (s.cntrl i).inmem ≢ pos n
missed s i n e lt h = cc (
  first_from-none zmxblk 0 (λ k. holds (pos n) (s.cntrl k)) i e (omega arith) (omega arith),
  (==ℤ_iff (s.cntrl i).inmem (pos n)).1 h,
)

pub find-absent :
    (s : State) (n : ℕ)
    → ((i : ℕ) → i < zmxblk → (s.cntrl i).inmem ≢ pos n)
    → find_slot (holds (pos n)) s ≡ none
find-absent s n h = elim (Option-cases (find_slot (holds (pos n)) s)) [
  | inl e ↦ e
  | inr (j, e) ↦ let (jn, jlt) = found s j n e in absurd (h j jlt jn)
]

pub find-resident :
    (s : State) (i n : ℕ)
    → IsCache s
    → i < zmxblk
    → (s.cntrl i).inmem ≡ pos n
    → find_slot (holds (pos n)) s ≡ some i
find-resident s i n v lt h = elim (Option-cases (find_slot (holds (pos n)) s)) [
  | inl e ↦ absurd (missed s i n e lt h)
  | inr (j, e) ↦ let (jn, jlt) = found s j n e in e ∙ ap some (v.unique j i n jlt lt jn h)
]

pub view-resident :
    (s : State) (i n : ℕ)
    → IsCache s
    → i < zmxblk
    → (s.cntrl i).inmem ≡ pos n
    → view s n ≡ some (s.memrec i)
unfolding view
view-resident s i n v lt h = ground (arith, find-resident s i n v lt h)

-- of a block that no slot holds, the file's
pub view-absent : (s : State) (n : ℕ) → find_slot (holds (pos n)) s ≡ none → view s n ≡ s.file n
unfolding view
view-absent s n h = ground (arith, h)
