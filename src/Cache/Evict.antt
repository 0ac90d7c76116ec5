-- ===== src/Cache/Evict.antt =====
-- src-lib/bwrblk.c and bgtslt.c: writing a slot to the file and choosing one for another block.
use btlib.Prelude.{
  ℕ, ◌+◌, ◌<◌, ◌≡◌, ◌≢◌, refl, sym, ap, subst, ◌∙◌, Bool, false, Option, none, some, List, ◌∷◌,
  ◌++◌, pos, negsuc, ◌==◌, set, first_from-some, Option-cases, Bool-cases, ℤ-cases, inl, inr, arith,
  if◌then◌else◌,
}
use btlib.Consts.{zmxblk}
use btlib.Consts.Codes.{qwrblk}
use btlib.Machine.{State, MemRec, M, number, ok, skip, ◌>>=◌}
use btlib.Error.{bterr}
use btlib.Machine.Returns
use btlib.Machine.Returns.{Returns, returns}
use btlib.Lru.{bqhead}
use btlib.Lru.Queue.{Chain-same}
use btlib.Lru.Move.{IsQueue}
use btlib.Lru.Head.{AllBusy, split_busy, bqhead-first}
use btlib.Cache.{find_slot, is_unused, bwrblk, bgtslt, choose, clean}
use btlib.Cache.View.{view, IsCache, find-resident, view-resident}
use btlib.Cache.Kept.{Kept, Kept-refl, Kept-trans, view-same, requeue-Kept, requeue-IsCache}

-- the state after `bwrblk` of block `n` in slot `i`
abbrev flushed : State → ℕ → ℕ → State
flushed s i n = record s {
  cntrl = set s.cntrl i (record (s.cntrl i) { writes = 0 });
  file = if (s.cntrl i).writes == 0 then s.file else set s.file n (some (s.memrec i));
  stat =
      if (s.cntrl i).writes == 0
      then record s.stat { xlogwr = s.stat.xlogwr + 1 }
      else record s.stat { xphywr = s.stat.xphywr + 1 };
}

module _ (s : State) (i n : ℕ) (v : IsCache s) (lt : i < zmxblk)
    (h : (s.cntrl i).inmem ≡ pos n) where
  bwrblk-flushed : bwrblk (pos n) s ≡ ok false (flushed s i n)
  unfolding bwrblk
  bwrblk-flushed = ground (arith, find-resident s i n v lt h, v.room n)

  flushed-file : (m : ℕ) → m ≢ n → (flushed s i n).file m ≡ s.file m
  flushed-file m ne = ground arith

  flushed_self : (flushed s i n).file n ≡ some (s.memrec i)
  flushed_self = ground (arith, v.clean i n lt h)

  flushed-Kept : Kept s (flushed s i n)
  flushed-Kept = record {
    inmem = λ j. ground arith;
    busy = λ j. ground arith;
    memrec = refl;
    stored = λ m.
        view-same s (flushed s i n) m (λ j. ground arith) refl
          λ absent. flushed-file m (λ e. cc (absent, e, find-resident s i n v lt h));
    context = refl;
  }

  flushed-clean :
      (j m : ℕ)
      → j < zmxblk
      → ((flushed s i n).cntrl j).inmem ≡ pos m
      → ((flushed s i n).cntrl j).writes ≡ 0
      → (flushed s i n).file m ≡ some (s.memrec j)
  flushed-clean j m a k w = elim (Bool-cases (m == n)) [
    | inl e ↦ ground (arith, e, flushed_self, v.unique j i n a lt)
    | inr e ↦ ground (arith, e, h, k, w, flushed-file m, v.clean j m a)
  ]

  flushed-IsCache : IsCache (flushed s i n)
  flushed-IsCache = record {
    order = v.order;
    queue = record {
      chain =
          Chain-same s.cntrl (flushed s i n).cntrl s.lru.lruh v.order (λ j. ground arith)
            v.queue.chain;
      tail = v.queue.tail;
      distinct = v.queue.distinct;
      size = v.queue.size;
      full = v.queue.full;
    };
    unique = λ j k m a b p q. v.unique j k m a b (ground arith) (ground arith);
    clean = flushed-clean;
    idle = λ j a p. ground (arith, v.idle j a);
    free = v.free;
    free_in = v.free_in;
    free_idle = ground (arith, v.free_idle);
    room = v.room;
  }

  -- Given a well-formed cache and a slot that holds the block, `bwrblk` succeeds, the file then
  -- holds what the index stores at that block, the slot counts as not written, and the index
  -- stores what it did.
  pub bwrblk-stores :
      Returns
        (λ ioerr t.
          (ioerr ≡ false) × IsCache t × Kept s t × (t.file n ≡ view s n) × ((t.cntrl i).writes ≡ 0))
        (bwrblk (pos n) s)
  bwrblk-stores = rw bwrblk-flushed (
      returns (
        refl,
        flushed-IsCache,
        flushed-Kept,
        flushed_self ∙ sym (view-resident s i n v lt h),
        ground arith,
      ))

-- The slot `j` may take another block: it is not busy, and what it holds stands in the file.
pub record IsSpare (t : State) (j : ℕ) : Type 0 where
  pub inside : j < zmxblk
  pub idle : (t.cntrl j).busy ≡ false
  pub saved : (n : ℕ) → (t.cntrl j).inmem ≡ pos n → t.file n ≡ some (t.memrec j)

abbrev Chosen : State → Option ℕ → State → Type 0
Chosen s r t =
    (j : ℕ) × (r ≡ some j) × (j < zmxblk) × ((t.cntrl j).busy ≡ false) × IsCache t × Kept s t

bqhead-first_idle :
    (s : State) (bs : List ℕ) (i : ℕ) (rest : List ℕ)
    → IsCache s
    → IsQueue s (bs ++ (i ∷ rest))
    → AllBusy s bs
    → (s.cntrl i).busy ≡ false
    → Returns (Chosen s) (bqhead s)
bqhead-first_idle s bs i rest v q all nb =
    Returns.mono (bqhead-first bs rest i s q all nb) λ r t (e, q', same). (
      i,
      e,
      ground (arith, q'.full i),
      same.busy i ∙ nb,
      requeue-IsCache s t same ((i ∷ rest) ++ bs) q' v,
      requeue-Kept s t same,
    )

bqhead-idle : (s : State) → IsCache s → Returns (Chosen s) (bqhead s)
bqhead-idle s v =
    let (bs, i, rest, eq, all, nb) =
      split_busy s v.order v.free (ground (arith, v.queue.full v.free, v.free_in)) v.free_idle in
    bqhead-first_idle s bs i rest v (subst (IsQueue s) eq v.queue) all nb

choose-some : (s : State) (j : ℕ) → find_slot is_unused s ≡ some j → choose s ≡ ok (some j) s
unfolding choose
choose-some s j e = ground (arith, e)

choose-none : (s : State) → find_slot is_unused s ≡ none → choose s ≡ bqhead s
unfolding choose
choose-none s e = ground (arith, e)

clean-unused : (s : State) (j n : ℕ) → (s.cntrl j).inmem ≡ negsuc n → clean j s ≡ ok tt s
unfolding clean
clean-unused s j n h = ground (arith, h)

abbrev report : ℕ → Bool → M (Unit {0})
report n ioerr = if ioerr then bterr "BGTSLT" qwrblk (number (pos n)) else skip

clean-used :
    (s : State) (j n : ℕ) → (s.cntrl j).inmem ≡ pos n → clean j s ≡ (bwrblk (pos n) >>= report n) s
unfolding clean
clean-used s j n h = ground (arith, h)

choose-idle : (s : State) → IsCache s → Returns (Chosen s) (choose s)
choose-idle s v = elim (Option-cases (find_slot is_unused s)) [
  | inl e ↦ rw (choose-none s e) (bqhead-idle s v)
  | inr (j, e) ↦
      let (test, _, lt) = first_from-some zmxblk 0 (λ i. is_unused (s.cntrl i)) e in
      rw (choose-some s j e)
        (returns (j, refl, omega arith, v.idle j (omega arith) test, v, Kept-refl s))
]

saved_at :
    (s t : State) (j n m : ℕ)
    → (s.cntrl j).inmem ≡ pos n
    → Kept s t
    → IsCache s
    → j < zmxblk
    → t.file n ≡ view s n
    → (t.cntrl j).inmem ≡ pos m
    → t.file m ≡ some (t.memrec j)
saved_at s t j n m h k v lt file same =
    ground (arith, k.inmem j, view-resident s j n v lt h, ap (λ (f : ℕ → MemRec). f j) k.memrec)

clean-saved :
    (s : State) (j : ℕ)
    → IsCache s
    → j < zmxblk
    → (s.cntrl j).busy ≡ false
    → Returns (λ _ t. IsCache t × Kept s t × IsSpare t j) (clean j s)
clean-saved s j v lt b = elim (ℤ-cases (s.cntrl j).inmem) [
  | inl (n, h) ↦ rw (clean-used s j n h) (
      Returns.bind (bwrblk-stores s j n v lt h) λ ioerr t (e, v', k, file, _). rw e (
        returns (
          v',
          k,
          record {
            inside = lt;
            idle = k.busy j ∙ b;
            saved = λ m same. saved_at s t j n m h k v lt file same;
          },
        )))
  | inr (n, h) ↦
      rw (clean-unused s j n h)
        (returns (v, Kept-refl s, record { inside = lt; idle = b; saved = λ m k. cc (h, k) }))
]

-- Given a well-formed cache, `bgtslt` finds a slot that may take another block: it is not busy and
-- the file has what it holds. No error is recorded, and the index stores what it did before.
pub bgtslt-IsSpare :
    (s : State)
    → IsCache s
    → Returns (λ r t. (j : ℕ) × (r ≡ some j) × IsCache t × Kept s t × IsSpare t j) (bgtslt s)
unfolding bgtslt
bgtslt-IsSpare s v = Returns.bind (choose-idle s v) λ r t (j, e, lt, b, v', k). rw e (
    Returns.bind (clean-saved t j v' lt b)
      λ _ u (v'', k', spare). returns (j, refl, v'', Kept-trans k k', spare))
