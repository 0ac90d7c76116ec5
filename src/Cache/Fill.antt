-- ===== src/Cache/Fill.antt =====
-- src-lib/brdblk.c: a block is read into a slot that may take it.
use btlib.Prelude.{
  ℕ, ◌+◌, ◌<◌, ◌≡◌, ◌≢◌, sym, ◌∙◌, true, false, none, some, pos, ◌==◌, ==_iff, ◌==ℤ◌, ==ℤ_iff,
  subst, set, Option-cases, Bool-cases, inl, inr, arith,
}
use btlib.Consts.{zmxblk}
use btlib.Machine.{State, MemRec}
use btlib.Lru.Queue.{Chain-same}
use btlib.Cache.{find_slot, holds}
use btlib.Cache.View.{view, IsCache, found, missed, find-absent, view-resident, view-absent}
use btlib.Cache.Evict.{IsSpare}

-- the state after `fread` of block `n`, which is `m`, into slot `j`
abbrev pub filled : State → ℕ → ℕ → MemRec → State
filled s j n m = record s {
  memrec = set s.memrec j m;
  stat = record s.stat { xphyrd = s.stat.xphyrd + 1 };
  cntrl = set s.cntrl j (record (s.cntrl j) { inmem = pos n });
}

module _ (s : State) (j n : ℕ) (m : MemRec) (v : IsCache s) (spare : IsSpare s j)
    (absent : find_slot (holds (pos n)) s ≡ none) (read : s.file n ≡ some m) where
  filled_unique :
      (i k b : ℕ)
      → i < zmxblk
      → k < zmxblk
      → ((filled s j n m).cntrl i).inmem ≡ pos b
      → ((filled s j n m).cntrl k).inmem ≡ pos b
      → i ≡ k
  filled_unique i k b p q e f =
      ground (arith, v.unique i k b p q, missed s i n absent p, missed s k n absent q)

  filled-clean :
      (i b : ℕ)
      → i < zmxblk
      → ((filled s j n m).cntrl i).inmem ≡ pos b
      → ((filled s j n m).cntrl i).writes ≡ 0
      → s.file b ≡ some ((filled s j n m).memrec i)
  filled-clean i b p e w = ground (arith, v.clean i b p, read)

  pub filled-IsCache : IsCache (filled s j n m)
  filled-IsCache = record {
    order = v.order;
    queue = record {
      chain =
          Chain-same s.cntrl (filled s j n m).cntrl s.lru.lruh v.order (λ i. ground arith)
            v.queue.chain;
      tail = v.queue.tail;
      distinct = v.queue.distinct;
      size = v.queue.size;
      full = v.queue.full;
    };
    unique = filled_unique;
    clean = filled-clean;
    idle = λ i a p. ground (arith, v.idle i a, spare.idle);
    free = v.free;
    free_in = v.free_in;
    free_idle = ground (arith, v.free_idle);
    room = v.room;
  }

  pub filled-busy : (i : ℕ) → ((filled s j n m).cntrl i).busy ≡ (s.cntrl i).busy
  filled-busy i = ground arith

  -- a busy slot keeps its block
  pub filled-wired :
      (i : ℕ)
      → (s.cntrl i).busy ≡ true
      → (((filled s j n m).cntrl i).inmem ≡ (s.cntrl i).inmem)
        × ((filled s j n m).memrec i ≡ s.memrec i)
  filled-wired i b = ground (arith, spare.idle)

  pub filled_self : ((filled s j n m).cntrl j).inmem ≡ pos n
  filled_self = ground arith

  filled-view_new : view (filled s j n m) n ≡ view s n
  filled-view_new =
      view-resident (filled s j n m) j n filled-IsCache spare.inside filled_self
      ∙ ground (arith, view-absent s n absent)

  filled-view_old : (b : ℕ) → (s.cntrl j).inmem ≡ pos b → view (filled s j n m) b ≡ view s b
  filled-view_old b h =
      view-absent (filled s j n m) b (
        find-absent (filled s j n m) b λ i lt e.
          ground (arith, v.unique i j b lt spare.inside, missed s j n absent spare.inside))
      ∙ spare.saved b h
      ∙ sym (view-resident s j b v spare.inside h)

  filled-view_slot :
      (b i : ℕ)
      → (s.cntrl j).inmem ≢ pos b
      → i < zmxblk
      → (s.cntrl i).inmem ≡ pos b
      → view (filled s j n m) b ≡ view s b
  filled-view_slot b i nj lt h =
      let ne : (i == j) ≡ false = ground arith in
      view-resident (filled s j n m) i b filled-IsCache lt (ground (arith, ne, h))
      ∙ ground (arith, ne, view-resident s i b v lt h)

  filled-view_other :
      (b : ℕ) → b ≢ n → (s.cntrl j).inmem ≢ pos b → view (filled s j n m) b ≡ view s b
  filled-view_other b ne nj = elim (Option-cases (find_slot (holds (pos b)) s)) [
    | inl e ↦
        view-absent (filled s j n m) b
          (find-absent (filled s j n m) b λ i lt h. ground (arith, missed s i b e lt))
        ∙ sym (view-absent s b e)
    | inr (i, e) ↦ let (h, lt) = found s i b e in filled-view_slot b i nj lt h
  ]

  -- Reading a block into a spare slot leaves what the index stores.
  pub filled-view : (b : ℕ) → view (filled s j n m) b ≡ view s b
  filled-view b = elim (Bool-cases (b == n)) [
    | inl e ↦
        subst (λ k. view (filled s j n m) k ≡ view s k) (sym ((==_iff b n).0 e)) filled-view_new
    | inr e ↦ elim (Bool-cases ((s.cntrl j).inmem ==ℤ pos b)) [
      | inl f ↦ filled-view_old b ((==ℤ_iff (s.cntrl j).inmem (pos b)).0 f)
      | inr f ↦
          filled-view_other b (λ p. cc (e, (==_iff b n).1 p))
            λ p. cc (f, (==ℤ_iff (s.cntrl j).inmem (pos b)).1 p)
    ]
  ]
