-- ===== src/Cache/Read.antt =====
-- src-lib/brdblk.c: a block is brought into a slot.
use btlib.Prelude.{
  ℕ, ◌+◌, ◌<◌, ◌≡◌, refl, sym, ap, ◌∙◌, Bool, true, false, Option, none, some, pos, Option-cases,
  inl, inr, arith,
}
use btlib.Consts.{zmxblk}
use btlib.Machine.{State, MemRec, M, pure, ◌>>=◌, ◌>>◌}
use btlib.Machine.Returns
use btlib.Machine.Returns.{Returns, returns}
use btlib.Lru.{bqmove}
use btlib.Lru.Move.{bqmove-to_back}
use btlib.Cache.{find_slot, holds, brdblk, bgtslt, fill}
use btlib.Cache.View.{
  rest-IsCache, view, IsCache, SameContext, context_trans, found, missed, find-absent,
  find-resident, view-resident, view-absent,
}
use btlib.Cache.Kept.{Kept, Kept-trans, view-same, requeue-Kept, requeue-IsCache}
use btlib.Cache.Evict.{IsSpare, bgtslt-IsSpare}
use btlib.Cache.Fill.{filled, filled-IsCache, filled-busy, filled-wired, filled_self, filled-view}

-- From `s` the block `n`, which is `m`, came into slot `j` of `t`.
pub record Loaded (s t : State) (n j : ℕ) (m : MemRec) : Type 0 where
  pub inside : j < zmxblk
  pub resident : (t.cntrl j).inmem ≡ pos n
  pub content : t.memrec j ≡ m
  pub cache : IsCache t
  pub stored : (b : ℕ) → view t b ≡ view s b
  pub context : SameContext s t
  pub busy : (i : ℕ) → (t.cntrl i).busy ≡ (s.cntrl i).busy
  pub wired :
      (i : ℕ)
      → (s.cntrl i).busy ≡ true
      → ((t.cntrl i).inmem ≡ (s.cntrl i).inmem) × (t.memrec i ≡ s.memrec i)

-- `brdblk` returned the slot and no I/O error
abbrev pub LoadedAt : State → ℕ → MemRec → Option ℕ × Bool → State → Type 0
LoadedAt s n m r t = (j : ℕ) × (r ≡ (some j, false)) × Loaded s t n j m

-- the slot is queued last
requeued :
    (s t : State) (n j : ℕ) (m : MemRec)
    → Loaded s t n j m
    → Returns (λ _ u. Loaded s u n j m) (bqmove (some j) t)
requeued s t n j m l =
    Returns.mono (bqmove-to_back t l.cache.order j l.cache.queue l.inside) λ _ u (q, e).
      let k : Kept t u = requeue-Kept t u e in
      record {
        inside = l.inside;
        resident = k.inmem j ∙ l.resident;
        content = ap (λ (f : ℕ → MemRec). f j) k.memrec ∙ l.content;
        cache = requeue-IsCache t u e _ q l.cache;
        stored = λ b. k.stored b ∙ l.stored b;
        context = context_trans s t u l.context k.context;
        busy = λ i. k.busy i ∙ l.busy i;
        wired = λ i b.
            (k.inmem i ∙ (l.wired i b).0, ap (λ (f : ℕ → MemRec). f i) k.memrec ∙ (l.wired i b).1);
      }

-- the block is in a slot already
abbrev hit : State → State
hit s = record s { stat = record s.stat { xlogrd = s.stat.xlogrd + 1 } }

brdblk-hit :
    (s : State) (n j : ℕ)
    → find_slot (holds (pos n)) s ≡ some j
    → brdblk (pos n) s ≡ (bqmove (some j) >> pure (some j, false)) (hit s)
unfolding brdblk
brdblk-hit s n j h = ground (arith, h)

abbrev fill_slot : ℕ → Option ℕ → M (Option ℕ × Bool)
fill_slot n i = elim i [ none ↦ pure (none, false) | some j ↦ fill (pos n) j ]

brdblk-miss :
    (s : State) (n : ℕ)
    → find_slot (holds (pos n)) s ≡ none
    → brdblk (pos n) s ≡ (bgtslt >>= fill_slot n) s
unfolding brdblk
brdblk-miss s n h = ground (arith, h)

fill-read :
    (s : State) (n j : ℕ) (m : MemRec)
    → s.file n ≡ some m
    → fill (pos n) j s ≡ (bqmove (some j) >> pure (some j, false)) (filled s j n m)
unfolding fill
fill-read s n j m h = ground (arith, h)

hit-IsCache : (s : State) → IsCache s → IsCache (hit s)
hit-IsCache s v = rest-IsCache s s.lf s.stk (hit s).stat s.super s.err s.keyent v

hit-Loaded :
    (s : State) (n j : ℕ) (m : MemRec)
    → IsCache s
    → view s n ≡ some m
    → j < zmxblk
    → (s.cntrl j).inmem ≡ pos n
    → Loaded s (hit s) n j m
hit-Loaded s n j m v h lt r = record {
  inside = lt;
  resident = r;
  content = cc (view-resident s j n v lt r, h);
  cache = hit-IsCache s v;
  stored = λ b. view-same s (hit s) b (λ i. refl) refl (λ _. refl);
  context = refl;
  busy = λ i. refl;
  wired = λ i b. (refl, refl);
}

filled-Loaded :
    (s t : State) (n j : ℕ) (m : MemRec)
    → Kept s t
    → IsCache t
    → IsSpare t j
    → find_slot (holds (pos n)) t ≡ none
    → t.file n ≡ some m
    → Loaded s (filled t j n m) n j m
filled-Loaded s t n j m k v spare absent file = record {
  inside = spare.inside;
  resident = filled_self t j n m v spare absent file;
  content = ground arith;
  cache = filled-IsCache t j n m v spare absent file;
  stored = λ b. filled-view t j n m v spare absent file b ∙ k.stored b;
  context = context_trans s t (filled t j n m) k.context refl;
  busy = λ i. filled-busy t j n m v spare absent file i ∙ k.busy i;
  wired = λ i b.
      let (p, q) = filled-wired t j n m v spare absent file i (k.busy i ∙ b) in
      (p ∙ k.inmem i, q ∙ ap (λ (f : ℕ → MemRec). f i) k.memrec);
}

-- the slot is queued last and returned
return_slot :
    (s t : State) (n j : ℕ) (m : MemRec)
    → Loaded s t n j m
    → Returns (LoadedAt s n m) ((bqmove (some j) >> pure (some j, false)) t)
return_slot s t n j m l = Returns.bind (requeued s t n j m l) λ _ u l'. returns (j, refl, l')

brdblk-missing :
    (s : State) (n : ℕ) (m : MemRec)
    → IsCache s
    → view s n ≡ some m
    → find_slot (holds (pos n)) s ≡ none
    → Returns (LoadedAt s n m) (brdblk (pos n) s)
brdblk-missing s n m v h e = rw (brdblk-miss s n e) (
    Returns.bind (bgtslt-IsSpare s v) λ r t (j, er, v', k, spare).
      let absent : find_slot (holds (pos n)) t ≡ none =
        find-absent t n λ i lt same. missed s i n e lt (sym (k.inmem i) ∙ same) in
      let file : t.file n ≡ some m = sym (view-absent t n absent) ∙ k.stored n ∙ h in
      rw (er, fill-read t n j m file)
        (return_slot s (filled t j n m) n j m (filled-Loaded s t n j m k v' spare absent file)))

-- Given a well-formed cache and a block that the index stores, `brdblk` returns a slot that holds
-- this block, with no I/O error. What the index stores at any block, the busy marks and the blocks
-- of busy slots, the recorded error and the context of the index are as before.
pub brdblk-Loaded :
    (s : State) (n : ℕ) (m : MemRec)
    → IsCache s
    → view s n ≡ some m
    → Returns (LoadedAt s n m) (brdblk (pos n) s)
brdblk-Loaded s n m v h = elim (Option-cases (find_slot (holds (pos n)) s)) [
  | inl e ↦ brdblk-missing s n m v h e
  | inr (j, e) ↦
      let (r, lt) = found s j n e in
      rw (brdblk-hit s n j e) (return_slot s (hit s) n j m (hit-Loaded s n j m v h lt r))
]

-- A block that a slot holds is found in that slot.
pub brdblk-resident :
    (s : State) (n j : ℕ)
    → IsCache s
    → j < zmxblk
    → (s.cntrl j).inmem ≡ pos n
    → Returns (λ r t. (r ≡ (some j, false)) × Loaded s t n j (s.memrec j)) (brdblk (pos n) s)
brdblk-resident s n j v lt h = rw (brdblk-hit s n j (find-resident s j n v lt h)) (
    Returns.bind
      (requeued s (hit s) n j (s.memrec j)
        (hit-Loaded s n j (s.memrec j) v (view-resident s j n v lt h) lt h))
      λ _ u l. returns (refl, l))

hit-Kept : (s : State) → Kept s (hit s)
hit-Kept s = record {
  inmem = λ i. refl;
  busy = λ i. refl;
  memrec = refl;
  stored = λ n. view-same s (hit s) n (λ i. refl) refl (λ _. refl);
  context = refl;
}

-- The other slots keep their blocks.
pub brdblk-Kept :
    (s : State) (n j : ℕ)
    → IsCache s
    → j < zmxblk
    → (s.cntrl j).inmem ≡ pos n
    → Returns (λ r t. (r ≡ (some j, false)) × IsCache t × Kept s t) (brdblk (pos n) s)
brdblk-Kept s n j v lt h = rw (brdblk-hit s n j (find-resident s j n v lt h)) (
    Returns.bind (bqmove-to_back (hit s) (hit-IsCache s v).order j (hit-IsCache s v).queue lt)
      λ _ u (q, e). returns (
        refl,
        requeue-IsCache (hit s) u e _ q (hit-IsCache s v),
        Kept-trans (hit-Kept s) (requeue-Kept (hit s) u e),
      ))
