-- ===== src/Info/Touch.antt =====
-- Writing to a block in its slot, as `bstinf`, `bsetbk` and the routines on keys do.
use btlib.Prelude.{
  ℕ, ◌+◌, ◌<◌, ◌≡◌, ◌≢◌, refl, sym, ap, ◌∙◌, some, pos, set, Option-cases, inl, inr, arith,
}
use btlib.Consts.{zmxblk}
use btlib.Machine.{State, MemRec}
use btlib.Machine.Returns
use btlib.Machine.Returns.{Returns, returns}
use btlib.Lru.Queue.{Chain-same}
use btlib.Cache.{find_slot, holds, slot_of}
use btlib.Cache.View.{
  view, IsCache, SameContext, context_trans, found, missed, find-absent, view-resident, view-absent,
}
use btlib.Cache.Read.{Loaded, brdblk-Loaded, brdblk-resident}
use btlib.Info.{touch}

-- `slot_of` finds the slot of a block that the index stores.
pub slot_of-Loaded :
    (s : State) (n : ℕ) (m : MemRec)
    → IsCache s
    → view s n ≡ some m
    → Returns (λ r t. (j : ℕ) × (r ≡ some j) × Loaded s t n j m) (slot_of (pos n) s)
unfolding slot_of
slot_of-Loaded s n m v h =
    Returns.bind (brdblk-Loaded s n m v h) λ r t (j, e, l). rw e (returns (j, refl, l))

-- From `s` to `u` the index stores `m` at block `n`, and at the others what it did.
pub record Written (s u : State) (n : ℕ) (m : MemRec) : Type 0 where
  pub cache : IsCache u
  pub new : view u n ≡ some m
  pub others : (b : ℕ) → b ≢ n → view u b ≡ view s b
  pub context : SameContext s u
  pub busy : (i : ℕ) → (u.cntrl i).busy ≡ (s.cntrl i).busy

-- the state after `touch`
abbrev pub touched : State → ℕ → MemRec → State
touched t j m = record t {
  memrec = set t.memrec j m;
  cntrl = set t.cntrl j (record (t.cntrl j) { writes = (t.cntrl j).writes + 1 });
}

module _ (t : State) (n j : ℕ) (m : MemRec) (v : IsCache t) (lt : j < zmxblk)
    (r : (t.cntrl j).inmem ≡ pos n) where
  touched-inmem : (i : ℕ) → ((touched t j m).cntrl i).inmem ≡ (t.cntrl i).inmem
  touched-inmem i = ground arith

  touched-IsCache : IsCache (touched t j m)
  touched-IsCache = record {
    order = v.order;
    queue = record {
      chain =
          Chain-same t.cntrl (touched t j m).cntrl t.lru.lruh v.order (λ i. ground arith)
            v.queue.chain;
      tail = v.queue.tail;
      distinct = v.queue.distinct;
      size = v.queue.size;
      full = v.queue.full;
    };
    unique = λ i k b p q e f. v.unique i k b p q (ground arith) (ground arith);
    clean = λ i b p e w. ground (arith, v.clean i b p);
    idle = λ i p e. ground (arith, v.idle i p);
    free = v.free;
    free_in = v.free_in;
    free_idle = ground (arith, v.free_idle);
    room = v.room;
  }

  touched-new : view (touched t j m) n ≡ some m
  touched-new =
      view-resident (touched t j m) j n touched-IsCache lt (ground (arith, r)) ∙ ground arith

  touched-others : (b : ℕ) → b ≢ n → view (touched t j m) b ≡ view t b
  touched-others b ne = elim (Option-cases (find_slot (holds (pos b)) t)) [
    | inl e ↦
        view-absent (touched t j m) b
          (find-absent (touched t j m) b λ i p h. missed t i b e p (sym (touched-inmem i) ∙ h))
        ∙ sym (view-absent t b e)
    | inr (i, e) ↦
        let (h, p) = found t i b e in
        view-resident (touched t j m) i b touched-IsCache p (touched-inmem i ∙ h)
        ∙ ground (arith, r, h)
        ∙ sym (view-resident t i b v p h)
  ]

pub Written-by :
    (s t : State) (n j : ℕ) (m : MemRec) (f : MemRec → MemRec)
    → Loaded s t n j m
    → Written s (touched t j (f (t.memrec j))) n (f m)
Written-by s t n j m f l = record {
  cache = touched-IsCache t n j (f (t.memrec j)) l.cache l.inside l.resident;
  new =
      touched-new t n j (f (t.memrec j)) l.cache l.inside l.resident
      ∙ ap (λ k. some (f k)) l.content;
  others =
      λ b ne. touched-others t n j (f (t.memrec j)) l.cache l.inside l.resident b ne ∙ l.stored b;
  context = context_trans s t (touched t j (f (t.memrec j))) l.context refl;
  busy = λ i. ground (arith, l.busy i);
}

-- A change of a block in its slot is a change of what the index stores at that block.
pub touch-Written :
    (s t : State) (n j : ℕ) (m : MemRec) (f : MemRec → MemRec)
    → Loaded s t n j m
    → Returns (λ _ u. Written s u n (f m)) (touch j f t)
touch-Written s t n j m f l = returns (Written-by s t n j m f l)

-- A routine that knows the slot of a block finds it there again.
pub slot_of-resident :
    (s t : State) (n j : ℕ) (m : MemRec)
    → Loaded s t n j m
    → Returns (λ r u. (r ≡ some j) × Loaded t u n j m) (slot_of (pos n) t)
unfolding slot_of
slot_of-resident s t n j m l =
    Returns.bind (brdblk-resident t n j l.cache l.inside l.resident) λ r u (e, l'). rw e (
      returns (
        refl,
        record {
          inside = l'.inside;
          resident = l'.resident;
          content = l'.content ∙ l.content;
          cache = l'.cache;
          stored = l'.stored;
          context = l'.context;
          busy = l'.busy;
          wired = l'.wired;
        },
      ))

-- the slot of a block after a change of it
pub Loaded-here :
    (u : State) (n j : ℕ) (m : MemRec)
    → IsCache u
    → j < zmxblk
    → (u.cntrl j).inmem ≡ pos n
    → u.memrec j ≡ m
    → Loaded u u n j m
Loaded-here u n j m v lt r e = record {
  inside = lt;
  resident = r;
  content = e;
  cache = v;
  stored = λ b. refl;
  context = refl;
  busy = λ i. refl;
  wired = λ i b. (refl, refl);
}

pub touch-Loaded :
    (s t : State) (n j : ℕ) (m : MemRec) (f : MemRec → MemRec)
    → Loaded s t n j m
    → Returns (λ _ u. Written s u n (f m) × Loaded u u n j (f m)) (touch j f t)
touch-Loaded s t n j m f l = returns (
  Written-by s t n j m f l,
  Loaded-here (touched t j (f (t.memrec j))) n j (f m)
      (touched-IsCache t n j (f (t.memrec j)) l.cache l.inside l.resident) l.inside
      (touched-inmem t n j (f (t.memrec j)) l.cache l.inside l.resident j ∙ l.resident)
      (ground (arith, l.content)),
)

-- one change after another
pub Written-trans :
    {s t u : State} {n : ℕ} {m m' : MemRec} → Written s t n m → Written t u n m' → Written s u n m'
Written-trans {s} {t} {u} a b = record {
  cache = b.cache;
  new = b.new;
  others = λ k ne. b.others k ne ∙ a.others k ne;
  context = context_trans s t u a.context b.context;
  busy = λ i. b.busy i ∙ a.busy i;
}

-- a change after a read
pub Written-after :
    {s t u : State} {n j : ℕ} {m m' : MemRec}
    → Loaded s t n j m
    → Written t u n m'
    → Written s u n m'
Written-after {s} {t} {u} l b = record {
  cache = b.cache;
  new = b.new;
  others = λ k ne. b.others k ne ∙ l.stored k;
  context = context_trans s t u l.context b.context;
  busy = λ i. b.busy i ∙ l.busy i;
}
