-- ===== src/Cache/Start.antt =====
-- src-lib/bacini.c: `initcntrl` empties the cache.
use btlib.Prelude.{
  ℕ, ◌<◌, ◌≡◌, refl, ap, ◌∙◌, true, false, Option, none, some, [], ◌∷◌, pos, ◌==◌, if◌then◌else◌,
  arith,
}
use btlib.Consts.{zmxblk, znull}
use btlib.Machine.{State, Cntrl, ok}
use btlib.Machine.Returns.{Returns, returns}
use btlib.Lru.{bqadd}
use btlib.Lru.Move.{IsQueue}
use btlib.Cache.{initcntrl}
use btlib.Cache.View.{view, IsCache, view-absent, find-absent}

abbrev blank : Cntrl → Option ℕ → Cntrl
blank c j = record c { inmem = znull; busy = false; writes = 0; lrunxt = j }

-- the slots after it
abbrev emptied : (ℕ → Cntrl) → ℕ → Cntrl
emptied c i =
    if i == 0
    then blank (c 0) (some 1)
    else if i == 1
    then blank (c 1) (some 2)
    else if i == 2
    then blank (c 2) none
    else c i

initcntrl-run :
    (s : State)
    → (t : State) × (initcntrl s ≡ ok tt t)
      × ((i : ℕ) → t.cntrl i ≡ emptied s.cntrl i)
      × (t.lru ≡ record { lrut = some 2; lruh = some 0 })
      × (record t { cntrl = s.cntrl; lru = s.lru } ≡ s)
unfolding initcntrl bqadd
initcntrl-run s = (_, refl, λ i. ground arith, refl, refl)

module _ (c : ℕ → Cntrl) (t : State) (slots : (i : ℕ) → t.cntrl i ≡ emptied c i)
    (queue : t.lru ≡ record { lrut = some 2; lruh = some 0 }) where
  unused : (i n : ℕ) → i < zmxblk → (t.cntrl i).inmem ≡ pos n → ⊥
  unused i n lt e = ground (arith, slots i, e)

  emptied-IsQueue : IsQueue t (0 ∷ (1 ∷ (2 ∷ [])))
  emptied-IsQueue = record {
    chain = (
      ground (arith, queue),
      (ground (arith, slots 0), (ground (arith, slots 1), ground (arith, slots 2))),
    );
    tail = ground (arith, queue);
    distinct = (refl, (refl, (refl, tt)));
    size = refl;
    full = λ i. ground arith;
  }

  emptied-IsCache : ((n : ℕ) → t.room n ≡ true) → IsCache t
  emptied-IsCache room = record {
    order = 0 ∷ (1 ∷ (2 ∷ []));
    queue = emptied-IsQueue;
    unique = λ i j n p q e f. absurd (unused i n p e);
    clean = λ i n p e w. absurd (unused i n p e);
    idle = λ i p e. ground (arith, slots i);
    free = 0;
    free_in = omega arith;
    free_idle = ground (arith, slots 0);
    room = room;
  }

-- Whatever the cache holds, `initcntrl` makes it a well-formed cache that queues the slots in their
-- order, if the system takes every write; the index then stores what the file holds.
pub initcntrl-IsCache :
    (s : State)
    → ((n : ℕ) → s.room n ≡ true)
    → Returns
        (λ _ t. IsCache t × IsQueue t (0 ∷ (1 ∷ (2 ∷ []))) × ((n : ℕ) → view t n ≡ s.file n))
        (initcntrl s)
initcntrl-IsCache s room =
    let (t, run, slots, queue, rest) = initcntrl-run s in
    rw run (
      returns (
        emptied-IsCache s.cntrl t slots queue (λ n. ap (λ (x : State). x.room n) rest ∙ room n),
        emptied-IsQueue s.cntrl t slots queue,
        λ n.
            view-absent t n (find-absent t n (λ i p e. unused s.cntrl t slots queue i n p e))
            ∙ ap (λ (x : State). x.file n) rest,
      ))
