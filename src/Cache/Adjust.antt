-- ===== src/Cache/Adjust.antt =====
-- src-lib/bsetbs.c: a slot whose busy mark or count of writes changes.
use btlib.Prelude.{ℕ, ◌<◌, ◌≡◌, refl, sym, ◌∙◌, Bool, false, some, pos, set, arith}
use btlib.Consts.{zmxblk}
use btlib.Machine.{State, Cntrl, ok}
use btlib.Lru.Queue.{Chain-same}
use btlib.Cache.{slot_of, bsetbs}
use btlib.Cache.View.{view, IsCache}
use btlib.Cache.Kept.{view-same}

abbrev pub adjusted : State → ℕ → Cntrl → State
adjusted t j c = record t { cntrl = set t.cntrl j c }

-- A slot with a block may be marked and its writes counted, if some slot is left that is not busy.
module _ (t : State) (j n k : ℕ) (c : Cntrl) (v : IsCache t)
    (holds_block : (t.cntrl j).inmem ≡ pos n) (same : c.inmem ≡ (t.cntrl j).inmem)
    (next : c.lrunxt ≡ (t.cntrl j).lrunxt) (written : c.writes ≡ 0 → (t.cntrl j).writes ≡ 0)
    (inside : k < zmxblk) (free : ((adjusted t j c).cntrl k).busy ≡ false) where
  pub adjusted-inmem : (i : ℕ) → ((adjusted t j c).cntrl i).inmem ≡ (t.cntrl i).inmem
  adjusted-inmem i = ground (arith, same)

  pub adjusted-IsCache : IsCache (adjusted t j c)
  adjusted-IsCache = record {
    order = v.order;
    queue = record {
      chain =
          Chain-same t.cntrl (adjusted t j c).cntrl t.lru.lruh v.order (λ i. ground (arith, next))
            v.queue.chain;
      tail = v.queue.tail;
      distinct = v.queue.distinct;
      size = v.queue.size;
      full = v.queue.full;
    };
    unique = λ i l b p q e f.
        v.unique i l b p q (sym (adjusted-inmem i) ∙ e) (sym (adjusted-inmem l) ∙ f);
    clean = λ i b p e w. v.clean i b p (sym (adjusted-inmem i) ∙ e) (ground (arith, w, written));
    idle = λ i p e. ground (arith, e, v.idle i p, same, holds_block);
    free = k;
    free_in = inside;
    free_idle = free;
    room = v.room;
  }

  pub adjusted-view : (b : ℕ) → view (adjusted t j c) b ≡ view t b
  adjusted-view b = view-same t (adjusted t j c) b adjusted-inmem refl (λ _. refl)

-- the slot with a busy mark
abbrev pub marked : State → ℕ → Bool → State
marked t j x = adjusted t j (record (t.cntrl j) { busy = x })

pub bsetbs-marked :
    (b j : ℕ) (x : Bool) (s t : State)
    → slot_of (pos b) s ≡ ok (some j) t
    → bsetbs (pos b) x s ≡ ok tt (marked t j x)
unfolding bsetbs
bsetbs-marked b j x s t run = ground (arith, run)
