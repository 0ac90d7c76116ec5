-- ===== src/Cache/Kept.antt =====
-- States whose slots hold the same blocks and whose files may differ at the blocks that a slot holds.
use mathlib.Core.Path.{fun_ext}
use btlib.Prelude.{
  ℕ, ◌≡◌, refl, sym, ap, ◌∙◌, none, some, List, pos, ◌==ℤ◌, is_neg, first_from, Option-cases, inl,
  inr, arith,
}
use btlib.Consts.{zmxblk}
use btlib.Machine.{State}
use btlib.Lru.Move.{IsQueue, SameButQueue}
use btlib.Cache.{find_slot, holds}
use btlib.Cache.View.{view, IsCache, SameContext, context_trans}

pub view-same :
    (s t : State) (n : ℕ)
    → ((i : ℕ) → (t.cntrl i).inmem ≡ (s.cntrl i).inmem)
    → t.memrec ≡ s.memrec
    → (find_slot (holds (pos n)) s ≡ none → t.file n ≡ s.file n)
    → view t n ≡ view s n
unfolding view
view-same s t n slots mem file =
    let same : find_slot (holds (pos n)) t ≡ find_slot (holds (pos n)) s =
      ap (first_from zmxblk 0) (fun_ext λ i. ap (λ b. b ==ℤ pos n) (slots i)) in
    elim (Option-cases (find_slot (holds (pos n)) s)) [
      | inl e ↦ ground (arith, same, e, file e)
      | inr (j, e) ↦ ground (arith, same, e, mem)
    ]

-- The slots hold the same blocks, and the index stores the same.
pub record Kept (s t : State) : Type 0 where
  pub inmem : (i : ℕ) → (t.cntrl i).inmem ≡ (s.cntrl i).inmem
  pub busy : (i : ℕ) → (t.cntrl i).busy ≡ (s.cntrl i).busy
  pub memrec : t.memrec ≡ s.memrec
  pub stored : (n : ℕ) → view t n ≡ view s n
  pub context : SameContext s t

pub Kept-refl : (s : State) → Kept s s
Kept-refl s = record {
  inmem = λ i. refl;
  busy = λ i. refl;
  memrec = refl;
  stored = λ n. refl;
  context = refl;
}

pub Kept-trans : {s t u : State} → Kept s t → Kept t u → Kept s u
Kept-trans {s} {t} {u} a b = record {
  inmem = λ i. b.inmem i ∙ a.inmem i;
  busy = λ i. b.busy i ∙ a.busy i;
  memrec = b.memrec ∙ a.memrec;
  stored = λ n. b.stored n ∙ a.stored n;
  context = context_trans s t u a.context b.context;
}

module _ (s t : State) (e : SameButQueue s t) where
  pub requeue-Kept : Kept s t
  requeue-Kept = record {
    inmem = e.inmem;
    busy = e.busy;
    memrec = ap (λ (w : State). w.memrec) e.rest;
    stored = λ n.
        view-same s t n e.inmem (ap (λ (w : State). w.memrec) e.rest)
          λ _. ap (λ (w : State). w.file n) e.rest;
    context =
        ap
          (λ (w : State). record w {
            cntrl = s.cntrl;
            memrec = s.memrec;
            lru = s.lru;
            stat = s.stat;
            file = s.file;
          })
          e.rest;
  }

  -- A new order of the queue keeps the invariant.
  pub requeue-IsCache : (xs : List ℕ) → IsQueue t xs → IsCache s → IsCache t
  requeue-IsCache xs q v = record {
    order = xs;
    queue = q;
    unique = λ i j n a b h k. v.unique i j n a b (sym (e.inmem i) ∙ h) (sym (e.inmem j) ∙ k);
    clean = λ i n a h k.
        ap (λ (w : State). w.file n) e.rest
        ∙ v.clean i n a (sym (e.inmem i) ∙ h) (sym (e.writes i) ∙ k)
        ∙ sym (ap (λ (w : State). some (w.memrec i)) e.rest);
    idle = λ i a h. e.busy i ∙ v.idle i a (ap is_neg (sym (e.inmem i)) ∙ h);
    free = v.free;
    free_in = v.free_in;
    free_idle = e.busy v.free ∙ v.free_idle;
    room = λ n. ap (λ (w : State). w.room n) e.rest ∙ v.room n;
  }
