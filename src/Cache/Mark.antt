-- ===== src/Cache/Mark.antt =====
-- src-lib/bsetbs.c: a stored block is marked busy, or not busy any more.
use btlib.Prelude.{ℕ, ◌<◌, ◌≡◌, ◌≢◌, refl, ap, ◌∙◌, Bool, true, false, some, pos, arith}
use btlib.Consts.{zmxblk}
use btlib.Machine.{State, Cntrl, MemRec, ok}
use btlib.Machine.Returns.{Returns, returns, outcome}
use btlib.Cache.{bsetbs}
use btlib.Cache.View.{view, IsCache, SameContext}
use btlib.Cache.Adjust.{adjusted-IsCache, adjusted-view, marked, bsetbs-marked}
use btlib.Info.Touch.{slot_of-Loaded}

-- From `s` to `u` the mark of one slot was set to `flag`, and the index stores the same.
pub record IsMarked (s u : State) (flag : Bool) : Type 0 where
  pub slot : ℕ
  pub cache : IsCache u
  pub stored : (b : ℕ) → view u b ≡ view s b
  pub context : SameContext s u
  pub here : (u.cntrl slot).busy ≡ flag
  pub elsewhere : (i : ℕ) → i ≢ slot → (u.cntrl i).busy ≡ (s.cntrl i).busy

-- A block can be marked if, whatever its slot is, another one is not busy.
pub bsetbs-IsMarked :
    (s : State) (b : ℕ) (m : MemRec)
    → IsCache s
    → view s b ≡ some m
    → ((j : ℕ) → (k : ℕ) × (k < zmxblk) × (k ≢ j) × ((s.cntrl k).busy ≡ false))
    → Returns (λ _ u. IsMarked s u true) (bsetbs (pos b) true s)
bsetbs-IsMarked s b m v h beside =
    let (r, t, run, (j, e, l)) = outcome (slot_of-Loaded s b m v h) in
    let (k, k_in, ne, free) = beside j in
    let c : Cntrl = record (t.cntrl j) { busy = true } in
    let left : ((marked t j true).cntrl k).busy ≡ false = ground (arith, ne, l.busy k, free) in
    rw (bsetbs-marked b j true s t (run ∙ ap (λ x. ok x t) e)) (
      returns (record {
        slot = j;
        cache = adjusted-IsCache t j b k c l.cache l.resident refl refl (λ z. z) k_in left;
        stored = λ a.
            adjusted-view t j b k c l.cache l.resident refl refl (λ z. z) k_in left a ∙ l.stored a;
        context = l.context;
        here = ground arith;
        elsewhere = λ i n. ground (arith, n, l.busy i);
      }))

-- The mark of a stored block can be taken away.
pub bsetbs-IsUnmarked :
    (s : State) (b : ℕ) (m : MemRec)
    → IsCache s
    → view s b ≡ some m
    → Returns (λ _ u. IsMarked s u false) (bsetbs (pos b) false s)
bsetbs-IsUnmarked s b m v h =
    let (r, t, run, (j, e, l)) = outcome (slot_of-Loaded s b m v h) in
    let c : Cntrl = record (t.cntrl j) { busy = false } in
    let free : ((marked t j false).cntrl j).busy ≡ false = ground arith in
    rw (bsetbs-marked b j false s t (run ∙ ap (λ x. ok x t) e)) (
      returns (record {
        slot = j;
        cache = adjusted-IsCache t j b j c l.cache l.resident refl refl (λ z. z) l.inside free;
        stored = λ a.
            adjusted-view t j b j c l.cache l.resident refl refl (λ z. z) l.inside free a
            ∙ l.stored a;
        context = l.context;
        here = ground arith;
        elsewhere = λ i n. ground (arith, n, l.busy i);
      }))
