-- ===== src/Block/Changed.antt =====
-- src-lib/bremky.c and brepky.c against what the index stores.
use btlib.Prelude.{ℕ, suc, ◌<◌, ◌≡◌, ap, ◌∙◌, false, some, ℤ, pos, leb, arith}
use btlib.Consts.{zmxkey, znkeys}
use btlib.Machine.{State, KeyEnt, MemRec}
use btlib.Machine.Returns
use btlib.Machine.Returns.{Returns, returns}
use btlib.Cache.View.{view, IsCache}
use btlib.Info.{touch}
use btlib.Info.Touch.{slot_of-Loaded, Written, touch-Written}
use btlib.Block.{brepky, bremky, remove_slot, remove_key, replace_key}

remove_slot-touch :
    (blk : ℤ) (p j n : ℕ) (m : MemRec) (t : State)
    → t.memrec j ≡ m
    → m.infblk znkeys ≡ pos (suc n)
    → n < zmxkey
    → t.wt_threshold ≡ 0
    → remove_slot blk p j t ≡ touch j (remove_key n p) t
unfolding remove_slot
remove_slot-touch blk p j n m t c count lt wt = ground (arith, c, count, wt)

-- Given a well-formed cache, a block of the index with `n + 1` keys, less than ZMXKEY + 1, and no
-- threshold for writing through, `bremky` changes what the index stores at that block alone, by
-- `remove_key`.
pub bremky-Written :
    (s : State) (b n p : ℕ) (m : MemRec)
    → IsCache s
    → view s b ≡ some m
    → m.infblk znkeys ≡ pos (suc n)
    → n < zmxkey
    → s.wt_threshold ≡ 0
    → Returns (λ _ u. Written s u b (remove_key n p m)) (bremky (pos b) (pos p) s)
unfolding bremky
bremky-Written s b n p m v h count lt wt = Returns.bind (slot_of-Loaded s b m v h) λ r t (j, er, l).
    rw
      (
        er,
        remove_slot-touch (pos b) p j n m t l.content count lt
            (ap (λ (w : State). w.wt_threshold) l.context ∙ wt),
      )
      (touch-Written s t b j m (remove_key n p) l)

-- Given a well-formed cache, a block of the index and a position in range, `brepky` changes the
-- key at that position and the links on its two sides, and nothing else of what the index stores.
pub brepky-Written :
    (s : State) (b p : ℕ) (m : MemRec) (e : KeyEnt) (link1 link2 : ℤ)
    → IsCache s
    → view s b ≡ some m
    → p < zmxkey
    → Returns
        (λ _ u. Written s u b (replace_key p e link1 link2 m))
        (brepky (pos b) (pos p) e link1 link2 s)
unfolding brepky
brepky-Written s b p m e link1 link2 v h lt =
    let in_range : leb zmxkey p ≡ false = ground arith in
    rw in_range (
      Returns.bind (slot_of-Loaded s b m v h)
        λ r t (j, er, l). rw er (touch-Written s t b j m (replace_key p e link1 link2) l))
