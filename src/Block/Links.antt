-- ===== src/Block/Links.antt =====
-- src-lib/bputky.c: the links go with their keys.
use btlib.Prelude.{
  ℕ, zero, suc, ◌≤◌, ◌<◌, ◌≡◌, ◌≢◌, refl, ap, ◌∙◌, false, ◌&&◌, ◌||◌, ℤ, pos, negsuc, ◌==◌, ◌==ℤ◌,
  if◌then◌else◌, arith,
}
use btlib.Prelude.Keys.{Key}
use btlib.Consts.{znkeys, znull}
use btlib.Machine.{KeyEnt, MemRec}
use btlib.Block.{make_room, put_key, put_links}
use btlib.Block.Put.{Room, make_room-Room}
use btlib.Block.Place.{InPlace, Inserted, room, put_key-Inserted}

pub leaf_first :
    (e : KeyEnt) (m : MemRec) (j : ℕ) → j ≤ 1 → (put_key e znull znull 0 m).lnkblk j ≡ znull
unfolding put_key
leaf_first e m j le = ground arith

links_of_put :
    (e : KeyEnt) (link1 link2 : ℤ) (n : ℕ) (m : MemRec)
    → InPlace link1 link2
    → (put_key e link1 link2 (suc n) m).lnkblk
      ≡ put_links link1 link2
          (make_room e.key (suc n) m.keyblk m.lnkblk).0
          (make_room e.key (suc n) m.keyblk m.lnkblk).2
unfolding put_key
links_of_put e link1 link2 n m h = ground (arith, h)

null_links :
    (p : ℕ) (ls : ℕ → ℤ) (j : ℕ)
    → j ≢ 0
    → put_links znull znull p ls j ≡ (if (j == p) || (j == suc p) then znull else ls j)
unfolding put_links
null_links p ls j h = ground arith

first_link : (p : ℕ) (ls : ℕ → ℤ) → ls 0 ≡ znull → put_links znull znull p ls 0 ≡ znull
unfolding put_links
first_link p ls h = ground arith

leaf_link :
    (key : Key) (n : ℕ) (ks : ℕ → KeyEnt) (ls : ℕ → ℤ) (out : ℕ × (ℕ → KeyEnt) × (ℕ → ℤ))
    → Room key n ks ls out
    → ((j : ℕ) → j ≤ n → ls j ≡ znull)
    → (j : ℕ) → j ≤ suc n
    → put_links znull znull out.0 out.2 j ≡ znull
leaf_link key n ks ls out r leaf zero le = first_link out.0 out.2 (r.first ∙ leaf 0 (omega arith))
leaf_link key n ks ls out r leaf (suc zero) le =
    null_links out.0 out.2 1 (omega arith) ∙ ground (arith, r.inside, r.links.low 0, leaf 1)
leaf_link key n ks ls out r leaf (suc (suc j)) le =
    null_links out.0 out.2 (suc (suc j)) (omega arith)
    ∙ ground (arith, r.inside, r.links.low (suc j), r.links.up j, leaf (suc (suc j)), leaf (suc j))

-- If the `n + 1` links of a block with `n` keys are null, then after `put_key` with two null links
-- its `n + 2` links are null.
pub put_key-leaf :
    (e : KeyEnt) (n : ℕ) (m : MemRec)
    → ((j : ℕ) → j ≤ n → m.lnkblk j ≡ znull)
    → (j : ℕ) → j ≤ suc n
    → (put_key e znull znull n m).lnkblk j ≡ znull
put_key-leaf e zero m leaf j le = leaf_first e m j le
put_key-leaf e (suc n) m leaf j le =
    ap (λ (f : ℕ → ℤ). f j) (links_of_put e znull znull n m refl)
    ∙ leaf_link e.key (suc n) m.keyblk m.lnkblk _ (make_room-Room e.key (suc n) m.keyblk m.lnkblk)
        leaf j le

child_links :
    (link1 : ℤ) (l p : ℕ) (ls : ℕ → ℤ) (j : ℕ)
    → put_links link1 (pos l) p ls j
      ≡ (if j == suc p then pos l else if (p == 0) && (j == 0) then link1 else ls j)
unfolding put_links
child_links (pos k) l p ls j = ground arith
child_links (negsuc k) l p ls j = ground arith

-- the first element is moved only if the free position is the first
links_low :
    (key : Key) (n : ℕ) (ks : ℕ → KeyEnt) (ls : ℕ → ℤ) (out : ℕ × (ℕ → KeyEnt) × (ℕ → ℤ))
    → Room key n ks ls out
    → (j : ℕ) → j ≤ out.0
    → out.2 j ≡ ls j
links_low key n ks ls out r zero le = r.first
links_low key n ks ls out r (suc j) le = r.links.low j (omega arith)

module _ (e : KeyEnt) (link1 : ℤ) (l n : ℕ) (m : MemRec) (ne : (link1 ==ℤ znull) ≡ false)
    (count : m.infblk znkeys ≡ pos (suc n)) where
  child-InPlace : InPlace link1 (pos l)
  child-InPlace = ground (arith, ne)

  abbrev child_room :
      Room e.key (suc n) m.keyblk m.lnkblk (make_room e.key (suc n) m.keyblk m.lnkblk)
  child_room = room e link1 (pos l) (suc n) m child-InPlace count

  abbrev child_place : ℕ
  child_place = (make_room e.key (suc n) m.keyblk m.lnkblk).0

  child_link :
      (j : ℕ)
      → (put_key e link1 (pos l) (suc n) m).lnkblk j ≡ (
          if j == suc child_place
          then pos l
          else if (child_place == 0) && (j == 0)
          then link1
          else (make_room e.key (suc n) m.keyblk m.lnkblk).2 j)
  child_link j =
      ap (λ (f : ℕ → ℤ). f j) (links_of_put e link1 (pos l) n m child-InPlace)
      ∙ child_links link1 l child_place _ j

  -- Given a block that counts `n + 1` keys and a left link that is not null, a key with a right
  -- link goes to some place among the keys with that link behind it: the links further left stay,
  -- the one just before the key becomes the left link if the key is the first and stays otherwise,
  -- and the links further right move up with their keys.
  pub put_key-child :
      (p : ℕ) × Inserted e (suc n) p m (put_key e link1 (pos l) (suc n) m)
      × ((put_key e link1 (pos l) (suc n) m).lnkblk (suc p) ≡ pos l)
      × ((put_key e link1 (pos l) (suc n) m).lnkblk p ≡ (if p == 0 then link1 else m.lnkblk p))
      × ((j : ℕ) → j < p → (put_key e link1 (pos l) (suc n) m).lnkblk j ≡ m.lnkblk j)
      × ((j : ℕ)
          → p ≤ j
          → j < suc n
          → (put_key e link1 (pos l) (suc n) m).lnkblk (suc (suc j)) ≡ m.lnkblk (suc j))
  put_key-child = (
    child_place,
    put_key-Inserted e link1 (pos l) (suc n) m child-InPlace count,
    child_link (suc child_place) ∙ ground arith,
    child_link child_place
        ∙ ground (arith, links_low e.key (suc n) m.keyblk m.lnkblk _ child_room child_place),
    λ j q. child_link j ∙ ground (arith, links_low e.key (suc n) m.keyblk m.lnkblk _ child_room j),
    λ j q w. child_link (suc (suc j)) ∙ ground (arith, child_room.links.up j q w),
  )
