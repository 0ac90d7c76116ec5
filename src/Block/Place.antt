-- ===== src/Block/Place.antt =====
-- src-lib/bputky.c: the keys stay in order.
use Prim.Native.Nat.{Ordering}
use btlib.Prelude.{
  ℕ, zero, suc, ◌≤◌, ◌<◌, ◌≡◌, ◌≢◌, ◌⊎◌, inl, inr, refl, sym, ap, subst, ◌∙◌, false, not, ◌&&◌, ℤ,
  pos, inc, set, ltb, ◌==◌, ==_iff, ◌==ℤ◌, arith, Bool-cases,
}
use btlib.Prelude.Keys.{Key, strcmp, ◌≺◌, ≺_trans, eq_of_strcmp, strcmp-gt}
use btlib.Consts.{znkeys, znull}
use btlib.Machine.{KeyEnt, MemRec}
use btlib.Block.{make_room, put_key}
use btlib.Block.Search.{IsOrdered, Ordering-cases}
use btlib.Block.Put.{Room, make_room-Room}

-- The key goes to a place of its own: not at the end whatever its order.
abbrev pub InPlace : (link1 link2 : ℤ) → Type 0
InPlace link1 link2 = ((link1 ==ℤ znull) && not (link2 ==ℤ znull)) ≡ false

-- `e` stands at `p`, the `n` keys that were there keep their order around it.
pub record Inserted (e : KeyEnt) (n p : ℕ) (m m' : MemRec) : Type 0 where
  pub inside : p ≤ n
  pub below : (j : ℕ) → j < p → m'.keyblk j ≡ m.keyblk j
  pub here : m'.keyblk p ≡ e
  pub above : (j : ℕ) → p ≤ j → j < n → m'.keyblk (suc j) ≡ m.keyblk j
  pub count : m'.infblk znkeys ≡ pos (suc n)

-- The `n` keys of `a` and, at its place `p`, a key that is not one of them.
record IsPlace (a : ℕ → KeyEnt) (n p : ℕ) (key : Key) : Type 0 where
  smaller : (j : ℕ) → j < p → j < n → (a j).key ≺ key
  larger : (j : ℕ) → p ≤ j → j < n → key ≺ (a j).key

abbrev pub IsAbsent : Key → (ℕ → KeyEnt) → ℕ → Type 0
IsAbsent key a n = (j : ℕ) → j < n → (a j).key ≢ key

keys_of_put_at :
    (e : KeyEnt) (link1 link2 : ℤ) (n : ℕ) (m : MemRec)
    → InPlace link1 link2
    → (put_key e link1 link2 n m).keyblk
      ≡ set (make_room e.key n m.keyblk m.lnkblk).1 (make_room e.key n m.keyblk m.lnkblk).0 e
unfolding put_key
keys_of_put_at e link1 link2 zero m h = refl
keys_of_put_at e link1 link2 (suc n) m h = ground (arith, h)

count_of_put :
    (e : KeyEnt) (link1 link2 : ℤ) (n : ℕ) (m : MemRec)
    → m.infblk znkeys ≡ pos n
    → (put_key e link1 link2 n m).infblk znkeys ≡ pos (suc n)
unfolding put_key
count_of_put e link1 link2 n m h = ap inc h

-- the keys below the free position are smaller, since the last of them is
smaller_below :
    (a : ℕ → KeyEnt) (n p : ℕ) (key : Key)
    → IsOrdered a n
    → (p ≡ 0) ⊎ ((q : ℕ) × (p ≡ suc q) × (strcmp key (a q).key ≡ Ordering.gt))
    → p ≤ n
    → (j : ℕ) → j < p
    → (a j).key ≺ key
smaller_below a n p key ordered (inl e) le j lt = absurd (omega arith)
smaller_below a n p key ordered (inr (q, e, h)) le j lt = elim (Bool-cases (j == q)) [
  | inl f ↦ ground (arith, f, strcmp-gt key (a q).key h)
  | inr f ↦
      ≺_trans (a j).key (a q).key key (ordered j q (ground (arith, f, e)) (omega arith))
        (strcmp-gt key (a q).key h)
]

module _ (e : KeyEnt) (link1 link2 : ℤ) (n : ℕ) (m : MemRec) (in_place : InPlace link1 link2)
    (count : m.infblk znkeys ≡ pos n) where
  pub room : Room e.key n m.keyblk m.lnkblk (make_room e.key n m.keyblk m.lnkblk)
  room = make_room-Room e.key n m.keyblk m.lnkblk

  abbrev place : ℕ
  place = (make_room e.key n m.keyblk m.lnkblk).0

  keys_of_put :
      (put_key e link1 link2 n m).keyblk ≡ set (make_room e.key n m.keyblk m.lnkblk).1 place e
  keys_of_put = keys_of_put_at e link1 link2 n m in_place

  pub put_key-Inserted : Inserted e n place m (put_key e link1 link2 n m)
  put_key-Inserted = record {
    inside = room.inside;
    below = λ j p. ap (λ (f : ℕ → KeyEnt). f j) keys_of_put ∙ ground (arith, room.keys.low j);
    here = ap (λ (f : ℕ → KeyEnt). f place) keys_of_put ∙ ground arith;
    above = λ j p q.
        ap (λ (f : ℕ → KeyEnt). f (suc j)) keys_of_put ∙ ground (arith, room.keys.up j p q);
    count = count_of_put e link1 link2 n m count;
  }

  place-IsPlace : IsOrdered m.keyblk n → IsAbsent e.key m.keyblk n → IsPlace m.keyblk n place e.key
  place-IsPlace ordered absent = record {
    smaller = λ j p q. smaller_below m.keyblk n place e.key ordered room.stop room.inside j p;
    larger = λ j p q. elim (Ordering-cases (strcmp e.key (m.keyblk j).key)) [
      | inl h ↦ h
      | inr (inl h) ↦ absurd (absent j q (sym (eq_of_strcmp e.key (m.keyblk j).key h)))
      | inr (inr h) ↦ absurd (room.moved j p q h)
    ];
  }

module _ (e : KeyEnt) (n p : ℕ) (m m' : MemRec) (ins : Inserted e n p m m')
    (ordered : IsOrdered m.keyblk n) (pl : IsPlace m.keyblk n p e.key) where
  below_pair : (i j : ℕ) → i < j → j < p → (m'.keyblk i).key ≺ (m'.keyblk j).key
  below_pair i j lt q = ground (arith, ins.inside, ins.below i, ins.below j, ordered i j lt)

  meets : (i : ℕ) → i < p → (m'.keyblk i).key ≺ (m'.keyblk p).key
  meets i q = ground (arith, ins.inside, ins.below i, ins.here, pl.smaller i q)

  above_pair : (i j : ℕ) → i < suc j → p ≤ j → j < n → (m'.keyblk i).key ≺ (m'.keyblk (suc j)).key
  above_pair zero j lt q le = elim (Bool-cases (0 == p)) [
    | inl f ↦ ground (arith, f, ins.here, ins.above j, pl.larger j q le)
    | inr f ↦ ground (arith, f, ins.below 0, ins.above j, ordered 0 j)
  ]
  above_pair (suc i) j lt q le = elim (Bool-cases (suc i == p)) [
    | inl f ↦ ground (arith, f, ins.here, ins.above j, pl.larger j q le)
    | inr f ↦ elim (Bool-cases (ltb (suc i) p)) [
      | inl g ↦ ground (arith, g, ins.below (suc i), ins.above j, ordered (suc i) j)
      | inr g ↦ ground (arith, f, g, ins.above i, ins.above j, ordered i j)
    ]
  ]

  -- The new keys are in order.
  Inserted-IsOrdered : IsOrdered m'.keyblk (suc n)
  Inserted-IsOrdered i zero lt le = absurd (omega arith)
  Inserted-IsOrdered i (suc j) lt le = elim (Bool-cases (ltb (suc j) p)) [
    | inl f ↦ below_pair i (suc j) lt (ground (arith, f))
    | inr f ↦ elim (Bool-cases (suc j == p)) [
      | inl g ↦
          subst (λ k. (m'.keyblk i).key ≺ (m'.keyblk k).key) (sym ((==_iff (suc j) p).0 g))
            (meets i (ground (arith, g)))
      | inr g ↦ above_pair i j lt (ground (arith, f, g)) (omega arith)
    ]
  ]

-- Given a block whose `n` keys are in strcmp order and do not include the new key, and links with
-- which the key goes to its place, `put_key` puts the key at one position, keeps the other keys and
-- their order around it, counts one key more, and the keys are in order again.
pub put_key-IsOrdered :
    (e : KeyEnt) (link1 link2 : ℤ) (n : ℕ) (m : MemRec)
    → InPlace link1 link2
    → m.infblk znkeys ≡ pos n
    → IsOrdered m.keyblk n
    → IsAbsent e.key m.keyblk n
    → (p : ℕ) × Inserted e n p m (put_key e link1 link2 n m)
      × IsOrdered (put_key e link1 link2 n m).keyblk (suc n)
put_key-IsOrdered e link1 link2 n m h count ordered absent =
    let p : ℕ = place e link1 link2 n m h count in
    let ins = put_key-Inserted e link1 link2 n m h count in
    (
      p,
      ins,
      Inserted-IsOrdered e n p m (put_key e link1 link2 n m) ins ordered
          (place-IsPlace e link1 link2 n m h count ordered absent),
    )
