-- ===== src/Block/Put.antt =====
-- src-lib/bputky.c: a key is put into its place among the keys of a block.
use Prim.Native.Nat.{Ordering}
use btlib.Prelude.{ℕ, zero, suc, ◌≤◌, ◌<◌, ◌≡◌, ◌≢◌, ◌⊎◌, inl, inr, refl, sym, subst, ℤ, set, arith}
use btlib.Prelude.Keys.{Key, strcmp}
use btlib.Machine.{KeyEnt}
use btlib.Block.{make_room}
use btlib.Block.Search.{Ordering-cases}

-- In `b` the first `i` elements of `a` from `p` on are one place further up.
pub record Raised {ℓ} {A : Type ℓ} (a b : ℕ → A) (p i : ℕ) : Type ℓ where
  pub low : (j : ℕ) → j ≤ p → b j ≡ a j
  pub up : (j : ℕ) → p ≤ j → j < i → b (suc j) ≡ a j
  pub high : (j : ℕ) → i < j → b j ≡ a j

-- The loop of `bputky` from `i` down stops at `p`.
pub record Room (key : Key) (i : ℕ) (ks : ℕ → KeyEnt) (ls : ℕ → ℤ)
    (out : ℕ × (ℕ → KeyEnt) × (ℕ → ℤ)) : Type 0 where
  pub inside : out.0 ≤ i
  pub keys : Raised ks out.1 out.0 i
  pub links : Raised (λ j. ls (suc j)) (λ j. out.2 (suc j)) out.0 i
  pub first : out.2 0 ≡ ls 0
  pub stop : (out.0 ≡ 0) ⊎ ((p : ℕ) × (out.0 ≡ suc p) × (strcmp key (ks p).key ≡ Ordering.gt))
  pub moved : (j : ℕ) → out.0 ≤ j → j < i → strcmp key (ks j).key ≢ Ordering.gt

-- one more element than before was moved first
Raised-more :
    {A : Type 0} (a b : ℕ → A) (p i : ℕ)
    → p ≤ i
    → Raised (set a (suc i) (a i)) b p i
    → Raised a b p (suc i)
Raised-more a b p i le r = record {
  low = λ j q. ground (arith, r.low j q);
  up = λ j q w. ground (arith, le, r.up j q, r.high (suc j));
  high = λ j q. ground (arith, r.high j);
}

module _ (key : Key) (i : ℕ) (ks : ℕ → KeyEnt) (ls : ℕ → ℤ) where
  room_stop : strcmp key (ks i).key ≡ Ordering.gt → Room key (suc i) ks ls (suc i, ks, ls)
  room_stop h = record {
    inside = omega arith;
    keys = record { low = λ j p. refl; up = λ j p q. absurd (omega arith); high = λ j p. refl };
    links = record { low = λ j p. refl; up = λ j p q. absurd (omega arith); high = λ j p. refl };
    first = refl;
    stop = inr (i, refl, h);
    moved = λ j p q. absurd (omega arith);
  }

  room_more :
      (out : ℕ × (ℕ → KeyEnt) × (ℕ → ℤ))
      → Room key i (set ks (suc i) (ks i)) (set ls (suc (suc i)) (ls (suc i))) out
      → strcmp key (ks i).key ≢ Ordering.gt
      → Room key (suc i) ks ls out
  room_more out r h = record {
    inside = omega (arith, r.inside);
    keys = Raised-more ks out.1 out.0 i r.inside r.keys;
    links = record {
      low = λ j q. ground (arith, r.links.low j q);
      up = λ j q w. ground (arith, r.inside, r.links.up j q, r.links.high (suc j));
      high = λ j q. ground (arith, r.links.high j);
    };
    first = ground (arith, r.first);
    stop = elim r.stop [
      | inl e ↦ inl e
      | inr (p, e, g) ↦ inr (p, e, ground (arith, r.inside, e, g))
    ];
    moved = λ j p q. ground (arith, h, r.moved j p);
  }

make_room-stop :
    (key : Key) (i : ℕ) (ks : ℕ → KeyEnt) (ls : ℕ → ℤ)
    → strcmp key (ks i).key ≡ Ordering.gt
    → make_room key (suc i) ks ls ≡ (suc i, ks, ls)
unfolding make_room
make_room-stop key i ks ls h = ground (arith, h)

make_room-more :
    (key : Key) (i : ℕ) (ks : ℕ → KeyEnt) (ls : ℕ → ℤ)
    → strcmp key (ks i).key ≢ Ordering.gt
    → make_room key (suc i) ks ls
      ≡ make_room key i (set ks (suc i) (ks i)) (set ls (suc (suc i)) (ls (suc i)))
unfolding make_room
make_room-more key i ks ls h = ground (arith, h)

room_step :
    (key : Key) (i : ℕ) (ks : ℕ → KeyEnt) (ls : ℕ → ℤ)
    → Room key i
        (set ks (suc i) (ks i))
        (set ls (suc (suc i)) (ls (suc i)))
        (make_room key i (set ks (suc i) (ks i)) (set ls (suc (suc i)) (ls (suc i))))
    → strcmp key (ks i).key ≢ Ordering.gt
    → Room key (suc i) ks ls (make_room key (suc i) ks ls)
room_step key i ks ls r h =
    subst (Room key (suc i) ks ls) (sym (make_room-more key i ks ls h))
      (room_more key i ks ls _ r h)

pub make_room-Room :
    (key : Key) (i : ℕ) (ks : ℕ → KeyEnt) (ls : ℕ → ℤ) → Room key i ks ls (make_room key i ks ls)
unfolding make_room
make_room-Room key zero ks ls = record {
  inside = omega arith;
  keys = record { low = λ j p. refl; up = λ j p q. absurd (omega arith); high = λ j p. refl };
  links = record { low = λ j p. refl; up = λ j p q. absurd (omega arith); high = λ j p. refl };
  first = refl;
  stop = inl refl;
  moved = λ j p q. absurd (omega arith);
}
make_room-Room key (suc i) ks ls = elim (Ordering-cases (strcmp key (ks i).key)) [
  | inl h ↦ room_step key i ks ls (make_room-Room key i _ _) (λ e. cc (h, e))
  | inr (inl h) ↦ room_step key i ks ls (make_room-Room key i _ _) (λ e. cc (h, e))
  | inr (inr h) ↦
      subst (Room key (suc i) ks ls) (sym (make_room-stop key i ks ls h)) (room_stop key i ks ls h)
]
