-- ===== src/Block/Search.antt =====
-- The binary search of src-lib/bsrhbk.c over the keys of a block in strcmp order.
use Prim.Native.Nat.{Ordering}
use btlib.Prelude.{
  ℕ, zero, suc, ◌+◌, ◌-◌, ◌/◌, ◌≤◌, ◌<◌, ◌≡◌, ◌≢◌, ◌⊎◌, inl, inr, refl, sym, Bool, true, false, not,
  ◌&&◌, Option, some, ℤ, pos, negsuc, ltb, ◌==◌, arith, Bool-cases,
}
use btlib.Prelude.Keys.{Key, strcmp, strcmp_refl, ◌≺◌, ≺_trans, eq_of_strcmp, strcmp-gt}
use btlib.Machine.{KeyEnt}
use btlib.Block.{bin_search}

pub Ordering-cases : (o : Ordering) → (o ≡ Ordering.lt) ⊎ ((o ≡ Ordering.eq) ⊎ (o ≡ Ordering.gt))
Ordering-cases Ordering.lt = inl refl
Ordering-cases Ordering.eq = inr (inl refl)
Ordering-cases Ordering.gt = inr (inr refl)

-- The first `n` keys stand in strcmp order, without repetition.
abbrev pub IsOrdered : (ℕ → KeyEnt) → ℕ → Type 0
IsOrdered a n = (i j : ℕ) → i < j → j < n → (a i).key ≺ (a j).key

-- What the location and the result of a search tell of the key: at `eq` it stands there, at `lt` it
-- belongs just before the location and at `gt` just behind it. In an empty block they are -1 and `lt`.
abbrev pub Located : (ℕ → KeyEnt) → ℕ → Key → ℤ → Ordering → Type 0
Located a n key (negsuc _) result = (n ≡ 0) × (result ≡ Ordering.lt)
Located a n key (pos m) Ordering.eq = (m < n) × ((a m).key ≡ key)
Located a n key (pos m) Ordering.lt =
    (m < n) × (key ≺ (a m).key) × ((i : ℕ) → i < m → (a i).key ≺ key)
Located a n key (pos m) Ordering.gt =
    (m < n) × ((a m).key ≺ key) × ((i : ℕ) → m < i → i < n → key ≺ (a i).key)

-- All keys below `lo` are smaller, and all from `hi` on are larger.
pub record Bracket (a : ℕ → KeyEnt) (n : ℕ) (key : Key) (lo hi : ℕ) : Type 0 where
  pub inside : hi ≤ n
  pub ends : lo ≤ hi
  pub below : (i : ℕ) → i < lo → (a i).key ≺ key
  pub above : (i : ℕ) → hi ≤ i → i < n → key ≺ (a i).key

module _ (a : ℕ → KeyEnt) (n : ℕ) (key : Key) (ordered : IsOrdered a n) where
  below_step :
      (m lo hi : ℕ) → Bracket a n key lo hi → m < hi → (a m).key ≺ key → Bracket a n key (suc m) hi
  below_step m lo hi b lt h = record {
    inside = b.inside;
    ends = lt;
    below = λ i p. elim (Bool-cases (i == m)) [
      | inl e ↦ ground (arith, e, h)
      | inr e ↦
          ≺_trans (a i).key (a m).key key (ordered i m (ground arith) (omega (arith, b.inside))) h
    ];
    above = b.above;
  }

  above_step :
      (m lo hi : ℕ)
      → Bracket a n key lo hi
      → lo ≤ m
      → m < hi
      → key ≺ (a m).key
      → Bracket a n key lo m
  above_step m lo hi b ge lt h = record {
    inside = omega (arith, b.inside);
    ends = ge;
    below = b.below;
    above = λ i p q. elim (Bool-cases (i == m)) [
      | inl e ↦ ground (arith, e, h)
      | inr e ↦ ≺_trans key (a m).key (a i).key h (ordered m i (ground arith) q)
    ];
  }

  -- the position that a round probes
  abbrev middle : ℕ → ℕ → ℕ
  middle lo hi = (lo + hi - 1) / 2

  stop_step :
      (k lo hi : ℕ) (quit : Bool) (md : ℤ) (result : Ordering)
      → (ltb lo hi && not quit) ≡ false
      → bin_search (suc k) a key lo hi quit md result ≡ some (md, result)
  unfolding bin_search
  stop_step k lo hi quit md result h = ground (arith, h)

  module _ (k lo hi : ℕ) (quit : Bool) (md : ℤ) (result : Ordering)
      (going : (ltb lo hi && not quit) ≡ true) where
    gt_step :
        strcmp key (a (middle lo hi)).key ≡ Ordering.gt
        → bin_search (suc k) a key lo hi quit md result
          ≡ bin_search k a key
              (suc (middle lo hi))
              hi
              (suc lo == hi)
              (pos (middle lo hi))
              Ordering.gt
    unfolding bin_search
    gt_step h = ground (arith, going, h)

    lt_step :
        strcmp key (a (middle lo hi)).key ≡ Ordering.lt
        → bin_search (suc k) a key lo hi quit md result
          ≡ bin_search k a key lo (middle lo hi) (suc lo == hi) (pos (middle lo hi)) Ordering.lt
    unfolding bin_search
    lt_step h = ground (arith, going, h)

    eq_step :
        strcmp key (a (middle lo hi)).key ≡ Ordering.eq
        → bin_search (suc k) a key lo hi quit md result ≡ some (pos (middle lo hi), Ordering.eq)
    unfolding bin_search
    eq_step h = ground (arith, going, h)

  -- what a run of the search returns
  abbrev Answer : Option (ℤ × Ordering) → Type 0
  Answer o = (loc : ℤ) × (r : Ordering) × (o ≡ some (loc, r)) × Located a n key loc r

  -- the search ends with a location, once it has probed one at its end
  pub bin_search-Located :
      (k lo hi : ℕ) (quit : Bool) (md : ℤ) (result : Ordering)
      → Bracket a n key lo hi
      → hi < lo + k
      → ((ltb lo hi && not quit) ≡ false → Located a n key md result)
      → Answer (bin_search k a key lo hi quit md result)
  bin_search-Located zero lo hi quit md result b f done = absurd (omega (arith, b.ends))
  bin_search-Located (suc k) lo hi quit md result b f done =
      elim (Bool-cases (ltb lo hi && not quit)) [
        | inl going ↦ elim (Ordering-cases (strcmp key (a (middle lo hi)).key)) [
          | inl h ↦ rw (lt_step k lo hi quit md result going h) (
              bin_search-Located k lo (middle lo hi) (suc lo == hi) (pos (middle lo hi)) Ordering.lt
                (above_step (middle lo hi) lo hi b (ground (arith, going)) (ground (arith, going))
                  h)
                (ground (arith, going))
                λ over. (
                  ground (arith, going, b.inside),
                  h,
                  λ i p. b.below i (ground (arith, going, over)),
                ))
          | inr (inl h) ↦ rw (eq_step k lo hi quit md result going h) (
            pos (middle lo hi),
            Ordering.eq,
            refl,
            (ground (arith, going, b.inside), sym (eq_of_strcmp key (a (middle lo hi)).key h)),
          )
          | inr (inr h) ↦
              let smaller : (a (middle lo hi)).key ≺ key = strcmp-gt key (a (middle lo hi)).key h in
              rw (gt_step k lo hi quit md result going h) (
                bin_search-Located k (suc (middle lo hi)) hi (suc lo == hi) (pos (middle lo hi))
                  Ordering.gt (below_step (middle lo hi) lo hi b (ground (arith, going)) smaller)
                  (ground (arith, going))
                  λ over. (
                    ground (arith, going, b.inside),
                    smaller,
                    λ i p q. b.above i (ground (arith, going, over)) q,
                  ))
        ]
        | inr stop ↦ rw (stop_step k lo hi quit md result stop) (md, result, refl, done stop)
      ]

-- In a block with `n` keys in strcmp order the search of `bsrhbk` ends within `n + 1` rounds. It
-- returns the location of the key and `eq` if the key stands there; else a location next to the
-- key's place, with `lt` if the key belongs just before it and `gt` if just behind it.
pub bin_search-block :
    (a : ℕ → KeyEnt) (n k : ℕ) (key : Key)
    → IsOrdered a n
    → n < k
    → (loc : ℤ) × (r : Ordering) × (bin_search k a key 0 n false (negsuc 0) Ordering.lt
        ≡ some (loc, r))
      × Located a n key loc r
bin_search-block a n k key ordered f =
    bin_search-Located a n key ordered k 0 n false (negsuc 0) Ordering.lt
      (record {
        inside = omega arith;
        ends = omega arith;
        below = λ i p. absurd (omega arith);
        above = λ i p q. absurd (omega arith);
      })
      (omega arith) λ stop. (ground (arith, stop), refl)

pub irreflexive : (a : Key) → a ≺ a → ⊥
irreflexive a h = ground (arith, strcmp_refl a)

pub opposed : (a b : Key) → a ≺ b → b ≺ a → ⊥
opposed a b p q = irreflexive a (≺_trans a b a p q)

not_below_self : (a b : Key) → a ≺ b → a ≢ b
not_below_self a b h e = ground (arith, strcmp_refl a)

-- two keys of the block are in the order of their positions
pub same_place :
    (a : ℕ → KeyEnt) (n i j : ℕ) → IsOrdered a n → i < n → j < n → (a i).key ≡ (a j).key → i ≡ j
same_place a n i j ordered p q e = elim (Bool-cases (ltb i j)) [
  | inl f ↦ absurd (not_below_self (a i).key (a j).key (ordered i j (ground arith) q) e)
  | inr f ↦ elim (Bool-cases (ltb j i)) [
    | inl g ↦ absurd (not_below_self (a j).key (a i).key (ordered j i (ground arith) p) (sym e))
    | inr g ↦ ground (arith, f, g)
  ]
]
