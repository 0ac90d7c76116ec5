-- ===== src/Tests/Wider.antt =====
-- The split of a block below a root, at a small index: block 8 has the key "m" between the full block
-- 2 and the empty leaf 7.
use btlib.Prelude.{
  ℕ, zero, suc, ◌+◌, ◌<◌, ◌≤◌, ◌≡◌, ◌≢◌, inl, inr, refl, sym, subst, ◌∙◌, some, false, ℤ, pos, ◌==◌,
  if◌then◌else◌, [], ◌∷◌, first_from, arith,
}
use btlib.Prelude.Keys.{Key, ◌≺◌, strcmp}
use btlib.Consts.{zmxkey, znkeys}
use btlib.Machine.{State, MemRec}
use btlib.Machine.Returns.{Returns}
use btlib.Cache.View.{view, IsCache}
use btlib.Index.Split.{bsptbk}
use btlib.Index.Split.Child.{HasThree}
use btlib.Index.Split.Wider.{IsWider, bsptbk-IsWider}
use btlib.Index.Find.Tree.{Has, IsTree}
use btlib.Index.Find.Gap.{same_block, Has-HasKey}
use btlib.Index.Insert.Apart.{In, IsApart}
use btlib.Examples.{leaf, single, index, index-IsQueue}
use btlib.Tests.Split.{full_child, spare, under, full-IsOrdered}

abbrev empty : MemRec
empty = record leaf { infblk = λ i. if i == znkeys then pos 0 else leaf.infblk i }

abbrev children : ℕ → ℤ
children zero = pos 2
children (suc i) = pos 7

abbrev above : MemRec
above = record single { lnkblk = children }

abbrev tall : State
tall = record under {
  lf = record index.lf { lfblk = pos 8 };
  file = λ n. if n == 8 then some above else if n == 7 then some empty else under.file n;
}

tall-IsCache : IsCache tall
tall-IsCache = record {
  order = 1 ∷ (0 ∷ (2 ∷ []));
  queue = record {
    chain = (refl, (refl, (refl, refl)));
    tail = refl;
    distinct = index-IsQueue.distinct;
    size = refl;
    full = index-IsQueue.full;
  };
  unique = λ i j n p q e f. ground arith;
  clean = λ i n p e w. ground arith;
  idle = λ i p e. refl;
  free = 0;
  free_in = omega arith;
  free_idle = refl;
  room = λ n. refl;
}

tall-HasThree : HasThree tall
tall-HasThree = record {
  two = record {
    one = 0;
    other = 2;
    one_in = omega arith;
    other_in = omega arith;
    distinct = λ e. omega (arith, e);
    one_idle = refl;
    other_idle = refl;
  };
  third = 1;
  third_in = omega arith;
  not_one = λ e. omega (arith, e);
  not_other = λ e. omega (arith, e);
  third_idle = refl;
}

stores_above : view tall 8 ≡ some above
unfolding view first_from
stores_above = refl

stores_full : view tall 2 ≡ some full_child
unfolding view first_from
stores_full = refl

stores_empty : view tall 7 ≡ some empty
unfolding view first_from
stores_empty = refl

stores_spare : view tall 3 ≡ some (spare 4)
unfolding view first_from
stores_spare = refl

full_tree : IsTree (view tall) false 1 (pos 2)
full_tree = (
  2,
  zmxkey,
  full_child,
  refl,
  stores_full,
  record {
    node = record { count = refl; fits = omega arith; ordered = full-IsOrdered };
    single = λ i lt. refl;
    room = refl;
    empty_leaf = λ e. refl;
    children = λ i lt le. refl;
    after = λ i j key x le has lt. absurd has;
    before = λ i j key x le has lt p. absurd has;
  },
)

empty_tree : IsTree (view tall) false 1 (pos 7)
empty_tree = (
  7,
  0,
  empty,
  refl,
  stores_empty,
  record {
    node = record { count = refl; fits = omega arith; ordered = λ i j lt le. absurd (omega arith) };
    single = λ i lt. absurd (omega arith);
    room = refl;
    empty_leaf = λ e. refl;
    children = λ i lt le. absurd (omega arith);
    after = λ i j key x le has lt. absurd has;
    before = λ i j key x le has lt p. absurd has;
  },
)

-- the keys of the full block are smaller than "m"
letter_before : (i : ℕ) → i < zmxkey → ((i + 65) ∷ []) ≺ (b'm' ∷ [])
unfolding strcmp
letter_before i lt = ground arith

full_before : (key : Key) (x : ℤ) → Has (view tall) 1 (pos 2) key x → key ≺ (b'm' ∷ [])
full_before key x has =
    elim (Has-HasKey (view tall) 0 2 zmxkey full_child key x stores_full refl has) [
      | inl (i, lt, e, _) ↦ subst (λ k. k ≺ (b'm' ∷ [])) e (letter_before i lt)
      | inr (i, le, below) ↦ absurd below
    ]

nothing_in_empty : (key : Key) (x : ℤ) → Has (view tall) 1 (pos 7) key x → ⊥
nothing_in_empty key x has = elim (Has-HasKey (view tall) 0 7 0 empty key x stores_empty refl has) [
  | inl (i, lt, e, _) ↦ omega arith
  | inr (i, le, below) ↦ below
]

child_tree : (i : ℕ) → IsTree (view tall) false 1 (above.lnkblk i)
child_tree zero = full_tree
child_tree (suc i) = empty_tree

keys_after :
    (i j : ℕ) (key : Key) (x : ℤ)
    → Has (view tall) 1 (above.lnkblk i) key x
    → j < i
    → (above.keyblk j).key ≺ key
keys_after zero j key x has lt = absurd (omega arith)
keys_after (suc i) j key x has lt = absurd (nothing_in_empty key x has)

keys_before :
    (i j : ℕ) (key : Key) (x : ℤ)
    → Has (view tall) 1 (above.lnkblk i) key x
    → i ≤ j
    → j < 1
    → key ≺ (above.keyblk j).key
keys_before zero j key x has le lt = full_before key x has
keys_before (suc i) j key x has le lt = absurd (omega arith)

tall-IsTree : IsTree (view tall) false 2 (pos 8)
tall-IsTree = (
  8,
  1,
  above,
  refl,
  stores_above,
  record {
    node = record { count = refl; fits = omega arith; ordered = λ i j lt le. absurd (omega arith) };
    single = λ i lt. refl;
    room = refl;
    empty_leaf = λ e. absurd (omega (arith, e));
    children = λ i lt le. child_tree i;
    after = λ i j key x le has lt. keys_after i j key x has lt;
    before = λ i j key x le has lt p. keys_before i j key x has lt p;
  },
)

-- the only block below each link
abbrev number : ℕ → ℕ
number zero = 2
number (suc i) = 7

only_block : (i b : ℕ) → In (view tall) 1 (above.lnkblk i) b → b ≡ number i
only_block zero b (c, n, m, e, at, count, inl f) = ground (arith, e, f)
only_block zero b (c, n, m, e, at, count, inr (k, le, p)) = absurd p
only_block (suc i) b (c, n, m, e, at, count, inl f) = ground (arith, e, f)
only_block (suc i) b (c, n, m, e, at, count, inr (k, le, p)) = absurd p

child-IsApart : (i : ℕ) → IsApart (view tall) 1 (above.lnkblk i)
child-IsApart zero = (
  2,
  zmxkey,
  full_child,
  refl,
  stores_full,
  refl,
  record {
    children = λ i le. tt;
    outside = λ i b le p. absurd p;
    disjoint = λ i j b le le' p q. absurd p;
  },
)
child-IsApart (suc i) = (
  7,
  0,
  empty,
  refl,
  stores_empty,
  refl,
  record {
    children = λ i le. tt;
    outside = λ i b le p. absurd p;
    disjoint = λ i j b le le' p q. absurd p;
  },
)

not_top : (i : ℕ) → number i ≡ 8 → ⊥
not_top zero e = omega (arith, e)
not_top (suc i) e = omega (arith, e)

one_place : (i j : ℕ) → i ≤ 1 → j ≤ 1 → number i ≡ number j → i ≡ j
one_place zero zero le le' e = refl
one_place zero (suc j) le le' e = absurd (omega (arith, e))
one_place (suc i) zero le le' e = absurd (omega (arith, e))
one_place (suc i) (suc j) le le' e = omega arith

tall-IsApart : IsApart (view tall) 2 (pos 8)
tall-IsApart = (
  8,
  1,
  above,
  refl,
  stores_above,
  refl,
  record {
    children = λ i le. child-IsApart i;
    outside = λ i b le p e. not_top i (sym (only_block i b p) ∙ e);
    disjoint = λ i j b le le' p q. one_place i j le le' (sym (only_block i b p) ∙ only_block j b q);
  },
)

not_spare : (i : ℕ) → 3 ≢ number i
not_spare zero e = omega (arith, e)
not_spare (suc i) e = omega (arith, e)

spare_outside : ¬ (In (view tall) 2 (pos 8) 3)
spare_outside (c, n, m, e, at, count, inl f) = ground (arith, e, f)
spare_outside (c, n, m, e, at, count, inr (i, le, p)) =
    let (_, _, em) =
      same_block (view tall) (pos 8) 8 c 1 n above m refl e stores_above at refl count in
    not_spare i
      (only_block i 3 (subst (λ (y : MemRec). In (view tall) 1 (y.lnkblk i) 3) (sym em) p))

bsptbk-IsWider_example : Returns (λ r u. (r ≡ pos 3) × IsWider tall u 2 8) (bsptbk (pos 2) tall)
bsptbk-IsWider_example =
    bsptbk-IsWider false 0 8 2 3 1 0 above full_child (spare 4) tall tall-IsTree tall-IsApart
      stores_above refl (omega arith) (omega arith) refl stores_full refl spare_outside (pos 2)
      tall-IsCache tall-HasThree refl refl refl refl refl stores_spare refl
