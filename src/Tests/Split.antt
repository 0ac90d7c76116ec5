-- ===== src/Tests/Split.antt =====
-- The split of a root, at a small index with a full root in block 2 and the free blocks 3 and 4.
use btlib.Prelude.{
  ℕ, ◌+◌, ◌*◌, ◌^◌, ◌≡◌, inl, inr, refl, none, some, false, [], ◌∷◌, pos, ◌==◌, if◌then◌else◌,
  first_from, arith,
}
use btlib.Prelude.Keys.{strcmp}
use btlib.Consts.{zmxkey, zvers, znkeys, znxblk}
use btlib.Machine.{State, MemRec}
use btlib.Machine.Returns.{Returns}
use btlib.Cache.View.{view, IsCache}
use btlib.Block.Search.{IsOrdered}
use btlib.Block.Transfer.{HasIdle}
use btlib.Index.Split.{bsptbk}
use btlib.Index.Split.Child.{HasThree, IsHalved, bsptbk-IsHalved}
use btlib.Index.Split.Tree.{IsTaller, bsptbk-IsTaller}
use btlib.Index.Find.Tree.{IsTree}
use btlib.Index.Insert.Apart.{In, IsApart}
use btlib.Examples.{entry, leaf, single, index, index-IsQueue}

-- a root with ZMXKEY keys, of one byte each
abbrev full : MemRec
full = record leaf {
  infblk =
      λ i. if i == 0 then pos (zvers * 2 ^ 16 + 1) else if i == znkeys then pos zmxkey else pos 0;
  keyblk = λ i. entry (i + 65) (pos i);
}

-- a free block, with the next one of the list
abbrev pub spare : ℕ → MemRec
spare next = record leaf {
  infblk =
      λ i. if i == 0 then pos (zvers * 2 ^ 16 + 3) else if i == znxblk then pos next else pos 0;
}

abbrev crowded : State
crowded = record index {
  super = record index.super { sfreep = pos 3; scroot = pos 2; snfree = pos 3 };
  file = λ n.
      if n == 6
      then some single
      else if n == 2
      then some full
      else if n == 3
      then some (spare 4)
      else if n == 4
      then some (spare 8)
      else none;
}

crowded-IsCache : IsCache crowded
crowded-IsCache = record {
  order = 1 ∷ (0 ∷ (2 ∷ []));
  queue = record {
    chain = index-IsQueue.chain;
    tail = refl;
    distinct = index-IsQueue.distinct;
    size = refl;
    full = index-IsQueue.full;
  };
  unique = λ i j n p q e f. ground arith;
  clean = λ i n p e w. ground arith;
  idle = λ i p e. ground arith;
  free = 0;
  free_in = omega arith;
  free_idle = refl;
  room = λ n. refl;
}

crowded-HasIdle : HasIdle crowded
crowded-HasIdle = record {
  one = 0;
  other = 2;
  one_in = omega arith;
  other_in = omega arith;
  distinct = λ e. omega (arith, e);
  one_idle = refl;
  other_idle = refl;
}

stores_full : view crowded 2 ≡ some full
unfolding view first_from
stores_full = refl

stores_spare : view crowded 3 ≡ some (spare 4)
unfolding view first_from
stores_spare = refl

stores_last : view crowded 4 ≡ some (spare 8)
unfolding view first_from
stores_last = refl

pub full-IsOrdered : IsOrdered full.keyblk zmxkey
unfolding strcmp
full-IsOrdered i j lt le = ground arith

full-IsTree : IsTree (view crowded) false 1 (pos 2)
full-IsTree = (
  2,
  zmxkey,
  full,
  refl,
  stores_full,
  record {
    node = record { count = refl; fits = omega arith; ordered = full-IsOrdered };
    single = λ i lt. refl;
    room = refl;
    empty_leaf = λ e. refl;
    children = λ i lt le. refl;
    after = λ i j key x le has lt. absurd has;
    before = λ i j key x le has lt p. absurd has;
  },
)

full-IsApart : IsApart (view crowded) 1 (pos 2)
full-IsApart = (
  2,
  zmxkey,
  full,
  refl,
  stores_full,
  refl,
  record {
    children = λ i le. tt;
    outside = λ i b le p. absurd p;
    disjoint = λ i j b le le' p q. absurd p;
  },
)

only_root : (b : ℕ) → In (view crowded) 1 (pos 2) b → b ≡ 2
only_root b (c, n, m, e, at, count, inl f) = ground (arith, e, f)
only_root b (c, n, m, e, at, count, inr (i, le, p)) = absurd p

bsptbk-IsTaller_example :
    Returns (λ r u. (r ≡ pos 3) × IsTaller crowded u 0 2) (bsptbk (pos 2) crowded)
bsptbk-IsTaller_example =
    bsptbk-IsTaller false 0 2 3 4 full (spare 4) (spare 8) crowded crowded-IsCache crowded-HasIdle
      full-IsTree full-IsApart stores_full refl refl refl stores_spare refl refl stores_last refl
      (λ e. omega (arith, e)) (λ p. omega (arith, only_root 3 p))
      (λ p. omega (arith, only_root 4 p))

-- the same index with no slot busy, a full block that is not a root, and the block 6 as its parent
abbrev pub full_child : MemRec
full_child = record full {
  infblk =
      λ i. if i == 0 then pos (zvers * 2 ^ 16 + 2) else if i == znkeys then pos zmxkey else pos 0;
}

abbrev pub under : State
under = record crowded {
  cntrl = λ i. record (index.cntrl i) { busy = false };
  lf = record index.lf { lfblk = pos 6 };
  file = λ n. if n == 2 then some full_child else crowded.file n;
}

under-IsCache : IsCache under
under-IsCache = record {
  order = 1 ∷ (0 ∷ (2 ∷ []));
  queue = record {
    chain = (refl, (refl, (refl, refl)));
    tail = refl;
    distinct = index-IsQueue.distinct;
    size = refl;
    full = index-IsQueue.full;
  };
  unique = λ i j n p q e f. ground arith;
  clean = λ i n p e w. ground arith;
  idle = λ i p e. refl;
  free = 0;
  free_in = omega arith;
  free_idle = refl;
  room = λ n. refl;
}

under-HasThree : HasThree under
under-HasThree = record {
  two = record {
    one = 0;
    other = 2;
    one_in = omega arith;
    other_in = omega arith;
    distinct = λ e. omega (arith, e);
    one_idle = refl;
    other_idle = refl;
  };
  third = 1;
  third_in = omega arith;
  not_one = λ e. omega (arith, e);
  not_other = λ e. omega (arith, e);
  third_idle = refl;
}

stores_child : view under 2 ≡ some full_child
unfolding view first_from
stores_child = refl

stores_parent : view under 6 ≡ some single
unfolding view first_from
stores_parent = refl

stores_new : view under 3 ≡ some (spare 4)
unfolding view first_from
stores_new = refl

bsptbk-IsHalved_example :
    Returns
      (λ r u. (r ≡ pos 3) × IsHalved under u 2 3 6 1 full_child single (spare 4))
      (bsptbk (pos 2) under)
bsptbk-IsHalved_example =
    bsptbk-IsHalved 2 3 6 1 full_child single (spare 4) (λ e. omega (arith, e))
      (λ e. omega (arith, e)) (λ e. omega (arith, e)) refl refl (omega arith) under (pos 2)
      under-IsCache under-HasThree refl refl stores_child stores_parent refl refl refl stores_new
      refl
