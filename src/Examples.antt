-- ===== src/Examples.antt =====
-- A small open index for the tests: three slots in the order 1, 0, 2. Slot 0 holds block 5, which
-- was written to, slot 1 holds block 6 and is busy, and slot 2 is unused. Block 7 is in the file.
use btlib.Prelude.{
  ℕ, ◌+◌, ◌*◌, ◌^◌, ◌≡◌, refl, true, false, none, some, [], ◌∷◌, ℤ, pos, negsuc, ◌==◌,
  if◌then◌else◌, first_from, arith,
}
use btlib.Prelude.Keys.{strcmp}
use btlib.Consts.{zvers, znull, znkeys}
use btlib.Dups.{DupStore}
use btlib.Index.Find.Tree.{IsTree, IsInner}
use btlib.Machine.{pure, skip, State, Cntrl, KeyEnt, MemRec, no_arg}
use btlib.Lru.Move.{IsQueue}
use btlib.Cache.View.{IsCache, view}
use btlib.Block.Search.{IsOrdered}

abbrev pub entry : ℕ → ℤ → KeyEnt
entry c v = record { key = c ∷ []; val = v; dup = znull }

-- a leaf with the keys "b", "d" and "f"
abbrev pub leaf : MemRec
leaf = record {
  infblk = λ i. if i == 0 then pos (zvers * 2 ^ 16 + 2) else if i == znkeys then pos 3 else pos 0;
  keyblk = λ i.
      if i == 0
      then entry b'b' (pos 20)
      else if i == 1
      then entry b'd' (pos 40)
      else entry b'f' (pos 60);
  lnkblk = λ i. znull;
  bytes = λ i. 0;
}

-- one with the key "m"
abbrev pub single : MemRec
single = record {
  infblk = λ i. if i == 0 then pos (zvers * 2 ^ 16 + 2) else if i == znkeys then pos 1 else pos 0;
  keyblk = λ i. entry b'm' (pos 130);
  lnkblk = λ i. znull;
  bytes = λ i. 0;
}

-- a node with the keys of `leaf` and the children 5, 6, 7 and 8
abbrev pub inner : MemRec
inner = record leaf { lnkblk = λ i. pos (i + 5) }

abbrev pub cache : ℕ → Cntrl
cache i =
    if i == 0
    then record { inmem = pos 5; busy = false; writes = 1; lrunxt = some 2 }
    else if i == 1
    then record { inmem = pos 6; busy = true; writes = 0; lrunxt = some 0 }
    else record { inmem = negsuc 0; busy = false; writes = 0; lrunxt = none }

abbrev pub index : State
index = record {
  idxopen = true;
  shared = false;
  lckcnt = 0;
  wt_threshold = 0;
  cntrl = cache;
  memrec = λ i. if i == 0 then leaf else single;
  lru = record { lrut = some 2; lruh = some 1 };
  lf = record { lfkey = []; lfblk = znull; lfpos = znull; lfexct = false; draddr = znull };
  stk = record { stkptr = negsuc 0; stk = λ i. pos 0 };
  stat = record {
    xlogrd = 0;
    xlogwr = 0;
    xphyrd = 0;
    xphywr = 0;
    xsplit = 0;
    xjoin = 0;
    xbal = 0;
    xgot = 0;
    xrel = 0;
  };
  super = record {
    sblkmx = pos 9;
    snfree = pos 0;
    sfreep = znull;
    scroot = pos 5;
    smode = pos 0;
    smod = 0;
    scclas = [];
  };
  err = record { qerror = 0; qname = ""; qarg = no_arg };
  file = λ n. if n == 6 then some single else if n == 7 then some inner else none;
  room = λ n. true;
  grants = [];
  keyent = entry b'x' (pos 0);
}

pub index-IsQueue : IsQueue index (1 ∷ (0 ∷ (2 ∷ [])))
index-IsQueue = record {
  chain = (refl, (refl, (refl, refl)));
  tail = refl;
  distinct = (refl, (refl, (refl, tt)));
  size = refl;
  full = λ i. ground arith;
}

pub index-IsCache : IsCache index
index-IsCache = record {
  order = 1 ∷ (0 ∷ (2 ∷ []));
  queue = index-IsQueue;
  unique = λ i j n p q e f. ground arith;
  clean = λ i n p e w. ground arith;
  idle = λ i p e. ground arith;
  free = 0;
  free_in = omega arith;
  free_idle = refl;
  room = λ n. refl;
}

pub leaf-IsOrdered : IsOrdered leaf.keyblk 3
unfolding strcmp
leaf-IsOrdered i j lt le = ground arith

pub stores_leaf : view index 5 ≡ some leaf
unfolding view first_from
stores_leaf = refl

pub stores_inner : view index 7 ≡ some inner
unfolding view first_from
stores_inner = refl

leaf-IsInner : IsInner (view index) true 0 (IsTree (view index) true 0) leaf 3
leaf-IsInner = record {
  node = record { count = refl; fits = omega arith; ordered = leaf-IsOrdered };
  single = λ i lt. ground arith;
  room = refl;
  empty_leaf = λ e. refl;
  children = λ i lt le. refl;
  after = λ i j key x le has lt. absurd has;
  before = λ i j key x le has lt p. absurd has;
}

-- the root of `index` is a tree of one block
pub index-IsTree : IsTree (view index) true 1 (pos 5)
index-IsTree = (5, 3, leaf, refl, stores_leaf, leaf-IsInner)

-- a store without data records
abbrev pub no_records : DupStore
no_records = record {
  getdkey = λ a. pure none;
  putdkey = λ a k. pure 1;
  insert = λ k. pure znull;
  release = λ a. skip;
}
