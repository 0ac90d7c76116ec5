-- ===== src/Tests/Delete.antt =====
-- Joining blocks and deleting keys, at small blocks.
use btlib.Prelude.{
  ℕ, zero, suc, ◌<◌, ◌≡◌, refl, ◌∙◌, some, [], ◌∷◌, pos, true, arith, ◌+◌, ◌*◌, ◌^◌, ◌==◌,
  if◌then◌else◌, first_from,
}
use btlib.Prelude.Keys.{Key, ◌≺◌, strcmp}
use btlib.Consts.{znull, znkeys, zvers}
use btlib.Consts.Codes.{qdeler}
use btlib.Machine.{State, KeyEnt, MemRec}
use btlib.Machine.Returns.{Returns}
use btlib.Cache.View.{view, IsCache, rest-IsCache, rest-view}
use btlib.Block.{put_key, copy_keys, bcpybk}
use btlib.Block.Join.{IsJoined, copy_keys-IsJoined}
use btlib.Block.Transfer.{HasIdle, Copied, bcpybk-Copied}
use btlib.Index.Find.Tree.{IsTree}
use btlib.Index.Delete.{bdelk1, bdelky}
use btlib.Index.Delete.OneBlock.{DeletedOrMissing, bdelky-DeletedOrMissing}
use btlib.Index.Delete.Refuse.{bdelk1_long}
use btlib.Examples.{
  single, entry, leaf, inner, index, index-IsCache, leaf-IsOrdered, stores_leaf, stores_inner,
  no_records,
}

-- a key between those of `leaf` and that of `single`
abbrev between : KeyEnt
between = entry b'h' (pos 80)

before_between : (j : ℕ) → j < 3 → (leaf.keyblk j).key ≺ between.key
unfolding strcmp
before_between j lt = ground arith

behind_between : (j : ℕ) → j < 1 → between.key ≺ (single.keyblk j).key
unfolding strcmp
behind_between j lt = refl

copy_keys-IsJoined_example :
    IsJoined 3 1 between leaf single (copy_keys 4 0 1 single (put_key between znull znull 3 leaf))
copy_keys-IsJoined_example =
    copy_keys-IsJoined 3 1 between leaf single refl leaf-IsOrdered before_between
      (λ i j lt le. absurd (omega arith)) behind_between (λ j le. refl) (λ j le. refl)

-- the context at the key "d"
abbrev at_d : State
at_d = record index {
  lf = record { lfkey = b'd' ∷ []; lfblk = pos 5; lfpos = pos 1; lfexct = true; draddr = znull };
}

abbrev copies : ℕ → Key
copies zero = []
copies (suc n) = b'x' ∷ copies n

bdelk1_long_example :
    Returns
      (λ code u. (code ≡ qdeler) × IsCache u × ((a : ℕ) → view u a ≡ view at_d a))
      (bdelk1 no_records 9 (some (copies 40)) at_d)
bdelk1_long_example =
    bdelk1_long no_records 9 5 1 3 (copies 40) leaf at_d
      (rest-IsCache index at_d.lf index.stk index.stat index.super index.err index.keyent
        index-IsCache)
      (rest-view index at_d.lf index.stk index.stat index.super index.err index.keyent 5
        ∙ stores_leaf)
      refl (omega arith) (omega arith) refl refl refl refl refl (omega arith)

index-HasIdle : HasIdle index
index-HasIdle = record {
  one = 0;
  other = 2;
  one_in = omega arith;
  other_in = omega arith;
  distinct = λ e. omega (arith, e);
  one_idle = refl;
  other_idle = refl;
}

bcpybk-Copied_example :
    Returns
      (λ _ u. Copied index 5 (copy_keys 0 0 3 inner leaf) u)
      (bcpybk (pos 5) (pos 7) 0 0 3 index)
bcpybk-Copied_example =
    bcpybk-Copied index 5 7 0 0 2 leaf inner index-IsCache stores_leaf stores_inner
      (λ e. omega (arith, e)) index-HasIdle (omega arith) (omega arith)

-- `index` with a block of the type of a root
abbrev root_leaf : MemRec
root_leaf = record leaf {
  infblk = λ i. if i == 0 then pos (zvers * 2 ^ 16 + 1) else if i == znkeys then pos 3 else pos 0;
}

abbrev rooted : State
rooted = record index { memrec = λ i. if i == 0 then root_leaf else single }

rooted-IsCache : IsCache rooted
rooted-IsCache = record {
  order = 1 ∷ (0 ∷ (2 ∷ []));
  queue = record {
    chain = (refl, (refl, (refl, refl)));
    tail = refl;
    distinct = (refl, (refl, (refl, tt)));
    size = refl;
    full = λ i. ground arith;
  };
  unique = λ i j n p q e f. ground arith;
  clean = λ i n p e w. ground arith;
  idle = λ i p e. ground arith;
  free = 0;
  free_in = omega arith;
  free_idle = refl;
  room = λ n. refl;
}

stores_root : view rooted 5 ≡ some root_leaf
unfolding view first_from
stores_root = refl

rooted-IsTree : IsTree (view rooted) true 1 (pos 5)
rooted-IsTree = (
  5,
  3,
  root_leaf,
  refl,
  stores_root,
  record {
    node = record { count = refl; fits = omega arith; ordered = leaf-IsOrdered };
    single = λ i lt. ground arith;
    room = refl;
    empty_leaf = λ e. refl;
    children = λ i lt le. refl;
    after = λ i j key x le has lt. absurd has;
    before = λ i j key x le has lt p. absurd has;
  },
)

bdelky-DeletedOrMissing_example :
    Returns (DeletedOrMissing rooted (b'd' ∷ [])) (bdelky no_records 9 (some (b'd' ∷ [])) rooted)
bdelky-DeletedOrMissing_example =
    bdelky-DeletedOrMissing no_records 9 5 (b'd' ∷ []) root_leaf rooted refl refl refl refl
      rooted-IsCache refl stores_root refl rooted-IsTree (omega arith) (omega arith)
