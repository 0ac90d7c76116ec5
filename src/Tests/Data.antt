-- ===== src/Tests/Data.antt =====
-- Data records, at a small index with a data block.
use btlib.Prelude.{
  ℕ, ◌+◌, ◌*◌, ◌^◌, ◌≡◌, refl, [], ◌∷◌, none, some, pos, ◌==◌, if◌then◌else◌, first_from, arith,
}
use btlib.Consts.{zvers, datasz, znxblk, zmisc, zdata, zbtype}
use btlib.Machine.{State, MemRec, ◌>>=◌}
use btlib.Machine.Returns.{Returns}
use btlib.Cache.View.{IsCache, view}
use btlib.Info.{info_word}
use btlib.Info.Touch.{Written}
use btlib.Data.Words.{mkdraddr, block_of, offset_of}
use btlib.Data.Words.Laws.{mkdraddr-block_of}
use btlib.Data.Segment.{of_records, kind_word, insdat, store_segment}
use btlib.Data.Segment.Insert.{with_segment, insdat-Written}
use btlib.Data.Segment.Stored.{store_segment-seg_size}
use btlib.Data.Record.{binsdt, bseldt}
use btlib.Data.Record.Select.{Selected, bseldt-Selected}
use btlib.Data.Record.Stored.{HasRoom, IsRead, binsdt-bseldt}
use btlib.Examples.{leaf, single, index, index-IsQueue}

-- the root, with the data block 8
abbrev root : MemRec
root = record leaf { infblk = λ i. if i == znxblk then pos 8 else leaf.infblk i }

-- a data block without segments
abbrev empty_block : MemRec
empty_block = record single {
  infblk = λ i.
      if i == 0 then pos (zvers * 2 ^ 16 + zdata) else if i == zmisc then pos datasz else pos 0;
}

abbrev store : State
store = record index {
  memrec = λ i. if i == 0 then root else single;
  file = λ n. if n == 6 then some single else if n == 8 then some empty_block else none;
}

store-IsCache : IsCache store
store-IsCache = record {
  order = 1 ∷ (0 ∷ (2 ∷ []));
  queue = record {
    chain = index-IsQueue.chain;
    tail = index-IsQueue.tail;
    distinct = index-IsQueue.distinct;
    size = index-IsQueue.size;
    full = index-IsQueue.full;
  };
  unique = λ i j n p q e f. ground arith;
  clean = λ i n p e w. ground arith;
  idle = λ i p e. ground arith;
  free = 0;
  free_in = omega arith;
  free_idle = refl;
  room = λ n. refl;
}

stores_root : view store 5 ≡ some root
unfolding view first_from
stores_root = refl

stores_data : view store 8 ≡ some empty_block
unfolding view first_from
stores_data = refl

-- the bytes 1, 2, 3, …
abbrev counting : ℕ → ℕ
counting i = i + 1

store-HasRoom : HasRoom store of_records 5 8 0 20 root empty_block
store-HasRoom = record {
  cache = store-IsCache;
  root = refl;
  root_at = stores_root;
  active = refl;
  at = stores_data;
  low = omega arith;
  high = omega arith;
  type = refl;
  used = refl;
  room = omega arith;
  threshold = refl;
}

binsdt-bseldt_example :
    Returns
      (IsRead counting 20)
      ((do draddr ← binsdt 5 of_records counting 20; bseldt 5 draddr (pos 20)) store)
binsdt-bseldt_example =
    binsdt-bseldt store 5 5 8 0 20 of_records counting root empty_block store-HasRoom (omega arith)

insdat-Written_example :
    Returns
      (λ r u.
        (r ≡ 0) × Written store u 8 (with_segment counting 3 20 (pos 0) 0 (pos datasz) empty_block))
      (insdat (pos 8) counting 3 20 (pos 0) store)
insdat-Written_example =
    insdat-Written store 8 0 3 20 (pos 0) (pos datasz) counting empty_block store-IsCache
      stores_data refl refl (omega arith) refl

mkdraddr-block_of_example :
    (block_of (mkdraddr (pos 8) 26) ≡ pos 8) × (offset_of (mkdraddr (pos 8) 26) ≡ 26)
mkdraddr-block_of_example = mkdraddr-block_of 8 26 (omega arith) (omega arith)

-- a data block with one segment
abbrev full_block : MemRec
full_block = store_segment counting 0 20 (pos 0) 0 empty_block

abbrev full : State
full = record store {
  file = λ n. if n == 6 then some single else if n == 8 then some full_block else none;
}

full-IsCache : IsCache full
full-IsCache = record {
  order = 1 ∷ (0 ∷ (2 ∷ []));
  queue = record {
    chain = index-IsQueue.chain;
    tail = index-IsQueue.tail;
    distinct = index-IsQueue.distinct;
    size = index-IsQueue.size;
    full = index-IsQueue.full;
  };
  unique = store-IsCache.unique;
  clean = λ i n p e w. ground arith;
  idle = store-IsCache.idle;
  free = 0;
  free_in = omega arith;
  free_idle = refl;
  room = λ n. refl;
}

stores_segment : view full 8 ≡ some full_block
unfolding view first_from
stores_segment = refl

full_type : info_word full_block (pos zbtype) ≡ some (kind_word of_records)
unfolding store_segment
full_type = refl

bseldt-Selected_example :
    Returns (Selected full full_block 0 20 12) (bseldt 5 (mkdraddr (pos 8) 0) (pos 12) full)
bseldt-Selected_example =
    bseldt-Selected full 5 8 0 20 12 of_records full_block full-IsCache stores_segment (omega arith)
      (omega arith) full_type
      (store_segment-seg_size counting 0 20 0 (pos 0) empty_block (omega arith) (omega arith)).0
      (store_segment-seg_size counting 0 20 0 (pos 0) empty_block (omega arith) (omega arith)).1
      (omega arith) (omega arith)
