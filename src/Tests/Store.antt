-- ===== src/Tests/Store.antt =====
-- An entry of a duplicate, at a small index with a block for duplicates.
use btlib.Prelude.{
  ℕ, zero, suc, ◌+◌, ◌*◌, ◌^◌, ◌≡◌, refl, false, not, none, some, List, [], ◌∷◌, pos, ltb, ◌==◌,
  take, if◌then◌else◌, first_from, arith,
}
use btlib.Prelude.Keys.{Key}
use btlib.Consts.{zvers, datasz, dkeysz, znull, znxdup, zmisc, zdup}
use btlib.Machine.{State, MemRec, ◌>>=◌}
use btlib.Machine.Returns.{Returns}
use btlib.Cache.View.{IsCache, view}
use btlib.Dups.{DKey}
use btlib.Data.Words.{rdint, wrint}
use btlib.Data.Segment.{of_dups}
use btlib.Data.Record.{binsdt, bytes_from}
use btlib.Data.Record.Stored.{HasRoom}
use btlib.Data.Store.{Layout, getdkey}
use btlib.Data.Store.Laws.{binsdt-getdkey}
use btlib.Examples.{leaf, single, index, index-IsQueue}

abbrev nth : List ℕ → ℕ → ℕ
nth [] i = 0
nth (x ∷ xs) zero = x
nth (x ∷ xs) (suc i) = nth xs i

abbrev until_zero : List ℕ → Key
until_zero [] = []
until_zero (zero ∷ xs) = []
until_zero (suc x ∷ xs) = suc x ∷ until_zero xs

-- integers of four bytes, the lowest first
abbrev layout : Layout
layout = record {
  encode = λ dk.
      let a : ℕ → ℕ = λ i. if ltb i 32 then nth dk.key i else 0 in
      let b : ℕ → ℕ = wrint (if dk.deleted then pos 1 else pos 0) a 32 in
      wrint dk.blink (wrint dk.flink (wrint dk.val b 36) 40) 44;
  decode = λ bytes. record {
    key = until_zero (take 32 bytes);
    deleted = not (nth bytes 32 == 0);
    val = rdint (nth bytes) 36;
    flink = rdint (nth bytes) 40;
    blink = rdint (nth bytes) 44;
  };
}

abbrev one : DKey
one = record { key = b'd' ∷ []; deleted = false; val = pos 4000; flink = znull; blink = pos 8192 }

decoded : layout.decode (bytes_from dkeysz (layout.encode one) 0) ≡ one
unfolding wrint rdint
decoded = refl

-- the root, with the block 8 for duplicates
abbrev root : MemRec
root = record leaf { infblk = λ i. if i == znxdup then pos 8 else leaf.infblk i }

abbrev dup_block : MemRec
dup_block = record single {
  infblk =
      λ i. if i == 0 then pos (zvers * 2 ^ 16 + zdup) else if i == zmisc then pos datasz else pos 0;
}

abbrev store : State
store = record index {
  memrec = λ i. if i == 0 then root else single;
  file = λ n. if n == 6 then some single else if n == 8 then some dup_block else none;
}

store-IsCache : IsCache store
store-IsCache = record {
  order = 1 ∷ (0 ∷ (2 ∷ []));
  queue = record {
    chain = index-IsQueue.chain;
    tail = index-IsQueue.tail;
    distinct = index-IsQueue.distinct;
    size = index-IsQueue.size;
    full = index-IsQueue.full;
  };
  unique = λ i j n p q e f. ground arith;
  clean = λ i n p e w. ground arith;
  idle = λ i p e. ground arith;
  free = 0;
  free_in = omega arith;
  free_idle = refl;
  room = λ n. refl;
}

stores_root : view store 5 ≡ some root
unfolding view first_from
stores_root = refl

stores_dups : view store 8 ≡ some dup_block
unfolding view first_from
stores_dups = refl

store-HasRoom : HasRoom store of_dups 5 8 0 dkeysz root dup_block
store-HasRoom = record {
  cache = store-IsCache;
  root = refl;
  root_at = stores_root;
  active = refl;
  at = stores_dups;
  low = omega arith;
  high = omega arith;
  type = refl;
  used = refl;
  room = omega arith;
  threshold = refl;
}

binsdt-getdkey_example :
    Returns
      (λ found u. (found ≡ some one) × IsCache u)
      ((do draddr ← binsdt 5 of_dups (layout.encode one) dkeysz; getdkey layout 5 draddr) store)
binsdt-getdkey_example =
    binsdt-getdkey store layout 5 5 8 0 one root dup_block store-HasRoom decoded (omega arith)
