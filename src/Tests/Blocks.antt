-- ===== src/Tests/Blocks.antt =====
-- The theorems at concrete states: the keys of a block.
use Prim.Native.Nat.{Ordering}
use mathlib.Core.Option
use btlib.Prelude.{
  ℕ, suc, zero, ◌<◌, ◌≤◌, ◌≡◌, refl, false, some, ℤ, pos, negsuc, ◌==◌, if◌then◌else◌, arith,
}
use btlib.Consts.{znull}
use btlib.Machine.{State, KeyEnt}
use btlib.Machine.Returns.{Returns}
use btlib.Info.Touch.{Written}
use btlib.Info.Words.{Unchanged}
use btlib.Block.{Probe, bsrhbk, bputky, put_key, remove_key, bin_search}
use btlib.Block.Search.{IsOrdered, Located, bin_search-block}
use btlib.Block.Linear.{answer, linear_search, bin_search-linear}
use btlib.Block.Place.{Inserted, IsAbsent, put_key-IsOrdered}
use btlib.Block.Links.{put_key-child}
use btlib.Block.Remove.{Removed, remove_key-IsOrdered}
use btlib.Block.Undo.{IsUndone, remove_key-put_key}
use btlib.Block.Stored.{IsNode, reported, copied, bsrhbk-Located, bputky-Written}
use btlib.Block.{bremky}
use btlib.Block.Changed.{bremky-Written}
use btlib.Examples.{entry, leaf, inner, index, index-IsCache, leaf-IsOrdered, stores_leaf}

-- a key that is not in `leaf`
abbrev c_entry : KeyEnt
c_entry = entry b'c' (pos 30)

c_entry-IsAbsent : IsAbsent c_entry.key leaf.keyblk 3
c_entry-IsAbsent zero lt e = ground (arith, e)
c_entry-IsAbsent (suc zero) lt e = ground (arith, e)
c_entry-IsAbsent (suc (suc j)) lt e = ground (arith, e)

leaf-IsNode : IsNode leaf 3
leaf-IsNode = record { count = refl; fits = omega arith; ordered = leaf-IsOrdered }

-- a search for the key "c"
abbrev c_probe : Probe
c_probe = record {
  key = c_entry.key;
  loc = negsuc 0;
  val = pos 0;
  link1 = znull;
  link2 = znull;
  result = Ordering.eq;
  hit = false;
}

bin_search-block_example :
    (loc : ℤ) × (r : Ordering) × (bin_search 4 leaf.keyblk c_entry.key 0 3 false
        (negsuc 0)
        Ordering.lt
      ≡ some (loc, r))
    × Located leaf.keyblk 3 c_entry.key loc r
bin_search-block_example = bin_search-block leaf.keyblk 3 4 c_entry.key leaf-IsOrdered (omega arith)

bin_search-linear_example :
    Option.map answer (bin_search 4 leaf.keyblk c_entry.key 0 3 false (negsuc 0) Ordering.lt)
    ≡ some (linear_search leaf.keyblk 3 c_entry.key)
bin_search-linear_example =
    bin_search-linear leaf.keyblk 3 4 c_entry.key leaf-IsOrdered (omega arith)

bsrhbk-Located_example :
    Returns
      (λ q u.
        (t : State) × (loc : ℤ) × (r : Ordering) × Unchanged index t
        × (u ≡ copied leaf loc t)
        × (q ≡ reported leaf c_probe loc r)
        × Located leaf.keyblk 3 c_entry.key loc r)
      (bsrhbk (pos 5) c_probe index)
bsrhbk-Located_example =
    bsrhbk-Located index 5 3 leaf c_probe index-IsCache stores_leaf leaf-IsNode refl

bputky-Written_example :
    Returns
      (λ _ u. Written index u 5 (put_key c_entry znull znull 3 leaf))
      (bputky (pos 5) c_entry znull znull index)
bputky-Written_example =
    bputky-Written index 5 3 leaf c_entry znull znull index-IsCache stores_leaf refl (omega arith)
      refl

put_key-IsOrdered_example :
    (p : ℕ) × Inserted c_entry 3 p leaf (put_key c_entry znull znull 3 leaf)
    × IsOrdered (put_key c_entry znull znull 3 leaf).keyblk 4
put_key-IsOrdered_example =
    put_key-IsOrdered c_entry znull znull 3 leaf refl refl leaf-IsOrdered c_entry-IsAbsent

put_key-child_example :
    (p : ℕ) × Inserted c_entry 3 p inner (put_key c_entry (pos 6) (pos 9) 3 inner)
    × ((put_key c_entry (pos 6) (pos 9) 3 inner).lnkblk (suc p) ≡ pos 9)
    × ((put_key c_entry (pos 6) (pos 9) 3 inner).lnkblk p
        ≡ (if p == 0 then pos 6 else inner.lnkblk p))
    × ((j : ℕ) → j < p → (put_key c_entry (pos 6) (pos 9) 3 inner).lnkblk j ≡ inner.lnkblk j)
    × ((j : ℕ)
        → p ≤ j
        → j < 3
        → (put_key c_entry (pos 6) (pos 9) 3 inner).lnkblk (suc (suc j)) ≡ inner.lnkblk (suc j))
put_key-child_example = put_key-child c_entry (pos 6) 9 2 inner refl refl

remove_key-IsOrdered_example :
    Removed 2 1 leaf (remove_key 2 1 leaf) × IsOrdered (remove_key 2 1 leaf).keyblk 2
remove_key-IsOrdered_example = remove_key-IsOrdered 2 1 leaf (omega arith) leaf-IsOrdered

remove_key-put_key_example :
    (p : ℕ) × IsUndone c_entry 3 p (pos 6) inner (put_key c_entry (pos 6) (pos 9) 3 inner)
remove_key-put_key_example = remove_key-put_key c_entry (pos 6) 9 2 inner refl refl

bremky-Written_example :
    Returns (λ _ u. Written index u 5 (remove_key 2 1 leaf)) (bremky (pos 5) (pos 1) index)
bremky-Written_example =
    bremky-Written index 5 2 1 leaf index-IsCache stores_leaf refl (omega arith) refl
