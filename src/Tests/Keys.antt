-- ===== src/Tests/Keys.antt =====
-- The theorems at concrete states: finding and inserting keys, free blocks and the lock.
use btlib.Prelude.{inl, true, ℕ, ◌≡◌, ◌≢◌, refl, [], ◌∷◌, pos, arith}
use btlib.Consts.{znull}
use btlib.Machine.{State, ◌>>◌, ◌>>=◌, pure}
use btlib.Machine.Returns.{Returns}
use btlib.Lru.Move.{IsQueue}
use btlib.Cache.View.{view, IsCache}
use btlib.Index.Find.{bfndky}
use btlib.Index.Find.Keys.{FoundKey, bfndky-FoundKey}
use btlib.Cache.{initcntrl}
use btlib.Index.Insert.{binsky}
use btlib.Index.Insert.Duplicate.{Refused, binsky-Refused}
use btlib.Lock.{block, bulock}
use btlib.Lock.Nested.{block-bulock}
use btlib.Cache.Start.{initcntrl-IsCache}
use btlib.Free.{bgtfre, bmkfre}
use btlib.Free.List.{IsListed, bmkfre-IsListed, bmkfre-bgtfre}
use btlib.Examples.{index-IsTree, no_records, leaf, index, index-IsCache, stores_leaf}

bfndky-FoundKey_example :
    Returns (FoundKey index 1 (b'c' ∷ [])) (bfndky no_records 9 (b'c' ∷ []) (pos 0) index)
bfndky-FoundKey_example =
    bfndky-FoundKey no_records 9 1 (b'c' ∷ []) (pos 0) index refl refl index-IsCache index-IsTree
      (omega arith) (omega arith)

initcntrl-IsCache_example :
    Returns
      (λ _ t. IsCache t × IsQueue t (0 ∷ (1 ∷ (2 ∷ []))) × ((n : ℕ) → view t n ≡ index.file n))
      (initcntrl index)
initcntrl-IsCache_example = initcntrl-IsCache index λ n. refl

bmkfre-IsListed_example : Returns (λ _ u. IsListed index u 5 leaf) (bmkfre (pos 5) index)
bmkfre-IsListed_example = bmkfre-IsListed index 5 leaf (pos 2) index-IsCache stores_leaf refl refl

bmkfre-bgtfre_example :
    Returns
      (λ r u.
        (r ≡ pos 5)
        × IsCache u
        × (u.super.sfreep ≡ znull)
        × (u.super.snfree ≡ pos 0)
        × ((k : ℕ) → k ≢ 5 → view u k ≡ view index k))
      ((bmkfre (pos 5) >> bgtfre) index)
bmkfre-bgtfre_example =
    bmkfre-bgtfre index 5 0 leaf (pos 2) index-IsCache stores_leaf refl refl refl

-- the index with the lock held once
abbrev held : State
held = record index { shared = true; lckcnt = 1 }

block-bulock_example :
    Returns
      (λ granted t. (granted ≡ true) × (t.lckcnt ≡ 1) × (record t { lckcnt = 1 } ≡ held))
      ((do granted ← block; bulock; pure granted) held)
block-bulock_example = block-bulock 0 held refl

binsky-Refused_example : Returns (Refused index) (binsky no_records 9 (b'd' ∷ []) (pos 7) index)
binsky-Refused_example =
    binsky-Refused no_records 9 1 5 (b'd' ∷ []) (pos 7) (pos 40) leaf index refl refl refl
      index-IsCache refl stores_leaf refl index-IsTree (omega arith) (omega arith)
      (5, 3, leaf, refl, stores_leaf, refl, inl (1, omega arith, refl, refl))
