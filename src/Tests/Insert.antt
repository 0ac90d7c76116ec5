-- ===== src/Tests/Insert.antt =====
-- The insertion of a key, at a small index.
use btlib.Prelude.{ℕ, zero, suc, ◌<◌, ◌≡◌, inl, inr, refl, [], ◌∷◌, ℤ, pos, arith}
use btlib.Machine.Returns.{Returns}
use btlib.Cache.View.{view}
use btlib.Index.Find.Tree.{Has}
use btlib.Index.Find.Gap.{Has-HasKey}
use btlib.Index.Insert.{binsky}
use btlib.Index.Insert.Apart.{IsApart}
use btlib.Index.Insert.Fresh.{Entered, binsky-Entered}
use btlib.Examples.{index-IsTree, no_records, leaf, index, index-IsCache, stores_leaf}

index-IsApart : IsApart (view index) 1 (pos 5)
index-IsApart = (
  5,
  3,
  leaf,
  refl,
  stores_leaf,
  refl,
  record {
    children = λ i le. tt;
    outside = λ i b le p. absurd p;
    disjoint = λ i j b le le' p q. absurd p;
  },
)

not_in_leaf : (i : ℕ) → i < 3 → (leaf.keyblk i).key ≡ b'c' ∷ [] → ⊥
not_in_leaf zero lt e = ground (arith, e)
not_in_leaf (suc zero) lt e = ground (arith, e)
not_in_leaf (suc (suc j)) lt e = ground (arith, e)

not_in_index : (x : ℤ) → ¬ (Has (view index) 1 (pos 5) (b'c' ∷ []) x)
not_in_index x has = elim (Has-HasKey (view index) 0 5 3 leaf (b'c' ∷ []) x stores_leaf refl has) [
  | inl (i, lt, e, _) ↦ not_in_leaf i lt e
  | inr (_, _, below) ↦ below
]

binsky-Entered_example :
    Returns (Entered index 1 (b'c' ∷ []) (pos 30)) (binsky no_records 9 (b'c' ∷ []) (pos 30) index)
binsky-Entered_example =
    binsky-Entered no_records 9 1 5 (b'c' ∷ []) (pos 30) leaf index refl refl refl refl
      index-IsCache refl stores_leaf refl index-IsTree index-IsApart (omega arith) (omega arith)
      not_in_index
