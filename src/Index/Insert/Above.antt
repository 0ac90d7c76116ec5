-- ===== src/Index/Insert/Above.antt =====
-- src-lib/binsky.c: a block of a search tree, after the tree below one of its links grew by a key.
use btlib.Prelude.{
  ℕ, suc, ◌≤◌, ◌≡◌, ◌≢◌, ◌⊎◌, inl, inr, refl, sym, subst, ◌∙◌, Bool, false, some, ℤ, pos, ◌==◌,
  ==_iff, Bool-cases, arith,
}
use btlib.Prelude.Keys.{Key, ◌≺◌}
use btlib.Consts.{zmxkey}
use btlib.Machine.{KeyEnt, MemRec}
use btlib.Index.Find.Tree.{Blocks, Has, IsTree, IsInner}
use btlib.Index.Find.Gap.{IsGap, same_block, Has-HasKey}
use btlib.Index.Insert.Apart.{
  In, IsApart, IsSplit, Agree, some_keys, Has-Agree, In-Agree, Agree-sym_child, IsTree-Agree,
  IsApart-Agree, full_allowed,
}
use btlib.Index.Insert.Leaf.{IsGrown}

-- above the leaf: a block whose child at the gap `g` grew
module _ (v v' : Blocks) (w : Bool) (e : KeyEnt) (h b c n g : ℕ) (m : MemRec) (at : v c ≡ some m)
    (inner : IsInner v w (suc h) (IsTree v w (suc h)) m n)
    (split : IsSplit v (suc h) (IsApart v (suc h)) c n m) (gap : IsGap m n g e.key)
    (others : (k : ℕ) → k ≢ b → v' k ≡ v k) (in_child : In v (suc h) (m.lnkblk g) b)
    (grown : IsGrown v v' (suc h) (m.lnkblk g) e) where
  at_new : v' c ≡ some m
  at_new = others c (λ k. split.outside g b gap.inside in_child (sym k)) ∙ at

  other_child : (i : ℕ) → i ≤ n → i ≢ g → Agree v v' (suc h) (m.lnkblk i)
  other_child i le ne a p = others a λ k.
      ne
        (split.disjoint i g b le gap.inside (subst (λ j. In v (suc h) (m.lnkblk i) j) k p) in_child)

  back : (i : ℕ) → i ≤ n → i ≢ g → Agree v' v (suc h) (m.lnkblk i)
  back i le ne = Agree-sym_child v v' w (suc h) n m i inner le (other_child i le ne)

  at_child : (i : ℕ) → (i ≡ g) ⊎ (i ≢ g)
  at_child i = elim (Bool-cases (i == g)) [
    | inl k ↦ inl ((==_iff i g).0 k)
    | inr k ↦ inr (ground (arith, k))
  ]

  child_blocks : (i a : ℕ) → i ≤ n → In v' (suc h) (m.lnkblk i) a → In v (suc h) (m.lnkblk i) a
  child_blocks i a le p = elim (at_child i) [
    | inl k ↦
        subst (λ j. In v (suc h) (m.lnkblk j) a) (sym k)
          (grown.blocks a (subst (λ j. In v' (suc h) (m.lnkblk j) a) k p))
    | inr k ↦ In-Agree v' v (suc h) (m.lnkblk i) a (back i le k) p
  ]

  child_split :
      (i : ℕ) (key : Key) (x : ℤ)
      → i ≤ n
      → Has v' (suc h) (m.lnkblk i) key x
      → Has v (suc h) (m.lnkblk i) key x ⊎ ((i ≡ g) × (key ≡ e.key) × (x ≡ e.val))
  child_split i key x le has = elim (at_child i) [
    | inl k ↦ elim (grown.split key x (subst (λ j. Has v' (suc h) (m.lnkblk j) key x) k has)) [
      | inl old ↦ inl (subst (λ j. Has v (suc h) (m.lnkblk j) key x) (sym k) old)
      | inr (ek, ex) ↦ inr (k, ek, ex)
    ]
    | inr k ↦ inl (Has-Agree v' v (suc h) (m.lnkblk i) key x (back i le k) has)
  ]

  child_keeps :
      (i : ℕ) (key : Key) (x : ℤ)
      → i ≤ n
      → Has v (suc h) (m.lnkblk i) key x
      → Has v' (suc h) (m.lnkblk i) key x
  child_keeps i key x le has = elim (at_child i) [
    | inl k ↦
        subst (λ j. Has v' (suc h) (m.lnkblk j) key x) (sym k)
          (grown.keeps key x (subst (λ j. Has v (suc h) (m.lnkblk j) key x) k has))
    | inr k ↦ Has-Agree v v' (suc h) (m.lnkblk i) key x (other_child i le k) has
  ]

  IsInner-new : IsInner v' false (suc h) (IsTree v' false (suc h)) m n
  IsInner-new = record {
    node = inner.node;
    single = inner.single;
    room = full_allowed (n == zmxkey);
    empty_leaf = inner.empty_leaf;
    children = λ i lt le. elim (at_child i) [
      | inl k ↦ subst (λ j. IsTree v' false (suc h) (m.lnkblk j)) (sym k) grown.tree
      | inr k ↦
          IsTree-Agree v v' w (suc h) (m.lnkblk i) (inner.children i lt le) (other_child i le k)
    ];
    after = λ i j key x le has lt. elim (child_split i key x le has) [
      | inl old ↦ inner.after i j key x le old lt
      | inr (k, ek, _) ↦
          subst (λ y. (m.keyblk j).key ≺ y) (sym ek) (gap.below j (omega (arith, lt, k)))
    ];
    before = λ i j key x le has le' lt. elim (child_split i key x le has) [
      | inl old ↦ inner.before i j key x le old le' lt
      | inr (k, ek, _) ↦
          subst (λ y. y ≺ (m.keyblk j).key) (sym ek) (gap.above j (omega (arith, le', k)) lt)
    ];
  }

  IsSplit-new : IsSplit v' (suc h) (IsApart v' (suc h)) c n m
  IsSplit-new = record {
    children = λ i le. elim (at_child i) [
      | inl k ↦ subst (λ j. IsApart v' (suc h) (m.lnkblk j)) (sym k) grown.apart
      | inr k ↦
          IsApart-Agree v v' w (suc h) (m.lnkblk i) (inner.children i (some_keys h n inner) le)
            (split.children i le) (other_child i le k)
    ];
    outside = λ i a le p. split.outside i a le (child_blocks i a le p);
    disjoint = λ i j a le le' p q.
        split.disjoint i j a le le' (child_blocks i a le p) (child_blocks j a le' q);
  }

  inner_split :
      (key : Key) (x : ℤ)
      → Has v' (suc (suc h)) (pos c) key x
      → Has v (suc (suc h)) (pos c) key x ⊎ ((key ≡ e.key) × (x ≡ e.val))
  inner_split key x has = elim (Has-HasKey v' (suc h) c n m key x at_new inner.node.count has) [
    | inl k ↦ inl (c, n, m, refl, at, inner.node.count, inl k)
    | inr (i, le, below) ↦ elim (child_split i key x le below) [
      | inl old ↦ inl (c, n, m, refl, at, inner.node.count, inr (i, le, old))
      | inr (_, ek, ex) ↦ inr (ek, ex)
    ]
  ]

  inner_keeps :
      (key : Key) (x : ℤ) → Has v (suc (suc h)) (pos c) key x → Has v' (suc (suc h)) (pos c) key x
  inner_keeps key x has = elim (Has-HasKey v (suc h) c n m key x at inner.node.count has) [
    | inl k ↦ (c, n, m, refl, at_new, inner.node.count, inl k)
    | inr (i, le, below) ↦
        (c, n, m, refl, at_new, inner.node.count, inr (i, le, child_keeps i key x le below))
  ]

  inner_blocks : (a : ℕ) → In v' (suc (suc h)) (pos c) a → In v (suc (suc h)) (pos c) a
  inner_blocks a (c', n', m', ec, at', count', k) =
      let (same, en, em) =
        same_block v' (pos c) c' c n' n m' m ec refl at' at_new count' inner.node.count in
      elim k [
        | inl ea ↦ (c, n, m, refl, at, inner.node.count, inl (ea ∙ same))
        | inr (i, le, p) ↦
            let le' : i ≤ n = subst (λ j. i ≤ j) en le in
            (
              c,
              n,
              m,
              refl,
              at,
              inner.node.count,
              inr (
                i,
                le',
                child_blocks i a le' (subst (λ (y : MemRec). In v' (suc h) (y.lnkblk i) a) em p),
              ),
            )
      ]

  pub inner-IsGrown : IsGrown v v' (suc (suc h)) (pos c) e
  inner-IsGrown = record {
    tree = (c, n, m, refl, at_new, IsInner-new);
    apart = (c, n, m, refl, at_new, inner.node.count, IsSplit-new);
    blocks = inner_blocks;
    split = inner_split;
    keeps = inner_keeps;
    adds = (c, n, m, refl, at_new, inner.node.count, inr (g, gap.inside, grown.adds));
  }
