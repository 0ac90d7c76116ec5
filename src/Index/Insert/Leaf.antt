-- ===== src/Index/Insert/Leaf.antt =====
-- src-lib/binsky.c: a leaf of the tree, after `bputky` put a key into it.
use btlib.Prelude.{
  ℕ, zero, suc, ◌≤◌, ◌<◌, ◌≡◌, ◌⊎◌, inl, inr, refl, sym, ap, ◌∙◌, Bool, false, some, ℤ, pos, ◌==◌,
  ==_iff, ltb, Bool-cases, arith,
}
use btlib.Prelude.Keys.{Key}
use btlib.Consts.{zmxkey, znull}
use btlib.Machine.{KeyEnt, MemRec}
use btlib.Block.{put_key}
use btlib.Block.Search.{IsOrdered}
use btlib.Block.Place.{Inserted, put_key-IsOrdered}
use btlib.Block.Links.{put_key-leaf, leaf_first}
use btlib.Index.Find.Tree.{Blocks, Has, IsTree, IsInner}
use btlib.Index.Find.Gap.{same_block, Has-HasKey}
use btlib.Index.Insert.Apart.{In, IsApart, full_allowed}

-- From `v` to `v'` the tree below the link got the key of `e`, and is a search tree of the same blocks.
pub record IsGrown (v v' : Blocks) (h : ℕ) (link : ℤ) (e : KeyEnt) : Type 0 where
  pub tree : IsTree v' false h link
  pub apart : IsApart v' h link
  pub blocks : (b : ℕ) → In v' h link b → In v h link b
  pub split :
      (key : Key) (x : ℤ) → Has v' h link key x → Has v h link key x ⊎ ((key ≡ e.key) × (x ≡ e.val))
  pub keeps : (key : Key) (x : ℤ) → Has v h link key x → Has v' h link key x
  pub adds : Has v' h link e.key e.val

-- an entry after the insertion is the new one or an old one
new_entry :
    (e : KeyEnt) (n p : ℕ) (m m' : MemRec) (i : ℕ)
    → Inserted e n p m m'
    → i < suc n
    → (m'.keyblk i ≡ e) ⊎ ((j : ℕ) × (j < n) × (m'.keyblk i ≡ m.keyblk j))
new_entry e n p m m' zero ins lt = elim (Bool-cases (0 == p)) [
  | inl f ↦ inl (ap m'.keyblk ((==_iff 0 p).0 f) ∙ ins.here)
  | inr f ↦ inr (0, ground (arith, f, ins.inside), ins.below 0 (ground (arith, f)))
]
new_entry e n p m m' (suc i) ins lt = elim (Bool-cases (suc i == p)) [
  | inl f ↦ inl (ap m'.keyblk ((==_iff (suc i) p).0 f) ∙ ins.here)
  | inr f ↦ elim (Bool-cases (ltb (suc i) p)) [
    | inl g ↦ inr (suc i, ground (arith, g, ins.inside), ins.below (suc i) (ground (arith, g)))
    | inr g ↦ inr (i, omega arith, ins.above i (ground (arith, f, g)) (omega arith))
  ]
]

-- an old entry is still there
old_entry :
    (e : KeyEnt) (n p : ℕ) (m m' : MemRec) (i : ℕ)
    → Inserted e n p m m'
    → i < n
    → (j : ℕ) × (j < suc n) × (m'.keyblk j ≡ m.keyblk i)
old_entry e n p m m' i ins lt = elim (Bool-cases (ltb i p)) [
  | inl f ↦ (i, omega arith, ins.below i (ground (arith, f)))
  | inr f ↦ (suc i, omega arith, ins.above i (ground (arith, f)) lt)
]

-- the links of the leaf
new_links :
    (e : KeyEnt) (n : ℕ) (m : MemRec) (i : ℕ)
    → ((j : ℕ) → 0 < n → j ≤ n → m.lnkblk j ≡ znull)
    → i ≤ suc n
    → (put_key e znull znull n m).lnkblk i ≡ znull
new_links e zero m i leaf le = leaf_first e m i (omega arith)
new_links e (suc n) m i leaf le = put_key-leaf e (suc n) m (λ j q. leaf j (omega arith) q) i le

module _ (v v' : Blocks) (w : Bool) (e : KeyEnt) (b n : ℕ) (m : MemRec) (at : v b ≡ some m)
    (inner : IsInner v w 0 (IsTree v w 0) m n) (room : n < zmxkey)
    (new : v' b ≡ some (put_key e znull znull n m)) (absent : (y : ℤ) → ¬ (Has v 1 (pos b) e.key y))
    (plain : e.dup ≡ znull) where
  abbrev put : MemRec
  put = put_key e znull znull n m

  ordered : (p : ℕ) × Inserted e n p m put × IsOrdered put.keyblk (suc n)
  ordered = put_key-IsOrdered e znull znull n m refl inner.node.count inner.node.ordered λ j lt ej.
      absent (m.keyblk j).val (b, n, m, refl, at, inner.node.count, inl (j, lt, ej, refl))

  leaf_new : IsTree v' false 1 (pos b)
  leaf_new =
      let (p, ins, keys) = ordered in
      (
        b,
        suc n,
        put,
        refl,
        new,
        record {
          node = record { count = ins.count; fits = omega (arith, room); ordered = keys };
          single = λ i lt. elim (new_entry e n p m put i ins lt) [
            | inl f ↦ ap (λ (k : KeyEnt). k.dup) f ∙ plain
            | inr (j, q, f) ↦ ap (λ (k : KeyEnt). k.dup) f ∙ inner.single j q
          ];
          room = full_allowed (suc n == zmxkey);
          empty_leaf = λ f. refl;
          children = λ i lt le. new_links e n m i inner.children le;
          after = λ i j key x le has lt. absurd has;
          before = λ i j key x le has le' lt. absurd has;
        },
      )

  leaf_split :
      (key : Key) (x : ℤ)
      → Has v' 1 (pos b) key x
      → Has v 1 (pos b) key x ⊎ ((key ≡ e.key) × (x ≡ e.val))
  leaf_split key x has =
      let (p, ins, keys) = ordered in
      elim (Has-HasKey v' 0 b (suc n) put key x new ins.count has) [
        | inr (i, le, below) ↦ absurd below
        | inl (i, lt, ek, ex) ↦ elim (new_entry e n p m put i ins lt) [
          | inl f ↦
              inr (sym ek ∙ ap (λ (k : KeyEnt). k.key) f, sym ex ∙ ap (λ (k : KeyEnt). k.val) f)
          | inr (j, q, f) ↦ inl (
            b,
            n,
            m,
            refl,
            at,
            inner.node.count,
            inl (
              j,
              q,
              ap (λ (k : KeyEnt). k.key) (sym f) ∙ ek,
              ap (λ (k : KeyEnt). k.val) (sym f) ∙ ex,
            ),
          )
        ]
      ]

  leaf_keeps : (key : Key) (x : ℤ) → Has v 1 (pos b) key x → Has v' 1 (pos b) key x
  leaf_keeps key x has =
      let (p, ins, keys) = ordered in
      elim (Has-HasKey v 0 b n m key x at inner.node.count has) [
        | inr (i, le, below) ↦ absurd below
        | inl (i, lt, ek, ex) ↦
            let (j, q, f) = old_entry e n p m put i ins lt in
            (
              b,
              suc n,
              put,
              refl,
              new,
              ins.count,
              inl (j, q, ap (λ (k : KeyEnt). k.key) f ∙ ek, ap (λ (k : KeyEnt). k.val) f ∙ ex),
            )
      ]

  leaf_blocks : (a : ℕ) → In v' 1 (pos b) a → In v 1 (pos b) a
  leaf_blocks a (c, k, l, eb, at', count', inr (i, le, below)) = absurd below
  leaf_blocks a (c, k, l, eb, at', count', inl same) =
      let (p, ins, keys) = ordered in
      let (ec, _, _) = same_block v' (pos b) c b k (suc n) l put eb refl at' new count' ins.count in
      (b, n, m, refl, at, inner.node.count, inl (same ∙ ec))

  -- A leaf with room for a key that it does not have grows by that key.
  pub leaf-IsGrown : IsGrown v v' 1 (pos b) e
  leaf-IsGrown =
      let (p, ins, keys) = ordered in
      record {
        tree = leaf_new;
        apart = (
          b,
          suc n,
          put,
          refl,
          new,
          ins.count,
          record {
            children = λ i le. tt;
            outside = λ i a le q. absurd q;
            disjoint = λ i j a le le' q r. absurd q;
          },
        );
        blocks = leaf_blocks;
        split = leaf_split;
        keeps = leaf_keeps;
        adds = (
          b,
          suc n,
          put,
          refl,
          new,
          ins.count,
          inl (
            p,
            omega (arith, ins.inside),
            ap (λ (k : KeyEnt). k.key) ins.here,
            ap (λ (k : KeyEnt). k.val) ins.here,
          ),
        );
      }
