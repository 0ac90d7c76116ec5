-- ===== src/Index/Delete/Leaf.antt =====
-- src-lib/bdelk1.c: a leaf of the tree, after `bremky` took a key out of it.
use btlib.Prelude.{
  ℕ, zero, suc, ◌≤◌, ◌<◌, ◌≡◌, ◌≢◌, inl, inr, refl, sym, ap, ◌∙◌, Bool, some, ℤ, pos, ltb,
  Bool-cases, arith,
}
use btlib.Prelude.Keys.{Key}
use btlib.Machine.{KeyEnt, MemRec}
use btlib.Block.{remove_key}
use btlib.Block.Search.{IsOrdered, same_place}
use btlib.Block.Remove.{Removed, remove_key-IsOrdered}
use btlib.Index.Find.Tree.{Blocks, Has, IsTree, IsInner}
use btlib.Index.Find.Gap.{Has-HasKey}

-- From `v` to `v'` the tree below the link lost `key`, and is a search tree.
pub record IsShrunk (v v' : Blocks) (w : Bool) (h : ℕ) (link : ℤ) (key : Key) : Type 0 where
  pub tree : IsTree v' w h link
  pub gone : (x : ℤ) → ¬ (Has v' h link key x)
  pub old : (k : Key) (x : ℤ) → Has v' h link k x → Has v h link k x
  pub keeps : (k : Key) (x : ℤ) → k ≢ key → Has v h link k x → Has v' h link k x

-- an entry that is left is one of the others
left_entry :
    (n p j : ℕ) (m m' : MemRec)
    → Removed n p m m'
    → p ≤ n
    → j < n
    → (i : ℕ) × (i < suc n) × (i ≢ p) × (m'.keyblk j ≡ m.keyblk i)
left_entry n p j m m' r le lt = elim (Bool-cases (ltb j p)) [
  | inl f ↦ (j, omega arith, λ e. ground (arith, f, e), r.below j (ground (arith, f)))
  | inr f ↦ (suc j, omega arith, λ e. ground (arith, f, e), r.above j (ground (arith, f)) lt)
]

-- an entry at another place is still there
kept_entry :
    (n p i : ℕ) (m m' : MemRec)
    → Removed n p m m'
    → p ≤ n
    → i < suc n
    → i ≢ p
    → (j : ℕ) × (j < n) × (m'.keyblk j ≡ m.keyblk i)
kept_entry n p zero m m' r le lt ne = (0, ground (arith, ne), r.below 0 (ground (arith, ne)))
kept_entry n p (suc i) m m' r le lt ne = elim (Bool-cases (ltb (suc i) p)) [
  | inl f ↦ (suc i, ground (arith, f), r.below (suc i) (ground (arith, f)))
  | inr f ↦ (i, omega arith, r.above i (ground (arith, f, ne)) (omega arith))
]

module _ (v v' : Blocks) (w : Bool) (b n p : ℕ) (m : MemRec) (at : v b ≡ some m)
    (inner : IsInner v w 0 (IsTree v w 0) m (suc n)) (le : p ≤ n)
    (new : v' b ≡ some (remove_key n p m)) where
  abbrev cut : MemRec
  cut = remove_key n p m

  removed : Removed n p m cut × IsOrdered cut.keyblk n
  removed = remove_key-IsOrdered n p m le inner.node.ordered

  -- a leaf with a key less is not full
  cut-IsInner : IsInner v' w 0 (IsTree v' w 0) cut n
  cut-IsInner =
      let (r, keys) = removed in
      record {
        node = record { count = r.count; fits = omega (arith, inner.node.fits); ordered = keys };
        single = λ i lt.
            let (j, q, _, e) = left_entry n p i m cut r le lt in
            ap (λ (k : KeyEnt). k.dup) e ∙ inner.single j q;
        room = ground (arith, inner.node.fits);
        empty_leaf = λ e. refl;
        children = λ i lt q. elim (Bool-cases (ltb p i)) [
          | inl f ↦
              r.links_above i (ground (arith, f)) q
              ∙ inner.children (suc i) (omega arith) (omega arith)
          | inr f ↦
              r.links_below i (ground (arith, f)) ∙ inner.children i (omega arith) (omega arith)
        ];
        after = λ i j key x q has lt. absurd has;
        before = λ i j key x q has q' lt. absurd has;
      }

  cut_old : (k : Key) (x : ℤ) → Has v' 1 (pos b) k x → Has v 1 (pos b) k x
  cut_old k x has =
      let (r, _) = removed in
      elim (Has-HasKey v' 0 b n cut k x new r.count has) [
        | inr (_, _, below) ↦ absurd below
        | inl (j, lt, ek, ex) ↦
            let (i, q, _, e) = left_entry n p j m cut r le lt in
            (
              b,
              suc n,
              m,
              refl,
              at,
              inner.node.count,
              inl (
                i,
                q,
                ap (λ (y : KeyEnt). y.key) (sym e) ∙ ek,
                ap (λ (y : KeyEnt). y.val) (sym e) ∙ ex,
              ),
            )
      ]

  cut_keeps : (k : Key) (x : ℤ) → k ≢ (m.keyblk p).key → Has v 1 (pos b) k x → Has v' 1 (pos b) k x
  cut_keeps k x ne has =
      let (r, _) = removed in
      elim (Has-HasKey v 0 b (suc n) m k x at inner.node.count has) [
        | inr (_, _, below) ↦ absurd below
        | inl (i, lt, ek, ex) ↦
            let (j, q, e) =
              kept_entry n p i m cut r le lt
                (λ same. ne (sym ek ∙ ap (λ (l : ℕ). (m.keyblk l).key) same)) in
            (
              b,
              n,
              cut,
              refl,
              new,
              r.count,
              inl (j, q, ap (λ (y : KeyEnt). y.key) e ∙ ek, ap (λ (y : KeyEnt). y.val) e ∙ ex),
            )
      ]

  cut_gone : (x : ℤ) → ¬ (Has v' 1 (pos b) (m.keyblk p).key x)
  cut_gone x has =
      let (r, _) = removed in
      elim (Has-HasKey v' 0 b n cut (m.keyblk p).key x new r.count has) [
        | inr (_, _, below) ↦ absurd below
        | inl (j, lt, ek, _) ↦
            let (i, q, ne, e) = left_entry n p j m cut r le lt in
            ne (
              same_place m.keyblk (suc n) i p inner.node.ordered q (omega (arith, le))
                (ap (λ (y : KeyEnt). y.key) (sym e) ∙ ek))
      ]

  -- A leaf without one of its keys is a search tree of the others.
  pub leaf-IsShrunk : IsShrunk v v' w 1 (pos b) (m.keyblk p).key
  leaf-IsShrunk = record {
    tree = (b, n, cut, refl, new, cut-IsInner);
    gone = cut_gone;
    old = cut_old;
    keeps = cut_keeps;
  }
