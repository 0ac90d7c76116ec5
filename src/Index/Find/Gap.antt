-- ===== src/Index/Find/Gap.antt =====
-- Where a key that a block does not have can stand in the tree: below the link at its gap.
use Prim.Native.Nat.{Ordering}
use btlib.Prelude.{
  ℕ, suc, ◌≤◌, ◌<◌, ◌≡◌, inl, inr, refl, sym, ap, subst, ◌∙◌, Bool, Option, none, some, ℤ, pos,
  negsuc, ◌==◌, ltb, arith, Bool-cases,
}
use btlib.Prelude.Keys.{Key, ◌≺◌, ≺_trans}
use btlib.Consts.{znkeys}
use btlib.Machine.{MemRec}
use btlib.Block.Search.{Located, IsOrdered, irreflexive, opposed}
use btlib.Index.Find.Tree.{Blocks, Has, HasKey, IsTree, IsInner}

-- The first `g` of the `n` keys are smaller than `key`, the others are larger.
pub record IsGap (m : MemRec) (n g : ℕ) (key : Key) : Type 0 where
  pub inside : g ≤ n
  pub below : (j : ℕ) → j < g → (m.keyblk j).key ≺ key
  pub above : (j : ℕ) → g ≤ j → j < n → key ≺ (m.keyblk j).key

-- the key belongs just before one of the block
pub lt-IsGap :
    (m : MemRec) (n l : ℕ) (key : Key)
    → IsOrdered m.keyblk n
    → Located m.keyblk n key (pos l) Ordering.lt
    → IsGap m n l key
lt-IsGap m n l key ordered at = record {
  inside = omega (arith, at.0);
  below = at.2;
  above = λ j p q. elim (Bool-cases (j == l)) [
    | inl e ↦ ground (arith, e, at.1)
    | inr e ↦ ≺_trans key (m.keyblk l).key (m.keyblk j).key at.1 (ordered l j (ground (arith, e)) q)
  ];
}

-- the key belongs just behind one of the block
pub gt-IsGap :
    (m : MemRec) (n l : ℕ) (key : Key)
    → IsOrdered m.keyblk n
    → Located m.keyblk n key (pos l) Ordering.gt
    → IsGap m n (suc l) key
gt-IsGap m n l key ordered at = record {
  inside = omega (arith, at.0);
  below = λ j p. elim (Bool-cases (j == l)) [
    | inl e ↦ ground (arith, e, at.1)
    | inr e ↦
        ≺_trans (m.keyblk j).key (m.keyblk l).key key (ordered j l (ground (arith, e)) at.0) at.1
  ];
  above = λ j p q. at.2 j (omega arith) q;
}

module _ (v : Blocks) (w : Bool) (h : ℕ) (m : MemRec) (n g : ℕ) (key : Key)
    (inner : IsInner v w h (IsTree v w h) m n) (gap : IsGap m n g key) where
  not_in_block : (i : ℕ) → i < n → (m.keyblk i).key ≡ key → ⊥
  not_in_block i lt e = elim (Bool-cases (ltb i g)) [
    | inl f ↦ irreflexive key (subst (λ k. k ≺ key) e (gap.below i (ground (arith, f))))
    | inr f ↦ irreflexive key (subst (λ k. key ≺ k) e (gap.above i (ground (arith, f)) lt))
  ]

  at_gap : (i : ℕ) (x : ℤ) → i ≤ n → Has v h (m.lnkblk i) key x → i ≡ g
  at_gap i x le has = elim (Bool-cases (ltb i g)) [
    | inl f ↦ absurd (
        opposed key (m.keyblk i).key
          (inner.before i i key x le has (omega arith) (ground (arith, f, gap.inside)))
          (gap.below i (ground (arith, f))))
    | inr f ↦ elim (Bool-cases (i == g)) [
      | inl e ↦ ground (arith, e)
      | inr e ↦ absurd (
          opposed key (m.keyblk g).key (gap.above g (omega arith) (ground (arith, f, e)))
            (inner.after i g key x le has (ground (arith, f, e))))
    ]
  ]

  -- The key can only stand below the link at the gap.
  pub below_gap : (x : ℤ) → HasKey (Has v h) m n key x → Has v h (m.lnkblk g) key x
  below_gap x (inl (i, lt, e, _)) = absurd (not_in_block i lt e)
  below_gap x (inr (i, le, has)) = subst (λ j. Has v h (m.lnkblk j) key x) (at_gap i x le has) has

abbrev pub magnitude : ℤ → ℕ
magnitude (pos n) = n
magnitude (negsuc n) = n

abbrev pub block_or : MemRec → Option MemRec → MemRec
block_or m none = m
block_or m (some k) = k

-- The block at a link is determined.
pub same_block :
    (v : Blocks) (link : ℤ) (b c n k : ℕ) (m l : MemRec)
    → link ≡ pos b
    → link ≡ pos c
    → v b ≡ some m
    → v c ≡ some l
    → m.infblk znkeys ≡ pos n
    → l.infblk znkeys ≡ pos k
    → (b ≡ c) × (n ≡ k) × (m ≡ l)
same_block v link b c n k m l eb ec at at' count count' =
    let same : b ≡ c = ap magnitude (sym eb ∙ ec) in
    let em : m ≡ l = ap (block_or m) (sym at ∙ ap v same ∙ at') in
    (same, ap magnitude (sym count ∙ ap (λ (y : MemRec). y.infblk znkeys) em ∙ count'), em)

-- The block of a tree is the one that is stored there.
pub Has-HasKey :
    (v : Blocks) (h b n : ℕ) (m : MemRec) (key : Key) (x : ℤ)
    → v b ≡ some m
    → m.infblk znkeys ≡ pos n
    → Has v (suc h) (pos b) key x
    → HasKey (Has v h) m n key x
Has-HasKey v h b n m key x at count (b', n', m', eb, at', count', k) =
    let same : b ≡ b' = ap magnitude eb in
    let em : m' ≡ m = ap (block_or m) (sym at' ∙ ap v (sym same) ∙ at) in
    let en : n' ≡ n = ap magnitude (sym count' ∙ ap (λ (y : MemRec). y.infblk znkeys) em ∙ count) in
    subst (λ y. HasKey (Has v h) y n key x) em (subst (λ y. HasKey (Has v h) m' y key x) en k)

-- A block without keys has none below it.
pub empty_block :
    (v : Blocks) (w : Bool) (h : ℕ) (m : MemRec) (key : Key) (x : ℤ)
    → IsInner v w h (IsTree v w h) m 0
    → HasKey (Has v h) m 0 key x
    → ⊥
empty_block v w h m key x inner (inl (i, lt, _, _)) = omega arith
empty_block v w h m key x inner (inr (i, le, has)) =
    subst (λ j. Has v j (m.lnkblk i) key x) (inner.empty_leaf refl) has
