-- ===== src/Index/Insert/Apart.antt =====
-- The blocks of a search tree, and trees that have no block in two places.
use btlib.Prelude.{
  ℕ, zero, suc, ◌≤◌, ◌<◌, ◌≡◌, ◌≢◌, ◌⊎◌, inl, inr, refl, sym, subst, ◌∙◌, Bool, true, false, ◌&&◌,
  some, ℤ, pos, ◌==◌, ==_iff, Bool-cases, arith,
}
use btlib.Prelude.Keys.{Key}
use btlib.Consts.{zmxkey, znkeys}
use btlib.Machine.{MemRec}
use btlib.Index.Find.Tree.{Blocks, Has, IsTree, IsInner}
use btlib.Index.Find.Gap.{same_block}

-- The block `b` is one of the tree of height `h` below a link.
abbrev pub In : Blocks → ℕ → ℤ → ℕ → Type 0
In v zero link b = ⊥
In v (suc h) link b =
    (c : ℕ) × (n : ℕ) × (m : MemRec) × (link ≡ pos c)
    × (v c ≡ some m)
    × (m.infblk znkeys ≡ pos n)
    × ((b ≡ c) ⊎ ((i : ℕ) × (i ≤ n) × In v h (m.lnkblk i) b))

-- The trees below the `n + 1` links of block `c` do not meet and do not reach `c`.
pub record IsSplit (v : Blocks) (h : ℕ) (child : ℤ → Type 0) (c n : ℕ) (m : MemRec) : Type 0 where
  pub children : (i : ℕ) → i ≤ n → child (m.lnkblk i)
  pub outside : (i b : ℕ) → i ≤ n → In v h (m.lnkblk i) b → b ≢ c
  pub disjoint : (i j b : ℕ) → i ≤ n → j ≤ n → In v h (m.lnkblk i) b → In v h (m.lnkblk j) b → i ≡ j

-- No block of the tree has two places in it.
abbrev pub IsApart : Blocks → ℕ → ℤ → Type 0
IsApart v zero link = Unit {0}
IsApart v (suc h) link =
    (c : ℕ) × (n : ℕ) × (m : MemRec) × (link ≡ pos c)
    × (v c ≡ some m)
    × (m.infblk znkeys ≡ pos n)
    × IsSplit v h (IsApart v h) c n m

-- `v'` stores what `v` does at the blocks of the tree of `v`.
abbrev pub Agree : Blocks → Blocks → ℕ → ℤ → Type 0
Agree v v' h link = (b : ℕ) → In v h link b → v' b ≡ v b

-- a block above leaves is not empty
pub some_keys :
    {v : Blocks} {w : Bool} {child : ℤ → Type 0} {m : MemRec} (h n : ℕ)
    → IsInner v w (suc h) child m n
    → 0 < n
some_keys h n inner = elim (Bool-cases (n == 0)) [
  | inl e ↦ absurd (omega (arith, inner.empty_leaf ((==_iff n 0).0 e)))
  | inr e ↦ ground (arith, e)
]

pub Has-Agree :
    (v v' : Blocks) (h : ℕ) (link : ℤ) (key : Key) (x : ℤ)
    → Agree v v' h link
    → Has v h link key x
    → Has v' h link key x
Has-Agree v v' zero link key x agree has = has
Has-Agree v v' (suc h) link key x agree (c, n, m, e, at, count, inl k) =
    (c, n, m, e, agree c (c, n, m, e, at, count, inl refl) ∙ at, count, inl k)
Has-Agree v v' (suc h) link key x agree (c, n, m, e, at, count, inr (i, le, has)) = (
  c,
  n,
  m,
  e,
  agree c (c, n, m, e, at, count, inl refl) ∙ at,
  count,
  inr (
    i,
    le,
    Has-Agree v v' h (m.lnkblk i) key x (λ b p. agree b (c, n, m, e, at, count, inr (i, le, p)))
        has,
  ),
)

pub In-Agree :
    (v v' : Blocks) (h : ℕ) (link : ℤ) (a : ℕ) → Agree v v' h link → In v h link a → In v' h link a
In-Agree v v' zero link a agree p = p
In-Agree v v' (suc h) link a agree (c, n, m, e, at, count, inl k) =
    (c, n, m, e, agree c (c, n, m, e, at, count, inl refl) ∙ at, count, inl k)
In-Agree v v' (suc h) link a agree (c, n, m, e, at, count, inr (i, le, p)) = (
  c,
  n,
  m,
  e,
  agree c (c, n, m, e, at, count, inl refl) ∙ at,
  count,
  inr (
    i,
    le,
    In-Agree v v' h (m.lnkblk i) a (λ b q. agree b (c, n, m, e, at, count, inr (i, le, q))) p,
  ),
)

-- the part of a block in the new store, in the old one
old_part :
    (v v' : Blocks) (w : Bool) (h : ℕ) (link : ℤ) (b c n : ℕ) (m : MemRec)
    → link ≡ pos c
    → v c ≡ some m
    → IsInner v w h (IsTree v w h) m n
    → Agree v v' (suc h) link
    → In v' (suc h) link b
    → (b ≡ c) ⊎ ((i : ℕ) × (i ≤ n) × In v' h (m.lnkblk i) b)
old_part v v' w h link b c n m e at inner agree (c', n', m', e', at', count', k) =
    let count = inner.node.count in
    let at_new : v' c ≡ some m = agree c (c, n, m, e, at, count, inl refl) ∙ at in
    let (ec, en, em) = same_block v' link c' c n' n m' m e' e at' at_new count' count in
    elim k [
      | inl eb ↦ inl (eb ∙ ec)
      | inr (i, le, p) ↦
          inr (i, subst (λ j. i ≤ j) en le, subst (λ (y : MemRec). In v' h (y.lnkblk i) b) em p)
    ]

-- Agreement on a tree goes both ways.
pub Agree-sym :
    (v v' : Blocks) (w : Bool) (h : ℕ) (link : ℤ)
    → IsTree v w h link
    → Agree v v' h link
    → Agree v' v h link
Agree-sym v v' w zero link tree agree b p = absurd p
Agree-sym v v' w (suc zero) link (c, n, m, e, at, inner) agree b p =
    elim (old_part v v' w 0 link b c n m e at inner agree p) [
      | inl eb ↦ sym (agree b (c, n, m, e, at, inner.node.count, inl eb))
      | inr (i, le, q) ↦ absurd q
    ]
Agree-sym v v' w (suc (suc h)) link (c, n, m, e, at, inner) agree b p =
    elim (old_part v v' w (suc h) link b c n m e at inner agree p) [
      | inl eb ↦ sym (agree b (c, n, m, e, at, inner.node.count, inl eb))
      | inr (i, le, q) ↦
          Agree-sym v v' w (suc h) (m.lnkblk i) (inner.children i (some_keys h n inner) le)
            (λ a r. agree a (c, n, m, e, at, inner.node.count, inr (i, le, r))) b q
    ]

pub Agree-sym_child :
    (v v' : Blocks) (w : Bool) (h n : ℕ) (m : MemRec) (i : ℕ)
    → IsInner v w h (IsTree v w h) m n
    → i ≤ n
    → Agree v v' h (m.lnkblk i)
    → Agree v' v h (m.lnkblk i)
Agree-sym_child v v' w zero n m i inner le agree = λ b p. absurd p
Agree-sym_child v v' w (suc h) n m i inner le agree =
    Agree-sym v v' w (suc h) (m.lnkblk i) (inner.children i (some_keys h n inner) le) agree

pub full_allowed : (full : Bool) → (full && false) ≡ false
full_allowed true = refl
full_allowed false = refl

-- A search tree stays one where the store agrees; whether full blocks are split is left open.
pub IsTree-Agree :
    (v v' : Blocks) (w : Bool) (h : ℕ) (link : ℤ)
    → IsTree v w h link
    → Agree v v' h link
    → IsTree v' false h link
IsTree-Agree v v' w zero link tree agree = tree
IsTree-Agree v v' w (suc h) link (c, n, m, e, at, inner) agree =
    let count = inner.node.count in
    let below : (i : ℕ) → i ≤ n → Agree v v' h (m.lnkblk i) =
      λ i le b p. agree b (c, n, m, e, at, count, inr (i, le, p)) in
    let back = λ (i : ℕ) (le : i ≤ n). Agree-sym_child v v' w h n m i inner le (below i le) in
    (
      c,
      n,
      m,
      e,
      agree c (c, n, m, e, at, count, inl refl) ∙ at,
      record {
        node = inner.node;
        single = inner.single;
        room = full_allowed (n == zmxkey);
        empty_leaf = inner.empty_leaf;
        children =
            λ i lt le. IsTree-Agree v v' w h (m.lnkblk i) (inner.children i lt le) (below i le);
        after = λ i j key x le has.
            inner.after i j key x le (Has-Agree v' v h (m.lnkblk i) key x (back i le) has);
        before = λ i j key x le has.
            inner.before i j key x le (Has-Agree v' v h (m.lnkblk i) key x (back i le) has);
      },
    )

pub IsApart-Agree :
    (v v' : Blocks) (w : Bool) (h : ℕ) (link : ℤ)
    → IsTree v w h link
    → IsApart v h link
    → Agree v v' h link
    → IsApart v' h link
IsApart-Agree v v' w zero link tree apart agree = tt
IsApart-Agree v v' w (suc zero) link tree (c, n, m, e, at, count, split) agree = (
  c,
  n,
  m,
  e,
  agree c (c, n, m, e, at, count, inl refl) ∙ at,
  count,
  record {
    children = λ i le. tt;
    outside = λ i b le p. absurd p;
    disjoint = λ i j b le le' p q. absurd p;
  },
)
IsApart-Agree v v' w (suc (suc h)) link (c', n', m', e', at', inner') (c, n, m, e, at, count, split)
      agree =
    let (ec, en, em) = same_block v link c' c n' n m' m e' e at' at inner'.node.count count in
    let inner =
      subst (λ y. IsInner v w (suc h) (IsTree v w (suc h)) y n) em
        (subst (λ k. IsInner v w (suc h) (IsTree v w (suc h)) m' k) en inner') in
    let below : (i : ℕ) → i ≤ n → Agree v v' (suc h) (m.lnkblk i) =
      λ i le b p. agree b (c, n, m, e, at, count, inr (i, le, p)) in
    let back = λ (i b : ℕ) (le : i ≤ n) (p : In v' (suc h) (m.lnkblk i) b).
      In-Agree v' v (suc h) (m.lnkblk i) b
        (Agree-sym_child v v' w (suc h) n m i inner le (below i le)) p in
    (
      c,
      n,
      m,
      e,
      agree c (c, n, m, e, at, count, inl refl) ∙ at,
      count,
      record {
        children = λ i le.
            IsApart-Agree v v' w (suc h) (m.lnkblk i) (inner.children i (some_keys h n inner) le)
              (split.children i le) (below i le);
        outside = λ i b le p. split.outside i b le (back i b le p);
        disjoint = λ i j b le le' p q. split.disjoint i j b le le' (back i b le p) (back j b le' q);
      },
    )
