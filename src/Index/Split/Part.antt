-- ===== src/Index/Split/Part.antt =====
-- src-lib/bsptbk.c: a block of a search tree that holds a run of the keys of another one.
use btlib.Prelude.{
  ℕ, ◌+◌, ◌-◌, ◌≤◌, ◌<◌, ◌≡◌, ◌⊎◌, inl, inr, sym, ap, subst, ◌∙◌, Bool, false, ℤ, ◌==◌, arith,
}
use btlib.Prelude.Keys.{Key, ◌≺◌}
use btlib.Consts.{zmxkey}
use btlib.Machine.{KeyEnt, MemRec}
use btlib.Block.Part.{IsPart}
use btlib.Index.Find.Tree.{Blocks, Has, HasKey, IsTree, IsInner}
use btlib.Index.Insert.Apart.{Agree, Has-Agree, Agree-sym_child, IsTree-Agree, full_allowed}

-- `key` stands with the value `x` at a position from `lo` up to `hi`, or below a link around them.
abbrev pub Between : (ℤ → Key → ℤ → Type 0) → MemRec → (lo hi : ℕ) → Key → ℤ → Type 0
Between below m lo hi key x =
    ((i : ℕ) × (lo ≤ i) × (i < hi) × ((m.keyblk i).key ≡ key) × ((m.keyblk i).val ≡ x))
    ⊎ ((i : ℕ) × (lo ≤ i) × (i ≤ hi) × below (m.lnkblk i) key x)

at_off : (off i : ℕ) → off ≤ i → off + (i - off) ≡ i
at_off off i le = omega arith

module _ (below : ℤ → Key → ℤ → Type 0) (part m : MemRec) (off n : ℕ) (p : IsPart part m off n)
    (key : Key) (x : ℤ) where
  pub part-Between : HasKey below part n key x → Between below m off (off + n) key x
  part-Between (inl (i, lt, ek, ex)) = inl (
    off + i,
    omega arith,
    omega arith,
    ap (λ (e : KeyEnt). e.key) (sym (p.keys i lt)) ∙ ek,
    ap (λ (e : KeyEnt). e.val) (sym (p.keys i lt)) ∙ ex,
  )
  part-Between (inr (i, le, b)) =
      inr (off + i, omega arith, omega arith, subst (λ l. below l key x) (p.links i le) b)

  pub Between-part : Between below m off (off + n) key x → HasKey below part n key x
  Between-part (inl (i, le, lt, ek, ex)) =
      let same : part.keyblk (i - off) ≡ m.keyblk i =
        p.keys (i - off) (omega arith) ∙ ap m.keyblk (at_off off i le) in
      inl (
        i - off,
        omega arith,
        ap (λ (e : KeyEnt). e.key) same ∙ ek,
        ap (λ (e : KeyEnt). e.val) same ∙ ex,
      )
  Between-part (inr (i, le, le', b)) =
      let same : part.lnkblk (i - off) ≡ m.lnkblk i =
        p.links (i - off) (omega arith) ∙ ap m.lnkblk (at_off off i le) in
      inr (i - off, omega arith, subst (λ l. below l key x) (sym same) b)

module _ (v v' : Blocks) (w : Bool) (h : ℕ) (m : MemRec) (total : ℕ)
    (inner : IsInner v w h (IsTree v w h) m total)
    (agree : (i : ℕ) → i ≤ total → Agree v v' h (m.lnkblk i)) where
  -- below a link of the old block nothing changed
  pub down :
      (i : ℕ) (key : Key) (x : ℤ)
      → i ≤ total
      → Has v' h (m.lnkblk i) key x
      → Has v h (m.lnkblk i) key x
  down i key x le =
      Has-Agree v' v h (m.lnkblk i) key x (Agree-sym_child v v' w h total m i inner le (agree i le))

  pub up :
      (i : ℕ) (key : Key) (x : ℤ)
      → i ≤ total
      → Has v h (m.lnkblk i) key x
      → Has v' h (m.lnkblk i) key x
  up i key x le = Has-Agree v v' h (m.lnkblk i) key x (agree i le)

  -- what stands behind a position is larger, what stands before it smaller
  pub Between-after :
      (lo j : ℕ) (key : Key) (x : ℤ)
      → Between (Has v' h) m lo total key x
      → j < lo
      → (m.keyblk j).key ≺ key
  Between-after lo j key x (inl (i, le, lt, e, _)) before =
      subst (λ k. (m.keyblk j).key ≺ k) e (inner.node.ordered j i (omega arith) lt)
  Between-after lo j key x (inr (i, le, le', has)) before =
      inner.after i j key x le' (down i key x le' has) (omega arith)

  pub Between-before :
      (lo hi j : ℕ) (key : Key) (x : ℤ)
      → Between (Has v' h) m lo hi key x
      → hi ≤ j
      → j < total
      → key ≺ (m.keyblk j).key
  Between-before lo hi j key x (inl (i, le, lt, e, _)) after inside =
      subst (λ k. k ≺ (m.keyblk j).key) e (inner.node.ordered i j (omega arith) inside)
  Between-before lo hi j key x (inr (i, le, le', has)) after inside =
      inner.before i j key x (omega arith) (down i key x (omega arith) has) (omega arith) inside

  -- A part of the block is the root of a search tree.
  pub part-IsInner :
      (part : MemRec) (off n : ℕ)
      → IsPart part m off n
      → off + n ≤ total
      → 0 < n
      → IsInner v' false h (IsTree v' false h) part n
  part-IsInner part off n p fits some_key = record {
    node = record {
      count = p.count;
      fits = omega (arith, inner.node.fits, fits);
      ordered = λ i j lt lt'.
          subst (λ (e : KeyEnt). e.key ≺ (part.keyblk j).key) (sym (p.keys i (omega arith)))
            (subst (λ (e : KeyEnt). (m.keyblk (off + i)).key ≺ e.key) (sym (p.keys j lt'))
              (inner.node.ordered (off + i) (off + j) (omega arith) (omega arith)));
    };
    single =
        λ i lt. ap (λ (e : KeyEnt). e.dup) (p.keys i lt) ∙ inner.single (off + i) (omega arith);
    room = full_allowed (n == zmxkey);
    empty_leaf = λ e. absurd (omega (arith, e, some_key));
    children = λ i lt le. subst (IsTree v' false h) (sym (p.links i le)) (
        IsTree-Agree v v' w h (m.lnkblk (off + i))
          (inner.children (off + i) (omega arith) (omega arith)) (agree (off + i) (omega arith)));
    after = λ i j key x le has lt.
        subst (λ (e : KeyEnt). e.key ≺ key) (sym (p.keys j (omega arith)))
          (inner.after (off + i) (off + j) key x (omega arith)
            (down (off + i) key x (omega arith) (subst (λ l. Has v' h l key x) (p.links i le) has))
            (omega arith));
    before = λ i j key x le has le' lt.
        subst (λ (e : KeyEnt). key ≺ e.key) (sym (p.keys j lt))
          (inner.before (off + i) (off + j) key x (omega arith)
            (down (off + i) key x (omega arith) (subst (λ l. Has v' h l key x) (p.links i le) has))
            (omega arith) (omega arith));
  }
