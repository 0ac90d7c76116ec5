-- ===== src/Index/Split/Halves.antt =====
-- src-lib/bsptbk.c: a search tree whose root's keys stand in two blocks, below the middle one.
use btlib.Prelude.{
  ℕ, suc, ◌+◌, ◌≤◌, ◌<◌, ◌≡◌, ◌⊎◌, inl, inr, refl, sym, ap, subst, ◌∙◌, Bool, false, Bool-cases,
  some, ℤ, pos, ◌==◌, ==_iff, ltb, arith,
}
use btlib.Prelude.Keys.{Key, ◌≺◌}
use btlib.Consts.{zmxkey}
use btlib.Machine.{KeyEnt, MemRec}
use btlib.Block.Part.{IsPart, copied_key, copied_link}
use btlib.Index.Split.{sp, sp2}
use btlib.Index.Split.Root.{left_half, right_half, top}
use btlib.Index.Split.Part.{
  Between, part-Between, Between-part, down, up, Between-after, Between-before, part-IsInner,
}
use btlib.Index.Find.Tree.{Blocks, Has, HasKey, IsTree, IsInner}
use btlib.Index.Find.Gap.{Has-HasKey}
use btlib.Index.Insert.Apart.{Agree}

pub left-IsPart : (root croot : ℤ) (m m1 : MemRec) → IsPart (left_half root croot m m1) m 0 sp
left-IsPart root croot m m1 = record {
  count = refl;
  keys = λ i lt. copied_key 0 sp i m m1 lt;
  links = λ i le. copied_link 0 sp i m m1 le;
}

pub right-IsPart :
    (root croot : ℤ) (m m2 : MemRec) → IsPart (right_half root croot m m2) m (sp + 1) sp2
right-IsPart root croot m m2 = record {
  count = refl;
  keys = λ i lt. copied_key (sp + 1) sp2 i m m2 lt;
  links = λ i le. copied_link (sp + 1) sp2 i m m2 le;
}

-- The middle key stands in the block, or the key stands in or below one of the halves.
pub halves :
    (below : ℤ → Key → ℤ → Type 0) (m : MemRec) (key : Key) (x : ℤ)
    → HasKey below m zmxkey key x
    → (((m.keyblk sp).key ≡ key) × ((m.keyblk sp).val ≡ x))
      ⊎ (Between below m 0 sp key x ⊎ Between below m (sp + 1) zmxkey key x)
halves below m key x (inl (i, lt, ek, ex)) = elim (Bool-cases (ltb i sp)) [
  | inl f ↦ inr (inl (inl (i, omega arith, ground (arith, f), ek, ex)))
  | inr f ↦ elim (Bool-cases (i == sp)) [
    | inl e ↦
        let same : i ≡ sp = (==_iff i sp).0 e in
        inl (subst (λ j. (m.keyblk j).key ≡ key) same ek, subst (λ j. (m.keyblk j).val ≡ x) same ex)
    | inr e ↦ inr (inr (inl (i, ground (arith, f, e), lt, ek, ex)))
  ]
]
halves below m key x (inr (i, le, b)) = elim (Bool-cases (ltb sp i)) [
  | inl f ↦ inr (inr (inr (i, ground (arith, f), le, b)))
  | inr f ↦ inr (inl (inr (i, omega arith, ground (arith, f), b)))
]

module _ (v v' : Blocks) (w : Bool) (h b b1 b2 : ℕ) (m l r : MemRec) (old : v b ≡ some m)
    (root : v' b ≡ some (top m b1 b2)) (left : v' b1 ≡ some l) (right : v' b2 ≡ some r)
    (left_part : IsPart l m 0 sp) (right_part : IsPart r m (sp + 1) sp2)
    (inner : IsInner v w h (IsTree v w h) m zmxkey)
    (agree : (i : ℕ) → i ≤ zmxkey → Agree v v' h (m.lnkblk i)) where
  in_left : (key : Key) (x : ℤ) → Has v' (suc h) (pos b1) key x → Between (Has v' h) m 0 sp key x
  in_left key x has =
      part-Between (Has v' h) l m 0 sp left_part key x
        (Has-HasKey v' h b1 sp l key x left left_part.count has)

  in_right :
      (key : Key) (x : ℤ)
      → Has v' (suc h) (pos b2) key x
      → Between (Has v' h) m (sp + 1) zmxkey key x
  in_right key x has =
      part-Between (Has v' h) r m (sp + 1) sp2 right_part key x
        (Has-HasKey v' h b2 sp2 r key x right right_part.count has)

  to_left : (key : Key) (x : ℤ) → Between (Has v' h) m 0 sp key x → Has v' (suc h) (pos b1) key x
  to_left key x q =
      (b1, sp, l, refl, left, left_part.count, Between-part (Has v' h) l m 0 sp left_part key x q)

  to_right :
      (key : Key) (x : ℤ)
      → Between (Has v' h) m (sp + 1) zmxkey key x
      → Has v' (suc h) (pos b2) key x
  to_right key x q = (
    b2,
    sp2,
    r,
    refl,
    right,
    right_part.count,
    Between-part (Has v' h) r m (sp + 1) sp2 right_part key x q,
  )

  -- below the two links of the new root
  one_link : (i : ℕ) → i ≤ 1 → (i ≡ 0) ⊎ (i ≡ 1)
  one_link i le = elim (Bool-cases (i == 0)) [
    | inl e ↦ inl ((==_iff i 0).0 e)
    | inr e ↦ inr (ground (arith, e, le))
  ]

  last_link : (i j : ℕ) → i ≤ 1 → j < i → i ≡ 1
  last_link i j le lt = omega arith

  first_link : (i j : ℕ) → i ≤ j → j < 1 → i ≡ 0
  first_link i j le lt = omega arith

  abbrev one_key : MemRec
  one_key = top m b1 b2

  only_key : (j : ℕ) → j < 1 → one_key.keyblk j ≡ m.keyblk sp
  only_key j lt = ground arith

  top-IsInner : IsInner v' false (suc h) (IsTree v' false (suc h)) one_key 1
  top-IsInner = record {
    node = record {
      count = refl;
      fits = omega arith;
      ordered = λ i j lt lt'. absurd (omega arith);
    };
    single = λ i lt. ap (λ (e : KeyEnt). e.dup) (only_key i lt) ∙ inner.single sp (omega arith);
    room = refl;
    empty_leaf = λ e. absurd (omega (arith, e));
    children = λ i lt le. elim (one_link i le) [
      | inl e ↦
          subst (λ j. IsTree v' false (suc h) (one_key.lnkblk j)) (sym e)
            (
              b1,
              sp,
              l,
              refl,
              left,
              part-IsInner v v' w h m zmxkey inner agree l 0 sp left_part (omega arith)
                  (omega arith),
            )
      | inr e ↦
          subst (λ j. IsTree v' false (suc h) (one_key.lnkblk j)) (sym e)
            (
              b2,
              sp2,
              r,
              refl,
              right,
              part-IsInner v v' w h m zmxkey inner agree r (sp + 1) sp2 right_part (omega arith)
                  (omega arith),
            )
    ];
    after = λ i j key x le has lt.
        subst (λ (e : KeyEnt). e.key ≺ key) (sym (only_key j (omega arith)))
          (Between-after v v' w h m zmxkey inner agree (sp + 1) sp key x
            (in_right key x
              (subst (λ k. Has v' (suc h) (one_key.lnkblk k) key x) (last_link i j le lt) has))
            (omega arith));
    before = λ i j key x le has le' lt.
        subst (λ (e : KeyEnt). key ≺ e.key) (sym (only_key j lt))
          (Between-before v v' w h m zmxkey inner agree 0 sp sp key x
            (in_left key x
              (subst (λ k. Has v' (suc h) (one_key.lnkblk k) key x) (first_link i j le' lt) has))
            (omega arith) (omega arith));
  }

  -- The tree below the root is a level higher, and has the keys and values that it had.
  pub top-IsTree : IsTree v' false (suc (suc h)) (pos b)
  top-IsTree = (b, 1, one_key, refl, root, top-IsInner)

  from_old :
      (key : Key) (x : ℤ) → HasKey (Has v h) m zmxkey key x → HasKey (Has v' h) m zmxkey key x
  from_old key x (inl k) = inl k
  from_old key x (inr (i, le, has)) = inr (i, le, up v v' w h m zmxkey inner agree i key x le has)

  pub top-keeps :
      (key : Key) (x : ℤ) → Has v (suc h) (pos b) key x → Has v' (suc (suc h)) (pos b) key x
  top-keeps key x has =
      let k = Has-HasKey v h b zmxkey m key x old inner.node.count has in
      (
        b,
        1,
        one_key,
        refl,
        root,
        refl,
        elim (halves (Has v' h) m key x (from_old key x k)) [
          | inl (ek, ex) ↦ inl (0, omega arith, ek, ex)
          | inr (inl q) ↦ inr (0, omega arith, to_left key x q)
          | inr (inr q) ↦ inr (1, omega arith, to_right key x q)
        ],
      )

  to_old :
      (lo hi : ℕ) (key : Key) (x : ℤ)
      → hi ≤ zmxkey
      → Between (Has v' h) m lo hi key x
      → Has v (suc h) (pos b) key x
  to_old lo hi key x le (inl (i, p, lt, ek, ex)) =
      (b, zmxkey, m, refl, old, inner.node.count, inl (i, omega arith, ek, ex))
  to_old lo hi key x le (inr (i, p, q, has)) = (
    b,
    zmxkey,
    m,
    refl,
    old,
    inner.node.count,
    inr (i, omega arith, down v v' w h m zmxkey inner agree i key x (omega arith) has),
  )

  pub top-adds :
      (key : Key) (x : ℤ) → Has v' (suc (suc h)) (pos b) key x → Has v (suc h) (pos b) key x
  top-adds key x has = elim (Has-HasKey v' (suc h) b 1 one_key key x root refl has) [
    | inl (i, lt, ek, ex) ↦
        let same = only_key i lt in
        (
          b,
          zmxkey,
          m,
          refl,
          old,
          inner.node.count,
          inl (
            sp,
            omega arith,
            ap (λ (e : KeyEnt). e.key) (sym same) ∙ ek,
            ap (λ (e : KeyEnt). e.val) (sym same) ∙ ex,
          ),
        )
    | inr (i, le, q) ↦ elim (one_link i le) [
      | inl e ↦
          to_old 0 sp key x (omega arith)
            (in_left key x (subst (λ k. Has v' (suc h) (one_key.lnkblk k) key x) e q))
      | inr e ↦
          to_old (sp + 1) zmxkey key x (omega arith)
            (in_right key x (subst (λ k. Has v' (suc h) (one_key.lnkblk k) key x) e q))
    ]
  ]
