-- ===== src/Index/Split/Parent.antt =====
-- src-lib/bsptbk.c: the search tree below the parent of a block that was split.
use btlib.Prelude.{
  ℕ, zero, suc, ◌+◌, ◌-◌, ◌≤◌, ◌<◌, ◌≡◌, ◌≢◌, ◌⊎◌, inl, inr, refl, sym, ap, subst, ◌∙◌, Bool, false,
  Bool-cases, some, ℤ, pos, ◌==◌, ==_iff, ltb, arith,
}
use btlib.Prelude.Keys.{Key, ◌≺◌, ≺_trans}
use btlib.Consts.{zmxkey, znull}
use btlib.Machine.{KeyEnt, MemRec}
use btlib.Block.Part.{IsPart}
use btlib.Index.Split.{sp, sp2}
use btlib.Index.Split.Part.{
  Between, part-Between, down, Between-after, Between-before, part-IsInner,
}
use btlib.Index.Split.Opened.{IsOpened}
use btlib.Index.Find.Tree.{Blocks, Has, IsTree, IsInner}
use btlib.Index.Find.Gap.{Has-HasKey}
use btlib.Index.Insert.Apart.{
  Agree, some_keys, Has-Agree, Agree-sym_child, IsTree-Agree, full_allowed,
}

-- the links of the new parent: one before the gap, the two at it, or one behind it
pub link_cases :
    (n g i : ℕ)
    → i ≤ suc n
    → g ≤ n
    → (i < g) ⊎ ((i ≡ g) ⊎ ((i ≡ suc g) ⊎ ((j : ℕ) × (i ≡ suc (suc j)) × (g ≤ j) × (j < n))))
link_cases n g i le gl = elim (Bool-cases (ltb i g)) [
  | inl f ↦ inl (ground (arith, f))
  | inr f ↦ elim (Bool-cases (i == g)) [
    | inl e ↦ inr (inl ((==_iff i g).0 e))
    | inr e ↦ elim (Bool-cases (i == suc g)) [
      | inl k ↦ inr (inr (inl ((==_iff i (suc g)).0 k)))
      | inr k ↦
          let big : suc (suc g) ≤ i = ground (arith, f, e, k) in
          inr (inr (inr (i - 2, omega (arith, big), omega (arith, big), omega (arith, big, le))))
    ]
  ]
]

pub key_cases :
    (n g i : ℕ) → i < suc n → (i < g) ⊎ ((i ≡ g) ⊎ ((j : ℕ) × (i ≡ suc j) × (g ≤ j) × (j < n)))
key_cases n g i lt = elim (Bool-cases (ltb i g)) [
  | inl f ↦ inl (ground (arith, f))
  | inr f ↦ elim (Bool-cases (i == g)) [
    | inl e ↦ inr (inl ((==_iff i g).0 e))
    | inr e ↦
        let big : suc g ≤ i = ground (arith, f, e) in
        inr (inr (i - 1, omega (arith, big), omega (arith, big), omega (arith, big, lt)))
  ]
]

-- What stands below a link lies between its neighbours, and so between all keys.
module _ (o : MemRec) (n : ℕ) (below : ℕ → Key → Type 0)
    (ordered : (i j : ℕ) → i < j → j < n → (o.keyblk i).key ≺ (o.keyblk j).key)
    (lower : (i : ℕ) (key : Key) → suc i ≤ n → below (suc i) key → (o.keyblk i).key ≺ key)
    (upper : (i : ℕ) (key : Key) → i < n → below i key → key ≺ (o.keyblk i).key) where
  all_lower : (i j : ℕ) (key : Key) → i ≤ n → below i key → j < i → (o.keyblk j).key ≺ key
  all_lower (suc i) j key le b lt = elim (Bool-cases (j == i)) [
    | inl e ↦ subst (λ k. (o.keyblk k).key ≺ key) (sym ((==_iff j i).0 e)) (lower i key le b)
    | inr e ↦
        ≺_trans (o.keyblk j).key (o.keyblk i).key key
          (ordered j i (ground (arith, e, lt)) (omega arith)) (lower i key le b)
  ]
  all_lower zero j key le b lt = absurd (omega arith)

  all_upper : (i j : ℕ) (key : Key) → below i key → i ≤ j → j < n → key ≺ (o.keyblk j).key
  all_upper i j key b le lt = elim (Bool-cases (i == j)) [
    | inl e ↦ subst (λ k. key ≺ (o.keyblk k).key) ((==_iff i j).0 e) (upper i key (omega arith) b)
    | inr e ↦
        ≺_trans key (o.keyblk i).key (o.keyblk j).key (upper i key (omega arith) b)
          (ordered i j (ground (arith, e, le)) lt)
  ]

module _ (v v' : Blocks) (w : Bool) (h p b nb n g : ℕ) (pm o m l r : MemRec)
    (inner : IsInner v w (suc h) (IsTree v w (suc h)) pm n) (room : n < zmxkey) (gl : g ≤ n)
    (at : v b ≡ some m) (link : pm.lnkblk g ≡ pos b) (child : IsInner v w h (IsTree v w h) m zmxkey)
    (opened : IsOpened (m.keyblk sp) n g nb pm o) (left : v' b ≡ some l) (right : v' nb ≡ some r)
    (left_part : IsPart l m 0 sp) (right_part : IsPart r m (sp + 1) sp2)
    (agree : (i : ℕ) → i ≤ zmxkey → Agree v v' h (m.lnkblk i))
    (others : (i : ℕ) → i ≤ n → i ≢ g → Agree v v' (suc h) (pm.lnkblk i)) where
  -- what is below a link that is not at the gap
  same_below :
      (i : ℕ) (key : Key) (x : ℤ)
      → i ≤ n
      → i ≢ g
      → Has v' (suc h) (pm.lnkblk i) key x
      → Has v (suc h) (pm.lnkblk i) key x
  same_below i key x le ne =
      Has-Agree v' v (suc h) (pm.lnkblk i) key x
        (Agree-sym_child v v' w (suc h) n pm i inner le (others i le ne))

  in_left : (key : Key) (x : ℤ) → Has v' (suc h) (pos b) key x → Between (Has v' h) m 0 sp key x
  in_left key x has =
      part-Between (Has v' h) l m 0 sp left_part key x
        (Has-HasKey v' h b sp l key x left left_part.count has)

  in_right :
      (key : Key) (x : ℤ)
      → Has v' (suc h) (pos nb) key x
      → Between (Has v' h) m (sp + 1) zmxkey key x
  in_right key x has =
      part-Between (Has v' h) r m (sp + 1) sp2 right_part key x
        (Has-HasKey v' h nb sp2 r key x right right_part.count has)

  -- what is in one of the halves was below the link at the gap
  pub was_below :
      (lo hi : ℕ) (key : Key) (x : ℤ)
      → hi ≤ zmxkey
      → Between (Has v' h) m lo hi key x
      → Has v (suc h) (pm.lnkblk g) key x
  was_below lo hi key x le (inl (i, a, lt, ek, ex)) =
      (b, zmxkey, m, link, at, child.node.count, inl (i, omega arith, ek, ex))
  was_below lo hi key x le (inr (i, a, q, has)) = (
    b,
    zmxkey,
    m,
    link,
    at,
    child.node.count,
    inr (i, omega arith, down v v' w h m zmxkey child agree i key x (omega arith) has),
  )

  pub at_low :
      (i : ℕ) (key : Key) (x : ℤ)
      → i < g
      → Has v' (suc h) (o.lnkblk i) key x
      → Has v (suc h) (pm.lnkblk i) key x
  at_low i key x lt has =
      same_below i key x (omega arith) (λ c. omega (arith, c, lt))
        (subst (λ y. Has v' (suc h) y key x) (opened.link_low i (omega arith)) has)

  pub at_left :
      (i : ℕ) (key : Key) (x : ℤ)
      → i ≡ g
      → Has v' (suc h) (o.lnkblk i) key x
      → Between (Has v' h) m 0 sp key x
  at_left i key x e has = in_left key x (
      subst (λ y. Has v' (suc h) y key x) (ap o.lnkblk e ∙ opened.link_low g (omega arith) ∙ link)
        has)

  pub at_right :
      (i : ℕ) (key : Key) (x : ℤ)
      → i ≡ suc g
      → Has v' (suc h) (o.lnkblk i) key x
      → Between (Has v' h) m (sp + 1) zmxkey key x
  at_right i key x e has =
      in_right key x (subst (λ y. Has v' (suc h) y key x) (ap o.lnkblk e ∙ opened.link_new) has)

  pub at_high :
      (i j : ℕ) (key : Key) (x : ℤ)
      → i ≡ suc (suc j)
      → g ≤ j
      → j < n
      → Has v' (suc h) (o.lnkblk i) key x
      → Has v (suc h) (pm.lnkblk (suc j)) key x
  at_high i j key x e le lt has =
      same_below (suc j) key x (omega arith) (λ c. omega (arith, c, le))
        (subst (λ y. Has v' (suc h) y key x) (ap o.lnkblk e ∙ opened.link_high j le lt) has)

  -- what is below a link of the new parent
  abbrev Below : ℕ → Key → Type 0
  Below i key = (x : ℤ) × Has v' (suc h) (o.lnkblk i) key x

  parent_lower : (i : ℕ) (key : Key) → suc i ≤ suc n → Below (suc i) key → (o.keyblk i).key ≺ key
  parent_lower i key le (x, has) = elim (link_cases n g (suc i) le gl) [
    | inl f ↦
        subst (λ (e : KeyEnt). e.key ≺ key) (sym (opened.key_low i (omega arith)))
          (inner.after (suc i) i key x (omega arith) (at_low (suc i) key x f has) (omega arith))
    | inr (inl f) ↦
        subst (λ (e : KeyEnt). e.key ≺ key) (sym (opened.key_low i (omega (arith, f))))
          (inner.after g i key x gl
            (was_below 0 sp key x (omega arith) (at_left (suc i) key x f has)) (omega (arith, f)))
    | inr (inr (inl f)) ↦
        subst (λ (e : KeyEnt). e.key ≺ key) (sym (ap o.keyblk (omega (arith, f)) ∙ opened.key_here))
          (Between-after v v' w h m zmxkey child agree (sp + 1) sp key x
            (at_right (suc i) key x f has) (omega arith))
    | inr (inr (inr (j, f, a, c))) ↦
        subst (λ (e : KeyEnt). e.key ≺ key)
          (sym (ap o.keyblk (omega (arith, f)) ∙ opened.key_high j a c))
          (inner.after (suc j) j key x (omega arith) (at_high (suc i) j key x f a c has)
            (omega arith))
  ]

  parent_upper : (i : ℕ) (key : Key) → i < suc n → Below i key → key ≺ (o.keyblk i).key
  parent_upper i key lt (x, has) = elim (link_cases n g i (omega arith) gl) [
    | inl f ↦
        subst (λ (e : KeyEnt). key ≺ e.key) (sym (opened.key_low i f))
          (inner.before i i key x (omega arith) (at_low i key x f has) (omega arith) (omega arith))
    | inr (inl f) ↦
        subst (λ (e : KeyEnt). key ≺ e.key) (sym (ap o.keyblk f ∙ opened.key_here))
          (Between-before v v' w h m zmxkey child agree 0 sp sp key x (at_left i key x f has)
            (omega arith) (omega arith))
    | inr (inr (inl f)) ↦
        subst (λ (e : KeyEnt). key ≺ e.key)
          (sym (ap o.keyblk f ∙ opened.key_high g (omega arith) (omega (arith, f, lt))))
          (inner.before g g key x gl
            (was_below (sp + 1) zmxkey key x (omega arith) (at_right i key x f has)) (omega arith)
            (omega (arith, f, lt)))
    | inr (inr (inr (j, f, a, c))) ↦
        subst (λ (e : KeyEnt). key ≺ e.key)
          (sym (ap o.keyblk f ∙ opened.key_high (suc j) (omega arith) (omega (arith, f, lt))))
          (inner.before (suc j) (suc j) key x (omega arith) (at_high i j key x f a c has)
            (omega arith) (omega (arith, f, lt)))
  ]

  part_tree :
      (c off k : ℕ) (part : MemRec)
      → v' c ≡ some part
      → IsPart part m off k
      → off + k ≤ zmxkey
      → 0 < k
      → IsTree v' false (suc h) (pos c)
  part_tree c off k part stored is_part fits some_key = (
    c,
    k,
    part,
    refl,
    stored,
    part-IsInner v v' w h m zmxkey child agree part off k is_part fits some_key,
  )

  old_tree : (i : ℕ) → i ≤ n → i ≢ g → IsTree v' false (suc h) (pm.lnkblk i)
  old_tree i le ne =
      IsTree-Agree v v' w (suc h) (pm.lnkblk i) (inner.children i (some_keys h n inner) le)
        (others i le ne)

  parent_child : (i : ℕ) → i ≤ suc n → IsTree v' false (suc h) (o.lnkblk i)
  parent_child i le = elim (link_cases n g i le gl) [
    | inl f ↦
        subst (IsTree v' false (suc h)) (sym (opened.link_low i (omega arith)))
          (old_tree i (omega arith) (λ c. omega (arith, c, f)))
    | inr (inl f) ↦
        subst (IsTree v' false (suc h))
          (sym (ap o.lnkblk f ∙ opened.link_low g (omega arith) ∙ link))
          (part_tree b 0 sp l left left_part (omega arith) (omega arith))
    | inr (inr (inl f)) ↦
        subst (IsTree v' false (suc h)) (sym (ap o.lnkblk f ∙ opened.link_new))
          (part_tree nb (sp + 1) sp2 r right right_part (omega arith) (omega arith))
    | inr (inr (inr (j, f, a, c))) ↦
        subst (IsTree v' false (suc h)) (sym (ap o.lnkblk f ∙ opened.link_high j a c))
          (old_tree (suc j) (omega arith) (λ e. omega (arith, e, a)))
  ]

  parent_single : (i : ℕ) → i < suc n → (o.keyblk i).dup ≡ znull
  parent_single i lt = elim (key_cases n g i lt) [
    | inl f ↦ ap (λ (e : KeyEnt). e.dup) (opened.key_low i f) ∙ inner.single i (omega arith)
    | inr (inl f) ↦
        ap (λ (e : KeyEnt). e.dup) (ap o.keyblk f ∙ opened.key_here) ∙ child.single sp (omega arith)
    | inr (inr (j, f, a, c)) ↦
        ap (λ (e : KeyEnt). e.dup) (ap o.keyblk f ∙ opened.key_high j a c) ∙ inner.single j c
  ]

  pub parent-IsInner : IsInner v' false (suc h) (IsTree v' false (suc h)) o (suc n)
  parent-IsInner = record {
    node = record { count = opened.count; fits = omega arith; ordered = opened.ordered };
    single = parent_single;
    room = full_allowed (suc n == zmxkey);
    empty_leaf = λ e. absurd (omega (arith, e));
    children = λ i lt le. parent_child i le;
    after = λ i j key x le has lt.
        all_lower o (suc n) Below opened.ordered parent_lower parent_upper i j key le (x, has) lt;
    before = λ i j key x le has le' lt.
        all_upper o (suc n) Below opened.ordered parent_lower parent_upper i j key (x, has) le' lt;
  }
