-- ===== src/Index/Split/Kept.antt =====
-- src-lib/bsptbk.c: what keys and values the tree below the parent of a block that was split has.
use btlib.Prelude.{
  ℕ, suc, ◌+◌, ◌≤◌, ◌<◌, ◌≡◌, ◌≢◌, inl, inr, refl, sym, ap, subst, ◌∙◌, Bool, Bool-cases, some, ℤ,
  pos, ltb, arith,
}
use btlib.Prelude.Keys.{Key}
use btlib.Consts.{zmxkey}
use btlib.Machine.{KeyEnt, MemRec}
use btlib.Block.Part.{IsPart}
use btlib.Index.Split.{sp, sp2}
use btlib.Index.Split.Part.{Between-part, up}
use btlib.Index.Split.Halves.{halves}
use btlib.Index.Split.Opened.{IsOpened}
use btlib.Index.Split.Parent.{key_cases, link_cases, was_below, at_low, at_left, at_right, at_high}
use btlib.Index.Find.Tree.{Blocks, Has, HasKey, IsTree, IsInner}
use btlib.Index.Find.Gap.{Has-HasKey}
use btlib.Index.Insert.Apart.{Agree, Has-Agree}

same_key :
    (a c : KeyEnt) (key : Key) (x : ℤ)
    → a ≡ c
    → (c.key ≡ key) × (c.val ≡ x)
    → (a.key ≡ key) × (a.val ≡ x)
same_key a c key x e (ek, ex) =
    (ap (λ (y : KeyEnt). y.key) e ∙ ek, ap (λ (y : KeyEnt). y.val) e ∙ ex)

stands :
    (below : ℤ → Key → ℤ → Type 0) (m : MemRec) (n i : ℕ) (key : Key) (x : ℤ)
    → i < n
    → ((m.keyblk i).key ≡ key) × ((m.keyblk i).val ≡ x)
    → HasKey below m n key x
stands below m n i key x lt (ek, ex) = inl (i, lt, ek, ex)

module _ (v v' : Blocks) (w : Bool) (h p b nb n g : ℕ) (pm o m l r : MemRec)
    (inner : IsInner v w (suc h) (IsTree v w (suc h)) pm n) (room : n < zmxkey) (gl : g ≤ n)
    (at : v b ≡ some m) (link : pm.lnkblk g ≡ pos b) (child : IsInner v w h (IsTree v w h) m zmxkey)
    (opened : IsOpened (m.keyblk sp) n g nb pm o) (left : v' b ≡ some l) (right : v' nb ≡ some r)
    (left_part : IsPart l m 0 sp) (right_part : IsPart r m (sp + 1) sp2)
    (agree : (i : ℕ) → i ≤ zmxkey → Agree v v' h (m.lnkblk i))
    (others : (i : ℕ) → i ≤ n → i ≢ g → Agree v v' (suc h) (pm.lnkblk i)) where
  -- a key of the old parent, or below one of its links, in the new one
  abbrev Now : Key → ℤ → Type 0
  Now key x = HasKey (Has v' (suc h)) o (suc n) key x

  key_kept :
      (i : ℕ) (key : Key) (x : ℤ)
      → i < n
      → ((pm.keyblk i).key ≡ key) × ((pm.keyblk i).val ≡ x)
      → Now key x
  key_kept i key x lt k = elim (Bool-cases (ltb i g)) [
    | inl f ↦
        stands (Has v' (suc h)) o (suc n) i key x (omega arith)
          (same_key (o.keyblk i) (pm.keyblk i) key x (opened.key_low i (ground (arith, f))) k)
    | inr f ↦ stands (Has v' (suc h)) o (suc n) (suc i) key x (omega arith) (
        same_key (o.keyblk (suc i)) (pm.keyblk i) key x (opened.key_high i (ground (arith, f)) lt)
          k)
  ]

  up_child :
      (key : Key) (x : ℤ) → HasKey (Has v h) m zmxkey key x → HasKey (Has v' h) m zmxkey key x
  up_child key x (inl k) = inl k
  up_child key x (inr (i, le, has)) = inr (i, le, up v v' w h m zmxkey child agree i key x le has)

  gap_kept : (key : Key) (x : ℤ) → Has v (suc h) (pos b) key x → Now key x
  gap_kept key x has =
      elim (halves (Has v' h) m key x
        (up_child key x (Has-HasKey v h b zmxkey m key x at child.node.count has))) [
          | inl k ↦
              stands (Has v' (suc h)) o (suc n) g key x (omega arith)
                (same_key (o.keyblk g) (m.keyblk sp) key x opened.key_here k)
          | inr (inl q) ↦ inr (
            g,
            omega arith,
            subst (λ y. Has v' (suc h) y key x) (sym (opened.link_low g (omega arith) ∙ link))
                (
                  b,
                  sp,
                  l,
                  refl,
                  left,
                  left_part.count,
                  Between-part (Has v' h) l m 0 sp left_part key x q,
                ),
          )
          | inr (inr q) ↦ inr (
            suc g,
            omega arith,
            subst (λ y. Has v' (suc h) y key x) (sym opened.link_new)
                (
                  nb,
                  sp2,
                  r,
                  refl,
                  right,
                  right_part.count,
                  Between-part (Has v' h) r m (sp + 1) sp2 right_part key x q,
                ),
          )
        ]

  below_kept : (i : ℕ) (key : Key) (x : ℤ) → i ≤ n → Has v (suc h) (pm.lnkblk i) key x → Now key x
  below_kept i key x le has = elim (key_cases (suc n) g i (omega arith)) [
    | inl f ↦ inr (
      i,
      omega arith,
      subst (λ y. Has v' (suc h) y key x) (sym (opened.link_low i (omega arith)))
          (Has-Agree v v' (suc h) (pm.lnkblk i) key x (others i le (λ c. omega (arith, c, f))) has),
    )
    | inr (inl f) ↦ gap_kept key x (subst (λ y. Has v (suc h) y key x) (ap pm.lnkblk f ∙ link) has)
    | inr (inr (j, f, a, c)) ↦ inr (
      suc (suc j),
      omega (arith, f, le),
      subst (λ y. Has v' (suc h) y key x)
          (sym (opened.link_high j a (omega (arith, f, le)) ∙ ap pm.lnkblk (sym f)))
          (Has-Agree v v' (suc h) (pm.lnkblk i) key x (others i le (λ d. omega (arith, d, f, a)))
            has),
    )
  ]

  -- The parent has every key that it had,
  pub parent-keeps : (key : Key) (x : ℤ) → HasKey (Has v (suc h)) pm n key x → Now key x
  parent-keeps key x (inl (i, lt, ek, ex)) = key_kept i key x lt (ek, ex)
  parent-keeps key x (inr (i, le, has)) = below_kept i key x le has

  -- and no other.
  pub parent-adds : (key : Key) (x : ℤ) → Now key x → HasKey (Has v (suc h)) pm n key x
  parent-adds key x (inl (i, lt, ek, ex)) = elim (key_cases n g i lt) [
    | inl f ↦
        stands (Has v (suc h)) pm n i key x (omega arith)
          (same_key (pm.keyblk i) (o.keyblk i) key x (sym (opened.key_low i f)) (ek, ex))
    | inr (inl f) ↦ inr (
      g,
      gl,
      (
        b,
        zmxkey,
        m,
        link,
        at,
        child.node.count,
        stands (Has v h) m zmxkey sp key x (omega arith) (
            same_key (m.keyblk sp) (o.keyblk i) key x (sym (ap o.keyblk f ∙ opened.key_here))
              (ek, ex)),
      ),
    )
    | inr (inr (j, f, a, c)) ↦ stands (Has v (suc h)) pm n j key x c (
        same_key (pm.keyblk j) (o.keyblk i) key x (sym (ap o.keyblk f ∙ opened.key_high j a c))
          (ek, ex))
  ]
  parent-adds key x (inr (i, le, has)) = elim (link_cases n g i le gl) [
    | inl f ↦ inr (
      i,
      omega arith,
      at_low v v' w h p b nb n g pm o m l r inner room gl at link child opened left right left_part
          right_part agree others i key x f has,
    )
    | inr (inl f) ↦ inr (
      g,
      gl,
      was_below v v' w h p b nb n g pm o m l r inner room gl at link child opened left right
          left_part right_part agree others 0 sp key x (omega arith)
          (at_left v v' w h p b nb n g pm o m l r inner room gl at link child opened left right
            left_part right_part agree others i key x f has),
    )
    | inr (inr (inl f)) ↦ inr (
      g,
      gl,
      was_below v v' w h p b nb n g pm o m l r inner room gl at link child opened left right
          left_part right_part agree others (sp + 1) zmxkey key x (omega arith)
          (at_right v v' w h p b nb n g pm o m l r inner room gl at link child opened left right
            left_part right_part agree others i key x f has),
    )
    | inr (inr (inr (j, f, a, c))) ↦ inr (
      suc j,
      omega arith,
      at_high v v' w h p b nb n g pm o m l r inner room gl at link child opened left right left_part
          right_part agree others i j key x f a c has,
    )
  ]
