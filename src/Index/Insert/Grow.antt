-- ===== src/Index/Insert/Grow.antt =====
-- src-lib/binsky.c: a search tree, after a key was put into the leaf where it belongs.
use btlib.Prelude.{ℕ, zero, suc, ◌<◌, ◌≡◌, ◌≢◌, inl, inr, sym, ap, subst, ◌∙◌, Bool, some, ℤ, pos}
use btlib.Prelude.Keys.{Key}
use btlib.Consts.{zmxkey, znull, znkeys}
use btlib.Machine.{KeyEnt, MemRec}
use btlib.Block.{put_key}
use btlib.Index.Find.Tree.{Blocks, Has, IsTree, IsInner}
use btlib.Index.Find.Gap.{magnitude, same_block}
use btlib.Index.Find.Path.{Leads}
use btlib.Index.Insert.Apart.{In, IsApart, IsSplit, some_keys}
use btlib.Index.Insert.Above.{inner-IsGrown}
use btlib.Index.Insert.Leaf.{IsGrown, leaf-IsGrown}

-- the leaf is a block of the tree
Leads-In :
    (v : Blocks) (w : Bool) (h : ℕ) (link : ℤ) (key : Key) (b : ℕ)
    → IsTree v w h link
    → Leads v h link key b
    → In v h link b
Leads-In v w zero link key b tree leads = absurd leads
Leads-In v w (suc zero) link key b (c, n, m, e, at, inner) leads =
    (c, n, m, e, at, inner.node.count, inl (ap magnitude (sym leads ∙ e)))
Leads-In v w (suc (suc h)) link key b (c', n', m', e', at', inner')
      (c, n, m, g, e, at, count, gap, leads) =
    let (ec, en, em) = same_block v link c' c n' n m' m e' e at' at inner'.node.count count in
    let inner =
      subst (λ y. IsInner v w (suc h) (IsTree v w (suc h)) y n) em
        (subst (λ k. IsInner v w (suc h) (IsTree v w (suc h)) m' k) en inner') in
    (
      c,
      n,
      m,
      e,
      at,
      count,
      inr (
        g,
        gap.inside,
        Leads-In v w (suc h) (m.lnkblk g) key b (inner.children g (some_keys h n inner) gap.inside)
            leads,
      ),
    )

-- the change of the store at the leaf `b`
pub record IsPut (v v' : Blocks) (e : KeyEnt) (b n : ℕ) (m : MemRec) : Type 0 where
  pub old : v b ≡ some m
  pub count : m.infblk znkeys ≡ pos n
  pub room : n < zmxkey
  pub new : v' b ≡ some (put_key e znull znull n m)
  pub others : (c : ℕ) → c ≢ b → v' c ≡ v c
  pub plain : e.dup ≡ znull

-- the key put into its leaf grows the whole tree
pub grow :
    (v v' : Blocks) (w : Bool) (h : ℕ) (link : ℤ) (e : KeyEnt) (b n : ℕ) (m : MemRec)
    → IsTree v w h link
    → IsApart v h link
    → Leads v h link e.key b
    → IsPut v v' e b n m
    → ((y : ℤ) → ¬ (Has v h link e.key y))
    → IsGrown v v' h link e
grow v v' w zero link e b n m tree apart leads put absent = absurd leads
grow v v' w (suc zero) link e b n m (c, k, l, ec, at, inner) apart leads put absent =
    let (_, en, em) =
      same_block v link c b k n l m ec leads at put.old inner.node.count put.count in
    subst (λ j. IsGrown v v' 1 j e) (sym leads)
      (leaf-IsGrown v v' w e b n m put.old
        (subst (λ y. IsInner v w 0 (IsTree v w 0) y n) em
          (subst (λ k. IsInner v w 0 (IsTree v w 0) l k) en inner))
        put.room put.new (λ y has. absent y (subst (λ j. Has v 1 j e.key y) (sym leads) has))
        put.plain)
grow v v' w (suc (suc h)) link e b n m tree (ca, na, ma, ea, aa, counta, split')
      (c, k, l, g, el, at, count, gap, leads) put absent =
    let (ct, nt, mt, et, att, inner') = tree in
    let (_, en, em) = same_block v link ct c nt k mt l et el att at inner'.node.count count in
    let (sc, sn, sm) = same_block v link ca c na k ma l ea el aa at counta count in
    let inner : IsInner v w (suc h) (IsTree v w (suc h)) l k =
      subst (λ y. IsInner v w (suc h) (IsTree v w (suc h)) y k) em
        (subst (λ j. IsInner v w (suc h) (IsTree v w (suc h)) mt j) en inner') in
    let split : IsSplit v (suc h) (IsApart v (suc h)) c k l =
      subst (λ y. IsSplit v (suc h) (IsApart v (suc h)) c k y) sm
        (subst (λ j. IsSplit v (suc h) (IsApart v (suc h)) c j ma) sn
          (subst (λ j. IsSplit v (suc h) (IsApart v (suc h)) j na ma) sc split')) in
    let child = inner.children g (some_keys h k inner) gap.inside in
    let grown =
      grow v v' w (suc h) (l.lnkblk g) e b n m child (split.children g gap.inside) leads put
        (λ y has. absent y (c, k, l, el, at, count, inr (g, gap.inside, has))) in
    subst (λ j. IsGrown v v' (suc (suc h)) j e) (sym el)
      (inner-IsGrown v v' w e h b c k g l at inner split gap put.others
        (Leads-In v w (suc h) (l.lnkblk g) e.key b child leads) grown)
