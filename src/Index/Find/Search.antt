-- ===== src/Index/Find/Search.antt =====
-- src-lib/bfndky.c: in a search tree `bfndky` finds the keys of the tree, and no other.
use Prim.Native.Nat.{Ordering}
use btlib.Prelude.{
  ℕ, zero, suc, ◌+◌, ◌*◌, ◌≤◌, ◌<◌, ◌≡◌, ◌⊎◌, inl, inr, refl, ap, subst, ◌∙◌, Bool, true, false,
  ◌&&◌, some, ℤ, pos, negsuc, inc, ◌==◌, ◌==ℤ◌, arith,
}
use btlib.Prelude.Keys.{Key}
use btlib.Consts.{zmxkey, znull, znkeys, stkmax}
use btlib.Machine.{State, Lf, MemRec, M, ok, pure, ◌>>=◌, ◌>>◌, set_lf}
use btlib.Machine.Returns
use btlib.Machine.Returns.{Returns, returns, outcome}
use btlib.Info.{bgtinf}
use btlib.Info.Words.{bgtinf-info_word}
use btlib.Block.{Probe}
use btlib.Block.Search.{Located}
use btlib.Block.Stored.{reported}
use btlib.Dups.{DupStore, next, btduppos}
use btlib.Index.Find.{search_down, visit, val_of}
use btlib.Index.Find.Tree.{Blocks, Has, HasKey, IsTree, IsInner}
use btlib.Index.Find.Gap.{IsGap, lt-IsGap, gt-IsGap, below_gap, Has-HasKey, empty_block}
use btlib.Index.Find.Path.{Ends, Stands, Ends-below, Ends-empty}
use btlib.Index.Find.Step.{
  IsReady, visit-Visited, Unchanged-IsReady, context-IsReady, no_duplicates,
}

-- A search for `key` below `link` found its value, or the key is not there.
abbrev pub Decided : Blocks → ℕ → ℤ → Key → Bool × ℤ → Type 0
Decided v h link key (found, x) =
    ((found ≡ true) × Has v h link key x) ⊎ ((found ≡ false) × ((y : ℤ) → ¬ (Has v h link key y)))

abbrev pub Answered : State → Blocks → Bool → ℕ → ℤ → Key → Lf → Bool × ℤ → State → Type 0
Answered o v w h link key f r u =
    Decided v h link key r
    × (dep : ℕ) × IsReady o v w dep u
    × (r.0 ≡ false → Ends v h link key f u.lf)
    × (r.0 ≡ true → Stands v h link key u.lf)

module _ (d : DupStore) (fuel : ℕ) (o : State) where
  -- what follows the search of a block
  go_on : ℕ → Probe → M (Bool × ℤ)
  go_on k p' = elim p'.result [
    | Ordering.lt ↦ search_down d fuel k p'.link1 p'
    | Ordering.gt ↦ do
      set_lf λ f. record f { lfpos = inc f.lfpos }
      search_down d fuel k p'.link2 p'
    | Ordering.eq ↦ do
      set_lf λ f. record f { lfexct = true }
      r ← btduppos d fuel next
      pure (true, val_of p'.val r)
  ]

  null_step :
      (k : ℕ) (p : Probe) (s : State) → search_down d fuel (suc k) znull p s ≡ ok (false, p.val) s
  unfolding search_down
  null_step k p s = ground arith

  down_step :
      (k b n : ℕ) (p : Probe) (s t : State)
      → bgtinf (pos b) (pos znkeys) s ≡ ok (pos n) t
      → ((n == zmxkey) && (t.super.smode ==ℤ pos 0)) ≡ false
      → search_down d fuel (suc k) (pos b) p s ≡ (visit (pos b) p >>= go_on k) t
  unfolding search_down go_on
  down_step k b n p s t run h = ground (arith, run, h)

  module _ (v : Blocks) (w : Bool) (h b n : ℕ) (m : MemRec) (at : v b ≡ some m)
      (inner : IsInner v w h (IsTree v w h) m n) where
    here : (key : Key) (x : ℤ) → HasKey (Has v h) m n key x → Has v (suc h) (pos b) key x
    here key x k = (b, n, m, refl, at, inner.node.count, k)

    -- what is decided below the gap is decided
    Decided-below :
        (g : ℕ) (key : Key) (r : Bool × ℤ)
        → IsGap m n g key
        → Decided v h (m.lnkblk g) key r
        → Decided v (suc h) (pos b) key r
    Decided-below g key (found, x) gap (inl (e, has)) =
        inl (e, here key x (inr (g, gap.inside, has)))
    Decided-below g key (found, x) gap (inr (e, none_below)) = inr (
      e,
      λ y has. none_below y (
          below_gap v w h m n g key inner gap y
            (Has-HasKey v h b n m key y at inner.node.count has)),
    )

    Answered-below :
        (start : Lf) (k g : ℕ) (q : Probe) (u : State)
        → IsGap m n g q.key
        → u.lf.lfblk ≡ pos b
        → u.lf.lfpos ≡ pos g
        → Returns (Answered o v w h (m.lnkblk g) q.key u.lf) (search_down d fuel k (m.lnkblk g) q u)
        → Returns
            (Answered o v w (suc h) (pos b) q.key start)
            (search_down d fuel k (m.lnkblk g) q u)
    Answered-below start k g q u gap blk position r =
        Returns.mono r λ a t (dec, dep, ready, ends, stands). (
          Decided-below g q.key a gap dec,
          dep,
          ready,
          λ e.
              Ends-below v h b n g m q.key start u.lf t.lf at inner.node.count gap blk position
                (ends e),
          λ e. (b, n, m, refl, at, inner.node.count, inr (g, gap.inside, stands e)),
        )

    -- The search goes on below every link of the block.
    abbrev GoesOn : ℕ → ℕ → Type 0
    GoesOn k dep =
        (i : ℕ) (q : Probe) (u : State)
        → 0 < n
        → i ≤ n
        → IsReady o v w dep u
        → Returns (Answered o v w h (m.lnkblk i) q.key u.lf) (search_down d fuel k (m.lnkblk i) q u)

    empty_none : (key : Key) → n ≡ 0 → (y : ℤ) → ¬ (Has v (suc h) (pos b) key y)
    empty_none key e y has =
        empty_block v w h m key y (subst (IsInner v w h (IsTree v w h) m) e inner) (
          subst (λ i. HasKey (Has v h) m i key y) e
            (Has-HasKey v h b n m key y at inner.node.count has))

    go_on-Answered :
        (start : Lf) (k dep : ℕ) (p : Probe) (u : State) (loc : ℤ) (r : Ordering)
        → GoesOn (suc k) dep
        → IsReady o v w dep u
        → u.lf.lfblk ≡ pos b
        → u.lf.lfpos ≡ loc
        → Located m.keyblk n p.key loc r
        → Returns
            (Answered o v w (suc h) (pos b) p.key start)
            (go_on (suc k) (reported m p loc r) u)
    unfolding go_on
    go_on-Answered start k dep p u (negsuc l) Ordering.eq on ready blk position located =
        absurd (ground (arith, located.1))
    go_on-Answered start k dep p u (negsuc l) Ordering.gt on ready blk position located =
        absurd (ground (arith, located.1))
    go_on-Answered start k dep p u (negsuc l) Ordering.lt on ready blk position located =
        rw (null_step k (reported m p (negsuc l) Ordering.lt) u) (
          returns (
            inr (refl, empty_none p.key located.0),
            dep,
            ready,
            λ _.
                Ends-empty v h b n m p.key start u.lf at inner.node.count located.0
                  (inner.empty_leaf located.0) blk,
            λ e. absurd (ground (arith, e)),
          ))
    go_on-Answered start k dep p u (pos l) Ordering.lt on ready blk position located =
        let gap = lt-IsGap m n l p.key inner.node.ordered located in
        Answered-below start (suc k) l (reported m p (pos l) Ordering.lt) u gap blk position
          (on l _ u (omega (arith, located.0)) gap.inside ready)
    go_on-Answered start k dep p u (pos l) Ordering.gt on ready blk position located =
        let gap = gt-IsGap m n l p.key inner.node.ordered located in
        let f : Lf = record u.lf { lfpos = inc u.lf.lfpos } in
        let t : State = record u { lf = f } in
        Answered-below start (suc k) (suc l) (reported m p (pos l) Ordering.gt) t gap blk
          (ap inc position)
          (on (suc l) _ t (omega (arith, located.0)) gap.inside
            (context-IsReady dep u f u.stk u.keyent ready ready.depth ready.idle))
    go_on-Answered start k dep p u (pos l) Ordering.eq on ready blk position located =
        let f : Lf = record u.lf { lfexct = true } in
        let t : State = record u { lf = f } in
        Returns.bind
          (no_duplicates d fuel b l m t
            (context-IsReady dep u f u.stk u.keyent ready ready.depth ready.idle) at
            (omega (arith, located.0, inner.node.fits)) (inner.single l located.0) refl blk
            position)
          λ a y (e, ready', lf). rw e (
            returns (
              inl (refl, here p.key (m.keyblk l).val (inl (l, located.0, located.1, refl))),
              dep,
              ready',
              λ e'. absurd (ground (arith, e')),
              λ _. (
                b,
                n,
                m,
                refl,
                at,
                inner.node.count,
                inl (
                  l,
                  located.0,
                  located.1,
                  ap (λ (c : Lf). c.lfblk) lf ∙ blk,
                  ap (λ (c : Lf). c.lfpos) lf ∙ position,
                  ap (λ (c : Lf). c.lfexct) lf,
                ),
              ),
            ))

  -- the search below a link of a search tree
  pub search_down-Answered :
      (v : Blocks) (w : Bool) (h k dep : ℕ) (link : ℤ) (p : Probe) (s : State)
      → IsReady o v w dep s
      → IsTree v w h link
      → dep + 2 * h ≤ stkmax
      → h < k
      → Returns (Answered o v w h link p.key s.lf) (search_down d fuel k link p s)
  search_down-Answered v w h zero dep link p s r tree fits f = absurd (omega arith)
  search_down-Answered v w zero (suc k) dep link p s r tree fits f =
      rw (tree, null_step k p s)
        (returns (inr (refl, λ y has. has), dep, r, λ _. refl, λ e. absurd (ground (arith, e))))
  search_down-Answered v w (suc h) (suc zero) dep link p s r tree fits f = absurd (omega arith)
  search_down-Answered v w (suc h) (suc (suc k)) dep link p s r (b, n, m, eb, at, inner) fits f =
      let (got, t, run, (e, un)) = outcome (
        bgtinf-info_word s b m (pos znkeys) (pos n) r.cache (r.stored b ∙ at) refl
          (ap some inner.node.count)) in
      let r' = Unchanged-IsReady r un in
      rw
        (
          eb,
          down_step (suc k) b n p s t (run ∙ ap (λ x. ok x t) e)
              (ap (λ x. (n == zmxkey) && x) r'.mode ∙ inner.room),
        )
        (Returns.bind (visit-Visited dep b n m p t r' (omega arith) at inner.node) λ q u vis.
          rw vis.answer (
            go_on-Answered v w h b n m at inner s.lf k (suc (suc dep)) (record p { loc = negsuc 0 })
              u vis.loc vis.order
              (λ i q' u' some_key le ready.
                search_down-Answered v w h (suc k) (suc (suc dep)) (m.lnkblk i) q' u' ready
                  (inner.children i some_key le) (omega arith) (omega arith))
              vis.ready vis.block vis.position vis.located))
