-- ===== src/Index/Walk/Next.antt =====
-- src-lib/bnxtky.c: what `bnxtky` returns in the walk through a root that is a leaf.
use btlib.Prelude.{
  ℕ, zero, suc, ◌≤◌, ◌<◌, ◌≡◌, ◌⊎◌, inl, inr, refl, sym, ap, subst, ◌∙◌, true, false, Option, none,
  some, [], ℤ, pos, dec, arith,
}
use btlib.Prelude.Keys.{Key}
use btlib.Consts.{znull, znkeys}
use btlib.Consts.Codes.{qnokey}
use btlib.Machine.{State, Lf, and_then, MemRec, no_arg, ok}
use btlib.Machine.Returns
use btlib.Machine.Returns.{Returns, returns, outcome}
use btlib.Error.{bterr, bterr_clear, btgerr, keep_arg}
use btlib.Index.Insert.Duplicate.{cleared}
use btlib.Stack.Laws.{bpull-ok}
use btlib.Cache.{brdblk}
use btlib.Cache.View.{view, IsCache, rest-IsCache, rest-view}
use btlib.Cache.Read.{Loaded, brdblk-Loaded}
use btlib.Info.{bgtinf}
use btlib.Block.{copy_key}
use btlib.Block.Stored.{IsNode}
use btlib.Lock.{unlock, locked, bvalap}
use btlib.Dups.{DupStore, no_dup, next, btduppos}
use btlib.Index.Leaf.Still.{bgtinf-keys, bleaf-Loaded, Loaded-trans}
use btlib.Index.Find.{bclrlf}
use btlib.Index.Find.Step.{getkeyent-step, duppos-step}
use btlib.Index.Walk.{
  Step, bnxtky, next_loop, next_round, advance, next_key, pull_context, reposition,
}
use btlib.Index.Walk.Leaf.{
  IsWalking, IsBefore, moved, read-IsWalking, moved-IsWalking, arrive, behind, taken, round-start,
  advance-first, advance-on, arrive-end, arrive-key,
}

-- At a key without duplicates, or before all keys, there is no duplicate to go to.
pub duppos-off :
    (d : DupStore) (fuel : ℕ) (s : State)
    → s.lf.draddr ≡ znull
    → s.lf.lfexct ≡ false
    → btduppos d fuel next s ≡ ok no_dup s
unfolding btduppos
duppos-off d fuel s idle off = ground (arith, idle, off)

-- the key at `i` with its value
abbrev pub entry_at : MemRec → ℕ → Key × ℤ
entry_at m i = (copy_key (m.keyblk i).key, (m.keyblk i).val)

-- the context is at the key at `i` of the block
abbrev pub IsAt : State → ℕ → ℕ → State → Type 0
IsAt o b i u = IsWalking o b u × (u.lf.lfexct ≡ true) × (u.lf.lfpos ≡ pos i)

-- what a walk leaves at its end
abbrev pub IsLeft : State → State → Type 0
IsLeft o u =
    IsCache u
    × ((c : ℕ) → view u c ≡ view o c)
    × (u.shared ≡ false)
    × (u.err.qerror ≡ 0)
    × (u.lf.lfblk ≡ znull)

module _ (d : DupStore) (fuel b n : ℕ) (m : MemRec) (o : State) (at : view o b ≡ some m)
    (node : IsNode m n) (single : (i : ℕ) → i < n → (m.keyblk i).dup ≡ znull)
    (leaf : (i : ℕ) → 0 < n → i ≤ n → m.lnkblk i ≡ znull) (enough : 0 < fuel) where
  pub duppos-IsWalking :
      (p : ℕ) (s : State)
      → IsWalking o b s
      → s.lf.lfexct ≡ true
      → s.lf.lfpos ≡ pos p
      → p < n
      → Returns (λ r t. (r ≡ no_dup) × IsWalking o b t × (t.lf ≡ s.lf)) (btduppos d fuel next s)
  duppos-IsWalking p s w exact place lt =
      let (_, t, run, (j, e, l)) = outcome (brdblk-Loaded s b m w.cache (w.stored b ∙ at)) in
      rw
        (duppos-step d fuel b p ((t.memrec j).keyblk p) s t w.idle exact w.block place
          (getkeyent-step b p j s t (omega (arith, lt, node.fits)) (run ∙ ap (λ x. ok x t) e))
          (ap (λ (x : MemRec). (x.keyblk p).dup) l.content ∙ single p lt))
        (returns (refl, read-IsWalking w l, ap (λ (y : State). y.lf) l.context))

  -- the context at position `i` of the leaf, which is in slot `j`
  abbrev At : ℕ → Option ℕ → State → Type 0
  At i r u =
      (j : ℕ) × (r ≡ some j)
      × IsWalking o b u
      × (u.lf.lfexct ≡ true)
      × (u.lf.lfpos ≡ pos i)
      × (u.memrec j ≡ m)

  advance-At :
      (i j : ℕ) (s t : State)
      → IsWalking o b t
      → Loaded s t b j m
      → IsBefore i t.lf
      → i ≤ n
      → Returns (At i) (advance d fuel j t)
  advance-At i j s t w l (inl (off, place)) le =
      let f : Lf = record t.lf { lfexct = true } in
      rw (advance-first d fuel j t off)
        (returns (j, refl, moved-IsWalking t f w w.idle w.block, refl, place, l.content))
  advance-At i j s t w l (inr (p, e, exact, place)) le =
      let t' : State = moved t (behind p t.lf) in
      let w' : IsWalking o b t' = moved-IsWalking t t'.lf w refl w.block in
      rw (advance-on d fuel j p t exact place) (
        Returns.mono
          (bleaf-Loaded fuel 0 b n m t' w'.cache (w'.stored b ∙ at) node leaf w.block
            (inr (suc p, refl, omega (arith, e, le))) enough)
          λ r u (j', e', l'). (
            j',
            e',
            read-IsWalking w' l',
            ap (λ (y : State). y.lf.lfexct) l'.context ∙ exact,
            ap (λ (y : State). y.lf.lfpos) l'.context ∙ ap pos (sym e),
            l'.content,
          ))

  -- the context before the key at `i` is at a position of the leaf
  place_of :
      (i : ℕ) (f : Lf) → IsBefore i f → i ≤ n → (p : ℕ) × (f.lfpos ≡ pos p) × ((p < n) ⊎ (p ≡ i))
  place_of i f (inl (_, place)) le = (i, place, inr refl)
  place_of i f (inr (p, e, _, place)) le = (p, place, inl (omega (arith, e, le)))

  -- a round up to the position behind the last one
  round-At :
      (i p : ℕ) (s : State)
      → IsWalking o b s
      → IsBefore i s.lf
      → s.lf.lfpos ≡ pos p
      → p < n
      → i ≤ n
      → (r : Option ℕ) × (t : State) × (next_round d fuel s ≡ arrive d fuel n r t) × At i r t
  round-At i p s w before place lt le =
      let (_, t, run, (j, e, l)) = outcome (brdblk-Loaded s b m w.cache (w.stored b ∙ at)) in
      let (_, u, run', (e', l')) = outcome (bgtinf-keys s t b n j m l node.count) in
      let same : t.lf ≡ s.lf = ap (λ (y : State). y.lf) l.context in
      let same' : u.lf ≡ s.lf = ap (λ (y : State). y.lf) l'.context ∙ same in
      let (r, v, run'', here) = outcome (
        advance-At i j s u (read-IsWalking (read-IsWalking w l) l') (Loaded-trans l l')
          (subst (IsBefore i) (sym same') before) le) in
      (
        r,
        v,
        round-start d fuel b j n p s t u w.block place (run ∙ ap (λ x. ok x t) e) same
              (run' ∙ ap (λ k. ok k u) e') lt
            ∙ ap (λ x. and_then x (arrive d fuel n)) run'',
        here,
      )

  -- what a round yields at a key
  pub round-key :
      (i : ℕ) (s : State)
      → IsWalking o b s
      → IsBefore i s.lf
      → i < n
      → Returns (λ r u. (r ≡ (true, some (entry_at m i))) × IsAt o b i u) (next_round d fuel s)
  round-key i s w before lt =
      let (p, place, side) = place_of i s.lf before (omega (arith, lt)) in
      let inside : p < n = elim side [ inl q ↦ q | inr e ↦ ground (arith, e, lt) ] in
      let (r, t, run, (j, e, w', exact, here, content)) =
        round-At i p s w before place inside (omega (arith, lt)) in
      let u : State = taken t (m.keyblk i) in
      let (_, v, run', (e', w'', same)) =
        outcome (duppos-IsWalking i u (moved-IsWalking t u.lf w' w'.idle w'.block) exact here lt) in
      rw
        (
          run,
          e,
          arrive-key d fuel n j i m t v here lt (omega (arith, lt, node.fits)) content
              (run' ∙ ap (λ x. ok x v) e'),
        )
        (returns (
          refl,
          (w'', ap (λ (f : Lf). f.lfexct) same ∙ exact, ap (λ (f : Lf). f.lfpos) same ∙ here),
        ))

  -- At the last key a round moves the context behind it.
  pub round-behind :
      (p : ℕ) (s : State)
      → IsAt o b p s
      → n ≡ suc p
      → Returns (λ r u. (r ≡ (false, none)) × IsAt o b n u) (next_round d fuel s)
  round-behind p s (w, exact, place) last =
      let (r, t, run, (j, e, w', exact', here, content)) =
        round-At n p s w (inr (p, last, exact, place)) place (omega (arith, last)) (omega arith) in
      rw (run, e, arrive-end d fuel n j n t here (omega arith)) (returns (refl, (w', exact', here)))

  -- the stack of a walk holds two null links
  abbrev left : State → State
  left s = record s {
    lf = record s.lf { lfpos = znull; lfblk = znull; lfexct = false };
    stk = record s.stk { stkptr = dec (pos 0) };
  }

  pull-bottom : (s : State) → IsWalking o b s → pull_context (λ p. p) s ≡ ok tt (left s)
  unfolding pull_context
  pull-bottom s w = ground (
    arith,
    bpull-ok 1 s w.depth (omega arith),
    bpull-ok 0
        (record s {
          stk = record s.stk { stkptr = dec (pos 1) };
          lf = record s.lf { lfpos = s.stk.stk 1 };
        })
        refl (omega arith),
    w.bottom 0 (omega arith),
    w.bottom 1 (omega arith),
  )

  round-pull :
      (p j : ℕ) (s t u : State)
      → s.lf.lfblk ≡ pos b
      → s.lf.lfpos ≡ pos p
      → n ≤ p
      → brdblk (pos b) s ≡ ok (some j, false) t
      → t.lf ≡ s.lf
      → bgtinf (pos b) (pos znkeys) t ≡ ok (pos n) u
      → u.lf ≡ s.lf
      → pull_context (λ q. q) u ≡ ok tt (left u)
      → next_round d fuel s ≡ ok (false, none) (left u)
  unfolding next_round
  round-pull p j s t u blk place le run same run' same' pull =
      ground (arith, blk, place, le, run, same, run', same', pull)

  -- Behind the keys a round leaves the block.
  pub round-leaves :
      (p : ℕ) (s : State)
      → IsWalking o b s
      → s.lf.lfpos ≡ pos p
      → n ≤ p
      → Returns (λ r u. (r ≡ (false, none)) × IsLeft o u) (next_round d fuel s)
  round-leaves p s w place le =
      let (_, t, run, (j, e, l)) = outcome (brdblk-Loaded s b m w.cache (w.stored b ∙ at)) in
      let (_, u, run', (e', l')) = outcome (bgtinf-keys s t b n j m l node.count) in
      let same : t.lf ≡ s.lf = ap (λ (y : State). y.lf) l.context in
      let w' : IsWalking o b u = read-IsWalking (read-IsWalking w l) l' in
      rw
        (round-pull p j s t u w.block place le (run ∙ ap (λ x. ok x t) e) same
          (run' ∙ ap (λ k. ok k u) e') (ap (λ (y : State). y.lf) l'.context ∙ same)
          (pull-bottom u w'))
        (returns (
          refl,
          (
            rest-IsCache u (left u).lf (left u).stk u.stat u.super u.err u.keyent w'.cache,
            λ c. rest-view u (left u).lf (left u).stk u.stat u.super u.err u.keyent c ∙ w'.stored c,
            w'.alone,
            w'.quiet,
            refl,
          ),
        ))

-- the loop of `bnxtky`
module _ (d : DupStore) (fuel b : ℕ) where
  pub loop-ends :
      (k : ℕ) (step : Step) (s u : State)
      → 0 < k
      → s.lf.lfblk ≡ pos b
      → next_round d fuel s ≡ ok (true, step) u
      → next_loop d fuel k s ≡ ok step u
  unfolding next_loop
  loop-ends zero step s u enough blk run = absurd (omega arith)
  loop-ends (suc k) step s u enough blk run = ground (arith, blk, run)

  pub loop-goes_on :
      (k : ℕ) (s u : State)
      → s.lf.lfblk ≡ pos b
      → next_round d fuel s ≡ ok (false, none) u
      → next_loop d fuel (suc k) s ≡ next_loop d fuel k u
  unfolding next_loop
  loop-goes_on k s u blk run = ground (arith, blk, run)

  pub loop-null :
      (k : ℕ) (s : State) → 0 < k → s.lf.lfblk ≡ znull → next_loop d fuel k s ≡ ok none s
  unfolding next_loop
  loop-null zero s enough blk = absurd (omega arith)
  loop-null (suc k) s enough blk = ground (arith, blk)

-- the state at the end of the index
abbrev pub ended : State → State
ended u = record u {
  lf = record { lfblk = znull; lfpos = znull; lfexct = false; draddr = znull; lfkey = [] };
  err = record { qerror = qnokey; qname = "BNXTKY"; qarg = keep_arg no_arg u.err.qarg };
}

-- `bnxtky` about its loop
module _ (d : DupStore) (fuel b : ℕ) (s t : State) (opened : s.idxopen ≡ true)
    (alone : s.shared ≡ false) (free : t.shared ≡ false)
    (run : btduppos d fuel next (cleared s) ≡ ok no_dup t) where
  pub bnxtky-some :
      (e : Key × ℤ) (u : State)
      → next_loop d fuel fuel t ≡ ok (some e) u
      → u.lf.lfblk ≡ pos b
      → u.shared ≡ false
      → u.err.qerror ≡ 0
      → bnxtky d fuel s ≡ ok (0, some e) u
  unfolding bnxtky bterr_clear bvalap locked next_key reposition unlock btgerr
  bnxtky-some e u run' blk alone' quiet =
      ground (arith, opened, alone, free, run, run', blk, alone', quiet)

  pub bnxtky-none :
      (u : State)
      → next_loop d fuel fuel t ≡ ok none u
      → u.lf.lfblk ≡ znull
      → u.shared ≡ false
      → u.err.qerror ≡ 0
      → bnxtky d fuel s ≡ ok (qnokey, none) (ended u)
  unfolding bnxtky bterr_clear bvalap locked next_key reposition unlock btgerr bterr bclrlf
  bnxtky-none u run' blk alone' quiet =
      ground (arith, opened, alone, free, run, run', blk, alone', quiet)
