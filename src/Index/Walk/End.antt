-- ===== src/Index/Walk/End.antt =====
-- src-lib/bnxtky.c: the walk through a root that is a leaf, key by key and to its end.
use btlib.Prelude.{
  ℕ, zero, suc, ◌≤◌, ◌<◌, ◌≡◌, inl, inr, refl, sym, ap, subst, ◌∙◌, true, none, some, pos, arith,
}
use btlib.Consts.{znull}
use btlib.Consts.Codes.{qnokey}
use btlib.Machine.{State, Lf, MemRec, ok}
use btlib.Machine.Returns.{Returns, returns, outcome}
use btlib.Cache.View.{view, IsCache, rest-IsCache, rest-view}
use btlib.Block.Stored.{IsNode}
use btlib.Dups.{DupStore, no_dup, next, btduppos}
use btlib.Index.Insert.Duplicate.{cleared}
use btlib.Index.Walk.{Step, bnxtky, next_loop}
use btlib.Index.Walk.Leaf.{IsWalking, IsBefore}
use btlib.Index.Walk.Next.{
  entry_at, IsAt, IsLeft, duppos-off, duppos-IsWalking, round-key, round-behind, round-leaves,
  loop-ends, loop-goes_on, loop-null, bnxtky-some, bnxtky-none, ended,
}

-- what the end of a walk leaves behind: nothing that the index stores changed
abbrev pub Over : State → ℕ × Step → State → Type 0
Over o r u =
    (r ≡ (qnokey, none)) × IsCache u × ((c : ℕ) → view u c ≡ view o c) × (u.lf.lfblk ≡ znull)

-- the walk over the keys of the leaf `m`, which `o` stores at `b`
module _ (d : DupStore) (fuel b n : ℕ) (m : MemRec) (o : State) (at : view o b ≡ some m)
    (node : IsNode m n) (single : (i : ℕ) → i < n → (m.keyblk i).dup ≡ znull)
    (leaf : (i : ℕ) → 0 < n → i ≤ n → m.lnkblk i ≡ znull) (enough : 2 < fuel) where
  cleared-IsWalking : (s : State) → IsWalking o b s → IsWalking o b (cleared s)
  cleared-IsWalking s w = record {
    cache = rest-IsCache s s.lf s.stk s.stat s.super (cleared s).err s.keyent w.cache;
    stored = λ c. rest-view s s.lf s.stk s.stat s.super (cleared s).err s.keyent c ∙ w.stored c;
    opened = w.opened;
    alone = w.alone;
    quiet = refl;
    idle = w.idle;
    block = w.block;
    depth = w.depth;
    bottom = w.bottom;
  }

  abbrev live : 0 < fuel
  live = omega (arith, enough)

  -- `bnxtky` begins at no duplicate
  begins :
      (i : ℕ) (s : State)
      → IsWalking o b s
      → IsBefore i s.lf
      → i ≤ n
      → (t : State) × (btduppos d fuel next (cleared s) ≡ ok no_dup t)
        × IsWalking o b t
        × (t.lf ≡ s.lf)
  begins i s w (inl (off, place)) le =
      (cleared s, duppos-off d fuel (cleared s) w.idle off, cleared-IsWalking s w, refl)
  begins i s w (inr (p, e, exact, place)) le =
      let (_, t, run, (er, w', same)) = outcome (
        duppos-IsWalking d fuel b n m o at node single leaf live p (cleared s)
          (cleared-IsWalking s w) exact place (omega (arith, e, le))) in
      (t, run ∙ ap (λ r. ok r t) er, w', same)

  -- Before a key, `bnxtky` returns it and its value and 0, and is at it.
  pub bnxtky-IsAt :
      (i : ℕ) (s : State)
      → IsWalking o b s
      → IsBefore i s.lf
      → i < n
      → Returns (λ r u. (r ≡ (0, some (entry_at m i))) × IsAt o b i u) (bnxtky d fuel s)
  bnxtky-IsAt i s w before lt =
      let (t, run, w', same) = begins i s w before (omega (arith, lt)) in
      let (r, u, run', (er, (w'', exact, place))) = outcome (
        round-key d fuel b n m o at node single leaf live i t w'
          (subst (IsBefore i) (sym same) before) lt) in
      rw
        (bnxtky-some d fuel b s t w.opened w.alone w'.alone run (entry_at m i) u
          (loop-ends d fuel b fuel (some (entry_at m i)) t u live w'.block
            (run' ∙ ap (λ x. ok x u) er))
          w''.block w''.alone w''.quiet)
        (returns (refl, (w'', exact, place)))

  end-here :
      (s t z : State)
      → IsWalking o b s
      → IsWalking o b t
      → btduppos d fuel next (cleared s) ≡ ok no_dup t
      → next_loop d fuel fuel t ≡ ok none z
      → IsLeft o z
      → Returns (Over o) (bnxtky d fuel s)
  end-here s t z w w' run run' (cache, stored, alone, quiet, blk) =
      let e : State = ended z in
      rw (bnxtky-none d fuel b s t w.opened w.alone w'.alone run z run' blk alone quiet) (
        returns (
          refl,
          rest-IsCache z e.lf z.stk z.stat z.super e.err z.keyent cache,
          λ c. rest-view z e.lf z.stk z.stat z.super e.err z.keyent c ∙ stored c,
          refl,
        ))

  -- from a context behind the keys
  end-behind :
      (k p : ℕ) (t : State)
      → 1 < k
      → IsWalking o b t
      → t.lf.lfpos ≡ pos p
      → n ≤ p
      → (z : State) × (next_loop d fuel k t ≡ ok none z) × IsLeft o z
  end-behind zero p t two w place le = absurd (omega arith)
  end-behind (suc k) p t two w place le =
      let (r, z, run, (e, left)) =
        outcome (round-leaves d fuel b n m o at node single leaf live p t w place le) in
      (
        z,
        loop-goes_on d fuel b k t z w.block (run ∙ ap (λ x. ok x z) e)
            ∙ loop-null d fuel b k z (omega (arith, two)) left.4,
        left,
      )

  -- from the context at the last key
  end-after :
      (k p : ℕ) (t : State)
      → 2 < k
      → IsWalking o b t
      → t.lf.lfexct ≡ true
      → t.lf.lfpos ≡ pos p
      → n ≡ suc p
      → (z : State) × (next_loop d fuel k t ≡ ok none z) × IsLeft o z
  end-after zero p t three w exact place last = absurd (omega arith)
  end-after (suc k) p t three w exact place last =
      let (r, u, run, (e, (w', _, place'))) =
        outcome (round-behind d fuel b n m o at node single leaf live p t (w, exact, place) last) in
      let (z, run', left) = end-behind k n u (omega (arith, three)) w' place' (omega arith) in
      (z, loop-goes_on d fuel b k t u w.block (run ∙ ap (λ x. ok x u) e) ∙ run', left)

  -- Behind the last key, `bnxtky` returns QNOKEY and no key.
  pub bnxtky-Over :
      (s : State) → IsWalking o b s → IsBefore n s.lf → Returns (Over o) (bnxtky d fuel s)
  bnxtky-Over s w before =
      let (t, run, w', same) = begins n s w before (omega arith) in
      elim before [
        | inl (off, place) ↦
            let (z, run', left) =
              end-behind fuel n t (omega (arith, enough)) w' (ap (λ (f : Lf). f.lfpos) same ∙ place)
                (omega arith) in
            end-here s t z w w' run run' left
        | inr (p, e, exact, place) ↦
            let (z, run', left) =
              end-after fuel p t enough w' (ap (λ (f : Lf). f.lfexct) same ∙ exact)
                (ap (λ (f : Lf). f.lfpos) same ∙ place) e in
            end-here s t z w w' run run' left
      ]
