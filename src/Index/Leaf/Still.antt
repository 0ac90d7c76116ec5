-- ===== src/Index/Leaf/Still.antt =====
-- src-lib/bleaf.c: a context that is at a leaf.
use btlib.Prelude.{
  ℕ, zero, suc, ◌≤◌, ◌<◌, ◌≡◌, ◌⊎◌, inl, inr, refl, ap, ◌∙◌, some, pos, ◌==◌, ==_iff, Bool-cases,
  arith,
}
use btlib.Consts.{zmxkey, znull, znkeys}
use btlib.Machine.{State, Lf, MemRec, ok}
use btlib.Machine.Returns
use btlib.Machine.Returns.{Returns, returns, outcome}
use btlib.Cache.{slot_of}
use btlib.Cache.View.{view, IsCache, context_trans}
use btlib.Cache.Read.{Loaded}
use btlib.Info.{bgtinf}
use btlib.Info.Words.{Unchanged, unchanged}
use btlib.Info.Touch.{slot_of-Loaded, slot_of-resident}
use btlib.Block.Stored.{IsNode}
use btlib.Index.Leaf.{bleaf, descend}

-- one read after another of the block
pub Loaded-trans :
    {s t u : State} {b j : ℕ} {m : MemRec} → Loaded s t b j m → Loaded t u b j m → Loaded s u b j m
Loaded-trans {s} {t} {u} a c = record {
  inside = c.inside;
  resident = c.resident;
  content = c.content;
  cache = c.cache;
  stored = λ i. c.stored i ∙ a.stored i;
  context = context_trans s t u a.context c.context;
  busy = λ i. c.busy i ∙ a.busy i;
  wired = λ i h.
      let (e, f) = a.wired i h in let (e', f') = c.wired i (a.busy i ∙ h) in (e' ∙ e, f' ∙ f);
}

-- a word of a block whose slot is known
pub bgtinf-keys :
    (s t : State) (b n j : ℕ) (m : MemRec)
    → Loaded s t b j m
    → m.infblk znkeys ≡ pos n
    → Returns (λ r u. (r ≡ pos n) × Loaded t u b j m) (bgtinf (pos b) (pos znkeys) t)
unfolding bgtinf
bgtinf-keys s t b n j m l count =
    Returns.bind (slot_of-resident s t b j m l)
      λ r u (er, l'). rw (er, l'.content) (returns (count, l'))

bleaf-empty :
    (fuel dir j b : ℕ) (s t u : State)
    → s.lf.lfblk ≡ pos b
    → slot_of (pos b) s ≡ ok (some j) t
    → t.lf ≡ s.lf
    → bgtinf (pos b) (pos znkeys) t ≡ ok (pos 0) u
    → bleaf fuel dir s ≡ ok (some j) u
unfolding bleaf
bleaf-empty fuel dir j b s t u at run same keys = ground (arith, at, run, same, keys)

bleaf-null :
    (fuel dir j p n b : ℕ) (m : MemRec) (s t u : State)
    → s.lf.lfblk ≡ pos b
    → slot_of (pos b) s ≡ ok (some j) t
    → bgtinf (pos b) (pos znkeys) t ≡ ok (pos n) u
    → 0 < n
    → u.lf.lfpos ≡ pos p
    → p ≤ zmxkey
    → (u.memrec j).lnkblk p ≡ znull
    → bleaf (suc fuel) dir s ≡ ok (some j) u
unfolding bleaf descend
bleaf-null fuel dir j p n b m s t u at run keys some_key position fits null =
    ground (arith, at, run, keys, some_key, position, fits, null)

-- At a leaf whose links are null `bleaf` stays, and its slot is the one of the leaf.
pub bleaf-Loaded :
    (fuel dir b n : ℕ) (m : MemRec) (s : State)
    → IsCache s
    → view s b ≡ some m
    → IsNode m n
    → ((i : ℕ) → 0 < n → i ≤ n → m.lnkblk i ≡ znull)
    → s.lf.lfblk ≡ pos b
    → (n ≡ 0) ⊎ ((p : ℕ) × (s.lf.lfpos ≡ pos p) × (p ≤ n))
    → 0 < fuel
    → Returns (λ r u. (j : ℕ) × (r ≡ some j) × Loaded s u b j m) (bleaf fuel dir s)
bleaf-Loaded zero dir b n m s v at node null blk link f = absurd (omega arith)
bleaf-Loaded (suc fuel) dir b n m s v at node null blk link f =
    let (_, t, run, (j, e, l)) = outcome (slot_of-Loaded s b m v at) in
    let (_, u, run', (e', l')) = outcome (bgtinf-keys s t b n j m l node.count) in
    let here : slot_of (pos b) s ≡ ok (some j) t = run ∙ ap (λ r. ok r t) e in
    let same : t.lf ≡ s.lf = ap (λ (x : State). x.lf) l.context in
    let same' : u.lf ≡ s.lf = ap (λ (x : State). x.lf) l'.context ∙ same in
    let keys : bgtinf (pos b) (pos znkeys) t ≡ ok (pos n) u = run' ∙ ap (λ r. ok r u) e' in
    let kept : (i : ℕ) × (some j ≡ some i) × Loaded s u b i m = (j, refl, Loaded-trans l l') in
    elim link [
      | inl empty ↦
          rw
            (bleaf-empty (suc fuel) dir j b s t u blk here same
              (keys ∙ ap (λ k. ok (pos k) u) empty))
            (returns kept)
      | inr (p, position, le) ↦ elim (Bool-cases (n == 0)) [
        | inl k ↦
            rw
              (bleaf-empty (suc fuel) dir j b s t u blk here same
                (keys ∙ ap (λ k. ok (pos k) u) ((==_iff n 0).0 k)))
              (returns kept)
        | inr k ↦
            rw
              (bleaf-null fuel dir j p n b m s t u blk here keys (ground (arith, k))
                (ap (λ (x : Lf). x.lfpos) same' ∙ position) (omega (arith, le, node.fits))
                (ap (λ (x : MemRec). x.lnkblk p) l'.content ∙ null p (ground (arith, k)) le))
              (returns kept)
      ]
    ]

-- Nothing that the index stores changes.
pub bleaf-Unchanged :
    (fuel b n : ℕ) (m : MemRec) (s : State)
    → IsCache s
    → view s b ≡ some m
    → IsNode m n
    → ((i : ℕ) → 0 < n → i ≤ n → m.lnkblk i ≡ znull)
    → s.lf.lfblk ≡ pos b
    → (n ≡ 0) ⊎ ((p : ℕ) × (s.lf.lfpos ≡ pos p) × (p ≤ n))
    → 0 < fuel
    → Returns (λ _ u. Unchanged s u) (bleaf fuel 1 s)
bleaf-Unchanged fuel b n m s v at node null blk link f =
    Returns.mono (bleaf-Loaded fuel 1 b n m s v at node null blk link f)
      λ _ u (j, e, l). unchanged l
