-- ===== src/Free/List.antt =====
-- src-lib/bgtfre.c and bmkfre.c: a freed block is the next one that is handed out.
use btlib.Prelude.{ℕ, ◌+◌, ◌≡◌, ◌≢◌, refl, ap, ◌∙◌, false, some, ℤ, pos, inc, dec, ◌==ℤ◌, arith}
use btlib.Consts.{znull, zbtype, znxblk, zfree, zdup}
use btlib.Machine.{State, Super, MemRec, ok, ◌>>◌}
use btlib.Machine.Returns
use btlib.Machine.Returns.{Returns, returns, outcome}
use btlib.Cache.{slot_of}
use btlib.Cache.View.{view, IsCache, SameContext, context_trans, rest-IsCache, rest-view}
use btlib.Info.{bgtinf, bsetbk, info_word, store_info, fill_info}
use btlib.Info.Touch.{slot_of-Loaded}
use btlib.Info.Words.{bgtinf-info_word, bsetbk-Written}
use btlib.Free.{bgtfre, bmkfre, drop_active, unlist, settle}

-- a block on the free list, in front of `next`
abbrev pub freed : ℤ → MemRec → MemRec
freed next m = fill_info (pos 0) next (pos 0) (pos 0) znull (store_info zbtype (pos zfree) m)

-- the super block with a block more on the list
abbrev listed : ℕ → State → State
listed b s = record s {
  super = record s.super { sfreep = pos b; snfree = inc s.super.snfree; smod = s.super.smod + 1 };
  stat = record s.stat { xrel = s.stat.xrel + 1 };
}

bmkfre-plain :
    (b : ℕ) (type : ℤ) (s t : State)
    → bgtinf (pos b) (pos zbtype) s ≡ ok type t
    → (type ==ℤ pos zdup) ≡ false
    → t.super ≡ s.super
    → (u : State)
    → bsetbk (pos b) (pos zfree) (pos 0) s.super.sfreep (pos 0) (pos 0) znull t ≡ ok tt u
    → bmkfre (pos b) s ≡ ok tt (listed b u)
unfolding bmkfre drop_active
bmkfre-plain b type s t run plain super u set = ground (arith, run, plain, super, set)

-- Block `b` is the first one of the free list, which goes on at `next`.
pub record IsListed (s u : State) (b : ℕ) (m : MemRec) : Type 0 where
  pub cache : IsCache u
  pub content : view u b ≡ some (freed s.super.sfreep m)
  pub others : (k : ℕ) → k ≢ b → view u k ≡ view s k
  pub first : u.super.sfreep ≡ pos b
  pub count : u.super.snfree ≡ inc s.super.snfree

-- Given a well-formed cache and a stored block that is not one for duplicates, `bmkfre` marks it
-- free, with the free list behind it, makes it the first of the list, and counts it; no other
-- block changes.
pub bmkfre-IsListed :
    (s : State) (b : ℕ) (m : MemRec) (type : ℤ)
    → IsCache s
    → view s b ≡ some m
    → info_word m (pos zbtype) ≡ some type
    → (type ==ℤ pos zdup) ≡ false
    → Returns (λ _ u. IsListed s u b m) (bmkfre (pos b) s)
bmkfre-IsListed s b m type v h word plain =
    let (got, t, run, (e, un)) = outcome (bgtinf-info_word s b m (pos zbtype) type v h refl word) in
    let (_, u, set, wr) = outcome (
      bsetbk-Written t b (pos zfree) (pos 0) s.super.sfreep (pos 0) (pos 0) znull m un.cache
        (un.stored b ∙ h)) in
    let p : Super = (listed b u).super in
    rw
      (bmkfre-plain b type s t (run ∙ ap (λ x. ok x t) e) plain
        (ap (λ (x : State). x.super) un.context) u set)
      (returns (record {
        cache = rest-IsCache u u.lf u.stk (listed b u).stat p u.err u.keyent wr.cache;
        content = rest-view u u.lf u.stk (listed b u).stat p u.err u.keyent b ∙ wr.new;
        others = λ k ne.
            rest-view u u.lf u.stk (listed b u).stat p u.err u.keyent k
            ∙ wr.others k ne
            ∙ un.stored k;
        first = refl;
        count = ap (λ (x : State). inc x.super.snfree) (context_trans s t u un.context wr.context);
      }))

-- the super block with a block less on the list
abbrev taken : ℤ → State → State
taken next s = record s {
  super = record s.super { sfreep = next; snfree = dec s.super.snfree; smod = s.super.smod + 1 };
  stat = record s.stat { xgot = s.stat.xgot + 1 };
}

bgtfre-take :
    (b j : ℕ) (next : ℤ) (s t u w : State)
    → s.super.sfreep ≡ pos b
    → slot_of (pos b) s ≡ ok (some j) t
    → bgtinf (pos b) (pos zbtype) t ≡ ok (pos zfree) u
    → bgtinf (pos b) (pos znxblk) u ≡ ok next w
    → bgtfre s ≡ ok (pos b) (taken next w)
unfolding bgtfre unlist settle
bgtfre-take b j next s t u w first slot type link = ground (arith, first, slot, type, link)

-- From `s` to `u` block `b` was taken off the free list, which goes on at `next`.
pub record IsTaken (s u : State) (b : ℕ) (next : ℤ) : Type 0 where
  pub cache : IsCache u
  pub stored : (k : ℕ) → view u k ≡ view s k
  pub rest : u.super.sfreep ≡ next
  pub count : u.super.snfree ≡ dec s.super.snfree
  pub busy : (i : ℕ) → (u.cntrl i).busy ≡ (s.cntrl i).busy
  pub croot : u.super.scroot ≡ s.super.scroot
  pub err : u.err ≡ s.err
  pub lf : u.lf ≡ s.lf
  pub wt : u.wt_threshold ≡ s.wt_threshold

-- If the first block of the free list is marked free, `bgtfre` returns this block, the list goes on
-- at the block that it links to, and the number of free blocks is one less. No block changes.
pub bgtfre-IsTaken :
    (s : State) (b : ℕ) (m : MemRec) (next : ℤ)
    → IsCache s
    → view s b ≡ some m
    → s.super.sfreep ≡ pos b
    → info_word m (pos zbtype) ≡ some (pos zfree)
    → m.infblk znxblk ≡ next
    → Returns (λ r u. (r ≡ pos b) × IsTaken s u b next) (bgtfre s)
bgtfre-IsTaken s b m next v h first type link =
    let (_, t, slot, (j, e, l)) = outcome (slot_of-Loaded s b m v h) in
    let (_, u, run, (e', un)) =
      outcome
        (bgtinf-info_word t b m (pos zbtype) (pos zfree) l.cache (l.stored b ∙ h) refl type) in
    let (_, w, run', (e'', un')) = outcome (
      bgtinf-info_word u b m (pos znxblk) next un.cache (un.stored b ∙ l.stored b ∙ h) refl
        (ap some link)) in
    let same : SameContext s w =
      context_trans s u w (context_trans s t u l.context un.context) un'.context in
    let p : Super = (taken next w).super in
    rw
      (bgtfre-take b j next s t u w first (slot ∙ ap (λ x. ok x t) e) (run ∙ ap (λ x. ok x u) e')
        (run' ∙ ap (λ x. ok x w) e''))
      (returns (
        refl,
        record {
          cache = rest-IsCache w w.lf w.stk (taken next w).stat p w.err w.keyent un'.cache;
          stored = λ k.
              rest-view w w.lf w.stk (taken next w).stat p w.err w.keyent k
              ∙ un'.stored k
              ∙ un.stored k
              ∙ l.stored k;
          rest = refl;
          count = ap (λ (x : State). dec x.super.snfree) same;
          busy = λ i. un'.busy i ∙ un.busy i ∙ l.busy i;
          croot = ap (λ (x : State). x.super.scroot) same;
          err = ap (λ (x : State). x.err) same;
          lf = ap (λ (x : State). x.lf) same;
          wt = ap (λ (x : State). x.wt_threshold) same;
        },
      ))

dec-inc : (n : ℕ) → dec (inc (pos n)) ≡ pos n
dec-inc n = refl

-- Given a well-formed cache and a stored block that is not one for duplicates, the block that
-- `bmkfre` frees is the one that `bgtfre` hands out next: the free list and its count, which is
-- not negative, are then as they were, and no other block has changed.
pub bmkfre-bgtfre :
    (s : State) (b n : ℕ) (m : MemRec) (type : ℤ)
    → IsCache s
    → view s b ≡ some m
    → info_word m (pos zbtype) ≡ some type
    → (type ==ℤ pos zdup) ≡ false
    → s.super.snfree ≡ pos n
    → Returns
        (λ r u.
          (r ≡ pos b)
          × IsCache u
          × (u.super.sfreep ≡ s.super.sfreep)
          × (u.super.snfree ≡ pos n)
          × ((k : ℕ) → k ≢ b → view u k ≡ view s k))
        ((bmkfre (pos b) >> bgtfre) s)
bmkfre-bgtfre s b n m type v h word plain count =
    Returns.bind (bmkfre-IsListed s b m type v h word plain) λ _ t l.
      Returns.mono
        (bgtfre-IsTaken t b (freed s.super.sfreep m) s.super.sfreep l.cache l.content l.first refl
          refl)
        λ r u (e, k). (
          e,
          k.cache,
          k.rest,
          k.count ∙ ap dec (l.count ∙ ap inc count) ∙ dec-inc n,
          λ i ne. k.stored i ∙ l.others i ne,
        )
