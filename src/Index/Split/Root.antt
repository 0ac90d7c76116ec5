-- ===== src/Index/Split/Root.antt =====
-- src-lib/bsptbk.c: a full root is split between two blocks of the free list.
use btlib.Prelude.{ℕ, ◌+◌, ◌-◌, ◌<◌, ◌≤◌, ◌≡◌, ◌≢◌, refl, sym, ap, ◌∙◌, some, ℤ, pos, arith}
use btlib.Consts.{zmxkey, znull, zbtype, znxblk, znkeys, zroot, zinuse, zfree}
use btlib.Machine.{State, MemRec, ok}
use btlib.Machine.Returns
use btlib.Machine.Returns.{Returns, returns, outcome}
use btlib.Cache.View.{view, IsCache, context_trans, rest-IsCache, rest-view}
use btlib.Info.{info_word, store_info, fill_info}
use btlib.Info.Touch.{slot_of-Loaded, Written}
use btlib.Info.Words.{Unchanged, unchanged, bgtinf-info_word, bstinf-Written, bsetbk-Written}
use btlib.Block.{bsrhbk, copy_keys, replace_key}
use btlib.Block.Changed.{brepky-Written}
use btlib.Block.Transfer.{HasIdle, HasIdle-kept, bcpybk-Copied}
use btlib.Free.List.{bgtfre-IsTaken}
use btlib.Index.Split.{bsptbk, split_root, promote, probe_pos, sp, sp2}
use btlib.Index.Delete.Refuse.{read_at, bsrhbk-at}

-- the count of splits
abbrev pub counted : State → State
counted s = record s { stat = record s.stat { xsplit = s.stat.xsplit + 1 } }

-- the blocks that a split of the root `m` leaves, where the new ones had the contents `m1` and `m2`
abbrev pub left_half : (root : ℤ) (croot : ℤ) → MemRec → MemRec → MemRec
left_half root croot m m1 =
    fill_info (pos 0) root (pos sp) croot znull
      (store_info zbtype (pos zinuse) (copy_keys 0 0 sp m m1))

abbrev pub right_half : (root : ℤ) (croot : ℤ) → MemRec → MemRec → MemRec
right_half root croot m m2 =
    fill_info (pos 0) root (pos sp2) croot znull
      (store_info zbtype (pos zinuse) (copy_keys 0 (sp + 1) sp2 m m2))

abbrev pub top : MemRec → (b1 b2 : ℕ) → MemRec
top m b1 b2 = store_info znkeys (pos 1) (replace_key 0 (m.keyblk sp) (pos b1) (pos b2) m)

-- From `s` to `u` the root `b` was split into `b1` and `b2`, and no other block changed.
pub record IsDivided (s u : State) (b b1 b2 : ℕ) (m m1 m2 : MemRec) : Type 0 where
  pub cache : IsCache u
  pub root : view u b ≡ some (top m b1 b2)
  pub left : view u b1 ≡ some (left_half (pos b) s.super.scroot m m1)
  pub right : view u b2 ≡ some (right_half (pos b) s.super.scroot m m2)
  pub others : (k : ℕ) → k ≢ b → k ≢ b1 → k ≢ b2 → view u k ≡ view s k
  pub err : u.err ≡ s.err

-- the location that the middle key is read from
pub read-Unchanged :
    (s : State) (b i n : ℕ) (m : MemRec)
    → IsCache s
    → view s b ≡ some m
    → m.infblk znkeys ≡ pos n
    → i < n
    → n ≤ zmxkey
    → Returns
        (λ q u.
          (q ≡ read_at m i) × (t : State) × Unchanged s t × (u ≡ record t { keyent = m.keyblk i }))
        (bsrhbk (pos b) (probe_pos (pos i)) s)
read-Unchanged s b i n m v h count lt le =
    let (r, t, run, (j, e, l)) = outcome (slot_of-Loaded s b m v h) in
    rw (bsrhbk-at b i j n m s t (run ∙ ap (λ x. ok x t) e) l.content count lt le)
      (returns (refl, t, unchanged l, refl))

module _ (b b1 b2 : ℕ) (m m1 m2 : MemRec) (ne1 : b1 ≢ b) (ne2 : b2 ≢ b) (ne : b1 ≢ b2)
    (count : m.infblk znkeys ≡ pos zmxkey) where
  -- a block that is not the root, while the root is written
  kept :
      {s : State} {m' m'' : MemRec} (t s7 s8 : State)
      → Unchanged s t
      → Written (record t { keyent = m.keyblk sp }) s7 b m'
      → Written s7 s8 b m''
      → (k : ℕ) → k ≢ b
      → view (counted s8) k ≡ view s k
  kept t s7 s8 un w7 w8 k n =
      rest-view s8 s8.lf s8.stk (counted s8).stat s8.super s8.err s8.keyent k
      ∙ w8.others k n
      ∙ w7.others k n
      ∙ rest-view t t.lf t.stk t.stat t.super t.err (m.keyblk sp) k
      ∙ un.stored k

  -- the middle key, once the halves are in the new blocks
  finish :
      (s s5 : State)
      → s5.err ≡ s.err
      → IsCache s5
      → view s5 b ≡ some m
      → view s5 b1 ≡ some (left_half (pos b) s.super.scroot m m1)
      → view s5 b2 ≡ some (right_half (pos b) s.super.scroot m m2)
      → ((k : ℕ) → k ≢ b → k ≢ b1 → k ≢ b2 → view s5 k ≡ view s k)
      → Returns
          (λ r u. (r ≡ pos b1) × IsDivided s u b b1 b2 m m1 m2)
          (promote (pos b) (pos b1) (pos b2) s5)
  unfolding promote
  finish s s5 err v h h1 h2 rest =
      Returns.bind (read-Unchanged s5 b sp zmxkey m v h count (omega arith) (omega arith))
        λ q u (e, t, un, same).
          rw (e, same)
            (Returns.bind
              (brepky-Written (record t { keyent = m.keyblk sp }) b 0 m (m.keyblk sp) (pos b1)
                (pos b2) (rest-IsCache t t.lf t.stk t.stat t.super t.err (m.keyblk sp) un.cache)
                (rest-view t t.lf t.stk t.stat t.super t.err (m.keyblk sp) b ∙ un.stored b ∙ h)
                (omega arith))
              λ _ s7 w7.
                Returns.bind (bstinf-Written s7 b znkeys (pos 1) _ w7.cache w7.new (omega arith))
                  λ _ s8 w8. returns (
                    refl,
                    record {
                      cache =
                          rest-IsCache s8 s8.lf s8.stk (counted s8).stat s8.super s8.err s8.keyent
                            w8.cache;
                      root =
                          rest-view s8 s8.lf s8.stk (counted s8).stat s8.super s8.err s8.keyent b
                          ∙ w8.new;
                      left = kept t s7 s8 un w7 w8 b1 ne1 ∙ h1;
                      right = kept t s7 s8 un w7 w8 b2 ne2 ∙ h2;
                      others = λ k n n1 n2. kept t s7 s8 un w7 w8 k n ∙ rest k n n1 n2;
                      err =
                          ap (λ (x : State). x.err) w8.context
                          ∙ ap (λ (x : State). x.err) w7.context
                          ∙ ap (λ (x : State). x.err) un.context
                          ∙ err;
                    },
                  ))

  split_root-IsDivided :
      (s : State)
      → IsCache s
      → HasIdle s
      → view s b ≡ some m
      → view s b1 ≡ some m1
      → view s b2 ≡ some m2
      → Returns
          (λ r u. (r ≡ pos b1) × IsDivided s u b b1 b2 m m1 m2)
          (split_root (pos b) (pos b1) (pos b2) s)
  unfolding split_root
  split_root-IsDivided s v idle h h1 h2 =
      Returns.bind
        (bcpybk-Copied s b1 b 0 0 (sp - 1) m1 m v h1 h ne1 idle (omega arith) (omega arith))
        λ _ s2 (v2, n2, o2, c2, i2).
          Returns.bind
            (bcpybk-Copied s2 b2 b 0 (sp + 1) (sp2 - 1) m2 m v2 (o2 b2 (λ e. ne (sym e)) ∙ h2)
              (o2 b (λ e. ne1 (sym e)) ∙ h) ne2 (HasIdle-kept i2 idle) (omega arith) (omega arith))
            λ _ s3 (v3, n3, o3, c3, i3).
              let croot = ap (λ (x : State). x.super.scroot) (context_trans s s2 s3 c2 c3) in
              Returns.bind
                (bsetbk-Written s3 b1 (pos zinuse) (pos 0) (pos b) (pos sp) s3.super.scroot znull
                  (copy_keys 0 0 sp m m1) v3 (o3 b1 ne ∙ n2))
                λ _ s4 w4.
                  Returns.bind
                    (bsetbk-Written s4 b2 (pos zinuse) (pos 0) (pos b) (pos sp2) s3.super.scroot
                      znull (copy_keys 0 (sp + 1) sp2 m m2) w4.cache
                      (w4.others b2 (λ e. ne (sym e)) ∙ n3))
                    λ _ s5 w5.
                      let before : (k : ℕ) → k ≢ b1 → k ≢ b2 → view s5 k ≡ view s k =
                        λ k n1 n2. w5.others k n2 ∙ w4.others k n1 ∙ o3 k n2 ∙ o2 k n1 in
                      finish s s5
                        (ap (λ (x : State). x.err) w5.context
                          ∙ ap (λ (x : State). x.err) w4.context
                          ∙ ap (λ (x : State). x.err) (context_trans s s2 s3 c2 c3))
                        w5.cache (before b (λ e. ne1 (sym e)) (λ e. ne2 (sym e)) ∙ h)
                        (w5.others b1 ne ∙ w4.new ∙ ap (λ r. some (left_half (pos b) r m m1)) croot)
                        (w5.new ∙ ap (λ r. some (right_half (pos b) r m m2)) croot)
                        (λ k _ n1 n2. before k n1 n2)

  -- Given a well-formed cache with two slots that are not busy, a full root and a free list that
  -- starts with two blocks which are marked free: `bsptbk` puts the keys and links before the middle
  -- key into the one and those behind it into the other, leaves the root with the middle key between
  -- links to the two, and returns the first. No other block changes, and no error is recorded.
  pub bsptbk-IsDivided :
      (s : State)
      → IsCache s
      → HasIdle s
      → view s b ≡ some m
      → view s b1 ≡ some m1
      → view s b2 ≡ some m2
      → info_word m (pos zbtype) ≡ some (pos zroot)
      → s.super.sfreep ≡ pos b1
      → info_word m1 (pos zbtype) ≡ some (pos zfree)
      → m1.infblk znxblk ≡ pos b2
      → info_word m2 (pos zbtype) ≡ some (pos zfree)
      → Returns (λ r u. (r ≡ pos b1) × IsDivided s u b b1 b2 m m1 m2) (bsptbk (pos b) s)
  unfolding bsptbk
  bsptbk-IsDivided s v idle h h1 h2 type first free1 next free2 =
      Returns.bind (bgtinf-info_word s b m (pos zbtype) (pos zroot) v h refl type) λ _ t (e, un).
        rw e (
          Returns.bind
            (bgtfre-IsTaken t b1 m1 (pos b2) un.cache (un.stored b1 ∙ h1)
              (ap (λ (x : State). x.super.sfreep) un.context ∙ first) free1 next)
            λ _ u (e1, k1). rw e1 (
              Returns.bind
                (bgtfre-IsTaken u b2 m2 (m2.infblk znxblk) k1.cache
                  (k1.stored b2 ∙ un.stored b2 ∙ h2) k1.rest free2 refl)
                λ _ w (e2, k2). rw e2 (
                  let same : (k : ℕ) → view w k ≡ view s k =
                    λ k. k2.stored k ∙ k1.stored k ∙ un.stored k in
                  let croot : w.super.scroot ≡ s.super.scroot =
                    k2.croot ∙ k1.croot ∙ ap (λ (x : State). x.super.scroot) un.context in
                  Returns.mono
                    (split_root-IsDivided w k2.cache
                      (HasIdle-kept (λ i q. k2.busy i ∙ k1.busy i ∙ un.busy i ∙ q) idle)
                      (same b ∙ h) (same b1 ∙ h1) (same b2 ∙ h2))
                    λ r z (e3, d). (
                      e3,
                      record {
                        cache = d.cache;
                        root = d.root;
                        left = d.left ∙ ap (λ c. some (left_half (pos b) c m m1)) croot;
                        right = d.right ∙ ap (λ c. some (right_half (pos b) c m m2)) croot;
                        others = λ k n n1 n2. d.others k n n1 n2 ∙ same k;
                        err = d.err ∙ k2.err ∙ k1.err ∙ ap (λ (x : State). x.err) un.context;
                      },
                    ))))
