-- ===== src/Index/Split/Child.antt =====
-- src-lib/bsptbk.c: a full block below the root is split between it and a block of the free list.
use btlib.Prelude.{
  ℕ, ◌+◌, ◌-◌, ◌<◌, ◌≡◌, ◌≢◌, inl, inr, refl, sym, ap, ◌∙◌, Bool-cases, false, some, ℤ, pos, ◌==◌,
  ==_iff, ◌==ℤ◌, arith,
}
use btlib.Consts.{zmxblk, zmxkey, znull, zbtype, znkeys, zroot, zinuse, zfree, znxblk}
use btlib.Machine.{State, Lf, MemRec}
use btlib.Machine.Returns
use btlib.Machine.Returns.{Returns, returns}
use btlib.Cache.Mark.{bsetbs-IsMarked, bsetbs-IsUnmarked}
use btlib.Cache.View.{view, IsCache, SameContext, context_trans, rest-IsCache, rest-view}
use btlib.Info.{info_word, store_info}
use btlib.Info.Words.{bgtinf-info_word, bstinf-Written, bsetbk-Written}
use btlib.Block.{copy_keys, put_key}
use btlib.Block.Stored.{bputky-Written}
use btlib.Block.Transfer.{HasIdle, HasIdle-kept, idle_beside, bcpybk-Copied}
use btlib.Free.List.{bgtfre-IsTaken}
use btlib.Index.Split.{bsptbk, split_block, lift, sp, sp2}
use btlib.Index.Split.Root.{right_half, counted, read-Unchanged}

-- three slots that are not busy
pub record HasThree (s : State) : Type 0 where
  pub two : HasIdle s
  pub third : ℕ
  pub third_in : third < zmxblk
  pub not_one : third ≢ two.one
  pub not_other : third ≢ two.other
  pub third_idle : (s.cntrl third).busy ≡ false

-- Two of them are not the slot `j`, and stay idle while that is marked.
beside-HasIdle :
    (s u : State) (j : ℕ)
    → HasThree s
    → ((i : ℕ) → i ≢ j → (u.cntrl i).busy ≡ (s.cntrl i).busy)
    → HasIdle u
beside-HasIdle s u j h same = elim (Bool-cases (h.third == j)) [
  | inl e ↦
      let here : h.third ≡ j = (==_iff h.third j).0 e in
      record {
        one = h.two.one;
        other = h.two.other;
        one_in = h.two.one_in;
        other_in = h.two.other_in;
        distinct = h.two.distinct;
        one_idle = same h.two.one (λ f. h.not_one (here ∙ sym f)) ∙ h.two.one_idle;
        other_idle = same h.two.other (λ f. h.not_other (here ∙ sym f)) ∙ h.two.other_idle;
      }
  | inr e ↦ elim (Bool-cases (h.two.one == j)) [
    | inl f ↦
        let here : h.two.one ≡ j = (==_iff h.two.one j).0 f in
        record {
          one = h.third;
          other = h.two.other;
          one_in = h.third_in;
          other_in = h.two.other_in;
          distinct = h.not_other;
          one_idle = same h.third (λ g. ground (arith, e, g)) ∙ h.third_idle;
          other_idle = same h.two.other (λ g. h.two.distinct (here ∙ sym g)) ∙ h.two.other_idle;
        }
    | inr f ↦ record {
      one = h.third;
      other = h.two.one;
      one_in = h.third_in;
      other_in = h.two.one_in;
      distinct = h.not_one;
      one_idle = same h.third (λ g. ground (arith, e, g)) ∙ h.third_idle;
      other_idle = same h.two.one (λ g. ground (arith, f, g)) ∙ h.two.one_idle;
    }
  ]
]

-- From `s` to `u` the block `b` was split between it and `nb`, with the middle key in the parent
-- `p`, and no other block changed.
pub record IsHalved (s u : State) (b nb p n : ℕ) (m pm m2 : MemRec) : Type 0 where
  pub cache : IsCache u
  pub left : view u b ≡ some (store_info znkeys (pos sp) m)
  pub right : view u nb ≡ some (right_half (pos p) s.super.scroot m m2)
  pub parent : view u p ≡ some (put_key (m.keyblk sp) (pos b) (pos nb) n pm)
  pub others : (k : ℕ) → k ≢ b → k ≢ nb → k ≢ p → view u k ≡ view s k
  pub err : u.err ≡ s.err

module _ (b nb p n : ℕ) (m pm m2 : MemRec) (ne : nb ≢ b) (nep : p ≢ b) (neq : p ≢ nb)
    (count : m.infblk znkeys ≡ pos zmxkey) (count_p : pm.infblk znkeys ≡ pos n)
    (room : n < zmxkey) where
  -- the middle key, once the keys behind it are in the new block
  lift-IsHalved :
      (s t : State)
      → IsCache t
      → view t b ≡ some m
      → view t p ≡ some pm
      → view t nb ≡ some (right_half (pos p) s.super.scroot m m2)
      → ((k : ℕ) → k ≢ nb → view t k ≡ view s k)
      → t.err ≡ s.err
      → t.wt_threshold ≡ 0
      → Returns
          (λ r u. (r ≡ pos nb) × IsHalved s u b nb p n m pm m2)
          (lift (pos p) (pos b) (pos nb) t)
  unfolding lift
  lift-IsHalved s t v h hp hn rest err wt =
      Returns.bind (read-Unchanged t b sp zmxkey m v h count (omega arith) (omega arith))
        λ q u (e, t1, un, same).
          rw (e, same)
            (let c : State = record t1 { keyent = m.keyblk sp } in
              let seen : (k : ℕ) → view c k ≡ view t k = λ k.
                rest-view t1 t1.lf t1.stk t1.stat t1.super t1.err (m.keyblk sp) k ∙ un.stored k in
              Returns.bind
                (bstinf-Written c b znkeys (pos sp) m
                  (rest-IsCache t1 t1.lf t1.stk t1.stat t1.super t1.err (m.keyblk sp) un.cache)
                  (seen b ∙ h) (omega arith))
                λ _ t2 w2.
                  let same_key : t2.keyent ≡ m.keyblk sp =
                    ap (λ (x : State). x.keyent) w2.context in
                  Returns.bind
                    (bputky-Written t2 p n pm t2.keyent (pos b) (pos nb) w2.cache
                      (w2.others p nep ∙ seen p ∙ hp) count_p room
                      (ap (λ (x : State). x.wt_threshold) (context_trans c c t2 refl w2.context)
                        ∙ ap (λ (x : State). x.wt_threshold) un.context
                        ∙ wt))
                    λ _ t3 w3.
                      Returns.bind
                        (bsetbs-IsUnmarked t3 b (store_info znkeys (pos sp) m) w3.cache
                          (w3.others b (λ f. nep (sym f)) ∙ w2.new))
                        λ _ t4 k.
                          let z : State = counted t4 in
                          let final : (a : ℕ) → view z a ≡ view t3 a = λ a.
                            rest-view t4 t4.lf t4.stk z.stat t4.super t4.err t4.keyent a
                            ∙ k.stored a in
                          returns (
                            refl,
                            record {
                              cache =
                                  rest-IsCache t4 t4.lf t4.stk z.stat t4.super t4.err t4.keyent
                                    k.cache;
                              left = final b ∙ w3.others b (λ f. nep (sym f)) ∙ w2.new;
                              right =
                                  final nb
                                  ∙ w3.others nb (λ f. neq (sym f))
                                  ∙ w2.others nb ne
                                  ∙ seen nb
                                  ∙ hn;
                              parent =
                                  final p
                                  ∙ w3.new
                                  ∙ ap (λ x. some (put_key x (pos b) (pos nb) n pm)) same_key;
                              others = λ a n1 n2 n3.
                                  final a ∙ w3.others a n3 ∙ w2.others a n1 ∙ seen a ∙ rest a n2;
                              err =
                                  ap (λ (x : State). x.err) k.context
                                  ∙ ap (λ (x : State). x.err) w3.context
                                  ∙ ap (λ (x : State). x.err) w2.context
                                  ∙ ap (λ (x : State). x.err) un.context
                                  ∙ err;
                            },
                          ))

  split_block-IsHalved :
      (s : State)
      → IsCache s
      → HasIdle s
      → s.lf.lfblk ≡ pos p
      → s.wt_threshold ≡ 0
      → view s b ≡ some m
      → view s p ≡ some pm
      → view s nb ≡ some m2
      → Returns
          (λ r u. (r ≡ pos nb) × IsHalved s u b nb p n m pm m2)
          (split_block (pos b) (pos nb) s)
  unfolding split_block
  split_block-IsHalved s v idle blk wt h hp hn =
      Returns.bind
        (bcpybk-Copied s nb b 0 (sp + 1) (sp2 - 1) m2 m v hn h ne idle (omega arith) (omega arith))
        λ _ t (v1, n1, o1, c1, _).
          let croot : t.super.scroot ≡ s.super.scroot = ap (λ (x : State). x.super.scroot) c1 in
          let place : t.lf.lfblk ≡ pos p = ap (λ (x : State). x.lf.lfblk) c1 ∙ blk in
          Returns.bind
            (bsetbk-Written t nb (pos zinuse) (pos 0) t.lf.lfblk (pos sp2) t.super.scroot znull
              (copy_keys 0 (sp + 1) sp2 m m2) v1 n1)
            λ _ u w. rw place (
              lift-IsHalved s u w.cache (w.others b (λ f. ne (sym f)) ∙ o1 b (λ f. ne (sym f)) ∙ h)
                (w.others p neq ∙ o1 p neq ∙ hp)
                (w.new
                  ∙ ap (λ y. some (right_half y t.super.scroot m m2)) place
                  ∙ ap (λ y. some (right_half (pos p) y m m2)) croot)
                (λ k nk. w.others k nk ∙ o1 k nk)
                (ap (λ (x : State). x.err) w.context ∙ ap (λ (x : State). x.err) c1)
                (ap (λ (x : State). x.wt_threshold) w.context
                  ∙ ap (λ (x : State). x.wt_threshold) c1
                  ∙ wt))

  -- Given a well-formed cache with three slots that are not busy, no threshold for writing through, a
  -- full block that is not a root, its parent, which is where the last find ended and has room for a
  -- key, and a free list that starts with a third block, which is marked free: `bsptbk` puts the keys
  -- and links behind the middle key into the free block, leaves the block with those before it, puts
  -- the middle key into the parent with links to the two, and returns the new block. No other block
  -- changes, and no error is recorded.
  pub bsptbk-IsHalved :
      (s : State) (type : ℤ)
      → IsCache s
      → HasThree s
      → s.lf.lfblk ≡ pos p
      → s.wt_threshold ≡ 0
      → view s b ≡ some m
      → view s p ≡ some pm
      → info_word m (pos zbtype) ≡ some type
      → (type ==ℤ pos zroot) ≡ false
      → s.super.sfreep ≡ pos nb
      → view s nb ≡ some m2
      → info_word m2 (pos zbtype) ≡ some (pos zfree)
      → Returns (λ r u. (r ≡ pos nb) × IsHalved s u b nb p n m pm m2) (bsptbk (pos b) s)
  unfolding bsptbk
  bsptbk-IsHalved s type v three blk wt h hp word below first hn free =
      Returns.bind (bgtinf-info_word s b m (pos zbtype) type v h refl word) λ _ t (e, un).
        rw (e, below)
          (Returns.bind
            (bsetbs-IsMarked t b m un.cache (un.stored b ∙ h) (λ j.
              let (k, k_in, k_ne, k_free) = idle_beside s j three.two in
              (k, k_in, k_ne, un.busy k ∙ k_free)))
            λ _ u mk.
              Returns.bind
                (bgtfre-IsTaken u nb m2 (m2.infblk znxblk) mk.cache
                  (mk.stored nb ∙ un.stored nb ∙ hn)
                  (ap (λ (x : State). x.super.sfreep) mk.context
                    ∙ ap (λ (x : State). x.super.sfreep) un.context
                    ∙ first)
                  free refl)
                λ _ w (e2, k). rw e2 (
                  let same : (a : ℕ) → view w a ≡ view s a =
                    λ a. k.stored a ∙ mk.stored a ∙ un.stored a in
                  let context : SameContext s u = context_trans s t u un.context mk.context in
                  let croot : w.super.scroot ≡ s.super.scroot =
                    k.croot ∙ ap (λ (x : State). x.super.scroot) context in
                  Returns.mono
                    (split_block-IsHalved w k.cache
                      (HasIdle-kept (λ i q. k.busy i ∙ q)
                        (beside-HasIdle s u mk.slot three (λ i q. mk.elsewhere i q ∙ un.busy i)))
                      (ap (λ (x : Lf). x.lfblk) k.lf ∙ ap (λ (x : State). x.lf.lfblk) context ∙ blk)
                      (k.wt ∙ ap (λ (x : State). x.wt_threshold) context ∙ wt) (same b ∙ h)
                      (same p ∙ hp) (same nb ∙ hn))
                    λ r z (e3, d). (
                      e3,
                      record {
                        cache = d.cache;
                        left = d.left;
                        right = d.right ∙ ap (λ y. some (right_half (pos p) y m m2)) croot;
                        parent = d.parent;
                        others = λ a n1 n2 n3. d.others a n1 n2 n3 ∙ same a;
                        err = d.err ∙ k.err ∙ ap (λ (x : State). x.err) context;
                      },
                    )))
