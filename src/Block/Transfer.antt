-- ===== src/Block/Transfer.antt =====
-- src-lib/bcpybk.c against what the index stores.
use mathlib.Core.Path.{fun_ext}
use btlib.Prelude.{
  ℕ, suc, ◌+◌, ◌≤◌, ◌<◌, ◌≡◌, ◌≢◌, refl, sym, ap, subst, ◌∙◌, Bool, true, false, some, pos, ◌==◌,
  ==_iff, Bool-cases, inl, inr, set, arith,
}
use btlib.Consts.{zmxblk, zmxkey}
use btlib.Machine.{State, Cntrl, MemRec, ok}
use btlib.Machine.Returns.{Returns, returns, outcome}
use btlib.Cache.{slot_of, bsetbs, brdblk}
use btlib.Cache.View.{view, IsCache, SameContext, context_trans}
use btlib.Cache.Read.{brdblk-Loaded, brdblk-Kept}
use btlib.Cache.Adjust.{adjusted, adjusted-IsCache, adjusted-view, marked, bsetbs-marked}
use btlib.Info.Touch.{slot_of-Loaded, slot_of-resident, Written, Written-by, Loaded-here, touched}
use btlib.Block.{bcpybk, copy_keys}

-- two slots that are not busy
pub record HasIdle (s : State) : Type 0 where
  pub one : ℕ
  pub other : ℕ
  pub one_in : one < zmxblk
  pub other_in : other < zmxblk
  pub distinct : one ≢ other
  pub one_idle : (s.cntrl one).busy ≡ false
  pub other_idle : (s.cntrl other).busy ≡ false

-- slots that are not busy stay so
abbrev pub StaysIdle : State → State → Type 0
StaysIdle s u = (i : ℕ) → (s.cntrl i).busy ≡ false → (u.cntrl i).busy ≡ false

pub HasIdle-kept : {s u : State} → StaysIdle s u → HasIdle s → HasIdle u
HasIdle-kept stays h = record {
  one = h.one;
  other = h.other;
  one_in = h.one_in;
  other_in = h.other_in;
  distinct = h.distinct;
  one_idle = stays h.one h.one_idle;
  other_idle = stays h.other h.other_idle;
}

-- one of them is not the slot `j`
pub idle_beside :
    (s : State) (j : ℕ) → HasIdle s → (k : ℕ) × (k < zmxblk) × (k ≢ j) × ((s.cntrl k).busy ≡ false)
idle_beside s j h = elim (Bool-cases (h.one == j)) [
  | inl e ↦ (h.other, h.other_in, (λ f. h.distinct ((==_iff h.one j).0 e ∙ sym f)), h.other_idle)
  | inr e ↦ (h.one, h.one_in, (λ f. ground (arith, e, f)), h.one_idle)
]

-- the block in slot `i` is copied into slot `j`
abbrev copied : State → (j i ts fs n : ℕ) → State
copied s j i ts fs n = record s {
  memrec = set s.memrec j (copy_keys ts fs n (s.memrec i) (s.memrec j));
  cntrl = set s.cntrl j (record (s.cntrl j) { writes = (s.cntrl j).writes + n });
}

-- a slot that was marked in between is not busy
unmarked-idle :
    (s t w : State) (j : ℕ)
    → ((i : ℕ) → (t.cntrl i).busy ≡ (s.cntrl i).busy)
    → ((i : ℕ) → (w.cntrl i).busy ≡ ((marked t j true).cntrl i).busy)
    → StaysIdle s (marked w j false)
unmarked-idle s t w j a b i e = ground (arith, a i, b i, e)

slot_of-run :
    (b j : ℕ) (s t : State)
    → brdblk (pos b) s ≡ ok (some j, false) t
    → slot_of (pos b) s ≡ ok (some j) t
unfolding slot_of
slot_of-run b j s t run = ground (arith, run)

bcpybk-step :
    (b f ts fs n j i : ℕ) (e : Bool) (s t u w x : State)
    → slot_of (pos b) s ≡ ok (some j) t
    → bsetbs (pos b) true t ≡ ok tt u
    → brdblk (pos f) u ≡ ok (some i, e) w
    → bsetbs (pos b) false w ≡ ok tt x
    → ts + n ≤ zmxkey
    → fs + n ≤ zmxkey
    → bcpybk (pos b) (pos f) ts fs n s ≡ ok tt (copied x j i ts fs n)
unfolding bcpybk
bcpybk-step b f ts fs n j i e s t u w x r1 r2 r3 r4 le le' = ground (arith, r1, r2, r3, r4, le, le')

-- the counts of writes are those of one change after `n - 1` others
abbrev counted : State → (j k : ℕ) → State
counted x j k = adjusted x j (record (x.cntrl j) { writes = (x.cntrl j).writes + k })

copied-touched :
    (x : State) (j i ts fs k : ℕ)
    → copied x j i ts fs (suc k)
      ≡ touched (counted x j k) j (copy_keys ts fs (suc k) (x.memrec i) (x.memrec j))
copied-touched x j i ts fs k =
    ap
      (λ c. record x {
        memrec = set x.memrec j (copy_keys ts fs (suc k) (x.memrec i) (x.memrec j));
        cntrl = c;
      })
      (fun_ext λ l. ground arith)

-- the copy, once both blocks are in slots
copy-Written :
    (x : State) (b j i ts fs k : ℕ) (m source : MemRec)
    → IsCache x
    → j < zmxblk
    → (x.cntrl j).inmem ≡ pos b
    → x.memrec j ≡ m
    → x.memrec i ≡ source
    → Written x (copied x j i ts fs (suc k)) b (copy_keys ts fs (suc k) source m)
copy-Written x b j i ts fs k m source v lt r em es =
    let y : State = counted x j k in
    let c : Cntrl = record (x.cntrl j) { writes = (x.cntrl j).writes + k } in
    let vy : IsCache y =
      adjusted-IsCache x j b v.free c v r refl refl (λ e. omega (arith, e)) v.free_in
        (ground (arith, v.free_idle)) in
    let ry : (y.cntrl j).inmem ≡ pos b = ground (arith, r) in
    let w =
      Written-by y y b j m (copy_keys ts fs (suc k) source) (Loaded-here y b j m vy lt ry em) in
    let seen : (a : ℕ) → view y a ≡ view x a =
      adjusted-view x j b v.free c v r refl refl (λ e. omega (arith, e)) v.free_in
        (ground (arith, v.free_idle)) in
    subst (λ z. Written x z b (copy_keys ts fs (suc k) source m))
      (ap (λ g. touched y j (copy_keys ts fs (suc k) g (x.memrec j))) (sym es)
        ∙ sym (copied-touched x j i ts fs k))
      (record {
        cache = w.cache;
        new = w.new;
        others = λ a ne. w.others a ne ∙ seen a;
        context = refl;
        busy = λ a. w.busy a ∙ ground arith;
      })

-- `n + 1` keys of one block were copied to another
abbrev pub Copied : State → ℕ → MemRec → State → Type 0
Copied s b m u =
    IsCache u
    × (view u b ≡ some m)
    × ((a : ℕ) → a ≢ b → view u a ≡ view s a)
    × SameContext s u
    × StaysIdle s u

module _ (s : State) (b f ts fs k : ℕ) (m source : MemRec) (v : IsCache s) (at : view s b ≡ some m)
    (from : view s f ≡ some source) (apart : b ≢ f) (idle : HasIdle s)
    (fits_to : ts + suc k ≤ zmxkey) (fits_from : fs + suc k ≤ zmxkey) where
  -- the slot of the to-block is marked, and another slot is not
  mark :
      (t : State) (j : ℕ)
      → IsCache t
      → (t.cntrl j).inmem ≡ pos b
      → ((i : ℕ) → (t.cntrl i).busy ≡ (s.cntrl i).busy)
      → IsCache (marked t j true) × ((a : ℕ) → view (marked t j true) a ≡ view t a)
  mark t j vt r same =
      let (q, q_in, ne, free) = idle_beside s j idle in
      let left : ((marked t j true).cntrl q).busy ≡ false = ground (arith, ne, same q, free) in
      let c : Cntrl = record (t.cntrl j) { busy = true } in
      (
        adjusted-IsCache t j b q c vt r refl refl (λ e. e) q_in left,
        adjusted-view t j b q c vt r refl refl (λ e. e) q_in left,
      )

  unmark :
      (t : State) (j : ℕ)
      → IsCache t
      → j < zmxblk
      → (t.cntrl j).inmem ≡ pos b
      → IsCache (marked t j false) × ((a : ℕ) → view (marked t j false) a ≡ view t a)
  unmark t j vt lt r =
      let c : Cntrl = record (t.cntrl j) { busy = false } in
      (
        adjusted-IsCache t j b j c vt r refl refl (λ e. e) lt (ground arith),
        adjusted-view t j b j c vt r refl refl (λ e. e) lt (ground arith),
      )

  -- Given a well-formed cache with two slots that are not busy, two different stored blocks and a
  -- number of keys, not 0, that stays in the arrays of both: `bcpybk` changes what the index stores at
  -- the to-block alone, by `copy_keys` from the from-block.
  pub bcpybk-Copied :
      Returns
        (λ _ u. Copied s b (copy_keys ts fs (suc k) source m) u)
        (bcpybk (pos b) (pos f) ts fs (suc k) s)
  bcpybk-Copied =
      let (r0, t, run0, (j, e0, l)) = outcome (slot_of-Loaded s b m v at) in
      let (r1, t', run1, (e1, l1)) = outcome (slot_of-resident s t b j m l) in
      let (vu, seen_u) = mark t' j l1.cache l1.resident (λ i. l1.busy i ∙ l.busy i) in
      let u : State = marked t' j true in
      let before : (a : ℕ) → view u a ≡ view s a = λ a. seen_u a ∙ l1.stored a ∙ l.stored a in
      let (r2, w, run2, (i, e2, lw)) = outcome (brdblk-Loaded u f source vu (before f ∙ from)) in
      let wired = lw.wired j (ground arith) in
      let inmem : (w.cntrl j).inmem ≡ pos b = wired.0 ∙ ground (arith, l1.resident) in
      let (r3, w', run3, (e3, cw, kw)) = outcome (brdblk-Kept w b j lw.cache l1.inside inmem) in
      let x : State = marked w' j false in
      let inmem' : (w'.cntrl j).inmem ≡ pos b = kw.inmem j ∙ inmem in
      let (vx, seen_x) = unmark w' j cw l1.inside inmem' in
      let mem : (a : ℕ) → x.memrec a ≡ w.memrec a = λ a. ap (λ (g : ℕ → MemRec). g a) kw.memrec in
      let done =
        copy-Written x b j i ts fs k m source vx l1.inside (ground (arith, inmem'))
          (mem j ∙ wired.1 ∙ l1.content) (mem i ∙ lw.content) in
      rw
        (bcpybk-step b f ts fs (suc k) j i false s t u w x (run0 ∙ ap (λ r. ok r t) e0)
          (bsetbs-marked b j true t t' (run1 ∙ ap (λ r. ok r t') e1)) (run2 ∙ ap (λ r. ok r w) e2)
          (bsetbs-marked b j false w w' (slot_of-run b j w w' (run3 ∙ ap (λ r. ok r w') e3)))
          fits_to fits_from)
        (returns (
          done.cache,
          done.new,
          λ a ne. done.others a ne ∙ seen_x a ∙ kw.stored a ∙ lw.stored a ∙ before a,
          context_trans s w (copied x j i ts fs (suc k))
              (context_trans s u w (context_trans s t t' l.context l1.context) lw.context)
              kw.context,
          λ i e.
              done.busy i
              ∙ unmarked-idle s t' w' j (λ a. l1.busy a ∙ l.busy a) (λ a. kw.busy a ∙ lw.busy a) i
                  e,
        ))
