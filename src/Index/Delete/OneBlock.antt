-- ===== src/Index/Delete/OneBlock.antt =====
-- src-lib/bdelky.c: the deletion of a key from an index of one block.
use mathlib.Core.Path.{fun_ext}
use btlib.Prelude.{
  ℕ, zero, suc, ◌≤◌, ◌<◌, ◌≡◌, ◌⊎◌, inl, inr, refl, sym, ap, subst, ◌∙◌, true, false, some, List,
  [], ◌∷◌, take, ◌-◌, ℤ, pos, ◌==ℤ◌, length, arith,
}
use btlib.Prelude.Keys.{Key}
use btlib.Consts.{zkylen, znull, zbtype, zroot, znkeys}
use btlib.Consts.Codes.{qnokey}
use btlib.Machine.{State, Super, MemRec, ok}
use btlib.Machine.Returns.{Returns, returns, outcome}
use btlib.Error.{bterr_clear, btgerr}
use btlib.Cache.View.{view, IsCache, rest-IsCache, rest-view}
use btlib.Info.{info_word}
use btlib.Block.{copy_key}
use btlib.Lock.{locked, unlock, bvalap}
use btlib.Dups.{DupStore}
use btlib.Index.Find.{bfndky}
use btlib.Index.Find.Tree.{Has, IsTree, IsInner}
use btlib.Index.Find.Gap.{same_block, block_or, magnitude}
use btlib.Index.Find.Keys.{FoundKey, bfndky-FoundKey}
use btlib.Index.Find.Path.{Stands}
use btlib.Index.Insert.Duplicate.{cleared}
use btlib.Index.Delete.{bdelky, bdelk1, find_key}
use btlib.Index.Delete.Leaf.{IsShrunk}
use btlib.Index.Delete.Root.{IsDeleted, bdelk1-IsDeleted}

module _ (d : DupStore) (fuel : ℕ) (key : Key) (s : State) (is_open : s.idxopen ≡ true)
    (alone : s.shared ≡ false) (mode : (s.super.smode ==ℤ pos 0) ≡ true) where
  bdelky-found :
      (x : ℤ) (code : ℕ) (u z : State)
      → bfndky d fuel key (pos 0) (cleared s) ≡ ok (0, x) u
      → bdelk1 d fuel (some key) u ≡ ok code z
      → z.shared ≡ false
      → z.err.qerror ≡ 0
      → bdelky d fuel (some key) s ≡ ok 0 z
  unfolding bdelky bterr_clear bvalap locked find_key unlock btgerr
  bdelky-found x code u z run run' free quiet =
      ground (arith, is_open, alone, mode, run, run', free, quiet)

  bdelky-missing :
      (x : ℤ) (u : State)
      → bfndky d fuel key (pos 0) (cleared s) ≡ ok (qnokey, x) u
      → u.shared ≡ false
      → u.err.qerror ≡ qnokey
      → bdelky d fuel (some key) s ≡ ok qnokey u
  unfolding bdelky bterr_clear bvalap locked find_key unlock btgerr
  bdelky-missing x u run free err = ground (arith, is_open, alone, mode, run, free, err)

-- what `bdelky` tells of a key, and leaves behind
abbrev pub DeletedOrMissing : State → Key → ℕ → State → Type 0
DeletedOrMissing s key code u =
    (((x : ℤ) × Has (view s) 1 s.super.scroot key x) × IsDeleted s key code u)
    ⊎ ((code ≡ qnokey)
        × ((x : ℤ) → ¬ (Has (view s) 1 s.super.scroot key x))
        × IsCache u
        × ((c : ℕ) → view u c ≡ view s c))

-- `bdelk1` where `bfndky` found the key
delete_there :
    (d : DupStore) (fuel b n l : ℕ) (key : Key) (m : MemRec) (u : State)
    → IsCache u
    → u.idxopen ≡ true
    → u.shared ≡ false
    → (u.super.smode ==ℤ pos 0) ≡ true
    → u.wt_threshold ≡ 0
    → u.err.qerror ≡ 0
    → u.super.scroot ≡ pos b
    → view u b ≡ some m
    → info_word m (pos zbtype) ≡ some (pos zroot)
    → IsInner (view u) true 0 (IsTree (view u) true 0) m n
    → l < n
    → copy_key key ≡ key
    → (m.keyblk l).key ≡ key
    → u.lf.lfblk ≡ pos b
    → u.lf.lfpos ≡ pos l
    → u.lf.lfexct ≡ true
    → u.lf.draddr ≡ znull
    → 1 < fuel
    → Returns (IsDeleted u key) (bdelk1 d fuel (some key) u)
delete_there d fuel b zero l key m u v o a mode wt q root at type inner lt short here blk place
      exact idle f =
    absurd (omega arith)
delete_there d fuel b (suc n) l key m u v o a mode wt q root at type inner lt short here blk place
      exact idle f =
    bdelk1-IsDeleted d fuel b l n key m u v o a mode wt q root at type inner (omega (arith, lt))
      short here exact idle blk place f

-- the place that `bfndky` found is in the root
Stands-in_root :
    (s u : State) (b n : ℕ) (key : Key) (m : MemRec)
    → s.super.scroot ≡ pos b
    → view s b ≡ some m
    → m.infblk znkeys ≡ pos n
    → Stands (view s) 1 s.super.scroot key u.lf
    → (l : ℕ) × (l < n)
      × ((m.keyblk l).key ≡ key)
      × (u.lf.lfblk ≡ pos b)
      × (u.lf.lfpos ≡ pos l)
      × (u.lf.lfexct ≡ true)
Stands-in_root s u b n key m root at count (_, _, _, _, _, _, inr (_, _, below)) = absurd below
Stands-in_root s u b n key m root at count
      (b', n', m', root', at', count', inl (l, lt, here, blk, place, exact)) =
    let (eb, en, em) =
      same_block (view s) s.super.scroot b b' n n' m m' root root' at at' count count' in
    (
      l,
      ground (arith, lt, en),
      ap (λ (y : MemRec). (y.keyblk l).key) em ∙ here,
      blk ∙ ap pos (sym eb),
      place,
      exact,
    )

-- the search of `bdelky`
module _ (d : DupStore) (fuel b n : ℕ) (key : Key) (m : MemRec) (s : State)
    (is_open : s.idxopen ≡ true) (alone : s.shared ≡ false)
    (mode : (s.super.smode ==ℤ pos 0) ≡ true) (direct : s.wt_threshold ≡ 0)
    (root : s.super.scroot ≡ pos b) (at : view s b ≡ some m)
    (type : info_word m (pos zbtype) ≡ some (pos zroot))
    (inner : IsInner (view s) true 0 (IsTree (view s) true 0) m n) (short : copy_key key ≡ key)
    (enough : 1 < fuel) where
  delete_found :
      (x : ℤ) (u : State)
      → bfndky d fuel key (pos 0) (cleared s) ≡ ok (0, x) u
      → FoundKey (cleared s) 1 key (0, x) u
      → Returns (DeletedOrMissing s key) (bdelky d fuel (some key) s)
  delete_found x u run (inr (e, _, _), _, _, _, _, _, _, _) = absurd (ground (arith, e))
  delete_found x u run (inl (_, has, stands, idle), cache, stored, quiet, free, super, wt, opened) =
      let same : view u ≡ view s =
        fun_ext λ c. stored c ∙ rest-view s s.lf s.stk s.stat s.super (cleared s).err s.keyent c in
      let there : view (cleared s) ≡ view s =
        fun_ext λ c. rest-view s s.lf s.stk s.stat s.super (cleared s).err s.keyent c in
      let (l, lt, here, blk, place, exact) =
        Stands-in_root s u b n key m root at inner.node.count
          (subst (λ f. Stands f 1 s.super.scroot key u.lf) there stands) in
      let (code, z, run', done) = outcome (
        delete_there d fuel b n l key m u cache (opened ∙ is_open) free
          (ap (λ (p : Super). p.smode ==ℤ pos 0) super ∙ mode) (wt ∙ direct) quiet
          (ap (λ (p : Super). p.scroot) super ∙ root) (ap (λ f. f b) same ∙ at) type
          (subst (λ f. IsInner f true 0 (IsTree f true 0) m n) (sym same) inner) lt short here blk
          place exact idle enough) in
      rw (bdelky-found d fuel key s is_open alone mode x code u z run run' done.4 done.3) (
        returns (
          inl (
            (x, subst (λ f. Has f 1 s.super.scroot key x) there has),
            (
              refl,
              done.1,
              done.2 ∙ super,
              done.3,
              done.4,
              subst (λ (p : Super). IsShrunk (view s) (view z) true 1 p.scroot key) super
                  (subst (λ f. IsShrunk f (view z) true 1 u.super.scroot key) same done.5),
              λ c ne.
                  done.6 c (λ e. ne (e ∙ ap (λ (p : Super). p.scroot) super)) ∙ ap (λ f. f c) same,
            ),
          )))

  delete_missing :
      (x : ℤ) (u : State)
      → bfndky d fuel key (pos 0) (cleared s) ≡ ok (qnokey, x) u
      → FoundKey (cleared s) 1 key (qnokey, x) u
      → Returns (DeletedOrMissing s key) (bdelky d fuel (some key) s)
  delete_missing x u run (inl (e, _, _, _), _, _, _, _, _, _, _) = absurd (ground (arith, e))
  delete_missing x u run (inr (_, absent, _), cache, stored, err, free, _, _, _) =
      let there : view (cleared s) ≡ view s =
        fun_ext λ c. rest-view s s.lf s.stk s.stat s.super (cleared s).err s.keyent c in
      rw (bdelky-missing d fuel key s is_open alone mode x u run free err) (
        returns (
          inr (
            refl,
            subst (λ f. (y : ℤ) → ¬ (Has f 1 s.super.scroot key y)) there absent,
            cache,
            λ c. stored c ∙ ap (λ f. f c) there,
          )))

  delete_told :
      (code : ℕ) (x : ℤ) (u : State)
      → bfndky d fuel key (pos 0) (cleared s) ≡ ok (code, x) u
      → FoundKey (cleared s) 1 key (code, x) u
      → Returns (DeletedOrMissing s key) (bdelky d fuel (some key) s)
  delete_told code x u run told = elim told.0 [
    | inl (e, _, _, _) ↦
        delete_found x u (run ∙ ap (λ k. ok (k, x) u) e)
          (subst (λ k. FoundKey (cleared s) 1 key (k, x) u) e told)
    | inr (e, _, _) ↦
        delete_missing x u (run ∙ ap (λ k. ok (k, x) u) e)
          (subst (λ k. FoundKey (cleared s) 1 key (k, x) u) e told)
  ]

-- a key that fits in an entry is copied whole
take_short {ℓ} : {A : Type ℓ} (n : ℕ) (xs : List A) → length xs ≤ n → take n xs ≡ xs
take_short zero [] le = refl
take_short (suc n) [] le = refl
take_short zero (x ∷ xs) le = absurd (omega arith)
take_short (suc n) (x ∷ xs) le = ap (λ ys. x ∷ ys) (take_short n xs (omega (arith, le)))

copied_whole : (key : Key) → length key < zkylen → copy_key key ≡ key
copied_whole key lt = take_short (zkylen - 1) key (omega (arith, lt))

abbrev TreeBelow : State → ℕ → MemRec → Type 0
TreeBelow s n m = IsInner (view s) true 0 (IsTree (view s) true 0) m n

-- In an open and writable index that is not shared and has no threshold for writing through, with
-- a well-formed cache, whose root is a leaf of the tree, of the type of a root, without duplicates
-- and not full: `bdelky` of a key of less than ZKYLEN characters returns. If the root has the key,
-- the result is 0, the root is then a search tree with the other keys and values and no others, and
-- the blocks besides the root are stored as before. Otherwise the result is QNOKEY, and the index
-- stores what it did.
pub bdelky-DeletedOrMissing :
    (d : DupStore) (fuel b : ℕ) (key : Key) (m : MemRec) (s : State)
    → s.idxopen ≡ true
    → s.shared ≡ false
    → (s.super.smode ==ℤ pos 0) ≡ true
    → s.wt_threshold ≡ 0
    → IsCache s
    → s.super.scroot ≡ pos b
    → view s b ≡ some m
    → info_word m (pos zbtype) ≡ some (pos zroot)
    → IsTree (view s) (s.super.smode ==ℤ pos 0) 1 s.super.scroot
    → length key < zkylen
    → 1 < fuel
    → Returns (DeletedOrMissing s key) (bdelky d fuel (some key) s)
bdelky-DeletedOrMissing d fuel b key m s o a mode wt v root at type (b', n, m', root', at', inner')
      short f =
    let em : m' ≡ m =
      ap (block_or m) (sym at' ∙ ap (view s) (ap magnitude (sym root' ∙ root)) ∙ at) in
    let inner : TreeBelow s n m =
      subst (λ k. TreeBelow s n k) em
        (subst (λ w. IsInner (view s) w 0 (IsTree (view s) w 0) m' n) mode inner') in
    let whole : copy_key key ≡ key = copied_whole key short in
    let c : State = cleared s in
    let there : view c ≡ view s =
      fun_ext λ i. rest-view s s.lf s.stk s.stat s.super c.err s.keyent i in
    let tree : IsTree (view s) true 1 s.super.scroot = (b, n, m, root, at, inner) in
    let (ans, u, run, told) = outcome (
      bfndky-FoundKey d fuel 1 key (pos 0) c o a
        (rest-IsCache s s.lf s.stk s.stat s.super c.err s.keyent v)
        (subst (λ g. IsTree g (s.super.smode ==ℤ pos 0) 1 s.super.scroot) (sym there)
          (subst (λ w. IsTree (view s) w 1 s.super.scroot) (sym mode) tree))
        (omega arith) f) in
    delete_told d fuel b n key m s o a mode wt root at type inner whole f ans.0 ans.1 u run
      (subst (λ k. FoundKey c 1 k ans u) whole told)
