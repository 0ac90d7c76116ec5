-- ===== src/Info/Words.antt =====
-- src-lib/bgtinf.c, bstinf.c and bsetbk.c against what the index stores.
use btlib.Prelude.{
  ℕ, zero, suc, ◌+◌, ◌*◌, ◌^◌, ◌<◌, ◌≡◌, refl, ap, ◌∙◌, false, some, ℤ, pos, negsuc, leb, arith,
}
use btlib.Consts.{zinfsz, zvers, zbtype}
use btlib.Machine.{State, MemRec, pure, ◌>>=◌, ◌>>◌}
use btlib.Machine.Returns
use btlib.Machine.Returns.{Returns, returns}
use btlib.Cache.View.{view, IsCache, SameContext, context_trans}
use btlib.Cache.Read.{Loaded}
use btlib.Info.{
  bgtinf, bstinf, bsetbk, info_word, is_beyond, store_info, fill_info, or_word, low_half, high_half,
}
use btlib.Info.Touch.{
  slot_of-Loaded, slot_of-resident, Written, touch-Written, touch-Loaded, Written-after,
  Written-trans,
}

-- From `s` to `t` the index stores the same.
pub record Unchanged (s t : State) : Type 0 where
  pub cache : IsCache t
  pub stored : (b : ℕ) → view t b ≡ view s b
  pub context : SameContext s t
  pub busy : (i : ℕ) → (t.cntrl i).busy ≡ (s.cntrl i).busy

pub unchanged : {s t : State} {n j : ℕ} {m : MemRec} → Loaded s t n j m → Unchanged s t
unchanged l = record { cache = l.cache; stored = l.stored; context = l.context; busy = l.busy }

pub Unchanged-trans : {s t u : State} → Unchanged s t → Unchanged t u → Unchanged s u
Unchanged-trans {s} {t} {u} a b = record {
  cache = b.cache;
  stored = λ n. b.stored n ∙ a.stored n;
  context = context_trans s t u a.context b.context;
  busy = λ i. b.busy i ∙ a.busy i;
}

-- a change after reads, and reads after a change
pub Written-later :
    {s t u : State} {n : ℕ} {m : MemRec} → Unchanged s t → Written t u n m → Written s u n m
Written-later {s} {t} {u} a b = record {
  cache = b.cache;
  new = b.new;
  others = λ k ne. b.others k ne ∙ a.stored k;
  context = context_trans s t u a.context b.context;
  busy = λ i. b.busy i ∙ a.busy i;
}

pub Written-kept :
    {s t u : State} {n : ℕ} {m : MemRec} → Written s t n m → Unchanged t u → Written s u n m
Written-kept {s} {t} {u} {n} a b = record {
  cache = b.cache;
  new = b.stored n ∙ a.new;
  others = λ k ne. b.stored k ∙ a.others k ne;
  context = context_trans s t u a.context b.context;
  busy = λ i. b.busy i ∙ a.busy i;
}

-- Given a well-formed cache, a block that the index stores and a type of word in range, `bgtinf`
-- returns that word; for the block type it is the lower half of the first word, and for the
-- version the upper half. Nothing that the index stores changes.
pub bgtinf-info_word :
    (s : State) (n : ℕ) (m : MemRec) (type w : ℤ)
    → IsCache s
    → view s n ≡ some m
    → is_beyond type ≡ false
    → info_word m type ≡ some w
    → Returns (λ r t. (r ≡ w) × Unchanged s t) (bgtinf (pos n) type s)
unfolding bgtinf
bgtinf-info_word s n m type w v h le e = rw le (
    Returns.bind (slot_of-Loaded s n m v h)
      λ r t (j, er, l). rw (er, l.content, e) (returns (refl, unchanged l)))

-- Given a well-formed cache and a block that the index stores, `bstinf` of a word in range changes
-- that word of the block and nothing else of what the index stores; the block type is stored below
-- the version.
pub bstinf-Written :
    (s : State) (n k : ℕ) (val : ℤ) (m : MemRec)
    → IsCache s
    → view s n ≡ some m
    → k < zinfsz
    → Returns (λ _ u. Written s u n (store_info k val m)) (bstinf (pos n) (pos k) val s)
unfolding bstinf
bstinf-Written s n k val m v h lt =
    let in_range : leb zinfsz k ≡ false = ground arith in
    rw in_range (
      Returns.bind (slot_of-Loaded s n m v h)
        λ r t (j, er, l). rw er (touch-Written s t n j m (store_info k val) l))

-- `bstinf` through a slot that is known to hold the block
pub bstinf-Loaded :
    (s t : State) (n j k : ℕ) (val : ℤ) (m : MemRec)
    → Loaded s t n j m
    → k < zinfsz
    → Returns
        (λ _ u. Written s u n (store_info k val m) × Loaded u u n j (store_info k val m))
        (bstinf (pos n) (pos k) val t)
unfolding bstinf
bstinf-Loaded s t n j k val m l lt =
    let in_range : leb zinfsz k ≡ false = ground arith in
    rw in_range (
      Returns.bind (slot_of-resident s t n j m l) λ r u (er, l'). rw er (
        Returns.mono (touch-Loaded t u n j m (store_info k val) l')
          λ _ w (a, b). (Written-after l a, b)))

-- Given a well-formed cache and a block that the index stores, `bsetbk` sets all information words
-- of the block and changes nothing else of what the index stores.
pub bsetbk-Written :
    (s : State) (n : ℕ) (type misc nxblk nkeys nblks dupblk : ℤ) (m : MemRec)
    → IsCache s
    → view s n ≡ some m
    → Returns
        (λ _ u. Written s u n (fill_info misc nxblk nkeys nblks dupblk (store_info zbtype type m)))
        (bsetbk (pos n) type misc nxblk nkeys nblks dupblk s)
unfolding bsetbk
bsetbk-Written s n type misc nxblk nkeys nblks dupblk m v h =
    Returns.bind (slot_of-Loaded s n m v h) λ r t (j, er, l). rw er (
      Returns.bind (bstinf-Loaded s t n j zbtype type m l (omega arith)) λ _ u (a, b).
        Returns.mono
          (touch-Written u u n j (store_info zbtype type m)
            (fill_info misc nxblk nkeys nblks dupblk) b)
          λ _ w c. Written-trans a c)

-- a block type fits below the version
type_bits :
    (type : ℕ) → type < 8 → or_word (zvers * 2 ^ 16) (pos type) ≡ pos (zvers * 2 ^ 16 + type)
type_bits zero h = refl
type_bits (suc zero) h = refl
type_bits (suc (suc zero)) h = refl
type_bits (suc (suc (suc zero))) h = refl
type_bits (suc (suc (suc (suc zero)))) h = refl
type_bits (suc (suc (suc (suc (suc zero))))) h = refl
type_bits (suc (suc (suc (suc (suc (suc zero)))))) h = refl
type_bits (suc (suc (suc (suc (suc (suc (suc zero))))))) h = refl
type_bits (suc (suc (suc (suc (suc (suc (suc (suc n)))))))) h = absurd (omega arith)

stored_type :
    (m : MemRec) (type : ℕ)
    → type < 8
    → info_word (store_info zbtype (pos type) m) (pos zbtype) ≡ some (pos type)
stored_type m type h =
    ap (λ (w : ℤ). some (low_half w)) (type_bits type h)
    ∙ (ap (λ (k : ℕ). some (pos k)) (omega arith))

stored_version :
    (m : MemRec) (type : ℕ)
    → type < 8
    → info_word (store_info zbtype (pos type) m) (negsuc 0) ≡ some (pos zvers)
stored_version m type h =
    ap (λ (w : ℤ). some (low_half (high_half w))) (type_bits type h)
    ∙ (ap (λ (k : ℕ). some (pos k)) (omega arith))

-- Given a well-formed cache and a block that the index stores, a block type below 8 that `bstinf`
-- stored is the type that `bgtinf` returns, and `bgtinf` returns the current version as well,
-- whatever the word held before.
pub bstinf-bgtinf :
    (s : State) (n type : ℕ) (m : MemRec)
    → IsCache s
    → view s n ≡ some m
    → type < 8
    → Returns
        (λ (ver, got) u. (ver ≡ pos zvers) × (got ≡ pos type) × IsCache u)
        ((do
          bstinf (pos n) (pos zbtype) (pos type)
          ver ← bgtinf (pos n) (negsuc 0)
          got ← bgtinf (pos n) (pos zbtype)
          pure (ver, got))
          s)
bstinf-bgtinf s n type m v h lt =
    Returns.bind (bstinf-Written s n zbtype (pos type) m v h (omega arith)) λ _ t a.
      Returns.bind
        (bgtinf-info_word t n _ (negsuc 0) (pos zvers) a.cache a.new refl
          (stored_version m type lt))
        λ ver u (e, b).
          Returns.bind
            (bgtinf-info_word u n _ (pos zbtype) (pos type) b.cache (b.stored n ∙ a.new) refl
              (stored_type m type lt))
            λ got w (e', c). returns (e, e', c.cache)
