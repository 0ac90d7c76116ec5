-- ===== src/Data/Record/Stored.antt =====
-- src-lib/btdata.c: a record that fits in the active block is read back.
use btlib.Prelude.{
  ℕ, zero, suc, ◌+◌, ◌^◌, ◌≤◌, ◌<◌, ◌≡◌, refl, ap, ◌∙◌, true, false, some, List, ℤ, pos, ◌-ℤ◌, less,
  ◌==ℤ◌, arith,
}
use btlib.Consts.{zinfsz, datasz, zdovrh, zbtype, zmisc, znkeys, znxdup}
use btlib.Machine.{State, MemRec, ok, ◌>>=◌}
use btlib.Machine.Returns
use btlib.Machine.Returns.{Returns, returns, outcome}
use btlib.Cache.View.{view, IsCache}
use btlib.Info.{bgtinf, info_word}
use btlib.Info.Touch.{Written}
use btlib.Info.Words.{Written-later, Unchanged, Unchanged-trans, bgtinf-info_word}
use btlib.Data.Words.{mkdraddr}
use btlib.Data.Segment.{Kind, kind_word, of_records, of_dups, store_segment, insdat}
use btlib.Data.Segment.Insert.{with_segment, insdat-Written}
use btlib.Data.Segment.Stored.{store_segment-seg_size}
use btlib.Data.Record.{binsdt, bseldt, listidx, min, bytes_from, active_block, store_rest}
use btlib.Data.Record.Select.{bseldt-Selected}

-- what was read are the first `n` bytes of the record
abbrev pub IsRead : (src : ℕ → ℕ) → ℕ → ℤ × List ℕ → State → Type 0
IsRead src n (size, bytes) u = (size ≡ pos n) × (bytes ≡ bytes_from n src 0) × IsCache u

min_same : (n : ℕ) → min n n ≡ n
min_same n = ground arith

pub same_type :
    (src : ℕ → ℕ) (size o : ℕ) (next free : ℤ) (m : MemRec)
    → info_word (with_segment src 0 size next o free m) (pos zbtype) ≡ info_word m (pos zbtype)
unfolding store_segment
same_type src size o next free m = refl

same_bytes :
    (src : ℕ → ℕ) (size o : ℕ) (next free : ℤ) (m : MemRec)
    → (with_segment src 0 size next o free m).bytes ≡ (store_segment src 0 size next o m).bytes
same_bytes src size o next free m = refl

pub bseldt-IsRead :
    (s t : State) (fuel b o size : ℕ) (kind : Kind) (free : ℤ) (src : ℕ → ℕ) (m : MemRec)
    → Written s t b (with_segment src 0 size (pos 0) o free m)
    → 0 < b
    → b < 2 ^ 21
    → info_word m (pos zbtype) ≡ some (kind_word kind)
    → o + zdovrh + size ≤ datasz
    → 1 < fuel
    → Returns (IsRead src size) (bseldt fuel (mkdraddr (pos b) o) (pos size) t)
bseldt-IsRead s t fuel b o size kind free src m w low high word inside f =
    let (sz, next, bytes) =
      store_segment-seg_size src 0 size o (pos 0) m (omega (arith, inside)) (omega arith) in
    Returns.mono
      (bseldt-Selected t fuel b o size size kind (with_segment src 0 size (pos 0) o free m) w.cache
        w.new low high (same_type src size o (pos 0) free m ∙ word) sz next inside f)
      λ (n, got) u (en, eg, un). (
        en ∙ ap pos (min_same size),
        eg
            ∙ ap (λ k. bytes_from k (store_segment src 0 size (pos 0) o m).bytes (o + zdovrh))
                (min_same size)
            ∙ bytes,
        un.cache,
      )

binsdt-step :
    (k b o r dsize : ℕ) (kind : Kind) (src : ℕ → ℕ) (mins : ℤ) (s t u w x y : State)
    → bgtinf s.super.scroot (pos (listidx kind)) s ≡ ok (pos b) t
    → bgtinf (pos b) (pos zbtype) t ≡ ok (kind_word kind) u
    → (kind_word kind ==ℤ kind_word kind) ≡ true
    → bgtinf (pos b) (pos znxdup) u ≡ ok mins w
    → bgtinf (pos b) (pos znkeys) w ≡ ok (pos o) x
    → less (pos datasz -ℤ pos o) (pos (dsize + zdovrh)) ≡ false
    → insdat (pos b) src 0 dsize (pos 0) x ≡ ok r y
    → binsdt (suc k) kind src dsize s ≡ ok (mkdraddr (pos b) r) y
unfolding binsdt active_block store_rest
binsdt-step k b o r dsize kind src mins s t u w x y root word same_kind least used room run =
    ground (arith, root, word, same_kind, least, used, room, run)

fits_here :
    (o dsize : ℕ)
    → o + zdovrh + dsize ≤ datasz
    → less (pos datasz -ℤ pos o) (pos (dsize + zdovrh)) ≡ false
fits_here o dsize inside = ground (arith, inside)

same_kind : (kind : Kind) → (kind_word kind ==ℤ kind_word kind) ≡ true
same_kind of_records = refl
same_kind of_dups = refl

-- a word of a stored block, as a run
pub word_run :
    (s : State) (n : ℕ) (m : MemRec) (k : ℕ) (w : ℤ)
    → IsCache s
    → view s n ≡ some m
    → k < zinfsz
    → info_word m (pos k) ≡ some w
    → (t : State) × (bgtinf (pos n) (pos k) s ≡ ok w t) × Unchanged s t
word_run s n m k w v at inside word =
    let (r, t, run, (e, un)) =
      outcome (bgtinf-info_word s n m (pos k) w v at (ground arith) word) in
    (t, run ∙ ap (λ x. ok x t) e, un)

-- The conditions under which a record of `dsize` bytes goes into the active block `b` of the root
-- `c`, at offset `o`.
pub record HasRoom (s : State) (kind : Kind) (c b o dsize : ℕ) (r m : MemRec) : Type 0 where
  pub cache : IsCache s
  pub root : s.super.scroot ≡ pos c
  pub root_at : view s c ≡ some r
  pub active : r.infblk (listidx kind) ≡ pos b
  pub at : view s b ≡ some m
  pub low : 0 < b
  pub high : b < 2 ^ 21
  pub type : info_word m (pos zbtype) ≡ some (kind_word kind)
  pub used : m.infblk znkeys ≡ pos o
  pub room : o + zdovrh + dsize ≤ datasz
  pub threshold : s.wt_threshold ≡ 0

active_word :
    (kind : Kind) (r : MemRec) (b : ℕ)
    → r.infblk (listidx kind) ≡ pos b
    → (listidx kind < zinfsz) × (info_word r (pos (listidx kind)) ≡ some (pos b))
active_word of_records r b e = (omega arith, ap some e)
active_word of_dups r b e = (omega arith, ap some e)

pub binsdt-Written :
    (s : State) (fuel c b o dsize : ℕ) (kind : Kind) (src : ℕ → ℕ) (r m : MemRec)
    → HasRoom s kind c b o dsize r m
    → 0 < fuel
    → Returns
        (λ a u.
          (a ≡ mkdraddr (pos b) o)
          × Written s u b (with_segment src 0 dsize (pos 0) o (m.infblk zmisc) m))
        (binsdt fuel kind src dsize s)
binsdt-Written s zero c b o dsize kind src r m has f = absurd (omega arith)
binsdt-Written s (suc k) c b o dsize kind src r m has f =
    let (inside, word) = active_word kind r b has.active in
    let (t, run, p) = word_run s c r (listidx kind) (pos b) has.cache has.root_at inside word in
    let (u, run', p') =
      word_run t b m zbtype (kind_word kind) p.cache (p.stored b ∙ has.at) (omega arith) has.type in
    let p2 = Unchanged-trans p p' in
    let (w, run2, q) =
      word_run u b m znxdup (m.infblk znxdup) p'.cache (p2.stored b ∙ has.at) (omega arith) refl in
    let p3 = Unchanged-trans p2 q in
    let (x, run3, q') =
      word_run w b m znkeys (pos o) q.cache (p3.stored b ∙ has.at) (omega arith)
        (ap some has.used) in
    let p4 = Unchanged-trans p3 q' in
    let (a, y, run4, (e, z)) = outcome (
      insdat-Written x b o 0 dsize (pos 0) (m.infblk zmisc) src m q'.cache (p4.stored b ∙ has.at)
        has.used refl has.room (ap (λ (g : State). g.wt_threshold) p4.context ∙ has.threshold)) in
    rw
      (binsdt-step k b o a dsize kind src (m.infblk znxdup) s t u w x y
        (ap (λ g. bgtinf g (pos (listidx kind)) s) has.root ∙ run) run' (same_kind kind) run2 run3
        (fits_here o dsize has.room) run4)
      (returns (ap (mkdraddr (pos b)) e, Written-later p4 z))

-- If the active data block of the current root has a number from 1 to 2^21 - 1, is of the kind of
-- the record and has room for all of it, the cache is well-formed, there is no threshold for writing
-- through and the fuel is at least 2: `bseldt` of the address that `binsdt` returns, with room for as
-- many bytes as the record has, yields the number of these bytes and the bytes of the record.
pub binsdt-bseldt :
    (s : State) (fuel c b o dsize : ℕ) (kind : Kind) (src : ℕ → ℕ) (r m : MemRec)
    → HasRoom s kind c b o dsize r m
    → 1 < fuel
    → Returns
        (IsRead src dsize)
        ((do draddr ← binsdt fuel kind src dsize; bseldt fuel draddr (pos dsize)) s)
binsdt-bseldt s fuel c b o dsize kind src r m has f =
    Returns.bind (binsdt-Written s fuel c b o dsize kind src r m has (omega arith)) λ a t (e, z).
      rw e (
        bseldt-IsRead s t fuel b o dsize kind (m.infblk zmisc) src m z has.low has.high has.type
          has.room f)
