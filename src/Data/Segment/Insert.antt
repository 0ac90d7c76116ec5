-- ===== src/Data/Segment/Insert.antt =====
-- src-lib/btdata.c: what `insdat` stores.
use btlib.Prelude.{ℕ, ◌+◌, ◌≤◌, ◌≡◌, refl, ap, ◌∙◌, Bool, true, false, some, ℤ, pos, ◌-ℤ◌, arith}
use btlib.Consts.{datasz, zdovrh, zmisc, znkeys}
use btlib.Machine.{State, MemRec, ok, pure, ◌>>◌}
use btlib.Machine.Returns
use btlib.Machine.Returns.{Returns, returns, outcome}
use btlib.Cache.View.{view, IsCache}
use btlib.Cache.Read.{Loaded, brdblk-Loaded}
use btlib.Info.{bgtinf, set_info, touch}
use btlib.Info.Touch.{Written, Written-trans, touch-Written}
use btlib.Info.Words.{Written-later, Written-kept, bgtinf-info_word, bstinf-Written}
use btlib.Block.{write_through}
use btlib.Cache.{brdblk}
use btlib.Data.Segment.{count_segment, insdat, put_segment, store_segment, fits}

-- the block with the new segment
abbrev pub with_segment : (src : ℕ → ℕ) → (start size : ℕ) → ℤ → (o : ℕ) → ℤ → MemRec → MemRec
with_segment src start size prevseg o free m =
    set_info zmisc (free -ℤ pos (zdovrh + size))
      (set_info znkeys (pos (o + zdovrh + size)) (store_segment src start size prevseg o m))

no_threshold : (blk : ℤ) (j : ℕ) (s : State) → s.wt_threshold ≡ 0 → write_through blk j s ≡ ok tt s
no_threshold blk j s wt = ground (arith, wt)

counted :
    (s : State) (b n size : ℕ) (free : ℤ) (m : MemRec)
    → IsCache s
    → view s b ≡ some m
    → m.infblk zmisc ≡ free
    → s.wt_threshold ≡ 0
    → Returns
        (λ _ u. Written s u b (set_info zmisc (free -ℤ pos size) (set_info znkeys (pos n) m)))
        (count_segment (pos b) n size s)
unfolding count_segment
counted s b n size free m v at misc wt =
    Returns.bind (bstinf-Written s b znkeys (pos n) m v at (omega arith)) λ _ t c.
      Returns.bind (bgtinf-info_word t b _ (pos zmisc) free c.cache c.new refl (ap some misc))
        λ r w (e, k). rw e (
          Returns.mono
            (bstinf-Written w b zmisc (free -ℤ pos size) _ k.cache (k.stored b ∙ c.new)
              (omega arith))
            λ _ x z. Written-trans (Written-kept c k) z)

put_segment-step :
    (b o start size j : ℕ) (prevseg : ℤ) (src : ℕ → ℕ) (t u x : State) (a c : Unit {0})
    → fits o size ≡ true
    → touch j (store_segment src start size prevseg o) t ≡ ok a u
    → count_segment (pos b) (o + zdovrh + size) (zdovrh + size) u ≡ ok c x
    → x.wt_threshold ≡ 0
    → put_segment (pos b) src start size prevseg o j t ≡ ok tt x
unfolding put_segment
put_segment-step b o start size j prevseg src t u x a c inside run run' wt =
    ground (arith, inside, run, run', wt)

put_segment-Written :
    (s t : State) (b o start size j : ℕ) (prevseg free : ℤ) (src : ℕ → ℕ) (m : MemRec)
    → Loaded s t b j m
    → m.infblk zmisc ≡ free
    → fits o size ≡ true
    → s.wt_threshold ≡ 0
    → Returns
        (λ _ u. Written s u b (with_segment src start size prevseg o free m))
        (put_segment (pos b) src start size prevseg o j t)
unfolding store_segment
put_segment-Written s t b o start size j prevseg free src m l misc inside wt =
    let (q, u, run, a) =
      outcome (touch-Written s t b j m (store_segment src start size prevseg o) l) in
    let wt' : u.wt_threshold ≡ 0 = ap (λ (y : State). y.wt_threshold) a.context ∙ wt in
    let (q', x, run', z) =
      outcome (counted u b (o + zdovrh + size) (zdovrh + size) free _ a.cache a.new misc wt') in
    rw
      (put_segment-step b o start size j prevseg src t u x q q' inside run run'
        (ap (λ (y : State). y.wt_threshold) z.context ∙ wt'))
      (returns (Written-trans a z))

insdat-step :
    (b o start size j : ℕ) (prevseg : ℤ) (src : ℕ → ℕ) (s t u : State) (e : Bool)
    → bgtinf (pos b) (pos znkeys) s ≡ ok (pos o) t
    → brdblk (pos b) t ≡ ok (some j, e) u
    → insdat (pos b) src start size prevseg s
      ≡ (put_segment (pos b) src start size prevseg o j >> pure o) u
unfolding insdat
insdat-step b o start size j prevseg src s t u e keys run = ground (arith, keys, run)

-- Given a well-formed cache, no threshold for writing through, and a stored data block in which the
-- segment fits behind its first free byte, `insdat` stores the segment there and counts its bytes:
-- nothing but this block changes, and the offset of the segment is returned.
pub insdat-Written :
    (s : State) (b o start size : ℕ) (prevseg free : ℤ) (src : ℕ → ℕ) (m : MemRec)
    → IsCache s
    → view s b ≡ some m
    → m.infblk znkeys ≡ pos o
    → m.infblk zmisc ≡ free
    → o + zdovrh + size ≤ datasz
    → s.wt_threshold ≡ 0
    → Returns
        (λ r u. (r ≡ o) × Written s u b (with_segment src start size prevseg o free m))
        (insdat (pos b) src start size prevseg s)
insdat-Written s b o start size prevseg free src m v at keys misc inside wt =
    let (r, t, run, (e, un)) =
      outcome (bgtinf-info_word s b m (pos znkeys) (pos o) v at refl (ap some keys)) in
    let (_, u, run', (j, e', l)) = outcome (brdblk-Loaded t b m un.cache (un.stored b ∙ at)) in
    rw
      (insdat-step b o start size j prevseg src s t u false (run ∙ ap (λ k. ok k t) e)
        (run' ∙ ap (λ k. ok k u) e'))
      (Returns.bind
        (put_segment-Written t u b o start size j prevseg free src m l misc (ground (arith, inside))
          (ap (λ (y : State). y.wt_threshold) un.context ∙ wt))
        λ _ x z. returns (refl, Written-later un z))
