-- ===== src/Data/Segment/Stored.antt =====
-- src-lib/btdata.c: a segment that was stored is read back.
use btlib.Prelude.{ℕ, zero, suc, ◌+◌, ◌^◌, ◌<◌, ◌≡◌, refl, ◌∙◌, ℤ, set, arith}
use btlib.Consts.{zdovrh, zdrsz}
use btlib.Machine.{MemRec}
use btlib.Data.Words.{rdsz, rdint, wrsz, wrint}
use btlib.Data.Words.Laws.{IsInt32, rdint-wrint, rdsz-wrsz}
use btlib.Data.Segment.{copy_bytes, store_segment, seg_size, next_seg}
use btlib.Data.Record.{bytes_from}

-- only the bytes that are copied to change
copy_bytes-before :
    (n start o : ℕ) (src a : ℕ → ℕ) (i : ℕ) → i < o → copy_bytes n start o src a i ≡ a i
unfolding copy_bytes
copy_bytes-before zero start o src a i lt = refl
copy_bytes-before (suc n) start o src a i lt =
    copy_bytes-before n (suc start) (suc o) src (set a o (src start)) i (omega (arith, lt))
    ∙ ground (arith, lt)

copy_bytes-bytes_from :
    (n start o : ℕ) (src a : ℕ → ℕ)
    → bytes_from n (copy_bytes n start o src a) o ≡ bytes_from n src start
unfolding copy_bytes
copy_bytes-bytes_from zero start o src a = refl
copy_bytes-bytes_from (suc n) start o src a =
    let b : ℕ → ℕ = set a o (src start) in
    let first : copy_bytes n (suc start) (suc o) src b o ≡ src start =
      copy_bytes-before n (suc start) (suc o) src b o (omega arith) ∙ ground arith in
    cc (first, copy_bytes-bytes_from n (suc start) (suc o) src b)

-- the information in front of the copied bytes
rdsz-before : (a b : ℕ → ℕ) (o : ℕ) → ((i : ℕ) → i < o + zdovrh → a i ≡ b i) → rdsz a o ≡ rdsz b o
unfolding rdsz
rdsz-before a b o same = rw (same o (omega arith), same (o + 1) (omega arith)) refl

rdint-before :
    (a b : ℕ → ℕ) (o : ℕ)
    → ((i : ℕ) → i < o + zdovrh → a i ≡ b i)
    → rdint a (o + zdrsz) ≡ rdint b (o + zdrsz)
unfolding rdint
rdint-before a b o same =
    rw
      (
        same (o + zdrsz) (omega arith),
        same (o + zdrsz + 1) (omega arith),
        same (o + zdrsz + 2) (omega arith),
        same (o + zdrsz + 3) (omega arith),
      )
      refl

wrint-before : (x : ℤ) (a : ℕ → ℕ) (o : ℕ) → rdsz (wrint x a (o + zdrsz)) o ≡ rdsz a o
unfolding wrint rdsz
wrint-before x a o = ground arith

-- For a size of 16 bits and an address of 32, the size, the address of the next segment and the
-- bytes that are read from a segment are those that were stored.
pub store_segment-seg_size :
    (src : ℕ → ℕ) (start size o : ℕ) (next : ℤ) (m : MemRec)
    → size < 2 ^ 16
    → IsInt32 next
    → (seg_size (store_segment src start size next o m) o ≡ size)
      × (next_seg (store_segment src start size next o m) o ≡ next)
      × (bytes_from size (store_segment src start size next o m).bytes (o + zdovrh)
          ≡ bytes_from size src start)
unfolding store_segment
store_segment-seg_size src start size o next m small fits =
    let a : ℕ → ℕ = wrint next (wrsz size m.bytes o) (o + zdrsz) in
    let b : ℕ → ℕ = copy_bytes size start (o + zdovrh) src a in
    let same : (i : ℕ) → i < o + zdovrh → b i ≡ a i =
      copy_bytes-before size start (o + zdovrh) src a in
    (
      rdsz-before b a o same
          ∙ wrint-before next (wrsz size m.bytes o) o
          ∙ rdsz-wrsz size m.bytes o small,
      rdint-before b a o same ∙ rdint-wrint next (wrsz size m.bytes o) (o + zdrsz) fits,
      copy_bytes-bytes_from size start (o + zdovrh) src a,
    )
