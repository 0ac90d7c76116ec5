-- ===== src/Data/Record/Select.antt =====
-- src-lib/btdata.c: what `bseldt` reads of a record of one segment.
use btlib.Prelude.{
  ℕ, zero, suc, ◌+◌, ◌^◌, ◌≤◌, ◌<◌, ◌≡◌, refl, sym, ap, subst, ◌∙◌, true, false, some, List, [],
  ◌++◌, ℤ, pos, ◌==ℤ◌, ◌==◌, arith,
}
use mathlib.Core.List.{append-nil}
use btlib.Consts.{zblksz, datasz, zdovrh, zbtype}
use btlib.Machine.{State, MemRec, ok}
use btlib.Machine.Returns.{Returns, returns, outcome}
use btlib.Cache.{brdblk}
use btlib.Cache.View.{view, IsCache}
use btlib.Cache.Read.{brdblk-Loaded}
use btlib.Info.{bgtinf, info_word}
use btlib.Info.Words.{Unchanged, unchanged, Unchanged-trans, bgtinf-info_word}
use btlib.Data.Words.{block_of, offset_of, mkdraddr}
use btlib.Data.Words.Laws.{mkdraddr-sum, mkdraddr-block_of}
use btlib.Data.Segment.{Kind, kind_word, of_records, of_dups, fits, seg_size, next_seg}
use btlib.Data.Record.{bseldt, bseldt_loop, slot_at, kind_of, min, bytes_from}

slot_at-run :
    (b o size j : ℕ) (s t : State)
    → brdblk (pos b) s ≡ ok (some j, false) t
    → fits o size ≡ true
    → slot_at (pos b) o size s ≡ ok j t
unfolding slot_at
slot_at-run b o size j s t run inside = ground (arith, run, inside)

-- the loop at the only segment
last_round :
    (k b o d size j : ℕ) (draddr : ℤ) (kind : Kind) (m : MemRec) (s t u : State)
    → block_of draddr ≡ pos b
    → offset_of draddr ≡ o
    → (draddr ==ℤ pos 0) ≡ false
    → (d == 0) ≡ false
    → bgtinf (pos b) (pos zbtype) s ≡ ok (kind_word kind) t
    → kind_of (kind_word kind) ≡ some kind
    → slot_at (pos b) o 0 t ≡ ok j u
    → u.memrec j ≡ m
    → seg_size m o ≡ size
    → next_seg m o ≡ pos 0
    → fits o (min size d) ≡ true
    → bseldt_loop (suc (suc k)) draddr d 0 s
      ≡ ok (pos (min size d), bytes_from (min size d) m.bytes (o + zdovrh) ++ []) u
unfolding bseldt_loop
last_round k b o d size j draddr kind m s t u eb eo address some_bytes word kinds slot content sz
      last inside =
    ground (arith, eb, eo, address, some_bytes, word, kinds, slot, content, sz, last, inside)

no_bytes :
    (fuel size : ℕ) (draddr : ℤ) (s : State)
    → bseldt_loop (suc fuel) draddr 0 0 s ≡ ok (pos 0, []) s
unfolding bseldt_loop
no_bytes fuel size draddr s = refl

min_zero : (size : ℕ) → min size 0 ≡ 0
min_zero size = ground arith

min_fits : (o size d : ℕ) → o + zdovrh + size ≤ datasz → fits o (min size d) ≡ true
min_fits o size d inside = ground (arith, inside)

kind_of_word : (kind : Kind) → kind_of (kind_word kind) ≡ some kind
kind_of_word of_records = refl
kind_of_word of_dups = refl

not_zero : (b o : ℕ) → 0 < b → b < 2 ^ 21 → o < zblksz → (mkdraddr (pos b) o ==ℤ pos 0) ≡ false
not_zero b o low high inside = rw (mkdraddr-sum b o high inside) (ground (arith, low))

untouched : (s : State) → IsCache s → Unchanged s s
untouched s v = record { cache = v; stored = λ b. refl; context = refl; busy = λ i. refl }

-- what a read of up to `d` bytes yields
abbrev pub Selected : State → MemRec → (o size d : ℕ) → ℤ × List ℕ → State → Type 0
Selected s m o size d (n, bytes) u =
    (n ≡ pos (min size d)) × (bytes ≡ bytes_from (min size d) m.bytes (o + zdovrh)) × Unchanged s u

-- Given a well-formed cache and a stored data block with a number from 1 to 2^21 - 1 in which, at
-- the offset, there is a segment that ends its record: `bseldt` of its address with room for `d`
-- bytes copies the first `d` bytes of the segment, or all if it has fewer, and returns their
-- number. The index stores what it did.
pub bseldt-Selected :
    (s : State) (fuel b o size d : ℕ) (kind : Kind) (m : MemRec)
    → IsCache s
    → view s b ≡ some m
    → 0 < b
    → b < 2 ^ 21
    → info_word m (pos zbtype) ≡ some (kind_word kind)
    → seg_size m o ≡ size
    → next_seg m o ≡ pos 0
    → o + zdovrh + size ≤ datasz
    → 1 < fuel
    → Returns (Selected s m o size d) (bseldt fuel (mkdraddr (pos b) o) (pos d) s)
unfolding bseldt
bseldt-Selected s zero b o size d kind m v at low high word sz last inside f = absurd (omega arith)
bseldt-Selected s (suc zero) b o size d kind m v at low high word sz last inside f =
    absurd (omega arith)
bseldt-Selected s (suc (suc k)) b o size zero kind m v at low high word sz last inside f =
    rw (no_bytes (suc k) size (mkdraddr (pos b) o) s) (
      returns (
        subst (λ n. (pos 0 ≡ pos n) × ([] ≡ bytes_from n m.bytes (o + zdovrh)) × Unchanged s s)
          (sym (min_zero size)) (refl, refl, untouched s v)))
bseldt-Selected s (suc (suc k)) b o size (suc d) kind m v at low high word sz last inside f =
    let (eb, eo) = mkdraddr-block_of b o high (omega (arith, inside)) in
    let (_, t, run, (e, un)) =
      outcome (bgtinf-info_word s b m (pos zbtype) (kind_word kind) v at refl word) in
    let (_, u, run', (j, e', l)) = outcome (brdblk-Loaded t b m un.cache (un.stored b ∙ at)) in
    rw
      (
        last_round k b o (suc d) size j (mkdraddr (pos b) o) kind m s t u eb eo
            (not_zero b o low high (omega (arith, inside))) (ground arith)
            (run ∙ ap (λ r. ok r t) e) (kind_of_word kind)
            (slot_at-run b o 0 j t u (run' ∙ ap (λ r. ok r u) e') (ground (arith, inside)))
            l.content sz last (min_fits o size (suc d) inside),
        append-nil (bytes_from (min size (suc d)) m.bytes (o + zdovrh)),
      )
      (returns (refl, refl, Unchanged-trans un (unchanged l)))
