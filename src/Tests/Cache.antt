-- ===== src/Tests/Cache.antt =====
-- The theorems at concrete states: the stack, the errors, the queue, the cache and the information words.
use btlib.Prelude.{ℕ, ◌<◌, ◌≡◌, refl, false, some, [], ◌∷◌, pos, negsuc, arith}
use btlib.Consts.{znull, zbtype, zroot, zvers}
use btlib.Consts.Codes.{qrdblk, qblkfl}
use btlib.Machine.{State, ok, fault, no_arg, number, ◌>>◌, ◌>>=◌, pure}
use btlib.Machine.Returns.{Returns}
use btlib.Error.{bterr, btgerr}
use btlib.Error.Laws.{Report, bterr_each, first_error, bterr-first}
use text.Mathlib.TextEquality.{eq_iff}
use btlib.Stack.{bpush, bpull}
use btlib.Stack.Laws.{HasDepth, bpush-bpull, bpush_full}
use btlib.Lru.{bqmove, bqhead}
use btlib.Lru.Move.{IsQueue, SameButQueue, bqmove-to_back}
use btlib.Lru.Head.{Found, bqhead-first}
use btlib.Cache.{brdblk, bwrblk, bgtslt}
use btlib.Cache.View.{view, IsCache}
use btlib.Cache.Kept.{Kept}
use btlib.Cache.Evict.{IsSpare, bwrblk-stores, bgtslt-IsSpare}
use btlib.Cache.Read.{LoadedAt, brdblk-Loaded}
use btlib.Info.{bgtinf, bstinf, bsetbk, store_info, fill_info}
use btlib.Info.Touch.{Written}
use btlib.Info.Words.{bsetbk-Written, bstinf-bgtinf}
use btlib.Examples.{leaf, inner, index, index-IsQueue, index-IsCache, stores_leaf, stores_inner}

bqmove-to_back_example :
    Returns (λ _ t. IsQueue t (0 ∷ (2 ∷ (1 ∷ []))) × SameButQueue index t) (bqmove (some 1) index)
bqmove-to_back_example = bqmove-to_back index (1 ∷ (0 ∷ (2 ∷ []))) 1 index-IsQueue (omega arith)

bqhead-first_example : Returns (Found index (0 ∷ (2 ∷ (1 ∷ []))) 0) (bqhead index)
bqhead-first_example = bqhead-first (1 ∷ []) (2 ∷ []) 0 index index-IsQueue (refl, tt) refl

bwrblk-stores_example :
    Returns
      (λ ioerr t.
        (ioerr ≡ false)
        × IsCache t
        × Kept index t
        × (t.file 5 ≡ view index 5)
        × ((t.cntrl 0).writes ≡ 0))
      (bwrblk (pos 5) index)
bwrblk-stores_example = bwrblk-stores index 0 5 index-IsCache (omega arith) refl

bgtslt-IsSpare_example :
    Returns (λ r t. (j : ℕ) × (r ≡ some j) × IsCache t × Kept index t × IsSpare t j) (bgtslt index)
bgtslt-IsSpare_example = bgtslt-IsSpare index index-IsCache

brdblk-Loaded_example : Returns (LoadedAt index 7 inner) (brdblk (pos 7) index)
brdblk-Loaded_example = brdblk-Loaded index 7 inner index-IsCache stores_inner

bsetbk-Written_example :
    Returns
      (λ _ u.
        Written index u 5
          (fill_info (pos 0) znull (pos 2) znull znull (store_info zbtype (pos zroot) leaf)))
      (bsetbk (pos 5) (pos zroot) (pos 0) znull (pos 2) znull znull index)
bsetbk-Written_example =
    bsetbk-Written index 5 (pos zroot) (pos 0) znull (pos 2) znull znull leaf index-IsCache
      stores_leaf

bstinf-bgtinf_example :
    Returns
      (λ (ver, got) u. (ver ≡ pos zvers) × (got ≡ pos 2) × IsCache u)
      ((do
        bstinf (pos 5) (pos zbtype) (pos 2)
        ver ← bgtinf (pos 5) (negsuc 0)
        got ← bgtinf (pos 5) (pos zbtype)
        pure (ver, got))
        index)
bstinf-bgtinf_example = bstinf-bgtinf index 5 2 leaf index-IsCache stores_leaf (omega arith)

bpush-bpull_example :
    Returns
      (λ r s.
        (r ≡ pos 7)
        × HasDepth 0 s
        × ((i : ℕ) → i < 0 → s.stk.stk i ≡ index.stk.stk i)
        × (record s { stk = index.stk } ≡ index))
      ((bpush (pos 7) >> bpull) index)
bpush-bpull_example = bpush-bpull 0 (pos 7) index refl (omega arith)

-- a stack with `stkmax` elements
abbrev full_stack : State
full_stack = record index { stk = record { stkptr = pos 39; stk = λ i. pos i } }

bpush_full_example : bpush (pos 7) full_stack ≡ fault
bpush_full_example = bpush_full (pos 7) full_stack refl

abbrev first_report : Report
first_report = record { name = "BRDBLK"; code = qrdblk; arg = number (pos 3) }

bterr-first_example :
    (bterr "" 0 no_arg
        >> bterr_each
            (first_report ∷ ((record { name = "BSRHBK"; code = qblkfl; arg = no_arg }) ∷ []))
        >> btgerr)
      index
    ≡ ok qrdblk (record index { err = first_error first_report })
bterr-first_example =
    bterr-first first_report ((record { name = "BSRHBK"; code = qblkfl; arg = no_arg }) ∷ []) index
      (omega arith)
      ((λ e. ground (arith, eq_iff "BRDBLK" "")), ((λ e. ground (arith, eq_iff "BSRHBK" "")), tt))
