-- ===== src/Stack/Laws.antt =====
-- src-lib/btstk.c: push and pull, and the bounds of the stack.
use btlib.Prelude.{
  ℕ, suc, ◌-◌, ◌<◌, ◌≡◌, refl, zero, if◌then◌else◌, ◌==◌, ℤ, pos, negsuc, inc, dec, set, arith,
}
use btlib.Consts.{stkmax}
use btlib.Machine.{State, ok, fault, ◌>>◌}
use btlib.Machine.Returns.{Returns, returns}
use btlib.Stack.{bpull, bpush}

-- The stack holds `n` elements.
abbrev pub HasDepth : ℕ → State → Type 0
HasDepth n s = inc s.stk.stkptr ≡ pos n

inc-dec : (n : ℕ) → inc (dec (pos n)) ≡ pos n
inc-dec zero = refl
inc-dec (suc n) = refl

pub ptr_of_inc : (p : ℤ) (n : ℕ) → inc p ≡ pos n → (p ≡ (if n == 0 then negsuc 0 else pos (n - 1)))
ptr_of_inc (pos m) n h = ground arith
ptr_of_inc (negsuc zero) n h = ground arith
ptr_of_inc (negsuc (suc m)) n h = ground arith

-- the state after a push on a stack of `n` elements
abbrev pub pushed : ℕ → ℤ → State → State
pushed n v s = record s { stk = record { stkptr = pos n; stk = set s.stk.stk n v } }

pub bpush-ok :
    (n : ℕ) (v : ℤ) (s : State) → HasDepth n s → n < stkmax → bpush v s ≡ ok tt (pushed n v s)
unfolding bpush
bpush-ok n v s d h = ground (arith, d, ptr_of_inc s.stk.stkptr n d)

pub bpull-ok :
    (n : ℕ) (s : State)
    → HasDepth (suc n) s
    → n < stkmax
    → bpull s ≡ ok (s.stk.stk n) (record s { stk = record s.stk { stkptr = dec (pos n) } })
unfolding bpull
bpull-ok n s d h = ground (arith, d, ptr_of_inc s.stk.stkptr (suc n) d)

-- Below STKMAX elements, what `bpush` puts on the stack `bpull` takes off, and the stack is as
-- high as before; no element below the pushed one has changed, and nothing else of the state.
pub bpush-bpull :
    (n : ℕ) (v : ℤ) (s : State)
    → HasDepth n s
    → n < stkmax
    → Returns
        (λ r s'.
          (r ≡ v)
          × HasDepth n s'
          × ((i : ℕ) → i < n → s'.stk.stk i ≡ s.stk.stk i)
          × (record s' { stk = s.stk } ≡ s))
        ((bpush v >> bpull) s)
bpush-bpull n v s d h =
    rw (bpush-ok n v s d h, bpull-ok n (pushed n v s) refl h)
      (returns (ground arith, inc-dec n, ground arith, refl))

-- A push on a stack of STKMAX elements is not refused: it writes behind the end of the array. The
-- guard compares the index of the top element, which is then STKMAX - 1, with STKMAX.
pub bpush_full : (v : ℤ) (s : State) → HasDepth stkmax s → bpush v s ≡ fault
unfolding bpush
bpush_full v s d = ground (arith, d, ptr_of_inc s.stk.stkptr stkmax d)
