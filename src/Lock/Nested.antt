-- ===== src/Lock/Nested.antt =====
-- src-lib/bsemap.c: the lock is re-entrant.
use btlib.Prelude.{ℕ, suc, ◌≡◌, refl, true, arith}
use btlib.Machine.{State, ok, ◌>>◌, ◌>>=◌, pure}
use btlib.Machine.Returns.{Returns, returns}
use btlib.Lock.{block, bulock}

block-held :
    (n : ℕ) (s : State) → s.lckcnt ≡ suc n → block s ≡ ok true (record s { lckcnt = suc (suc n) })
unfolding block
block-held n s h = ground (arith, h)

bulock-held :
    (n : ℕ) (s : State) → s.lckcnt ≡ suc (suc n) → bulock s ≡ ok tt (record s { lckcnt = suc n })
unfolding bulock
bulock-held n s h = ground (arith, h)

-- While the lock is held, a further `block` is granted without a request, and the `bulock` of it
-- leaves the index and the hold on the lock as they were: nothing is written.
pub block-bulock :
    (n : ℕ) (s : State)
    → s.lckcnt ≡ suc n
    → Returns
        (λ granted t. (granted ≡ true) × (t.lckcnt ≡ suc n) × (record t { lckcnt = s.lckcnt } ≡ s))
        ((do granted ← block; bulock; pure granted) s)
block-bulock n s h =
    rw (block-held n s h, bulock-held n (record s { lckcnt = suc (suc n) }) refl)
      (returns (refl, refl, refl))
