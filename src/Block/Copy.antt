-- ===== src/Block/Copy.antt =====
-- src-lib/bcpybk.c: keys and links are copied to the start of another block.
use btlib.Prelude.{ℕ, zero, suc, ◌+◌, ◌-◌, ◌≡◌, ◌&&◌, set, ltb, leb, if◌then◌else◌, arith}
use btlib.Block.{copy_from}

-- the copied elements, the others stay
pub copy_from_lem :
    {A : Type 0} (n i j : ℕ) (src a : ℕ → A) (k : ℕ)
    → copy_from n i j src a k ≡ (if leb i k && ltb k (i + n) then src (j + (k - i)) else a k)
unfolding copy_from
copy_from_lem zero i j src a k = ground arith
copy_from_lem (suc n) i j src a k =
    ground (arith, copy_from_lem n (suc i) (suc j) src (set a i (src j)) k)
