-- ===== src/Data/Words/Laws.antt =====
-- src-lib/btdata.c: what is written to the bytes of a block is what is read from them.
use btlib.Prelude.{ℕ, ◌+◌, ◌*◌, ◌/◌, ◌%◌, ◌^◌, ◌<◌, ◌≡◌, ◌∙◌, ℤ, pos, negsuc, arith}
use btlib.Prelude.Digits.{bit_or-add}
use btlib.Consts.{zblksz}
use btlib.Data.Words.{bits, signed, rdsz, rdint, wrsz, wrint, mkdraddr, block_of, offset_of}

-- an integer of 32 bits
abbrev pub IsInt32 : ℤ → Type 0
IsInt32 (pos n) = n < 2 ^ 31
IsInt32 (negsuc n) = n < 2 ^ 31

bits_fit : (i : ℤ) → bits i < 2 ^ 32
bits_fit (pos n) = omega arith
bits_fit (negsuc n) = omega arith

signed-bits : (i : ℤ) → IsInt32 i → signed (bits i) ≡ i
signed-bits (pos n) fits = ground (arith, fits)
signed-bits (negsuc n) fits = ground (arith, fits)

bytes_of :
    (x : ℕ)
    → x < 2 ^ 32
    → x % 2 ^ 8 % 2 ^ 8
        + x / 2 ^ 8 % 2 ^ 8 % 2 ^ 8 * 2 ^ 8
        + x / 2 ^ 16 % 2 ^ 8 % 2 ^ 8 * 2 ^ 16
        + x / 2 ^ 24 % 2 ^ 8 % 2 ^ 8 * 2 ^ 24
      ≡ x
bytes_of x fits = omega (arith, fits)

rdint-sum : (i : ℤ) (a : ℕ → ℕ) (o : ℕ) → rdint (wrint i a o) o ≡ signed (bits i)
unfolding rdint wrint
rdint-sum i a o = ground (arith, bytes_of (bits i) (bits_fit i))

pub rdint-wrint : (i : ℤ) (a : ℕ → ℕ) (o : ℕ) → IsInt32 i → rdint (wrint i a o) o ≡ i
rdint-wrint i a o fits = rdint-sum i a o ∙ signed-bits i fits

pub rdsz-wrsz : (n : ℕ) (a : ℕ → ℕ) (o : ℕ) → n < 2 ^ 16 → rdsz (wrsz n a o) o ≡ n
unfolding rdsz wrsz
rdsz-wrsz n a o fits = ground (arith, fits)

-- a data address of a block below 2^21 is not negative
pub mkdraddr-sum : (b o : ℕ) → b < 2 ^ 21 → o < zblksz → mkdraddr (pos b) o ≡ pos (b * zblksz + o)
unfolding mkdraddr
mkdraddr-sum b o small inside = ground (arith, small, inside, bit_or-add 10 b o inside)

-- For a block number below 2^21, which an index of 32-bit addresses keeps to, and an offset in a
-- block, the block and the offset of the data address that `mkdraddr` makes are these.
pub mkdraddr-block_of :
    (b o : ℕ)
    → b < 2 ^ 21
    → o < zblksz
    → (block_of (mkdraddr (pos b) o) ≡ pos b) × (offset_of (mkdraddr (pos b) o) ≡ o)
unfolding block_of offset_of
mkdraddr-block_of b o small inside =
    rw (mkdraddr-sum b o small inside)
      (ground (arith, small, inside), ground (arith, small, inside))
