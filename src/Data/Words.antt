-- ===== src/Data/Words.antt =====
-- src-lib/btdata.c: sizes and addresses in the bytes of a block, and data addresses.
pub mod Laws
use Prim.Native.Nat.{bit_or}
use btlib.Prelude.{ℕ, suc, ◌+◌, ◌-◌, ◌*◌, ◌/◌, ◌%◌, ◌^◌, ℤ, pos, negsuc, set, ltb, if◌then◌else◌}
use btlib.Consts.{zblksz}

-- the bits of a 32-bit integer, and the integer of 32 bits
abbrev pub bits : ℤ → ℕ
bits (pos n) = n % 2 ^ 32
bits (negsuc n) = 2 ^ 32 - 1 - n % 2 ^ 32

abbrev pub signed : ℕ → ℤ
signed x = if ltb x (2 ^ 31) then pos x else negsuc (2 ^ 32 - 1 - x)

-- `*a & 0xff`
abbrev pub byte : (ℕ → ℕ) → ℕ → ℕ
byte a i = a i % 2 ^ 8

-- Bytes that are shifted to their places do not overlap, so `|` adds them.
unfoldable pub rdsz : (ℕ → ℕ) → ℕ → ℕ
rdsz a o = byte a o + byte a (o + 1) * 2 ^ 8

unfoldable pub rdint : (ℕ → ℕ) → ℕ → ℤ
rdint a o =
    signed (byte a o + byte a (o + 1) * 2 ^ 8 + byte a (o + 2) * 2 ^ 16 + byte a (o + 3) * 2 ^ 24)

-- A size is cut to 16 bits.
unfoldable pub wrsz : ℕ → (ℕ → ℕ) → ℕ → ℕ → ℕ
wrsz i a o = set (set a o (i % 2 ^ 8)) (o + 1) (i / 2 ^ 8 % 2 ^ 8)

unfoldable pub wrint : ℤ → (ℕ → ℕ) → ℕ → ℕ → ℕ
wrint i a o =
    let x : ℕ = bits i in
    set (set (set (set a o (x % 2 ^ 8)) (o + 1) (x / 2 ^ 8 % 2 ^ 8)) (o + 2) (x / 2 ^ 16 % 2 ^ 8))
      (o + 3) (x / 2 ^ 24 % 2 ^ 8)

-- the block of a data address; the division rounds to zero
unfoldable pub block_of : ℤ → ℤ
block_of (pos n) = pos (n / zblksz)
block_of (negsuc n) = let q : ℕ = suc n / zblksz in if ltb 0 q then negsuc (q - 1) else pos 0

-- its offset: `draddr & (ZBLKSZ-1)`
unfoldable pub offset_of : ℤ → ℕ
offset_of draddr = bits draddr % zblksz

-- `dblk*ZBLKSZ | offset`, in 32 bits
unfoldable pub mkdraddr : ℤ → ℕ → ℤ
mkdraddr dblk offset = signed (bit_or (bits dblk * zblksz % 2 ^ 32) (offset % 2 ^ 32))
