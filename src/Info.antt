-- ===== src/Info.antt =====
-- The information words of a block: src-lib/bgtinf.c, bstinf.c, bsetbk.c, in the default build.
pub mod Words
pub mod Touch
use Prim.Native.Nat.{bit_and, bit_or}
use btlib.Prelude.{
  ℕ, zero, suc, ◌+◌, ◌-◌, ◌*◌, ◌/◌, ◌%◌, ◌^◌, Bool, false, Option, none, some, ℤ, pos, negsuc, set,
  leb, ◌==◌, if◌then◌else◌,
}
use btlib.Consts.{zinfsz, zvers, zbtype, zmisc, znxblk, znkeys, znblks, znxdup}
use btlib.Consts.Codes.{qinfer, qrdblk}
use btlib.Machine.{
  State, Cntrl, MemRec, M, number, no_arg, pure, faulty, ◌>>=◌, ◌>>◌, get, set_memrec, set_cntrl,
}
use btlib.Error.{bterr}
use btlib.Cache.{slot_of}

-- `x & 0xffff` on a two's complement integer
abbrev pub low_half : ℤ → ℤ
low_half (pos n) = pos (n % 2 ^ 16)
low_half (negsuc n) = pos (2 ^ 16 - 1 - n % 2 ^ 16)

-- `x >> 16`
abbrev pub high_half : ℤ → ℤ
high_half (pos n) = pos (n / 2 ^ 16)
high_half (negsuc n) = negsuc (n / 2 ^ 16)

-- `a | x`
abbrev pub or_word : ℕ → ℤ → ℤ
or_word a (pos n) = pos (bit_or a n)
or_word a (negsuc n) = negsuc (n - bit_and n a)

-- The word of a block that `bgtinf` returns for a type; -1 is the version (ZBTVER). Another
-- negative type is an index outside `infblk`.
abbrev pub info_word : MemRec → ℤ → Option ℤ
info_word m (pos zero) = some (low_half (m.infblk zbtype))
info_word m (pos (suc k)) = some (m.infblk (suc k))
info_word m (negsuc zero) = some (low_half (high_half (m.infblk zbtype)))
info_word m (negsuc (suc k)) = none

-- `type >= ZINFSZ`
abbrev pub is_beyond : ℤ → Bool
is_beyond (pos k) = leb zinfsz k
is_beyond (negsuc k) = false

abbrev yield : Option ℤ → M ℤ
yield none = faulty
yield (some w) = pure w

unfoldable pub bgtinf : ℤ → ℤ → M ℤ
bgtinf blk type = if is_beyond type then (do bterr "BGTINF" qinfer no_arg; pure (pos 0)) else (do
  i ← slot_of blk
  elim i [
    | none ↦ do bterr "BGTINF" qrdblk (number blk); pure (pos 0)
    | some j ↦ do s ← get; yield (info_word (s.memrec j) type)
  ])

-- a change of the block in slot `j`, counted in `writes`
abbrev pub touch : ℕ → (MemRec → MemRec) → M (Unit {0})
touch j f = do set_memrec j f; set_cntrl j λ c. record c { writes = c.writes + 1 }

abbrev pub set_info : ℕ → ℤ → MemRec → MemRec
set_info k val m = record m { infblk = set m.infblk k val }

-- the assignment of `bstinf`, with the version in the upper half of the first word
abbrev pub store_info : ℕ → ℤ → MemRec → MemRec
store_info zero val m = set_info zbtype (or_word (zvers * 2 ^ 16) val) m
store_info (suc k) val m = set_info (suc k) val m

-- A negative type is refused as well.
unfoldable pub bstinf : ℤ → ℤ → ℤ → M (Unit {0})
bstinf blk (negsuc k) val = bterr "BSTINF" qinfer no_arg
bstinf blk (pos k) val = if leb zinfsz k then bterr "BSTINF" qinfer no_arg else (do
  i ← slot_of blk
  elim i [ none ↦ bterr "BSTINF" qrdblk (number blk) | some j ↦ touch j (store_info k val) ])

-- the words behind the first
abbrev pub fill_info : (misc nxblk nkeys nblks dupblk : ℤ) → MemRec → MemRec
fill_info misc nxblk nkeys nblks dupblk m =
    set_info znxdup dupblk (
      set_info znblks nblks (set_info znkeys nkeys (set_info znxblk nxblk (set_info zmisc misc m))))

unfoldable pub bsetbk : ℤ → (type misc nxblk nkeys nblks dupblk : ℤ) → M (Unit {0})
bsetbk blk type misc nxblk nkeys nblks dupblk = do
  i ← slot_of blk
  elim i [
    | none ↦ bterr "BSETBK" qrdblk (number blk)
    | some j ↦ do bstinf blk (pos zbtype) type; touch j (fill_info misc nxblk nkeys nblks dupblk)
  ]
