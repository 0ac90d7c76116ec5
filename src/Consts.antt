-- ===== src/Consts.antt =====
-- The constants of inc/bc.h and inc/bt.h in the default build (no large file support).
pub mod Codes
use btlib.Prelude.{ℕ, ◌+◌, ◌-◌, ◌*◌, ◌/◌, ◌%◌, ◌^◌, ℤ, pos, negsuc}

-- inc/bc.h: sizes
abbrev pub zbpw : ℕ
zbpw = 4

abbrev pub zrnamesz : ℕ
zrnamesz = 16

abbrev pub zkylen : ℕ
zkylen = 32

abbrev pub zmxblk : ℕ
zmxblk = 3

abbrev pub zblksz : ℕ
zblksz = 1024

abbrev pub zinfsz : ℕ
zinfsz = 6

-- number of keys per block
abbrev pub zmxkey : ℕ
zmxkey = (zblksz - zbpw - zinfsz * zbpw) / (zkylen + 3 * zbpw)

-- threshold for block joining
abbrev pub zthres : ℕ
zthres = 3

abbrev pub zvers : ℕ
zvers = 5

-- inc/bt.h
abbrev pub stkmax : ℕ
stkmax = 40

abbrev pub btint_max : ℕ
btint_max = 2 ^ 31 - 1

-- inc/bc.h: indexes of the information words
abbrev pub zbtype : ℕ
zbtype = 0

abbrev pub zmisc : ℕ
zmisc = 1

abbrev pub znxblk : ℕ
znxblk = 2

abbrev pub znkeys : ℕ
znkeys = 3

abbrev pub znblks : ℕ
znblks = 4

abbrev pub znxdup : ℕ
znxdup = 5

-- inc/bc.h: the data of a block, the information in front of a segment, and its minimal size
abbrev pub datasz : ℕ
datasz = zblksz - zinfsz * zbpw

abbrev pub zdrsz : ℕ
zdrsz = 2

abbrev pub zdovrh : ℕ
zdovrh = zdrsz + zbpw

abbrev pub zdsgmn : ℕ
zdsgmn = 7

-- inc/bt.h: the size of a duplicate's entry
abbrev pub dkeysz : ℕ
dkeysz = zkylen + 4 + 3 * zbpw

-- inc/bc.h: block types
abbrev pub zroot : ℕ
zroot = 1

abbrev pub zinuse : ℕ
zinuse = 2

abbrev pub zfree : ℕ
zfree = 3

abbrev pub zdata : ℕ
zdata = 4

abbrev pub zdup : ℕ
zdup = 5

-- the super block's number
abbrev pub zsuper : ℤ
zsuper = pos 0

-- the null block pointer
abbrev pub znull : ℤ
znull = negsuc 0
