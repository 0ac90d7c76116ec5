-- ===== src/Consts/Codes.antt =====
-- The error codes of inc/bc.h.
use Prim.Native.Nat.{ℕ}

abbrev pub qblknr : ℕ
qblknr = 1

abbrev pub qcrtio : ℕ
qcrtio = 3

abbrev pub qcpblk : ℕ
qcpblk = 4

abbrev pub qwrblk : ℕ
qwrblk = 5

abbrev pub qrdsup : ℕ
qrdsup = 6

abbrev pub qwrsup : ℕ
qwrsup = 7

abbrev pub qrdblk : ℕ
qrdblk = 9

abbrev pub qsplit : ℕ
qsplit = 11

abbrev pub qinfer : ℕ
qinfer = 12

abbrev pub qnomem : ℕ
qnomem = 13

abbrev pub qstkuf : ℕ
qstkuf = 14

abbrev pub qstkof : ℕ
qstkof = 15

abbrev pub qblkfl : ℕ
qblkfl = 16

abbrev pub qloctb : ℕ
qloctb = 17

abbrev pub qspkey : ℕ
qspkey = 18

abbrev pub qwrmem : ℕ
qwrmem = 19

abbrev pub qbalse : ℕ
qbalse = 20

abbrev pub qdelex : ℕ
qdelex = 21

abbrev pub qdelcr : ℕ
qdelcr = 28

abbrev pub qbadix : ℕ
qbadix = 29

abbrev pub qnobtf : ℕ
qnobtf = 30

abbrev pub qinerr : ℕ
qinerr = 31

abbrev pub qbadap : ℕ
qbadap = 34

abbrev pub qbusy : ℕ
qbusy = 35

abbrev pub qbadctxt : ℕ
qbadctxt = 40

abbrev pub qlruer : ℕ
qlruer = 43

abbrev pub qdup : ℕ
qdup = 46

abbrev pub qnokey : ℕ
qnokey = 47

abbrev pub qnowrt : ℕ
qnowrt = 48

abbrev pub qnotfr : ℕ
qnotfr = 49

abbrev pub qbadvr : ℕ
qbadvr = 50

abbrev pub qf2big : ℕ
qf2big = 52

abbrev pub qnodups : ℕ
qnodups = 56

abbrev pub qposerr : ℕ
qposerr = 57

abbrev pub qnot64bit : ℕ
qnot64bit = 58

abbrev pub qb64 : ℕ
qb64 = 59

abbrev pub qnotdup : ℕ
qnotdup = 60

abbrev pub qdupsz : ℕ
qdupsz = 61

abbrev pub qbadir : ℕ
qbadir = 61

abbrev pub qdemse : ℕ
qdemse = 24

abbrev pub qdemsp : ℕ
qdemsp = 25

abbrev pub qjnse : ℕ
qjnse = 26

abbrev pub qclsio : ℕ
qclsio = 2

abbrev pub qopnio : ℕ
qopnio = 8

abbrev pub qixopn : ℕ
qixopn = 10

abbrev pub qdeler : ℕ
qdeler = 22

abbrev pub qdelrp : ℕ
qdelrp = 23

abbrev pub qnodef : ℕ
qnodef = 27

abbrev pub qbadop : ℕ
qbadop = 32

abbrev pub qnoact : ℕ
qnoact = 33

abbrev pub qnotop : ℕ
qnotop = 36

abbrev pub qnoblk : ℕ
qnoblk = 37

abbrev pub qnegsz : ℕ
qnegsz = 38

abbrev pub qnotda : ℕ
qnotda = 39

abbrev pub qdloop : ℕ
qdloop = 41

abbrev pub qunlck : ℕ
qunlck = 42

abbrev pub qdaerr : ℕ
qdaerr = 44

abbrev pub qdneg : ℕ
qdneg = 45

abbrev pub qdaovr : ℕ
qdaovr = 51

abbrev pub qbadal : ℕ
qbadal = 53

abbrev pub qdraneg : ℕ
qdraneg = 54

abbrev pub qblkszerr : ℕ
qblkszerr = 55
