-- ===== src/Lib.antt =====
-- Verification of btlib, a library of B-tree index files: keys are strings of less than 32 bytes,
-- values and links are integers, and an index file is a sequence of blocks of 1,024 bytes.
--
-- An open index (`btact`) has a cache of ZMXBLK blocks with a queue of their use, the context of the
-- last find, a stack of the blocks on the way to it, the super block's data and statistics. A find
-- searches the blocks from the root down; an insertion puts its key into a leaf, and full blocks are
-- split on the way to it. Every routine on a block asks the cache for it, which writes another block
-- back to the file if it needs its slot. A shared index is locked in a call and its cache emptied
-- when the lock is given back. Routines record an error and go on.
--
-- The modules, and the code that they model (the definitions have the names of the C functions):
--   Prelude           shared names, numbers, arrays as functions, strcmp, lists of slots
--   Consts            inc/bc.h and STKMAX of inc/bt.h: constants and error codes
--   Machine           inc/bt.h: the structures; the state; commands, with faults and fuel
--   Error             src-lib/bterr.c: the recorded error
--   Stack             src-lib/btstk.c: the stack
--   Lru               src-lib/btque.c: the queue of the cache
--   Cache             src-lib/brdblk.c, bwrblk.c, bgtslt.c, bsetbs.c, initcntrl of bacini.c
--   Info              src-lib/bgtinf.c, bstinf.c, bsetbk.c: the information words of a block
--   Block             src-lib/bsrhbk.c, bputky.c, brepky.c, bremky.c, bcpybk.c: the keys of a block
--   Free              src-lib/bgtfre.c, bmkfre.c: new and freed blocks
--   Lock              src-lib/bsemap.c, bsuper.c, bvalap.c, btsync of btcls.c
--   Dups              src-lib/btdupkey.c: duplicate keys, over an interface of data records
--   Index             src-lib/bsptbk.c, bleaf.c, bfndky.c, bclrlf.c, binsky.c, bmodky.c, bupdky.c,
--                     btdups.c, bnxtky.c, bprvky.c, btpos.c; Index.Join and Index.Delete: bjoin.c,
--                     bjnblk.c, balbk1.c, balblk.c, bdemte.c, bdelk1.c, bdelky.c. Index.Split,
--                     Index.Insert, Index.Delete, Index.Walk and Index.Position have the proofs on
--                     splits, insertion, deletion and listing, Index.Find those on searches
--   Data              src-lib/btdata.c and context_ok of butil.c: data records, and in Data.Store the
--                     interface that Dups runs on
--   Roots             src-lib/btcrtr.c, btchgr.c, btdelr.c, bnxtbk.c, btkeys of butil.c, btlock.c,
--                     btthresh.c, bclrst.c; Roots.Files: btcrt.c, btopn.c, btcls.c
--   Shell             src-main/bt.c and btcmd.c: the commands of the interpreter, which are clients of
--                     the library: on keys (Shell.Keys), files (Shell.Files) and data (Shell.Data),
--                     and the words of a command line (Shell.Parse)
--   Examples, Tests   a small index, and the theorems applied to it
--
-- How the state is modelled:
--   - A command is a function from a state to a result and a next state, or to `fault`, an access
--     outside an array, or to `out_of_fuel`. `Machine.Returns` is total correctness: a result, with
--     a postcondition. An index of -1 is `none` where the code uses it for no slot.
--   - The file is a function from block numbers to contents; whether the system takes a write (`room`)
--     and grants a lock (`grants`) are parts of the state. `Cache.View.view` is what an index stores at
--     a block: the cache's copy, else the file's. `Cache.View.IsCache` is the invariant of the cache;
--     it includes that every write succeeds and that some slot is not busy.
--   - `Index.Find.Tree` is the search tree that an index stores below a link: `IsTree` is its order and
--     `Has` its content.
--   - `keyent` of src-lib/bsrhbk.c is part of the state, since callers keep pointers to it.
--   - Integers are unbounded, but for the information words' masks and the test of a file's size in
--     `bgtfre`, which wraps to 32 bits as the code does.
--
--   - The bytes of a data block are kept beside the keys and links of an index block, which they overlay
--     in C; a block is used as one of the two from the call that sets its type on. A data address is a
--     32-bit integer, of 22 bits for the block and 10 for the offset.
--   - A pointer to `keyent` that a caller keeps is read where the code reads it (`Index.Split.deref`), so
--     that a search in between changes what it points to.
--
-- Fuel: the loops of the queue run one round more than there are slots, and the binary search one
-- round more than a block has keys; the theorems on them show that this is enough. The loops of
-- `bfndky`, `bleaf`, `bnxtky`, `bprvky`, `btduppos`, `bdelk1`, `bnxtbk`, `btdelr`, `btkeys` and of the
-- segments of a record take their fuel as an argument; for `bfndky` and an insertion more than the height
-- of the tree is enough where no block is split, and for a record of one segment two rounds are.
--
-- Not modelled: the system's opening and closing of files, the table of open indexes and the memory of
-- an index (src-lib/bnewap.c, bacfre.c, btinit.c, and the parts of btcrt.c, btopn.c and btcls.c around
-- what Roots.Files has), and the file locks themselves; the recovery mode of `brecsz`, for
-- a second index; messages and the system's errno; the printed statistics of `btkeys` and other output
-- (btdispdups, src-lib/bdbug.c, bxdump.c); the interpreter's reading of lines, interrupts and help; the
-- other tools of src-main (btr.c, kcp.c, bigt.c, bigtdel.c), and the build with large file support.
pub mod Block
pub mod Cache
pub mod Consts
pub mod Data
pub mod Dups
pub mod Error
pub mod Examples
pub mod Free
pub mod Index
pub mod Info
pub mod Lock
pub mod Lru
pub mod Machine
pub mod Prelude
pub mod Roots
pub mod Shell
pub mod Stack
pub mod Tests
