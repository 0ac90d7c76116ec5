-- ===== src/Machine.antt =====
-- inc/bt.h: the structures of an open index file, and the state in which the library's routines
-- run: the index (`btact`), the recorded error of src-lib/bterr.c, and the index file.
--
-- A command is a function from a state to a result and the next state. A routine of the library
-- does not stop at an error, it records the first one and goes on, so errors are part of the
-- state. `fault` is an access outside an array, and `out_of_fuel` a loop that used up its rounds.
pub mod Returns
use Prim.Native.String.{String}
use btlib.Prelude.{ℕ, Bool, Option, List, ℤ, set}
use btlib.Prelude.Keys.{Key}

-- `struct bt_cntrl`
pub record Cntrl : Type 0 where
  pub inmem : ℤ
  pub busy : Bool
  pub writes : ℕ
  pub lrunxt : Option ℕ

-- `struct bt_lru`; a negative index is `none`
pub record Lru : Type 0 where
  pub lrut : Option ℕ
  pub lruh : Option ℕ

-- `struct bt_keyent`
pub record KeyEnt : Type 0 where
  pub key : Key
  pub val : ℤ
  pub dup : ℤ

-- `struct bt_memrec`, also what a block of the index file holds. `bytes` is the `data` of
-- `struct bt_datblk`, which overlays the keys and links: a block is used for one of them at a time.
pub record MemRec : Type 0 where
  pub infblk : ℕ → ℤ
  pub keyblk : ℕ → KeyEnt
  pub lnkblk : ℕ → ℤ
  pub bytes : ℕ → ℕ

-- `struct bt_lf`, the context of the last find
pub record Lf : Type 0 where
  pub lfkey : Key
  pub lfblk : ℤ
  pub lfpos : ℤ
  pub lfexct : Bool
  pub draddr : ℤ

-- `struct bt_stats`
pub record Stats : Type 0 where
  pub xlogrd : ℕ
  pub xlogwr : ℕ
  pub xphyrd : ℕ
  pub xphywr : ℕ
  pub xsplit : ℕ
  pub xjoin : ℕ
  pub xbal : ℕ
  pub xgot : ℕ
  pub xrel : ℕ

-- `struct bt_stk`
pub record Stk : Type 0 where
  pub stkptr : ℤ
  pub stk : ℕ → ℤ

-- `struct bt_super`
pub record Super : Type 0 where
  pub sblkmx : ℤ
  pub snfree : ℤ
  pub sfreep : ℤ
  pub scroot : ℤ
  pub smode : ℤ
  pub smod : ℕ
  pub scclas : Key

-- the argument of an error message
pub data Arg : Type 0 where
  no_arg : Arg
  number : ℤ → Arg
  text : Key → Arg

-- the static variables of src-lib/bterr.c
pub record Err : Type 0 where
  pub qerror : ℕ
  pub qname : String
  pub qarg : Arg

-- `file n` is what a read of block `n` yields, `none` past the end of the file; `room n` says
-- whether the system takes a write of block `n`; `grants` are its answers to requests for the lock.
-- `keyent` is the variable of src-lib/bsrhbk.c that `bsrhbk` returns a pointer to
pub record State : Type 0 where
  pub idxopen : Bool
  pub shared : Bool
  pub lckcnt : ℕ
  pub wt_threshold : ℕ
  pub cntrl : ℕ → Cntrl
  pub memrec : ℕ → MemRec
  pub lru : Lru
  pub lf : Lf
  pub stk : Stk
  pub stat : Stats
  pub super : Super
  pub err : Err
  pub file : ℕ → Option MemRec
  pub room : ℕ → Bool
  pub grants : List Bool
  pub keyent : KeyEnt

pub data Run (A : Type 0) : Type 0 where
  ok : A → State → Run A
  fault : Run A
  out_of_fuel : Run A

abbrev pub M : Type 0 → Type 0
M A = State → Run A

abbrev pub pure : {A : Type 0} → A → M A
pure = ok

module _ {A B : Type 0} where
  abbrev pub and_then : Run A → (A → M B) → Run B
  and_then (ok a s) k = k a s
  and_then fault k = fault
  and_then out_of_fuel k = out_of_fuel

  infixl 5 ◌>>=◌ ◌>>◌
  abbrev pub ◌>>=◌ : M A → (A → M B) → M B
  m >>= k = λ s. and_then (m s) k

  abbrev pub ◌>>◌ : M A → M B → M B
  m >> n = m >>= λ _. n

-- the state
abbrev pub get : M State
get s = ok s s

abbrev pub modify : (State → State) → M (Unit {0})
modify f s = ok tt (f s)

-- an access outside an array
abbrev pub faulty : {A : Type 0} → M A
faulty s = fault

abbrev pub exhausted : {A : Type 0} → M A
exhausted s = out_of_fuel

abbrev pub skip : M (Unit {0})
skip = ok tt

-- `btact->cntrl[i] = f(btact->cntrl[i])`
abbrev pub set_cntrl : ℕ → (Cntrl → Cntrl) → M (Unit {0})
set_cntrl i f = modify λ s. record s { cntrl = set s.cntrl i (f (s.cntrl i)) }

-- `btact->memrec[i] = f(btact->memrec[i])`
abbrev pub set_memrec : ℕ → (MemRec → MemRec) → M (Unit {0})
set_memrec i f = modify λ s. record s { memrec = set s.memrec i (f (s.memrec i)) }

abbrev pub set_lf : (Lf → Lf) → M (Unit {0})
set_lf f = modify λ s. record s { lf = f s.lf }

abbrev pub set_super : (Super → Super) → M (Unit {0})
set_super f = modify λ s. record s { super = f s.super }

abbrev pub set_stat : (Stats → Stats) → M (Unit {0})
set_stat f = modify λ s. record s { stat = f s.stat }
