-- ===== src/Lru.antt =====
-- src-lib/btque.c: the queue of the in-memory blocks, least recently used first. It is a singly
-- linked list through `lrunxt` with its head and tail in `lru`. The loops take one round more
-- than there are slots.
pub mod Queue
pub mod Move
pub mod Head
use btlib.Prelude.{
  ℕ, zero, suc, Bool, true, false, Option, none, some, ℤ, pos, negsuc, ◌==◌, if◌then◌else◌,
}
use btlib.Consts.{zmxblk}
use btlib.Consts.Codes.{qbadix, qlruer}
use btlib.Machine.{
  State, Lru, Cntrl, M, number, ok, out_of_fuel, pure, exhausted, faulty, skip, ◌>>=◌, ◌>>◌, get,
  modify, set_cntrl,
}
use btlib.Error.{bterr}

abbrev set_lrut : Option ℕ → M (Unit {0})
set_lrut i = modify λ s. record s { lru = record s.lru { lrut = i } }

abbrev set_lruh : Option ℕ → M (Unit {0})
set_lruh i = modify λ s. record s { lru = record s.lru { lruh = i } }

abbrev set_lrunxt : ℕ → Option ℕ → M (Unit {0})
set_lrunxt i j = set_cntrl i λ c. record c { lrunxt = j }

-- `cntrl[lrut].lrunxt = idx`; an index of -1 is outside the array
abbrev link_tail : Option ℕ → ℕ → M (Unit {0})
link_tail none idx = faulty
link_tail (some t) idx = set_lrunxt t (some idx)

unfoldable pub bqadd : ℕ → M (Unit {0})
bqadd idx = do
  s ← get
  elim s.lru.lruh [ none ↦ set_lruh (some idx) | some _ ↦ link_tail s.lru.lrut idx ]
  set_lrut (some idx)
  set_lrunxt idx none

infix 50 ◌==ₒ◌
abbrev ◌==ₒ◌ : Option ℕ → ℕ → Bool
none ==ₒ j = false
some i ==ₒ j = i == j

-- `while (i >= 0) { if (cntrl[i].lrunxt == idx) break; i = cntrl[i].lrunxt; }`
pub before : ℕ → (ℕ → Cntrl) → ℕ → Option ℕ → M (Option ℕ)
before zero c idx i = exhausted
before (suc k) c idx none = pure none
before (suc k) c idx (some i) =
    let rest = before k c idx (c i).lrunxt in if (c i).lrunxt ==ₒ idx then pure (some i) else rest

-- `idx` is not the head: take it out behind its predecessor
unlink : ℕ → M (Unit {0})
unfolding before
unlink idx = do
  s ← get
  i ← before (suc zmxblk) s.cntrl idx s.lru.lruh
  elim i [
    | some p ↦ set_lrunxt p (s.cntrl idx).lrunxt
    | none ↦ bterr "BQMOVE" qlruer (number (pos idx))
  ]

move : ℕ → M (Unit {0})
unfolding unlink
move idx = do
  s ← get
  if s.lru.lruh ==ₒ idx then set_lruh (s.cntrl idx).lrunxt else unlink idx
  link_tail s.lru.lrut idx
  set_lrunxt idx none
  set_lrut (some idx)

unfoldable pub bqmove : Option ℕ → M (Unit {0})
unfolding move
bqmove none = bterr "BQMOVE" qbadix (number (negsuc 0))
bqmove (some idx) = do s ← get; if s.lru.lrut ==ₒ idx then skip else move idx

-- the rounds of `bqhead`: a busy head goes to the tail
next_free : ℕ → M (Option ℕ)
next_free zero s = out_of_fuel
next_free (suc k) s = elim s.lru.lruh [
  | none ↦ ok none s
  | some i ↦ if (s.cntrl i).busy then (bqmove (some i) >> next_free k) s else ok (some i) s
]

unfoldable pub bqhead : M (Option ℕ)
unfolding next_free
bqhead = next_free (suc zmxblk)
