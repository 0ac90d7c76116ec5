-- ===== src/Block.antt =====
-- The keys and links of one block: src-lib/bsrhbk.c, bputky.c, brepky.c, bremky.c, bcpybk.c. The
-- arrays of a block have ZMXKEY keys and ZMXKEY + 1 links; a routine that a key count or a
-- position takes outside them faults.
pub mod Search
pub mod Linear
pub mod Put
pub mod Place
pub mod Links
pub mod Remove
pub mod Undo
pub mod Stored
pub mod Changed
pub mod Copy
pub mod Join
pub mod Transfer
pub mod Part
use Prim.Native.Nat.{Ordering}
use btlib.Prelude.{
  ℕ, zero, suc, ◌+◌, ◌-◌, ◌/◌, Bool, true, false, not, ◌&&◌, Option, none, some, ℤ, pos, negsuc,
  inc, dec, is_neg, ◌==ℤ◌, ltb, leb, ◌==◌, if◌then◌else◌, set, take,
}
use btlib.Prelude.Keys.{Key, strcmp}
use btlib.Consts.{zmxkey, zkylen, znkeys, znull}
use btlib.Consts.Codes.{qrdblk, qblkfl, qloctb, qcpblk}
use btlib.Machine.{
  State, Cntrl, KeyEnt, MemRec, M, number, no_arg, ok, pure, faulty, exhausted, skip, ◌>>=◌, ◌>>◌,
  get, modify, set_memrec, set_cntrl,
}
use btlib.Error.{bterr}
use btlib.Cache.{brdblk, slot_of, bsetbs, bwrblk}
use btlib.Info.{touch, set_info}

-- `strncpy(…, ZKYLEN)` and the NUL in the last byte
abbrev pub copy_key : Key → Key
copy_key k = take (zkylen - 1) k

-- the variables that `bsrhbk` reads and writes through its pointers, and whether it returned one
pub record Probe : Type 0 where
  pub key : Key
  pub loc : ℤ
  pub val : ℤ
  pub link1 : ℤ
  pub link2 : ℤ
  pub result : Ordering
  pub hit : Bool

-- The `while` loop of `bsrhbk`, `hi` being one more than in the source, where it ends at -1.
unfoldable pub bin_search :
    ℕ → (ℕ → KeyEnt) → Key → ℕ → ℕ → Bool → ℤ → Ordering → Option (ℤ × Ordering)
bin_search zero a key lo hi quit md result = none
bin_search (suc k) a key lo hi quit md result =
    let m : ℕ = (lo + hi - 1) / 2 in
    let last : Bool = suc lo == hi in
    let round : Option (ℤ × Ordering) = elim (strcmp key (a m).key) [
      | Ordering.gt ↦ bin_search k a key (suc m) hi last (pos m) Ordering.gt
      | Ordering.lt ↦ bin_search k a key lo m last (pos m) Ordering.lt
      | Ordering.eq ↦ some (pos m, Ordering.eq)
    ] in
    if ltb lo hi && not quit then round else some (md, result)

-- the key count; a negative one acts as 0
abbrev pub key_count : MemRec → ℕ
key_count m = elim (m.infblk znkeys) [ pos n ↦ n | negsuc n ↦ 0 ]

-- what `bsrhbk` reads at the location that it ends with
unfoldable pub report : MemRec → Probe → M Probe
report m p = elim p.loc [
  | negsuc _ ↦ pure (record p { val = pos 0; link1 = znull; link2 = znull; hit = false })
  | pos l ↦
      if ltb l zmxkey
      then (do
        modify λ s. record s { keyent = m.keyblk l }
        pure (record p {
          val = (m.keyblk l).val;
          link1 = m.lnkblk l;
          link2 = m.lnkblk (suc l);
          hit = true;
        }))
      else faulty
]

-- a location was given
unfoldable pub probe_at : MemRec → Probe → ℕ → M Probe
probe_at m p l =
    if leb (key_count m) l
    then pure (record p { result = Ordering.lt; hit = false })
    else report m (record p { key = copy_key (m.keyblk l).key; result = Ordering.eq })

-- none was given: the key is looked for
unfoldable pub probe_for : MemRec → Probe → M Probe
probe_for m p =
    if ltb zmxkey (key_count m)
    then faulty
    else elim (bin_search (suc zmxkey) m.keyblk p.key 0 (key_count m) false (negsuc 0)
        Ordering.lt) [
          | none ↦ exhausted
          | some (loc, result) ↦ report m (record p { loc = loc; result = result })
        ]

-- the block in the slot
unfoldable pub probe_slot : Probe → ℕ → M Probe
probe_slot p j = do
  s ← get
  elim p.loc [ pos l ↦ probe_at (s.memrec j) p l | negsuc _ ↦ probe_for (s.memrec j) p ]

unfoldable pub bsrhbk : ℤ → Probe → M Probe
bsrhbk blk p = do
  i ← slot_of blk
  elim i [
    | none ↦ do bterr "BSRHBK" qrdblk (number blk); pure (record p { hit = false })
    | some j ↦ probe_slot p j
  ]

-- The `for` loop of `bputky` from position `i` down: the keys that do not sort before `key` move up
-- one place, with the links to their right. The result is the free position.
unfoldable pub make_room : Key → ℕ → (ℕ → KeyEnt) → (ℕ → ℤ) → ℕ × (ℕ → KeyEnt) × (ℕ → ℤ)
make_room key zero ks ls = (zero, ks, ls)
make_room key (suc i) ks ls =
    let rest = make_room key i (set ks (suc i) (ks i)) (set ls (suc (suc i)) (ls (suc i))) in
    elim (strcmp key (ks i).key) [ Ordering.gt ↦ (suc i, ks, ls) | _ ↦ rest ]

-- the links at the position of the new key
unfoldable pub put_links : (link1 link2 : ℤ) → ℕ → (ℕ → ℤ) → ℕ → ℤ
put_links link1 link2 i ls =
    let ls' : ℕ → ℤ = if i == 0 then set ls 1 (ls 0) else ls in
    if (link1 ==ℤ znull) && (link2 ==ℤ znull)
    then set (set ls' i znull) (suc i) znull
    else (let ls'' : ℕ → ℤ = if i == 0 then set ls' 0 link1 else ls' in
        if is_neg link2 then ls'' else set ls'' (suc i) link2)

-- the change of a block with `n` keys, `n` below ZMXKEY
unfoldable pub put_key : KeyEnt → (link1 link2 : ℤ) → ℕ → MemRec → MemRec
unfolding make_room put_links
put_key e link1 link2 n m =
    let (i, ks, ls) =
      (if (link1 ==ℤ znull) && not (link2 ==ℤ znull)
        then (n, m.keyblk, m.lnkblk)
        else make_room e.key n m.keyblk m.lnkblk) in
    record m {
      infblk = set m.infblk znkeys (inc (m.infblk znkeys));
      keyblk = if n == 0 then set m.keyblk 0 e else set ks i e;
      lnkblk = if n == 0 then set (set m.lnkblk 0 link1) 1 link2 else put_links link1 link2 i ls;
    }

-- `if (wt_threshold > 0 && writes > wt_threshold) bwrblk(blk);`
abbrev pub write_through : ℤ → ℕ → M (Unit {0})
write_through blk j = do
  s ← get
  if ltb 0 s.wt_threshold && ltb s.wt_threshold (s.cntrl j).writes then bwrblk blk >> skip else skip

unfoldable pub put_slot : ℤ → KeyEnt → (link1 link2 : ℤ) → ℕ → M (Unit {0})
put_slot blk e link1 link2 j = do
  s ← get
  elim ((s.memrec j).infblk znkeys) [
    | negsuc _ ↦ faulty
    | pos n ↦
        if n == zmxkey
        then bterr "BPUTKY" qblkfl (number blk)
        else (if ltb n zmxkey
            then (do touch j (put_key e link1 link2 n); write_through blk j)
            else faulty)
  ]

-- After a failed read the key count in front of `memrec` would be incremented.
unfoldable pub bputky : ℤ → KeyEnt → (link1 link2 : ℤ) → M (Unit {0})
bputky blk e link1 link2 = do
  i ← slot_of blk
  elim i [
    | none ↦ do bterr "BPUTKY" qrdblk (number blk); faulty
    | some j ↦ put_slot blk e link1 link2 j
  ]

abbrev pub replace_key : ℕ → KeyEnt → (link1 link2 : ℤ) → MemRec → MemRec
replace_key l e link1 link2 m = record m {
  keyblk = set m.keyblk l e;
  lnkblk = set (set m.lnkblk l link1) (suc l) link2;
}

unfoldable pub brepky : ℤ → ℤ → KeyEnt → (link1 link2 : ℤ) → M (Unit {0})
brepky blk (negsuc l) e link1 link2 = bterr "BREPKY" qloctb (number (negsuc l))
brepky blk (pos l) e link1 link2 =
    if leb zmxkey l then bterr "BREPKY" qloctb (number (pos l)) else (do
      i ← slot_of blk
      elim i [
        | none ↦ bterr "BREPKY" qrdblk (number blk)
        | some j ↦ touch j (replace_key l e link1 link2)
      ])

-- `n` rounds of `for (i = …) a[i] = a[i + 1];`
unfoldable pub close_gap {ℓ} : {A : Type ℓ} → ℕ → ℕ → (ℕ → A) → ℕ → A
close_gap zero i a = a
close_gap (suc n) i a = close_gap n (suc i) (set a i (a (suc i)))

-- the change of a block with `n + 1` keys at position `p`
unfoldable pub remove_key : ℕ → ℕ → MemRec → MemRec
unfolding close_gap
remove_key n p m = record m {
  infblk = set m.infblk znkeys (pos n);
  keyblk = close_gap (n - p) p m.keyblk;
  lnkblk = close_gap (n - p) (suc p) m.lnkblk;
}

unfoldable pub remove_slot : ℤ → ℕ → ℕ → M (Unit {0})
remove_slot blk p j = do
  s ← get
  elim ((s.memrec j).infblk znkeys) [
    | negsuc _ ↦ touch j λ m. record m { infblk = set m.infblk znkeys (dec (m.infblk znkeys)) }
    | pos zero ↦ touch j λ m. record m { infblk = set m.infblk znkeys (negsuc 0) }
    | pos (suc n) ↦ if ltb zmxkey (suc n) then faulty else touch j (remove_key n p)
  ]
  write_through blk j

-- A position behind the last key only lowers the count; a negative one is a fault.
unfoldable pub bremky : ℤ → ℤ → M (Unit {0})
bremky blk (negsuc p) = faulty
bremky blk (pos p) = do
  i ← slot_of blk
  elim i [ none ↦ bterr "BREMKY" qrdblk (number blk) | some j ↦ remove_slot blk p j ]

-- `n` rounds of the copying loop of `bcpybk`: element `j`, `j + 1`, … of `src` go to `i`, `i + 1`, …
unfoldable pub copy_from {ℓ} : {A : Type ℓ} → ℕ → ℕ → ℕ → (ℕ → A) → (ℕ → A) → ℕ → A
copy_from zero i j src a = a
copy_from (suc n) i j src a = copy_from n (suc i) (suc j) src (set a i (src j))

-- what `bcpybk` leaves in the to-block; the first link is copied too if the copy starts at 0
unfoldable pub copy_keys : (ts fs n : ℕ) → (source : MemRec) → MemRec → MemRec
unfolding copy_from
copy_keys ts fs n source m = record m {
  keyblk = copy_from n ts fs source.keyblk m.keyblk;
  lnkblk =
      set (copy_from n (if ts == 0 then ts else suc ts) fs source.lnkblk m.lnkblk) (ts + n)
        (source.lnkblk (fs + n));
}

-- The from-block is read while the to-block is marked busy, so that the slots differ; a failed read
-- of it is seen by the missing slot alone. Indexes behind the arrays are faults.
unfoldable pub bcpybk : (tblk fblk : ℤ) → (ts fs n : ℕ) → M (Unit {0})
bcpybk tblk fblk ts fs n = do
  t ← slot_of tblk
  elim t [
    | none ↦ bterr "BCPYBK" qcpblk no_arg
    | some tj ↦ do
      bsetbs tblk true
      (f, _) ← brdblk fblk
      bsetbs tblk false
      elim f [
        | none ↦ bterr "BCPYBK" qcpblk no_arg
        | some fj ↦
            if leb (ts + n) zmxkey && leb (fs + n) zmxkey
            then (do
              s ← get
              set_memrec tj (copy_keys ts fs n (s.memrec fj))
              set_cntrl tj λ c. record c { writes = c.writes + n })
            else faulty
      ]
  ]
