-- ===== src/Lru/Move.antt =====
-- src-lib/btque.c: `bqmove` moves a slot to the back of the queue.
use btlib.Prelude.{
  ℕ, suc, ◌<◌, ◌≡◌, ◌≢◌, refl, sym, ap, subst, ◌∙◌, inl, inr, true, false, Option, none, some, List,
  [], ◌∷◌, length, ◌==◌, ltb, Bool-cases, arith, ==_iff,
}
use btlib.Prelude.Members.{
  has, Distinct, erase, last, to_back, has-to_back, to_back-Distinct, length-to_back, to_back-last,
  last-snoc, last-erase, last-cons, has-erase_self, erase-Distinct,
}
use btlib.Consts.{zmxblk}
use btlib.Machine.{State, Cntrl, ok}
use btlib.Machine.Returns.{Returns, returns}
use btlib.Lru.{bqmove, before}
use btlib.Lru.Queue.{Chain, with_next, snoc, unlink-Chain}

-- The slots 0, …, ZMXBLK - 1 are queued in the order `xs`, the least recently used one first.
pub record IsQueue (s : State) (xs : List ℕ) : Type 0 where
  pub chain : Chain s.cntrl s.lru.lruh xs
  pub tail : s.lru.lrut ≡ last xs
  pub distinct : Distinct xs
  pub size : length xs ≡ zmxblk
  pub full : (i : ℕ) → has i xs ≡ ltb i zmxblk

-- Only the queue differs.
pub record SameButQueue (s s' : State) : Type 0 where
  pub rest : record s' { cntrl = s.cntrl; lru = s.lru } ≡ s
  pub inmem : (i : ℕ) → (s'.cntrl i).inmem ≡ (s.cntrl i).inmem
  pub busy : (i : ℕ) → (s'.cntrl i).busy ≡ (s.cntrl i).busy
  pub writes : (i : ℕ) → (s'.cntrl i).writes ≡ (s.cntrl i).writes

-- `i` is linked behind the tail `t` of the chain `c` from `h`
abbrev relinked : State → (ℕ → Cntrl) → Option ℕ → ℕ → ℕ → State
relinked s c h t i = record s {
  cntrl = with_next (with_next c t (some i)) i none;
  lru = record { lrut = some i; lruh = h };
}

abbrev SameSlots : (ℕ → Cntrl) → (ℕ → Cntrl) → Type 0
SameSlots c d =
    (i : ℕ)
    → ((d i).inmem ≡ (c i).inmem) × ((d i).busy ≡ (c i).busy) × ((d i).writes ≡ (c i).writes)

with_next-same : (c : ℕ → Cntrl) (i : ℕ) (j : Option ℕ) → SameSlots c (with_next c i j)
with_next-same c i j k = ground arith

module _ (s : State) (xs : List ℕ) (q : IsQueue s xs) (i t : ℕ) (m : has i xs ≡ true)
    (l : last xs ≡ some t) (ne : t ≢ i) where
  relinked-IsQueue :
      (c : ℕ → Cntrl) (h : Option ℕ)
      → Chain c h (erase i xs)
      → IsQueue (relinked s c h t i) (to_back i xs)
  relinked-IsQueue c h ch = record {
    chain =
        snoc c h (erase i xs) t i ch (erase-Distinct i xs q.distinct) (last-erase i t xs l ne)
          (has-erase_self i xs q.distinct);
    tail = sym (last-snoc i (erase i xs));
    distinct = to_back-Distinct i xs q.distinct;
    size = length-to_back i xs m ∙ q.size;
    full = λ j. has-to_back i j xs q.distinct m ∙ q.full j;
  }

  relinked-same :
      (c : ℕ → Cntrl) (h : Option ℕ) → SameSlots s.cntrl c → SameButQueue s (relinked s c h t i)
  relinked-same c h same = record {
    rest = refl;
    inmem = λ j. ground (arith, same j, same i, same t);
    busy = λ j. ground (arith, same j, same i, same t);
    writes = λ j. ground (arith, same j, same i, same t);
  }

bqmove-tail : (s : State) (i : ℕ) → s.lru.lrut ≡ some i → bqmove (some i) s ≡ ok tt s
unfolding bqmove
bqmove-tail s i h = ground arith

bqmove-head :
    (s : State) (i t : ℕ)
    → s.lru.lrut ≡ some t
    → t ≢ i
    → s.lru.lruh ≡ some i
    → bqmove (some i) s ≡ ok tt (relinked s s.cntrl (s.cntrl i).lrunxt t i)
unfolding bqmove
bqmove-head s i t h ne e = ground arith

bqmove-middle :
    (s : State) (i t x p : ℕ)
    → s.lru.lrut ≡ some t
    → t ≢ i
    → s.lru.lruh ≡ some x
    → x ≢ i
    → before (suc zmxblk) s.cntrl i (some x) s ≡ ok (some p) s
    → bqmove (some i) s ≡ ok tt (relinked s (with_next s.cntrl p (s.cntrl i).lrunxt) (some x) t i)
unfolding bqmove
bqmove-middle s i t x p h ne e ne' run = ground (arith, run)

pub same_refl : (s : State) → SameButQueue s s
same_refl s = record { rest = refl; inmem = λ i. refl; busy = λ i. refl; writes = λ i. refl }

ne→== : (a b : ℕ) → a ≢ b → (a == b) ≡ false
ne→== a b h = ground arith

-- what `bqmove` of `i` leaves behind
abbrev Moved : State → List ℕ → ℕ → Unit {0} → State → Type 0
Moved s xs i _ s' = IsQueue s' (to_back i xs) × SameButQueue s s'

module _ (s : State) (x : ℕ) (xs : List ℕ) (i : ℕ) where
  move_tail :
      IsQueue s (x ∷ xs) → last (x ∷ xs) ≡ some i → Returns (Moved s (x ∷ xs) i) (bqmove (some i) s)
  move_tail q l =
      rw (bqmove-tail s i (q.tail ∙ l))
        (returns (subst (IsQueue s) (sym (to_back-last i (x ∷ xs) q.distinct l)) q, same_refl s))

  move_head :
      (t : ℕ)
      → IsQueue s (x ∷ xs)
      → has i (x ∷ xs) ≡ true
      → last (x ∷ xs) ≡ some t
      → t ≢ i
      → x ≡ i
      → Returns (Moved s (x ∷ xs) i) (bqmove (some i) s)
  move_head t q m l ne e = rw (bqmove-head s i t (q.tail ∙ l) ne (ground (arith, q.chain))) (
      returns (
        relinked-IsQueue s (x ∷ xs) q i t m l ne s.cntrl (s.cntrl i).lrunxt
            (ground (arith, q.chain)),
        relinked-same s (x ∷ xs) q i t m l ne s.cntrl (s.cntrl i).lrunxt λ j. (refl, refl, refl),
      ))

  move_middle :
      (t : ℕ)
      → IsQueue s (x ∷ xs)
      → has i (x ∷ xs) ≡ true
      → last (x ∷ xs) ≡ some t
      → t ≢ i
      → x ≢ i
      → Returns (Moved s (x ∷ xs) i) (bqmove (some i) s)
  move_middle t q m l ne ne' =
      let (p, run, on, ch) =
        unlink-Chain (suc zmxblk) s.cntrl i x xs s (refl, q.chain.1) q.distinct ne' (ground arith)
          (omega (arith, q.size)) in
      let c : ℕ → Cntrl = with_next s.cntrl p (s.cntrl i).lrunxt in
      rw (bqmove-middle s i t x p (q.tail ∙ l) ne q.chain.0 ne' run) (
        returns (
          relinked-IsQueue s (x ∷ xs) q i t m l ne c (some x) (rw (ne→== x i ne') ch),
          relinked-same s (x ∷ xs) q i t m l ne c (some x)
              (with_next-same s.cntrl p (s.cntrl i).lrunxt),
        ))

-- In a queue of all slots `bqmove` moves a slot to the back: the others keep their order, nothing
-- but the queue changes, and the search for the predecessor ends without an error.
pub bqmove-to_back :
    (s : State) (xs : List ℕ) (i : ℕ)
    → IsQueue s xs
    → i < zmxblk
    → Returns (λ _ s'. IsQueue s' (to_back i xs) × SameButQueue s s') (bqmove (some i) s)
bqmove-to_back s [] i q lt = absurd (omega (arith, q.size))
bqmove-to_back s (x ∷ xs) i q lt =
    let (t, l) = last-cons x xs in
    let m : has i (x ∷ xs) ≡ true = ground (arith, q.full i) in
    elim (Bool-cases (t == i)) [
      | inl e ↦ move_tail s x xs i q (l ∙ ap some ((==_iff t i).0 e))
      | inr e ↦ elim (Bool-cases (x == i)) [
        | inl f ↦ move_head s x xs i t q m l (ground arith) ((==_iff x i).0 f)
        | inr f ↦ move_middle s x xs i t q m l (ground arith) (ground arith)
      ]
    ]
