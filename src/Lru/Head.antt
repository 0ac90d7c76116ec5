-- ===== src/Lru/Head.antt =====
-- src-lib/btque.c: `bqhead` finds the first slot of the queue that is not busy.
use mathlib.Core.List.{append-nil, append_assoc}
use btlib.Prelude.{
  ℕ, zero, suc, ◌<◌, ◌≡◌, refl, sym, ap, subst, ◌∙◌, true, false, Option, some, List, [], ◌∷◌, ◌++◌,
  length, length-append, arith, ==_iff, Bool-cases, inl, inr,
}
use btlib.Prelude.Members.{has, to_back}
use btlib.Consts.{zmxblk}
use btlib.Machine.{State, ok, ◌>>◌}
use btlib.Machine.Returns
use btlib.Machine.Returns.{Returns, returns}
use btlib.Lru.{bqmove, bqhead, next_free}
use btlib.Lru.Move.{IsQueue, SameButQueue, same_refl, bqmove-to_back}

pub same_trans : {s t u : State} → SameButQueue s t → SameButQueue t u → SameButQueue s u
same_trans {s} {t} {u} a b = record {
  rest = ap (λ (w : State). record w { cntrl = s.cntrl; lru = s.lru }) b.rest ∙ a.rest;
  inmem = λ i. b.inmem i ∙ a.inmem i;
  busy = λ i. b.busy i ∙ a.busy i;
  writes = λ i. b.writes i ∙ a.writes i;
}

abbrev pub AllBusy : State → List ℕ → Type 0
AllBusy s [] = Unit {0}
AllBusy s (x ∷ xs) = ((s.cntrl x).busy ≡ true) × AllBusy s xs

AllBusy-same : {s t : State} (xs : List ℕ) → SameButQueue s t → AllBusy s xs → AllBusy t xs
AllBusy-same [] e b = tt
AllBusy-same (x ∷ xs) e b = (e.busy x ∙ b.0, AllBusy-same xs e b.1)

abbrev pub Found : State → List ℕ → ℕ → Option ℕ → State → Type 0
Found s xs i r s' = (r ≡ some i) × IsQueue s' xs × SameButQueue s s'

-- one round of the loop
head_free :
    (s : State) (i k : ℕ)
    → s.lru.lruh ≡ some i
    → (s.cntrl i).busy ≡ false
    → next_free (suc k) s ≡ ok (some i) s
unfolding next_free
head_free s i k h b = ground arith

head_busy :
    (s : State) (i k : ℕ)
    → s.lru.lruh ≡ some i
    → (s.cntrl i).busy ≡ true
    → next_free (suc k) s ≡ (bqmove (some i) >> next_free k) s
unfolding next_free
head_busy s i k h b = ground arith

moved :
    (x i : ℕ) (bs rest : List ℕ)
    → to_back x (x ∷ (bs ++ (i ∷ rest))) ≡ bs ++ (i ∷ (rest ++ (x ∷ [])))
moved x i bs rest = rw ((==_iff x x).1 refl) (append_assoc bs (i ∷ rest) (x ∷ []))

next_free-first :
    (bs rest : List ℕ) (i k : ℕ) (s : State)
    → IsQueue s (bs ++ (i ∷ rest))
    → AllBusy s bs
    → (s.cntrl i).busy ≡ false
    → length bs < k
    → Returns (Found s ((i ∷ rest) ++ bs) i) (next_free k s)
next_free-first bs rest i zero s q b nb f = absurd (omega arith)
next_free-first [] rest i (suc k) s q b nb f =
    rw (head_free s i k q.chain.0 nb)
      (returns (refl, subst (IsQueue s) (sym (append-nil (i ∷ rest))) q, same_refl s))
next_free-first (x ∷ bs) rest i (suc k) s q b nb f = rw (head_busy s x k q.chain.0 b.0) (
    Returns.bind (bqmove-to_back s (x ∷ (bs ++ (i ∷ rest))) x q (ground (arith, q.full x)))
      λ _ t (q', e).
        Returns.mono
          (next_free-first bs (rest ++ (x ∷ [])) i k t (subst (IsQueue t) (moved x i bs rest) q')
            (AllBusy-same bs e b.1) (e.busy i ∙ nb) (omega arith))
          λ r u (found, q'', e').
            (found, subst (IsQueue u) (append_assoc (i ∷ rest) (x ∷ []) bs) q'', same_trans e e'))

fits : (bs rest : List ℕ) (i : ℕ) {n : ℕ} → length (bs ++ (i ∷ rest)) ≡ n → length bs < suc n
fits bs rest i h = omega (arith, h, length-append bs (i ∷ rest))

-- In a queue of all slots, with some busy slots in front of the first one that is not, `bqhead`
-- returns that one, and the busy ones go to the back in their order; nothing but the queue
-- changes.
pub bqhead-first :
    (bs rest : List ℕ) (i : ℕ) (s : State)
    → IsQueue s (bs ++ (i ∷ rest))
    → AllBusy s bs
    → (s.cntrl i).busy ≡ false
    → Returns (Found s ((i ∷ rest) ++ bs) i) (bqhead s)
unfolding bqhead
bqhead-first bs rest i s q b nb =
    next_free-first bs rest i (suc zmxblk) s q b nb (fits bs rest i q.size)

-- A queue with a slot that is not busy is a row of busy slots and the first that is not.
pub split_busy :
    (s : State) (xs : List ℕ) (j : ℕ)
    → has j xs ≡ true
    → (s.cntrl j).busy ≡ false
    → (bs : List ℕ) × (i : ℕ) × (rest : List ℕ) × (xs ≡ bs ++ (i ∷ rest))
      × AllBusy s bs
      × ((s.cntrl i).busy ≡ false)
split_busy s [] j m b = absurd (ground arith)
split_busy s (x ∷ xs) j m b = elim (Bool-cases (s.cntrl x).busy) [
  | inl e ↦
      let (bs, i, rest, eq, all, nb) = split_busy s xs j (ground arith) b in
      (x ∷ bs, i, rest, ap (λ ys. x ∷ ys) eq, (e, all), nb)
  | inr e ↦ ([], x, xs, refl, tt, e)
]
