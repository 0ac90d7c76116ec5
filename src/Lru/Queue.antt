-- ===== src/Lru/Queue.antt =====
-- src-lib/btque.c: the linked slots are a queue, `bqmove` moves a slot to its back, and `bqhead`
-- finds its first slot that is not busy.
use btlib.Prelude.{
  ℕ, zero, suc, ◌<◌, ◌≡◌, ◌≢◌, inl, inr, sym, subst, true, false, Option, none, some, List, [], ◌∷◌,
  ◌++◌, set, length, ◌==◌, Bool-cases, arith,
}
use btlib.Prelude.Members.{has, Distinct, erase, last, has-last}
use btlib.Machine.{State, Cntrl, ok}
use btlib.Lru.{before}

-- From `h` the links lead through `xs` to the end.
abbrev pub Chain : (ℕ → Cntrl) → Option ℕ → List ℕ → Type 0
Chain c h [] = h ≡ none
Chain c h (x ∷ xs) = (h ≡ some x) × Chain c (c x).lrunxt xs

abbrev pub with_next : (ℕ → Cntrl) → ℕ → Option ℕ → ℕ → Cntrl
with_next c i j = set c i (record (c i) { lrunxt = j })

-- A chain does not see a change at a slot that is not on it.
pub frame :
    (c : ℕ → Cntrl) (h : Option ℕ) (xs : List ℕ) (i : ℕ) (j : Option ℕ)
    → Chain c h xs
    → has i xs ≡ false
    → Chain (with_next c i j) h xs
frame c h [] i j ch out = ch
frame c h (x ∷ xs) i j ch out = ground (arith, frame c (c x).lrunxt xs i j)

-- a slot that is not on the chain is linked behind its last one
pub snoc :
    (c : ℕ → Cntrl) (h : Option ℕ) (xs : List ℕ) (t i : ℕ)
    → Chain c h xs
    → Distinct xs
    → last xs ≡ some t
    → has i xs ≡ false
    → Chain (with_next (with_next c t (some i)) i none) h (xs ++ (i ∷ []))
snoc c h [] t i ch d l out = ground arith
snoc c h (x ∷ []) t i ch d l out = ground arith
snoc c h (x ∷ (y ∷ xs)) t i ch d l out =
    ground (arith, has-last t (y ∷ xs) l, snoc c (c x).lrunxt (y ∷ xs) t i ch.1 d.1 l)

-- a chain taken apart behind its first slot is one with that slot too
extend :
    (c : ℕ → Cntrl) (i x y p : ℕ) (xs : List ℕ)
    → Chain c (some x) (x ∷ (y ∷ xs))
    → Distinct (x ∷ (y ∷ xs))
    → (y == i) ≡ false
    → has p (y ∷ xs) ≡ true
    → Chain (with_next c p (c i).lrunxt) (some y) (y ∷ erase i xs)
    → Chain (with_next c p (c i).lrunxt) (some x) (x ∷ erase i (y ∷ xs))
extend c i x y p xs ch d e on rest = ground arith

-- the loop of `bqmove` finds the predecessor, and the slot is taken out behind it
pub unlink-Chain :
    (k : ℕ) (c : ℕ → Cntrl) (i x : ℕ) (xs : List ℕ) (s : State)
    → Chain c (some x) (x ∷ xs)
    → Distinct (x ∷ xs)
    → x ≢ i
    → has i xs ≡ true
    → length xs < k
    → (p : ℕ) × (before k c i (some x) s ≡ ok (some p) s)
      × (has p (x ∷ xs) ≡ true)
      × Chain (with_next c p (c i).lrunxt) (some x) (x ∷ erase i xs)
unfolding before
unlink-Chain zero c i x xs s ch d ne m f = absurd (omega arith)
unlink-Chain (suc k) c i x [] s ch d ne m f = ground arith
unlink-Chain (suc k) c i x (y ∷ xs) s ch d ne m f = elim (Bool-cases (y == i)) [
  | inl e ↦ (x, ground arith, ground arith, ground (arith, frame c (c i).lrunxt xs x (c i).lrunxt))
  | inr e ↦
      let (p, run, on, rest) =
        unlink-Chain k c i y xs s (ground arith) d.1 (ground arith) (ground arith) (omega arith) in
      (p, ground (arith, run), ground arith, extend c i x y p xs ch d e on rest)
]

-- A chain is its links.
pub Chain-same :
    (c d : ℕ → Cntrl) (h : Option ℕ) (xs : List ℕ)
    → ((i : ℕ) → (d i).lrunxt ≡ (c i).lrunxt)
    → Chain c h xs
    → Chain d h xs
Chain-same c d h [] e ch = ch
Chain-same c d h (x ∷ xs) e ch =
    (ch.0, subst (λ g. Chain d g xs) (sym (e x)) (Chain-same c d (c x).lrunxt xs e ch.1))
