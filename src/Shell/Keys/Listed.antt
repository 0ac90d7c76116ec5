-- ===== src/Shell/Keys/Listed.antt =====
-- src-main/bt.c: what the listing of an index prints.
use btlib.Prelude.{
  ℕ, zero, suc, ◌+◌, ◌≤◌, ◌<◌, ◌≡◌, inr, refl, ap, subst, ◌∙◌, true, false, none, some, List, [],
  ◌∷◌, ◌++◌, ℤ, pos, arith,
}
use btlib.Prelude.Keys.{Key}
use btlib.Consts.{znull}
use btlib.Consts.Codes.{qnokey}
use btlib.Machine.{State, MemRec, ok, ◌>>◌}
use btlib.Machine.Returns.{Returns, returns, outcome}
use btlib.Cache.View.{view, IsCache}
use btlib.Block.Stored.{IsNode}
use btlib.Dups.{DupStore}
use btlib.Index.Position.{zstart, btpos}
use btlib.Index.Position.Start.{btpos-IsWalking}
use btlib.Index.Walk.{bnxtky}
use btlib.Index.Walk.Leaf.{IsWalking, IsBefore}
use btlib.Index.Walk.Next.{entry_at}
use btlib.Index.Walk.End.{Over, bnxtky-IsAt, bnxtky-Over}
use btlib.Shell.{Line, key_value, keys_listed, CmdBlk, Reply, printed, counted}
use btlib.Shell.Keys.{list, list_loop, list_with, Listing}

-- the lines of `r` keys of a block from position `i` on
pub lines_from : (Key → ℤ → Line) → MemRec → ℕ → ℕ → List Line
lines_from show m i zero = []
lines_from show m i (suc r) = show (entry_at m i).0 (entry_at m i).1 ∷ lines_from show m (suc i) r

module _ (d : DupStore) (fuel : ℕ) (show : Key → ℤ → Line) where
  loop-key :
      (k count : ℕ) (e : Key × ℤ) (s t u : State) (l : Listing)
      → bnxtky d fuel s ≡ ok (0, some e) t
      → list_loop (bnxtky d fuel) show k (suc count) t ≡ ok l u
      → list_loop (bnxtky d fuel) show (suc k) count s ≡ ok (l.0, l.1, show e.0 e.1 ∷ l.2) u
  unfolding list_loop
  loop-key k count e s t u l run run' = ground (arith, run, run')

  loop-end :
      (k count : ℕ) (s t : State)
      → bnxtky d fuel s ≡ ok (qnokey, none) t
      → list_loop (bnxtky d fuel) show (suc k) count s ≡ ok (qnokey, count, []) t
  unfolding list_loop
  loop-end k count s t run = ground (arith, run)

  module _ (b n : ℕ) (m : MemRec) (o : State) (at : view o b ≡ some m) (node : IsNode m n)
      (single : (i : ℕ) → i < n → (m.keyblk i).dup ≡ znull)
      (leaf : (i : ℕ) → 0 < n → i ≤ n → m.lnkblk i ≡ znull) (enough : 2 < fuel) where
    -- the keys from `i` on are listed, and the loop ends
    loop-lists :
        (r k i count : ℕ) (s : State)
        → i + r ≡ n
        → r < k
        → IsWalking o b s
        → IsBefore i s.lf
        → Returns
            (λ l u. (l ≡ (qnokey, count + r, lines_from show m i r)) × Over o (qnokey, none) u)
            (list_loop (bnxtky d fuel) show k count s)
    unfolding lines_from
    loop-lists r zero i count s e lt w before = absurd (omega arith)
    loop-lists zero (suc k) i count s e lt w before =
        let (r, u, run, (er, cache, stored, blk)) = outcome (
          bnxtky-Over d fuel b n m o at node single leaf enough s w
            (subst (λ j. IsBefore j s.lf) (omega (arith, e)) before)) in
        rw (loop-end k count s u (run ∙ ap (λ x. ok x u) er))
          (returns (ap (λ (c : ℕ). (qnokey, c, [])) (omega arith), (refl, cache, stored, blk)))
    loop-lists (suc r) (suc k) i count s e lt w before =
        let (a, t, run, (er, (w', exact, place))) =
          outcome (
            bnxtky-IsAt d fuel b n m o at node single leaf enough i s w before
              (omega (arith, e))) in
        let (l, u, run', (el, over)) = outcome (
          loop-lists r k (suc i) (suc count) t (omega (arith, e)) (omega (arith, lt)) w'
            (inr (i, refl, exact, place))) in
        rw (loop-key k count (entry_at m i) s t u l (run ∙ ap (λ x. ok x t) er) run') (
          returns
            (rw el (ap (λ (c : ℕ). (qnokey, c, lines_from show m i (suc r))) (omega arith)), over))

-- what a listing leaves behind: the status 0, a line for each key in order, and the count if it is
-- asked for; nothing that the index stores changed
abbrev pub Listed : State → CmdBlk → MemRec → ℕ → Reply → State → Type 0
Listed s c m n r u =
    (r ≡ printed 0 (lines_from key_value m 0 n ++ counted c.arg qnokey (keys_listed n)))
    × IsCache u
    × ((a : ℕ) → view u a ≡ view s a)

list-run :
    (d : DupStore) (fuel rounds : ℕ) (c : CmdBlk) (s t u : State) (l : Listing)
    → btpos fuel zstart s ≡ ok 0 t
    → list_loop (bnxtky d fuel) key_value rounds 0 t ≡ ok l u
    → l.0 ≡ qnokey
    → (btpos fuel zstart >> list d fuel rounds c) s
      ≡ ok (printed 0 (l.2 ++ counted c.arg qnokey (keys_listed l.1))) u
unfolding list list_with
list-run d fuel rounds c s t u l run run' e = ground (arith, run, run', e)

-- In an open index that is not shared, with a well-formed cache, whose root is a leaf of `n` keys
-- in order without duplicates: after `btpos` with ZSTART the command `list` ends, with more than
-- `n` rounds and a fuel above 2. It prints every key of the root once, in order, with its value,
-- and the count if it is asked for, its status is 0, and the index stores what it did.
pub btpos-list :
    (d : DupStore) (fuel rounds b n : ℕ) (c : CmdBlk) (m : MemRec) (s : State)
    → s.idxopen ≡ true
    → s.shared ≡ false
    → IsCache s
    → s.super.scroot ≡ pos b
    → view s b ≡ some m
    → IsNode m n
    → ((i : ℕ) → i < n → (m.keyblk i).dup ≡ znull)
    → ((i : ℕ) → 0 < n → i ≤ n → m.lnkblk i ≡ znull)
    → 2 < fuel
    → n < rounds
    → Returns (Listed s c m n) ((btpos fuel zstart >> list d fuel rounds c) s)
btpos-list d fuel rounds b n c m s opened alone v root at node single leaf enough f =
    let (code, t, run, (e, w, before)) =
      outcome
        (btpos-IsWalking fuel b n m s opened alone v root at node leaf (omega (arith, enough))) in
    let (l, u, run', (el, (_, cache, stored, _))) = outcome (
      loop-lists d fuel key_value b n m s at node single leaf enough n rounds 0 0 t (omega arith) f
        w before) in
    rw
      (list-run d fuel rounds c s t u l (run ∙ ap (λ k. ok k t) e) run'
        (ap (λ (x : Listing). x.0) el))
      (returns (
        ap (λ (x : Listing). printed 0 (x.2 ++ counted c.arg qnokey (keys_listed x.1))) el
            ∙ ap
                (λ (k : ℕ).
                  printed 0 (lines_from key_value m 0 n ++ counted c.arg qnokey (keys_listed k)))
                (omega arith),
        cache,
        stored,
      ))
