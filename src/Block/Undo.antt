-- ===== src/Block/Undo.antt =====
-- src-lib/bputky.c and bremky.c: a key with a right link is put into a block and taken out again.
use btlib.Prelude.{
  ℕ, suc, ◌-◌, ◌≤◌, ◌<◌, ◌≡◌, inl, inr, sym, ap, ◌∙◌, false, Bool-cases, ==_iff, ◌&&◌, ◌==◌, ltb, ℤ,
  pos, ◌==ℤ◌, if◌then◌else◌, arith,
}
use btlib.Consts.{znull, znkeys}
use btlib.Machine.{KeyEnt, MemRec}
use btlib.Block.{put_key, remove_key}
use btlib.Block.Links.{put_key-child}
use btlib.Block.Remove.{Removed, remove_key-Removed}

-- The key `e` stands at `p` of the block `o`, and taking it out yields the count, the `n` keys and the
-- `n + 1` links of `m`, but for the first link, which is `link1` if `e` was the first key.
pub record IsUndone (e : KeyEnt) (n p : ℕ) (link1 : ℤ) (m o : MemRec) : Type 0 where
  pub here : o.keyblk p ≡ e
  pub count : (remove_key n p o).infblk znkeys ≡ m.infblk znkeys
  pub keys : (j : ℕ) → j < n → (remove_key n p o).keyblk j ≡ m.keyblk j
  pub links :
      (j : ℕ)
      → j ≤ n
      → (remove_key n p o).lnkblk j ≡ (if (p == 0) && (j == 0) then link1 else m.lnkblk j)

-- the links around the place of the key, while it is put in and taken out
undone_link :
    (n p : ℕ) (link1 : ℤ) (a b c : ℕ → ℤ)
    → ((j : ℕ) → j ≤ p → a j ≡ b j)
    → ((j : ℕ) → p < j → j ≤ n → a j ≡ b (suc j))
    → b p ≡ (if p == 0 then link1 else c p)
    → ((j : ℕ) → j < p → b j ≡ c j)
    → ((j : ℕ) → p ≤ j → j < n → b (suc (suc j)) ≡ c (suc j))
    → (j : ℕ) → j ≤ n
    → a j ≡ (if (p == 0) && (j == 0) then link1 else c j)
undone_link n p link1 a b c below above at low high j le = elim (Bool-cases (ltb j p)) [
  | inl f ↦ ground (arith, below j, low j, f)
  | inr f ↦ elim (Bool-cases (j == p)) [
    | inl e ↦
        let same : j ≡ p = (==_iff j p).0 e in
        below j (omega (arith, same)) ∙ ap b same ∙ at ∙ ground (arith, same)
    | inr e ↦
        let behind : p < j = ground (arith, f, e) in
        let back : suc (j - 1) ≡ j = omega (arith, behind) in
        above j behind le
        ∙ ap (λ i. b (suc i)) (sym back)
        ∙ high (j - 1) (omega (arith, behind)) (omega (arith, behind, le))
        ∙ ap c back
        ∙ ground (arith, behind)
  ]
]

-- Given a block that counts `n + 1` keys and a left link that is not null: `put_key` of a key with a
-- right link, and then `remove_key` at the place where the key stands, gives the count, the keys and
-- the links that the block had, but for the first link, which is the left link if the key was the
-- first.
pub remove_key-put_key :
    (e : KeyEnt) (link1 : ℤ) (l n : ℕ) (m : MemRec)
    → (link1 ==ℤ znull) ≡ false
    → m.infblk znkeys ≡ pos (suc n)
    → (p : ℕ) × IsUndone e (suc n) p link1 m (put_key e link1 (pos l) (suc n) m)
remove_key-put_key e link1 l n m ne count =
    let (p, ins, _, at, low, high) = put_key-child e link1 l n m ne count in
    let o : MemRec = put_key e link1 (pos l) (suc n) m in
    let r : Removed (suc n) p o (remove_key (suc n) p o) =
      remove_key-Removed (suc n) p o ins.inside in
    (
      p,
      record {
        here = ins.here;
        count = r.count ∙ sym count;
        keys = λ j lt. elim (Bool-cases (ltb j p)) [
          | inl f ↦ r.below j (ground (arith, f)) ∙ ins.below j (ground (arith, f))
          | inr f ↦ r.above j (ground (arith, f)) lt ∙ ins.above j (ground (arith, f)) lt
        ];
        links =
            undone_link (suc n) p link1 (remove_key (suc n) p o).lnkblk o.lnkblk m.lnkblk
              r.links_below r.links_above at low high;
      },
    )
