-- ===== src/Block/Join.antt =====
-- src-lib/bjoin.c: the block that holds the keys of two sisters and the key between them.
use btlib.Prelude.{
  ℕ, suc, ◌+◌, ◌-◌, ◌≤◌, ◌<◌, ◌≡◌, ◌⊎◌, inl, inr, refl, sym, ap, subst, ◌∙◌, Bool-cases, ltb, ◌==◌,
  pos, arith,
}
use btlib.Prelude.Keys.{◌≺◌, ≺_trans}
use btlib.Consts.{znull, znkeys}
use btlib.Machine.{KeyEnt, MemRec}
use btlib.Block.{put_key, copy_keys}
use btlib.Block.Search.{IsOrdered, irreflexive}
use btlib.Block.Place.{Inserted, put_key-IsOrdered}
use btlib.Block.Links.{put_key-leaf}
use btlib.Block.Copy.{copy_from_lem}

-- the `l` keys of `a`, the key `e`, and the `r` keys of `b`
pub record IsJoined (l r : ℕ) (e : KeyEnt) (a b m : MemRec) : Type 0 where
  pub left : (j : ℕ) → j < l → m.keyblk j ≡ a.keyblk j
  pub middle : m.keyblk l ≡ e
  pub right : (j : ℕ) → j < r → m.keyblk (suc l + j) ≡ b.keyblk j
  pub ordered : IsOrdered m.keyblk (suc l + r)
  pub links : (j : ℕ) → j ≤ suc l + r → m.lnkblk j ≡ znull

-- the keys of the left block, with the one between the blocks behind them
module _ (l : ℕ) (e : KeyEnt) (a : MemRec) (count : a.infblk znkeys ≡ pos l)
    (keys : IsOrdered a.keyblk l) (last : (j : ℕ) → j < l → (a.keyblk j).key ≺ e.key) where
  absent : (j : ℕ) → j < l → (a.keyblk j).key ≡ e.key → ⊥
  absent j lt same = irreflexive e.key (subst (λ k. k ≺ e.key) same (last j lt))

  put_last :
      (p : ℕ) × Inserted e l p a (put_key e znull znull l a)
      × IsOrdered (put_key e znull znull l a).keyblk (suc l)
  put_last = put_key-IsOrdered e znull znull l a refl count keys absent

  abbrev put : MemRec
  put = put_key e znull znull l a

  at_end : put_last.0 ≡ l
  at_end =
      let (p, ins, ordered) = put_last in
      elim (Bool-cases (ltb p l)) [
        | inl h ↦ absurd (
            irreflexive e.key (
              ≺_trans e.key (a.keyblk p).key e.key
                (subst (λ (k : KeyEnt). k.key ≺ (a.keyblk p).key) ins.here
                  (subst (λ (k : KeyEnt). (put.keyblk p).key ≺ k.key)
                    (ins.above p (omega arith) (ground (arith, h)))
                    (ordered p (suc p) (omega arith) (ground (arith, h)))))
                (last p (ground (arith, h)))))
        | inr h ↦ ground (arith, h, ins.inside)
      ]

  put_left : (j : ℕ) → j < l → put.keyblk j ≡ a.keyblk j
  put_left j lt = put_last.1.below j (omega (arith, at_end, lt))

  put_middle : put.keyblk l ≡ e
  put_middle = ap put.keyblk (sym at_end) ∙ put_last.1.here

  module _ (r : ℕ) (b : MemRec) (keys_right : IsOrdered b.keyblk r)
      (first : (j : ℕ) → j < r → e.key ≺ (b.keyblk j).key) where
    abbrev joined : MemRec
    joined = copy_keys (suc l) 0 r b put

    stays : (j : ℕ) → j < suc l → joined.keyblk j ≡ put.keyblk j
    unfolding copy_keys
    stays j lt = copy_from_lem r (suc l) 0 b.keyblk put.keyblk j ∙ ground (arith, lt)

    copied : (j : ℕ) → j < r → joined.keyblk (suc l + j) ≡ b.keyblk j
    unfolding copy_keys
    copied j lt = copy_from_lem r (suc l) 0 b.keyblk put.keyblk (suc l + j) ∙ ground (arith, lt)

    -- the keys up to the middle one are smaller than those behind it
    across : (i j : ℕ) → i < suc l → j < r → (put.keyblk i).key ≺ (b.keyblk j).key
    across i j li lj = elim (Bool-cases (i == l)) [
      | inl h ↦
          subst (λ (k : KeyEnt). k.key ≺ (b.keyblk j).key)
            (sym put_middle ∙ ap put.keyblk (ground (arith, h))) (first j lj)
      | inr h ↦
          subst (λ (k : KeyEnt). k.key ≺ (b.keyblk j).key)
            (sym (put_left i (ground (arith, h, li))))
            (≺_trans (a.keyblk i).key e.key (b.keyblk j).key (last i (ground (arith, h, li)))
              (first j lj))
    ]

    -- a key of the joined block is one of the left part or of the right block
    part :
        (i : ℕ)
        → i < suc l + r
        → ((i < suc l) × (joined.keyblk i ≡ put.keyblk i))
          ⊎ ((j : ℕ) × (j < r) × (i ≡ suc l + j) × (joined.keyblk i ≡ b.keyblk j))
    part i lt = elim (Bool-cases (ltb i (suc l))) [
      | inl h ↦ inl (ground (arith, h), stays i (ground (arith, h)))
      | inr h ↦
          let j : ℕ = i - suc l in
          let e' : i ≡ suc l + j = ground (arith, h) in
          let lj : j < r = ground (arith, h, lt) in
          inr (j, lj, e', ap joined.keyblk e' ∙ copied j lj)
    ]

    joined-IsOrdered : IsOrdered joined.keyblk (suc l + r)
    joined-IsOrdered i k lt le = elim (part i (omega (arith, lt, le))) [
      | inl (li, ei) ↦ elim (part k le) [
        | inl (lk, ek) ↦ cc (ei, ek, put_last.2 i k lt lk)
        | inr (j, lj, _, ek) ↦ cc (ei, ek, across i j li lj)
      ]
      | inr (j, lj, e1, ei) ↦ elim (part k le) [
        | inl (lk, ek) ↦ absurd (omega (arith, lk, e1, lt))
        | inr (j', lj', e2, ek) ↦ cc (ei, ek, keys_right j j' (omega (arith, e1, e2, lt)) lj')
      ]
    ]

    joined_links :
        ((j : ℕ) → j ≤ l → a.lnkblk j ≡ znull)
        → ((j : ℕ) → j ≤ r → b.lnkblk j ≡ znull)
        → (j : ℕ) → j ≤ suc l + r
        → joined.lnkblk j ≡ znull
    unfolding copy_keys
    joined_links leaf_a leaf_b j le = ground (
      arith,
      le,
      copy_from_lem r (suc (suc l)) 0 b.lnkblk put.lnkblk j,
      put_key-leaf e l a leaf_a j,
      leaf_b (j - suc (suc l)),
      leaf_b r,
    )

-- Given two leaves with `l` and `r` keys in strcmp order and a key between those of the one and those
-- of the other: `put_key` of this key into the first leaf and the copy of the second behind it, as
-- `bjoin` does them, give a block with the keys of the first, the key and those of the second, in
-- order and with null links.
pub copy_keys-IsJoined :
    (l r : ℕ) (e : KeyEnt) (a b : MemRec)
    → a.infblk znkeys ≡ pos l
    → IsOrdered a.keyblk l
    → ((j : ℕ) → j < l → (a.keyblk j).key ≺ e.key)
    → IsOrdered b.keyblk r
    → ((j : ℕ) → j < r → e.key ≺ (b.keyblk j).key)
    → ((j : ℕ) → j ≤ l → a.lnkblk j ≡ znull)
    → ((j : ℕ) → j ≤ r → b.lnkblk j ≡ znull)
    → IsJoined l r e a b (copy_keys (suc l) 0 r b (put_key e znull znull l a))
copy_keys-IsJoined l r e a b count keys last keys' first leaf_a leaf_b = record {
  left = λ j lt.
      stays l e a count keys last r b keys' first j (omega (arith, lt))
      ∙ put_left l e a count keys last j lt;
  middle =
      stays l e a count keys last r b keys' first l (omega arith)
      ∙ put_middle l e a count keys last;
  right = copied l e a count keys last r b keys' first;
  ordered = joined-IsOrdered l e a count keys last r b keys' first;
  links = joined_links l e a count keys last r b keys' first leaf_a leaf_b;
}
