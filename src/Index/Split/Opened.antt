-- ===== src/Index/Split/Opened.antt =====
-- src-lib/bsptbk.c and bputky.c: the parent of a block that was split, with the middle key where the
-- link to the block was, between the links to the two halves.
use btlib.Prelude.{
  ℕ, suc, ◌≤◌, ◌<◌, ◌≡◌, ◌⊎◌, inl, inr, refl, sym, ap, subst, ◌∙◌, Bool-cases, if◌then◌else◌, pos,
  ◌==◌, ==_iff, ltb, arith,
}
use btlib.Prelude.Keys.{◌≺◌}
use btlib.Consts.{znkeys}
use btlib.Machine.{KeyEnt, MemRec}
use btlib.Block.{put_key}
use btlib.Block.Search.{IsOrdered, opposed, irreflexive}
use btlib.Block.Place.{Inserted, IsAbsent, put_key-IsOrdered}
use btlib.Block.Links.{put_key-child}
use btlib.Index.Find.Gap.{IsGap}

-- `o` has the `n` keys of `m` and the key `e` at `g`, and a new link behind it.
pub record IsOpened (e : KeyEnt) (n g nb : ℕ) (m o : MemRec) : Type 0 where
  pub count : o.infblk znkeys ≡ pos (suc n)
  pub ordered : IsOrdered o.keyblk (suc n)
  pub key_low : (j : ℕ) → j < g → o.keyblk j ≡ m.keyblk j
  pub key_here : o.keyblk g ≡ e
  pub key_high : (j : ℕ) → g ≤ j → j < n → o.keyblk (suc j) ≡ m.keyblk j
  pub link_low : (j : ℕ) → j ≤ g → o.lnkblk j ≡ m.lnkblk j
  pub link_new : o.lnkblk (suc g) ≡ pos nb
  pub link_high : (j : ℕ) → g ≤ j → j < n → o.lnkblk (suc (suc j)) ≡ m.lnkblk (suc j)

-- a key that was inserted in order stands at its gap
inserted_at :
    (e : KeyEnt) (n p g : ℕ) (m o : MemRec)
    → Inserted e n p m o
    → IsOrdered o.keyblk (suc n)
    → IsGap m n g e.key
    → p ≡ g
inserted_at e n p g m o ins ordered gap = elim (Bool-cases (ltb p g)) [
  | inl lt ↦ absurd (
      opposed (m.keyblk p).key e.key (gap.below p (ground (arith, lt))) (
        subst (λ (y : KeyEnt). y.key ≺ (m.keyblk p).key) ins.here
          (subst (λ (y : KeyEnt). (o.keyblk p).key ≺ y.key)
            (ins.above p (omega arith) (ground (arith, lt, gap.inside)))
            (ordered p (suc p) (omega arith) (ground (arith, lt, gap.inside))))))
  | inr ge ↦ elim (Bool-cases (ltb g p)) [
    | inl lt ↦ absurd (
        opposed (m.keyblk g).key e.key
          (subst (λ (y : KeyEnt). (m.keyblk g).key ≺ y.key) ins.here
            (subst (λ (y : KeyEnt). y.key ≺ (o.keyblk p).key) (ins.below g (ground (arith, lt)))
              (ordered g p (ground (arith, lt)) (omega (arith, ins.inside)))))
          (gap.above g (omega arith) (ground (arith, lt, ins.inside))))
    | inr le ↦ ground (arith, ge, le)
  ]
]

-- a key with a gap is none of the block's
gap-IsAbsent : (n g : ℕ) (e : KeyEnt) (m : MemRec) → IsGap m n g e.key → IsAbsent e.key m.keyblk n
gap-IsAbsent n g e m gap j lt same = elim (Bool-cases (ltb j g)) [
  | inl f ↦ irreflexive e.key (subst (λ y. y ≺ e.key) same (gap.below j (ground (arith, f))))
  | inr f ↦ irreflexive e.key (subst (λ y. e.key ≺ y) same (gap.above j (ground (arith, f)) lt))
]

at_or_before : (j g : ℕ) → j ≤ g → (j ≡ g) ⊎ (j < g)
at_or_before j g le = elim (Bool-cases (j == g)) [
  | inl e ↦ inl ((==_iff j g).0 e)
  | inr e ↦ inr (ground (arith, e, le))
]

-- the link at the key's place
link_here :
    (q g b : ℕ) (m o : MemRec)
    → q ≡ g
    → m.lnkblk g ≡ pos b
    → o.lnkblk q ≡ (if q == 0 then pos b else m.lnkblk q)
    → o.lnkblk g ≡ m.lnkblk g
link_here q g b m o at link here = ap o.lnkblk (sym at) ∙ here ∙ ground (arith, at, link)

-- What `put_key` makes of a parent: the key goes to its gap, where the link to the old block stands.
pub put_key-IsOpened :
    (e : KeyEnt) (k g b nb : ℕ) (m : MemRec)
    → m.infblk znkeys ≡ pos (suc k)
    → IsOrdered m.keyblk (suc k)
    → IsGap m (suc k) g e.key
    → m.lnkblk g ≡ pos b
    → IsOpened e (suc k) g nb m (put_key e (pos b) (pos nb) (suc k) m)
put_key-IsOpened e k g b nb m count ordered gap link =
    let (q, ins, new, here, low, high) = put_key-child e (pos b) nb k m refl count in
    let (_, _, sorted) =
      put_key-IsOrdered e (pos b) (pos nb) (suc k) m refl count ordered
        (gap-IsAbsent (suc k) g e m gap) in
    let at : q ≡ g = inserted_at e (suc k) q g m _ ins sorted gap in
    record {
      count = ins.count;
      ordered = sorted;
      key_low = λ j lt. ins.below j (omega (arith, at, lt));
      key_here = subst (λ i. (put_key e (pos b) (pos nb) (suc k) m).keyblk i ≡ e) at ins.here;
      key_high = λ j le lt. ins.above j (omega (arith, at, le)) lt;
      link_low = λ j le. elim (at_or_before j g le) [
        | inl f ↦
            ap (put_key e (pos b) (pos nb) (suc k) m).lnkblk f
            ∙ link_here q g b m (put_key e (pos b) (pos nb) (suc k) m) at link here
            ∙ ap m.lnkblk (sym f)
        | inr f ↦ low j (omega (arith, at, f))
      ];
      link_new = subst (λ i. (put_key e (pos b) (pos nb) (suc k) m).lnkblk (suc i) ≡ pos nb) at new;
      link_high = λ j le lt. high j (omega (arith, at, le)) lt;
    }
