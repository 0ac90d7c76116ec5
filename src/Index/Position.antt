-- ===== src/Index/Position.antt =====
-- src-lib/btpos.c: the context is put before the first key or behind the last one.
pub mod Start
use Prim.Native.Nat.{Ordering}
use btlib.Prelude.{
  ℕ, ◌+◌, ◌%◌, Bool, true, false, not, [], ◌∷◌, pos, dec, ◌==ℤ◌, ◌==◌, if◌then◌else◌,
}
use btlib.Prelude.Keys.{Key}
use btlib.Consts.{znull, znkeys}
use btlib.Consts.Codes.{qbusy, qposerr}
use btlib.Machine.{M, no_arg, number, pure, faulty, ◌>>=◌, ◌>>◌, get, set_lf}
use btlib.Error.{bterr, bterr_clear, btgerr}
use btlib.Stack.{bpush, bstkin}
use btlib.Info.{bgtinf}
use btlib.Block.{bsrhbk, copy_key}
use btlib.Lock.{block, unlock, bvalap}
use btlib.Index.Split.{probe_pos}
use btlib.Index.Leaf.{bleaf}
use btlib.Index.Find.{bclrlf}

-- ZSTART, ZEND and any other argument
pub data Place : Type 0 where
  zstart zend elsewhere : Place

-- `key[strlen(key)-1]++`: a last byte of 255 becomes the terminating NUL. On the empty key the byte
-- in front of the array is incremented.
bump : Key → M Key
bump [] = faulty
bump (c ∷ []) = pure (if (c + 1) % 256 == 0 then [] else ((c + 1) % 256 ∷ []))
bump (c ∷ (e ∷ key)) = do rest ← bump (e ∷ key); pure (c ∷ rest)

is_below : Ordering → Bool
is_below Ordering.lt = true
is_below _ = false

module _ (fuel : ℕ) where
  at_start : M Bool
  at_start = do set_lf λ c. record c { lfkey = []; lfpos = pos 0 }; bleaf fuel 0; pure true

  -- behind the last key; false if the root is empty
  at_end : M Bool
  unfolding bump is_below
  at_end = do
    s ← get
    nkeys ← bgtinf s.super.scroot (pos znkeys)
    set_lf λ c. record c { lfpos = nkeys }
    if nkeys ==ℤ pos 0 then pure false else (do
      bleaf fuel 1
      u ← get
      p ← bsrhbk u.lf.lfblk (probe_pos (dec u.lf.lfpos))
      if is_below p.result
          then bterr "BTPOS" qposerr (number u.lf.lfblk)
          else (do key ← bump p.key; set_lf λ c. record c { lfkey = copy_key key })
      pure true)

  go_to : Place → M Bool
  go_to zstart = at_start
  go_to zend = at_end
  go_to elsewhere = pure true

  -- At the end of an empty root the result is 0, whatever error is recorded, and a lock is kept. A
  -- lock that was not granted is not given back.
  unfoldable pub btpos : Place → M ℕ
  unfolding go_to at_start at_end
  btpos place = do
    bterr_clear
    status ← bvalap "BTPOS"
    if not (status == 0) then pure status else (do
      s ← get
      granted ← (if s.shared then block else pure true)
      if granted
          then (do
            bclrlf
            bstkin
            bpush znull
            bpush znull
            set_lf λ c. record c { lfblk = s.super.scroot }
            done ← go_to place
            if done then (do unlock; btgerr) else pure 0)
          else (do bterr "BTPOS" qbusy no_arg; btgerr))
