-- ===== src/Block/Part.antt =====
-- src-lib/bcpybk.c, as bsptbk.c uses it: a block that holds a run of another block's keys, with the
-- links around them.
use btlib.Prelude.{ℕ, ◌+◌, ◌≤◌, ◌<◌, ◌≡◌, pos, arith}
use btlib.Consts.{znkeys}
use btlib.Machine.{MemRec}
use btlib.Block.{copy_keys}
use btlib.Block.Copy.{copy_from_lem}

-- `part` has the `n` keys of `m` from position `off` on, and the links on their sides.
pub record IsPart (part m : MemRec) (off n : ℕ) : Type 0 where
  pub count : part.infblk znkeys ≡ pos n
  pub keys : (i : ℕ) → i < n → part.keyblk i ≡ m.keyblk (off + i)
  pub links : (i : ℕ) → i ≤ n → part.lnkblk i ≡ m.lnkblk (off + i)

pub copied_key :
    (off n i : ℕ) (m to : MemRec) → i < n → (copy_keys 0 off n m to).keyblk i ≡ m.keyblk (off + i)
unfolding copy_keys
copied_key off n i m to lt = ground (arith, copy_from_lem n 0 off m.keyblk to.keyblk i, lt)

pub copied_link :
    (off n i : ℕ) (m to : MemRec) → i ≤ n → (copy_keys 0 off n m to).lnkblk i ≡ m.lnkblk (off + i)
unfolding copy_keys
copied_link off n i m to le = ground (arith, copy_from_lem n 0 off m.lnkblk to.lnkblk i, le)
