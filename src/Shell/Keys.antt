-- ===== src/Shell/Keys.antt =====
-- src-main/bt.c: the commands on keys.
pub mod Listed
use Prim.Native.Nat.{Ordering}
use btlib.Prelude.{
  ℕ, zero, suc, Bool, true, false, ◌&&◌, ◌||◌, not, some, none, List, [], ◌∷◌, ◌++◌, ℤ, pos, ◌==◌,
  if◌then◌else◌,
}
use btlib.Prelude.Keys.{Key, strcmp}
use btlib.Consts.Codes.{qnokey}
use btlib.Machine.{M, out_of_fuel, pure, skip, faulty, ◌>>=◌, ◌>>◌}
use btlib.Block.{copy_key}
use btlib.Dups.{DupStore}
use btlib.Index.Find.{bfndky}
use btlib.Index.Insert.{binsky, bupdky, btdups}
use btlib.Index.Delete.{bdelky}
use btlib.Index.Walk.{Step, bnxtky}
use btlib.Index.Walk.Back.{bprvky}
use btlib.Index.Position.{Place, zstart, zend, btpos}
use btlib.Data.Words.{block_of, offset_of}
use btlib.Shell.{
  Line, key_value, key_only, keys_listed, keys_checked, disordered, decoded, no_more_keys,
  no_key_specified, CmdBlk, Reply, plain, printed, instead, is_empty, same, unless_end, counted,
  strtol,
}

-- the key and value that a step yields; a status of 0 without them is taken as a fault
abbrev yielded : Step → M (Key × ℤ)
yielded none = faulty
yielded (some e) = pure e

-- what the loops of the listing commands leave: the last status, the count and the lines
abbrev pub Listing : Type 0
Listing = ℕ × ℕ × List Line

-- the loop of the listing commands, over the step that they take
unfoldable pub list_loop : M (ℕ × Step) → (Key → ℤ → Line) → ℕ → ℕ → M Listing
list_loop step show zero count s = out_of_fuel
list_loop step show (suc k) count s =
    (do
      (status, at) ← step
      elim (status == 0) [
        | false ↦ pure (status, count, [])
        | true ↦ do
          (key, val) ← yielded at
          (last, n, lines) ← list_loop step show k (suc count)
          pure (last, n, show key val ∷ lines)
      ])
      s

list_with : M (ℕ × Step) → (Key → ℤ → Line) → ℕ → CmdBlk → M Reply
list_with step show fuel c = do
  (status, count, lines) ← list_loop step show fuel 0
  pure (printed (unless_end status) (lines ++ counted c.arg status (keys_listed count)))

abbrev starts : Key → ℕ → Bool
starts [] c = false
starts (x ∷ s) c = x == c

abbrev is_after : Key → Key → Bool
is_after a b = elim (strcmp a b) [ Ordering.gt ↦ true | _ ↦ false ]

module _ (d : DupStore) (fuel : ℕ) where
  unfoldable pub find_command : CmdBlk → M Reply
  find_command c = do
    (status, val) ← bfndky d fuel c.arg (pos 0)
    pure (
        if status == 0
        then printed 0 (key_value c.arg val ∷ [])
        else plain (if (status == qnokey) && is_empty c.arg then 0 else status))

  unfoldable pub define_key : CmdBlk → M Reply
  define_key c =
      if is_empty c.arg
      then pure (instead 1 no_key_specified)
      else (do status ← binsky d fuel c.arg c.qual_int; pure (plain status))

  -- a step in a direction
  show_step : M (ℕ × Step) → M Reply
  show_step step = do
    (status, at) ← step
    if status == qnokey
        then pure (instead status no_more_keys)
        else (if status == 0
            then (do (key, val) ← yielded at; pure (printed 0 (key_value key val ∷ [])))
            else pure (plain status))

  unfoldable pub next_command : CmdBlk → M Reply
  unfolding show_step
  next_command c = show_step (bnxtky d fuel)

  unfoldable pub prev_command : CmdBlk → M Reply
  unfolding show_step
  prev_command c = show_step (bprvky d fuel)

  unfoldable pub list : ℕ → CmdBlk → M Reply
  unfolding list_with
  list rounds = list_with (bnxtky d fuel) key_value rounds

  unfoldable pub list_keys : ℕ → CmdBlk → M Reply
  unfolding list_with
  list_keys rounds = list_with (bnxtky d fuel) (λ key val. key_only key) rounds

  unfoldable pub list_keys_prev : ℕ → CmdBlk → M Reply
  unfolding list_with
  list_keys_prev rounds = list_with (bprvky d fuel) key_value rounds

  unfoldable pub remove_command : CmdBlk → M Reply
  remove_command c = do status ← bdelky d fuel (some c.arg); pure (plain status)

  unfoldable pub remove_key_current : CmdBlk → M Reply
  remove_key_current c = do status ← bdelky d fuel none; pure (plain status)

  unfoldable pub update_value : CmdBlk → M Reply
  update_value c = do status ← bupdky d fuel (some c.arg) c.qual_int; pure (plain status)

  unfoldable pub update_value_current : CmdBlk → M Reply
  update_value_current c = do status ← bupdky d fuel none (strtol c.arg); pure (plain status)

  unfoldable pub decode_addr : CmdBlk → M Reply
  decode_addr c = do
    (status, val) ←
        (if same c.qualifier (b'i' ∷ [])
          then pure (0, strtol c.arg)
          else bfndky d fuel c.arg (pos 0))
    pure (
        if status == 0
        then printed 0 (decoded c.arg val (block_of val) (offset_of val) ∷ [])
        else plain status)

  unfoldable pub dups : CmdBlk → M Reply
  dups c = do
    status ← btdups (if same c.arg (b'o' ∷ (b'n' ∷ [])) then pos 1 else pos 0)
    pure (plain status)

  unfoldable pub position : CmdBlk → M Reply
  position c = do
    status ← btpos fuel (if same c.arg (b's' ∷ []) then zstart else zend)
    pure (plain status)

  -- the loop of `chk_order`; with whether the order is broken
  order_loop : ℕ → ℕ → Key → M (ℕ × ℕ × Bool × List Line)
  order_loop zero count last s = out_of_fuel
  order_loop (suc k) count last s =
      (do
        (status, at) ← bnxtky d fuel
        elim (status == 0) [
          | false ↦ pure (status, count, false, [])
          | true ↦ do
            (key, val) ← yielded at
            elim (is_after last key) [
              | true ↦ pure (1, suc count, true, disordered last key ∷ [])
              | false ↦ order_loop k (suc count) (copy_key key)
            ]
        ])
        s

  unfoldable pub chk_order : ℕ → CmdBlk → M Reply
  unfolding order_loop
  chk_order rounds c = do
    if starts c.qualifier b's' || starts c.arg b's' then btpos fuel zstart >> skip else skip
    (status, count, broken, lines) ← order_loop rounds 0 []
    let asked = starts c.arg b'c' || starts c.qualifier b'c'
    pure (record {
      status = unless_end status;
      suppressed = broken;
      lines = lines ++ (if asked then keys_checked count ∷ [] else []);
    })
