-- ===== src/Shell/Files.antt =====
-- src-main/bt.c: the commands on roots and on the lock, and the tables of open index files and of
-- data buffers. A handle of an index is a number here; `none` is the null pointer.
use btlib.Prelude.{
  ℕ, Bool, false, Option, none, some, List, [], ◌∷◌, ℤ, pos, negsuc, ◌==◌, if◌then◌else◌,
}
use btlib.Prelude.Keys.{Key}
use btlib.Consts.Codes.{qnokey}
use btlib.Machine.{M, pure, ◌>>=◌}
use btlib.Dups.{DupStore}
use btlib.Roots.{btcrtr, btchgr, btdelr}
use btlib.Roots.Client.{btlock, btunlock, btthresh}
use btlib.Shell.{
  Line, file_line, in_use, now_in_use, no_create_root, no_change_root, no_such_root, no_file,
  file_not_found, no_more_files, CmdBlk, Reply, plain, printed, instead, is_empty, same, strtol,
}

-- QNOKEY of a command on roots is reported by the command itself
abbrev root_reply : ℕ → Line → Reply
root_reply status line = if status == qnokey then instead status line else plain status

module _ (d : DupStore) (fuel : ℕ) where
  unfoldable pub define_root : CmdBlk → M Reply
  define_root c = do status ← btcrtr d fuel c.arg; pure (root_reply status (no_create_root c.arg))

  unfoldable pub change_root_command : CmdBlk → M Reply
  change_root_command c = do
    status ← btchgr d fuel c.arg
    pure (root_reply status (no_change_root c.arg))

  unfoldable pub remove_root : CmdBlk → M Reply
  remove_root c = do status ← btdelr d fuel c.arg; pure (root_reply status (no_such_root c.arg))

unfoldable pub lock_file : CmdBlk → M Reply
lock_file c = do status ← btlock; pure (plain status)

unfoldable pub unlock_file : CmdBlk → M Reply
unlock_file c = do status ← btunlock; pure (plain status)

-- a negative threshold is none
abbrev threshold : ℤ → ℕ
threshold (pos n) = n
threshold (negsuc n) = 0

unfoldable pub wr_thresh : CmdBlk → M Reply
wr_thresh c = do status ← btthresh (threshold (strtol c.arg)); pure (plain status)

-- `struct bt_plist`, and the list at `phead`
pub record OpenFile : Type 0 where
  pub fid : Key
  pub handle : ℕ

abbrev pub Files : Type 0
Files = List OpenFile

unfoldable pub add : Key → ℕ → Files → Files
add f b files = record { fid = f; handle = b } ∷ files

unfoldable pub get_file : Key → Files → Option ℕ
get_file f [] = none
get_file f (p ∷ files) = let rest = get_file f files in if same p.fid f then some p.handle else rest

-- the first entry of the handle goes
unfoldable pub del : ℕ → Files → Files
del b [] = []
del b (p ∷ files) = let rest = del b files in if b == p.handle then files else p ∷ rest

abbrev is_in_use : Option ℕ → ℕ → Bool
is_in_use none b = false
is_in_use (some a) b = a == b

unfoldable pub file_list : Option ℕ → Files → List Line
file_list btp [] = []
file_list btp (p ∷ files) = file_line p.fid (is_in_use btp p.handle) ∷ file_list btp files

-- the line that `use_file` prints for the index in use
used_line : Option ℕ → Files → Line
used_line btp [] = no_file
used_line btp (p ∷ files) =
    let rest = used_line btp files in if is_in_use btp p.handle then in_use p.fid else rest

-- The new index in use.
unfoldable pub use_file : CmdBlk → Option ℕ → Files → Option ℕ × Reply
unfolding used_line
use_file c btp files =
    if is_empty c.arg
    then (btp, printed 0 (used_line btp files ∷ []))
    else (elim (get_file c.arg files) [
      | none ↦ (btp, instead 1 (file_not_found c.arg))
      | some b ↦ (some b, plain 0)
    ])

-- After `btcls` the first of the files left is in use.
unfoldable pub after_close : ℕ → ℕ → Files → Option ℕ × Files × Reply
after_close status btp files =
    if status == 0
    then (elim (del btp files) [
      | [] ↦ (none, [], printed 0 (no_more_files ∷ []))
      | p ∷ rest ↦ (some p.handle, p ∷ rest, printed 0 (now_in_use p.fid ∷ []))
    ])
    else (some btp, files, plain status)

-- After `btcrt` or `btopn`, which return a null pointer on failure.
unfoldable pub after_open : Key → Option ℕ → Option ℕ → Files → Option ℕ × Files × Reply
unfolding add
after_open f none btp files = (btp, files, plain 1)
after_open f (some b) btp files = (some b, add f b files, plain 0)
