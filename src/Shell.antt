-- ===== src/Shell.antt =====
-- src-main/bt.c and btcmd.c: the command interpreter. A command runs on the index in use; what it
-- prints is a list of lines, in the order of printing.
pub mod Keys
pub mod Files
pub mod Data
pub mod Parse
use Prim.Native.Nat.{Ordering}
use btlib.Prelude.{
  ℕ, zero, suc, ◌+◌, ◌-◌, ◌*◌, Bool, true, false, ◌&&◌, ◌||◌, List, [], ◌∷◌, ◌++◌, ℤ, pos, negsuc,
  leb, ◌==◌, if◌then◌else◌,
}
use btlib.Prelude.Keys.{Key, strcmp}
use btlib.Consts.Codes.{qnokey}
use btlib.Machine.{M, pure, ◌>>=◌}

-- the formats that the commands print with
pub data Line : Type 0 where
  key_value : Key → ℤ → Line
  key_only : Key → Line
  key_data : Key → List ℕ → Line
  data_record : List ℕ → Line
  record_size : Key → ℕ → Line
  decoded : Key → ℤ → ℤ → ℕ → Line
  keys_listed : ℕ → Line
  keys_checked : ℕ → Line
  disordered : Key → Key → Line
  buffer_line : Key → ℕ → Line
  file_line : Key → Bool → Line
  in_use : Key → Line
  now_in_use : Key → Line
  no_more_keys : Line
  no_key_specified : Line
  no_such_key : Key → Line
  no_such_root : Key → Line
  no_such_buffer : Key → Line
  no_create : Key → Line
  no_delete : Key → Line
  no_create_root : Key → Line
  no_change_root : Key → Line
  no_file : Line
  file_not_found : Key → Line
  no_more_files : Line

-- `struct cmd_blk`, as far as the commands read it
pub record CmdBlk : Type 0 where
  pub arg : Key
  pub qualifier : Key
  pub qual_int : ℤ

-- What a command leaves: its result, whether it set `suppress_error_msg`, and what it printed.
pub record Reply : Type 0 where
  pub status : ℕ
  pub suppressed : Bool
  pub lines : List Line

-- the result of the library, with nothing printed
abbrev pub plain : ℕ → Reply
plain status = record { status = status; suppressed = false; lines = [] }

abbrev pub printed : ℕ → List Line → Reply
printed status lines = record { status = status; suppressed = false; lines = lines }

-- a message of the command's own in place of the library's
abbrev pub instead : ℕ → Line → Reply
instead status line = record { status = status; suppressed = true; lines = line ∷ [] }

-- `STREMP(s)`
abbrev pub is_empty : Key → Bool
is_empty [] = true
is_empty _ = false

-- `strcmp(s,t) == 0`
abbrev pub same : Key → Key → Bool
same a b = elim (strcmp a b) [ Ordering.eq ↦ true | _ ↦ false ]

-- the end of an index is no error
abbrev pub unless_end : ℕ → ℕ
unless_end status = if (status == 0) || (status == qnokey) then 0 else status

-- the count that the argument `c` asks for
abbrev pub counted : Key → ℕ → Line → List Line
counted arg status line =
    if ((status == 0) || (status == qnokey)) && same arg (b'c' ∷ []) then line ∷ [] else []

-- `strtol(s,NULL,10)` and `atoi(s)`, for a value in range
digits : ℕ → Key → ℕ
digits n [] = n
digits n (c ∷ s) = if leb b'0' c && leb c b'9' then digits (n * 10 + (c - b'0')) s else n

is_space : ℕ → Bool
is_space c = (c == b' ') || (leb 9 c && leb c 13)

signed : Key → ℤ
unfolding digits
signed [] = pos 0
signed (c ∷ s) =
    if c == b'-'
    then (elim (digits 0 s) [ zero ↦ pos 0 | suc n ↦ negsuc n ])
    else if c == b'+'
    then pos (digits 0 s)
    else pos (digits 0 (c ∷ s))

unfoldable pub strtol : Key → ℤ
unfolding is_space signed
strtol [] = pos 0
strtol (c ∷ s) = let rest = strtol s in if is_space c then rest else signed (c ∷ s)
