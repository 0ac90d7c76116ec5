-- ===== src/Shell/Parse.antt =====
-- src-main/btcmd.c: the words of a command line, the search of the command table, and the stack of
-- command files.
pub mod Words
use btlib.Prelude.{
  ℕ, zero, suc, ◌+◌, Bool, true, false, ◌&&◌, ◌||◌, not, Option, none, some, List, [], ◌∷◌, ◌++◌,
  length, take, ℤ, pos, negsuc, ltb, leb, ◌-◌, ◌==◌, if◌then◌else◌,
}
use btlib.Prelude.Keys.{Key}
use btlib.Shell.{is_empty, same, strtol}

-- `strtok` of the C library: the characters that separate are skipped, the word ends at the next
-- of them, which is overwritten, and the rest is left for the next call.
skip_any : (ℕ → Bool) → Key → Key
skip_any sep [] = []
skip_any sep (c ∷ s) = let rest = skip_any sep s in if sep c then rest else c ∷ s

word_of : (ℕ → Bool) → Key → Key × Key
word_of sep [] = ([], [])
word_of sep (c ∷ s) = let (w, rest) = word_of sep s in if sep c then ([], s) else (c ∷ w, rest)

unfoldable pub strtok : (ℕ → Bool) → Key → Option (Key × Key)
unfolding skip_any word_of
strtok sep s = elim (skip_any sep s) [ [] ↦ none | c ∷ t ↦ some (word_of sep (c ∷ t)) ]

abbrev pub space_or_end : ℕ → Bool
space_or_end c = (c == b' ') || (c == 10)

abbrev line_end : ℕ → Bool
line_end c = c == 10

-- the words of a command line
pub record Tokens : Type 0 where
  pub cmd : Key
  pub arg : Key
  pub qual : Key
  pub all : Key
  pub nargs : ℕ

abbrev pub maxbufsz : ℕ
maxbufsz = 132

-- `strncpy(to, from, MAXBUFSZ)`, into a buffer of MAXBUFSZ + 1 characters
unfoldable pub strncpy : Key → Key
strncpy s = take maxbufsz s

-- the first two words of the arguments
unfoldable pub arguments : Key → Key → Tokens
arguments cmd all = elim (strtok space_or_end (strncpy all)) [
  | none ↦ record { cmd = cmd; arg = []; qual = []; all = all; nargs = 0 }
  | some (arg, rest) ↦ elim (strtok space_or_end rest) [
    | none ↦ record { cmd = cmd; arg = strncpy arg; qual = []; all = all; nargs = 1 }
    | some (qual, _) ↦ record {
      cmd = cmd;
      arg = strncpy arg;
      qual = strncpy qual;
      all = all;
      nargs = 2;
    }
  ]
]

-- Of a line of MAXBUFSZ characters or more the copy in `copybuf` has no NUL, since the last character
-- of that array is not set: `strtok` would read it, and there is no result.
unfoldable pub tokenise : Key → Option Tokens
tokenise line =
    if leb maxbufsz (length line)
    then none
    else some (elim (strtok space_or_end (strncpy line)) [
      | none ↦ record { cmd = []; arg = []; qual = []; all = []; nargs = 0 }
      | some (cmd, rest) ↦ elim (strtok line_end rest) [
        | none ↦ record { cmd = strncpy cmd; arg = []; qual = []; all = []; nargs = 0 }
        | some (all, _) ↦ arguments (strncpy cmd) (strncpy all)
      ]
    ])

unfoldable pub non_ws : Key → Key
non_ws [] = []
non_ws (c ∷ s) = let rest = non_ws s in if (c == b' ') || (c == 9) then rest else c ∷ s

-- `struct cmd_entry`, as far as the search reads it
pub record CmdEntry (F : Type 0) : Type 0 where
  pub cmd : Key
  pub abbreviation : Key
  pub function : F
  pub nargs : ℕ

-- `struct cmd_blk`; an argument count that does not fit is negative
pub record Found (F : Type 0) : Type 0 where
  pub tokens : Tokens
  pub qual_int : ℤ
  pub nargs : ℤ
  pub function : Option F
  pub unknown : Bool

-- a command of one character that needs no space behind it
abbrev pub is_special : Key → Key → Bool
is_special (a ∷ []) (c ∷ s) = ltb a b'A' && (c == a)
is_special _ _ = false

abbrev behind_first : Key → Key
behind_first [] = []
behind_first (c ∷ s) = s

abbrev checked : ℕ → ℕ → ℤ
checked wanted got = if not (wanted == 0) && not (wanted == got) then negsuc 0 else pos got

module _ {F : Type 0} where
  -- the loop of `find_cmd`, where `strncmp` looks at the first MAXBUFSZ characters; the command behind the table is the one of its last, empty entry
  find_entry : Key → Tokens → F → List (CmdEntry F) → Found F
  unfolding strncpy
  find_entry cp t last [] = record {
    tokens = t;
    qual_int = strtol t.qual;
    nargs = pos t.nargs;
    function = if is_empty t.cmd then none else some last;
    unknown = not (is_empty t.cmd);
  }
  find_entry cp t last (e ∷ es) =
      let rest = find_entry cp t last es in
      if is_special e.abbreviation cp
      then record {
        tokens = record t { all = behind_first cp };
        qual_int = strtol t.qual;
        nargs = pos t.nargs;
        function = some e.function;
        unknown = false;
      }
      else if same (strncpy t.cmd) (strncpy e.cmd) || same (strncpy t.cmd) (strncpy e.abbreviation)
      then record {
        tokens = record t { cmd = take (maxbufsz - 1) e.cmd };
        qual_int = strtol t.qual;
        nargs = checked e.nargs t.nargs;
        function = some e.function;
        unknown = false;
      }
      else rest

  unfoldable pub find_cmd : Key → F → List (CmdEntry F) → Option (Found F)
  unfolding find_entry tokenise non_ws
  find_cmd line last cmds = elim (tokenise line) [
    | none ↦ none
    | some t ↦ some (find_entry (non_ws line) t last cmds)
  ]

-- CMDFILEMAX
abbrev cmdfilemax : ℕ
cmdfilemax = 5

-- the stack of command files
module _ {A : Type 0} where
  unfoldable pub pushcf : A → List A → Option (List A)
  pushcf f fs = if ltb (length fs) cmdfilemax then some (f ∷ fs) else none

  unfoldable pub pullcf : List A → Option A × List A
  pullcf [] = (none, [])
  pullcf (f ∷ fs) = (some f, fs)
