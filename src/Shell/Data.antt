-- ===== src/Shell/Data.antt =====
-- src-main/bt.c: data buffers, and the commands on keys with data records.
use btlib.Prelude.{
  ℕ, zero, suc, ◌-◌, Bool, true, false, Option, none, some, List, [], ◌∷◌, ◌++◌, take, length, ℤ,
  pos, negsuc, ◌==◌, if◌then◌else◌,
}
use btlib.Prelude.Keys.{Key}
use btlib.Consts.Codes.{qnokey}
use btlib.Machine.{M, out_of_fuel, pure, faulty, ◌>>=◌}
use btlib.Dups.{DupStore}
use btlib.Data.Command.{Selected, btins, btupd, btsel, btdel, btseln, btselp, btrecs}
use btlib.Shell.{
  Line, key_data, data_record, record_size, keys_listed, buffer_line, no_create, no_delete,
  no_such_key, no_such_buffer, CmdBlk, Reply, plain, printed, instead, is_empty, same, counted,
}

-- `struct bt_blist`, and the list at `bhead`
pub record Buffer : Type 0 where
  pub name : Key
  pub size : ℕ
  pub bytes : ℕ → ℕ

abbrev pub Buffers : Type 0
Buffers = List Buffer

-- A buffer holds the first character of its name over and over.
unfoldable pub add_data : Key → ℕ → Buffers → Buffers
add_data f size bs =
    record { name = f; size = size; bytes = λ i. elim f [ [] ↦ 0 | c ∷ _ ↦ c ] } ∷ bs

unfoldable pub get_data : Key → Buffers → Option Buffer
get_data f [] = none
get_data f (b ∷ bs) = let rest = get_data f bs in if same b.name f then some b else rest

-- with whether there was such a buffer
unfoldable pub del_data : Key → Buffers → Bool × Buffers
del_data n [] = (false, [])
del_data n (b ∷ bs) =
    let (found, rest) = del_data n bs in if same n b.name then (true, bs) else (found, b ∷ rest)

-- A qualifier of 0, or none, names a file; `file` is the buffer that reading it yields, if it can
-- be read. Memory for a size that is not negative is taken as granted.
unfoldable pub buffer_create : CmdBlk → Option Buffer → Buffers → Buffers × Reply
unfolding add_data del_data
buffer_create c file bs =
    let rest = (del_data c.arg bs).1 in
    elim c.qual_int [
      | negsuc _ ↦ (rest, printed 1 (no_create c.arg ∷ []))
      | pos n ↦
          if n == 0
          then (elim file [
            | none ↦ (rest, plain 0)
            | some b ↦ (record b { name = c.arg } ∷ rest, plain 0)
          ])
          else (add_data c.arg n rest, plain 0)
    ]

unfoldable pub buffer_delete : CmdBlk → Buffers → Buffers × Reply
unfolding del_data
buffer_delete c bs =
    let (found, rest) = del_data c.arg bs in
    (rest, if found then plain 0 else printed 1 (no_delete c.arg ∷ []))

unfoldable pub buffer_list : Buffers → List Line
buffer_list [] = []
buffer_list (b ∷ bs) = buffer_line b.name b.size ∷ buffer_list bs

-- the characters of a string as an array
abbrev char_at : Key → ℕ → ℕ
char_at [] i = 0
char_at (c ∷ s) zero = c
char_at (c ∷ s) (suc i) = char_at s i

-- what the data of a command is: a string, or a buffer after a `*`
pub data Given : Type 0 where
  string : Key → Given
  buffer : Buffer → Given
  missing : Key → Given

given : Key → Buffers → Given
unfolding get_data
given [] bs = string []
given (c ∷ s) bs =
    if c == b'*'
    then (elim (get_data s bs) [ none ↦ missing s | some b ↦ buffer b ])
    else string (c ∷ s)

-- the bytes of a record that are printed with `%s`: those before the first NUL
before_nul : List ℕ → List ℕ
before_nul [] = []
before_nul (c ∷ s) = if c == 0 then [] else c ∷ before_nul s

-- DATABUFSZ
abbrev databufsz : ℕ
databufsz = 80

-- `buf[(size==DATABUFSZ?size-1:size)] = '\0'`
shown : ℤ → List ℕ → M (List ℕ)
unfolding before_nul
shown (negsuc n) bytes = faulty
shown (pos n) bytes = pure (before_nul (take (if n == databufsz then n - 1 else n) bytes))

abbrev keyed : Option Key → M Key
keyed none = faulty
keyed (some key) = pure key

-- the loop of the listing commands, over the step that they take
data_loop : M (Selected × Option Key) → ℕ → ℕ → M (ℕ × ℕ × List Line)
unfolding shown
data_loop step zero count s = out_of_fuel
data_loop step (suc k) count s =
    (do
      ((status, size, bytes), at) ← step
      elim (status == 0) [
        | false ↦ pure (status, count, [])
        | true ↦ do
          key ← keyed at
          text ← shown size bytes
          (last, n, lines) ← data_loop step k (suc count)
          pure (last, n, key_data key text ∷ lines)
      ])
      s

module _ (d : DupStore) (fuel : ℕ) (bs : Buffers) where
  unfoldable pub define_data : CmdBlk → M Reply
  unfolding given
  define_data c = elim (given c.qualifier bs) [
    | string t ↦ do status ← btins d fuel c.arg (char_at t) (pos (length t)); pure (plain status)
    | buffer b ↦ do status ← btins d fuel c.arg b.bytes (pos b.size); pure (plain status)
    | missing n ↦ pure (instead 0 (no_such_buffer n))
  ]

  update_from : Option Key → Key → M Reply
  unfolding given
  update_from key source = elim (given source bs) [
    | string t ↦ do status ← btupd d fuel key (char_at t) (pos (length t)); pure (plain status)
    | buffer b ↦ do status ← btupd d fuel key b.bytes (pos b.size); pure (plain status)
    | missing n ↦ pure (instead 1 (no_such_buffer n))
  ]

  unfoldable pub update_data : CmdBlk → M Reply
  unfolding update_from
  update_data c = update_from (some c.arg) c.qualifier

  unfoldable pub update_data_current : CmdBlk → M Reply
  unfolding update_from
  update_data_current c = update_from none c.arg

module _ (d : DupStore) (fuel : ℕ) where
  -- a key that is not there is reported by the command, unless it is the empty one
  missing_key : Key → Reply → Reply
  missing_key key r =
      if r.status == qnokey
      then (if is_empty key then plain 0 else instead qnokey (no_such_key key))
      else r

  select_command : Key → ℤ → M Reply
  unfolding before_nul
  select_command key datasize = do
    (status, size, bytes) ← btsel d fuel key datasize
    pure (if status == 0 then printed 0 (data_record (before_nul bytes) ∷ []) else plain status)

  unfoldable pub find_data : CmdBlk → M Reply
  unfolding missing_key select_command
  find_data c = do
    (status, size) ←
        (if same c.qualifier (b'd' ∷ []) then btrecs d fuel (some c.arg) else pure (0, databufsz))
    r ← (if status == 0 then select_command c.arg (pos size) else pure (plain status))
    pure (missing_key c.arg r)

  unfoldable pub remove_data : CmdBlk → M Reply
  remove_data c = do status ← btdel d fuel (some c.arg); pure (plain status)

  unfoldable pub remove_data_current : CmdBlk → M Reply
  remove_data_current c = do status ← btdel d fuel none; pure (plain status)

  unfoldable pub size_data : CmdBlk → M Reply
  size_data c = do
    (status, size) ← btrecs d fuel (if is_empty c.arg then none else some c.arg)
    pure (if status == 0 then printed 0 (record_size c.arg size ∷ []) else plain status)

  list_data_with : M (Selected × Option Key) → ℕ → CmdBlk → M Reply
  unfolding data_loop
  list_data_with step rounds c = do
    (status, count, lines) ← data_loop step rounds 0
    pure (
        printed (if status == qnokey then 0 else status)
          (lines ++ counted c.arg status (keys_listed count)))

  unfoldable pub list_data : ℕ → CmdBlk → M Reply
  unfolding list_data_with
  list_data = list_data_with (btseln d fuel (pos databufsz))

  unfoldable pub list_data_prev : ℕ → CmdBlk → M Reply
  unfolding list_data_with
  list_data_prev = list_data_with (btselp d fuel (pos databufsz))

  step_data : M (Selected × Option Key) → M Reply
  unfolding shown
  step_data step = do
    ((status, size, bytes), at) ← step
    elim (status == 0) [
      | false ↦ pure (plain status)
      | true ↦ do key ← keyed at; text ← shown size bytes; pure (printed 0 (key_data key text ∷ []))
    ]

  unfoldable pub next_data : CmdBlk → M Reply
  unfolding step_data
  next_data c = step_data (btseln d fuel (pos databufsz))

  unfoldable pub previous_data : CmdBlk → M Reply
  unfolding step_data
  previous_data c = step_data (btselp d fuel (pos databufsz))
