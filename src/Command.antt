-- ===== src/Command.antt =====
-- src/em_command.c: commands by name, and the two loops that execute command lines. A string is the list
-- of its characters without the NUL at its end; a function is the number of it, 0 for NULL. `run` is
-- what a command's function does with its words and the manager, which a command can stop.
pub mod Words
pub mod Registered
pub mod Async
mod Examples
use embedded_middle.Prelude.{
  ℕ, zero, suc, ◌+◌, ◌&&◌, ◌||◌, ◌==◌, leb, ltb, if◌then◌else◌, Bool, true, false, Option, none,
  some, List, [], ◌∷◌, ◌++◌, ℤ, pos, length, em_success, em_error, em_no_wait,
}
use embedded_middle.Prelude.Int.{eqb_ℤ}
use embedded_middle.Bytes.{Bytes, copy_at, strncmp_from}
use embedded_middle.Queue.{Queue, enqueue, dequeue}
use embedded_middle.Queue
use embedded_middle.Gdatamng.{
  Datamng, add_data, get_data_ptr, em_dmng_key_string, em_dmng_dplct_error,
}
use embedded_middle.Gdatamng
use embedded_middle.Idatamng.{key_of, of_key, sizeof_ulong}

-- EM_CMD_NAME_LENGTH_MAX, EM_CMD_WORD_NUM_MAX, EM_CMD_WORD_LENGTH_MAX, EM_CMD_BUF_LENGTH and
-- EM_CMD_ASYNC_QUEUE_SIZE.
abbrev pub name_length_max : ℕ
name_length_max = 16

abbrev pub word_num_max : ℕ
word_num_max = 10

abbrev pub word_length_max : ℕ
word_length_max = 128

abbrev pub buf_length : ℕ
buf_length = 1290

abbrev pub async_queue_size : ℕ
async_queue_size = 4

-- EM_CMD_ASYNC_CMDNAME, "async".
abbrev pub async_cmdname : List ℕ
async_cmdname = 0x61 ∷ 0x73 ∷ 0x79 ∷ 0x6e ∷ 0x63 ∷ []

-- `em_cmdsetting_t`; in memory the address of the name is in the first 8 bytes, and the function in the
-- next 8.
pub record CmdSetting : Type 0 where
  pub cmd_name : List ℕ
  pub cmd_name_at : ℕ
  pub cmd_func : ℕ

abbrev pub sizeof_cmdsetting : ℕ
sizeof_cmdsetting = 16

abbrev pub cmd_func_offset : ℕ
cmd_func_offset = 8

-- `em_cmdmng_t`.
pub record Cmdmng : Type 0 where
  pub is_running : Bool
  pub dm_cmd : Datamng
  pub qu_cmd : Queue

-- The bytes of a string, with 0 behind it, and the string in at most `n` bytes from `i` on.
unfoldable pub string_bytes : List ℕ → Bytes
string_bytes [] i = 0
string_bytes (c ∷ cs) zero = c
string_bytes (c ∷ cs) (suc i) = string_bytes cs i

pub string_at : ℕ → ℕ → Bytes → List ℕ
string_at zero i bytes = []
string_at (suc n) i bytes =
    let rest = string_at n (i + 1) bytes in if bytes i == 0 then [] else bytes i ∷ rest

unfoldable pub init : {H : Type 0} → (ℕ → H → ℕ × H) → Cmdmng → ℕ → H → ℤ × Cmdmng × H
init alloc_func cm num_cmd h =
    let (ret, dm, h₁) =
      Gdatamng.create alloc_func cm.dm_cmd sizeof_cmdsetting num_cmd em_dmng_key_string
        name_length_max em_dmng_dplct_error h in
    if eqb_ℤ ret em_success
    then (let (ret', qu, h₂) = Queue.create alloc_func cm.qu_cmd buf_length async_queue_size h₁ in
        if eqb_ℤ ret' em_success
        then (em_success, record cm { is_running = true; dm_cmd = dm; qu_cmd = qu }, h₂)
        else (em_error, record cm { dm_cmd = dm; qu_cmd = qu }, h₂))
    else (em_error, record cm { dm_cmd = dm }, h₁)

-- From the addresses of the tables of keys, with the addresses passed to `free_func`.
pub destroy : Cmdmng → ℕ → ℕ → ℤ × List ℕ × Cmdmng
destroy cm keycnt keymem =
    let (ret, freed, dm) = Gdatamng.destroy cm.dm_cmd keycnt keymem in
    let (ret', freed') = Queue.destroy cm.qu_cmd in
    (em_success, freed ++ freed', record cm { dm_cmd = dm })

setting_bytes : CmdSetting → Bytes
setting_bytes setting =
    copy_at (key_of setting.cmd_name_at) cmd_func_offset (key_of setting.cmd_func) sizeof_ulong

pub register : Cmdmng → CmdSetting → ℤ × Cmdmng
unfolding string_bytes setting_bytes
register cm setting =
    let (ret, dm) = add_data cm.dm_cmd (string_bytes setting.cmd_name) (setting_bytes setting) in
    (if eqb_ℤ ret em_success then em_success else em_error, record cm { dm_cmd = dm })

-- The function in the bytes of a setting.
func_of : Bytes → ℕ
func_of bytes = of_key sizeof_ulong (λ i. bytes (i + cmd_func_offset))

func_found : Datamng → Option ℕ → ℕ
unfolding func_of
func_found dm none = 0
func_found dm (some p) = func_of (dm.mem p)

pub get_func_by_cmdname : Cmdmng → List ℕ → ℕ
unfolding func_found string_bytes
get_func_by_cmdname cm cmdname =
    func_found cm.dm_cmd (get_data_ptr cm.dm_cmd (string_bytes cmdname))

module _ (run : ℕ → List (List ℕ) → Cmdmng → ℤ × Cmdmng) where
  pub exec_args : Cmdmng → List (List ℕ) → ℤ × Cmdmng
  unfolding get_func_by_cmdname
  exec_args cm [] = (em_success, cm)
  exec_args cm (cmdname ∷ args) =
      let cmd_func = get_func_by_cmdname cm cmdname in
      if cmd_func == 0 then (em_error, cm) else run cmd_func (cmdname ∷ args) cm

-- What `isspace` of the C library accepts.
pub is_space : ℕ → Bool
is_space c = c == 32 || leb 9 c && leb c 13

pub skip_spaces : List ℕ → List ℕ
unfolding is_space
skip_spaces [] = []
skip_spaces (c ∷ cs) = let rest = skip_spaces cs in if is_space c then rest else c ∷ cs

-- A word of at most `n` characters, and what follows it.
pub read_word : ℕ → List ℕ → List ℕ × List ℕ
unfolding is_space
read_word zero cs = ([], cs)
read_word (suc n) [] = ([], [])
read_word (suc n) (c ∷ cs) =
    let (word, rest) = read_word n cs in if is_space c then ([], c ∷ cs) else (c ∷ word, rest)

scan_from : List ℕ → (List ℕ → List (List ℕ)) → List (List ℕ)
unfolding read_word
scan_from [] scan = []
scan_from (c ∷ cs) scan = let (word, rest) = read_word word_length_max (c ∷ cs) in word ∷ scan rest

-- `sscanf` of at most `n` words "%128s", each after white space.
scan_words : ℕ → List ℕ → List (List ℕ)
unfolding skip_spaces scan_from
scan_words zero cs = []
scan_words (suc n) cs = scan_from (skip_spaces cs) (scan_words n)

-- `_em_read_line`; without a word it returns -1.
pub read_line : List ℕ → List (List ℕ)
unfolding scan_words
read_line src = scan_words word_num_max src

-- `strncmp(word, "async", …) == 0`.
pub is_async : List ℕ → Bool
unfolding string_bytes
is_async word = strncmp_from word_length_max 0 (string_bytes word) (string_bytes async_cmdname)

-- The queue after an attempt to send; a full queue is only logged.
queue_sent : Cmdmng → Option (ℤ × Queue) → Cmdmng
queue_sent cm none = cm
queue_sent cm (some (ret, qu)) = record cm { qu_cmd = qu }

-- What is taken from the queue, if anything, and the queue after it.
queue_taken : Cmdmng → Option (ℤ × Bytes × Queue) → Option Bytes × Cmdmng
queue_taken cm none = (none, cm)
queue_taken cm (some (ret, bytes, qu)) =
    (if eqb_ℤ ret em_success then some bytes else none, record cm { qu_cmd = qu })

-- What a call that waits for input gives: no input in time, the end of the input, or a line.
pub data Input : Type 0 where
  times_out : Input
  ends : Input
  lines : List ℕ → Input

-- `strcspn(…, "\n")`.
until_newline : List ℕ → List ℕ
until_newline [] = []
until_newline (c ∷ cs) = let rest = until_newline cs in if c == 10 then [] else c ∷ rest

-- The string in `input_buf` after `timed_fgets`; at the end of the input it is left as it was. `none`
-- where it returns -1. A line has fewer than EM_CMD_BUF_LENGTH characters.
timed_fgets : List ℕ → Input → Option (List ℕ)
timed_fgets input_buf times_out = none
timed_fgets input_buf ends = some input_buf
timed_fgets input_buf (lines cs) = some cs

pub stop : Cmdmng → ℤ × Cmdmng
stop cm = (em_success, record cm { is_running = false })

-- The wait of em_cmd_start_bg.
abbrev pub bg_timeout : ℤ
bg_timeout = pos 100

module _ (run : ℕ → List (List ℕ) → Cmdmng → ℤ × Cmdmng) where
  exec_words : Cmdmng → List ℕ → List (List ℕ) → ℤ × Cmdmng
  unfolding exec_args queue_sent string_bytes is_async
  exec_words cm cmd_str [] = (em_error, cm)
  exec_words cm cmd_str (word ∷ words) =
      if ltb 1 (length (word ∷ words)) && is_async word
      then (em_error, queue_sent cm (enqueue cm.qu_cmd (string_bytes cmd_str) em_no_wait true))
      else exec_args run cm (word ∷ words)

  -- The locks of the queue's mutex succeed.
  pub exec_string : Cmdmng → List ℕ → ℤ × Cmdmng
  unfolding exec_words read_line
  exec_string cm cmd_str = exec_words cm cmd_str (read_line cmd_str)

  -- The words behind the first, for a line that has a word.
  bg_words : Cmdmng → List (List ℕ) → Cmdmng
  unfolding exec_args
  bg_words cm [] = cm
  bg_words cm (word ∷ words) = (exec_args run cm words).1

  bg_line : Bytes → Option Bytes × Cmdmng → Bytes × Cmdmng
  unfolding bg_words string_at
  bg_line input_buf (none, cm) = (input_buf, cm)
  bg_line input_buf (some bytes, cm) =
      (bytes, bg_words cm (read_line (string_at buf_length 0 bytes)))

  -- One round of em_cmd_start_bg, with the bytes of `input_buf`.
  pub bg_round : Bytes → Cmdmng → Bytes × Cmdmng
  unfolding bg_line queue_taken
  bg_round input_buf cm =
      bg_line input_buf (queue_taken cm (dequeue cm.qu_cmd input_buf bg_timeout true))

  -- em_cmd_start_bg, with what other tasks do to the manager before each test of `is_running`; `none`
  -- while it runs.
  pub start_bg : List (Cmdmng → Cmdmng) → Bytes → Cmdmng → Option (ℤ × Cmdmng)
  unfolding bg_round
  start_bg [] input_buf cm = none
  start_bg (others ∷ more) input_buf cm =
      let cm' = others cm in
      let (buf, cm'') = bg_round input_buf cm' in
      let rest = start_bg more buf cm'' in if cm'.is_running then rest else some (em_success, cm')

  round_input : List ℕ → Cmdmng → Option (List ℕ) → List ℕ × Cmdmng
  unfolding exec_string until_newline
  round_input input_buf cm none = (input_buf, cm)
  round_input input_buf cm (some cs) =
      let line = until_newline cs in (line, (exec_string cm line).1)

  start_loop : List Input → List ℕ → Cmdmng → Option (ℤ × Cmdmng)
  unfolding round_input timed_fgets
  start_loop [] input_buf cm = if cm.is_running then none else some (em_success, cm)
  start_loop (input ∷ inputs) input_buf cm =
      let (buf, cm') = round_input input_buf cm (timed_fgets input_buf input) in
      let rest = start_loop inputs buf cm' in if cm.is_running then rest else some (em_success, cm)

  -- em_cmd_start, with the input that comes; `none` while it runs. `input_buf` is what was on the stack.
  pub start : List Input → List ℕ → Cmdmng → Option (ℤ × Cmdmng)
  unfolding start_loop
  start inputs input_buf cm = start_loop inputs input_buf (record cm { is_running = true })
