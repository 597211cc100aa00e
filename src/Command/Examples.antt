-- ===== src/Command/Examples.antt =====
-- Tests of em_command.c, and the theorems about it at a table of three commands, of which "ls" with the
-- function 40 is there, and a new queue.
use embedded_middle.Prelude.{
  ℕ, ◌<◌, ◌≡◌, refl, arith, true, none, some, List, [], ◌∷◌, ℤ, pos, em_success, em_error,
  if◌then◌else◌, ◌==◌,
}
use embedded_middle.Bytes.{Bytes, strncmp_from}
use embedded_middle.Mempool.Sample.{sample_pool, sample_pool-IsValid}
use embedded_middle.Queue.{Queue}
use embedded_middle.Queue
use embedded_middle.Queue.Sample.{blank_queue, bump}
use embedded_middle.Queue.Contents.{contents}
use embedded_middle.Queue.Calls.{IsIdle, create-IsIdle}
use embedded_middle.Gdatamng.{
  keycmp, em_dmng_key_string, get_data_ptr, data_of, get_blockinfo, search_from,
}
use embedded_middle.Idatamng.{of_key}
use embedded_middle.Command.{
  Cmdmng, CmdSetting, string_bytes, async_cmdname, buf_length, name_length_max, register,
  get_func_by_cmdname, func_found, func_of, is_async, exec_words, exec_args, exec_string, bg_round,
  stop, start, start_loop, round_input, timed_fgets, until_newline, lines, ends, read_line,
  scan_words, scan_from, read_word, skip_spaces, is_space,
}
use embedded_middle.Command.Words.{line, IsWord, read_line-line}
use embedded_middle.Command.Registered.{IsCmdTable, register_lem}
use embedded_middle.Command.Async.{async_executed}

-- "ls" and "ps".
abbrev ls : List ℕ
ls = 108 ∷ 115 ∷ []

abbrev ps : List ℕ
ps = 112 ∷ 115 ∷ []

-- A tab and two spaces stand between the words.
two_words : read_line (32 ∷ 108 ∷ 115 ∷ 9 ∷ 32 ∷ 112 ∷ 115 ∷ 10 ∷ []) ≡ ls ∷ ps ∷ []
unfolding read_line scan_words scan_from read_word skip_spaces is_space
two_words = refl

ls-IsWord : IsWord ls
unfolding is_space
ls-IsWord = record { spaceless = (refl, (refl, tt)); nonempty = omega arith; short = omega arith }

read_line-line_example : read_line (line ls (ls ∷ [])) ≡ ls ∷ ls ∷ []
read_line-line_example = read_line-line ls (ls ∷ []) (omega arith) ls-IsWord (ls-IsWord, tt)

abbrev queue : Queue
queue = (Queue.create bump blank_queue buf_length 4 20000).1

abbrev cm : Cmdmng
cm = record {
  is_running = true;
  dm_cmd = record {
    mp = sample_pool 16;
    key = λ i. string_bytes ls;
    count = λ i. 1;
    key_size = name_length_max;
    duplicate_mode = 1;
    key_type = em_dmng_key_string;
    mem = λ p i. if i == 8 then 40 else 0;
  };
  qu_cmd = queue;
}

cm-IsCmdTable : IsCmdTable cm.dm_cmd
cm-IsCmdTable = record {
  valid = record {
    pool = sample_pool-IsValid 16 (omega arith) (omega arith);
    distinct = λ i j u w e. omega (arith, u.1, w.1);
    counted = λ j u. omega arith;
    bounded = λ j u. omega arith;
    few = omega arith;
  };
  strings = refl;
  names = refl;
  settings = refl;
}

-- A command returns its number and stops the commands.
abbrev run : ℕ → List (List ℕ) → Cmdmng → ℤ × Cmdmng
run f words m = (pos f, (stop m).1)

abbrev ps_setting : CmdSetting
ps_setting = record { cmd_name = ps; cmd_name_at = 5000; cmd_func = 50 }

ps_unknown : get_data_ptr cm.dm_cmd (string_bytes ps) ≡ none
unfolding get_data_ptr data_of get_blockinfo search_from keycmp strncmp_from string_bytes
ps_unknown = refl

register_lem_example :
    let (ret, cm') = register cm ps_setting in
    (ret ≡ em_success)
    × (exec_args run cm' (ps ∷ []) ≡ run 50 (ps ∷ []) cm')
    × (get_func_by_cmdname cm' ls ≡ (
        if keycmp em_dmng_key_string (string_bytes ps) (string_bytes ls) name_length_max
        then 50
        else get_func_by_cmdname cm ls))
    × IsCmdTable cm'.dm_cmd
register_lem_example =
    register_lem run cm ps_setting [] ls cm-IsCmdTable ps_unknown (omega arith)
      (λ e. omega (arith, e)) (omega arith)

-- The line "ls", the end of the input, and "ls" again: the command stops the loop at once.
stopped : start run (lines (108 ∷ 115 ∷ 10 ∷ []) ∷ ends ∷ []) [] cm ≡ some (em_success, (stop cm).1)
unfolding start start_loop round_input timed_fgets until_newline exec_string exec_words exec_args
    get_func_by_cmdname func_found func_of get_data_ptr data_of get_blockinfo search_from keycmp
    strncmp_from string_bytes stop is_async of_key read_line scan_words scan_from read_word
    skip_spaces is_space
stopped = refl

queue-IsIdle : IsIdle queue
queue-IsIdle = create-IsIdle bump blank_queue buf_length 4 20000 (omega arith) (omega arith)

queue_empty : contents queue ≡ []
unfolding Queue.create Queue.create_with_blocks Queue.link_blocks
queue_empty = refl

queue_room : 0 < queue.num_max
unfolding Queue.create Queue.create_with_blocks Queue.link_blocks
queue_room = omega arith

queue_size : queue.block_size ≡ buf_length
unfolding Queue.create Queue.create_with_blocks Queue.link_blocks
queue_size = refl

async-IsWord : IsWord async_cmdname
unfolding is_space
async-IsWord = record {
  spaceless = (refl, (refl, (refl, (refl, (refl, tt)))));
  nonempty = omega arith;
  short = omega arith;
}

async_executed_example :
    (cm₁ cm₂ : Cmdmng) × (buf : Bytes) × (exec_string run cm (line async_cmdname (ls ∷ []))
      ≡ (em_error, cm₁))
    × (bg_round run (λ i. 0) cm₁ ≡ (buf, (exec_args run cm₂ (ls ∷ [])).1))
    × (contents cm₂.qu_cmd ≡ [])
    × IsIdle cm₂.qu_cmd
    × (cm₂.dm_cmd ≡ cm.dm_cmd)
    × (cm₂.is_running ≡ true)
async_executed_example =
    async_executed run cm ls [] (λ i. 0) queue-IsIdle queue_empty queue_room queue_size
      (async-IsWord, (ls-IsWord, tt)) (omega arith) (omega arith)
      (
        omega arith,
        (
          omega arith,
          (
            omega arith,
            (omega arith, (omega arith, (omega arith, (omega arith, (omega arith, tt))))),
          ),
        ),
      )
