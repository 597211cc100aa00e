-- ===== src/Task/Examples.antt =====
-- Tests of em_task.c, and the theorems about it at a table of three tasks, of which number 5 is there
-- and runs on thread 77 with an empty queue of two messages of four bytes.
use embedded_middle.Prelude.{
  ◌+◌, ℕ, ◌<◌, ◌≡◌, ◌≢◌, refl, arith, true, false, none, some, List, length, [], ◌∷◌, ◌++◌, pos,
  em_success, em_error, em_no_wait,
}
use embedded_middle.Prelude.Int.{sign_extend}
use embedded_middle.Bytes.{Bytes, memcpy}
use embedded_middle.Mempool.Sample.{sample_pool, sample_pool-IsValid}
use embedded_middle.Queue.{Queue}
use embedded_middle.Queue
use embedded_middle.Queue.Sample.{blank_queue, bump}
use embedded_middle.Queue.Contents.{datum, contents}
use embedded_middle.Queue.Calls.{IsIdle, create-IsIdle}
use embedded_middle.Gdatamng.{em_dmng_key_integer}
use embedded_middle.Gdatamng.Valid.{get_data-Absent}
use embedded_middle.Idatamng.{key_of, sizeof_ulong, get_data}
use embedded_middle.Idatamng.Ids.{IsIdTable, of_key-key_of, keycmp-key_of}
use embedded_middle.Task.{
  Taskmng, TaskSetting, Answers, Junk, task_key, thread_made, create, get_task_id, msg_send,
  msg_recv,
}
use embedded_middle.Task.Threads.{IsTaskTable, Runs, get_task_id_lem}
use embedded_middle.Task.Created.{create_unstarted}
use embedded_middle.Task.Messages.{message_delivered, queue_at}

abbrev fresh : Queue
fresh = (Queue.create bump blank_queue 4 2 8192).1

abbrev tasks : Taskmng
tasks = record {
  msgdata_size = pos 4;
  taskinfo_mng = record {
    mp = sample_pool 192;
    key = λ i. key_of 5;
    count = λ i. 1;
    key_size = sizeof_ulong;
    duplicate_mode = 1;
    key_type = em_dmng_key_integer;
    mem = λ p. key_of 77;
  };
  msgqueue = λ p. fresh;
  sem = 0;
}

tasks-IsIdTable : IsIdTable tasks.taskinfo_mng
tasks-IsIdTable = record {
  valid = record {
    pool = sample_pool-IsValid 192 (omega arith) (omega arith);
    distinct = λ i j u w e. omega (arith, u.1, w.1);
    counted = λ j u. omega arith;
    bounded = λ j u. omega arith;
    few = omega arith;
  };
  integers = refl;
  longs = refl;
}

tasks-IsTaskTable : IsTaskTable tasks
tasks-IsTaskTable = record {
  table = tasks-IsIdTable;
  threads = λ i j u w e. omega (arith, u.1, w.1);
}

five_Runs : Runs tasks 5 77 0
unfolding sign_extend
five_Runs = (
  ((omega arith, omega arith), keycmp-key_of 5 5 (omega arith) (omega arith)),
  of_key-key_of 77 (omega arith),
)

fresh-IsIdle : IsIdle fresh
fresh-IsIdle = create-IsIdle bump blank_queue 4 2 8192 (omega arith) (omega arith)

get_task_id_lem_example : get_task_id tasks 77 ≡ 5
get_task_id_lem_example =
    get_task_id_lem tasks 5 77 0 tasks-IsTaskTable (omega arith) (omega arith) five_Runs

abbrev setting : TaskSetting
setting = record {
  task_name = λ i. 65;
  task_name_len = 1;
  task_id = 6;
  priority = pos 0;
  stack_size = 0;
  mqueue_size = 2;
  entry_func = 1;
  entry_func_arg = 0;
}

-- The C library cannot make one more thread (EAGAIN).
abbrev no_thread : Answers
no_thread = record {
  attr_init = 0;
  setstacksize = 0;
  setschedpolicy = 0;
  setinheritsched = 0;
  setschedparam = 0;
  thread_create = 11;
  thread_id = 0;
}

abbrev junk : Junk
junk = record { bytes = λ i. 255; queue = blank_queue }

six_unknown : get_data tasks.taskinfo_mng (task_key 6) (λ i. 0) ≡ none
unfolding get_data sign_extend
six_unknown =
    (get_data-Absent tasks.taskinfo_mng (key_of 6) (λ i. 0) tasks-IsIdTable.valid
      (λ i u. keycmp-key_of 5 6 (omega arith) (omega arith))).0

not_made : thread_made setting no_thread ≡ false
unfolding thread_made
not_made = refl

create_unstarted_example :
    let (ret, tm', started, h') = create bump junk tasks setting no_thread 9000 in
    (ret ≡ em_error)
    × (started ≡ none)
    × (get_data tm'.taskinfo_mng (task_key 6) (λ i. 0) ≡ some (memcpy (λ i. 0) (λ i. 255) 192))
    × (tm'.taskinfo_mng.mp.num_used ≡ tasks.taskinfo_mng.mp.num_used + 1)
    × (tm'.taskinfo_mng.mp.num_max ≡ tasks.taskinfo_mng.mp.num_max)
create_unstarted_example =
    create_unstarted bump junk tasks setting no_thread (λ i. 0) 9000 tasks-IsTaskTable (omega arith)
      six_unknown (omega arith) (omega arith) not_made

fresh_room : length (contents fresh) < fresh.num_max
unfolding Queue.create Queue.create_with_blocks Queue.link_blocks
fresh_room = omega arith

message_delivered_example :
    (tm₁ tm₂ : Taskmng) × (x : Bytes) × (rest : List Bytes) × (msg_send tasks 5
        (λ i. i)
        em_no_wait
        true
      ≡ some (em_success, tm₁))
    × (contents fresh ++ (datum fresh.block_size (λ i. i) ∷ []) ≡ x ∷ rest)
    × (msg_recv tm₁ 77 (λ i. 0) em_no_wait true
        ≡ some (em_success, memcpy (λ i. 0) x fresh.block_size, tm₂))
    × (contents (queue_at tm₂ 0) ≡ rest)
    × IsIdle (queue_at tm₂ 0)
    × ((p : ℕ) → p ≢ 4096 → tm₂.msgqueue p ≡ fresh)
message_delivered_example =
    message_delivered tasks 5 77 0 (λ i. i) (λ i. 0) em_no_wait em_no_wait tasks-IsTaskTable
      (omega arith) (omega arith) five_Runs fresh-IsIdle fresh_room
