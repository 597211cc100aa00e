-- ===== src/Task.antt =====
-- src/em_task.c: tasks by number, each with a thread and a queue of messages, over the data manager
-- with integer keys. A task's number is the bit pattern of an `int`. What the calls of the C library's
-- threads answer is an argument, 0 for success. The trace lines are not modelled.
pub mod Threads
pub mod Created
pub mod Messages
mod Examples
use embedded_middle.Prelude.{
  ℕ, ◌+◌, ◌%◌, ◌^◌, ◌-◌, ◌||◌, ◌&&◌, Bool, true, false, Option, none, some, List, [], ◌∷◌, ◌++◌, ℤ,
  not, ltb, ◌==◌, if◌then◌else◌, update, u32_mod, em_success, em_error, em_no_timeout,
}
use embedded_middle.Prelude.Int.{eqb_ℤ, pos_part, sign_extend}
use embedded_middle.Bytes.{Bytes, memcpy, copy_at}
use embedded_middle.Semaphore.{
  acquired, refused, blocked, sem_init, sem_wait, sem_post, sem_destroy,
}
use embedded_middle.Queue.{Queue, enqueue, dequeue, getnum}
use embedded_middle.Queue
use embedded_middle.Gdatamng.{Datamng, em_dmng_dplct_error}
use embedded_middle.Gdatamng
use embedded_middle.Idatamng.{
  key_of, of_key, sizeof_ulong, add_data, get_data, get_data_ptr, remove_data, get_id_by_func,
}
use embedded_middle.Idatamng

-- `em_tasksetting_t`. The length of the name is that of `strlen`; a name and its NUL byte fit in the
-- 32 bytes that a task has for it. A function is the number of it.
pub record TaskSetting : Type 0 where
  pub task_name : Bytes
  pub task_name_len : ℕ
  pub task_id : ℕ
  pub priority : ℤ
  pub stack_size : ℕ
  pub mqueue_size : ℕ
  pub entry_func : ℕ
  pub entry_func_arg : ℕ

-- `em_thrdarg_t`, without the two functions of the heap and the semaphore, which are the manager's.
pub record Thrdarg : Type 0 where
  pub entry_func : ℕ
  pub entry_func_arg : ℕ

-- `em_taskmng_t`. An `_em_taskinfo_t` is in the memory of the data manager with its thread's number in
-- the first 8 bytes and its name in the next 32; `msgqueue` has the queue that follows, by the
-- address of the info.
pub record Taskmng : Type 0 where
  pub msgdata_size : ℤ
  pub taskinfo_mng : Datamng
  pub msgqueue : ℕ → Queue
  pub sem : ℕ

-- An info on the stack, where it has not been set.
pub record Junk : Type 0 where
  pub bytes : Bytes
  pub queue : Queue

-- What the calls that make a thread answer, and the number of the thread made.
pub record Answers : Type 0 where
  pub attr_init : ℕ
  pub setstacksize : ℕ
  pub setschedpolicy : ℕ
  pub setinheritsched : ℕ
  pub setschedparam : ℕ
  pub thread_create : ℕ
  pub thread_id : ℕ

-- On 64-bit Linux.
abbrev pub sizeof_taskinfo : ℕ
sizeof_taskinfo = 192

abbrev pub sizeof_thrdarg : ℕ
sizeof_thrdarg = 40

abbrev pub task_name_offset : ℕ
task_name_offset = 8

unfoldable pub init : {H : Type 0} → (ℕ → H → ℕ × H) → Taskmng → ℕ → ℤ → H → ℤ × Taskmng × H
unfolding sem_init
init alloc_func tm max_num_task msgdata_size h =
    let (ret, dm, h') =
      Idatamng.create alloc_func tm.taskinfo_mng sizeof_taskinfo max_num_task em_dmng_dplct_error
        h in
    (ret, record tm { msgdata_size = msgdata_size; sem = sem_init 0; taskinfo_mng = dm }, h')

-- From the addresses of the tables of keys, with the addresses passed to `free_func`.
pub destroy : Taskmng → ℕ → ℕ → ℤ × List ℕ × Taskmng
unfolding sem_destroy
destroy tm keycnt keymem =
    if eqb_ℤ (sem_destroy tm.sem) em_success
    then (let (ret, freed, dm) = Gdatamng.destroy tm.taskinfo_mng keycnt keymem in
        (ret, freed, record tm { taskinfo_mng = dm }))
    else (em_error, [], tm)

-- An `em_taskid_t` as the `ulong` that is the key.
abbrev pub task_key : ℕ → ℕ
task_key task_id = sign_extend task_id

-- em_idatamng_add_data with a whole info: the queue is copied with the other bytes.
add_info : Taskmng → ℕ → Bytes → Queue → ℤ × Taskmng
add_info tm task_id bytes queue =
    let (ret, dm) = add_data tm.taskinfo_mng (task_key task_id) bytes in
    let tm' = record tm { taskinfo_mng = dm } in
    (
      ret,
      if eqb_ℤ ret em_success
          then elim (get_data_ptr dm (task_key task_id)) [
            | none ↦ tm'
            | some p ↦ record tm' { msgqueue = update tm.msgqueue p queue }
          ]
          else tm',
    )

-- For the info of a task that is registered, or none.
create_msgqueue_found :
    {H : Type 0} → (ℕ → H → ℕ × H) → Junk → Taskmng → TaskSetting → H → Option ℕ → ℤ × Taskmng × H
unfolding add_info
create_msgqueue_found alloc_func junk tm setting h (some p) =
    let (ret, queue, h') =
      Queue.create alloc_func (tm.msgqueue p) (pos_part tm.msgdata_size) setting.mqueue_size h in
    (ret, record tm { msgqueue = update tm.msgqueue p queue }, h')
create_msgqueue_found alloc_func junk tm setting h none =
    let (ret, queue, h') =
      Queue.create alloc_func junk.queue (pos_part tm.msgdata_size) setting.mqueue_size h in
    if eqb_ℤ ret em_success
    then (let (ret', tm') = add_info tm setting.task_id junk.bytes queue in (ret', tm', h'))
    else (em_error, tm, h')

pub create_msgqueue :
    {H : Type 0} → (ℕ → H → ℕ × H) → Junk → Taskmng → TaskSetting → H → ℤ × Taskmng × H
unfolding create_msgqueue_found
create_msgqueue alloc_func junk tm setting h =
    if pos_part tm.msgdata_size == 0
    then (em_success, tm, h)
    else create_msgqueue_found alloc_func junk tm setting h
        (get_data_ptr tm.taskinfo_mng (task_key setting.task_id))

-- Whether the chain of calls comes to its end with a thread.
pub thread_made : TaskSetting → Answers → Bool
thread_made setting a =
    let has_priority = not (pos_part setting.priority == 0) in
    a.attr_init == 0
    && (setting.stack_size == 0 || a.setstacksize == 0)
    && a.setschedpolicy == 0
    && (not has_priority || a.setinheritsched == 0)
    && (not has_priority || a.setschedparam == 0)
    && a.thread_create == 0

-- The name and the thread's number in the bytes of an info.
info_bytes : Bytes → TaskSetting → ℕ → Bytes
info_bytes bytes setting thread_id =
    copy_at (copy_at bytes task_name_offset setting.task_name (setting.task_name_len + 1)) 0
      (key_of thread_id) sizeof_ulong

-- The result of em_idatamng_add_data is not looked at.
register : Junk → Taskmng → TaskSetting → ℕ → Option ℕ → Taskmng
unfolding add_info info_bytes
register junk tm setting thread_id (some p) =
    let dm = tm.taskinfo_mng in
    record tm {
      taskinfo_mng = record dm { mem = update dm.mem p (info_bytes (dm.mem p) setting thread_id) };
    }
register junk tm setting thread_id none =
    (add_info tm setting.task_id (info_bytes junk.bytes setting thread_id) junk.queue).1

start_found : Junk → Taskmng → TaskSetting → Answers → Option ℕ → ℤ × Taskmng × Option Thrdarg
unfolding register thread_made sem_post
start_found junk tm setting a task_info =
    let mp = tm.taskinfo_mng.mp in
    let registered : Bool = elim task_info [ none ↦ false | some p ↦ true ] in
    if (not registered && mp.num_used == mp.num_max) || not (thread_made setting a)
    then (em_error, tm, none)
    else (let tm' = register junk tm setting a.thread_id task_info in
        (
          em_success,
          record tm' { sem = (sem_post tm'.sem).1 },
          some
              (record { entry_func = setting.entry_func; entry_func_arg = setting.entry_func_arg }),
        ))

-- With what the new thread is started with, if one is. The memory for that is not given back on an
-- error.
pub start_task :
    {H : Type 0}
    → (ℕ → H → ℕ × H)
    → Junk
    → Taskmng
    → TaskSetting
    → Answers
    → H
    → ℤ × Taskmng × Option Thrdarg × H
unfolding start_found
start_task alloc_func junk tm setting a h =
    let (thrdarg, h') = alloc_func sizeof_thrdarg h in
    let (ret, tm', started) =
      start_found junk tm setting a (get_data_ptr tm.taskinfo_mng (task_key setting.task_id)) in
    (ret, tm', started, h')

pub create :
    {H : Type 0}
    → (ℕ → H → ℕ × H)
    → Junk
    → Taskmng
    → TaskSetting
    → Answers
    → H
    → ℤ × Taskmng × Option Thrdarg × H
unfolding create_msgqueue start_task
create alloc_func junk tm setting a h =
    if tm.taskinfo_mng.mp.num_used == tm.taskinfo_mng.mp.num_max
    then (em_error, tm, none, h)
    else (let (ret, tm₁, h₁) = create_msgqueue alloc_func junk tm setting h in
        if eqb_ℤ ret em_success
        then (let (ret', tm₂, started, h₂) = start_task alloc_func junk tm₁ setting a h₁ in
            (if eqb_ℤ ret' em_success then em_success else em_error, tm₂, started, h₂))
        else (em_error, tm₁, none, h₁))

-- `_em_thread_starter`: the memory for the result, what the task's function returns, and the addresses
-- passed to `free_func`. It waits until the manager knows the thread; the result of the wait is not
-- looked at. `none` while it waits.
pub thread_starter :
    {H : Type 0}
    → (ℕ → H → ℕ × H)
    → (ℕ → ℕ → ℤ)
    → Taskmng
    → Thrdarg
    → ℕ
    → H
    → Option (ℕ × ℤ × List ℕ × Taskmng × H)
unfolding sem_wait
thread_starter alloc_func run tm arg thrdarg h =
    let (ret, h') = alloc_func 4 h in
    let result = run arg.entry_func arg.entry_func_arg in
    elim (sem_wait tm.sem em_no_timeout) [
      | acquired s ↦ some (ret, result, thrdarg ∷ [], record tm { sem = s }, h')
      | refused ↦ some (ret, result, thrdarg ∷ [], tm, h')
      | blocked ↦ none
    ]

-- `th_ret` is what pthread_join gives, not NULL. The result is the thread that is joined, the addresses
-- passed to `free_func`, and the manager; `none` where the task is not known: the code goes on with
-- what was on the stack.
delete_found : Taskmng → ℕ → ℕ → Option ℕ → Option (ℤ × ℕ × List ℕ × Taskmng)
unfolding of_key
delete_found tm task_id th_ret none = none
delete_found tm task_id th_ret (some p) =
    let (ret, freed) = Queue.destroy (tm.msgqueue p) in
    let (ret', dm) = remove_data tm.taskinfo_mng (task_key task_id) in
    some (
      em_success,
      of_key sizeof_ulong (tm.taskinfo_mng.mem p),
      th_ret ∷ freed,
      record tm { taskinfo_mng = dm },
    )

pub delete : Taskmng → ℕ → ℕ → Option (ℤ × ℕ × List ℕ × Taskmng)
unfolding delete_found
delete tm task_id th_ret =
    delete_found tm task_id th_ret (get_data_ptr tm.taskinfo_mng (task_key task_id))

-- `_em_threadid_comparator`.
pub threadid_comparator : Bytes → Bytes → Bool
unfolding of_key
threadid_comparator dm_data thread_id = of_key sizeof_ulong thread_id == of_key sizeof_ulong dm_data

-- Of the thread that calls. A `ulong` is cut to an `int`; -1 has the bits 2 ^ 32 - 1.
pub get_task_id : Taskmng → ℕ → ℕ
unfolding threadid_comparator
get_task_id tm thread_id =
    let task_id = get_id_by_func tm.taskinfo_mng (key_of thread_id) threadid_comparator % u32_mod in
    if ltb task_id (2 ^ 31) then task_id else u32_mod - 1

-- `_em_msgmng_get_queue`, by the address of the info; `none` is NULL.
pub get_queue : Taskmng → ℕ → Option ℕ
get_queue tm taskid = get_data_ptr tm.taskinfo_mng (task_key taskid)

with_queue : Taskmng → ℕ → Queue → Taskmng
with_queue tm p queue = record tm { msgqueue = update tm.msgqueue p queue }

send_found : Taskmng → Bytes → ℤ → Bool → Option ℕ → Option (ℤ × Taskmng)
unfolding with_queue
send_found tm msgdata timeout_ms locked none = some (em_error, tm)
send_found tm msgdata timeout_ms locked (some p) =
    elim (enqueue (tm.msgqueue p) msgdata timeout_ms locked) [
      | none ↦ none
      | some (ret, queue) ↦
          some (if eqb_ℤ ret em_success then em_success else em_error, with_queue tm p queue)
    ]

-- `locked` is whether the queue's mutex could be locked; `none` where the call never returns.
pub msg_send : Taskmng → ℕ → Bytes → ℤ → Bool → Option (ℤ × Taskmng)
unfolding send_found get_queue
msg_send tm taskid msgdata timeout_ms locked =
    send_found tm msgdata timeout_ms locked (get_queue tm taskid)

recv_found : Taskmng → Bytes → ℤ → Bool → Option ℕ → Option (ℤ × Bytes × Taskmng)
unfolding with_queue
recv_found tm msgdata timeout_ms locked none = some (em_error, msgdata, tm)
recv_found tm msgdata timeout_ms locked (some p) =
    elim (dequeue (tm.msgqueue p) msgdata timeout_ms locked) [
      | none ↦ none
      | some (ret, bytes, queue) ↦
          some (if eqb_ℤ ret em_success then em_success else em_error, bytes, with_queue tm p queue)
    ]

-- By the thread that calls, with the bytes at `msgdata` after the call.
pub msg_recv : Taskmng → ℕ → Bytes → ℤ → Bool → Option (ℤ × Bytes × Taskmng)
unfolding recv_found get_task_id get_queue
msg_recv tm thread_id msgdata timeout_ms locked =
    recv_found tm msgdata timeout_ms locked (get_queue tm (get_task_id tm thread_id))

pub msg_recv_num_check : Taskmng → ℕ → Bool → ℤ
unfolding get_task_id get_queue
msg_recv_num_check tm thread_id locked = elim (get_queue tm (get_task_id tm thread_id)) [
  | none ↦ em_error
  | some p ↦ getnum (tm.msgqueue p) locked
]
