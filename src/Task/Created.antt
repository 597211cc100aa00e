-- ===== src/Task/Created.antt =====
-- What em_task_create leaves behind when the thread cannot be made.
use embedded_middle.Prelude.{
  ℕ, ◌+◌, ◌<◌, ◌^◌, ◌≡◌, refl, ap, ◌∙◌, arith, false, Option, none, some, if◌then◌else◌, em_error,
  em_success, ne→==, eq→==, ◌≢◌,
}
use embedded_middle.Prelude.Int.{pos_part}
use embedded_middle.Bytes.{Bytes, memcpy}
use embedded_middle.Queue.{Queue}
use embedded_middle.Queue.Flow.{create_success}
use embedded_middle.Idatamng.{add_data, get_data, get_data_ptr}
use embedded_middle.Idatamng.Ids.{add_data_lem, add_data-num_used, unknown-get_data_ptr}
use embedded_middle.Task.{
  Taskmng, Junk, TaskSetting, Answers, task_key, thread_made, add_info, create_msgqueue_found,
  create_msgqueue, start_found, start_task, create,
}
use embedded_middle.Task.Threads.{IsTaskTable, sign_extend-u32}

module _ {H : Type 0} (alloc_func : ℕ → H → ℕ × H) (junk : Junk) (setting : TaskSetting)
    (a : Answers) where
  start_unmade :
      (tm : Taskmng) (task_info : Option ℕ)
      → thread_made setting a ≡ false
      → start_found junk tm setting a task_info ≡ (em_error, tm, none)
  unfolding start_found
  start_unmade tm task_info fails = ground (arith, fails)

  start_task_unmade :
      (tm : Taskmng) (h : H)
      → thread_made setting a ≡ false
      → let (ret, tm', started, h') = start_task alloc_func junk tm setting a h in
        (ret ≡ em_error) × (started ≡ none) × (tm' ≡ tm)
  unfolding start_task
  start_task_unmade tm h fails =
      let r = start_unmade tm (get_data_ptr tm.taskinfo_mng (task_key setting.task_id)) fails in
      rw r (refl, refl, refl)

  add_info-table :
      (tm : Taskmng) (queue : Queue)
      → let (ret, tm') = add_info tm setting.task_id junk.bytes queue in
        (ret ≡ (add_data tm.taskinfo_mng (task_key setting.task_id) junk.bytes).0)
        × (tm'.taskinfo_mng ≡ (add_data tm.taskinfo_mng (task_key setting.task_id) junk.bytes).1)
  unfolding add_info
  add_info-table tm queue = ground arith

  msgqueue_unknown :
      (tm : Taskmng) (h : H)
      → get_data_ptr tm.taskinfo_mng (task_key setting.task_id) ≡ none
      → 0 < pos_part tm.msgdata_size
      → let (ret, tm', h') = create_msgqueue alloc_func junk tm setting h in
        (ret ≡ (add_data tm.taskinfo_mng (task_key setting.task_id) junk.bytes).0)
        × (tm'.taskinfo_mng ≡ (add_data tm.taskinfo_mng (task_key setting.task_id) junk.bytes).1)
  unfolding create_msgqueue create_msgqueue_found
  msgqueue_unknown tm h unknown messages =
      rw
        (
          ne→== (pos_part tm.msgdata_size) 0 (omega (arith, messages)),
          unknown,
          create_msgqueue_found,
          create_success alloc_func junk.queue (pos_part tm.msgdata_size) setting.mqueue_size h,
        )
        (add_info-table tm _)

  -- The call with its queue made and its thread not.
  create_unmade :
      (tm : Taskmng) (h : H)
      → tm.taskinfo_mng.mp.num_used ≢ tm.taskinfo_mng.mp.num_max
      → (create_msgqueue alloc_func junk tm setting h).0 ≡ em_success
      → thread_made setting a ≡ false
      → let (ret, tm', started, h') = create alloc_func junk tm setting a h in
        (ret ≡ em_error)
        × (started ≡ none)
        × (tm' ≡ (create_msgqueue alloc_func junk tm setting h).1)
  unfolding create
  create_unmade tm h room made fails =
      let (failed, nothing, same) =
        start_task_unmade (create_msgqueue alloc_func junk tm setting h).1
          (create_msgqueue alloc_func junk tm setting h).2 fails in
      rw (ne→== tm.taskinfo_mng.mp.num_used tm.taskinfo_mng.mp.num_max room, made, failed)
        (refl, nothing, same)

-- For a task with a number that is not negative and that the manager does not know, with room for
-- it and with messages, a call of em_task_create whose thread cannot be made returns EM_ERROR, but
-- the manager knows the task after it: the number has an info, without a thread, and of as many
-- places one more is in use.
pub create_unstarted :
    {H : Type 0} (alloc_func : ℕ → H → ℕ × H) (junk : Junk) (tm : Taskmng) (setting : TaskSetting)
    (a : Answers) (dst : Bytes) (h : H)
    → IsTaskTable tm
    → setting.task_id < 2 ^ 31
    → get_data tm.taskinfo_mng (task_key setting.task_id) dst ≡ none
    → tm.taskinfo_mng.mp.num_used < tm.taskinfo_mng.mp.num_max
    → 0 < pos_part tm.msgdata_size
    → thread_made setting a ≡ false
    → let (ret, tm', started, h') = create alloc_func junk tm setting a h in
      (ret ≡ em_error)
      × (started ≡ none)
      × (get_data tm'.taskinfo_mng (task_key setting.task_id) dst
          ≡ some (memcpy dst junk.bytes tm.taskinfo_mng.mp.block_size))
      × (tm'.taskinfo_mng.mp.num_used ≡ tm.taskinfo_mng.mp.num_used + 1)
      × (tm'.taskinfo_mng.mp.num_max ≡ tm.taskinfo_mng.mp.num_max)
create_unstarted alloc_func junk tm setting a dst h t small unknown room messages fails =
    let id : ℕ = task_key setting.task_id in
    let dm = tm.taskinfo_mng in
    let fits : id < 2 ^ 64 = omega (arith, (sign_extend-u32 setting.task_id small).0) in
    let added = add_data_lem id id junk.bytes dst t.table fits fits unknown room in
    let (made, tables) =
      msgqueue_unknown alloc_func junk setting a tm h (unknown-get_data_ptr dm id dst unknown)
        messages in
    let count = add_data-num_used id junk.bytes dst t.table unknown room in
    let (failed, nothing, same) =
      create_unmade alloc_func junk setting a tm h (omega arith) (made ∙ added.0) fails in
    (
      failed,
      nothing,
      ap (λ m. get_data m.taskinfo_mng id dst) same
          ∙ ap (λ m. get_data m id dst) tables
          ∙ added.1
          ∙ ap
              (λ b. if b then some (memcpy dst junk.bytes dm.mp.block_size) else get_data dm id dst)
              (eq→== id id refl),
      ap (λ m. m.taskinfo_mng.mp.num_used) same ∙ ap (λ m. m.mp.num_used) tables ∙ count.0,
      ap (λ m. m.taskinfo_mng.mp.num_max) same ∙ ap (λ m. m.mp.num_max) tables ∙ count.1,
    )
