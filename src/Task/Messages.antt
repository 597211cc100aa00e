-- ===== src/Task/Messages.antt =====
-- Messages to tasks.
use embedded_middle.Prelude.{
  ℕ, ◌^◌, ◌<◌, ◌≡◌, ◌≢◌, refl, sym, ap, ◌∙◌, true, some, List, [], ◌∷◌, ◌++◌, ℤ, length, update,
  update_self, update_ne, em_success, subst,
}
use embedded_middle.Bytes.{Bytes, memcpy}
use embedded_middle.Mempool.Blocks.{address}
use embedded_middle.Queue.{Queue, enqueue, dequeue}
use embedded_middle.Queue.Contents.{datum, contents}
use embedded_middle.Queue.Calls.{IsIdle}
use embedded_middle.Queue.Flow.{enqueue_room, dequeue-front}
use embedded_middle.Idatamng.Ids.{get_data_ptr-Holds}
use embedded_middle.Task.{
  Taskmng, task_key, get_queue, with_queue, send_found, recv_found, msg_send, msg_recv,
}
use embedded_middle.Task.Threads.{IsTaskTable, Runs, get_task_id_lem}

-- The queue of the task whose info is in block `j`.
abbrev pub queue_at : Taskmng → ℕ → Queue
queue_at tm j = tm.msgqueue (address tm.taskinfo_mng.mp j)

get_queue-Runs :
    (tm : Taskmng) (task_id thread_id j : ℕ)
    → IsTaskTable tm
    → Runs tm task_id thread_id j
    → get_queue tm task_id ≡ some (address tm.taskinfo_mng.mp j)
unfolding get_queue
get_queue-Runs tm task_id thread_id j t (h, _) = get_data_ptr-Holds (task_key task_id) j t.table h

snoc-cons :
    {A : Type 0} (xs : List A) (y : A) → (x : A) × (rest : List A) × (xs ++ (y ∷ []) ≡ x ∷ rest)
snoc-cons [] y = (y, [], refl)
snoc-cons (x ∷ xs) y = (x, xs ++ (y ∷ []), refl)

abbrev with_at : Taskmng → ℕ → Queue → Taskmng
with_at tm p queue = record tm { msgqueue = update tm.msgqueue p queue }

module _ (tm : Taskmng) (task_id thread_id j : ℕ) (t : IsTaskTable tm)
    (runs : Runs tm task_id thread_id j) where
  abbrev p : ℕ
  p = address tm.taskinfo_mng.mp j

  send_step :
      (msgdata : Bytes) (timeout_ms : ℤ) (qu : Queue)
      → enqueue (queue_at tm j) msgdata timeout_ms true ≡ some (em_success, qu)
      → msg_send tm task_id msgdata timeout_ms true ≡ some (em_success, with_at tm p qu)
  unfolding msg_send send_found with_queue
  send_step msgdata timeout_ms qu e =
      rw (get_queue-Runs tm task_id thread_id j t runs, send_found, e) refl

  recv_step :
      (dst bytes : Bytes) (timeout_ms : ℤ) (qu : Queue)
      → task_id < 2 ^ 31
      → thread_id < 2 ^ 64
      → dequeue (queue_at tm j) dst timeout_ms true ≡ some (em_success, bytes, qu)
      → msg_recv tm thread_id dst timeout_ms true ≡ some (em_success, bytes, with_at tm p qu)
  unfolding msg_recv recv_found with_queue
  recv_step dst bytes timeout_ms qu small fits e =
      rw
        (
          get_task_id_lem tm task_id thread_id j t small fits runs,
          get_queue-Runs tm task_id thread_id j t runs,
          recv_found,
          e,
        )
        refl

-- A message to a task whose queue is idle and has room is sent; then the task, called from its own
-- thread, receives the oldest message of its queue, and the one that was sent stands last of what
-- is left: of an empty queue it is the one received. No other task's queue changes.
pub message_delivered :
    (tm : Taskmng) (task_id thread_id j : ℕ) (msgdata dst : Bytes) (send_ms recv_ms : ℤ)
    → IsTaskTable tm
    → task_id < 2 ^ 31
    → thread_id < 2 ^ 64
    → Runs tm task_id thread_id j
    → IsIdle (queue_at tm j)
    → length (contents (queue_at tm j)) < (queue_at tm j).num_max
    → (tm₁ tm₂ : Taskmng) × (x : Bytes) × (rest : List Bytes) × (msg_send tm task_id msgdata send_ms
          true
        ≡ some (em_success, tm₁))
      × (contents (queue_at tm j) ++ (datum (queue_at tm j).block_size msgdata ∷ []) ≡ x ∷ rest)
      × (msg_recv tm₁ thread_id dst recv_ms true
          ≡ some (em_success, memcpy dst x (queue_at tm j).block_size, tm₂))
      × (contents (queue_at tm₂ j) ≡ rest)
      × IsIdle (queue_at tm₂ j)
      × ((p : ℕ) → p ≢ address tm.taskinfo_mng.mp j → tm₂.msgqueue p ≡ tm.msgqueue p)
message_delivered tm task_id thread_id j msgdata dst send_ms recv_ms t small fits runs idle room =
    let at : ℕ = address tm.taskinfo_mng.mp j in
    let (qu₁, sent, at_end, same_size, idle₁) = enqueue_room msgdata send_ms idle room in
    let tm₁ : Taskmng = with_at tm at qu₁ in
    let (x, rest, splits) =
      snoc-cons (contents (queue_at tm j)) (datum (queue_at tm j).block_size msgdata) in
    let here : queue_at tm₁ j ≡ qu₁ = update_self tm.msgqueue at qu₁ in
    let (qu₂, received, left, idle₂) = dequeue-front x rest dst recv_ms idle₁ (at_end ∙ splits) in
    let here₂ : queue_at (with_at tm₁ at qu₂) j ≡ qu₂ = update_self tm₁.msgqueue at qu₂ in
    let t₁ : IsTaskTable tm₁ = record { table = t.table; threads = t.threads } in
    (
      tm₁,
      with_at tm₁ at qu₂,
      x,
      rest,
      send_step tm task_id thread_id j t runs msgdata send_ms qu₁ sent,
      splits,
      recv_step tm₁ task_id thread_id j t₁ runs dst (memcpy dst x (queue_at tm j).block_size)
          recv_ms qu₂ small fits
          (ap (λ q. dequeue q dst recv_ms true) here
            ∙ received
            ∙ ap (λ b. some (em_success, memcpy dst x b, qu₂)) same_size),
      ap contents here₂ ∙ left,
      subst IsIdle (sym here₂) idle₂,
      λ q ne. update_ne tm₁.msgqueue at q qu₂ ne ∙ update_ne tm.msgqueue at q qu₁ ne,
    )
