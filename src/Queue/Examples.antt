-- ===== src/Queue/Examples.antt =====
-- Tests of em_queue.c, and the theorems about it at a new queue of two blocks of four bytes.
use embedded_middle.Prelude.{
  ℕ, ◌+◌, ◌*◌, update, ◌≡◌, refl, ◌⊎◌, arith, true, Option, none, some, [], ◌∷◌, ◌++◌, ℤ,
  em_success, em_err_timeout, em_no_timeout, em_no_wait,
}
use embedded_middle.Bytes.{Bytes, memcpy}
use embedded_middle.Semaphore.{sem_wait, sem_init, sem_post}
use embedded_middle.Queue.{
  Queue, create, create_with_blocks, link_blocks, enqueue, enqueue_claimed, enqueue_locked, dequeue,
  dequeue_claimed, dequeue_locked, enqueue_get_dataptr, enqueue_increment, write_block,
  dequeue_get_dataptr, dequeue_increment, read_block,
}
use embedded_middle.Queue.Sample.{blank_queue, bump}
use embedded_middle.Queue.Contents.{datum, contents}
use embedded_middle.Queue.Calls.{IsIdle, push, pop, enqueue_lem, dequeue_lem, create-IsIdle}
use embedded_middle.Queue.System.{
  Sys, start, Reach, first, later, claims_place, claims_data, enqueues, posts_data,
}
use embedded_middle.Queue.Order.{inserted_in_order}

abbrev fresh : Queue
fresh = (create bump blank_queue 4 2 4096).1

-- A datum whose bytes are all `n`.
abbrev all : ℕ → Bytes
all n i = n

fresh-IsIdle : IsIdle fresh
fresh-IsIdle = create-IsIdle bump blank_queue 4 2 4096 (omega arith) (omega arith)

-- What a call returned, where it returned.
abbrev queue_after : Option (ℤ × Queue) → Queue
queue_after none = blank_queue
queue_after (some r) = r.1

abbrev two : Queue
two =
    queue_after
      (enqueue (queue_after (enqueue fresh (all 1) em_no_wait true)) (all 2) em_no_wait true)

-- What `em_dequeue` returns, with the first byte that it delivers.
abbrev delivers : Option (ℤ × Bytes × Queue) → Option (ℤ × ℕ)
delivers none = none
delivers (some r) = some (r.0, r.1 0)

oldest_first : delivers (dequeue two (all 0) em_no_wait true) ≡ some (em_success, 1)
unfolding dequeue dequeue_claimed dequeue_locked dequeue_get_dataptr read_block dequeue_increment
    enqueue enqueue_claimed enqueue_locked enqueue_get_dataptr write_block enqueue_increment create
    create_with_blocks link_blocks sem_init sem_wait sem_post memcpy
oldest_first = refl

empty_fails : delivers (dequeue fresh (all 0) em_no_wait true) ≡ some (em_err_timeout, 0)
unfolding dequeue create create_with_blocks link_blocks sem_init sem_wait
empty_fails = refl

empty_waits : delivers (dequeue fresh (all 0) em_no_timeout true) ≡ none
unfolding dequeue create create_with_blocks link_blocks sem_init sem_wait
empty_waits = refl

enqueue_example :
    let spec = push fresh.num_max (contents fresh) (datum fresh.block_size (all 1)) em_no_wait in
    ((enqueue fresh (all 1) em_no_wait true ≡ none) × (spec ≡ none))
    ⊎ ((ret : ℤ) × (qu' : Queue) × (enqueue fresh (all 1) em_no_wait true ≡ some (ret, qu'))
        × (spec ≡ some (ret, contents qu'))
        × IsIdle qu')
enqueue_example = enqueue_lem (all 1) em_no_wait fresh-IsIdle

-- One datum, in a queue of two places whose head has come round.
abbrev one : Queue
one = record {
  block_size = 4;
  num_max = 2;
  num_used = 1;
  head_ptr = 0;
  tail_ptr = 1;
  block_ptr = λ i. 4096 + 4 * i;
  block_ptr_at = 1000;
  rawdata = 4096;
  sem_in = 1;
  sem_out = 1;
  mem = λ a. all a;
}

one-IsIdle : IsIdle one
one-IsIdle = record {
  valid = record {
    size_pos = omega arith;
    max_pos = omega arith;
    used_le = omega arith;
    tail_lt = omega arith;
    head_at = refl;
    block_at = λ i h. refl;
  };
  places = refl;
  counted = refl;
}

dequeue_example :
    let spec = pop 4 (contents one) (all 0) em_no_timeout in
    ((dequeue one (all 0) em_no_timeout true ≡ none) × (spec ≡ none))
    ⊎ ((ret : ℤ) × (bytes : Bytes) × (qu' : Queue) × (dequeue one (all 0) em_no_timeout true
          ≡ some (ret, bytes, qu'))
        × (spec ≡ some (ret, bytes, contents qu'))
        × IsIdle qu')
dequeue_example = dequeue_lem (all 0) em_no_timeout one-IsIdle

-- A producer has claimed a place of the new queue.
abbrev entering : Sys
entering = record (start fresh) { qu = record fresh { sem_in = 1 }; entering = 1 }

entering-Reach : Reach bump blank_queue 4 2 4096 entering
unfolding create create_with_blocks link_blocks sem_init sem_wait
entering-Reach = later first (claims_place em_no_wait 1 refl)

-- It writes and posts, and a consumer claims the datum.
abbrev written : Queue
written = record fresh {
  sem_in = 1;
  num_used = 1;
  head_ptr = 1;
  mem = update (λ a i. 0) 4096 (memcpy (all 0) (all 9) 4);
}

abbrev leaving : Sys
leaving = record (start fresh) { qu = written; leaving = 1; inserted = datum 4 (all 9) ∷ [] }

leaving-Reach : Reach bump blank_queue 4 2 4096 leaving
unfolding create create_with_blocks link_blocks sem_init sem_wait sem_post enqueue_locked
    enqueue_get_dataptr write_block enqueue_increment
leaving-Reach =
    later
      (later (later entering-Reach (enqueues (all 9) written (omega arith) refl))
        (posts_data (omega arith)))
      (claims_data em_no_wait 0 refl)

inserted_in_order_example : (datum 4 (all 9) ∷ [] ≡ [] ++ contents written) × (1 + 0 + 1 + 0 ≡ 2)
unfolding create create_with_blocks link_blocks
inserted_in_order_example = inserted_in_order (omega arith) (omega arith) leaving-Reach
