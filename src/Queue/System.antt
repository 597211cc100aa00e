-- ===== src/Queue/System.antt =====
-- Any number of tasks that call em_enqueue and em_dequeue on one queue at once. A step is a claim on
-- a semaphore, what a call does under the mutex, or the post after it; `Sys` counts the calls that
-- stand between two of these.
use embedded_middle.Prelude.{ℕ, ◌+◌, ◌-◌, ◌<◌, ◌≡◌, none, some, List, [], ◌∷◌, ◌++◌, ℤ}
use embedded_middle.Bytes.{Bytes}
use embedded_middle.Semaphore.{acquired, sem_wait, sem_post}
use embedded_middle.Queue.{Queue, create, enqueue_locked, dequeue_locked}
use embedded_middle.Queue.Valid.{IsValid}
use embedded_middle.Queue.Contents.{datum, contents}

-- `entering` calls of em_enqueue have claimed a place and not yet come to the mutex; `entered` have
-- written and not yet posted. `leaving` and `left` count the same of em_dequeue. `inserted` and
-- `delivered` are the data of the calls that have been through the mutex, in the order of it.
pub record Sys : Type 0 where
  pub qu : Queue
  pub entering : ℕ
  pub entered : ℕ
  pub leaving : ℕ
  pub left : ℕ
  pub inserted : List Bytes
  pub delivered : List Bytes

pub data Step (s : Sys) : Sys → Type 0 where
  claims_place :
      (timeout_ms : ℤ) (n : ℕ)
      → sem_wait s.qu.sem_in timeout_ms ≡ acquired n
      → Step s (record s { qu = record s.qu { sem_in = n }; entering = s.entering + 1 })
  enqueue_unlocked :
      0 < s.entering
      → Step s (record s {
        qu = record s.qu { sem_in = (sem_post s.qu.sem_in).1 };
        entering = s.entering - 1;
      })
  enqueues :
      (block_data : Bytes) (qu' : Queue)
      → 0 < s.entering
      → enqueue_locked s.qu block_data ≡ some qu'
      → Step s (record s {
        qu = qu';
        entering = s.entering - 1;
        entered = s.entered + 1;
        inserted = s.inserted ++ (datum s.qu.block_size block_data ∷ []);
      })
  enqueue_fatal :
      (block_data : Bytes)
      → 0 < s.entering
      → enqueue_locked s.qu block_data ≡ none
      → Step s (record s {
        qu = record s.qu { sem_in = (sem_post s.qu.sem_in).1 };
        entering = s.entering - 1;
      })
  posts_data :
      0 < s.entered
      → Step s (record s {
        qu = record s.qu { sem_out = (sem_post s.qu.sem_out).1 };
        entered = s.entered - 1;
      })
  claims_data :
      (timeout_ms : ℤ) (n : ℕ)
      → sem_wait s.qu.sem_out timeout_ms ≡ acquired n
      → Step s (record s { qu = record s.qu { sem_out = n }; leaving = s.leaving + 1 })
  dequeue_unlocked :
      0 < s.leaving
      → Step s (record s {
        qu = record s.qu { sem_out = (sem_post s.qu.sem_out).1 };
        leaving = s.leaving - 1;
      })
  dequeues :
      (block_data bytes : Bytes) (qu' : Queue)
      → 0 < s.leaving
      → dequeue_locked s.qu block_data ≡ some (bytes, qu')
      → Step s (record s {
        qu = qu';
        leaving = s.leaving - 1;
        left = s.left + 1;
        delivered = s.delivered ++ (datum s.qu.block_size bytes ∷ []);
      })
  dequeue_fatal :
      (block_data : Bytes)
      → 0 < s.leaving
      → dequeue_locked s.qu block_data ≡ none
      → Step s (record s {
        qu = record s.qu { sem_out = (sem_post s.qu.sem_out).1 };
        leaving = s.leaving - 1;
      })
  posts_place :
      0 < s.left
      → Step s
          (record s { qu = record s.qu { sem_in = (sem_post s.qu.sem_in).1 }; left = s.left - 1 })

-- No task has called yet.
abbrev pub start : Queue → Sys
start qu = record {
  qu = qu;
  entering = 0;
  entered = 0;
  leaving = 0;
  left = 0;
  inserted = [];
  delivered = [];
}

-- The states that a queue of `em_queue_create` comes to.
pub data Reach {H : Type 0} (alloc_func : ℕ → H → ℕ × H) (qu : Queue) (block_size block_num : ℕ)
    (h : H) : Sys → Type 0 where
  first :
      Reach alloc_func qu block_size block_num h
        (start (create alloc_func qu block_size block_num h).1)
  later :
      {s t : Sys}
      → Reach alloc_func qu block_size block_num h s
      → Step s t
      → Reach alloc_func qu block_size block_num h t

-- Each place is free to claim, claimed, in use, or about to be free; each datum in the queue is free
-- to claim, claimed, or about to be; and the data leave in the order in which they came.
pub record IsSound (s : Sys) : Type 0 where
  pub valid : IsValid s.qu
  pub places : s.qu.sem_in + s.entering + s.qu.num_used + s.left ≡ s.qu.num_max
  pub counted : s.qu.num_used ≡ s.qu.sem_out + s.leaving + s.entered
  pub order : s.inserted ≡ s.delivered ++ contents s.qu
