-- ===== src/Queue.antt =====
-- src/em_queue.c: a bounded queue of fixed-size blocks. `sem_in` counts the places that a producer
-- may claim and `sem_out` the data that a consumer may claim; a claim is made before the mutex is
-- locked, and the other semaphore is posted after it is unlocked. The `int` fields are natural
-- numbers: they are never lowered below 0, and C leaves an overflow of `int` undefined.
pub mod Valid
pub mod Contents
pub mod Calls
pub mod Flow
pub mod System
pub mod Order
pub mod Sample
mod Examples
use embedded_middle.Prelude.{
  ℕ, zero, suc, ◌+◌, ◌-◌, ◌*◌, Bool, Option, none, some, List, [], ◌∷◌, ℤ, pos, leb, if◌then◌else◌,
  update, em_success, em_error, em_err_timeout, em_err_other,
}
use embedded_middle.Bytes.{Bytes, memcpy}
use embedded_middle.Semaphore.{acquired, refused, blocked, sem_init, sem_wait, sem_post}

-- `em_queue_t`, with `mem` the contents of the blocks by address.
pub record Queue : Type 0 where
  pub block_size : ℕ
  pub num_max : ℕ
  pub num_used : ℕ
  pub head_ptr : ℕ
  pub tail_ptr : ℕ
  pub block_ptr : ℕ → ℕ
  pub block_ptr_at : ℕ
  pub rawdata : ℕ
  pub sem_in : ℕ
  pub sem_out : ℕ
  pub mem : ℕ → Bytes

-- `for (int i = i; i < num_max; i++)`, with the rounds that are left.
unfoldable pub link_blocks : ℕ → ℕ → Queue → Queue
link_blocks zero i qu = qu
link_blocks (suc rounds) i qu =
    link_blocks rounds (i + 1)
      (record qu { block_ptr = update qu.block_ptr i (qu.rawdata + qu.block_size * i) })

-- `qu` is what the memory held before.
unfoldable pub create_with_blocks : Queue → ℕ → ℕ → ℕ → ℕ → ℤ × Queue
unfolding link_blocks sem_init
create_with_blocks qu block_size block_num block_ptr_at rawdata = (
  em_success,
  link_blocks block_num 0 (record qu {
    num_max = block_num;
    num_used = 0;
    block_size = block_size;
    block_ptr_at = block_ptr_at;
    rawdata = rawdata;
    head_ptr = 0;
    tail_ptr = 0;
    sem_out = sem_init 0;
    sem_in = sem_init block_num;
  }),
)

-- `alloc_func` takes a size and the heap, and returns an address and the heap.
unfoldable pub create : {H : Type 0} → (ℕ → H → ℕ × H) → Queue → ℕ → ℕ → H → ℤ × Queue × H
unfolding create_with_blocks
create alloc_func qu block_size block_num h =
    let (rawdata, h₁) = alloc_func (block_size * block_num) h in
    let (block_ptr, h₂) = alloc_func (8 * block_num) h₁ in
    let (ret, qu') = create_with_blocks qu block_size block_num block_ptr rawdata in (ret, qu', h₂)

-- The addresses passed to `free_func`, in order. The pointers keep their values.
pub destroy : Queue → ℤ × List ℕ
destroy qu = (em_success, qu.block_ptr_at ∷ qu.rawdata ∷ [])

-- `none` is NULL.
pub enqueue_get_dataptr : Queue → Option ℕ
enqueue_get_dataptr qu =
    if leb qu.num_max qu.num_used then none else some (qu.block_ptr qu.head_ptr)

pub enqueue_increment : Queue → ℤ × Queue
enqueue_increment qu = if leb qu.num_max qu.num_used then (em_error, qu) else (
  em_success,
  record qu {
    num_used = qu.num_used + 1;
    head_ptr =
        if leb qu.num_max (qu.head_ptr + 1) then qu.head_ptr + 1 - qu.num_max else qu.head_ptr + 1;
  },
)

write_block : Queue → Bytes → Option ℕ → Option Queue
unfolding enqueue_increment
write_block qu block_data none = none
write_block qu block_data (some tmp) =
    some
      (enqueue_increment
        (record qu { mem = update qu.mem tmp (memcpy (qu.mem tmp) block_data qu.block_size) })).1

-- What `em_enqueue` does under the mutex; `none` is its fatal error. The result of the increment is
-- only logged.
pub enqueue_locked : Queue → Bytes → Option Queue
unfolding enqueue_get_dataptr write_block
enqueue_locked qu block_data = write_block qu block_data (enqueue_get_dataptr qu)

-- What follows the claim of a place; `locked` is whether the mutex could be locked.
enqueue_claimed : Queue → Bytes → Bool → ℤ × Queue
unfolding enqueue_locked sem_post
enqueue_claimed qu block_data locked =
    if locked
    then elim (enqueue_locked qu block_data) [
      | none ↦ (em_error, record qu { sem_in = (sem_post qu.sem_in).1 })
      | some qu' ↦ (em_success, record qu' { sem_out = (sem_post qu'.sem_out).1 })
    ]
    else (em_error, record qu { sem_in = (sem_post qu.sem_in).1 })

-- `none` where the call never returns.
pub enqueue : Queue → Bytes → ℤ → Bool → Option (ℤ × Queue)
unfolding enqueue_claimed sem_wait
enqueue qu block_data timeout_ms locked = elim (sem_wait qu.sem_in timeout_ms) [
  | acquired s ↦ some (enqueue_claimed (record qu { sem_in = s }) block_data locked)
  | refused ↦ some (em_error, qu)
  | blocked ↦ none
]

pub dequeue_get_dataptr : Queue → Option ℕ
dequeue_get_dataptr qu = if leb qu.num_used 0 then none else some (qu.block_ptr qu.tail_ptr)

pub dequeue_increment : Queue → ℤ × Queue
dequeue_increment qu = if leb qu.num_used 0 then (em_error, qu) else (
  em_success,
  record qu {
    num_used = qu.num_used - 1;
    tail_ptr =
        if leb qu.num_max (qu.tail_ptr + 1) then qu.tail_ptr + 1 - qu.num_max else qu.tail_ptr + 1;
  },
)

read_block : Queue → Bytes → Option ℕ → Option (Bytes × Queue)
unfolding dequeue_increment
read_block qu block_data none = none
read_block qu block_data (some data_ptr) =
    some (memcpy block_data (qu.mem data_ptr) qu.block_size, (dequeue_increment qu).1)

-- What `em_dequeue` does under the mutex, with the bytes at `block_data` after it; `none` is its
-- fatal error.
pub dequeue_locked : Queue → Bytes → Option (Bytes × Queue)
unfolding dequeue_get_dataptr read_block
dequeue_locked qu block_data = read_block qu block_data (dequeue_get_dataptr qu)

dequeue_claimed : Queue → Bytes → Bool → ℤ × Bytes × Queue
unfolding dequeue_locked sem_post
dequeue_claimed qu block_data locked =
    if locked
    then elim (dequeue_locked qu block_data) [
      | none ↦ (em_err_other, block_data, record qu { sem_out = (sem_post qu.sem_out).1 })
      | some (bytes, qu') ↦ (em_success, bytes, record qu' { sem_in = (sem_post qu'.sem_in).1 })
    ]
    else (em_err_other, block_data, record qu { sem_out = (sem_post qu.sem_out).1 })

pub dequeue : Queue → Bytes → ℤ → Bool → Option (ℤ × Bytes × Queue)
unfolding dequeue_claimed sem_wait
dequeue qu block_data timeout_ms locked = elim (sem_wait qu.sem_out timeout_ms) [
  | acquired s ↦ some (dequeue_claimed (record qu { sem_out = s }) block_data locked)
  | refused ↦ some (em_err_timeout, block_data, qu)
  | blocked ↦ none
]

pub getnum : Queue → Bool → ℤ
getnum qu locked = if locked then pos qu.num_used else em_error
