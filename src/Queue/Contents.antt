-- ===== src/Queue/Contents.antt =====
-- A valid queue holds a list of data, oldest first; what the two calls do to it under the mutex.
use native.Mathlib.Decide.{dec_lt}
use embedded_middle.Prelude.{
  ℕ, suc, ◌+◌, ◌-◌, ◌%◌, ◌<◌, ◌≡◌, ◌≢◌, ◌⊎◌, inl, inr, refl, sym, ap, ap₂, ◌∙◌, arith, leb,
  if◌then◌else◌, none, some, List, [], ◌∷◌, ◌++◌, update, update_self, update_ne, mod_lem, mod-ne,
  mul-ne, slice, slice-snoc, slice-ext, slice-shift, lt→leb, le→leb,
}
use embedded_middle.Bytes.{Bytes, memcpy, memcpy-memcpy}
use embedded_middle.Queue.{
  Queue, enqueue_locked, enqueue_get_dataptr, enqueue_increment, dequeue_locked,
  dequeue_get_dataptr, dequeue_increment, write_block, read_block,
}
use embedded_middle.Queue.Valid.{IsValid}

-- The first `n` bytes; what stands behind them in a block is no part of the datum.
abbrev pub datum : ℕ → Bytes → Bytes
datum n bytes = memcpy (λ i. 0) bytes n

-- The address of the `k`-th oldest block, and its datum.
abbrev place : Queue → ℕ → ℕ
place qu k = qu.block_ptr ((qu.tail_ptr + k) % qu.num_max)

abbrev pub nth : Queue → ℕ → Bytes
nth qu k = datum qu.block_size (qu.mem (place qu k))

abbrev pub contents : Queue → List Bytes
contents qu = slice (nth qu) 0 qu.num_used

-- Neither the sizes nor the semaphores differ.
pub record SameFrame (qu qu' : Queue) : Type 0 where
  pub same_size : qu'.block_size ≡ qu.block_size
  pub same_max : qu'.num_max ≡ qu.num_max
  pub same_in : qu'.sem_in ≡ qu.sem_in
  pub same_out : qu'.sem_out ≡ qu.sem_out

-- `qu'` holds the datum `bytes` behind what `qu` holds.
pub record Enqueues (qu : Queue) (bytes : Bytes) (qu' : Queue) : Type 0 where
  pub frame : SameFrame qu qu'
  pub valid : IsValid qu'
  pub one_more : qu'.num_used ≡ qu.num_used + 1
  pub at_end : contents qu' ≡ contents qu ++ (datum qu.block_size bytes ∷ [])

-- `qu` holds the datum `x` before what `qu'` holds.
pub record Dequeues (qu : Queue) (x : Bytes) (qu' : Queue) : Type 0 where
  pub frame : SameFrame qu qu'
  pub valid : IsValid qu'
  pub one_less : qu'.num_used + 1 ≡ qu.num_used
  pub at_front : contents qu ≡ x ∷ contents qu'
  pub whole : datum qu.block_size x ≡ x

module _ {qu : Queue} (v : IsValid qu) where
  place-ne :
      (k : ℕ) → k < qu.num_used → qu.num_used < qu.num_max → place qu k ≢ qu.block_ptr qu.head_ptr
  place-ne k hk room e = ground (
    arith,
    v.block_at ((qu.tail_ptr + k) % qu.num_max),
    v.block_at qu.head_ptr,
    v.head_at,
    mod_lem (qu.tail_ptr + k) qu.num_max,
    mod_lem (qu.tail_ptr + qu.num_used) qu.num_max,
    v.tail_lt,
    v.size_pos,
    mod-ne qu.tail_ptr k qu.num_used qu.num_max,
    mul-ne qu.block_size ((qu.tail_ptr + k) % qu.num_max) qu.head_ptr,
  )

  module _ (bytes : Bytes) (room : qu.num_used < qu.num_max) where
    abbrev written : ℕ → Bytes
    written =
        let tmp = qu.block_ptr qu.head_ptr in
        update qu.mem tmp (memcpy (qu.mem tmp) bytes qu.block_size)

    abbrev enqueued : Queue
    enqueued = record qu {
      mem = written;
      num_used = qu.num_used + 1;
      head_ptr =
          if leb qu.num_max (qu.head_ptr + 1)
          then qu.head_ptr + 1 - qu.num_max
          else qu.head_ptr + 1;
    }

    enqueue_locked-room : enqueue_locked qu bytes ≡ some enqueued
    unfolding enqueue_locked enqueue_increment
    enqueue_locked-room =
        rw
          (
            enqueue_get_dataptr,
            lt→leb qu.num_max qu.num_used room,
            write_block,
            lt→leb qu.num_max qu.num_used room,
          )
          refl

    enqueued-IsValid : IsValid enqueued
    enqueued-IsValid = record {
      size_pos = v.size_pos;
      max_pos = v.max_pos;
      used_le = omega arith;
      tail_lt = v.tail_lt;
      head_at = ground (
        arith,
        v.head_at,
        v.tail_lt,
        mod_lem (qu.tail_ptr + qu.num_used) qu.num_max,
        mod_lem (qu.tail_ptr + (qu.num_used + 1)) qu.num_max,
      );
      block_at = v.block_at;
    }

    nth-enqueued : (k : ℕ) → k < qu.num_used → nth enqueued k ≡ nth qu k
    nth-enqueued k h =
        ap (datum qu.block_size)
          (update_ne qu.mem (qu.block_ptr qu.head_ptr) (place qu k) _ (place-ne k h room))

    nth-head : nth enqueued (0 + qu.num_used) ≡ datum qu.block_size bytes
    nth-head =
        ap (λ a. datum qu.block_size (written a)) {y = qu.block_ptr qu.head_ptr}
          (ap qu.block_ptr (
            ap (λ k. (qu.tail_ptr + k) % qu.num_max) {x = 0 + qu.num_used} {y = qu.num_used}
              (omega arith)
            ∙ sym v.head_at))
        ∙ ap (datum qu.block_size) (update_self qu.mem (qu.block_ptr qu.head_ptr) _)
        ∙ memcpy-memcpy (λ i. 0) (qu.mem (qu.block_ptr qu.head_ptr)) bytes qu.block_size

    enqueued-contents : contents enqueued ≡ contents qu ++ (datum qu.block_size bytes ∷ [])
    enqueued-contents =
        ap (slice (nth enqueued) 0) {x = qu.num_used + 1} {y = suc qu.num_used} (omega arith)
        ∙ slice-snoc (nth enqueued) 0 qu.num_used
        ∙ ap₂ (λ xs y. xs ++ (y ∷ []))
            (slice-ext (nth enqueued) (nth qu) 0 qu.num_used
              (λ k _ h. nth-enqueued k (omega arith)))
            nth-head

  module _ (some_used : 0 < qu.num_used) where
    abbrev dequeued : Queue
    dequeued = record qu {
      num_used = qu.num_used - 1;
      tail_ptr =
          if leb qu.num_max (qu.tail_ptr + 1)
          then qu.tail_ptr + 1 - qu.num_max
          else qu.tail_ptr + 1;
    }

    dequeue_locked-used :
        (dst : Bytes)
        → dequeue_locked qu dst
          ≡ some (memcpy dst (qu.mem (qu.block_ptr qu.tail_ptr)) qu.block_size, dequeued)
    unfolding dequeue_locked dequeue_increment
    dequeue_locked-used dst =
        rw
          (
            dequeue_get_dataptr,
            lt→leb qu.num_used 0 some_used,
            read_block,
            lt→leb qu.num_used 0 some_used,
          )
          refl

    dequeued-IsValid : IsValid dequeued
    dequeued-IsValid = record {
      size_pos = v.size_pos;
      max_pos = v.max_pos;
      used_le = omega (arith, v.used_le);
      tail_lt = ground (arith, v.tail_lt, v.max_pos);
      head_at = ground (
        arith,
        v.head_at,
        v.tail_lt,
        v.used_le,
        mod_lem (qu.tail_ptr + qu.num_used) qu.num_max,
        mod_lem (qu.tail_ptr + 1 + (qu.num_used - 1)) qu.num_max,
        mod_lem (qu.tail_ptr + 1 - qu.num_max + (qu.num_used - 1)) qu.num_max,
      );
      block_at = v.block_at;
    }

    nth-dequeued : (k : ℕ) → k < qu.num_used - 1 → nth dequeued k ≡ nth qu (k + 1)
    nth-dequeued k h =
        ap (λ i. datum qu.block_size (qu.mem (qu.block_ptr i)))
          (ground (
            arith,
            v.tail_lt,
            v.used_le,
            mod_lem (qu.tail_ptr + (k + 1)) qu.num_max,
            mod_lem (qu.tail_ptr + 1 + k) qu.num_max,
            mod_lem (qu.tail_ptr + 1 - qu.num_max + k) qu.num_max,
          ))

    dequeued-contents :
        contents qu ≡ datum qu.block_size (qu.mem (qu.block_ptr qu.tail_ptr)) ∷ contents dequeued
    dequeued-contents =
        ap (slice (nth qu) 0) {y = suc (qu.num_used - 1)} (omega arith)
        ∙ ap₂ ◌∷◌
            (ap (λ i. datum qu.block_size (qu.mem (qu.block_ptr i)))
              (ground (arith, v.tail_lt, mod_lem (qu.tail_ptr + 0) qu.num_max)))
            (slice-shift (nth qu) 1 0 (qu.num_used - 1)
              ∙ sym (
                  slice-ext (nth dequeued) (λ k. nth qu (k + 1)) 0 (qu.num_used - 1)
                    (λ k _ h. nth-dequeued k (omega arith))))

-- With a place free, `em_enqueue` puts its datum at the end; on a full queue it would fail.
pub enqueue_locked_lem :
    {qu : Queue} (bytes : Bytes)
    → IsValid qu
    → ((qu' : Queue) × (enqueue_locked qu bytes ≡ some qu') × Enqueues qu bytes qu')
      ⊎ ((qu.num_used ≡ qu.num_max) × (enqueue_locked qu bytes ≡ none))
unfolding enqueue_locked
enqueue_locked_lem {qu} bytes v = elim (dec_lt qu.num_used qu.num_max) [
  | yes room ↦ inl (
    enqueued v bytes room,
    enqueue_locked-room v bytes room,
    record {
      frame = record { same_size = refl; same_max = refl; same_in = refl; same_out = refl };
      valid = enqueued-IsValid v bytes room;
      one_more = refl;
      at_end = enqueued-contents v bytes room;
    },
  )
  | no full ↦ inr (
    omega (arith, v.used_le),
    rw (enqueue_get_dataptr, le→leb qu.num_max qu.num_used (omega arith), write_block) refl,
  )
]

-- `em_dequeue` takes the oldest datum; on an empty queue it would fail.
pub dequeue_locked_lem :
    {qu : Queue} (dst : Bytes)
    → IsValid qu
    → ((x : Bytes) × (qu' : Queue) × (dequeue_locked qu dst
          ≡ some (memcpy dst x qu.block_size, qu'))
        × Dequeues qu x qu')
      ⊎ ((qu.num_used ≡ 0) × (dequeue_locked qu dst ≡ none))
unfolding dequeue_locked
dequeue_locked_lem {qu} dst v = elim (dec_lt 0 qu.num_used) [
  | yes used ↦ inl (
    _,
    dequeued v used,
    dequeue_locked-used v used dst
        ∙ ap (λ b. some (b, dequeued v used))
            (sym (memcpy-memcpy dst (λ i. 0) (qu.mem (qu.block_ptr qu.tail_ptr)) qu.block_size)),
    record {
      frame = record { same_size = refl; same_max = refl; same_in = refl; same_out = refl };
      valid = dequeued-IsValid v used;
      one_less = omega arith;
      at_front = dequeued-contents v used;
      whole = memcpy-memcpy (λ i. 0) (λ i. 0) (qu.mem (qu.block_ptr qu.tail_ptr)) qu.block_size;
    },
  )
  | no empty ↦
      inr
        (omega arith, rw (dequeue_get_dataptr, le→leb qu.num_used 0 (omega arith), read_block) refl)
]
