-- ===== src/Queue/Calls.antt =====
-- Whole calls of em_enqueue and em_dequeue, one after another: a bounded first-in first-out queue.
use native.Mathlib.Decide.{dec_lt}
use embedded_middle.Prelude.{
  ℕ, ◌+◌, ◌-◌, ◌<◌, ◌≡◌, refl, sym, ap, ◌⊎◌, inl, inr, arith, true, false, Bool-cases, Option, none,
  some, List, [], ◌∷◌, ◌++◌, ℤ, em_success, em_error, em_err_timeout, em_err_other, em_no_timeout,
  length, length-slice, ltb, lt→ltb, le→ltb, if◌then◌else◌,
}
use embedded_middle.Prelude.Int.{eqb_ℤ}
use embedded_middle.Bytes.{Bytes, memcpy}
use embedded_middle.Semaphore.{sem_post, sem_wait_pos, sem_wait_zero}
use embedded_middle.Queue.{Queue, create, enqueue, enqueue_claimed, dequeue, dequeue_claimed}
use embedded_middle.Queue.Valid.{IsValid, with_sems-IsValid, create-IsValid}
use embedded_middle.Queue.Contents.{
  datum, contents, nth, Enqueues, Dequeues, enqueue_locked_lem, dequeue_locked_lem,
}

-- No call is under way.
pub record IsIdle (qu : Queue) : Type 0 where
  pub valid : IsValid qu
  pub places : qu.sem_in + qu.num_used ≡ qu.num_max
  pub counted : qu.sem_out ≡ qu.num_used

-- A queue of at most `cap` data; `none` is a call that waits for ever.
unfoldable pub push : ℕ → List Bytes → Bytes → ℤ → Option (ℤ × List Bytes)
push cap q x timeout_ms =
    if ltb (length q) cap
    then some (em_success, q ++ (x ∷ []))
    else (if eqb_ℤ timeout_ms em_no_timeout then none else some (em_error, q))

-- With the bytes at `dst` after the call, where a datum has `n` bytes.
unfoldable pub pop : ℕ → List Bytes → Bytes → ℤ → Option (ℤ × Bytes × List Bytes)
pop n [] dst timeout_ms =
    if eqb_ℤ timeout_ms em_no_timeout then none else some (em_err_timeout, dst, [])
pop n (x ∷ q) dst timeout_ms = some (em_success, memcpy dst x n, q)

length-contents : (qu : Queue) → length (contents qu) ≡ qu.num_used
length-contents qu = length-slice (nth qu) 0 qu.num_used

abbrev posted : Queue → Queue
posted qu = record qu { sem_out = (sem_post qu.sem_out).1 }

posted-IsIdle :
    {qu qu' : Queue} {bytes : Bytes}
    → IsIdle qu
    → 0 < qu.sem_in
    → Enqueues (record qu { sem_in = qu.sem_in - 1 }) bytes qu'
    → IsIdle (posted qu')
unfolding sem_post
posted-IsIdle {qu} {qu'} i h e = record {
  valid = with_sems-IsValid qu'.sem_in (qu'.sem_out + 1) e.valid;
  places = omega (arith, i.places, e.one_more, e.frame.same_in, e.frame.same_max);
  counted = omega (arith, i.counted, e.one_more, e.frame.same_out);
}

abbrev given_back : Queue → Queue
given_back qu = record qu { sem_in = (sem_post qu.sem_in).1 }

given_back-IsIdle :
    {qu qu' : Queue} {x : Bytes}
    → IsIdle qu
    → 0 < qu.sem_out
    → Dequeues (record qu { sem_out = qu.sem_out - 1 }) x qu'
    → IsIdle (given_back qu')
unfolding sem_post
given_back-IsIdle {qu} {qu'} i h d = record {
  valid = with_sems-IsValid (qu'.sem_in + 1) qu'.sem_out d.valid;
  places = omega (arith, i.places, d.one_less, d.frame.same_in, d.frame.same_max);
  counted = omega (arith, i.counted, d.one_less, d.frame.same_out);
}

-- A call of em_enqueue on an idle queue waits for ever, or returns and leaves it idle, as `push`
-- says of the data that the queue holds.
pub enqueue_lem :
    {qu : Queue} (block_data : Bytes) (timeout_ms : ℤ)
    → IsIdle qu
    → let spec = push qu.num_max (contents qu) (datum qu.block_size block_data) timeout_ms in
      ((enqueue qu block_data timeout_ms true ≡ none) × (spec ≡ none))
      ⊎ ((ret : ℤ) × (qu' : Queue) × (enqueue qu block_data timeout_ms true ≡ some (ret, qu'))
          × (spec ≡ some (ret, contents qu'))
          × IsIdle qu')
unfolding enqueue enqueue_claimed push
enqueue_lem {qu} bytes timeout_ms i = elim (dec_lt 0 qu.sem_in) [
  | yes h ↦ elim (enqueue_locked_lem bytes (with_sems-IsValid (qu.sem_in - 1) qu.sem_out i.valid)) [
    | inr (full, _) ↦ absurd (omega (arith, i.places))
    | inl (qu', r, e) ↦
        rw
          (
            enqueue,
            sem_wait_pos qu.sem_in timeout_ms h,
            enqueue_claimed,
            r,
            push,
            lt→ltb (length (contents qu)) qu.num_max (omega (arith, length-contents qu, i.places)),
          )
          (inr (
            em_success,
            posted qu',
            refl,
            ap (λ q. some (em_success, q)) (sym e.at_end),
            posted-IsIdle i h e,
          ))
  ]
  | no h ↦ elim (Bool-cases (eqb_ℤ timeout_ms em_no_timeout)) [
    | inl forever ↦
        rw
          (
            enqueue,
            sem_wait_zero qu.sem_in timeout_ms (omega arith),
            push,
            le→ltb (length (contents qu)) qu.num_max (omega (arith, length-contents qu, i.places)),
            forever,
          )
          (inl (refl, refl))
    | inr limited ↦
        rw
          (
            enqueue,
            sem_wait_zero qu.sem_in timeout_ms (omega arith),
            push,
            le→ltb (length (contents qu)) qu.num_max (omega (arith, length-contents qu, i.places)),
            limited,
          )
          (inr (em_error, qu, refl, refl, i))
  ]
]

empty-contents : (qu : Queue) → qu.num_used ≡ 0 → contents qu ≡ []
empty-contents qu h = rw h refl

-- A call of em_dequeue on an idle queue waits for ever, or returns and leaves it idle, as `pop` says
-- of the data that the queue holds and of the bytes at `block_data`.
pub dequeue_lem :
    {qu : Queue} (block_data : Bytes) (timeout_ms : ℤ)
    → IsIdle qu
    → let spec = pop qu.block_size (contents qu) block_data timeout_ms in
      ((dequeue qu block_data timeout_ms true ≡ none) × (spec ≡ none))
      ⊎ ((ret : ℤ) × (bytes : Bytes) × (qu' : Queue) × (dequeue qu block_data timeout_ms true
            ≡ some (ret, bytes, qu'))
          × (spec ≡ some (ret, bytes, contents qu'))
          × IsIdle qu')
unfolding dequeue dequeue_claimed pop
dequeue_lem {qu} dst timeout_ms i = elim (dec_lt 0 qu.sem_out) [
  | yes h ↦ elim (dequeue_locked_lem dst (with_sems-IsValid qu.sem_in (qu.sem_out - 1) i.valid)) [
    | inr (empty, _) ↦ absurd (omega (arith, i.counted))
    | inl (x, qu', r, d) ↦
        rw (dequeue, sem_wait_pos qu.sem_out timeout_ms h, dequeue_claimed, r, pop, d.at_front)
          (inr (
            em_success,
            memcpy dst x qu.block_size,
            given_back qu',
            refl,
            refl,
            given_back-IsIdle i h d,
          ))
  ]
  | no h ↦ elim (Bool-cases (eqb_ℤ timeout_ms em_no_timeout)) [
    | inl forever ↦
        rw
          (
            dequeue,
            sem_wait_zero qu.sem_out timeout_ms (omega arith),
            pop,
            empty-contents qu (omega (arith, i.counted)),
            forever,
          )
          (inl (refl, refl))
    | inr limited ↦
        let none_left = empty-contents qu (omega (arith, i.counted)) in
        rw (dequeue, sem_wait_zero qu.sem_out timeout_ms (omega arith), pop, none_left, limited)
          (inr (
            em_err_timeout,
            dst,
            qu,
            refl,
            ap (λ q. some (em_err_timeout, dst, q)) (sym none_left),
            i,
          ))
  ]
]

-- A call that has claimed a unit and cannot lock the mutex gives the unit back: it reports an error
-- and changes nothing.
pub unlocked_lem :
    (qu : Queue) (block_data : Bytes) (timeout_ms : ℤ)
    → 0 < qu.sem_in
    → 0 < qu.sem_out
    → (enqueue qu block_data timeout_ms false ≡ some (em_error, qu))
      × (dequeue qu block_data timeout_ms false ≡ some (em_err_other, block_data, qu))
unfolding sem_post enqueue dequeue
unlocked_lem qu dst t h k = (
  rw (enqueue, sem_wait_pos qu.sem_in t h, enqueue_claimed)
      (ap (λ n. some (em_error, record qu { sem_in = n })) (omega arith)),
  rw (dequeue, sem_wait_pos qu.sem_out t k, dequeue_claimed)
      (ap (λ n. some (em_err_other, dst, record qu { sem_out = n })) (omega arith)),
)

pub create-IsIdle :
    {H : Type 0} (alloc_func : ℕ → H → ℕ × H) (qu : Queue) (block_size block_num : ℕ) (h : H)
    → 0 < block_size
    → 0 < block_num
    → IsIdle (create alloc_func qu block_size block_num h).1
create-IsIdle alloc_func qu bs bn h hs hn =
    let (v, m, u, i, o) = create-IsValid alloc_func qu bs bn h hs hn in
    record { valid = v; places = omega arith; counted = omega arith }
