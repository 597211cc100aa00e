-- ===== src/Queue/Flow.antt =====
-- A datum through an idle queue that has room: what a client that sends and receives uses.
use embedded_middle.Prelude.{
  ℕ, ◌<◌, ◌≡◌, refl, ap, ◌∙◌, inl, inr, arith, true, some, List, [], ◌∷◌, ◌++◌, ℤ, em_success,
  length, lt→ltb,
}
use embedded_middle.Bytes.{Bytes, memcpy}
use embedded_middle.Queue.{
  Queue, create, create_with_blocks, enqueue, enqueue_claimed, enqueue_locked, write_block,
  enqueue_increment, dequeue,
}
use embedded_middle.Queue.Contents.{datum, contents}
use embedded_middle.Queue.Calls.{IsIdle, push, pop, enqueue_lem, dequeue_lem}
use embedded_middle.Semaphore.{sem_wait}

enqueue-block_size :
    (qu qu' : Queue) (block_data : Bytes) (timeout_ms ret : ℤ)
    → enqueue qu block_data timeout_ms true ≡ some (ret, qu')
    → (qu'.block_size ≡ qu.block_size) × (qu'.num_max ≡ qu.num_max)
unfolding enqueue enqueue_claimed enqueue_locked write_block enqueue_increment sem_wait
enqueue-block_size qu qu' block_data timeout_ms ret e = ground (arith, e)

-- A datum that an idle queue has room for goes to its end.
pub enqueue_room :
    {qu : Queue} (block_data : Bytes) (timeout_ms : ℤ)
    → IsIdle qu
    → length (contents qu) < qu.num_max
    → (qu' : Queue) × (enqueue qu block_data timeout_ms true ≡ some (em_success, qu'))
      × (contents qu' ≡ contents qu ++ (datum qu.block_size block_data ∷ []))
      × (qu'.block_size ≡ qu.block_size)
      × IsIdle qu'
unfolding push
enqueue_room {qu} block_data timeout_ms i room =
    let goes : push qu.num_max (contents qu) (datum qu.block_size block_data) timeout_ms
        ≡ some (em_success, contents qu ++ (datum qu.block_size block_data ∷ [])) =
      rw (lt→ltb (length (contents qu)) qu.num_max room) refl in
    elim (enqueue_lem block_data timeout_ms i) [
      | inl (_, blocks) ↦ cc (blocks, goes)
      | inr (ret, qu', e, spec, idle) ↦
          (let same : ret ≡ em_success = cc (spec, goes) in
            let at_end : contents qu' ≡ contents qu ++ (datum qu.block_size block_data ∷ []) =
              cc (spec, goes) in
            (
              qu',
              e ∙ ap (λ r. some (r, qu')) same,
              at_end,
              (enqueue-block_size qu qu' block_data timeout_ms ret e).0,
              idle,
            ))
    ]

-- The first datum of an idle queue comes out of it.
pub dequeue-front :
    {qu : Queue} (x : Bytes) (q : List Bytes) (dst : Bytes) (timeout_ms : ℤ)
    → IsIdle qu
    → contents qu ≡ x ∷ q
    → (qu' : Queue) × (dequeue qu dst timeout_ms true
        ≡ some (em_success, memcpy dst x qu.block_size, qu'))
      × (contents qu' ≡ q)
      × IsIdle qu'
unfolding pop
dequeue-front {qu} x q dst timeout_ms i front =
    let comes : pop qu.block_size (contents qu) dst timeout_ms
        ≡ some (em_success, memcpy dst x qu.block_size, q) =
      rw front refl in
    elim (dequeue_lem dst timeout_ms i) [
      | inl (_, blocks) ↦ cc (blocks, comes)
      | inr (ret, bytes, qu', e, spec, idle) ↦
          (let same : (ret ≡ em_success) = cc (spec, comes) in
            let out : bytes ≡ memcpy dst x qu.block_size = cc (spec, comes) in
            let rest : contents qu' ≡ q = cc (spec, comes) in
            (
              qu',
              e ∙ ap (λ r. some (r, bytes, qu')) same ∙ ap (λ b. some (em_success, b, qu')) out,
              rest,
              idle,
            ))
    ]

pub create_success :
    {H : Type 0} (alloc_func : ℕ → H → ℕ × H) (qu : Queue) (block_size block_num : ℕ) (h : H)
    → (create alloc_func qu block_size block_num h).0 ≡ em_success
unfolding create create_with_blocks
create_success alloc_func qu block_size block_num h = refl
