-- ===== src/Queue/Order.antt =====
-- What holds in every state of a queue that tasks use at once: none of the two fatal errors is
-- reached, and the data leave in the order in which they came.
use embedded_middle.Prelude.{
  some-inj, subst, ℕ, ◌+◌, ◌-◌, ◌<◌, ◌≡◌, ◌≢◌, refl, sym, ap, ◌∙◌, inl, inr, arith, none, some, [],
  ◌∷◌, ◌++◌, append_assoc,
}
use embedded_middle.Bytes.{Bytes, memcpy, memcpy-memcpy}
use embedded_middle.Semaphore.{sem_wait-acquired, sem_post}
use embedded_middle.Queue.{Queue, enqueue_locked, dequeue_locked}
use embedded_middle.Queue.Valid.{IsValid, with_sems-IsValid, create-IsValid}
use embedded_middle.Queue.Contents.{
  datum, contents, Enqueues, Dequeues, enqueue_locked_lem, dequeue_locked_lem,
}
use embedded_middle.Queue.System.{
  Sys, Step, claims_place, enqueue_unlocked, enqueues, enqueue_fatal, posts_data, claims_data,
  dequeue_unlocked, dequeues, dequeue_fatal, posts_place, start, Reach, first, later, IsSound,
}

start-IsSound :
    {qu : Queue}
    → IsValid qu
    → qu.sem_in ≡ qu.num_max
    → qu.num_used ≡ 0
    → qu.sem_out ≡ 0
    → IsSound (start qu)
start-IsSound {qu} v i u o = record {
  valid = v;
  places = omega arith;
  counted = omega arith;
  order = rw u refl;
}

-- A call of em_enqueue that has claimed a place finds it, and one of em_dequeue its datum.
enqueue-Enqueues :
    {s : Sys} (bytes : Bytes)
    → IsSound s
    → 0 < s.entering
    → (qu' : Queue) × (enqueue_locked s.qu bytes ≡ some qu') × Enqueues s.qu bytes qu'
enqueue-Enqueues bytes i h = elim (enqueue_locked_lem bytes i.valid) [
  | inl r ↦ r
  | inr (full, _) ↦ absurd (omega (arith, i.places))
]

dequeue-Dequeues :
    {s : Sys} (dst : Bytes)
    → IsSound s
    → 0 < s.leaving
    → (x : Bytes) × (qu' : Queue) × (dequeue_locked s.qu dst
        ≡ some (memcpy dst x s.qu.block_size, qu'))
      × Dequeues s.qu x qu'
dequeue-Dequeues dst i h = elim (dequeue_locked_lem dst i.valid) [
  | inl r ↦ r
  | inr (empty, _) ↦ absurd (omega (arith, i.counted))
]

Enqueues-IsSound :
    {s : Sys} (bytes : Bytes) (qu' : Queue)
    → IsSound s
    → 0 < s.entering
    → Enqueues s.qu bytes qu'
    → IsSound (record s {
      qu = qu';
      entering = s.entering - 1;
      entered = s.entered + 1;
      inserted = s.inserted ++ (datum s.qu.block_size bytes ∷ []);
    })
Enqueues-IsSound {s} bytes qu' i h e = record {
  valid = e.valid;
  places = omega (arith, i.places, e.one_more, e.frame.same_in, e.frame.same_max);
  counted = omega (arith, i.counted, e.one_more, e.frame.same_out);
  order =
      ap (λ l. l ++ (datum s.qu.block_size bytes ∷ [])) i.order
      ∙ append_assoc s.delivered (contents s.qu) (datum s.qu.block_size bytes ∷ [])
      ∙ ap (λ l. s.delivered ++ l) (sym e.at_end);
}

Dequeues-IsSound :
    {s : Sys} (dst x : Bytes) (qu' : Queue)
    → IsSound s
    → 0 < s.leaving
    → Dequeues s.qu x qu'
    → IsSound (record s {
      qu = qu';
      leaving = s.leaving - 1;
      left = s.left + 1;
      delivered = s.delivered ++ (datum s.qu.block_size (memcpy dst x s.qu.block_size) ∷ []);
    })
Dequeues-IsSound {s} dst x qu' i h d = record {
  valid = d.valid;
  places = omega (arith, i.places, d.one_less, d.frame.same_in, d.frame.same_max);
  counted = omega (arith, i.counted, d.one_less, d.frame.same_out);
  order =
      i.order
      ∙ ap (λ l. s.delivered ++ l)
          (d.at_front
            ∙ ap (λ y. y ∷ contents qu')
                (sym (memcpy-memcpy (λ i. 0) dst x s.qu.block_size ∙ d.whole)))
      ∙ sym (
          append_assoc s.delivered (datum s.qu.block_size (memcpy dst x s.qu.block_size) ∷ [])
            (contents qu'));
}

Step-IsSound : {s t : Sys} → IsSound s → Step s t → IsSound t
unfolding sem_post
Step-IsSound {s} i (claims_place timeout_ms n e) = record {
  valid = with_sems-IsValid _ _ i.valid;
  places = omega (arith, i.places, sem_wait-acquired s.qu.sem_in n timeout_ms e);
  counted = i.counted;
  order = i.order;
}
Step-IsSound i (enqueue_unlocked h) = record {
  valid = with_sems-IsValid _ _ i.valid;
  places = omega (arith, i.places);
  counted = i.counted;
  order = i.order;
}
Step-IsSound {s} i (enqueues bytes qu' h e) =
    let (q, r, d) = enqueue-Enqueues bytes i h in
    Enqueues-IsSound bytes qu' i h (subst (Enqueues s.qu bytes) (some-inj (sym r ∙ e)) d)
Step-IsSound i (enqueue_fatal bytes h e) = let (q, r, d) = enqueue-Enqueues bytes i h in cc (e, r)
Step-IsSound i (posts_data h) = record {
  valid = with_sems-IsValid _ _ i.valid;
  places = i.places;
  counted = omega (arith, i.counted);
  order = i.order;
}
Step-IsSound {s} i (claims_data timeout_ms n e) = record {
  valid = with_sems-IsValid _ _ i.valid;
  places = i.places;
  counted = omega (arith, i.counted, sem_wait-acquired s.qu.sem_out n timeout_ms e);
  order = i.order;
}
Step-IsSound i (dequeue_unlocked h) = record {
  valid = with_sems-IsValid _ _ i.valid;
  places = i.places;
  counted = omega (arith, i.counted);
  order = i.order;
}
Step-IsSound {s} i (dequeues dst bytes qu' h e) =
    let (x, q, r, d) = dequeue-Dequeues dst i h in
    subst
      (λ (p : Bytes × Queue). IsSound (record s {
        qu = p.1;
        leaving = s.leaving - 1;
        left = s.left + 1;
        delivered = s.delivered ++ (datum s.qu.block_size p.0 ∷ []);
      }))
      (some-inj (sym r ∙ e)) (Dequeues-IsSound dst x q i h d)
Step-IsSound i (dequeue_fatal dst h e) = let (x, q, r, d) = dequeue-Dequeues dst i h in cc (e, r)
Step-IsSound i (posts_place h) = record {
  valid = with_sems-IsValid _ _ i.valid;
  places = omega (arith, i.places);
  counted = i.counted;
  order = i.order;
}

module _ {H : Type 0} {alloc_func : ℕ → H → ℕ × H} {qu : Queue} {block_size block_num : ℕ}
    {h : H} where
  Reach-IsSound :
      {s : Sys}
      → 0 < block_size
      → 0 < block_num
      → Reach alloc_func qu block_size block_num h s
      → IsSound s
  Reach-IsSound hs hn first =
      let (v, m, u, i, o) = create-IsValid alloc_func qu block_size block_num h hs hn in
      start-IsSound v (i ∙ sym m) u o
  Reach-IsSound hs hn (later r st) = Step-IsSound (Reach-IsSound hs hn r) st

  -- In every state that tasks bring a new queue to, the data inserted are the data delivered,
  -- followed by those that the queue holds, and the number of places that are free, claimed, in use
  -- or about to be free is that of all places.
  pub inserted_in_order :
      {s : Sys}
      → 0 < block_size
      → 0 < block_num
      → Reach alloc_func qu block_size block_num h s
      → (s.inserted ≡ s.delivered ++ contents s.qu)
        × (s.qu.sem_in + s.entering + s.qu.num_used + s.left ≡ s.qu.num_max)
  inserted_in_order hs hn r = let i = Reach-IsSound hs hn r in (i.order, i.places)

  -- In every state that tasks bring a new queue to, a call of em_enqueue that
  -- has claimed a place does not come to its fatal error.
  pub enqueue_not_fatal :
      {s : Sys} (block_data : Bytes)
      → 0 < block_size
      → 0 < block_num
      → Reach alloc_func qu block_size block_num h s
      → 0 < s.entering
      → enqueue_locked s.qu block_data ≢ none
  enqueue_not_fatal block_data hs hn r e n =
      cc ((enqueue-Enqueues block_data (Reach-IsSound hs hn r) e).1, n)

  -- In every state that tasks bring a new queue to, a call of em_dequeue that
  -- has claimed a datum does not come to its fatal error.
  pub dequeue_not_fatal :
      {s : Sys} (block_data : Bytes)
      → 0 < block_size
      → 0 < block_num
      → Reach alloc_func qu block_size block_num h s
      → 0 < s.leaving
      → dequeue_locked s.qu block_data ≢ none
  dequeue_not_fatal block_data hs hn r l n =
      cc ((dequeue-Dequeues block_data (Reach-IsSound hs hn r) l).2, n)
