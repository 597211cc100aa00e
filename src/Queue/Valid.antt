-- ===== src/Queue/Valid.antt =====
-- The invariant of the places of `em_queue_t`, which a new queue has.
use embedded_middle.Prelude.{
  ℕ, zero, suc, ◌+◌, ◌*◌, ◌%◌, ◌≤◌, ◌<◌, ◌≡◌, refl, arith, update, mod_lem,
}
use embedded_middle.Queue.{Queue, link_blocks, create_with_blocks, create}

-- The head stands `num_used` places after the tail, counted round the table.
pub record IsValid (qu : Queue) : Type 0 where
  pub size_pos : 0 < qu.block_size
  pub max_pos : 0 < qu.num_max
  pub used_le : qu.num_used ≤ qu.num_max
  pub tail_lt : qu.tail_ptr < qu.num_max
  pub head_at : qu.head_ptr ≡ (qu.tail_ptr + qu.num_used) % qu.num_max
  pub block_at : (i : ℕ) → i < qu.num_max → qu.block_ptr i ≡ qu.rawdata + qu.block_size * i

-- The semaphores are no part of the invariant of the places.
pub with_sems-IsValid :
    {qu : Queue} (i o : ℕ) → IsValid qu → IsValid (record qu { sem_in = i; sem_out = o })
with_sems-IsValid i o v = record {
  size_pos = v.size_pos;
  max_pos = v.max_pos;
  used_le = v.used_le;
  tail_lt = v.tail_lt;
  head_at = v.head_at;
  block_at = v.block_at;
}

-- What the loop has done when it stops, started at `i` with `n` rounds.
record IsLinked (before : Queue) (i n : ℕ) (after : Queue) : Type 0 where
  size_kept : after.block_size ≡ before.block_size
  max_kept : after.num_max ≡ before.num_max
  used_kept : after.num_used ≡ before.num_used
  head_kept : after.head_ptr ≡ before.head_ptr
  tail_kept : after.tail_ptr ≡ before.tail_ptr
  raw_kept : after.rawdata ≡ before.rawdata
  in_kept : after.sem_in ≡ before.sem_in
  out_kept : after.sem_out ≡ before.sem_out
  below_kept : (j : ℕ) → j < i → after.block_ptr j ≡ before.block_ptr j
  linked : (j : ℕ) → i ≤ j → j < i + n → after.block_ptr j ≡ before.rawdata + before.block_size * j

link_blocks-IsLinked : (n i : ℕ) (qu : Queue) → IsLinked qu i n (link_blocks n i qu)
unfolding link_blocks
link_blocks-IsLinked zero i qu = record {
  size_kept = refl;
  max_kept = refl;
  used_kept = refl;
  head_kept = refl;
  tail_kept = refl;
  raw_kept = refl;
  in_kept = refl;
  out_kept = refl;
  below_kept = λ j h. refl;
  linked = λ j a b. absurd (omega arith);
}
link_blocks-IsLinked (suc n) i qu =
    let qu₁ = record qu { block_ptr = update qu.block_ptr i (qu.rawdata + qu.block_size * i) } in
    let r = link_blocks-IsLinked n (i + 1) qu₁ in
    record {
      size_kept = r.size_kept;
      max_kept = r.max_kept;
      used_kept = r.used_kept;
      head_kept = r.head_kept;
      tail_kept = r.tail_kept;
      raw_kept = r.raw_kept;
      in_kept = r.in_kept;
      out_kept = r.out_kept;
      below_kept = λ j h. ground (arith, r.below_kept j);
      linked = λ j a b. ground (arith, r.linked j, r.below_kept j);
    }

-- A new queue is empty, and all its places may be claimed.
pub create-IsValid :
    {H : Type 0} (alloc_func : ℕ → H → ℕ × H) (qu : Queue) (block_size block_num : ℕ) (h : H)
    → 0 < block_size
    → 0 < block_num
    → let new = (create alloc_func qu block_size block_num h).1 in
      IsValid new
      × (new.num_max ≡ block_num)
      × (new.num_used ≡ 0)
      × (new.sem_in ≡ block_num)
      × (new.sem_out ≡ 0)
unfolding create create_with_blocks
create-IsValid alloc_func qu bs bn h hs hn =
    let r = link_blocks-IsLinked bn 0 _ in
    (
      record {
        size_pos = ground (arith, r.size_kept);
        max_pos = ground (arith, r.max_kept);
        used_le = ground (arith, r.used_kept);
        tail_lt = ground (arith, r.tail_kept, r.max_kept);
        head_at = ground (arith, r.head_kept, r.tail_kept, r.used_kept, r.max_kept, mod_lem 0 bn);
        block_at = λ i l. ground (arith, r.linked i, r.max_kept, r.size_kept, r.raw_kept);
      },
      r.max_kept,
      r.used_kept,
      r.in_kept,
      r.out_kept,
    )
