-- ===== src/Ring/Valid.antt =====
-- The invariant of `em_ring_t`, and that the calls of em_ringbuf.c keep it.
use embedded_middle.Prelude.{
  ℕ, zero, suc, ◌+◌, ◌-◌, ◌*◌, ◌%◌, ◌^◌, ◌≤◌, ◌<◌, ◌≡◌, refl, arith, mul-le, u32_mod, update, mul32,
  mod_lem,
}
use embedded_middle.Ring.{
  Ring, fill_block_ptr, create, delete_taildata, get_dataptr_new, add_newdata,
}

-- The head stands `num_used` places after the tail, counted round the ring.
pub record IsValid (rb : Ring) : Type 0 where
  pub size_pos : 0 < rb.block_size
  pub max_pos : 0 < rb.num_max
  pub max_le : rb.num_max ≤ 2 ^ 31
  pub room : rb.block_size * rb.num_max < u32_mod
  pub used_le : rb.num_used ≤ rb.num_max
  pub tail_lt : rb.tail_ptr < rb.num_max
  pub head_at : rb.head_ptr ≡ (rb.tail_ptr + rb.num_used) % rb.num_max
  pub block_at : (i : ℕ) → i < rb.num_max → rb.block_ptr i ≡ rb.rawdata + rb.block_size * i

-- Giving up old blocks and registering a new one keep the invariant, whatever is asked.
pub delete_taildata-IsValid :
    {rb : Ring} (del_num : ℕ) → IsValid rb → IsValid (delete_taildata rb del_num).1
unfolding delete_taildata
delete_taildata-IsValid {rb} n v = record {
  size_pos = ground (arith, v.size_pos);
  max_pos = ground (arith, v.max_pos);
  max_le = ground (arith, v.max_le);
  room = ground (arith, v.room);
  used_le = ground (arith, v.used_le);
  tail_lt = ground (arith, v);
  head_at = ground (
    arith,
    v.head_at,
    v.tail_lt,
    v.used_le,
    v.max_le,
    mod_lem (rb.tail_ptr + rb.num_used) rb.num_max,
    mod_lem (rb.tail_ptr + n) rb.num_max,
    mod_lem ((rb.tail_ptr + n) % rb.num_max + (rb.num_used - n)) rb.num_max,
    mod_lem (rb.tail_ptr + n + (rb.num_used - n)) rb.num_max,
  );
  block_at = λ i h. ground (arith, v.block_at i);
}

pub add_newdata-IsValid : {rb : Ring} → IsValid rb → IsValid (add_newdata rb).1
unfolding add_newdata
add_newdata-IsValid {rb} v = record {
  size_pos = ground (arith, v.size_pos);
  max_pos = ground (arith, v.max_pos);
  max_le = ground (arith, v.max_le);
  room = ground (arith, v.room);
  used_le = ground (arith, v.used_le, v.max_le);
  tail_lt = ground (arith, v.tail_lt);
  head_at = ground (
    arith,
    v,
    mod_lem (rb.tail_ptr + rb.num_used) rb.num_max,
    mod_lem (rb.tail_ptr + (rb.num_used + 1)) rb.num_max,
    mod_lem (rb.head_ptr + 1) rb.num_max,
  );
  block_at = λ i h. ground (arith, v.block_at i);
}

pub get_dataptr_new-IsValid : {rb : Ring} → IsValid rb → IsValid (get_dataptr_new rb).1
unfolding get_dataptr_new
get_dataptr_new-IsValid {rb} v = grind (arith, delete_taildata-IsValid 1 v)

record IsFilled (before after : Ring) (i n : ℕ) : Type 0 where
  size_kept : after.block_size ≡ before.block_size
  max_kept : after.num_max ≡ before.num_max
  used_kept : after.num_used ≡ before.num_used
  head_kept : after.head_ptr ≡ before.head_ptr
  tail_kept : after.tail_ptr ≡ before.tail_ptr
  raw_kept : after.rawdata ≡ before.rawdata
  below_kept : (j : ℕ) → j < i → after.block_ptr j ≡ before.block_ptr j
  filled :
      (j : ℕ) → i ≤ j → j < i + n → after.block_ptr j ≡ before.rawdata + mul32 before.block_size j

fill_block_ptr-IsFilled : (n i : ℕ) (rb : Ring) → IsFilled rb (fill_block_ptr n i rb) i n
unfolding fill_block_ptr
fill_block_ptr-IsFilled zero i rb = record {
  size_kept = refl;
  max_kept = refl;
  used_kept = refl;
  head_kept = refl;
  tail_kept = refl;
  raw_kept = refl;
  below_kept = λ j h. refl;
  filled = λ j h k. absurd (omega arith);
}
fill_block_ptr-IsFilled (suc n) i rb =
    let ih =
      fill_block_ptr-IsFilled n (i + 1)
        (record rb { block_ptr = update rb.block_ptr i (rb.rawdata + mul32 rb.block_size i) }) in
    record {
      size_kept = ih.size_kept;
      max_kept = ih.max_kept;
      used_kept = ih.used_kept;
      head_kept = ih.head_kept;
      tail_kept = ih.tail_kept;
      raw_kept = ih.raw_kept;
      below_kept = λ j h. ground (arith, ih.below_kept j);
      filled = λ j h k. ground (arith, ih.below_kept j, ih.filled j);
    }

abbrev fresh : {H : Type 0} → (ℕ → H → ℕ × H) → (ℕ → ℕ) → ℕ → ℕ → ℕ → H → Ring
fresh alloc garbage bs bn mode h =
    let (raw, h₁) = alloc (mul32 bs bn) h in
    record {
      block_size = bs;
      override_mode = mode;
      num_max = bn;
      num_used = 0;
      head_ptr = 0;
      tail_ptr = 0;
      block_ptr = garbage;
      block_ptr_at = (alloc (8 * bn) h₁).0;
      rawdata = raw;
    }

-- `em_ring_create` yields a valid, empty ring, whatever memory it is given.
pub create-IsValid :
    {H : Type 0} (alloc_func : ℕ → H → ℕ × H) (garbage : ℕ → ℕ) (block_size block_num mode : ℕ)
    (h : H)
    → 0 < block_size
    → 0 < block_num
    → block_num ≤ 2 ^ 31
    → block_size * block_num < u32_mod
    → let rb = (create alloc_func garbage block_size block_num mode h).1 in
      IsValid rb × (rb.num_used ≡ 0) × (rb.num_max ≡ block_num)
unfolding create
create-IsValid alloc garbage bs bn mode h hs hn hm hr =
    let f = fill_block_ptr-IsFilled bn 0 (fresh alloc garbage bs bn mode h) in
    (
      record {
        size_pos = ground (arith, f.size_kept);
        max_pos = ground (arith, f.max_kept);
        max_le = ground (arith, f.max_kept);
        room = ground (arith, f.size_kept, f.max_kept);
        used_le = ground (arith, f.used_kept);
        tail_lt = ground (arith, f.tail_kept, f.max_kept);
        head_at = ground (arith, f.tail_kept, f.head_kept, f.used_kept, f.max_kept, mod_lem 0 bn);
        block_at =
            λ i k. ground (arith, f.size_kept, f.raw_kept, f.max_kept, f.filled i, mul-le bs i bn);
      },
      f.used_kept,
      f.max_kept,
    )
