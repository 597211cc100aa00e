-- ===== src/Mempool/Valid.antt =====
-- The representation invariant of `em_mpool_t`, and that the calls of em_mempool.c that change the
-- pool keep it.
use embedded_middle.Prelude.{
  false, ℕ, zero, suc, ◌+◌, ◌-◌, ◌*◌, ◌≤◌, ◌<◌, ◌≡◌, refl, arith, true, ne→==, em_success, mul-le,
  u32_mod, add32, mul32,
}
use embedded_middle.Semaphore.{sem_post, sem_init}
use embedded_middle.Mempool.{
  create_with_mem2, Mpool, init_block, init_blocks, create, create_with_mem, swap_free,
}

-- `block_ptr` and `index_ptr` are inverse to one another, and the semaphore counts the free blocks.
pub record IsValid (mp : Mpool) : Type 0 where
  pub size_pos : 0 < mp.block_size
  pub room : mp.block_size * mp.num_max < u32_mod
  pub used_le : mp.num_used ≤ mp.num_max
  pub ptr_lt : (i : ℕ) → i < mp.num_max → mp.block_ptr i < mp.num_max
  pub idx_lt : (j : ℕ) → j < mp.num_max → (mp.block j).index_ptr < mp.num_max
  pub idx_of_ptr : (i : ℕ) → i < mp.num_max → (mp.block (mp.block_ptr i)).index_ptr ≡ i
  pub ptr_of_idx : (j : ℕ) → j < mp.num_max → mp.block_ptr (mp.block j).index_ptr ≡ j
  pub index_self : (j : ℕ) → j < mp.num_max → (mp.block j).index ≡ j
  pub data_at : (j : ℕ) → j < mp.num_max → (mp.block j).data_ptr ≡ mp.rawdata + mp.block_size * j
  pub data_cached : (i : ℕ) → i < mp.num_max → mp.data_ptr i ≡ (mp.block (mp.block_ptr i)).data_ptr
  pub sem_free : mp.sem + mp.num_used ≡ mp.num_max

-- A block is in use.
abbrev pub IsUsed : Mpool → ℕ → Type 0
IsUsed mp j = (j < mp.num_max) × ((mp.block j).index_ptr < mp.num_used)

mul-le_left : (a b : ℕ) → 0 < a → b ≤ a * b
mul-le_left zero b h = absurd (omega arith)
mul-le_left (suc a) b h = omega arith

pub num_max-lt : {mp : Mpool} → IsValid mp → mp.num_max < u32_mod
num_max-lt {mp} v = omega (arith, mul-le_left mp.block_size mp.num_max v.size_pos)

-- What the loop has done when it stops, started at `i` with `n` rounds.
record IsFilled (before : Mpool) (i n : ℕ) (after : Mpool) : Type 0 where
  size_kept : after.block_size ≡ before.block_size
  max_kept : after.num_max ≡ before.num_max
  used_kept : after.num_used ≡ before.num_used
  raw_kept : after.rawdata ≡ before.rawdata
  sem_kept : after.sem ≡ before.sem
  below_kept :
      (j : ℕ)
      → j < i
      → (after.block_ptr j ≡ before.block_ptr j)
        × (after.block j ≡ before.block j)
        × (after.data_ptr j ≡ before.data_ptr j)
  filled :
      (j : ℕ)
      → i ≤ j
      → j < i + n
      → (after.block_ptr j ≡ j)
        × ((after.block j).index ≡ j)
        × ((after.block j).index_ptr ≡ j)
        × ((after.block j).data_ptr ≡ before.rawdata + mul32 before.block_size j)
        × (after.data_ptr j ≡ before.rawdata + mul32 before.block_size j)

init_blocks-IsFilled : (n i : ℕ) (mp : Mpool) → IsFilled mp i n (init_blocks n i mp)
unfolding init_blocks init_block
init_blocks-IsFilled zero i mp = record {
  size_kept = refl;
  max_kept = refl;
  used_kept = refl;
  raw_kept = refl;
  sem_kept = refl;
  below_kept = λ j h. (refl, refl, refl);
  filled = λ j h k. absurd (omega arith);
}
init_blocks-IsFilled (suc n) i mp =
    let ih = init_blocks-IsFilled n (i + 1) (init_block i mp) in
    record {
      size_kept = ih.size_kept;
      max_kept = ih.max_kept;
      used_kept = ih.used_kept;
      raw_kept = ih.raw_kept;
      sem_kept = ih.sem_kept;
      below_kept = λ j h. ground (arith, ih.below_kept j);
      filled = λ j h k. ground (arith, ih.below_kept j, ih.filled j);
    }

-- A pool whose table is filled from 0 to the end is valid, if nothing is in use yet.
filled-IsValid :
    (mp mp' : Mpool)
    → IsFilled mp 0 mp.num_max mp'
    → 0 < mp.block_size
    → mp.block_size * mp.num_max < u32_mod
    → mp.num_used ≡ 0
    → mp.sem ≡ mp.num_max
    → IsValid mp'
filled-IsValid mp mp' f hs hr hu he = record {
  size_pos = ground (arith, f.size_kept);
  room = ground (arith, f.size_kept, f.max_kept);
  used_le = ground (arith, f.used_kept, f.max_kept);
  ptr_lt = λ i h. ground (arith, f.max_kept, f.filled i);
  idx_lt = λ j h. ground (arith, f.max_kept, f.filled j);
  idx_of_ptr = λ i h. ground (arith, f.max_kept, f.filled i);
  ptr_of_idx = λ j h. ground (arith, f.max_kept, f.filled j);
  index_self = λ j h. ground (arith, f.max_kept, f.filled j);
  data_at = λ j h.
      ground
        (arith, f.max_kept, f.size_kept, f.raw_kept, f.filled j, mul-le mp.block_size j mp.num_max);
  data_cached = λ i h. ground (arith, f.max_kept, f.filled i);
  sem_free = ground (arith, f.max_kept, f.used_kept, f.sem_kept);
}

-- A pool fresh from `em_mpool_create_with_mem` is valid and holds no used block, if the blocks have
-- a size and all their bytes can be counted by a `uint`.
pub create_with_mem-IsValid :
    (mp : Mpool) (block_size block_num block_ptr block data_ptr rawdata : ℕ)
    → 0 < block_size
    → block_size * block_num < u32_mod
    → let mp' = create_with_mem mp block_size block_num block_ptr block data_ptr rawdata in
      IsValid mp' × (mp'.num_max ≡ block_num) × ((j : ℕ) → ¬ IsUsed mp' j)
unfolding create_with_mem sem_init
create_with_mem-IsValid mp bs bn bp b dp raw hs hr =
    (filled-IsValid mp₀ _ f hs hr refl refl, f.max_kept, λ j h. ground (arith, f.used_kept))
  where
    mp₀ : Mpool
    mp₀ = record mp {
      block_size = bs;
      num_max = bn;
      num_used = 0;
      block_ptr_at = bp;
      block_at = b;
      data_ptr_at = dp;
      rawdata = raw;
      sem = bn;
    }

    f : IsFilled mp₀ 0 bn (init_blocks bn 0 mp₀)
    f = init_blocks-IsFilled bn 0 mp₀

-- So is what `em_mpool_create` makes of the memory that its allocator gives.
pub create-IsValid :
    {H : Type 0} (alloc_func : ℕ → H → ℕ × H) (mp : Mpool) (block_size block_num : ℕ) (h : H)
    → 0 < block_size
    → 0 < block_num
    → block_size * block_num < u32_mod
    → let (ret, mp', _) = create alloc_func mp block_size block_num h in
      (ret ≡ em_success) × IsValid mp' × (mp'.num_max ≡ block_num) × ((j : ℕ) → ¬ IsUsed mp' j)
unfolding create
create-IsValid alloc_func mp bs bn h hs hn hr =
    rw (ne→== bs 0 (omega arith), ne→== bn 0 (omega arith))
      (let fresh =
          create_with_mem-IsValid (record mp { has_free_func = true }) bs bn _ _ _ _ hs hr in
        (refl, fresh.0, fresh.1, fresh.2))

pub create_with_mem2-IsValid :
    (mp : Mpool) (block_size block_num memory : ℕ)
    → 0 < block_size
    → 0 < block_num
    → 0 < memory
    → block_size * block_num < u32_mod
    → let (ret, mp') = create_with_mem2 mp block_size block_num memory in
      (ret ≡ em_success) × IsValid mp' × (mp'.num_max ≡ block_num) × ((j : ℕ) → ¬ IsUsed mp' j)
unfolding create_with_mem2
create_with_mem2-IsValid mp bs bn memory hs hn hm hr =
    rw (ne→== bs 0 (omega arith), ne→== bn 0 (omega arith), ne→== memory 0 (omega arith))
      (let fresh =
          create_with_mem-IsValid (record mp { has_free_func = false }) bs bn _ _ _ _ hs hr in
        (refl, fresh.0, fresh.1, fresh.2))

pub create-block_size :
    {H : Type 0} (alloc_func : ℕ → H → ℕ × H) (mp : Mpool) (block_size block_num : ℕ) (h : H)
    → 0 < block_size
    → 0 < block_num
    → (create alloc_func mp block_size block_num h).1.block_size ≡ block_size
unfolding create create_with_mem
create-block_size alloc_func mp bs bn h hs hn =
    rw (ne→== bs 0 (omega arith), ne→== bn 0 (omega arith)) (init_blocks-IsFilled bn 0 _).size_kept

-- Taking the next block keeps the tables, and the semaphore was lowered before it.
pub take-IsValid :
    {mp : Mpool}
    → IsValid mp
    → 0 < mp.sem
    → IsValid (record mp { sem = mp.sem - 1; num_used = add32 mp.num_used 1 })
take-IsValid {mp} v h = record {
  size_pos = v.size_pos;
  room = v.room;
  used_le = omega (arith, v.sem_free, num_max-lt v);
  ptr_lt = v.ptr_lt;
  idx_lt = v.idx_lt;
  idx_of_ptr = v.idx_of_ptr;
  ptr_of_idx = v.ptr_of_idx;
  index_self = v.index_self;
  data_at = v.data_at;
  data_cached = v.data_cached;
  sem_free = omega (arith, v.sem_free, num_max-lt v);
}

module _ {mp : Mpool} (d : ℕ) (v : IsValid mp) (used : IsUsed mp d) where
  abbrev pub last : ℕ
  last = mp.num_used - 1

  -- The block that moves into the freed place.
  pub swapped :
      (mp.block_ptr last < mp.num_max)
      × ((mp.block (mp.block_ptr last)).index ≡ mp.block_ptr last)
      × ((mp.block (mp.block_ptr last)).index_ptr ≡ last)
  swapped = ground (arith, v.ptr_lt last, v.index_self (mp.block_ptr last), v.idx_of_ptr last)

  -- `em_mpool_free_block_by_dataidx` keeps the invariant when it frees a used block.
  pub swap_free-IsValid : IsValid (swap_free mp d)
  unfolding swap_free sem_post
  swap_free-IsValid = record {
    size_pos = v.size_pos;
    room = v.room;
    used_le = ground (arith, v.used_le);
    ptr_lt = λ i h. ground (arith, v.ptr_lt i h, swapped);
    idx_lt = λ j h. ground (arith, v.idx_lt j h, v.idx_lt d);
    idx_of_ptr = λ i h. ground (arith, v.idx_of_ptr i h, swapped, v.ptr_of_idx d);
    ptr_of_idx = λ j h. ground (arith, v.ptr_of_idx j h, swapped, v.ptr_of_idx d);
    index_self = λ j h. ground (arith, v.index_self j h);
    data_at = λ j h. ground (arith, v.data_at j h);
    data_cached = λ i h. ground (arith, v.data_cached i h, swapped, v.ptr_of_idx d);
    sem_free = ground (arith, v.sem_free);
  }
