-- ===== src/Mempool.antt =====
-- src/em_mempool.c: a pool of fixed-size blocks. `block_ptr` lists the block numbers, the used ones
-- first; `index_ptr` of a block is its place in that list. A pointer to a block record is the
-- block's number, and a pointer to data is an address. The mutex is held from the first to the last
-- statement of a call, so a call is one step.
pub mod Valid
pub mod Blocks
pub mod Ids
pub mod Sample
pub mod Layout
pub mod History
mod Examples
use embedded_middle.Prelude.{
  ℕ, zero, suc, ◌+◌, ◌-◌, ◌*◌, ◌/◌, ◌%◌, ◌||◌, Bool, true, false, Option, none, some, List, [], ◌∷◌,
  ℤ, ltb, leb, ◌==◌, ◌&&◌, if◌then◌else◌, update, add32, mul32, u32_mod, em_success, em_error,
  em_no_wait,
}
use embedded_middle.Semaphore.{acquired, refused, blocked, sem_init, sem_wait, sem_post}

-- `em_blkinfo_t`.
pub record BlkInfo : Type 0 where
  pub index : ℕ
  pub index_ptr : ℕ
  pub data_ptr : ℕ

-- `em_mpool_t`. The addresses of the three tables stand beside what the tables hold; 0 is NULL.
pub record Mpool : Type 0 where
  pub block_size : ℕ
  pub num_max : ℕ
  pub num_used : ℕ
  pub block_ptr : ℕ → ℕ
  pub block : ℕ → BlkInfo
  pub data_ptr : ℕ → ℕ
  pub block_ptr_at : ℕ
  pub block_at : ℕ
  pub data_ptr_at : ℕ
  pub rawdata : ℕ
  pub sem : ℕ
  pub has_free_func : Bool

-- The body of the initialising loop, at `i`.
unfoldable pub init_block : ℕ → Mpool → Mpool
init_block i mp =
    let address = mp.rawdata + mul32 mp.block_size i in
    record mp {
      block_ptr = update mp.block_ptr i i;
      block = update mp.block i (record { index = i; index_ptr = i; data_ptr = address });
      data_ptr = update mp.data_ptr i address;
    }

-- `for (i = i; i < num_max; i++)`, with the rounds that are left.
unfoldable pub init_blocks : ℕ → ℕ → Mpool → Mpool
init_blocks zero i mp = mp
init_blocks (suc rounds) i mp = init_blocks rounds (i + 1) (init_block i mp)

unfoldable pub create_with_mem : Mpool → ℕ → ℕ → ℕ → ℕ → ℕ → ℕ → Mpool
unfolding sem_init
create_with_mem mp block_size block_num block_ptr block data_ptr rawdata =
    init_blocks block_num 0 (record mp {
      block_size = block_size;
      num_max = block_num;
      num_used = 0;
      block_ptr_at = block_ptr;
      block_at = block;
      data_ptr_at = data_ptr;
      rawdata = rawdata;
      sem = sem_init block_num;
    })

-- `sizeof(void *)` and `sizeof(em_blkinfo_t)` where pointers have eight bytes.
abbrev pub sizeof_ptr : ℕ
sizeof_ptr = 8

abbrev pub sizeof_blkinfo : ℕ
sizeof_blkinfo = 16

pub create_with_mem2 : Mpool → ℕ → ℕ → ℕ → ℤ × Mpool
create_with_mem2 mp block_size block_num memory =
    if block_size == 0 || block_num == 0 || memory == 0
    then (em_error, mp)
    else (let block_ptr = memory + sizeof_ptr * block_num in
        let block = block_ptr + sizeof_ptr * block_num in
        let rawdata = block + sizeof_blkinfo * block_num in
        (
          em_success,
          create_with_mem (record mp { has_free_func = false }) block_size block_num block_ptr block
              memory rawdata,
        ))

-- The total as a bit pattern of the `int` that is returned.
pub calc_memsize : ℕ → ℕ → ℕ
calc_memsize block_size block_num =
    let pointers = add32 0 (sizeof_ptr * block_num) in
    let blocks = add32 pointers (sizeof_blkinfo * block_num) in
    let raw = add32 blocks (mul32 block_size block_num) in add32 raw (sizeof_ptr * block_num)

-- `alloc_func` takes a size and the heap, and returns an address and the heap.
unfoldable pub create : {H : Type 0} → (ℕ → H → ℕ × H) → Mpool → ℕ → ℕ → H → ℤ × Mpool × H
create alloc_func mp block_size block_num h =
    if block_size == 0 || block_num == 0
    then (em_error, mp, h)
    else (let (block_ptr, h₁) = alloc_func (sizeof_ptr * block_num) h in
        let (block, h₂) = alloc_func (sizeof_blkinfo * block_num) h₁ in
        let (data_ptr, h₃) = alloc_func (sizeof_ptr * block_num) h₂ in
        let (rawdata, h₄) = alloc_func (mul32 block_size block_num) h₃ in
        (
          em_success,
          create_with_mem (record mp { has_free_func = true }) block_size block_num block_ptr block
              data_ptr rawdata,
          h₄,
        ))

-- The addresses passed to `free_func`, in order, and the pool after it.
pub destroy : Mpool → ℤ × List ℕ × Mpool
destroy mp =
    if mp.has_free_func
    then (
      em_success,
      mp.block_ptr_at ∷ mp.block_at ∷ mp.rawdata ∷ mp.data_ptr_at ∷ [],
      record mp { block_ptr_at = 0; block_at = 0; rawdata = 0; data_ptr_at = 0 },
    )
    else (em_success, [], mp)

-- `none` is the return value -1.
unfoldable pub alloc_blockmng : Mpool → Option ℕ × Mpool
alloc_blockmng mp =
    if leb mp.num_max mp.num_used
    then (none, mp)
    else (some (mp.block_ptr mp.num_used), record mp { num_used = add32 mp.num_used 1 })

-- What `em_mpool_alloc_block` does under the mutex.
unfoldable pub alloc_locked : Mpool → Option ℕ × Mpool
unfolding alloc_blockmng
alloc_locked mp =
    let (block_mng, mp') = alloc_blockmng mp in
    elim block_mng [ none ↦ (none, mp') | some i ↦ (some (mp'.block i).data_ptr, mp') ]

-- `none` where the call never returns; the inner `none` is the return value -1.
unfoldable pub alloc_block : Mpool → ℤ → Option (Option ℕ × Mpool)
unfolding alloc_locked sem_wait
alloc_block mp timeout_ms = elim (sem_wait mp.sem timeout_ms) [
  | acquired s ↦ some (alloc_locked (record mp { sem = s }))
  | refused ↦ some (none, mp)
  | blocked ↦ none
]

-- The call `em_mpool_alloc_block(mp, &p, EM_NO_WAIT)`, which always returns.
unfoldable pub try_alloc_block : Mpool → Option ℕ × Mpool
unfolding alloc_block
try_alloc_block mp = elim (alloc_block mp em_no_wait) [ none ↦ (none, mp) | some r ↦ r ]

-- A pointer difference is signed and its quotient is cut towards 0; `int` is kept as a bit pattern.
unfoldable pub get_dataidx : Mpool → ℕ → ℕ
get_dataidx mp block_data =
    if leb mp.rawdata block_data
    then ((block_data - mp.rawdata) / mp.block_size) % u32_mod
    else (u32_mod - ((mp.rawdata - block_data) / mp.block_size) % u32_mod) % u32_mod

-- `none` is NULL.
unfoldable pub get_dataptr : Mpool → ℕ → Option ℕ
get_dataptr mp data_idx =
    if leb mp.num_max data_idx || leb mp.num_used (mp.block data_idx).index_ptr
    then none
    else some (mp.block data_idx).data_ptr

abbrev set_index_ptr : (ℕ → BlkInfo) → ℕ → ℕ → ℕ → BlkInfo
set_index_ptr block i v = update block i (record (block i) { index_ptr = v })

-- The last used block takes the place of the freed one. `num_used--` runs only above 0.
pub swap_free : Mpool → ℕ → Mpool
unfolding sem_post
swap_free mp data_idx =
    let del_search_index = (mp.block data_idx).index_ptr in
    let last = mp.num_used - 1 in
    let swap_offset = (mp.block (mp.block_ptr last)).index in
    let block = set_index_ptr (set_index_ptr mp.block swap_offset del_search_index) data_idx last in
    record mp {
      num_used = last;
      block_ptr = update (update mp.block_ptr del_search_index swap_offset) last data_idx;
      block = block;
      data_ptr =
          update (update mp.data_ptr del_search_index (block swap_offset).data_ptr) last
            (block data_idx).data_ptr;
      sem = (sem_post mp.sem).1;
    }

unfoldable pub free_block_by_dataidx : Mpool → ℕ → ℤ × Mpool
unfolding swap_free
free_block_by_dataidx mp data_idx =
    if mp.num_used == 0
      || (leb mp.num_max data_idx || leb mp.num_used (mp.block data_idx).index_ptr)
    then (em_error, mp)
    else (em_success, swap_free mp data_idx)

-- What `em_mpool_free_block` does with a pointer that its trace line can read. The components that
-- free a block of their own pool by its address use this.
unfoldable pub free_at : Mpool → ℕ → ℤ × Mpool
unfolding free_block_by_dataidx get_dataidx
free_at mp block_data = free_block_by_dataidx mp (get_dataidx mp block_data)

-- The trace line reads an `int` at the pointer, and the record of the block it lies in, before any
-- test: both exist where the four bytes are in the pool.
unfoldable pub is_inside : Mpool → ℕ → Bool
is_inside mp block_data =
    leb mp.rawdata block_data && leb (block_data + 4) (mp.rawdata + mp.block_size * mp.num_max)

-- `none` is a read outside the pool, whose outcome C leaves undefined.
unfoldable pub free_block : Mpool → ℕ → Option (ℤ × Mpool)
unfolding is_inside free_at
free_block mp block_data = if is_inside mp block_data then some (free_at mp block_data) else none

-- The copying loops of the two array getters: what is written from `i` on, with the rounds left.
copy_used : (ℕ → ℕ) → ℕ → ℕ → ℕ → ℕ → List ℕ
copy_used entry num_used max_size zero i = []
copy_used entry num_used max_size (suc rounds) i =
    let rest = copy_used entry num_used max_size rounds (i + 1) in
    if ltb i num_used then (if ltb i max_size then entry i ∷ rest else []) else []

-- `*data_num`, and what is written to the array.
pub get_dataptr_array : Mpool → ℕ → ℕ × List ℕ
unfolding copy_used
get_dataptr_array mp max_size = (
  mp.num_used,
  copy_used (λ i. (mp.block (mp.block_ptr i)).data_ptr) mp.num_used max_size mp.num_used 0,
)

pub get_dataidx_array : Mpool → ℕ → ℕ × List ℕ
unfolding copy_used
get_dataidx_array mp max_size = (
  mp.num_used,
  copy_used (λ i. (mp.block (mp.block_ptr i)).index) mp.num_used max_size mp.num_used 0,
)

-- The table of data addresses itself, used blocks first.
pub get_dataptr_array2 : Mpool → ℕ → ℕ
get_dataptr_array2 mp = mp.data_ptr
