-- ===== src/Malloc.antt =====
-- src/em_malloc.c: an allocator of memory in units. The regions, used and free, form a doubly linked
-- list in the order of the memory, between two dummies; the record of a region is a block of the
-- pool `mp_used` or `mp_free`. A record is known by its address, and NULL is 0. The mutex is held
-- through each call, so a call is one step. An `int` is a natural number. The count of units, the
-- offset of a unit and the number of a unit are cut to 32 bits.
pub mod Calls
pub mod Tries
pub mod Waiting
pub mod Units
pub mod Started
mod Examples
use Prim.Native.Nat.{bit_and}
use embedded_middle.Prelude.{
  ℕ, zero, suc, ◌+◌, ◌-◌, ◌*◌, ◌/◌, ◌%◌, ◌^◌, Bool, true, false, ◌||◌, not, Option, none, some,
  List, [], ◌∷◌, ℤ, negsuc, leb, ◌==◌, if◌then◌else◌, update, u32_mod, add32, em_success, em_error,
  em_err_param,
}
use embedded_middle.Mempool.{Mpool, calc_memsize, create_with_mem2, try_alloc_block}
use embedded_middle.Mempool

-- `em_meminfo_t`.
pub record Meminfo : Type 0 where
  pub mem_index : ℕ
  pub mem_length : ℕ
  pub is_used : Bool
  pub next_meminfo : ℕ
  pub back_meminfo : ℕ

abbrev pub sizeof_meminfo : ℕ
sizeof_meminfo = 32

-- `em_memmng_t`. `first_at` and `last_at` are the addresses of the two dummies, and `info` gives the
-- record at an address.
pub record Memmng : Type 0 where
  pub mem_total_size : ℕ
  pub mem_unit_size : ℕ
  pub mem_unit_bshift : ℕ
  pub is_bshiftable : Bool
  pub is_malloc : Bool
  pub mem_total_bnum : ℕ
  pub mem_used_bsize : ℕ
  pub mp_used : Mpool
  pub mp_free : Mpool
  pub memory : ℕ
  pub minfo_at : ℕ
  pub minfo_ptr : ℕ → ℕ
  pub first_at : ℕ
  pub last_at : ℕ
  pub info : ℕ → Meminfo

-- The whole part of the logarithm to base 2, by halving at most as often as `fuel` says.
pub log2 : ℕ → ℕ → ℕ
log2 zero n = 0
log2 (suc fuel) n = let rest = log2 fuel (n / 2) in if leb n 1 then 0 else rest + 1

-- The list of one free region, once its record has been allocated. Where the pool has none the code
-- writes through a pointer that was never set, and what happens is undefined: `none`.
unfoldable pub link_initial : Memmng → Option ℕ × Mpool → Option Memmng
link_initial mm (none, mp) = none
link_initial mm (some initial, mp) =
    let info₁ = update mm.info mm.first_at (record {
      mem_index = u32_mod - 1;
      mem_length = 0;
      is_used = true;
      next_meminfo = initial;
      back_meminfo = 0;
    }) in
    let info₂ = update info₁ mm.last_at (record {
      mem_index = u32_mod - 2;
      mem_length = 0;
      is_used = true;
      next_meminfo = 0;
      back_meminfo = initial;
    }) in
    some (record mm {
      mp_free = mp;
      info = update info₂ initial (record {
        mem_index = 0;
        mem_length = mm.mem_total_bnum;
        is_used = false;
        next_meminfo = mm.last_at;
        back_meminfo = mm.first_at;
      });
    })

-- The fields that do not depend on where the memory comes from; `mm` is what was there before.
set_sizes : Memmng → ℕ → ℕ → Memmng
unfolding log2
set_sizes mm mem_unit_size mem_block_num = record mm {
  is_bshiftable = not (mem_unit_size == 0 || not (bit_and mem_unit_size (mem_unit_size - 1) == 0));
  mem_total_size = mem_unit_size * mem_block_num;
  mem_unit_size = mem_unit_size;
  mem_total_bnum = mem_block_num;
  mem_unit_bshift = log2 32 mem_unit_size;
  mem_used_bsize = 0;
}

-- In the memory of the caller: the two pools, the table of records, and the units.
place_memory : Memmng → ℕ → ℕ → Memmng
place_memory mm alloc_max_num memory =
    let size_mp = calc_memsize sizeof_meminfo alloc_max_num in
    let minfo = memory + size_mp + size_mp in
    record mm {
      is_malloc = false;
      minfo_at = minfo;
      memory = minfo + 8 * mm.mem_total_bnum;
      mp_used = (create_with_mem2 mm.mp_used sizeof_meminfo alloc_max_num memory).1;
      mp_free = (create_with_mem2 mm.mp_free sizeof_meminfo alloc_max_num (memory + size_mp)).1;
    }

-- With memory of its own; `alloc_func` is `malloc` of the C library, which takes a size and the heap
-- and returns an address and the heap.
allocate_memory : {H : Type 0} → (ℕ → H → ℕ × H) → Memmng → ℕ → H → Memmng × H
allocate_memory alloc_func mm alloc_max_num h =
    let (_, used, h₁) = Mempool.create alloc_func mm.mp_used sizeof_meminfo alloc_max_num h in
    let (_, free, h₂) = Mempool.create alloc_func mm.mp_free sizeof_meminfo alloc_max_num h₁ in
    let (minfo, h₃) = alloc_func (8 * mm.mem_total_bnum) h₂ in
    let (memory, h₄) = alloc_func mm.mem_total_size h₃ in
    (
      record mm {
        is_malloc = true;
        mp_used = used;
        mp_free = free;
        minfo_at = minfo;
        memory = memory;
      },
      h₄,
    )

unfoldable pub created : {H : Type 0} → H → Option Memmng → Option (ℤ × Memmng × H)
created h none = none
created h (some mm) = some (em_success, mm, h)

-- `memory` is `none` for NULL. The result is `none` where the behaviour is undefined.
unfoldable pub create :
    {H : Type 0} → (ℕ → H → ℕ × H) → Memmng → ℕ → ℕ → ℕ → Option ℕ → H → Option (ℤ × Memmng × H)
unfolding created link_initial set_sizes place_memory allocate_memory
create alloc_func mm mem_unit_size mem_block_num alloc_max_num (some memory) h =
    let mm₁ = place_memory (set_sizes mm mem_unit_size mem_block_num) alloc_max_num memory in
    created h (link_initial mm₁ (try_alloc_block mm₁.mp_free))
create alloc_func mm mem_unit_size mem_block_num alloc_max_num none h =
    let (mm₁, h₁) =
      allocate_memory alloc_func (set_sizes mm mem_unit_size mem_block_num) alloc_max_num h in
    created h₁ (link_initial mm₁ (try_alloc_block mm₁.mp_free))

-- The addresses passed to `free` of the C library, in order.
pub destroy : Memmng → ℤ × List ℕ
destroy mm = (em_success, if mm.is_malloc then mm.memory ∷ mm.minfo_at ∷ [] else [])
