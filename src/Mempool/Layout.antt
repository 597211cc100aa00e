-- ===== src/Mempool/Layout.antt =====
-- How em_mempool.c cuts a client's memory into the tables and the blocks.
use embedded_middle.Prelude.{
  ℕ, zero, suc, false, ◌+◌, ◌*◌, ◌<◌, ◌≡◌, ◌≢◌, arith, u32_mod, em_success,
}
use embedded_middle.Mempool.{
  Mpool, init_block, init_blocks, create_with_mem, create_with_mem2, calc_memsize, sizeof_ptr,
  sizeof_blkinfo,
}
use embedded_middle.Semaphore.{sem_init}

-- The initialising loop leaves the addresses and the sizes alone.
record SameTables (mp mp' : Mpool) : Type 0 where
  block_ptr_kept : mp'.block_ptr_at ≡ mp.block_ptr_at
  block_kept : mp'.block_at ≡ mp.block_at
  data_ptr_kept : mp'.data_ptr_at ≡ mp.data_ptr_at
  raw_kept : mp'.rawdata ≡ mp.rawdata
  size_kept : mp'.block_size ≡ mp.block_size
  max_kept : mp'.num_max ≡ mp.num_max

init_blocks-SameTables : (n i : ℕ) (mp : Mpool) → SameTables mp (init_blocks n i mp)
unfolding init_blocks init_block
init_blocks-SameTables zero i mp = omega arith
init_blocks-SameTables (suc n) i mp =
    ground (arith, init_blocks-SameTables n (i + 1) (init_block i mp))

-- The pool as the loop finds it.
abbrev start : Mpool → ℕ → ℕ → ℕ → Mpool
start mp bs bn m = record mp {
  block_size = bs;
  num_max = bn;
  num_used = 0;
  block_ptr_at = m + sizeof_ptr * bn;
  block_at = m + sizeof_ptr * bn + sizeof_ptr * bn;
  data_ptr_at = m;
  rawdata = m + sizeof_ptr * bn + sizeof_ptr * bn + sizeof_blkinfo * bn;
  sem = bn;
  has_free_func = false;
}

-- If the sizes do not wrap, `em_mpool_create_with_mem2` puts the pointer table, the table of block
-- numbers, the block records and the blocks one after the other from `memory` on, none overlapping
-- the next, and all of it ends where `em_mpool_calc_memsize` says.
pub create_with_mem2_layout :
    (mp : Mpool) (block_size block_num memory : ℕ)
    → block_size ≢ 0
    → block_num ≢ 0
    → memory ≢ 0
    → 32 * block_num + block_size * block_num < u32_mod
    → let (ret, mp') = create_with_mem2 mp block_size block_num memory in
      (ret ≡ em_success)
      × (mp'.data_ptr_at ≡ memory)
      × (mp'.data_ptr_at + sizeof_ptr * block_num ≡ mp'.block_ptr_at)
      × (mp'.block_ptr_at + sizeof_ptr * block_num ≡ mp'.block_at)
      × (mp'.block_at + sizeof_blkinfo * block_num ≡ mp'.rawdata)
      × (mp'.rawdata + mp'.block_size * mp'.num_max ≡ memory + calc_memsize block_size block_num)
unfolding create_with_mem2 calc_memsize create_with_mem sem_init
create_with_mem2_layout mp bs bn m h1 h2 h3 h =
    ground (arith, init_blocks-SameTables bn 0 (start mp bs bn m))
