-- ===== src/Mempool/Sample.antt =====
-- A pool of three blocks at the address 4096 with the first in use, for the tests of its clients.
use embedded_middle.Prelude.{ℕ, ◌+◌, ◌*◌, ◌<◌, refl, arith, false, u32_mod}
use embedded_middle.Mempool.{Mpool}
use embedded_middle.Mempool.Valid.{IsValid}

abbrev pub sample_pool : ℕ → Mpool
sample_pool size = record {
  block_size = size;
  num_max = 3;
  num_used = 1;
  block_ptr = λ i. i;
  block = λ i. record { index = i; index_ptr = i; data_ptr = 4096 + size * i };
  data_ptr = λ i. 4096 + size * i;
  block_ptr_at = 1000;
  block_at = 2000;
  data_ptr_at = 3000;
  rawdata = 4096;
  sem = 2;
  has_free_func = false;
}

pub sample_pool-IsValid : (size : ℕ) → 0 < size → size * 3 < u32_mod → IsValid (sample_pool size)
sample_pool-IsValid size pos room = record {
  size_pos = pos;
  room = room;
  used_le = omega arith;
  ptr_lt = λ i h. h;
  idx_lt = λ i h. h;
  idx_of_ptr = λ i h. refl;
  ptr_of_idx = λ i h. refl;
  index_self = λ i h. refl;
  data_at = λ i h. refl;
  data_cached = λ i h. refl;
  sem_free = refl;
}
