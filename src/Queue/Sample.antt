-- ===== src/Queue/Sample.antt =====
-- A queue of zeros, and an allocator that goes up through its memory, for the tests of the clients.
use embedded_middle.Prelude.{ℕ, ◌+◌}
use embedded_middle.Queue.{Queue}

abbrev pub blank_queue : Queue
blank_queue = record {
  block_size = 0;
  num_max = 0;
  num_used = 0;
  head_ptr = 0;
  tail_ptr = 0;
  block_ptr = λ i. 0;
  block_ptr_at = 0;
  rawdata = 0;
  sem_in = 0;
  sem_out = 0;
  mem = λ a i. 0;
}

abbrev pub bump : ℕ → ℕ → ℕ × ℕ
bump size next = (next, next + size)
