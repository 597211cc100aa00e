-- ===== src/Ring/Examples.antt =====
-- Tests of em_ringbuf.c, and the theorems about it at rings of three and of four blocks.
use embedded_middle.Prelude.{ℕ, ◌+◌, ◌*◌, ◌≡◌, refl, inr, some, [], ◌∷◌, arith}
use embedded_middle.Ring.{
  Ring, get_dataptr_head, get_dataptr_tail, produce, head_index, tail_index, em_ringbuf_update,
}
use embedded_middle.Ring.Valid.{IsValid}
use embedded_middle.Ring.Contents.{contents, push, produce_lem}

-- A full ring of three blocks of four bytes whose newest block is the last of the table.
abbrev full : Ring
full = record {
  block_size = 4;
  override_mode = em_ringbuf_update;
  num_max = 3;
  num_used = 3;
  head_ptr = 0;
  tail_ptr = 0;
  block_ptr = λ i. 4096 + 4 * i;
  block_ptr_at = 1000;
  rawdata = 4096;
}

-- Two values, round the end of a table of four blocks.
abbrev wrapped : Ring
wrapped = record full { num_max = 4; num_used = 2; head_ptr = 1; tail_ptr = 3 }

-- A block's value is its address.
abbrev mem : ℕ → ℕ
mem a = a

full-IsValid : IsValid full
full-IsValid = record {
  size_pos = omega arith;
  max_pos = omega arith;
  max_le = omega arith;
  room = omega arith;
  used_le = omega arith;
  tail_lt = omega arith;
  head_at = refl;
  block_at = λ i h. refl;
}

wrapped-IsValid : IsValid wrapped
wrapped-IsValid = record {
  size_pos = omega arith;
  max_pos = omega arith;
  max_le = omega arith;
  room = omega arith;
  used_le = omega arith;
  tail_lt = omega arith;
  head_at = refl;
  block_at = λ i h. refl;
}

-- The newest of three blocks is asked for, and the oldest is returned.
newest_is_oldest :
    (get_dataptr_head full 0 ≡ some 4096)
    × (get_dataptr_tail full 0 ≡ some 4096)
    × (contents full mem ≡ 4096 ∷ 4100 ∷ 4104 ∷ [])
unfolding get_dataptr_head get_dataptr_tail head_index tail_index
newest_is_oldest = (refl, refl, refl)

produce_example :
    let (ret, rb', mem') = produce full mem 7 in
    ((ret, contents rb' mem') ≡ push em_ringbuf_update 3 (4096 ∷ 4100 ∷ 4104 ∷ []) 7) × IsValid rb'
produce_example = produce_lem mem 7 full-IsValid (inr refl)
