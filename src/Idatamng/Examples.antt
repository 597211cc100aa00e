-- ===== src/Idatamng/Examples.antt =====
-- Tests of em_idatamng.c, and the theorems about it at a table of three blocks with one id.
use embedded_middle.Prelude.{
  ◌+◌, ◌*◌, ◌≡◌, refl, arith, false, ◌==◌, if◌then◌else◌, none, some, pos, em_success,
}
use embedded_middle.Bytes.{memcpy}
use embedded_middle.Gdatamng.{Datamng, em_dmng_key_integer}
use embedded_middle.Gdatamng.Valid.{get_data-Holds, get_data-Absent}
use embedded_middle.Idatamng.{key_of, sizeof_ulong, add_data, get_data, get_data_cnt}
use embedded_middle.Idatamng.Ids.{IsIdTable, keycmp-key_of, add_data_lem}

-- Block 0 has the id 300.
abbrev table : Datamng
table = record {
  mp = record {
    block_size = 2;
    num_max = 3;
    num_used = 1;
    block_ptr = λ i. i;
    block = λ i. record { index = i; index_ptr = i; data_ptr = 4096 + 2 * i };
    data_ptr = λ i. 4096 + 2 * i;
    block_ptr_at = 1000;
    block_at = 2000;
    data_ptr_at = 3000;
    rawdata = 4096;
    sem = 2;
    has_free_func = false;
  };
  key = λ i. key_of 300;
  count = λ i. 1;
  key_size = sizeof_ulong;
  duplicate_mode = 1;
  key_type = em_dmng_key_integer;
  mem = λ a i. a;
}

table-IsIdTable : IsIdTable table
table-IsIdTable = record {
  valid = record {
    pool = record {
      size_pos = omega arith;
      room = omega arith;
      used_le = omega arith;
      ptr_lt = λ i h. h;
      idx_lt = λ i h. h;
      idx_of_ptr = λ i h. refl;
      ptr_of_idx = λ i h. refl;
      index_self = λ i h. refl;
      data_at = λ i h. refl;
      data_cached = λ i h. refl;
      sem_free = refl;
    };
    distinct = λ i j u w e. omega (arith, u.1, w.1);
    counted = λ j u. omega arith;
    bounded = λ j u. omega arith;
    few = omega arith;
  };
  integers = refl;
  longs = refl;
}

absent : get_data table 44 (λ i. 0) ≡ none
unfolding get_data
absent =
    (get_data-Absent table (key_of 44) (λ i. 0) table-IsIdTable.valid
      (λ i u. keycmp-key_of 300 44 (omega arith) (omega arith))).0

counted_once : get_data_cnt table 300 ≡ pos 1
unfolding get_data_cnt
counted_once =
    (get_data-Holds table (key_of 300) (λ i. 0) 0 table-IsIdTable.valid
      ((omega arith, omega arith), keycmp-key_of 300 300 (omega arith) (omega arith))).1

add_data_example :
    let (ret, dm') = add_data table 44 (λ i. 9) in
    (ret ≡ em_success)
    × (get_data dm' 300 (λ i. 0)
        ≡ (if 44 == 300 then some (memcpy (λ i. 0) (λ i. 9) 2) else get_data table 300 (λ i. 0)))
    × (get_data_cnt dm' 300 ≡ (if 44 == 300 then pos 1 else get_data_cnt table 300))
add_data_example =
    add_data_lem 44 300 (λ i. 9) (λ i. 0) table-IsIdTable (omega arith) (omega arith) absent
      (omega arith)
