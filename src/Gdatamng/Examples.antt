-- ===== src/Gdatamng/Examples.antt =====
-- Tests of em_gdatamng.c, and the theorems about it at tables of three blocks with integer keys.
use embedded_middle.Prelude.Int.{of_bits}
use embedded_middle.Prelude.{
  ℕ, ◌+◌, ◌-◌, ◌*◌, ◌≤◌, ◌≡◌, refl, ◌⊎◌, ◌==◌, if◌then◌else◌, true, false, none, some, pos, arith,
  em_success, em_error,
}
use embedded_middle.Bytes.{Bytes, memcpy, memcmp_from}
use embedded_middle.Mempool.Valid.{IsUsed}
use embedded_middle.Mempool.Valid
use embedded_middle.Gdatamng.{
  Datamng, keycmp, add_data, remove_data, get_data, get_data_cnt, get_key, get_key_by_func,
  search_from, get_data_ptr, get_blockinfo, data_of, copy_out, count_of, get_key_from,
  em_dmng_key_integer,
}
use embedded_middle.Gdatamng.Valid.{IsValid, stored}
use embedded_middle.Gdatamng.Added.{add_data_new}
use embedded_middle.Gdatamng.Changed.{add_data_update, add_data_duplicate}
use embedded_middle.Gdatamng.Removed.{remove_data_last}
use embedded_middle.Gdatamng.Reverse.{same_block, get_key_lem}

-- A key or a datum whose bytes are all `n`.
abbrev all : ℕ → Bytes
all n i = n

-- The first two of three places are exchanged.
abbrev swapped : ℕ → ℕ
swapped i = if i == 0 then 1 else (if i == 1 then 0 else i)

-- Block `i` has the key `i + 1` and the datum that is its address; key 2 was added twice.
abbrev table : ℕ → ℕ → Datamng
table used mode = record {
  mp = record {
    block_size = 2;
    num_max = 3;
    num_used = used;
    block_ptr = swapped;
    block = λ i. record { index = i; index_ptr = swapped i; data_ptr = 4096 + 2 * i };
    data_ptr = λ i. 4096 + 2 * swapped i;
    block_ptr_at = 1000;
    block_at = 2000;
    data_ptr_at = 3000;
    rawdata = 4096;
    sem = 3 - used;
    has_free_func = false;
  };
  key = λ i. all (i + 1);
  count = λ i. if i == 1 then 2 else 1;
  key_size = 2;
  duplicate_mode = mode;
  key_type = em_dmng_key_integer;
  mem = λ a. all a;
}

pool-IsValid : (used mode : ℕ) → used ≤ 3 → Valid.IsValid (table used mode).mp
pool-IsValid used mode h = record {
  size_pos = omega arith;
  room = omega arith;
  used_le = h;
  ptr_lt = λ i l. ground arith;
  idx_lt = λ j l. ground arith;
  idx_of_ptr = λ i l. ground arith;
  ptr_of_idx = λ j l. ground arith;
  index_self = λ j l. refl;
  data_at = λ j l. refl;
  data_cached = λ i l. refl;
  sem_free = omega arith;
}

table-IsValid : (used mode : ℕ) → used ≤ 3 → IsValid (table used mode)
unfolding keycmp memcmp_from
table-IsValid used mode h = record {
  pool = pool-IsValid used mode h;
  distinct = λ i j u w e. ground arith;
  counted = λ j u. ground arith;
  bounded = λ j u. ground arith;
  few = omega arith;
}

counts : (get_data_cnt (table 2 1) (all 2) ≡ pos 2) × (get_data_cnt (table 2 1) (all 3) ≡ em_error)
unfolding get_data_cnt count_of of_bits get_blockinfo search_from keycmp memcmp_from
counts = (refl, refl)

first_count : get_data_cnt (table 2 1) (all 1) ≡ pos 1
unfolding get_data_cnt count_of of_bits get_blockinfo search_from keycmp memcmp_from
first_count = refl

third_absent : (used : ℕ) → used ≡ 2 → get_data (table used 1) (all 3) (all 0) ≡ none
unfolding get_data copy_out get_data_ptr data_of get_blockinfo search_from keycmp memcmp_from
third_absent used h = rw h refl

full_absent : get_data (table 3 1) (all 4) (all 0) ≡ none
unfolding get_data copy_out get_data_ptr data_of get_blockinfo search_from keycmp memcmp_from
full_absent = refl

-- The key of the datum of block 0 is found at place 1.
found_at : get_key (table 2 1) (all 4096) ≡ some 1
unfolding get_key get_key_from memcmp_from
found_at = refl

add_data_new_example :
    let (ret, dm') = add_data (table 2 1) (all 3) (all 7) in
    (ret ≡ em_success)
    × IsValid dm'
    × (get_data dm' (all 3) (all 0) ≡ (
        if keycmp em_dmng_key_integer (all 3) (all 3) 2
        then some (memcpy (all 0) (all 7) 2)
        else get_data (table 2 1) (all 3) (all 0)))
    × (get_data_cnt dm' (all 3) ≡ (
        if keycmp em_dmng_key_integer (all 3) (all 3) 2
        then pos 1
        else get_data_cnt (table 2 1) (all 3)))
add_data_new_example =
    add_data_new (table 2 1) (all 3) (all 7) (all 3) (all 0) (table-IsValid 2 1 (omega arith))
      (third_absent 2 refl) (omega arith)

add_data_duplicate_example : add_data (table 2 1) (all 2) (all 7) ≡ (em_error, table 2 1)
add_data_duplicate_example =
    add_data_duplicate (table 2 1) (all 2) (all 7) 2 (table-IsValid 2 1 (omega arith)) counts.0
      (omega arith) (omega arith)

counts_in_mode : (mode : ℕ) → get_data_cnt (table 2 mode) (all 2) ≡ pos 2
unfolding get_data_cnt count_of of_bits get_blockinfo search_from keycmp memcmp_from
counts_in_mode mode = refl

add_data_update_example :
    let (ret, dm') = add_data (table 2 2) (all 2) (all 7) in
    (ret ≡ em_success)
    × IsValid dm'
    × (get_data dm' (all 2) (all 0) ≡ (
        if keycmp em_dmng_key_integer (all 2) (all 2) 2
        then some (memcpy (all 0) (all 7) 2)
        else get_data (table 2 2) (all 2) (all 0)))
    × (get_data_cnt dm' (all 2) ≡ get_data_cnt (table 2 2) (all 2))
add_data_update_example =
    add_data_update (table 2 2) (all 2) (all 7) (all 2) (all 0) 2 (table-IsValid 2 2 (omega arith))
      (counts_in_mode 2) refl

remove_data_last_example :
    let (ret, dm') = remove_data (table 2 1) (all 1) in
    (ret ≡ em_success)
    × IsValid dm'
    × (dm'.mp.num_used + 1 ≡ 2)
    × (get_data dm' (all 2) (all 0) ≡ (
        if keycmp em_dmng_key_integer (all 1) (all 2) 2
        then none
        else get_data (table 2 1) (all 2) (all 0)))
    × (get_data_cnt dm' (all 2) ≡ (
        if keycmp em_dmng_key_integer (all 1) (all 2) 2
        then em_error
        else get_data_cnt (table 2 1) (all 2)))
remove_data_last_example =
    remove_data_last (table 2 1) (all 1) (all 2) (all 0) (table-IsValid 2 1 (omega arith))
      first_count

get_key_example :
    ((get_key (table 2 1) (all 4096) ≡ none)
      × (get_key_by_func (table 2 1) (all 4096) (same_block (table 2 1)) ≡ none))
    ⊎ ((p : ℕ) × (get_key (table 2 1) (all 4096) ≡ some p)
        × (get_key_by_func (table 2 1) (all 4096) (same_block (table 2 1)) ≡ some (swapped p))
        × IsUsed (table 2 1).mp (swapped p)
        × (same_block (table 2 1) (stored (table 2 1) (swapped p)) (all 4096) ≡ true))
get_key_example = get_key_lem (table 2 1) (all 4096) (table-IsValid 2 1 (omega arith))

-- An allocator that goes up through its memory.
abbrev bump : ℕ → ℕ → ℕ × ℕ
bump size next = (next, next + size)
