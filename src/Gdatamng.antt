-- ===== src/Gdatamng.antt =====
-- src/em_gdatamng.c, and src/em_idatamng.c, which calls it with integer keys: a table of data by
-- key over a memory pool. The `keycnt` entry of a block has the block's number. The mutex is held
-- through each call, so a call is one step. `count` is the bit pattern of an `int`.
pub mod Find
pub mod Valid
pub mod Added
pub mod Changed
pub mod Removed
pub mod Reverse
pub mod ByFunc
pub mod History
mod Examples
use embedded_middle.Prelude.{
  ℕ, zero, suc, ◌+◌, ◌*◌, ◌^◌, Bool, Option, none, some, List, [], ◌∷◌, ◌++◌, ℤ, leb, ◌==◌,
  if◌then◌else◌, update, mul32, add32, sub32, ltb, em_success, em_error,
}
use embedded_middle.Prelude.Int.{of_bits, leb_int}
use embedded_middle.Bytes.{Bytes, memcpy, memcmp_from, strncmp_from}
use embedded_middle.Mempool.{Mpool, try_alloc_block, get_dataptr, free_block_by_dataidx}
use embedded_middle.Mempool

-- `em_datamng_t`. `key` and `count` are the two fields of `keycnt`, and `mem` the contents of the
-- pool's blocks by address.
pub record Datamng : Type 0 where
  pub mp : Mpool
  pub key : ℕ → Bytes
  pub count : ℕ → ℕ
  pub key_size : ℕ
  pub duplicate_mode : ℕ
  pub key_type : ℕ
  pub mem : ℕ → Bytes

abbrev pub em_dmng_key_integer : ℕ
em_dmng_key_integer = 1

abbrev pub em_dmng_key_string : ℕ
em_dmng_key_string = 2

abbrev pub em_dmng_dplct_error : ℕ
em_dmng_dplct_error = 1

abbrev pub em_dmng_dplct_update : ℕ
em_dmng_dplct_update = 2

abbrev pub em_dmng_dplct_countup : ℕ
em_dmng_dplct_countup = 3

-- `_em_gdatamng_keycmp(…) == 0`.
unfoldable pub keycmp : ℕ → Bytes → Bytes → ℕ → Bool
keycmp key_type s₁ s₂ n =
    if key_type == em_dmng_key_string then strncmp_from n 0 s₁ s₂ else memcmp_from n 0 s₁ s₂

-- The number of the `i`-th used block, by its record.
abbrev pub index_at : Datamng → ℕ → ℕ
index_at dm i = (dm.mp.block (dm.mp.block_ptr i)).index

-- The search loop from `i` on, with the rounds that are left; `result` is what it returns for the
-- place where it stops.
unfoldable pub search_from : Datamng → Bytes → (ℕ → ℕ) → ℕ → ℕ → Option ℕ
search_from dm key result zero i = none
search_from dm key result (suc rounds) i =
    let rest = search_from dm key result rounds (i + 1) in
    if keycmp dm.key_type (dm.key (index_at dm i)) key dm.key_size then some (result i) else rest

-- The number of a block as an `int`: `none` where it is negative, as -1 is.
unfoldable pub as_index : Option ℕ → Option ℕ
as_index none = none
as_index (some i) = if ltb i (2 ^ 31) then some i else none

-- `_em_gdatamng_get_dataidx`; `none` is a negative number, with which it is compared.
pub find_dataidx : Datamng → Bytes → Option ℕ
unfolding as_index
find_dataidx dm key = as_index (search_from dm key (index_at dm) dm.mp.num_used 0)

-- `_em_gdatamng_get_blockinfo`: a pointer to a block record is the block's number.
unfoldable pub get_blockinfo : Datamng → Bytes → Option ℕ
get_blockinfo dm key = search_from dm key dm.mp.block_ptr dm.mp.num_used 0

-- The pool's answer to the request for a block, and what is stored in a block that it gave.
add_new : Datamng → Bytes → Bytes → Option ℕ × Mpool → ℤ × Datamng
add_new dm key bytes (none, mp) = (em_error, record dm { mp = mp })
add_new dm key bytes (some new_data_ptr, mp) =
    let dataidx = Mempool.get_dataidx mp new_data_ptr in
    (
      em_success,
      record dm {
        mp = mp;
        key = update dm.key dataidx (memcpy (dm.key dataidx) key dm.key_size);
        count = update dm.count dataidx 1;
        mem = update dm.mem new_data_ptr (memcpy (dm.mem new_data_ptr) bytes mp.block_size);
      },
    )

-- `memcpy(dst, …)`. The call with NULL is undefined in C; `Valid` shows that it is not made.
overwrite : Datamng → Bytes → Option ℕ → Datamng
overwrite dm bytes none = dm
overwrite dm bytes (some dst) = record dm {
  mem = update dm.mem dst (memcpy (dm.mem dst) bytes dm.mp.block_size);
}

add_existing : Datamng → ℕ → Bytes → ℤ × Datamng
unfolding overwrite
add_existing dm exist_dataidx bytes =
    if dm.duplicate_mode == em_dmng_dplct_error
    then (em_error, dm)
    else (if dm.duplicate_mode == em_dmng_dplct_update
        then (em_success, overwrite dm bytes (get_dataptr dm.mp exist_dataidx))
        else (if dm.duplicate_mode == em_dmng_dplct_countup
            then (
              em_success,
              record dm {
                count = update dm.count exist_dataidx (add32 (dm.count exist_dataidx) 1);
              },
            )
            else (em_error, dm)))

add_found : Datamng → Bytes → Bytes → Option ℕ → ℤ × Datamng
unfolding add_new add_existing
add_found dm key bytes none = add_new dm key bytes (try_alloc_block dm.mp)
add_found dm key bytes (some exist_dataidx) = add_existing dm exist_dataidx bytes

pub add_data : Datamng → Bytes → Bytes → ℤ × Datamng
unfolding add_found
add_data dm key bytes = add_found dm key bytes (find_dataidx dm key)

-- A pointer to the data of a block, from the block that the search found; `none` is NULL.
unfoldable pub data_of : Datamng → Option ℕ → Option ℕ
data_of dm none = none
data_of dm (some b) = some (dm.mp.block b).data_ptr

unfoldable pub get_data_ptr : Datamng → Bytes → Option ℕ
unfolding data_of
get_data_ptr dm key = data_of dm (get_blockinfo dm key)

-- The block number, and the address of the data of a block by its number; -1 and NULL are `none`.
pub get_dataidx : Datamng → Bytes → Option ℕ
get_dataidx dm key = find_dataidx dm key

pub get_dataptr_by_dataidx : Datamng → ℕ → Option ℕ
get_dataptr_by_dataidx dm data_idx = get_dataptr dm.mp data_idx

-- The bytes at `data` after the call; `none` is the return value -1, and nothing is copied.
unfoldable pub copy_out : Datamng → Bytes → Option ℕ → Option Bytes
copy_out dm bytes none = none
copy_out dm bytes (some data_ptr) = some (memcpy bytes (dm.mem data_ptr) dm.mp.block_size)

unfoldable pub get_data : Datamng → Bytes → Bytes → Option Bytes
unfolding copy_out
get_data dm key bytes = copy_out dm bytes (get_data_ptr dm key)

count_of : Datamng → Option ℕ → ℤ
count_of dm none = em_error
count_of dm (some b) = of_bits (dm.count (dm.mp.block b).index)

pub get_data_cnt : Datamng → Bytes → ℤ
unfolding count_of
get_data_cnt dm key = count_of dm (get_blockinfo dm key)

remove_found : Datamng → Option ℕ → ℤ × Datamng
remove_found dm none = (em_error, dm)
remove_found dm (some b) =
    let dataidx = (dm.mp.block b).index in
    let left = sub32 (dm.count dataidx) 1 in
    let dm' = record dm { count = update dm.count dataidx left } in
    (
      em_success,
      if leb_int left 0 then record dm' { mp = (free_block_by_dataidx dm.mp dataidx).1 } else dm',
    )

pub remove_data : Datamng → Bytes → ℤ × Datamng
unfolding remove_found
remove_data dm key = remove_found dm (get_blockinfo dm key)

-- `em_gdatamng_get_key`: the entry that it returns is that of the place `i`. A key is known by the
-- number of its `keycnt` entry.
get_key_from : Datamng → Bytes → ℕ → ℕ → Option ℕ
get_key_from dm searchdata zero i = none
get_key_from dm searchdata (suc rounds) i =
    let rest = get_key_from dm searchdata rounds (i + 1) in
    if memcmp_from dm.mp.block_size 0 (dm.mem (dm.mp.block (dm.mp.block_ptr i)).data_ptr) searchdata
    then some i
    else rest

pub get_key : Datamng → Bytes → Option ℕ
unfolding get_key_from
get_key dm searchdata = get_key_from dm searchdata dm.mp.num_used 0

-- `_em_gdatamng_get_data_index_by_func`; `none` is -1.
index_by_func_from : Datamng → Bytes → (Bytes → Bytes → Bool) → ℕ → ℕ → Option ℕ
index_by_func_from dm searchdata comparator zero i = none
index_by_func_from dm searchdata comparator (suc rounds) i =
    let rest = index_by_func_from dm searchdata comparator rounds (i + 1) in
    if comparator (dm.mem (dm.mp.block (index_at dm i)).data_ptr) searchdata
    then some (index_at dm i)
    else rest

pub get_data_index_by_func : Datamng → Bytes → (Bytes → Bytes → Bool) → Option ℕ
unfolding index_by_func_from
get_data_index_by_func dm searchdata comparator =
    index_by_func_from dm searchdata comparator dm.mp.num_used 0

unfoldable pub get_key_by_func : Datamng → Bytes → (Bytes → Bytes → Bool) → Option ℕ
get_key_by_func dm searchdata comparator = get_data_index_by_func dm searchdata comparator

copy_indexed : Datamng → Bytes → Option ℕ → Option Bytes
copy_indexed dm bytes none = none
copy_indexed dm bytes (some i) =
    some (memcpy bytes (dm.mem (dm.mp.block i).data_ptr) dm.mp.block_size)

pub get_data_by_func : Datamng → Bytes → (Bytes → Bytes → Bool) → Bytes → Option Bytes
unfolding copy_indexed
get_data_by_func dm searchdata comparator bytes =
    copy_indexed dm bytes (get_data_index_by_func dm searchdata comparator)

pub get_data_num : Datamng → ℕ
get_data_num dm = dm.mp.num_used

-- The key by the number of its entry, and the address of the data; `dst` is not NULL.
pub get_keyval_by_idx : Datamng → ℕ → Option (ℕ × ℕ)
get_keyval_by_idx dm elem_idx =
    if leb dm.mp.num_used elem_idx
    then none
    else some (index_at dm elem_idx, (dm.mp.block (dm.mp.block_ptr elem_idx)).data_ptr)

-- The initialising loop sets each count; the key pointers are the numbers of the entries.
reset_counts : ℕ → ℕ → (ℕ → ℕ) → ℕ → ℕ
reset_counts zero i count = count
reset_counts (suc rounds) i count = reset_counts rounds (i + 1) (update count i 0)

-- `alloc_func` takes a size and the heap, and returns an address and the heap. `dm` and `mp` hold
-- what was in the memory before; the pool's own error is ignored.
unfoldable pub create :
    {H : Type 0} → (ℕ → H → ℕ × H) → Datamng → ℕ → ℕ → ℕ → ℕ → ℕ → H → ℤ × Datamng × H
unfolding reset_counts
create alloc_func dm data_size data_num key_type key_size duplicate_mode h =
    let (keycnt, h₁) = alloc_func (16 * data_num) h in
    let (keymem, h₂) = alloc_func (mul32 key_size data_num) h₁ in
    let (ret, mp, h₃) = Mempool.create alloc_func dm.mp data_size data_num h₂ in
    (
      em_success,
      record dm {
        mp = mp;
        count = reset_counts data_num 0 dm.count;
        key_size = key_size;
        duplicate_mode = duplicate_mode;
        key_type = key_type;
      },
      h₃,
    )

-- The addresses passed to `free_func`, in order, from those of `keycnt` and `keymem`.
pub destroy : Datamng → ℕ → ℕ → ℤ × List ℕ × Datamng
destroy dm keycnt keymem =
    let (ret, freed, mp) = Mempool.destroy dm.mp in
    (em_success, freed ++ (keycnt ∷ keymem ∷ []), record dm { mp = mp })
