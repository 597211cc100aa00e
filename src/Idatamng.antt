-- ===== src/Idatamng.antt =====
-- src/em_idatamng.c: the data manager with keys of type `ulong`.
pub mod Ids
mod Examples
use embedded_middle.Prelude.{
  ℕ, zero, suc, ◌+◌, ◌-◌, ◌*◌, ◌/◌, ◌%◌, ◌^◌, Bool, Option, none, some, ℤ,
}
use embedded_middle.Bytes.{Bytes}
use embedded_middle.Gdatamng.{Datamng, em_dmng_key_integer}
use embedded_middle.Gdatamng

-- The bytes of a `ulong` in memory, the lowest first, and the number of `n` bytes.
unfoldable pub key_of : ℕ → Bytes
key_of id zero = id % 256
key_of id (suc i) = key_of (id / 256) i

unfoldable pub of_key : ℕ → Bytes → ℕ
of_key zero bytes = 0
of_key (suc n) bytes = bytes 0 + 256 * of_key n (λ i. bytes (i + 1))

abbrev pub sizeof_ulong : ℕ
sizeof_ulong = 8

abbrev pub em_datamng_invalid_id : ℕ
em_datamng_invalid_id = 2 ^ 64 - 1

unfoldable pub create : {H : Type 0} → (ℕ → H → ℕ × H) → Datamng → ℕ → ℕ → ℕ → H → ℤ × Datamng × H
create alloc_func dm data_size data_num duplicate_mode h =
    Gdatamng.create alloc_func dm data_size data_num em_dmng_key_integer sizeof_ulong duplicate_mode
      h

pub add_data : Datamng → ℕ → Bytes → ℤ × Datamng
add_data dm id bytes = Gdatamng.add_data dm (key_of id) bytes

pub get_data_ptr : Datamng → ℕ → Option ℕ
get_data_ptr dm id = Gdatamng.get_data_ptr dm (key_of id)

unfoldable pub get_data : Datamng → ℕ → Bytes → Option Bytes
get_data dm id bytes = Gdatamng.get_data dm (key_of id) bytes

pub get_data_cnt : Datamng → ℕ → ℤ
get_data_cnt dm id = Gdatamng.get_data_cnt dm (key_of id)

pub remove_data : Datamng → ℕ → ℤ × Datamng
remove_data dm id = Gdatamng.remove_data dm (key_of id)

-- The `ulong` of a key, by the number of its entry.
unfoldable pub id_of : Datamng → Option ℕ → ℕ
unfolding of_key
id_of dm none = em_datamng_invalid_id
id_of dm (some i) = of_key sizeof_ulong (dm.key i)

pub get_id : Datamng → Bytes → ℕ
unfolding id_of
get_id dm searchdata = id_of dm (Gdatamng.get_key dm searchdata)

unfoldable pub get_id_by_func : Datamng → Bytes → (Bytes → Bytes → Bool) → ℕ
unfolding id_of
get_id_by_func dm searchdata comparator =
    id_of dm (Gdatamng.get_key_by_func dm searchdata comparator)

pub get_data_by_func : Datamng → Bytes → (Bytes → Bytes → Bool) → Bytes → Option Bytes
get_data_by_func dm searchdata comparator bytes =
    Gdatamng.get_data_by_func dm searchdata comparator bytes
