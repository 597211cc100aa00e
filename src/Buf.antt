-- ===== src/Buf.antt =====
-- src/em_buf.c: a byte buffer with a capacity. An `int` is kept as its bit pattern of 32 bits.
pub mod Append
mod Examples
use embedded_middle.Prelude.{
  ℕ, ◌+◌, ◌-◌, ◌%◌, ◌^◌, Bool, true, false, ◌&&◌, not, Option, none, some, List, [], ◌∷◌, ℤ, pos,
  negsuc, ltb, leb, if◌then◌else◌, update, u32_mod, add32, sub32, em_success, em_error,
}
use embedded_middle.Prelude.Int.{of_bits, sign_extend}
use embedded_middle.Bytes.{copy_at, Bytes}

-- `em_buf_t`: `data_ptr` is the pointer `data`, where `none` is NULL, and `bytes` are those that it
-- points to.
pub record Buf : Type 0 where
  pub buf_capacity : ℕ
  pub data_size : ℕ
  pub data_ptr : Option ℕ
  pub bytes : Bytes

-- `alloc_func` takes a size and the heap, and returns an address and the heap. `bytes` is what the
-- memory at that address holds.
unfoldable pub init : {H : Type 0} → (ℕ → H → ℕ × H) → ℕ → Bytes → H → ℤ × Buf × H
init alloc_func buf_capacity bytes h =
    let (p, h') = alloc_func (add32 buf_capacity 1) h in
    (
      em_success,
      record {
        buf_capacity = buf_capacity;
        data_size = 0;
        data_ptr = some p;
        bytes = update (update bytes 0 0) buf_capacity 0;
      },
      h',
    )

pub clear : Buf → ℤ × Buf
clear bf = (em_success, record bf { data_size = 0; bytes = update bf.bytes 0 0 })

-- The address passed to `free_func`.
pub destroy : Buf → ℤ × Option ℕ × Buf
destroy bf = (em_success, bf.data_ptr, record bf { data_ptr = none })

is_null : Option ℕ → Bool
is_null none = true
is_null (some p) = false

-- `none` is NULL for `bf`.
pub get_remain_size : Option Buf → ℤ
unfolding is_null of_bits
get_remain_size none = em_error
get_remain_size (some bf) =
    if is_null bf.data_ptr then em_error else of_bits (sub32 bf.buf_capacity bf.data_size)

-- `bf` is not NULL. An overflow returns -2.
pub append : Buf → Bytes → ℕ → ℤ × Buf
unfolding is_null sign_extend copy_at
append bf append_data length =
    if is_null bf.data_ptr
    then (em_error, bf)
    else (if ltb bf.buf_capacity (add32 bf.data_size length) then (negsuc 1, bf) else (
      em_success,
      record bf {
        bytes = copy_at bf.bytes bf.data_size append_data (sign_extend length);
        data_size = add32 bf.data_size length;
      },
    ))
