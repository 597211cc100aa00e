-- ===== src/Ring.antt =====
-- src/em_ringbuf.c: a ring of fixed-size blocks. A client asks for the block after the newest,
-- writes to it, and registers it. Where `num_max` is 0 and C divides by it, `n % 0` stands for
-- undefined behaviour.
pub mod Valid
pub mod Contents
pub mod Access
mod Examples
use embedded_middle.Prelude.{
  ℕ, zero, suc, ◌+◌, ◌-◌, ◌*◌, ◌%◌, ◌^◌, ◌||◌, Option, none, some, List, [], ◌∷◌, ℤ, ltb, leb, ◌==◌,
  if◌then◌else◌, update, add32, sub32, mul32, em_success, em_error,
}

-- `em_ring_t`. A block is known by its address.
pub record Ring : Type 0 where
  pub block_size : ℕ
  pub override_mode : ℕ
  pub num_max : ℕ
  pub num_used : ℕ
  pub head_ptr : ℕ
  pub tail_ptr : ℕ
  pub block_ptr : ℕ → ℕ
  pub block_ptr_at : ℕ
  pub rawdata : ℕ

abbrev pub em_ringbuf_error : ℕ
em_ringbuf_error = 1

abbrev pub em_ringbuf_update : ℕ
em_ringbuf_update = 2

-- `for (i = i; i < num_max; i++)`, with the rounds that are left.
fill_block_ptr : ℕ → ℕ → Ring → Ring
fill_block_ptr zero i rb = rb
fill_block_ptr (suc rounds) i rb =
    fill_block_ptr rounds (i + 1)
      (record rb { block_ptr = update rb.block_ptr i (rb.rawdata + mul32 rb.block_size i) })

-- `alloc_func` takes a size and the heap, and returns an address and the heap. What `block_ptr`
-- holds before the loop is given by `garbage`.
pub create : {H : Type 0} → (ℕ → H → ℕ × H) → (ℕ → ℕ) → ℕ → ℕ → ℕ → H → ℤ × Ring × H
unfolding fill_block_ptr
create alloc_func garbage block_size block_num override_mode h =
    let (rawdata, h₁) = alloc_func (mul32 block_size block_num) h in
    let (block_ptr, h₂) = alloc_func (8 * block_num) h₁ in
    (
      em_success,
      fill_block_ptr block_num 0 (record {
        block_size = block_size;
        override_mode = override_mode;
        num_max = block_num;
        num_used = 0;
        head_ptr = 0;
        tail_ptr = 0;
        block_ptr = garbage;
        block_ptr_at = block_ptr;
        rawdata = rawdata;
      }),
      h₂,
    )

-- The addresses passed to `free_func`, in order, and the ring after it.
pub destroy : Ring → ℤ × List ℕ × Ring
destroy rb =
    (em_success, rb.block_ptr_at ∷ rb.rawdata ∷ [], record rb { block_ptr_at = 0; rawdata = 0 })

unfoldable pub delete_taildata : Ring → ℕ → ℤ × Ring
delete_taildata rb del_num =
    if del_num == 0 || ltb rb.num_used del_num
    then (em_error, rb)
    else (let tail = add32 rb.tail_ptr del_num in
        (
          em_success,
          record rb {
            num_used = rb.num_used - del_num;
            tail_ptr = if leb rb.num_max tail then tail % rb.num_max else tail;
          },
        ))

-- `none` is NULL. In update mode a full ring gives up its oldest block first; in any other mode
-- than the two it only logs.
unfoldable pub get_dataptr_new : Ring → Option ℕ × Ring
unfolding delete_taildata
get_dataptr_new rb =
    if leb rb.num_max rb.num_used
    then (if rb.override_mode == em_ringbuf_error
        then (none, rb)
        else (if rb.override_mode == em_ringbuf_update
            then (some (rb.block_ptr rb.head_ptr), (delete_taildata rb 1).1)
            else (some (rb.block_ptr rb.head_ptr), rb)))
    else (some (rb.block_ptr rb.head_ptr), rb)

unfoldable pub add_newdata : Ring → ℤ × Ring
add_newdata rb =
    if leb rb.num_max rb.num_used
    then (em_error, rb)
    else (let head = add32 rb.head_ptr 1 in
        (
          em_success,
          record rb {
            num_used = add32 rb.num_used 1;
            head_ptr = if leb rb.num_max head then head % rb.num_max else head;
          },
        ))

-- The index is computed as a `uint` and stored in an `int`; `%=` with the `uint` `num_max` is
-- again unsigned.
unfoldable pub head_index : Ring → ℕ → ℕ
head_index rb offset =
    let idx = sub32 (sub32 rb.head_ptr 1) offset in
    if leb (2 ^ 31) idx then idx % rb.num_max else idx

unfoldable pub get_dataptr_head : Ring → ℕ → Option ℕ
get_dataptr_head rb offset =
    if ltb rb.num_used (add32 offset 1) then none else some (rb.block_ptr (head_index rb offset))

unfoldable pub tail_index : Ring → ℕ → ℕ
tail_index rb offset =
    let idx = add32 rb.tail_ptr offset in if leb rb.num_max idx then idx % rb.num_max else idx

unfoldable pub get_dataptr_tail : Ring → ℕ → Option ℕ
get_dataptr_tail rb offset =
    if ltb rb.num_used (add32 offset 1) then none else some (rb.block_ptr (tail_index rb offset))

register {ℓ} : {V : Type ℓ} → (ℕ → V) → V → Option ℕ × Ring → ℤ × Ring × (ℕ → V)
register mem x (none, rb) = (em_error, rb, mem)
register mem x (some a, rb) = let (ret, rb') = add_newdata rb in (ret, rb', update mem a x)

-- How a client adds a value: it asks for the next block, writes to it and registers it. `mem` is
-- the contents of each block by its address.
pub produce {ℓ} : {V : Type ℓ} → Ring → (ℕ → V) → V → ℤ × Ring × (ℕ → V)
unfolding register
produce rb mem x = register mem x (get_dataptr_new rb)
