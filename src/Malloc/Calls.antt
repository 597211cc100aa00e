-- ===== src/Malloc/Calls.antt =====
-- em_malloc and em_free of src/em_malloc.c. A search from the last free record finds the region; a
-- region that is freed is merged with the free regions beside it.
use Prim.Native.Nat.{bit_and}
use embedded_middle.Prelude.{
  ℕ, zero, suc, ◌+◌, ◌-◌, ◌/◌, ◌%◌, ◌^◌, true, false, Option, none, some, ℤ, negsuc, ◌==◌,
  if◌then◌else◌, update, u32_mod, add32, mul32, em_success, em_error, em_err_param,
}
use embedded_middle.Mempool.{Mpool, try_alloc_block, free_at}
use embedded_middle.Prelude.Int.{leb_int}
use embedded_middle.Malloc.{Meminfo, Memmng}

-- `blength`: the size in units, rounded up, as the bit pattern of an `int`.
unfoldable pub block_length : Memmng → ℕ → ℕ
block_length mm size =
    if mm.is_bshiftable
    then (let blength = (size / 2 ^ mm.mem_unit_bshift) % u32_mod in
        if bit_and size (mm.mem_unit_size - 1) == 0 then blength else add32 blength 1)
    else (let blength = (size / mm.mem_unit_size) % u32_mod in
        if size % mm.mem_unit_size == 0 then blength else add32 blength 1)

-- `for (int i = num_used - 1; i >= 0; i--)`, with `i + 1` rounds left.
pub find_free : Memmng → ℕ → ℕ → Option ℕ
find_free mm blength zero = none
find_free mm blength (suc i) =
    let meminfo_free = (mm.mp_free.block (mm.mp_free.block_ptr i)).data_ptr in
    let rest = find_free mm blength i in
    if leb_int blength (mm.info meminfo_free).mem_length then some meminfo_free else rest

-- `p->next_meminfo = v` and `p->back_meminfo = v`.
abbrev set_next : (ℕ → Meminfo) → ℕ → ℕ → ℕ → Meminfo
set_next info p v = update info p (record (info p) { next_meminfo = v })

abbrev set_back : (ℕ → Meminfo) → ℕ → ℕ → ℕ → Meminfo
set_back info p v = update info p (record (info p) { back_meminfo = v })

-- The address of a unit. The offset is an `int`.
unfoldable pub unit_address : Memmng → ℕ → ℕ
unit_address mm mem_index =
    if mm.is_bshiftable
    then mm.memory + mul32 mem_index (2 ^ mm.mem_unit_bshift)
    else mm.memory + mul32 mem_index mm.mem_unit_size

-- The new record takes the region of `meminfo_free`, or its first units. When it takes the whole, the
-- record behind it keeps its `back_meminfo`.
take_region : Memmng → ℕ → ℕ → ℕ → Memmng
take_region mm blength meminfo_free meminfo_new =
    let m = mm.info meminfo_free in
    let info₁ = update mm.info meminfo_new (record (mm.info meminfo_new) {
      mem_index = m.mem_index;
      mem_length = blength;
      back_meminfo = m.back_meminfo;
      is_used = true;
    }) in
    let info₂ = set_next info₁ m.back_meminfo meminfo_new in
    if (info₂ meminfo_free).mem_length == blength
    then record mm {
      info = set_next info₂ meminfo_new (info₂ meminfo_free).next_meminfo;
      mp_free = (free_at mm.mp_free meminfo_free).1;
    }
    else (let info₃ = set_next info₂ meminfo_new meminfo_free in
        let f = info₃ meminfo_free in
        record mm {
          info = update info₃ meminfo_free (record f {
            mem_index = f.mem_index + blength;
            mem_length = f.mem_length - blength;
            back_meminfo = meminfo_new;
          });
        })

-- By the answer of `mp_used`; the units have been counted already.
unfoldable pub malloc_found : Memmng → ℕ → ℕ → Option ℕ × Mpool → ℤ × ℕ × Memmng
unfolding take_region unit_address
malloc_found mm blength meminfo_free (none, mp) = (em_error, 0, record mm { mp_used = mp })
malloc_found mm blength meminfo_free (some meminfo_new, mp) =
    let mm₁ = take_region (record mm { mp_used = mp }) blength meminfo_free meminfo_new in
    let mem_index = (mm₁.info meminfo_new).mem_index in
    (
      em_success,
      unit_address mm₁ mem_index,
      record mm₁ { minfo_ptr = update mm₁.minfo_ptr mem_index meminfo_new },
    )

unfoldable pub malloc_searched : Memmng → ℕ → Option ℕ → ℤ × ℕ × Memmng
unfolding malloc_found
malloc_searched mm blength none = (negsuc 1, 0, mm)
malloc_searched mm blength (some meminfo_free) =
    malloc_found (record mm { mem_used_bsize = mm.mem_used_bsize + blength }) blength meminfo_free
      (try_alloc_block mm.mp_used)

-- `_em_malloc`, with the pointer that it stores; 0 is NULL.
unfoldable pub malloc_locked : Memmng → ℕ → ℤ × ℕ × Memmng
unfolding malloc_searched find_free block_length
malloc_locked mm size =
    if size == 0
    then (em_err_param, 0, mm)
    else malloc_searched mm (block_length mm size)
        (find_free mm (block_length mm size) mm.mp_free.num_used)

unfoldable pub malloc : Memmng → ℕ → ℕ × Memmng
malloc mm size = let (ret, mem, mm') = malloc_locked mm size in (mem, mm')

-- The record that a freed region gets between two used ones, once it has been allocated. Where the
-- pool has none the code uses a pointer that was never set; there the model changes nothing.
free_between : Memmng → ℕ → Option ℕ × Mpool → Memmng
free_between mm meminfo_del (none, mp) = record mm { mp_free = mp }
free_between mm meminfo_del (some new_meminfo, mp) =
    let m = mm.info meminfo_del in
    let info₁ = update mm.info new_meminfo (record m { is_used = false }) in
    record mm {
      mp_free = mp;
      info = set_back (set_next info₁ m.back_meminfo new_meminfo) m.next_meminfo new_meminfo;
    }

-- Into the free region behind it.
free_into_next : Memmng → ℕ → Memmng
free_into_next mm meminfo_del =
    let m = mm.info meminfo_del in
    let n = mm.info m.next_meminfo in
    let info₁ =
      update mm.info m.next_meminfo
        (record n { mem_index = m.mem_index; mem_length = n.mem_length + m.mem_length }) in
    record mm {
      info = set_back (set_next info₁ m.back_meminfo m.next_meminfo) m.next_meminfo m.back_meminfo;
    }

-- Into the free region before it.
free_into_back : Memmng → ℕ → Memmng
free_into_back mm meminfo_del =
    let m = mm.info meminfo_del in
    let b = mm.info m.back_meminfo in
    let info₁ =
      update mm.info m.back_meminfo (record b { mem_length = b.mem_length + m.mem_length }) in
    record mm {
      info = set_back (set_next info₁ m.back_meminfo m.next_meminfo) m.next_meminfo m.back_meminfo;
    }

-- Into the free region before it, and the free region behind it too.
free_into_both : Memmng → ℕ → Memmng
free_into_both mm meminfo_del =
    let m = mm.info meminfo_del in
    let b = mm.info m.back_meminfo in
    let info₁ =
      update mm.info m.back_meminfo (record b { mem_length = b.mem_length + m.mem_length }) in
    let b₁ = info₁ m.back_meminfo in
    let info₂ =
      update info₁ m.back_meminfo
        (record b₁ { mem_length = b₁.mem_length + (info₁ m.next_meminfo).mem_length }) in
    let info₃ = set_next info₂ m.back_meminfo (info₂ m.next_meminfo).next_meminfo in
    record mm {
      info = set_back info₃ (info₃ m.next_meminfo).next_meminfo m.back_meminfo;
      mp_free = (free_at mm.mp_free m.next_meminfo).1;
    }

free_region : Memmng → ℕ → Memmng
unfolding free_between free_into_next free_into_back free_into_both
free_region mm meminfo_del =
    let m = mm.info meminfo_del in
    if (mm.info m.back_meminfo).is_used
    then (if (mm.info m.next_meminfo).is_used
        then free_between mm meminfo_del (try_alloc_block mm.mp_free)
        else free_into_next mm meminfo_del)
    else (if (mm.info m.next_meminfo).is_used
        then free_into_back mm meminfo_del
        else free_into_both mm meminfo_del)

-- The number of the unit at `addr`, which is not before the memory, as the bit pattern of an `int`.
unfoldable pub unit_index : Memmng → ℕ → ℕ
unit_index mm addr =
    if mm.is_bshiftable
    then ((addr - mm.memory) / 2 ^ mm.mem_unit_bshift) % u32_mod
    else ((addr - mm.memory) / mm.mem_unit_size) % u32_mod

-- `em_free`. The broadcast that follows wakes the tasks that wait in em_trymalloc.
unfoldable pub free : Memmng → ℕ → Memmng
unfolding free_region unit_index
free mm addr =
    let meminfo_del = mm.minfo_ptr (unit_index mm addr) in
    let mm₁ = free_region mm meminfo_del in
    record mm₁ {
      mp_used = (free_at mm₁.mp_used meminfo_del).1;
      mem_used_bsize = mm₁.mem_used_bsize - (mm₁.info meminfo_del).mem_length;
    }
