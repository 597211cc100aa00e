-- ===== src/Oalloc.antt =====
-- src/em_oalloc.c: an allocator that only moves forward through its memory. An `int` is kept as its
-- bit pattern of 32 bits, a `size_t` and a pointer are below `2 ^ 64`.
pub mod Count
pub mod Blocks
mod Examples
use embedded_middle.Prelude.{
  ℕ, ◌+◌, ◌-◌, ◌*◌, ◌/◌, ◌%◌, ◌^◌, Bool, true, false, Option, none, some, List, [], ◌∷◌, ℤ, ltb,
  leb, if◌then◌else◌, u32_mod, add32, sub32, mul32, em_success,
}
use embedded_middle.Prelude.Int.{sign_extend, leb_int}

-- `em_omemmng_t`.
pub record Omemmng : Type 0 where
  pub is_malloc : Bool
  pub mem_unit_size : ℕ
  pub mem_total_bnum : ℕ
  pub next_alloc_index : ℕ
  pub memory : ℕ

abbrev pub u64_mod : ℕ
u64_mod = 2 ^ 64

-- `memory` is `none` for NULL; `alloc_func` takes a size and the heap, and returns an address and
-- the heap. The two sizes are not negative.
pub create : {H : Type 0} → (ℕ → H → ℕ × H) → ℕ → ℕ → Option ℕ → H → ℤ × Omemmng × H
create alloc_func mem_total_size mem_unit_size (some memory) h = (
  em_success,
  record {
    is_malloc = false;
    mem_unit_size = mem_unit_size;
    mem_total_bnum = mem_total_size / mem_unit_size;
    next_alloc_index = 0;
    memory = memory;
  },
  h,
)
create alloc_func mem_total_size mem_unit_size none h =
    let (memory, h') = alloc_func mem_total_size h in
    (
      em_success,
      record {
        is_malloc = true;
        mem_unit_size = mem_unit_size;
        mem_total_bnum = mem_total_size / mem_unit_size;
        next_alloc_index = 0;
        memory = memory;
      },
      h',
    )

-- The addresses passed to `free_func`.
pub delete : Omemmng → ℤ × List ℕ
delete mm = (em_success, if mm.is_malloc then mm.memory ∷ [] else [])

-- `blength`: the size in units, rounded up.
pub unit_count : ℕ → ℕ → ℕ
unfolding sign_extend
unit_count mem_unit_size size =
    let blength = (size / sign_extend mem_unit_size) % u32_mod in
    if ltb 0 ((size + u64_mod - sign_extend (mul32 blength mem_unit_size)) % u64_mod)
    then add32 blength 1
    else blength

-- `none` is NULL.
pub oalloc : Omemmng → ℕ → Option ℕ × Omemmng
unfolding unit_count sign_extend leb_int
oalloc mm size =
    let blength = unit_count mm.mem_unit_size size in
    if leb_int blength (sub32 mm.mem_total_bnum mm.next_alloc_index)
    then (
      some ((mm.memory + sign_extend (mul32 mm.next_alloc_index mm.mem_unit_size)) % u64_mod),
      record mm { next_alloc_index = add32 mm.next_alloc_index blength },
    )
    else (none, mm)
