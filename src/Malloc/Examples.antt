-- ===== src/Malloc/Examples.antt =====
-- Tests of em_malloc.c at a memory of three units of sixteen bytes.
use embedded_middle.Prelude.{
  arith, none, some, ◌⊎◌, ◌∷◌, [], pos, ℕ, ◌+◌, ◌-◌, ◌*◌, ◌≡◌, refl, true, false, ◌==◌,
  if◌then◌else◌, u32_mod, update, em_success,
}
use embedded_middle.Mempool.{Mpool, try_alloc_block, free_at, free_block_by_dataidx, get_dataidx}
use embedded_middle.Mempool
use embedded_middle.Prelude.Int.{leb_int, ◌+ℤ◌, ◌*ℤ◌, ◌-ℤ◌}
use embedded_middle.Oalloc.Count.{IsRounded}
use embedded_middle.Queue.Sample.{bump}
use embedded_middle.Malloc.{Memmng, sizeof_meminfo, link_initial, created, create}
use embedded_middle.Malloc.Units.{block_length_lem, unit_index-unit_address}
use embedded_middle.Time.{Timespec, timespec_sub, calc_timespec2ms, int_of_long, div_int}
use embedded_middle.Malloc.Tries.{Wakeup, frees, act, acts, passed_ms, try_loop, trymalloc}
use embedded_middle.Malloc.Waiting.{IsHad, trymalloc_returns, trymalloc_lem}
use embedded_middle.Malloc.Calls.{
  block_length, unit_index, unit_address, malloc, free, malloc_locked,
}

-- A pool of four records whose first `used` are in use.
abbrev pool : ℕ → ℕ → Mpool
pool at used = record {
  block_size = 32;
  num_max = 4;
  num_used = used;
  block_ptr = λ i. i;
  block = λ i. record { index = i; index_ptr = i; data_ptr = at + 32 * i };
  data_ptr = λ i. at + 32 * i;
  block_ptr_at = 1000;
  block_at = 2000;
  data_ptr_at = 3000;
  rawdata = at;
  sem = 4 - used;
  has_free_func = true;
}

-- One free region of three units, with its record at 5000.
abbrev fresh : Memmng
fresh = record {
  mem_total_size = 48;
  mem_unit_size = 16;
  mem_unit_bshift = 4;
  is_bshiftable = true;
  is_malloc = true;
  mem_total_bnum = 3;
  mem_used_bsize = 0;
  mp_used = pool 4000 0;
  mp_free = pool 5000 1;
  memory = 65536;
  minfo_at = 6000;
  minfo_ptr = λ i. 0;
  first_at = 100;
  last_at = 200;
  info = λ p.
      if p == 100
      then record {
        mem_index = u32_mod - 1;
        mem_length = 0;
        is_used = true;
        next_meminfo = 5000;
        back_meminfo = 0;
      }
      else (if p == 200
          then record {
            mem_index = u32_mod - 2;
            mem_length = 0;
            is_used = true;
            next_meminfo = 0;
            back_meminfo = 5000;
          }
          else record {
            mem_index = 0;
            mem_length = 3;
            is_used = false;
            next_meminfo = 200;
            back_meminfo = 100;
          });
}

-- Two regions of a unit each.
abbrev two : Memmng
two = (malloc (malloc fresh 16).1 9).1

two_regions :
    ((malloc fresh 16).0 ≡ 65536)
    × ((malloc (malloc fresh 16).1 9).0 ≡ 65552)
    × (two.mem_used_bsize ≡ 2)
unfolding malloc malloc_locked leb_int try_alloc_block free_at
two_regions = (refl, refl, refl)

-- The first is freed and its unit, which fits exactly, is handed out again; then the second is freed.
-- Two of the three units are free, and none can be had.
abbrev lost : Memmng
lost = free (malloc (free two 65536) 16).1 65552

units_lost :
    ((malloc (free two 65536) 16).0 ≡ 65536) × (lost.mem_used_bsize ≡ 1) × ((malloc lost 16).0 ≡ 0)
unfolding malloc malloc_locked free leb_int try_alloc_block free_at free_block_by_dataidx
    get_dataidx
units_lost = (refl, refl, refl)

-- All three units in use.
abbrev full : Memmng
full = (malloc fresh 48).1

abbrev at_ms : ℕ → Timespec
at_ms n = record { tv_sec = pos 0; tv_nsec = pos (n * 1000000) }

-- While it waits the memory is freed.
abbrev freed_then : Wakeup
freed_then = record { others = frees 65536 ∷ []; now = at_ms 5 }

abbrev in_vain : Wakeup
in_vain = record { others = []; now = at_ms 20 }

-- At the second attempt there is memory.
had_after :
    trymalloc full 16 (pos 10) (at_ms 0) (freed_then ∷ [])
    ≡ some (65536, (malloc (free full 65536) 16).1)
unfolding trymalloc try_loop acts act passed_ms timespec_sub calc_timespec2ms int_of_long div_int
    ◌+ℤ◌ ◌*ℤ◌ ◌-ℤ◌ malloc malloc_locked free leb_int try_alloc_block free_at free_block_by_dataidx
    get_dataidx
had_after = refl

trymalloc_returns_example :
    (result : ℕ × Memmng) × (trymalloc full 16 (pos 10) (at_ms 0) (in_vain ∷ []) ≡ some result)
unfolding passed_ms timespec_sub calc_timespec2ms int_of_long div_int ◌+ℤ◌ ◌*ℤ◌ ◌-ℤ◌
trymalloc_returns_example = trymalloc_returns full 16 (pos 10) (at_ms 0) [] in_vain [] refl

abbrev base : ℕ
base = 65536

trymalloc_lem_example :
    IsHad full 16 (freed_then ∷ []) base (malloc (free full base) 16).1 ⊎ (base ≡ 0)
trymalloc_lem_example =
    trymalloc_lem full 16 (pos 10) (at_ms 0) (freed_then ∷ []) 65536 (malloc (free full 65536) 16).1
      had_after

-- A manager of eight units of 48 bytes, which is no power of two, in memory of its own.
abbrev uneven : Memmng
uneven = record fresh {
  mem_total_size = 384;
  mem_unit_size = 48;
  mem_unit_bshift = 5;
  is_bshiftable = false;
  mem_total_bnum = 8;
  mp_used = (Mempool.create bump fresh.mp_used sizeof_meminfo 4 1000).1;
  mp_free = (try_alloc_block (Mempool.create bump fresh.mp_free sizeof_meminfo 4 1256).1).1;
  minfo_at = 1512;
  memory = 1576;
  info =
      update
        (update (update fresh.info 100 (record (fresh.info 100) { next_meminfo = 1384 })) 200
          (record (fresh.info 200) { back_meminfo = 1384 }))
        1384
        (record {
          mem_index = 0;
          mem_length = 8;
          is_used = false;
          next_meminfo = 200;
          back_meminfo = 100;
        });
}

uneven_made : create bump fresh 48 8 4 none 1000 ≡ some (em_success, uneven, 1960)
unfolding create created link_initial Mempool.create Mempool.create_with_mem Mempool.init_blocks
    Mempool.init_block try_alloc_block
uneven_made = refl

block_length_lem_example : IsRounded 48 100 (block_length uneven 100)
block_length_lem_example =
    block_length_lem bump fresh 48 8 4 none 1000 (omega arith) (omega arith) em_success uneven 1960
      uneven_made 100 (omega arith)

unit_index-unit_address_example :
    (unit_address uneven 5 ≡ uneven.memory + 5 * 48)
    × (unit_index uneven (unit_address uneven 5) ≡ 5)
unit_index-unit_address_example =
    unit_index-unit_address bump fresh 48 8 4 none 1000 (omega arith) (omega arith) em_success
      uneven 1960 uneven_made (omega arith) 5 (omega arith)
