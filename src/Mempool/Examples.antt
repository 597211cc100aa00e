-- ===== src/Mempool/Examples.antt =====
-- Tests of em_mempool.c, and the theorems about it at a pool of three blocks of four bytes.
use embedded_middle.Prelude.{
  ℕ, ◌+◌, ◌*◌, ◌≤◌, ◌≡◌, refl, ◌⊎◌, inl, inr, List, false, none, some, [], ◌∷◌, arith, em_success,
  em_error, em_no_wait, em_no_timeout,
}
use embedded_middle.Mempool.{
  Mpool, init_block, init_blocks, create_with_mem, create_with_mem2, calc_memsize, sizeof_ptr,
  sizeof_blkinfo, alloc_block, try_alloc_block, is_inside, free_at, free_block_by_dataidx,
  get_dataptr, get_dataidx_array,
}
use embedded_middle.Mempool.Valid.{IsValid, IsUsed, create_with_mem-IsValid}
use embedded_middle.Mempool.Blocks.{
  Takes, Returns, address, alloc_block_lem, free_block_by_dataidx_lem, get_dataptr_disjoint,
}
use embedded_middle.Mempool.Layout.{create_with_mem2_layout}
use embedded_middle.Mempool.History.{
  Call, allocs, frees, frees_by_dataidx, run, IsInsideAll, run-IsValid,
}

abbrev blank : Mpool
blank = record {
  block_size = 0;
  num_max = 0;
  num_used = 0;
  block_ptr = λ i. 0;
  block = λ i. record { index = 0; index_ptr = 0; data_ptr = 0 };
  data_ptr = λ i. 0;
  block_ptr_at = 0;
  block_at = 0;
  data_ptr_at = 0;
  rawdata = 0;
  sem = 0;
  has_free_func = false;
}

abbrev fresh : Mpool
fresh = create_with_mem blank 4 3 1000 2000 3000 4096

-- Blocks 0 and 1 are in use.
abbrev one_used : Mpool
one_used = (try_alloc_block fresh).1

abbrev two_used : Mpool
two_used = (try_alloc_block one_used).1

fresh-IsValid : IsValid fresh
fresh-IsValid =
    (create_with_mem-IsValid blank 4 3 1000 2000 3000 4096 (omega arith) (omega arith)).0

try-IsValid : (mp : Mpool) → IsValid mp → IsValid (try_alloc_block mp).1
unfolding try_alloc_block
try-IsValid mp v = elim (alloc_block_lem em_no_wait v) [
  | inl (_, _, e, t) ↦ rw (try_alloc_block, e) t.valid
  | inr (_, e) ↦ rw (try_alloc_block, e) v
]

two_used-IsValid : IsValid two_used
two_used-IsValid = try-IsValid one_used (try-IsValid fresh fresh-IsValid)

addresses :
    (get_dataptr two_used 0 ≡ some 4096)
    × (get_dataptr two_used 1 ≡ some 4100)
    × (get_dataptr two_used 2 ≡ none)
unfolding try_alloc_block alloc_block create_with_mem init_blocks init_block get_dataptr
addresses = (refl, refl, refl)

-- After the first block has been freed the second stands first in the list.
reordered : get_dataidx_array (free_at two_used 4096).1 5 ≡ (1, 1 ∷ [])
unfolding try_alloc_block alloc_block create_with_mem init_blocks init_block get_dataidx_array
    free_at
reordered = refl

-- A block that is in use, bytes of the one behind it, and the first block again.
abbrev calls : List Call
calls = frees 4096 ∷ frees 4102 ∷ frees_by_dataidx 9 ∷ frees 4096 ∷ allocs em_no_wait ∷ []

calls_inside : IsInsideAll two_used calls
unfolding is_inside try_alloc_block alloc_block create_with_mem init_blocks init_block
calls_inside = (refl, (refl, (refl, tt)))

run-IsValid_example : (mp' : Mpool) × (run two_used calls ≡ some mp') × IsValid mp'
run-IsValid_example = run-IsValid calls calls_inside two_used-IsValid

alloc_block_example :
    ((j : ℕ) × (mp' : Mpool) × (alloc_block two_used em_no_timeout
        ≡ some (some (address two_used j), mp'))
      × Takes two_used mp' j)
    ⊎ ((two_used.num_used ≡ two_used.num_max) × (alloc_block two_used em_no_timeout ≡ none))
alloc_block_example = alloc_block_lem em_no_timeout two_used-IsValid

free_block_by_dataidx_example :
    ((mp' : Mpool) × (free_block_by_dataidx two_used 1 ≡ (em_success, mp'))
      × Returns two_used mp' 1)
    ⊎ ((¬ IsUsed two_used 1) × (free_block_by_dataidx two_used 1 ≡ (em_error, two_used)))
free_block_by_dataidx_example = free_block_by_dataidx_lem 1 two_used-IsValid

abbrev one_freed : Mpool
one_freed = (free_at two_used (address two_used 0)).1

get_dataptr_disjoint_example :
    (two_used.rawdata ≤ 4096)
    × (4096 + two_used.block_size ≤ two_used.rawdata + two_used.block_size * two_used.num_max)
    × ((4096 + two_used.block_size ≤ 4100) ⊎ (4100 + two_used.block_size ≤ 4096))
get_dataptr_disjoint_example =
    get_dataptr_disjoint 0 1 4096 4100 two_used-IsValid (omega arith) addresses.0 addresses.1

create_with_mem2_layout_example :
    let (ret, mp') = create_with_mem2 blank 4 3 4096 in
    (ret ≡ em_success)
    × (mp'.data_ptr_at ≡ 4096)
    × (mp'.data_ptr_at + sizeof_ptr * 3 ≡ mp'.block_ptr_at)
    × (mp'.block_ptr_at + sizeof_ptr * 3 ≡ mp'.block_at)
    × (mp'.block_at + sizeof_blkinfo * 3 ≡ mp'.rawdata)
    × (mp'.rawdata + mp'.block_size * mp'.num_max ≡ 4096 + calc_memsize 4 3)
create_with_mem2_layout_example =
    create_with_mem2_layout blank 4 3 4096 (omega arith) (omega arith) (omega arith) (omega arith)
