-- ===== src/Malloc/Started.antt =====
-- A memory manager that em_memmng_create of src/em_malloc.c has just made.
use embedded_middle.Prelude.{
  ℕ, ◌*◌, ◌<◌, ◌≡◌, ◌↔◌, refl, ap, inl, inr, ◌∙◌, arith, false, Option, none, some, u32_mod,
  em_success, eq→==,
}
use embedded_middle.Mempool.{Mpool, try_alloc_block}
use embedded_middle.Mempool.Valid.{IsValid, IsUsed, create-IsValid, create_with_mem2-IsValid}
use embedded_middle.Mempool.Blocks.{address, try_alloc_block_lem}
use embedded_middle.Malloc.{
  Memmng, sizeof_meminfo, set_sizes, place_memory, allocate_memory, link_initial, created, create,
}

-- A pool of `num` blocks, none of them in use.
abbrev pub IsEmptyPool : Mpool → ℕ → Type 0
IsEmptyPool mp num = IsValid mp × (mp.num_max ≡ num) × ((j : ℕ) → ¬ IsUsed mp j)

-- No unit is in use, and one free region has all `num` units.
pub record IsFresh (unit num max : ℕ) (mm : Memmng) : Type 0 where
  pub unit_size : mm.mem_unit_size ≡ unit
  pub total : mm.mem_total_bnum ≡ num
  pub unused : mm.mem_used_bsize ≡ 0
  pub used_none : IsEmptyPool mm.mp_used max
  pub free_valid : IsValid mm.mp_free
  pub free_max : mm.mp_free.num_max ≡ max
  pub initial : ℕ
  pub free_one : (k : ℕ) → IsUsed mm.mp_free k ↔ (k ≡ initial)
  pub region : mm.info (address mm.mp_free initial) ≡ record {
    mem_index = 0;
    mem_length = num;
    is_used = false;
    next_meminfo = mm.last_at;
    back_meminfo = mm.first_at;
  }

-- Memory that is passed is not at NULL.
abbrev pub IsGiven : Option ℕ → Type 0
IsGiven memory = (p : ℕ) → memory ≡ some p → 0 < p

block_left : {mp : Mpool} {max : ℕ} → 0 < max → IsEmptyPool mp max → mp.num_used ≡ mp.num_max → ⊥
block_left {mp} more (v, m, free) e =
    free (mp.block_ptr 0) (ground (arith, more, m, e, v.used_le, v.ptr_lt 0, v.idx_of_ptr 0))

linked :
    (mm : Memmng) (max : ℕ)
    → 0 < max
    → mm.mem_used_bsize ≡ 0
    → IsEmptyPool mm.mp_used max
    → IsEmptyPool mm.mp_free max
    → (made : Memmng) × (link_initial mm (try_alloc_block mm.mp_free) ≡ some made)
      × IsFresh mm.mem_unit_size mm.mem_total_bnum max made
unfolding link_initial
linked mm max more none_used used free = elim (try_alloc_block_lem free.0) [
  | inr (e, _) ↦ absurd (block_left more free e)
  | inl (j, mp', e, t) ↦ rw e (
    _,
    refl,
    record {
      unit_size = refl;
      total = refl;
      unused = none_used;
      used_none = used;
      free_valid = t.valid;
      free_max = t.place.same_max ∙ free.1;
      initial = j;
      free_one = λ k. (
        λ u. elim ((t.now_used k).0 u) [ inl u' ↦ absurd (free.2 k u') | inr same ↦ same ],
        λ same. (t.now_used k).1 (inr same),
      );
      region =
          rw
            (
              t.place.same_raw,
              t.place.same_size,
              eq→== (address mm.mp_free j) (address mm.mp_free j) refl,
            )
            refl;
    },
  )
]

-- With memory that is not at NULL or from `malloc`, and with room for at least one record,
-- em_memmng_create makes a manager of one free region.
pub create-IsFresh :
    {H : Type 0} (alloc_func : ℕ → H → ℕ × H) (mm : Memmng) (unit num max : ℕ) (memory : Option ℕ)
    (h : H)
    → 0 < max
    → sizeof_meminfo * max < u32_mod
    → IsGiven memory
    → (made : Memmng) × (h' : H) × (create alloc_func mm unit num max memory h
        ≡ some (em_success, made, h'))
      × IsFresh unit num max made
unfolding create created place_memory allocate_memory set_sizes
create-IsFresh alloc_func mm unit num max none h more fits given =
    let m = (allocate_memory alloc_func (set_sizes mm unit num) max h).0 in
    let used = create-IsValid alloc_func mm.mp_used sizeof_meminfo max h (omega arith) more fits in
    let free = create-IsValid alloc_func mm.mp_free sizeof_meminfo max _ (omega arith) more fits in
    let (made, e, fresh) =
      linked m max more refl (used.1, used.2, used.3) (free.1, free.2, free.3) in
    (made, _, ap (created _) e, fresh)
create-IsFresh alloc_func mm unit num max (some p) h more fits given =
    let m = place_memory (set_sizes mm unit num) max p in
    let pos = given p refl in
    let used =
      create_with_mem2-IsValid mm.mp_used sizeof_meminfo max p (omega arith) more pos fits in
    let free =
      create_with_mem2-IsValid mm.mp_free sizeof_meminfo max _ (omega arith) more
        (omega (arith, pos)) fits in
    let (made, e, fresh) =
      linked m max more refl (used.1, used.2, used.3) (free.1, free.2, free.3) in
    (made, _, ap (created h) e, fresh)
