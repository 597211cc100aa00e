-- ===== src/Mempool/Blocks.antt =====
-- What a client of em_mempool.c sees: a set of used blocks, without the order of `block_ptr`.

use embedded_middle.Prelude.{
  ℕ, ◌+◌, ◌-◌, ◌*◌, ◌≤◌, ◌<◌, ◌≡◌, ◌≢◌, refl, sym, ◌∙◌, ap, subst, ◌⊎◌, inl, inr, ◌↔◌, ltb, none,
  some, ℤ, arith, add32, em_success, em_error, em_no_wait, em_no_timeout, Bool-cases, mul-suc-le,
  if◌then◌else◌, ltb→lt, ltb→le,
}
use native.Mathlib.Decide.{dec_lt}
use native.Mathlib.Nat.{mul-div_cancel_left}
use embedded_middle.Prelude.Int.{eqb_ℤ}
use embedded_middle.Semaphore.{sem_wait}
use embedded_middle.Mempool.{
  Mpool, alloc_locked, alloc_block, try_alloc_block, get_dataidx, get_dataptr, swap_free,
  free_block_by_dataidx, free_at,
}
use embedded_middle.Mempool.Valid.{
  IsValid, IsUsed, num_max-lt, swapped, take-IsValid, swap_free-IsValid,
}

-- The pool's size and place.
pub record SamePlace (mp mp' : Mpool) : Type 0 where
  pub same_size : mp'.block_size ≡ mp.block_size
  pub same_max : mp'.num_max ≡ mp.num_max
  pub same_raw : mp'.rawdata ≡ mp.rawdata

-- `j` was free and is used now; nothing else has changed hands.
pub record Takes (mp mp' : Mpool) (j : ℕ) : Type 0 where
  pub valid : IsValid mp'
  pub place : SamePlace mp mp'
  pub was_free : ¬ IsUsed mp j
  pub in_pool : j < mp.num_max
  pub now_used : (k : ℕ) → IsUsed mp' k ↔ (IsUsed mp k ⊎ (k ≡ j))
  pub one_more : mp'.num_used ≡ mp.num_used + 1

-- `j` was used and is free now; nothing else has changed hands.
pub record Returns (mp mp' : Mpool) (j : ℕ) : Type 0 where
  pub valid : IsValid mp'
  pub place : SamePlace mp mp'
  pub was_used : IsUsed mp j
  pub still_used : (k : ℕ) → IsUsed mp' k ↔ (IsUsed mp k × (k ≢ j))
  pub one_less : mp'.num_used + 1 ≡ mp.num_used

-- The pool after a block has been taken.
abbrev pub taken : Mpool → Mpool
taken mp = record mp { sem = mp.sem - 1; num_used = add32 mp.num_used 1 }

-- The address of block `j`.
abbrev pub address : Mpool → ℕ → ℕ
address mp j = mp.rawdata + mp.block_size * j

module _ {mp : Mpool} (v : IsValid mp) where
  taken-Takes : 0 < mp.sem → Takes mp (taken mp) (mp.block_ptr mp.num_used)
  taken-Takes h = record {
    valid = take-IsValid v h;
    place = record { same_size = refl; same_max = refl; same_raw = refl };
    was_free = λ u. omega (arith, u, v.idx_of_ptr mp.num_used (omega (arith, v.sem_free)));
    in_pool = v.ptr_lt mp.num_used (omega (arith, v.sem_free));
    now_used = λ k. (
      λ u. ground (arith, v.ptr_of_idx k, v.used_le, num_max-lt v),
      λ u. ground (arith, v.idx_of_ptr mp.num_used, v.ptr_lt mp.num_used, v.sem_free, num_max-lt v),
    );
    one_more = omega (arith, v.sem_free, num_max-lt v);
  }

  alloc_locked-taken :
      0 < mp.sem
      → alloc_locked (record mp { sem = mp.sem - 1 })
        ≡ (some (address mp (mp.block_ptr mp.num_used)), taken mp)
  unfolding alloc_locked
  alloc_locked-taken h =
      ground (arith, v.data_at (mp.block_ptr mp.num_used), v.ptr_lt mp.num_used, v.sem_free)

-- `em_mpool_alloc_block` on a valid pool. With a free block, whatever the timeout, it hands out the
-- address of a block that was not in use, and only the use of that block has changed; with none it
-- fails and changes nothing, or waits for ever if it has no timeout.
pub alloc_block_lem :
    {mp : Mpool} (timeout_ms : ℤ)
    → IsValid mp
    → ((j : ℕ) × (mp' : Mpool) × (alloc_block mp timeout_ms ≡ some (some (address mp j), mp'))
        × Takes mp mp' j)
      ⊎ ((mp.num_used ≡ mp.num_max)
          × (alloc_block mp timeout_ms
              ≡ (if eqb_ℤ timeout_ms em_no_timeout then none else some (none, mp))))
unfolding alloc_block sem_wait
alloc_block_lem {mp} t v = elim (Bool-cases (ltb 0 mp.sem)) [
  | inl e ↦ inl (
    mp.block_ptr mp.num_used,
    taken mp,
    ground (arith, alloc_locked-taken v),
    taken-Takes v (ltb→lt _ _ e),
  )
  | inr e ↦ inr (omega (arith, ltb→le _ _ e, v.sem_free), ground arith)
]

-- With EM_NO_WAIT the call returns at once, and fails exactly when every block is in use.
pub try_alloc_block_lem :
    {mp : Mpool}
    → IsValid mp
    → ((j : ℕ) × (mp' : Mpool) × (try_alloc_block mp ≡ (some (address mp j), mp')) × Takes mp mp' j)
      ⊎ ((mp.num_used ≡ mp.num_max) × (try_alloc_block mp ≡ (none, mp)))
unfolding try_alloc_block
try_alloc_block_lem v = elim (alloc_block_lem em_no_wait v) [
  | inl (j, mp', e, t) ↦ inl (j, mp', rw (e, try_alloc_block), t)
  | inr (f, e) ↦ inr (f, rw (e, try_alloc_block))
]

module _ {mp : Mpool} (d : ℕ) (v : IsValid mp) (used : IsUsed mp d) where
  pub swap_free-Returns : Returns mp (swap_free mp d) d
  unfolding swap_free
  swap_free-Returns = record {
    valid = swap_free-IsValid d v used;
    place = record { same_size = refl; same_max = refl; same_raw = refl };
    was_used = used;
    still_used = λ k. (
      λ u. ground (arith, swapped d v used, v.ptr_of_idx k, v.ptr_of_idx d),
      λ u. ground (arith, swapped d v used, v.ptr_of_idx k, v.ptr_of_idx d),
    );
    one_less = omega arith;
  }

-- `em_mpool_free_block_by_dataidx` succeeds exactly on a block in use: then only that block is
-- given back. On any other index, a block already free included, it fails and changes nothing.
pub free_block_by_dataidx_lem :
    {mp : Mpool} (data_idx : ℕ)
    → IsValid mp
    → ((mp' : Mpool) × (free_block_by_dataidx mp data_idx ≡ (em_success, mp'))
        × Returns mp mp' data_idx)
      ⊎ ((¬ IsUsed mp data_idx) × (free_block_by_dataidx mp data_idx ≡ (em_error, mp)))
unfolding free_block_by_dataidx
free_block_by_dataidx_lem {mp} d v = elim (dec_lt d mp.num_max) [
  | no out ↦ inr (λ u. out u.0, ground arith)
  | yes inside ↦ elim (dec_lt (mp.block d).index_ptr mp.num_used) [
    | no free ↦ inr (λ u. free u.1, ground arith)
    | yes used ↦ inl (swap_free mp d, ground arith, swap_free-Returns d v (inside, used))
  ]
]

-- The pointer that a pool gives for a block leads back to the number of the block.
pub get_dataidx-address :
    {mp : Mpool} (j : ℕ) → IsValid mp → j < mp.num_max → get_dataidx mp (address mp j) ≡ j
unfolding get_dataidx
get_dataidx-address {mp} j v h = ground (
  arith,
  mul-div_cancel_left j v.size_pos,
  num_max-lt v,
  (let e : address mp j - mp.rawdata ≡ mp.block_size * j = omega arith in e),
)

-- `em_mpool_get_dataptr` gives the address of a block in use, and NULL for any other index.
pub get_dataptr_lem :
    {mp : Mpool} (j : ℕ)
    → IsValid mp
    → (IsUsed mp j × (get_dataptr mp j ≡ some (address mp j)))
      ⊎ ((¬ IsUsed mp j) × (get_dataptr mp j ≡ none))
unfolding get_dataptr
get_dataptr_lem {mp} j v = elim (dec_lt j mp.num_max) [
  | no out ↦ inr (λ u. out u.0, ground arith)
  | yes inside ↦ elim (dec_lt (mp.block j).index_ptr mp.num_used) [
    | no free ↦ inr (λ u. free u.1, ground arith)
    | yes used ↦ inl ((inside, used), ground (arith, v.data_at j inside))
  ]
]

-- `em_mpool_free_block` on the address of a block is `em_mpool_free_block_by_dataidx` on its number.
pub free_at-address :
    {mp : Mpool} (j : ℕ)
    → IsValid mp
    → j < mp.num_max
    → free_at mp (address mp j) ≡ free_block_by_dataidx mp j
unfolding free_at
free_at-address {mp} j v h = ap (free_block_by_dataidx mp) (get_dataidx-address j v h)

unused_of_Returns : {mp mp' : Mpool} (j : ℕ) → Returns mp mp' j → ¬ IsUsed mp' j
unused_of_Returns j r u = ((r.still_used j).0 u).1 refl

free_unused :
    {mp : Mpool} (j : ℕ)
    → IsValid mp
    → j < mp.num_max
    → ¬ IsUsed mp j
    → (free_at mp (address mp j) ≡ (em_error, mp)) × (get_dataptr mp j ≡ none)
free_unused j v h n = (
  elim (free_block_by_dataidx_lem j v) [
    | inl (_, _, r) ↦ absurd (n r.was_used)
    | inr (_, e) ↦ free_at-address j v h ∙ e
  ],
  elim (get_dataptr_lem j v) [ inl (u, _) ↦ absurd (n u) | inr (_, e) ↦ e ],
)

-- A block cannot be freed twice: after `em_mpool_free_block` has taken a block back, the same
-- pointer is refused, and asking for its data gives NULL.
pub free_block_twice :
    {mp mp' : Mpool} (j : ℕ)
    → IsValid mp
    → j < mp.num_max
    → free_at mp (address mp j) ≡ (em_success, mp')
    → (free_at mp' (address mp j) ≡ (em_error, mp')) × (get_dataptr mp' j ≡ none)
free_block_twice {mp} {mp'} j v h e = elim (free_block_by_dataidx_lem j v) [
  | inl (m, e', r) ↦
      let same : m ≡ mp' = ap (λ p. p.1) (sym e' ∙ sym (free_at-address j v h) ∙ e) in
      let r' : Returns mp mp' j = subst (λ x. Returns mp x j) same r in
      let a : address mp' j ≡ address mp j = ground (arith, r'.place) in
      rw (← a) (free_unused j r'.valid (ground (arith, r'.place)) (unused_of_Returns j r'))
  | inr (_, e') ↦ ground (arith, free_at-address j v h, e')
]

-- The blocks that `em_mpool_get_dataptr` hands out lie inside the pool's memory, and those of two
-- indices do not overlap.
pub get_dataptr_disjoint :
    {mp : Mpool} (i j a b : ℕ)
    → IsValid mp
    → i ≢ j
    → get_dataptr mp i ≡ some a
    → get_dataptr mp j ≡ some b
    → (mp.rawdata ≤ a)
      × (a + mp.block_size ≤ mp.rawdata + mp.block_size * mp.num_max)
      × ((a + mp.block_size ≤ b) ⊎ (b + mp.block_size ≤ a))
get_dataptr_disjoint {mp} i j a b v ne ea eb = ground (
  arith,
  get_dataptr_lem i v,
  get_dataptr_lem j v,
  mul-suc-le mp.block_size i j,
  mul-suc-le mp.block_size j i,
  mul-suc-le mp.block_size i mp.num_max,
)
