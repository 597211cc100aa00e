-- ===== src/Mtxmng.antt =====
-- src/em_mtxmng.c: mutexes by number, in the blocks of a memory pool. A number is the bit pattern of an
-- `int`. `none` stands for a call that gives NULL to the C library or that reads outside the table.
pub mod Ids
mod Examples
use embedded_middle.Prelude.{
  ℕ, Option, none, some, List, ◌∷◌, ℤ, leb, if◌then◌else◌, update, em_success, em_error,
}
use embedded_middle.Prelude.Int.{eqb_ℤ, of_bits}
use embedded_middle.Mutex.{mutex_lock, mutex_unlock}
use embedded_middle.Mempool.{
  Mpool, try_alloc_block, free_block_by_dataidx, get_dataidx, get_dataptr,
}
use embedded_middle.Mempool

-- `em_mtxmng_t`. The address of the table of marks stands beside what it holds.
pub record Mtxmng : Type 0 where
  pub islock_at : ℕ
  pub islock : ℕ → ℕ
  pub mp_mutex : Mpool

-- Of an `em_mutex_t` on 64-bit Linux.
abbrev pub sizeof_mutex : ℕ
sizeof_mutex = 40

unfoldable pub init : {H : Type 0} → (ℕ → H → ℕ × H) → Mtxmng → ℕ → H → ℤ × Mtxmng × H
init alloc_func mtxm max_mutex_num h =
    let (islock, h₁) = alloc_func max_mutex_num h in
    let (ret, mp, h₂) = Mempool.create alloc_func mtxm.mp_mutex sizeof_mutex max_mutex_num h₁ in
    (ret, record mtxm { islock_at = islock; mp_mutex = mp }, h₂)

-- The addresses passed to `free_func`, in order.
pub destroy : Mtxmng → ℤ × List ℕ × Mtxmng
destroy mtxm =
    let (ret, freed, mp) = Mempool.destroy mtxm.mp_mutex in
    (ret, mtxm.islock_at ∷ freed, record mtxm { mp_mutex = mp })

-- The result of em_mutex_init is not looked at.
create_block : Mtxmng → Option ℕ × Mpool → ℤ × Mtxmng
create_block mtxm (none, mp) = (em_error, record mtxm { mp_mutex = mp })
create_block mtxm (some mutex, mp) = (of_bits (get_dataidx mp mutex), record mtxm { mp_mutex = mp })

pub create_mutex : Mtxmng → ℤ × Mtxmng
unfolding create_block
create_mutex mtxm = create_block mtxm (try_alloc_block mtxm.mp_mutex)

-- The result of em_mutex_destroy is not looked at.
pub delete_mutex : Mtxmng → ℕ → Option (ℤ × Mtxmng)
delete_mutex mtxm mutex_id = elim (get_dataptr mtxm.mp_mutex mutex_id) [
  | none ↦ none
  | some mutex ↦
      (let (ret, mp) = free_block_by_dataidx mtxm.mp_mutex mutex_id in
        some (ret, record mtxm { mp_mutex = mp }))
]

pub lock : Mtxmng → ℕ → ℤ → ℕ → ℤ × Mtxmng
lock mtxm mutex_id timeout_ms answer =
    if eqb_ℤ (mutex_lock (get_dataptr mtxm.mp_mutex mutex_id) timeout_ms answer) em_success
    then (em_success, record mtxm { islock = update mtxm.islock mutex_id 1 })
    else (em_error, mtxm)

-- The block record is read with no test of the number.
pub unlock : Mtxmng → ℕ → ℕ → Option (ℤ × Mtxmng)
unlock mtxm mutex_id answer =
    if leb mtxm.mp_mutex.num_max mutex_id
    then none
    else some (mutex_unlock answer, record mtxm { islock = update mtxm.islock mutex_id 0 })
