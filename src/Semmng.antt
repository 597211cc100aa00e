-- ===== src/Semmng.antt =====
-- src/em_semmng.c: semaphores by number, in the blocks of a memory pool.
pub mod Factory
mod Examples
use embedded_middle.Prelude.{
  ℕ, ◌^◌, Option, none, some, List, ℤ, ltb, if◌then◌else◌, update, em_success, em_error,
}
use embedded_middle.Prelude.Int.{eqb_ℤ}
use embedded_middle.Semaphore.{sem_init, sem_destroy}
use embedded_middle.Mempool.{Mpool, try_alloc_block, free_at, get_dataidx, get_dataptr}
use embedded_middle.Mempool

-- `em_semmng_t`, with the count of the semaphore at each address.
pub record Semmng : Type 0 where
  pub mp_semaphore : Mpool
  pub sem : ℕ → ℕ

-- Of a `sem_t` of the C library on 64-bit Linux.
abbrev pub sizeof_sem : ℕ
sizeof_sem = 32

unfoldable pub init : {H : Type 0} → (ℕ → H → ℕ × H) → Semmng → ℕ → H → ℤ × Semmng × H
init alloc_func smm max_sem_num h =
    let (ret, mp, h') = Mempool.create alloc_func smm.mp_semaphore sizeof_sem max_sem_num h in
    (ret, record smm { mp_semaphore = mp }, h')

-- `sem_init` of the C library refuses a value above SEM_VALUE_MAX, which is 2 ^ 31 - 1; `value` is
-- the bit pattern of an `int`.
factory_block : Semmng → ℕ → Option ℕ × Mpool → Option ℕ × Semmng
factory_block smm value (none, mp) = (none, record smm { mp_semaphore = mp })
factory_block smm value (some p, mp) =
    if ltb value (2 ^ 31)
    then (some p, record smm { mp_semaphore = mp; sem = update smm.sem p (sem_init value) })
    else (none, record smm { mp_semaphore = mp })

-- `none` is NULL.
pub factory : Semmng → ℕ → Option ℕ × Semmng
unfolding factory_block
factory smm value = factory_block smm value (try_alloc_block smm.mp_semaphore)

pub dispose : Semmng → ℕ → ℤ × Semmng
dispose smm sem_p =
    if eqb_ℤ (sem_destroy (smm.sem sem_p)) em_success
    then (let (ret, mp) = free_at smm.mp_semaphore sem_p in (ret, record smm { mp_semaphore = mp }))
    else (em_error, smm)

pub destroy : Semmng → ℤ × List ℕ × Semmng
destroy smm =
    let (ret, freed, mp) = Mempool.destroy smm.mp_semaphore in
    (ret, freed, record smm { mp_semaphore = mp })

pub semp2id : Semmng → ℕ → ℕ
semp2id smm sem_p = get_dataidx smm.mp_semaphore sem_p

pub semid2p : Semmng → ℕ → Option ℕ
semid2p smm sem_id = get_dataptr smm.mp_semaphore sem_id
