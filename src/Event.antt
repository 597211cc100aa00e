-- ===== src/Event.antt =====
-- src/em_eventflag.c, the events and their manager: a condition variable with its mutex, and those by
-- number in the blocks of a memory pool. What the calls of the C library's threads answer is an
-- argument, 0 for success.
pub mod Factory
mod Examples
use embedded_middle.Prelude.{
  ℕ, ◌==◌, Option, none, some, List, ℤ, if◌then◌else◌, em_success, em_error, em_err_timeout,
  em_no_timeout,
}
use embedded_middle.Prelude.Int.{eqb_ℤ}
use embedded_middle.Mempool.{Mpool, try_alloc_block, free_at, get_dataidx, get_dataptr}
use embedded_middle.Mempool

pub event_init : ℕ → ℕ → ℤ
event_init cond_answer mutex_answer =
    if cond_answer == 0 then (if mutex_answer == 0 then em_success else em_error) else em_error

pub event_destroy : ℕ → ℕ → ℤ
event_destroy cond_answer mutex_answer =
    if cond_answer == 0 then (if mutex_answer == 0 then em_success else em_error) else em_error

-- The answer is that of pthread_cond_wait, or with a timeout of pthread_cond_timedwait.
pub event_wait : ℤ → ℕ → ℤ
event_wait timeout_ms answer =
    if eqb_ℤ timeout_ms em_no_timeout
    then (if answer == 0 then em_success else em_error)
    else (if answer == 0 then em_success else em_err_timeout)

-- An error of the three calls is only logged.
pub event_broadcast : ℕ → ℕ → ℕ → ℤ
event_broadcast lock_answer broadcast_answer unlock_answer = em_success

pub event_set : ℕ → ℕ → ℕ → ℤ
event_set lock_answer signal_answer unlock_answer = em_success

-- `em_evtmng_t`, without the pointer to the freeing function, which is not used.
pub record Evtmng : Type 0 where
  pub mp_event : Mpool

-- Of an `em_event_t` on 64-bit Linux.
abbrev pub sizeof_event : ℕ
sizeof_event = 88

unfoldable pub init : {H : Type 0} → (ℕ → H → ℕ × H) → Evtmng → ℕ → H → ℤ × Evtmng × H
init alloc_func evtmng max_event_num h =
    let (ret, mp, h') = Mempool.create alloc_func evtmng.mp_event sizeof_event max_event_num h in
    (if eqb_ℤ ret em_success then em_success else em_error, record evtmng { mp_event = mp }, h')

pub destroy : Evtmng → ℤ × List ℕ × Evtmng
destroy evtmng =
    let (ret, freed, mp) = Mempool.destroy evtmng.mp_event in
    (if eqb_ℤ ret em_success then em_success else em_error, freed, record evtmng { mp_event = mp })

factory_block : ℕ → ℕ → Evtmng → Option ℕ × Mpool → Option ℕ × Evtmng
unfolding event_init
factory_block cond_answer mutex_answer evtmng (none, mp) = (none, record evtmng { mp_event = mp })
factory_block cond_answer mutex_answer evtmng (some event, mp) =
    if eqb_ℤ (event_init cond_answer mutex_answer) em_success
    then (some event, record evtmng { mp_event = mp })
    else (none, record evtmng { mp_event = mp })

-- `none` is NULL.
pub factory : ℕ → ℕ → Evtmng → Option ℕ × Evtmng
unfolding factory_block
factory cond_answer mutex_answer evtmng =
    factory_block cond_answer mutex_answer evtmng (try_alloc_block evtmng.mp_event)

pub dispose : ℕ → ℕ → Evtmng → ℕ → ℤ × Evtmng
unfolding event_destroy
dispose cond_answer mutex_answer evtmng evt_p =
    if eqb_ℤ (event_destroy cond_answer mutex_answer) em_success
    then (let (ret, mp) = free_at evtmng.mp_event evt_p in (ret, record evtmng { mp_event = mp }))
    else (em_error, evtmng)

pub evtp2id : Evtmng → ℕ → ℕ
evtp2id evtmng evt_p = get_dataidx evtmng.mp_event evt_p

pub evtid2p : Evtmng → ℕ → Option ℕ
evtid2p evtmng event_id = get_dataptr evtmng.mp_event event_id
