-- ===== src/Event/Examples.antt =====
-- Tests of the event manager, and the theorem about it at a pool of three events, one in use.
use embedded_middle.Prelude.{◌≡◌, refl, arith, none, some}
use embedded_middle.Semaphore.{sem_wait}
use embedded_middle.Mempool.{try_alloc_block, alloc_block, alloc_locked, alloc_blockmng}
use embedded_middle.Mempool.Sample.{sample_pool, sample_pool-IsValid}
use embedded_middle.Mempool.Valid.{IsValid}
use embedded_middle.Event.{Evtmng, event_init, factory, factory_block}

abbrev one : Evtmng
one = record { mp_event = sample_pool 88 }

pool-IsValid : IsValid one.mp_event
pool-IsValid = sample_pool-IsValid 88 (omega arith) (omega arith)

abbrev two : Evtmng
two = record one { mp_event = record one.mp_event { num_used = 2; sem = 1 } }

-- The second block of the pool.
made : factory 0 0 one ≡ (some 4184, two)
unfolding factory factory_block event_init try_alloc_block alloc_block alloc_locked alloc_blockmng
    sem_wait
made = refl

-- When the mutex cannot be made there is no event, and the block of it stays in use.
leaks : factory 0 1 one ≡ (none, two)
unfolding factory factory_block event_init try_alloc_block alloc_block alloc_locked alloc_blockmng
    sem_wait
leaks = refl
