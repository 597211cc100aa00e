-- ===== src/Timer/Examples.antt =====
-- Tests of the timers, and the theorems about them at a pool of three, one in use.
use embedded_middle.Prelude.{
  ℕ, ◌+◌, ◌<◌, ◌≡◌, refl, arith, true, some, em_success, em_error, pos, [], ◌∷◌,
}
use embedded_middle.Semaphore.{sem_wait}
use embedded_middle.Time.{calc_timespec}
use embedded_middle.Mempool.{
  try_alloc_block, alloc_block, alloc_locked, alloc_blockmng, get_dataidx, get_dataptr,
}
use embedded_middle.Mempool.Valid.{IsValid}
use embedded_middle.Mempool.Sample.{sample_pool, sample_pool-IsValid}
use embedded_middle.Timer.{
  Timermng, TimerSetting, setting_offset, creates, sets_time, cbfunc, create, create_block,
  create_timer, delete,
}
use embedded_middle.Timer.Numbers.{IsTimer, IsSame, create_lem}

abbrev tick : TimerSetting
tick = record { interval_ms = pos 1500; timer_func = 70; arg = 7 }

abbrev one : Timermng
one = record {
  mp_timerinfo = sample_pool 32;
  linux_timer_id = λ p. 9;
  setting = λ p. record { interval_ms = pos 10; timer_func = 60; arg = 6 };
}

pool-IsValid : IsValid one.mp_timerinfo
pool-IsValid = sample_pool-IsValid 32 (omega arith) (omega arith)

-- The number of the second block is 2.
second :
    let (ret, timer_id, tmrmng', calls) = create one tick (some 5) true in
    (ret ≡ em_success) × (timer_id ≡ some 2) × (cbfunc tmrmng' 4136 ≡ (70, 7))
unfolding create create_block create_timer cbfunc get_dataidx try_alloc_block alloc_block
    alloc_locked alloc_blockmng sem_wait
second = (refl, refl, refl)

first-IsTimer : IsTimer one 1 4096
unfolding get_dataptr
first-IsTimer = refl

-- The number 0 is no timer.
no_timer : delete one 0 (pos 0) ≡ (em_error, one, [])
unfolding delete get_dataptr
no_timer = refl

create_lem_example :
    let (ret, timer_id, tmrmng', calls) = create one tick (some 5) true in
    (ret ≡ em_success)
    × ((n p : ℕ) × (timer_id ≡ some n)
        × (0 < n)
        × IsTimer tmrmng' n p
        × (calls ≡ creates (p + setting_offset) ∷ sets_time 5 (calc_timespec (pos 1500)) ∷ [])
        × (tmrmng'.linux_timer_id p ≡ 5)
        × (cbfunc tmrmng' (p + setting_offset) ≡ (70, 7))
        × ((k q : ℕ) → IsTimer one k q → IsTimer tmrmng' k q × IsSame one tmrmng' q))
    × IsValid tmrmng'.mp_timerinfo
create_lem_example = create_lem one tick 5 pool-IsValid (omega arith)
